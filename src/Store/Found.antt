-- ===== src/Store/Found.antt =====
-- Which jobs `list_jobs` of src/store.rs finds.
use execra.Base.{
  not, ℕ, ◌+◌, ◌^◌, ◌<◌, ◌≤◌, Bool, true, false, ◌&&◌, ◌≡◌, refl, sym, ap, ◌∙◌, arith, some, List,
  [], ◌∷◌, ◌++◌, take, take-all, drop, length,
}
use execra.Base.Int.{ℤ, pos, negsuc, leb_ℤ}
use execra.Base.Sorted.{
  count, count-append, filter, filter-count, is_sorted, take-drop, length-take, take-is_sorted,
}
use execra.Host.{Serde}
use execra.Job.{Job}
use execra.Store.{Store, Result, ok, err, ◌>>=◌, build_job, check_schema_version}
use execra.Store.Rows.{JobRow}
use execra.Store.Time.{as_i64, from_ms}
use execra.Store.Query.{
  Sqlite, IsOrdering, JobsFilter, default, row_ms, row_fits, limited, selected, read, decode_jobs,
  list_jobs,
}

abbrev pub created : Job → ℤ
created j = j.created_at

abbrev pub holds : (Job → Bool) → Result Job → Bool
holds p (err e) = false
holds p (ok j) = p j

-- A test of the job that a row is read as.
abbrev pub reads : Serde → (Job → Bool) → JobRow → Bool
reads s p r = holds p (read s r)

both_ok :
    (a : Result Job) (b : Result (List Job)) (js : List Job)
    → (a >>= λ j. b >>= λ rest. ok (j ∷ rest)) ≡ ok js
    → (j : Job) × (rest : List Job) × (a ≡ ok j) × (b ≡ ok rest) × (js ≡ j ∷ rest)
both_ok (err x) b js e = ground arith
both_ok (ok j) (err x) js e = ground arith
both_ok (ok j) (ok rest) js e = (j, rest, refl, refl, ground arith)

-- What was read is the first row's job and the others'.
pub decode_jobs-cons :
    (s : Serde) (r : JobRow) (rs : List JobRow) (js : List Job)
    → decode_jobs s (r ∷ rs) ≡ ok js
    → (j : Job) × (rest : List Job) × (read s r ≡ ok j)
      × (decode_jobs s rs ≡ ok rest)
      × (js ≡ j ∷ rest)
unfolding decode_jobs
decode_jobs-cons s r rs js e = both_ok (read s r) (decode_jobs s rs) js e

decode_jobs-count :
    (s : Serde) (p : Job → Bool) (rs : List JobRow) (js : List Job)
    → decode_jobs s rs ≡ ok js
    → count p js ≡ count (reads s p) rs
unfolding decode_jobs
decode_jobs-count s p [] js e = ground arith
decode_jobs-count s p (r ∷ rs) js e =
    let (j, rest, a, b, c) = decode_jobs-cons s r rs js e in
    ground (arith, decode_jobs-count s p rs rest b)

decode_jobs-length :
    (s : Serde) (rs : List JobRow) (js : List Job)
    → decode_jobs s rs ≡ ok js
    → length js ≡ length rs
unfolding decode_jobs
decode_jobs-length s [] js e = ground arith
decode_jobs-length s (r ∷ rs) js e =
    let (j, rest, a, b, c) = decode_jobs-cons s r rs js e in
    ground (arith, decode_jobs-length s rs rest b)

from_ms-leb : (a b : ℤ) → leb_ℤ a b ≡ true → leb_ℤ (from_ms a) (from_ms b) ≡ true
unfolding from_ms
from_ms-leb a b h = ground arith

-- What a job has from the columns that a query looks at.
pub read_lem :
    (s : Serde) (r : JobRow) (j : Job)
    → read s r ≡ ok j
    → (s.state_from_json r.state ≡ some j.state) × (created j ≡ from_ms (row_ms r))
unfolding read build_job check_schema_version
read_lem s r j e = ground arith

decode_jobs-is_sorted :
    (s : Serde) (rs : List JobRow) (js : List Job)
    → decode_jobs s rs ≡ ok js
    → is_sorted row_ms rs ≡ true
    → is_sorted created js ≡ true
unfolding decode_jobs
decode_jobs-is_sorted s [] js e h = ground arith
decode_jobs-is_sorted s (r ∷ []) js e h = ground arith
decode_jobs-is_sorted s (r ∷ x ∷ rs) js e h =
    let (j, rest, a, b, c) = decode_jobs-cons s r (x ∷ rs) js e in
    let (k, more, a', b', c') = decode_jobs-cons s x rs rest b in
    ground (
      arith,
      decode_jobs-is_sorted s (x ∷ rs) rest b,
      read_lem s r j a,
      read_lem s x k a',
      from_ms-leb (row_ms x) (row_ms r),
    )

-- The rows that fit and are left out.
abbrev pub unlisted : Sqlite → ℕ → JobsFilter → List JobRow → List JobRow
unlisted q limit f rs = drop limit (q.descending (filter (row_fits q f) rs))

as_i64-small : (n : ℕ) → n < 2 ^ 63 → as_i64 n ≡ pos n
unfolding as_i64
as_i64-small n h = ground arith

pub selected-take :
    (q : Sqlite) (limit : ℕ) (f : JobsFilter) (rs : List JobRow)
    → limit < 2 ^ 63
    → selected q limit f rs ≡ take limit (q.descending (filter (row_fits q f) rs))
unfolding selected
selected-take q limit f rs h =
    ap (λ l. limited l (q.descending (filter (row_fits q f) rs))) (as_i64-small limit h)

-- The jobs that `list_jobs` gives and the rows that it leaves out are those that fit, as often as they
-- stand in the table; they are in order, and as many as are asked for at most.
pub list_jobs_lem :
    (q : Sqlite) (s : Serde) (limit : ℕ) (f : JobsFilter) (t : Store) (js : List Job)
    (p : Job → Bool)
    → IsOrdering q
    → limit < 2 ^ 63
    → list_jobs q s limit f t ≡ ok js
    → (count p js + count (reads s p) (unlisted q limit f t.jobs)
        ≡ count (λ r. row_fits q f r && reads s p r) t.jobs)
      × (is_sorted created js ≡ true)
      × (length js ≤ limit)
unfolding list_jobs
list_jobs_lem q s limit f t js p o h e =
    let rows = q.descending (filter (row_fits q f) t.jobs) in
    let d : decode_jobs s (take limit rows) ≡ ok js =
      ap (decode_jobs s) (sym (selected-take q limit f t.jobs h)) ∙ e in
    let whole : count (reads s p) (take limit rows ++ drop limit rows) ≡ count (reads s p) rows =
      ap (count (reads s p)) (take-drop limit rows) in
    (
      omega (
        arith,
        decode_jobs-count s p (take limit rows) js d,
        count-append (reads s p) (take limit rows) (drop limit rows),
        whole,
        o.same (reads s p) (filter (row_fits q f) t.jobs),
        filter-count (reads s p) (row_fits q f) t.jobs,
      ),
      decode_jobs-is_sorted s (take limit rows) js d
          (take-is_sorted row_ms limit rows (o.sorted (filter (row_fits q f) t.jobs))),
      omega (arith, decode_jobs-length s (take limit rows) js d, length-take limit rows),
    )

filter-none :
    {A : Type 0} (p m : A → Bool) (xs : List A) → count p xs ≡ 0 → count p (filter m xs) ≡ 0
unfolding filter
filter-none p m [] h = refl
filter-none p m (x ∷ xs) h = ground (arith, filter-none p m xs)

limited-none :
    (p : JobRow → Bool) (n : ℤ) (rs : List JobRow) → count p rs ≡ 0 → count p (limited n rs) ≡ 0
limited-none p (negsuc n) rs h = h
limited-none p (pos n) rs h =
    omega (arith, count-append p (take n rs) (drop n rs), h, ap (count p) (take-drop n rs))

-- What no row of the table satisfies, none that is selected does.
pub selected-none :
    (q : Sqlite) (limit : ℕ) (f : JobsFilter) (p : JobRow → Bool) (rs : List JobRow)
    → IsOrdering q
    → count p rs ≡ 0
    → count p (selected q limit f rs) ≡ 0
unfolding selected
selected-none q limit f p rs o h =
    limited-none p (as_i64 limit) (q.descending (filter (row_fits q f) rs))
      (o.same p (filter (row_fits q f) rs) ∙ filter-none p (row_fits q f) rs h)

all_fit :
    (q : Sqlite) (p : JobRow → Bool) (rs : List JobRow)
    → count p (filter (row_fits q default) rs) ≡ count p rs
unfolding row_fits
all_fit q p rs = filter-count p (row_fits q default) rs

length-count : {A : Type 0} (xs : List A) → length xs ≡ count (λ x. true) xs
length-count [] = refl
length-count (x ∷ xs) = omega (arith, length-count xs)

-- Without a filter, and with room for it, the whole table is selected.
pub selected-all :
    (q : Sqlite) (limit : ℕ) (p : JobRow → Bool) (rs : List JobRow)
    → IsOrdering q
    → limit < 2 ^ 63
    → length rs ≤ limit
    → count p (selected q limit default rs) ≡ count p rs
selected-all q limit p rs o h l =
    let fitting = filter (row_fits q default) rs in
    let same : (p : JobRow → Bool) → count p (q.descending fitting) ≡ count p rs =
      λ p. o.same p fitting ∙ all_fit q p rs in
    ap (count p) (
      selected-take q limit default rs h
      ∙ take-all limit (q.descending fitting) (
          omega (arith, length-count (q.descending fitting), same (λ r. true), length-count rs, l)))
    ∙ same p

-- A row that is not read as a job: of a later version, or with a column that cannot be decoded.
abbrev pub unreadable : Serde → JobRow → Bool
unreadable s r = not (reads s (λ j. true) r)

read_total :
    (s : Serde) (r : JobRow) (x : Result Job)
    → read s r ≡ x
    → not (holds (λ j. true) x) ≡ false
    → (j : Job) × (read s r ≡ ok j)
read_total s r (err e) i h = ground arith
read_total s r (ok j) i h = (j, i)

decode_jobs-total :
    (s : Serde) (rs : List JobRow)
    → count (unreadable s) rs ≡ 0
    → (js : List Job) × (decode_jobs s rs ≡ ok js)
unfolding decode_jobs
decode_jobs-total s [] h = ([], refl)
decode_jobs-total s (r ∷ rs) h =
    let first = read_total s r (read s r) refl (ground arith) in
    let rest = decode_jobs-total s rs (ground arith) in
    (
      first.0 ∷ rest.0,
      ap (λ x. x >>= λ j. decode_jobs s rs >>= λ js. ok (j ∷ js)) first.1
          ∙ ap (λ x. x >>= λ js. ok (first.0 ∷ js)) rest.1,
    )

-- Where every row can be read, the query gives jobs.
pub list_jobs-total :
    (q : Sqlite) (s : Serde) (limit : ℕ) (f : JobsFilter) (t : Store)
    → IsOrdering q
    → count (unreadable s) t.jobs ≡ 0
    → (js : List Job) × (list_jobs q s limit f t ≡ ok js)
unfolding list_jobs
list_jobs-total q s limit f t o h =
    decode_jobs-total s (selected q limit f t.jobs)
      (selected-none q limit f (unreadable s) t.jobs o h)
