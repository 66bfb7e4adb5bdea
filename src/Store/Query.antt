-- ===== src/Store/Query.antt =====
-- `list_jobs` of src/store.rs. What SQLite decides is a parameter: `LIKE`, and the order of the rows
-- that `ORDER BY created_at_ms DESC` gives.
use execra.Base.{
  ℕ, Text, codes, Bool, true, ◌&&◌, ◌≡◌, Option, none, some, List, [], ◌∷◌, ◌++◌, take, text_eq,
  if◌then◌else◌, ◌==◌,
}
use execra.Base.Int.{ℤ, pos, negsuc, leb_ℤ}
use execra.Base.Sorted.{count, filter, is_sorted}
use execra.Finding.{SystemTime}
use execra.Host.{Serde}
use execra.Job.{Job, JobState}
use execra.Store.{Store, Result, ok, ◌>>=◌, check_schema_version, build_job}
use execra.Store.Rows.{JobRow, state_to_string}
use execra.Store.Time.{as_i64, to_ms}

pub record Sqlite : Type 0 where
  pub like : Text → Text → Bool
  pub descending : List JobRow → List JobRow

abbrev pub row_ms : JobRow → ℤ
row_ms r = r.created_at_ms

-- `ORDER BY` gives the rows that it is given, in the order that it is asked for.
pub record IsOrdering (q : Sqlite) : Type 0 where
  pub same : (p : JobRow → Bool) (rs : List JobRow) → count p (q.descending rs) ≡ count p rs
  pub sorted : (rs : List JobRow) → is_sorted row_ms (q.descending rs) ≡ true

pub record JobsFilter : Type 0 where
  pub tag : Option Text
  pub state : Option JobState
  pub created_after : Option SystemTime
  pub created_before : Option SystemTime

abbrev pub default : JobsFilter
default = record { tag = none; state = none; created_after = none; created_before = none }

-- `tag.replace('"', "\\\"")`
unfoldable pub escape : Text → Text
escape [] = []
escape (c ∷ t) = if c == 34 then 92 ∷ 34 ∷ escape t else c ∷ escape t

unfoldable pub tag_pattern : Text → Text
unfolding escape
tag_pattern tag = codes "%\"" ++ escape tag ++ codes "\"%"

abbrev pub state_clause : Option JobState → JobRow → Bool
state_clause none r = true
state_clause (some s) r = text_eq r.state (state_to_string s)

abbrev pub after_clause : Option SystemTime → JobRow → Bool
after_clause none r = true
after_clause (some t) r = leb_ℤ (to_ms t) r.created_at_ms

abbrev pub before_clause : Option SystemTime → JobRow → Bool
before_clause none r = true
before_clause (some t) r = leb_ℤ r.created_at_ms (to_ms t)

abbrev pub tag_clause : Sqlite → Option Text → JobRow → Bool
tag_clause q none r = true
tag_clause q (some tag) r = q.like (tag_pattern tag) r.tags_json

-- The clauses after `WHERE`, joined by `AND`.
unfoldable pub row_fits : Sqlite → JobsFilter → JobRow → Bool
unfolding text_eq
row_fits q f r =
    state_clause f.state r
    && after_clause f.created_after r
    && before_clause f.created_before r
    && tag_clause q f.tag r

-- `LIMIT ?`: a negative number is no limit.
abbrev pub limited : ℤ → List JobRow → List JobRow
limited (pos n) rs = take n rs
limited (negsuc n) rs = rs

unfoldable pub selected : Sqlite → ℕ → JobsFilter → List JobRow → List JobRow
unfolding row_fits as_i64
selected q limit f rs = limited (as_i64 limit) (q.descending (filter (row_fits q f) rs))

unfoldable pub read : Serde → JobRow → Result Job
unfolding check_schema_version build_job
read s r = check_schema_version r.schema_version >>= λ u. build_job s r

unfoldable pub decode_jobs : Serde → List JobRow → Result (List Job)
unfolding read
decode_jobs s [] = ok []
decode_jobs s (r ∷ rs) =
    let rest = decode_jobs s rs in read s r >>= λ job. rest >>= λ jobs. ok (job ∷ jobs)

-- A query that SQLite runs.
unfoldable pub list_jobs : Sqlite → Serde → ℕ → JobsFilter → Store → Result (List Job)
unfolding selected decode_jobs
list_jobs q s limit f t = decode_jobs s (selected q limit f t.jobs)
