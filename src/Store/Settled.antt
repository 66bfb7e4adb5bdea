-- ===== src/Store/Settled.antt =====
-- What the rows of the jobs are after `resurrect_stranded_jobs`, and what they are read as
-- (src/store.rs).
use execra.Base.{
  Text, codes, Bool, false, ◌≡◌, refl, sym, ◌∙◌, arith, List, [], ◌∷◌, map, text_eq, if_rule,
  length, Option-cases, inl, inr,
}
use execra.Base.Int.{ltb_ℤ}
use execra.Base.Sorted.{count}
use execra.Host.{Host, Serde, ReadsPlain}
use execra.Job.{Job}
use execra.Store.{
  Store, ok, execute, is_stranded, resurrect_row, resurrect_stranded_jobs, schema_version,
  check_schema_version, host_exited,
}
use execra.Store.Found.{read_lem, decode_jobs-cons}
use execra.Store.Query.{decode_jobs, read}
use execra.Store.Restart.{is_unfinished, is_stranded-state_from_string}
use execra.Store.Rows.{JobRow, escaped}

abbrev pub stranded : JobRow → Bool
stranded r = is_stranded r.state

abbrev pub unfinished : Job → Bool
unfinished j = is_unfinished j.state

-- Written by a later version.
abbrev pub too_new : JobRow → Bool
too_new r = ltb_ℤ schema_version r.schema_version

finalized_lem : is_stranded (codes "finalized") ≡ false
unfolding text_eq
finalized_lem = refl

resurrect_row-stranded : (json : Text) (r : JobRow) → stranded (resurrect_row json r) ≡ false
unfolding resurrect_row
resurrect_row-stranded json r =
    if_rule (λ (x : JobRow). stranded x ≡ false) (is_stranded r.state) (λ e. finalized_lem) (λ e. e)

map-stranded : (json : Text) (rs : List JobRow) → count stranded (map (resurrect_row json) rs) ≡ 0
map-stranded json [] = refl
map-stranded json (r ∷ rs) = ground (arith, resurrect_row-stranded json r, map-stranded json rs)

resurrect_row-too_new : (json : Text) (r : JobRow) → too_new (resurrect_row json r) ≡ too_new r
unfolding resurrect_row
resurrect_row-too_new json r = ground arith

map-too_new :
    (json : Text) (rs : List JobRow)
    → (count too_new (map (resurrect_row json) rs) ≡ count too_new rs)
      × (length (map (resurrect_row json) rs) ≡ length rs)
map-too_new json [] = (refl, refl)
map-too_new json (r ∷ rs) = ground (arith, resurrect_row-too_new json r, map-too_new json rs)

-- Once it has run, no row is stranded; the rows' versions stay.
pub resurrect_stranded_jobs-rows :
    (h : Host) (t : Store)
    → (resurrect_stranded_jobs h t).0 ≡ ok tt
    → let rs = (resurrect_stranded_jobs h t).1.jobs in
      (count stranded rs ≡ 0)
      × (count too_new rs ≡ count too_new t.jobs)
      × (length rs ≡ length t.jobs)
unfolding resurrect_stranded_jobs execute
resurrect_stranded_jobs-rows h t e = elim (Option-cases (h.serde.outcome_to_json host_exited)) [
  | inl n ↦ ground arith
  | inr (json, j) ↦ ground (arith, map-stranded json t.jobs, map-too_new json t.jobs)
]

read-too_new : (s : Serde) (r : JobRow) (j : Job) → read s r ≡ ok j → too_new r ≡ false
unfolding read check_schema_version
read-too_new s r j e = ground arith

resurrect_row-escaped :
    (json : Text) (r : JobRow) → escaped r ≡ false → escaped (resurrect_row json r) ≡ false
unfolding resurrect_row
resurrect_row-escaped json r h =
    if_rule (λ (x : JobRow). escaped x ≡ false) (is_stranded r.state) (λ e. refl) (λ e. h)

map-escaped :
    (json : Text) (rs : List JobRow)
    → count escaped rs ≡ 0
    → count escaped (map (resurrect_row json) rs) ≡ 0
map-escaped json [] h = refl
map-escaped json (r ∷ rs) h = ground (arith, resurrect_row-escaped json r, map-escaped json rs)

-- It writes no state with an escape.
pub resurrect_stranded_jobs-escaped :
    (h : Host) (t : Store)
    → (resurrect_stranded_jobs h t).0 ≡ ok tt
    → count escaped t.jobs ≡ 0
    → count escaped (resurrect_stranded_jobs h t).1.jobs ≡ 0
unfolding resurrect_stranded_jobs execute
resurrect_stranded_jobs-escaped h t e x =
    elim (Option-cases (h.serde.outcome_to_json host_exited)) [
      | inl n ↦ ground arith
      | inr (json, j) ↦ ground (arith, map-escaped json t.jobs x)
    ]

-- What is selected of rows of which none is stranded is not stranded.
pub decode_jobs-unfinished :
    (s : Serde) (rs : List JobRow) (js : List Job)
    → ReadsPlain s
    → count escaped rs ≡ 0
    → decode_jobs s rs ≡ ok js
    → count stranded rs ≡ 0
    → count unfinished js ≡ 0
unfolding decode_jobs
decode_jobs-unfinished s [] js p x e h = ground arith
decode_jobs-unfinished s (r ∷ rs) js p x e h =
    let (j, rest, a, b, c) = decode_jobs-cons s r rs js e in
    ground (
      arith,
      decode_jobs-unfinished s rs rest p (omega (arith, x)) b,
      is_stranded-state_from_string r.state j.state
          (sym (p r.state (ground (arith, x))) ∙ (read_lem s r j a).0),
    )

-- What is read was not written by a later version.
pub decode_jobs-too_new :
    (s : Serde) (rs : List JobRow) (js : List Job) → decode_jobs s rs ≡ ok js → count too_new rs ≡ 0
unfolding decode_jobs
decode_jobs-too_new s [] js e = refl
decode_jobs-too_new s (r ∷ rs) js e =
    let (j, rest, a, b, c) = decode_jobs-cons s r rs js e in
    ground (arith, decode_jobs-too_new s rs rest b, read-too_new s r j a)
