-- ===== src/Store/History.antt =====
-- What `load_job` gives after `upsert_job` (src/store.rs).
use execra.Base.{
  suc, Bool, ltb, ◌^◌, Text, true, ◌≡◌, refl, sym, ap, ◌∙◌, arith, Option, none, some, List, [],
  ◌∷◌, if_rule, subst, ==_iff, Option-cases, inl, inr,
}
use execra.Base.Int.{ℤ, pos, negsuc}
use execra.Host.{Host, Serde, IsFaithful}
use execra.Job.{Job, JobId}
use execra.Outcome.{Outcome}
use execra.Progress.{unknown}
use execra.Store.{
  Store, ok, execute, upsert_row, job_row, upsert_with, upsert_job, find_row, read_row, load_job,
  build_job, check_schema_version, exit_of, exit_code_of, exit_signal_of, started_of, started_ms_of,
  encode_outcome, decode_outcome, as_i32, cast,
}
use execra.Store.Rows.{JobRow, state_from_json-state_to_string}
use execra.Store.Time.{to_ms, from_ms}

-- A job as it comes back: without its phase and progress, with its times in whole milliseconds, and
-- without an exit code that had neither a code nor a signal.
abbrev pub reloaded : Job → Job
reloaded job = record job {
  created_at = from_ms (to_ms job.created_at);
  started_at = started_of (started_ms_of job.started_at);
  current_phase = none;
  progress = unknown;
  exit = exit_of (exit_code_of job.exit) (exit_signal_of job.exit);
}

decode_outcome-encode_outcome :
    (s : Serde) (o : Option Outcome) (j : Option Text)
    → IsFaithful s
    → encode_outcome s o ≡ ok j
    → decode_outcome s j ≡ ok o
decode_outcome-encode_outcome s none j f e = ground arith
decode_outcome-encode_outcome s (some o) j f e = elim (Option-cases (s.outcome_to_json o)) [
  | inl n ↦ ground arith
  | inr (t, n) ↦ ground (arith, f.outcome_back o t)
]

abbrev pub is_i32 : Option ℤ → Bool
is_i32 none = true
is_i32 (some (pos n)) = ltb n (2 ^ 31)
is_i32 (some (negsuc n)) = ltb n (2 ^ 31)

cast_lem : (o : Option ℤ) → is_i32 o ≡ true → cast o ≡ o
unfolding as_i32
cast_lem none h = refl
cast_lem (some (pos n)) h = ground arith
cast_lem (some (negsuc n)) h = ground arith

-- The code and the signal of an exit are `i32`.
abbrev pub HasI32 : Job → Type 0
HasI32 job = (is_i32 (exit_code_of job.exit) ≡ true) × (is_i32 (exit_signal_of job.exit) ≡ true)

build_job-job_row :
    (s : Serde) (job : Job) (r : JobRow)
    → IsFaithful s
    → HasI32 job
    → job_row s job ≡ ok r
    → build_job s r ≡ ok (reloaded job)
unfolding job_row build_job
build_job-job_row s job r f i e = ground (
  arith,
  f.command_back job.command r.command_json,
  decode_outcome-encode_outcome s job.outcome r.outcome_json f,
  state_from_json-state_to_string s job.state f.state_plain,
  cast_lem (exit_code_of job.exit) i.0,
  cast_lem (exit_signal_of job.exit) i.1,
)

find_row-upsert_row :
    (r : JobRow) (rs : List JobRow)
    → find_row r.id rs ≡ none
    → find_row r.id (upsert_row r rs) ≡ some r
unfolding find_row upsert_row
find_row-upsert_row r [] e = ground (arith, ==_iff r.id r.id)
find_row-upsert_row r (x ∷ rs) e = ground (arith, find_row-upsert_row r rs)

job_row-id :
    (s : Serde) (job : Job) (r : JobRow)
    → job_row s job ≡ ok r
    → (r.id ≡ job.id) × (r.schema_version ≡ pos 0)
unfolding job_row
job_row-id s job r e = ground arith

read_row-job_row :
    (s : Serde) (job : Job) (r : JobRow)
    → IsFaithful s
    → HasI32 job
    → job_row s job ≡ ok r
    → read_row s (some r) ≡ ok (some (reloaded job))
unfolding read_row check_schema_version
read_row-job_row s job r f i e =
    ground (arith, build_job-job_row s job r f i e, job_row-id s job r e)

upsert_with-ok :
    (h : Host) (r : JobRow) (t : Store)
    → h.runs t.statements ≡ true
    → upsert_with h (ok r) t
      ≡ (ok tt, record t { jobs = upsert_row r t.jobs; statements = suc t.statements })
unfolding upsert_with execute
upsert_with-ok h r t w =
    if_rule
      (λ u. u ≡ (ok tt, record t { jobs = upsert_row r t.jobs; statements = suc t.statements }))
      (h.runs t.statements) (λ y. refl) (λ y. cc)

find_row-upsert_row_at :
    (id : JobId) (r : JobRow) (rs : List JobRow)
    → r.id ≡ id
    → find_row id rs ≡ none
    → find_row id (upsert_row r rs) ≡ some r
find_row-upsert_row_at id r rs i n =
    subst (λ x. find_row x rs ≡ none → find_row x (upsert_row r rs) ≡ some r) i
      (find_row-upsert_row r rs) n

upsert_job-row :
    (h : Host) (job : Job) (t : Store) (r : JobRow)
    → job_row h.serde job ≡ ok r
    → h.runs t.statements ≡ true
    → upsert_job h job t
      ≡ (ok tt, record t { jobs = upsert_row r t.jobs; statements = suc t.statements })
unfolding upsert_job
upsert_job-row h job t r e w = ap (λ x. upsert_with h x t) e ∙ upsert_with-ok h r t w

load_job-found :
    (s : Serde) (job : Job) (r : JobRow) (t : Store)
    → IsFaithful s
    → HasI32 job
    → job_row s job ≡ ok r
    → find_row job.id t.jobs ≡ some r
    → load_job s job.id t ≡ ok (some (reloaded job))
unfolding load_job
load_job-found s job r t f i e g = ap (read_row s) g ∙ read_row-job_row s job r f i e

-- A job that was not in the store, once its row has been written, is loaded as it was, up to what
-- the row does not hold, its exit code and signal being 32-bit integers. It rests on JSON of commands
-- and outcomes that is read back as it was written, and on serde_json reading a plain string.
pub load_job-upsert_job :
    (h : Host) (job : Job) (t : Store) (r : JobRow)
    → IsFaithful h.serde
    → HasI32 job
    → job_row h.serde job ≡ ok r
    → find_row job.id t.jobs ≡ none
    → h.runs t.statements ≡ true
    → let (done, t') = upsert_job h job t in
      (done ≡ ok tt) × (load_job h.serde job.id t' ≡ ok (some (reloaded job)))
load_job-upsert_job h job t r f i e n w =
    subst (λ u. (u.0 ≡ ok tt) × (load_job h.serde job.id u.1 ≡ ok (some (reloaded job))))
      (sym (upsert_job-row h job t r e w))
      (
        refl,
        load_job-found h.serde job r
            (record t { jobs = upsert_row r t.jobs; statements = suc t.statements }) f i e
            (find_row-upsert_row_at job.id r t.jobs (job_row-id h.serde job r e).0 n),
      )
