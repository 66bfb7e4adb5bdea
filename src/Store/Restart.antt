-- ===== src/Store/Restart.antt =====
-- What a store holds after a restart: `resurrect_stranded_jobs` of src/store.rs.
use execra.Base.{
  suc, Text, codes, Bool, true, false, ◌≡◌, refl, sym, ap, ◌∙◌, subst, arith, some, List, [], ◌∷◌,
  map, if◌then◌else◌, if_rule₂, Option-cases, inl, inr,
}
use execra.Base.Sorted.{count}
use execra.Host.{Host, Serde, IsFaithful, ReadsPlain, state_from_string}
use execra.Job.{Job, JobId, JobState}
use execra.Store.{
  Store, ok, execute, find_row, read_row, load_job, build_job, is_stranded, host_exited,
  resurrect_row, resurrect_stranded_jobs,
}
use execra.Store.Rows.{JobRow, escaped, state_to_string, state_from_json-state_to_string}

-- The states of a job that has not ended.
abbrev pub is_unfinished : JobState → Bool
is_unfinished JobState.queued = true
is_unfinished JobState.running = true
is_unfinished JobState.exited = true
is_unfinished JobState.finalized = false
is_unfinished JobState.cancelled = false

-- A job as the next process finds it.
abbrev pub resurrected : Job → Job
resurrected job =
    if is_unfinished job.state
    then record job { state = JobState.finalized; outcome = some host_exited }
    else job

pub is_stranded-state_from_string :
    (t : Text) (s : JobState) → state_from_string t ≡ some s → is_stranded t ≡ is_unfinished s
unfolding state_from_string
is_stranded-state_from_string t s e = ground arith

build_job-state :
    (s : Serde) (r : JobRow) (job : Job)
    → ReadsPlain s
    → escaped r ≡ false
    → build_job s r ≡ ok job
    → state_from_string r.state ≡ some job.state
unfolding build_job
build_job-state s r job p x b = ground (arith, p r.state x)

build_job-finalized :
    (s : Serde) (json : Text) (r : JobRow) (job : Job)
    → ReadsPlain s
    → s.outcome_from_json json ≡ some host_exited
    → build_job s r ≡ ok job
    → build_job s (record r { state = codes "finalized"; outcome_json = some json })
      ≡ ok (record job { state = JobState.finalized; outcome = some host_exited })
unfolding build_job state_to_string
build_job-finalized s json r job p j b =
    ground (arith, state_from_json-state_to_string s JobState.finalized p)

build_job-resurrect_row :
    (s : Serde) (json : Text) (r : JobRow) (job : Job)
    → ReadsPlain s
    → escaped r ≡ false
    → s.outcome_from_json json ≡ some host_exited
    → build_job s r ≡ ok job
    → build_job s (resurrect_row json r) ≡ ok (resurrected job)
unfolding resurrect_row
build_job-resurrect_row s json r job p x j b =
    if_rule₂ (λ x y. build_job s x ≡ ok y) (is_stranded r.state) (is_unfinished job.state)
      (sym (is_stranded-state_from_string r.state job.state (build_job-state s r job p x b)))
      (λ e. build_job-finalized s json r job p j b) (λ e. b)

find_row-map :
    (json : Text) (id : JobId) (rs : List JobRow) (r : JobRow)
    → find_row id rs ≡ some r
    → find_row id (map (resurrect_row json) rs) ≡ some (resurrect_row json r)
unfolding find_row resurrect_row
find_row-map json id [] r e = ground arith
find_row-map json id (x ∷ rs) r e = ground (arith, find_row-map json id rs r)

resurrect_row-schema_version :
    (json : Text) (r : JobRow) → (resurrect_row json r).schema_version ≡ r.schema_version
unfolding resurrect_row
resurrect_row-schema_version json r = ground arith

resurrect_stranded_jobs-ok :
    (h : Host) (t : Store) (json : Text)
    → h.serde.outcome_to_json host_exited ≡ some json
    → h.runs t.statements ≡ true
    → resurrect_stranded_jobs h t
      ≡ (ok tt, record t { jobs = map (resurrect_row json) t.jobs; statements = suc t.statements })
unfolding resurrect_stranded_jobs execute
resurrect_stranded_jobs-ok h t json j w = ground arith

read_row-build_job :
    (s : Serde) (r : JobRow) (job : Job)
    → read_row s (some r) ≡ ok (some job)
    → build_job s r ≡ ok job
unfolding read_row
read_row-build_job s r job b = ground arith

read_row-resurrect_row :
    (s : Serde) (json : Text) (r : JobRow) (job : Job)
    → ReadsPlain s
    → escaped r ≡ false
    → s.outcome_from_json json ≡ some host_exited
    → read_row s (some r) ≡ ok (some job)
    → read_row s (some (resurrect_row json r)) ≡ ok (some (resurrected job))
unfolding read_row
read_row-resurrect_row s json r job p x j b = ground (
  arith,
  resurrect_row-schema_version json r,
  build_job-resurrect_row s json r job p x j (read_row-build_job s r job b),
)

find_row-plain :
    (id : JobId) (rs : List JobRow) (r : JobRow)
    → count escaped rs ≡ 0
    → find_row id rs ≡ some r
    → escaped r ≡ false
unfolding find_row
find_row-plain id [] r x e = ground arith
find_row-plain id (y ∷ rs) r x e = ground (arith, find_row-plain id rs r)

loaded_again :
    (s : Serde) (json : Text) (id : JobId) (rs : List JobRow) (job : Job)
    → ReadsPlain s
    → count escaped rs ≡ 0
    → s.outcome_from_json json ≡ some host_exited
    → read_row s (find_row id rs) ≡ ok (some job)
    → read_row s (find_row id (map (resurrect_row json) rs)) ≡ ok (some (resurrected job))
unfolding read_row
loaded_again s json id rs job p x j l = elim (Option-cases (find_row id rs)) [
  | inl n ↦ ground arith
  | inr (r, e) ↦
      ap (read_row s) (find_row-map json id rs r e)
      ∙ read_row-resurrect_row s json r job p (find_row-plain id rs r x e) j
          (ap (read_row s) (sym e) ∙ l)
]

-- After the store has been opened in a new process and the clean-up has run, a job that could be
-- loaded before is loaded again: finalized, with the outcome of a vanished host, if it had not
-- ended, and as it was if it had. It is for a table in which no state is written with an escape, as
-- `upsert_job` writes none, and rests on JSON that is read back as it was written.
pub load_job-resurrect_stranded_jobs :
    (h : Host) (t : Store) (json : Text) (id : JobId) (job : Job)
    → IsFaithful h.serde
    → count escaped t.jobs ≡ 0
    → h.serde.outcome_to_json host_exited ≡ some json
    → h.runs t.statements ≡ true
    → load_job h.serde id t ≡ ok (some job)
    → let (done, t') = resurrect_stranded_jobs h t in
      (done ≡ ok tt) × (load_job h.serde id t' ≡ ok (some (resurrected job)))
unfolding load_job
load_job-resurrect_stranded_jobs h t json id job f x j w l =
    subst
      (λ u. (u.0 ≡ ok tt) × (read_row h.serde (find_row id u.1.jobs) ≡ ok (some (resurrected job))))
      (sym (resurrect_stranded_jobs-ok h t json j w))
      (
        refl,
        loaded_again h.serde json id t.jobs job f.state_plain x (f.outcome_back host_exited json j)
            l,
      )
