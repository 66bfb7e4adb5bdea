-- ===== src/Runtime/Admission.antt =====
-- What `spawn` and `cancel` of src/runtime.rs do to the map of jobs, on every branch.
use execra.Base.{
  suc, Bool, true, false, Option, none, some, List, [], ◌∷◌, snoc, ◌==◌, ==_iff, if◌then◌else◌, ◌≡◌,
  refl, arith,
}
use execra.Command.{CommandSpec}
use execra.Event.{Event}
use execra.Host.{Host}
use execra.Job.{Job, JobId}
use execra.Store.{Store, Result, ok, err, Update, upsert_job}
use execra.Runtime.Jobs.{
  Answer, good, bad, unknown_job, JobEntry, Jobs, Runtime, lookup, insert, change, enter,
  enter_stored, admit, spawn, queued_job, cancel, cancel_entry, cancel_found,
}

pub lookup-insert :
    (id j : JobId) (e : JobEntry) (js : Jobs)
    → lookup j (insert id e js) ≡ (if id == j then some e else lookup j js)
unfolding lookup insert
lookup-insert id j e [] = ground arith
lookup-insert id j e ((i, f) ∷ js) = ground (arith, lookup-insert id j e js)

abbrev pub map_entry : {A : Type 0} → (A → A) → Option A → Option A
map_entry f none = none
map_entry f (some e) = some (f e)

pub lookup-change :
    {A : Type 0} (id j : JobId) (f : A → A) (js : List (JobId × A))
    → lookup j (change id f js) ≡ (if id == j then map_entry f (lookup j js) else lookup j js)
unfolding lookup change
lookup-change id j f [] = ground arith
lookup-change id j f ((i, e) ∷ js) = ground (arith, lookup-change id j f js)

-- What is known of a job after `cancel id`.
abbrev pub cancelled : JobId → JobId → Option JobEntry → Option JobEntry
cancelled id j o = if id == j then map_entry cancel_entry o else o

-- The answer of `cancel`.
abbrev pub cancel_answer : JobId → Option JobEntry → Answer (Unit {0})
cancel_answer id none = bad (unknown_job id)
cancel_answer id (some e) = good tt

-- The four facts of `cancel_lem`, of what `cancel` does once it has looked the job up.
abbrev IsCancel : JobId → JobId → Runtime → Answer (Unit {0}) × Runtime → Type 0
IsCancel id j r (answer, r') =
    (answer ≡ cancel_answer id (lookup id r.jobs))
    × (lookup j r'.jobs ≡ cancelled id j (lookup j r.jobs))
    × (r'.sent ≡ r.sent)
    × (r'.store ≡ r.store)

cancel_found-IsCancel :
    (id j : JobId) (o : Option JobEntry) (r : Runtime)
    → lookup id r.jobs ≡ o
    → IsCancel id j r (cancel_found id o r)
cancel_found-IsCancel id j none r e = ground (arith, ==_iff id j)
cancel_found-IsCancel id j (some x) r e = ground (arith, lookup-change id j cancel_entry r.jobs)

-- `cancel` of a job that the runtime does not know is an error and changes nothing; of one that it
-- knows, it cancels the token of that job alone, and only if the job is not finalized; it sends no
-- event and does not touch the store.
pub cancel_lem :
    (id j : JobId) (r : Runtime)
    → let (answer, r') = cancel id r in
      (answer ≡ cancel_answer id (lookup id r.jobs))
      × (lookup j r'.jobs ≡ cancelled id j (lookup j r.jobs))
      × (r'.sent ≡ r.sent)
      × (r'.store ≡ r.store)
unfolding cancel
cancel_lem id j r = cancel_found-IsCancel id j (lookup id r.jobs) r refl

abbrev pub is_good : {A : Type 0} → Answer A → Bool
is_good (good a) = true
is_good (bad e) = false

abbrev pub is_ok : {A : Type 0} → Result A → Bool
is_ok (ok a) = true
is_ok (err e) = false

-- Whether the store takes the row of a job; without a store there is nothing to refuse it.
abbrev pub accepts : Host → Job → Option Store → Bool
accepts h j none = true
accepts h j (some s) = is_ok (upsert_job h j s).0

abbrev IsSpawn : Host → Job → JobId → Option Store → Runtime → Answer JobId × Runtime → Type 0
IsSpawn h q j st r (answer, r') =
    (is_good answer ≡ accepts h q st)
    × (lookup j r'.jobs ≡ (
        if is_good answer
        then if q.id == j then some (record { cancel = false; snapshot = q }) else lookup j r.jobs
        else lookup j r.jobs))
    × (r'.sent ≡ (
        if is_good answer
        then snoc r.sent (Event.job_created q.id q.command q.created_at)
        else r.sent))

enter-IsSpawn :
    (h : Host) (q : Job) (j : JobId) (st : Option Store) (r : Runtime)
    → let (answer, r') = enter h q st r in
      (answer ≡ good q.id)
      × (lookup j r'.jobs
          ≡ (if q.id == j then some (record { cancel = false; snapshot = q }) else lookup j r.jobs))
      × (r'.sent ≡ snoc r.sent (Event.job_created q.id q.command q.created_at))
unfolding enter
enter-IsSpawn h q j st r =
    (refl, lookup-insert q.id j (record { cancel = false; snapshot = q }) r.jobs, refl)

enter_stored-IsSpawn :
    (h : Host) (q : Job) (j : JobId) (u : Update) (r : Runtime)
    → let (answer, r') = enter_stored h q u r in
      (is_good answer ≡ is_ok u.0)
      × (lookup j r'.jobs ≡ (
          if is_good answer
          then if q.id == j then some (record { cancel = false; snapshot = q }) else lookup j r.jobs
          else lookup j r.jobs))
      × (r'.sent ≡ (
          if is_good answer
          then snoc r.sent (Event.job_created q.id q.command q.created_at)
          else r.sent))
unfolding enter
enter_stored-IsSpawn h q j (err e, s) r = (refl, refl, refl)
enter_stored-IsSpawn h q j (ok tt, s) r = ground (arith, enter-IsSpawn h q j (some s) r)

admit-IsSpawn :
    (h : Host) (q : Job) (j : JobId) (st : Option Store) (r : Runtime)
    → IsSpawn h q j st r (admit h q st r)
admit-IsSpawn h q j none r = ground (arith, enter-IsSpawn h q j none r)
admit-IsSpawn h q j (some s) r = enter_stored-IsSpawn h q j (upsert_job h q s) r

-- `spawn` is refused exactly if there is a store and it does not take the row of the job. Refused, it
-- leaves the jobs and the channel as they were. Otherwise the job is queued under its new id, not
-- cancelled, with its command and the time of the call, the other jobs stay, and its creation is
-- the next event on the channel.
pub spawn_lem :
    (h : Host) (spec : CommandSpec) (j : JobId) (r : Runtime)
    → let q = queued_job (h.new_id r.ids) spec (h.now r.clock) in
      let (answer, r') = spawn h spec r in
      (is_good answer ≡ accepts h q r.store)
      × (lookup j r'.jobs ≡ (
          if is_good answer
          then if q.id == j then some (record { cancel = false; snapshot = q }) else lookup j r.jobs
          else lookup j r.jobs))
      × (r'.sent ≡ (
          if is_good answer
          then snoc r.sent (Event.job_created q.id spec q.created_at)
          else r.sent))
unfolding spawn
spawn_lem h spec j r =
    admit-IsSpawn h (queued_job (h.new_id r.ids) spec (h.now r.clock)) j r.store
      (record r { clock = suc r.clock; ids = suc r.ids })
