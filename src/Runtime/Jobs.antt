-- ===== src/Runtime/Jobs.antt =====
-- src/runtime.rs: the map of jobs, and `spawn`, `cancel`, `recent`, `running` and `job`.
use execra.Base.{
  ℕ, suc, Bool, true, false, Option, none, some, List, [], ◌∷◌, snoc, ◌==◌, if◌then◌else◌,
}
use execra.Command.{CommandSpec}
use execra.Event.{Event}
use execra.Finding.{SystemTime}
use execra.Host.{Host}
use execra.Job.{Job, JobId, JobState}
use execra.Progress
use execra.Store.{Store, StoreError, Result, ok, err, Update, upsert_job, load_job, insert_event}
use execra.Runtime.Newest.{newest}

pub data Error : Type 0 where
  unknown_job : JobId → Error
  store : StoreError → Error

pub data Answer (A : Type 0) : Type 0 where
  good : A → Answer A
  bad : Error → Answer A

-- `cancel` tells whether the token is cancelled.
pub record JobEntry : Type 0 where
  pub cancel : Bool
  pub snapshot : Job

-- A `HashMap`: each key once, in the order in which the map is iterated.
abbrev pub Jobs : Type 0
Jobs = List (JobId × JobEntry)

-- `sent` holds what was sent on the broadcast channel; `clock` and `ids` count the calls of
-- `SystemTime::now` and `JobId::new`.
pub record Runtime : Type 0 where
  pub store : Option Store
  pub jobs : Jobs
  pub sent : List Event
  pub clock : ℕ
  pub ids : ℕ

unfoldable pub lookup : {A : Type 0} → JobId → List (JobId × A) → Option A
lookup id [] = none
lookup id ((i, e) ∷ js) = let rest = lookup id js in if i == id then some e else rest

unfoldable pub insert : JobId → JobEntry → Jobs → Jobs
insert id e [] = (id, e) ∷ []
insert id e ((i, f) ∷ js) =
    let rest = insert id e js in if i == id then (id, e) ∷ js else (i, f) ∷ rest

-- `get` followed by a change of what the entry shares with the driver.
unfoldable pub change : {A : Type 0} → JobId → (A → A) → List (JobId × A) → List (JobId × A)
change id f [] = []
change id f ((i, e) ∷ js) =
    let rest = change id f js in if i == id then (i, f e) ∷ js else (i, e) ∷ rest

abbrev pub snapshots : Jobs → List Job
snapshots [] = []
snapshots ((i, e) ∷ js) = e.snapshot ∷ snapshots js

unfoldable pub insert_all : List Job → Jobs → Jobs
unfolding insert
insert_all [] js = js
insert_all (j ∷ rest) js =
    insert_all rest (insert j.id (record { cancel = false; snapshot = j }) js)

-- The jobs of a store, under new tokens, of which none is cancelled.
unfoldable pub from_parts : Option Store → List Job → Runtime
unfolding insert_all
from_parts st persisted = record {
  store = st;
  jobs = insert_all persisted [];
  sent = [];
  clock = 0;
  ids = 0;
}

abbrev pub queued_job : JobId → CommandSpec → SystemTime → Job
queued_job id spec now = record {
  id = id;
  command = spec;
  created_at = now;
  started_at = none;
  state = JobState.queued;
  current_phase = none;
  progress = Progress.unknown;
  label = spec.label;
  exit = none;
  outcome = none;
}

-- `Event::JobCreated`, to the channel and to the store.
abbrev pub stored : Host → Event → Option Store → Option Store
stored h e none = none
stored h e (some s) = some (insert_event h e s).1

-- The map and the channel, once the row of the job has gone in.
unfoldable pub enter : Host → Job → Option Store → Runtime → Answer JobId × Runtime
unfolding insert
enter h job st r =
    let created = Event.job_created job.id job.command job.created_at in
    (
      good job.id,
      record r {
        store = stored h created st;
        jobs = insert job.id (record { cancel = false; snapshot = job }) r.jobs;
        sent = snoc r.sent created;
      },
    )

abbrev pub enter_stored : Host → Job → Update → Runtime → Answer JobId × Runtime
enter_stored h job (err e, s) r = (bad (Error.store e), record r { store = some s })
enter_stored h job (ok u, s) r = enter h job (some s) r

abbrev pub admit : Host → Job → Option Store → Runtime → Answer JobId × Runtime
admit h job none r = enter h job none r
admit h job (some s) r = enter_stored h job (upsert_job h job s) r

-- `spawn` up to the start of the driver's task, with the id of the handle.
unfoldable pub spawn : Host → CommandSpec → Runtime → Answer JobId × Runtime
unfolding enter
spawn h spec r =
    admit h (queued_job (h.new_id r.ids) spec (h.now r.clock)) r.store
      (record r { clock = suc r.clock; ids = suc r.ids })

abbrev pub is_finalized : JobState → Bool
is_finalized JobState.finalized = true
is_finalized _ = false

abbrev pub cancel_entry : JobEntry → JobEntry
cancel_entry e = if is_finalized e.snapshot.state then e else record e { cancel = true }

abbrev pub cancel_found : JobId → Option JobEntry → Runtime → Answer (Unit {0}) × Runtime
cancel_found id none r = (bad (unknown_job id), r)
cancel_found id (some e) r = (good tt, record r { jobs = change id cancel_entry r.jobs })

unfoldable pub cancel : JobId → Runtime → Answer (Unit {0}) × Runtime
unfolding lookup change
cancel id r = cancel_found id (lookup id r.jobs) r

unfoldable pub recent : ℕ → Runtime → List Job
unfolding newest
recent n r = newest n (snapshots r.jobs)

abbrev pub is_running : JobState → Bool
is_running JobState.queued = true
is_running JobState.running = true
is_running _ = false

unfoldable pub running_in : Jobs → List JobId
running_in [] = []
running_in ((i, e) ∷ js) =
    let rest = running_in js in if is_running e.snapshot.state then i ∷ rest else rest

unfoldable pub running : Runtime → List JobId
unfolding running_in
running r = running_in r.jobs

-- `load_job(id).ok().flatten()`
abbrev pub flattened : Result (Option Job) → Option Job
flattened (err e) = none
flattened (ok job) = job

abbrev pub load_from : Host → JobId → Option Store → Option Job
load_from h id none = none
load_from h id (some s) = flattened (load_job h.serde id s)

abbrev pub or_stored : Host → JobId → Option JobEntry → Option Store → Option Job
or_stored h id (some e) st = some e.snapshot
or_stored h id none st = load_from h id st

unfoldable pub job : Host → JobId → Runtime → Option Job
unfolding lookup
job h id r = or_stored h id (lookup id r.jobs) r.store
