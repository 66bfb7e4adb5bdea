-- ===== src/Store/Tests.antt =====
-- The store with a JSON that is small enough to compute with.
use execra.Base.{
  Text, codes, Bool, true, false, not, ◌&&◌, Option, none, some, List, [], ◌∷◌, ◌≡◌, refl, arith,
  if◌then◌else◌,
}
use execra.Base.Int.{pos}
use execra.Command.{CommandSpec}
use execra.Event
use execra.Event.{Event}
use execra.Host.{Host, Serde, IsFaithful, state_from_string}
use execra.Job.{Job, JobState}
use execra.Outcome.{Outcome, spawn_failed}
use execra.Progress
use execra.Store.{
  Store, empty, ok, upsert_job, load_job, insert_event, list_events, resurrect_stranded_jobs,
  job_row, find_row,
}
use execra.Store.Rows.{JobRow, state_to_string}
use execra.Store.History.{reloaded, load_job-upsert_job}
use execra.Store.Listing.{list_events-insert_event}
use execra.Store.Restart.{resurrected, load_job-resurrect_stranded_jobs}
use execra.Store.Time.{to_ms}

abbrev plain : Text → CommandSpec
plain program = record {
  program = program;
  args = [];
  env = [];
  env_clear = false;
  cwd = none;
  label = none;
  tags = [];
  timeout = none;
  hide_window = false;
}

abbrev is_nil : {A : Type 0} → List A → Bool
is_nil [] = true
is_nil (x ∷ xs) = false

abbrev is_none : {A : Type 0} → Option A → Bool
is_none none = true
is_none (some a) = false

abbrev is_plain : CommandSpec → Bool
is_plain c =
    is_nil c.args
    && is_nil c.env
    && not c.env_clear
    && is_none c.cwd
    && is_none c.label
    && is_nil c.tags
    && is_none c.timeout
    && not c.hide_window

abbrev command_to_json : CommandSpec → Option Text
command_to_json c = if is_plain c then some c.program else none

abbrev outcome_to_json : Outcome → Option Text
outcome_to_json (Outcome.failed (spawn_failed error) none []) = some (1 ∷ error)
outcome_to_json (Outcome.cancelled []) = some []
outcome_to_json _ = none

abbrev outcome_from_json : Text → Option Outcome
outcome_from_json [] = some (Outcome.cancelled [])
outcome_from_json (b ∷ error) = some (Outcome.failed (spawn_failed error) none [])

abbrev event_to_json : Event → Option Text
event_to_json (Event.cancelled job (pos at)) = some (job ∷ at ∷ [])
event_to_json _ = none

abbrev event_from_json : Text → Option Event
event_from_json (job ∷ at ∷ []) = some (Event.cancelled job (pos at))
event_from_json _ = none

abbrev json : Serde
json = record {
  event_to_json = event_to_json;
  event_from_json = event_from_json;
  command_to_json = command_to_json;
  command_from_json = λ t. some (plain t);
  tags_to_json = λ t. some [];
  state_from_json = state_from_string;
  outcome_to_json = outcome_to_json;
  outcome_from_json = outcome_from_json;
  finding_to_json = λ f. none;
}

outcome_back : (o : Outcome) (t : Text) → outcome_to_json o ≡ some t → outcome_from_json t ≡ some o
outcome_back o t h = ground arith

command_back : (c : CommandSpec) (t : Text) → command_to_json c ≡ some t → some (plain t) ≡ some c
command_back c t h = ground arith

json-IsFaithful : IsFaithful json
json-IsFaithful = record {
  state_plain = λ t e. refl;
  command_back = command_back;
  outcome_back = outcome_back;
}

abbrev host : Host
host = record {
  now = pos;
  elapsed = λ k. k;
  new_id = λ k. k;
  runs = λ k. true;
  from_utf8_lossy = λ bytes. bytes;
  serde = json;
}

abbrev job : Job
job = record {
  id = 7;
  command = plain (codes "tool");
  created_at = pos 1500000;
  started_at = some (pos 2000000);
  state = JobState.running;
  current_phase = some 3;
  progress = Progress.unknown;
  label = none;
  exit = none;
  outcome = none;
}

abbrev row : JobRow
row = record {
  id = 7;
  command_json = codes "tool";
  label = none;
  tags_json = [];
  created_at_ms = pos 1;
  started_at_ms = some (pos 2);
  state = codes "running";
  exit_code = none;
  exit_signal = none;
  outcome_json = none;
  schema_version = pos 0;
}

load_job-upsert_job_example :
    ((upsert_job host job empty).0 ≡ ok tt)
    × (load_job json 7 (upsert_job host job empty).1 ≡ ok (some (reloaded job)))
unfolding find_row job_row to_ms state_to_string
load_job-upsert_job_example =
    load_job-upsert_job host job empty row json-IsFaithful (refl, refl) refl refl refl

abbrev event : Event
event = Event.cancelled 7 (pos 5)

list_events-insert_event_example :
    list_events json 7 3 (insert_event host event empty).1 ≡ ok (event ∷ [])
unfolding list_events Event.job_id
list_events-insert_event_example =
    list_events-insert_event host event empty (7 ∷ 5 ∷ []) 3 [] refl refl refl refl (omega arith)
      refl

abbrev left : Store
left = record empty { jobs = row ∷ [] }

left-loaded : load_job json 7 left ≡ ok (some (reloaded job))
unfolding load_job state_from_string to_ms
left-loaded = refl

load_job-resurrect_stranded_jobs_example :
    ((resurrect_stranded_jobs host left).0 ≡ ok tt)
    × (load_job json 7 (resurrect_stranded_jobs host left).1
        ≡ ok (some (resurrected (reloaded job))))
load_job-resurrect_stranded_jobs_example =
    load_job-resurrect_stranded_jobs host left (1 ∷ codes "host process exited") 7 (reloaded job)
      json-IsFaithful refl refl refl left-loaded
