-- ===== src/Runtime/Tests.antt =====
-- The runtime with two jobs, and the theorems at it.
use execra.Base.{
  ℕ, ◌+◌, Bool, true, false, codes, none, some, [], ◌∷◌, ◌≡◌, ◌≤◌, length, if◌then◌else◌, ◌==◌,
}
use execra.Base.Int.{pos}
use execra.Command.{CommandSpec}
use execra.Host.{Host}
use execra.Job.{Job, JobId, JobState}
use execra.Store.{empty}
use execra.Runtime.Admission.{spawn_lem, is_good}
use execra.Runtime.Answers.{run_lem}
use execra.Runtime.Jobs.{JobEntry, Runtime, lookup, queued_job, spawn}
use execra.Runtime.Query.{JobsQuery, default, limit_or_100, run, with_state}

abbrev spec : CommandSpec
spec = record {
  program = codes "tool";
  args = [];
  env = [];
  env_clear = false;
  cwd = none;
  label = none;
  tags = [];
  timeout = none;
  hide_window = false;
}

abbrev host : Host
host = record {
  now = λ k. pos (100 + k);
  elapsed = λ k. k;
  new_id = λ k. 50 + k;
  runs = λ k. true;
  from_utf8_lossy = λ bytes. bytes;
  serde = record {
    event_to_json = λ e. some [];
    event_from_json = λ t. none;
    command_to_json = λ c. some [];
    command_from_json = λ t. none;
    tags_to_json = λ t. some [];
    state_from_json = λ t. none;
    outcome_to_json = λ o. none;
    outcome_from_json = λ t. none;
    finding_to_json = λ f. none;
  };
}

abbrev entry : JobId → ℕ → JobEntry
entry id at = record { cancel = false; snapshot = queued_job id spec (pos at) }

abbrev runtime : Runtime
runtime = record {
  store = some empty;
  jobs = (3, entry 3 10) ∷ (4, entry 4 20) ∷ [];
  sent = [];
  clock = 0;
  ids = 0;
}

abbrev is_old : Job → Bool
is_old j = j.id == 3

spawn_lem_example :
    lookup 50 (spawn host spec runtime).1.jobs
    ≡ (if is_good (spawn host spec runtime).0 then some (entry 50 100) else none)
unfolding lookup
spawn_lem_example = (spawn_lem host spec 50 runtime).1

queued : JobsQuery
queued = with_state JobState.queued default

run_lem_example : length (run queued runtime) ≤ limit_or_100 queued.limit
run_lem_example = (run_lem queued runtime is_old).2
