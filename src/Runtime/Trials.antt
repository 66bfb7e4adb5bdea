-- ===== src/Runtime/Trials.antt =====
-- A runtime over a small database, its handle and its stream, and the theorems at them.
use execra.Base.{
  subst, length, List, ◌≤◌, Option, ℕ, ◌+◌, codes, true, false, none, some, [], ◌∷◌, ◌≡◌, refl,
  arith,
}
use execra.Base.Int.{pos}
use execra.Base.Sorted.{count, filter, sort, is_sorted, sort-count, sort-is_sorted}
use execra.Command.{CommandSpec, Platform}
use execra.Driver.Loop.Drive.{Spawned, drive_job, refused}
use execra.Driver.Loop.Run.{spawn_error}
use execra.Driver.Samples
use execra.Driver.World.{World}
use execra.Event
use execra.Event.{Event}
use execra.Host.{Host, Serde, state_from_string}
use execra.Job.{Job, JobState}
use execra.Outcome.{Outcome, cancelled}
use execra.Progress
use execra.Runtime.Build.{Inner, RuntimeBuilder, build, builder, config, history, inner_from_parts}
use execra.Runtime.Handle.{JobHandle, sent, spawn_handle, waiting, dropped}
use execra.Runtime.Lifecycle.{lifecycle}
use execra.Runtime.Jobs.{Runtime, good}
use execra.Runtime.Polling.{polls, polls-first_outcome}
use execra.Runtime.Query.{JobsQuery, default, filter_of, resolve}
use execra.Runtime.Restarted.{all_settled, build-all_settled, build-too_new}
use execra.Runtime.Stored.{is_found, resolve_lem}
use execra.Store.{Store, empty, host_exited}
use execra.Store.Found.{created, reads, unlisted}
use execra.Store.Open.{Disk}
use execra.Store.Query.{read, Sqlite, IsOrdering, row_ms}
use execra.Store.Rows.{JobRow, escaped}
use execra.Store.Time.{from_ms}

abbrev spec : CommandSpec
spec = record {
  program = codes "tool";
  args = [];
  env = [];
  env_clear = false;
  cwd = none;
  label = none;
  tags = [];
  timeout = none;
  hide_window = false;
}

abbrev json : Serde
json = record {
  event_to_json = λ e. none;
  event_from_json = λ t. none;
  command_to_json = λ c. some [];
  command_from_json = λ t. some spec;
  tags_to_json = λ t. some [];
  state_from_json = state_from_string;
  outcome_to_json = λ o. some [];
  outcome_from_json = λ t. some host_exited;
  finding_to_json = λ f. none;
}

abbrev host : Host
host = record {
  now = λ k. pos (100 + k);
  elapsed = λ k. k;
  new_id = λ k. 50 + k;
  runs = λ k. true;
  from_utf8_lossy = λ bytes. bytes;
  serde = json;
}

abbrev row : ℕ → ℕ → ℕ → JobRow
row id ms version = record {
  id = id;
  command_json = [];
  label = none;
  tags_json = [];
  created_at_ms = pos ms;
  started_at_ms = none;
  state = codes "queued";
  exit_code = none;
  exit_signal = none;
  outcome_json = none;
  schema_version = pos version;
}

abbrev table : ℕ → Store
table version = record empty { jobs = row 3 1 version ∷ row 4 2 0 ∷ [] }

abbrev sqlite : Sqlite
sqlite = record { like = λ p t. true; descending = sort row_ms }

sqlite-IsOrdering : IsOrdering sqlite
sqlite-IsOrdering = record { same = sort-count row_ms; sorted = sort-is_sorted row_ms }

abbrev disk : ℕ → Disk
disk version = record {
  parent = λ path. none;
  create_dir_all = λ path. false;
  connect = λ path. some (table version);
  connect_in_memory = none;
}

abbrev over_table : Runtime
over_table = record { store = some (table 0); jobs = []; sent = []; clock = 0; ids = 0 }

abbrev queued : ℕ → ℕ → Job
queued id ms = record {
  id = id;
  command = spec;
  created_at = pos (ms);
  started_at = none;
  state = JobState.queued;
  current_phase = none;
  progress = Progress.unknown;
  label = none;
  exit = none;
  outcome = none;
}

abbrev one : JobsQuery
one = record default { state = some JobState.queued; limit = some 1 }

resolve_lem_example :
    let rest = unlisted sqlite 1 (filter_of one) (table 0).jobs in
    (js : List Job) × (resolve sqlite json one over_table ≡ good js)
    × (count (λ j. true) js + count (reads json (λ j. true)) rest
        ≡ count (is_found sqlite json one (λ j. true)) (table 0).jobs)
    × (is_sorted created js ≡ true)
    × (length js ≤ 1)
unfolding read state_from_string
resolve_lem_example =
    resolve_lem sqlite json one over_table (table 0) (λ j. true) sqlite-IsOrdering (omega arith)
      refl refl refl (λ t e. refl) refl refl refl

abbrev from_file : RuntimeBuilder
from_file = history (codes "jobs.sqlite") builder

abbrev closed : JobRow → JobRow
closed r = record r { state = codes "finalized"; outcome_json = some [] }

abbrev ended : Job → Job
ended j = record j { state = JobState.finalized; outcome = some host_exited }

abbrev rebuilt : Inner
rebuilt =
    inner_from_parts (config none from_file)
      (some (record empty { jobs = closed (row 3 1 0) ∷ closed (row 4 2 0) ∷ []; statements = 5 }))
      (ended (queued 4 2000000) ∷ ended (queued 3 1000000) ∷ [])

rebuilt-built : build none (disk 0) sqlite host from_file ≡ good rebuilt
unfolding build history sort filter state_from_string from_ms
rebuilt-built = refl

disk_plain : (t : Store) → some (table 0) ≡ some t → count escaped t.jobs ≡ 0
disk_plain t e = subst (λ o. count_in o ≡ 0) e refl
  where
    count_in : Option Store → ℕ
    count_in none = 0
    count_in (some t) = count escaped t.jobs

build-all_settled_example : all_settled rebuilt.runtime.jobs ≡ true
build-all_settled_example =
    (build-all_settled none (disk 0) sqlite host from_file rebuilt sqlite-IsOrdering (λ t e. refl)
      (λ path t e. disk_plain t e) rebuilt-built).0

build-too_new_example : ¬ (build none (disk 1) sqlite host from_file ≡ good rebuilt)
unfolding history
build-too_new_example =
    build-too_new none (disk 1) sqlite host from_file (codes "jobs.sqlite") (table 1) rebuilt
      sqlite-IsOrdering refl refl (omega arith) (λ e. omega (arith, e))

abbrev handle : JobHandle
handle = record { id = 50; outcome_rx = true; initial_rx = some 0 }

polls-first_outcome_example :
    polls (waiting ∷ dropped ∷ sent (cancelled []) ∷ []) handle ≡ cancelled [] ∷ []
polls-first_outcome_example =
    polls-first_outcome (waiting ∷ dropped ∷ sent (cancelled []) ∷ []) handle refl

abbrev started : ℕ → Event
started id = Event.job_started id 9 (pos 0)

abbrev alone : Runtime
alone = record { store = none; jobs = []; sent = started 4 ∷ []; clock = 0; ids = 0 }

-- A job whose process cannot be spawned, next to another one.
abbrev refusal : Spawned
refusal = refused (codes "no such file")

abbrev mine : JobHandle
mine = record { id = 0; outcome_rx = true; initial_rx = some 1 }

abbrev driven : Option Outcome × World
driven =
    drive_job Samples.host Platform.other Samples.phases 0 spec true refusal Samples.raw (some 0)
      false [] Samples.world

lifecycle_example :
    polls (sent (spawn_error (codes "no such file")) ∷ []) mine
    ≡ spawn_error (codes "no such file") ∷ []
unfolding filter Event.job_id spawn_handle drive_job
lifecycle_example =
    (lifecycle Samples.host Platform.other Samples.phases spec alone alone mine true refusal
      Samples.raw (some 0) false [] Samples.world driven.1 (spawn_error (codes "no such file"))
      (started 4 ∷ driven.1.sent) 5 [] refl refl refl (omega arith)).2
