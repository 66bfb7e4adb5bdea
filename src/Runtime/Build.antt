-- ===== src/Runtime/Build.antt =====
-- src/runtime/builder.rs, and the settings' part of `Runtime::from_parts` (src/runtime.rs).
use execra.Base.{ℕ, Text, Option, none, some, List, [], leb, if◌then◌else◌}
use execra.Command.{Duration}
use execra.Driver.RawOutput.{RawOutputPolicy, persist}
use execra.Host.{Host}
use execra.Job.{Job}
use execra.Store.{Store, Update, Result, ok, err, ◌>>=◌, resurrect_stranded_jobs}
use execra.Store.Open.{Disk, open_file}
use execra.Store.Query.{Sqlite, JobsFilter, list_jobs}
use execra.Store.Query
use execra.Runtime.Config.{RetentionPolicy, RuntimeConfig, default_config}
use execra.Runtime.Jobs.{Answer, Runtime, from_parts}
use execra.Runtime.Query.{from_store}

pub record RuntimeBuilder : Type 0 where
  pub history : Option Text
  pub log_dir : Option Text
  pub raw_output : Option RawOutputPolicy
  pub retention : Option RetentionPolicy
  pub max_concurrent : Option ℕ
  pub default_grace_period : Option Duration

abbrev pub builder : RuntimeBuilder
builder = record {
  history = none;
  log_dir = none;
  raw_output = none;
  retention = none;
  max_concurrent = none;
  default_grace_period = none;
}

unfoldable pub history : Text → RuntimeBuilder → RuntimeBuilder
history path b = record b { history = some path }

unfoldable pub log_dir : Text → RuntimeBuilder → RuntimeBuilder
log_dir path b = record b { log_dir = some path }

unfoldable pub raw_output : RawOutputPolicy → RuntimeBuilder → RuntimeBuilder
raw_output policy b = record b { raw_output = some policy }

unfoldable pub retention : RetentionPolicy → RuntimeBuilder → RuntimeBuilder
retention policy b = record b { retention = some policy }

unfoldable pub max_concurrent : ℕ → RuntimeBuilder → RuntimeBuilder
max_concurrent n b = record b { max_concurrent = some n }

unfoldable pub default_grace_period : Duration → RuntimeBuilder → RuntimeBuilder
default_grace_period d b = record b { default_grace_period = some d }

-- `if let Some(x) = o { field = x; }`
abbrev pub or_kept : {A : Type 0} → Option A → A → A
or_kept none kept = kept
or_kept (some a) kept = a

abbrev pub dir_or_kept : Option Text → Option Text → Option Text
dir_or_kept none kept = kept
dir_or_kept (some p) kept = some p

abbrev pub policy_of : Option RawOutputPolicy → Option Text → RawOutputPolicy → RawOutputPolicy
policy_of (some r) dir kept = r
policy_of none (some d) kept = persist
policy_of none none kept = kept

-- `build` up to the settings.
unfoldable pub config : Option ℕ → RuntimeBuilder → RuntimeConfig
unfolding default_config
config cores b =
    let cfg = default_config cores in
    let dir = dir_or_kept b.log_dir cfg.log_dir in
    record {
      log_dir = dir;
      raw_output = policy_of b.raw_output dir cfg.raw_output;
      retention = or_kept b.retention cfg.retention;
      max_concurrent = or_kept b.max_concurrent cfg.max_concurrent;
      default_grace_period = or_kept b.default_grace_period cfg.default_grace_period;
    }

-- `s.resurrect_stranded_jobs()?`
abbrev pub settled : Update → Result Store
settled (err e, s) = err e
settled (ok u, s) = ok s

unfoldable pub load_history : Disk → Sqlite → Host → Option Text → Result (Option Store × List Job)
unfolding open_file resurrect_stranded_jobs list_jobs
load_history d sql h none = ok (none, [])
load_history d sql h (some path) = do
  opened ← open_file d h path
  s ← settled (resurrect_stranded_jobs h opened)
  jobs ← list_jobs sql h.serde 10000 Query.default s
  ok (some s, jobs)

-- `Inner`: the settings, the permits of the semaphore, and what changes.
pub record Inner : Type 0 where
  pub config : RuntimeConfig
  pub permits : ℕ
  pub runtime : Runtime

abbrev pub at_least_one : ℕ → ℕ
at_least_one n = if leb n 1 then 1 else n

unfoldable pub inner_from_parts : RuntimeConfig → Option Store → List Job → Inner
unfolding from_parts
inner_from_parts cfg s persisted = record {
  config = cfg;
  permits = at_least_one cfg.max_concurrent;
  runtime = from_parts s persisted;
}

unfoldable pub build : Option ℕ → Disk → Sqlite → Host → RuntimeBuilder → Answer Inner
unfolding config load_history inner_from_parts
build cores d sql h b =
    from_store
      (load_history d sql h b.history >>= λ l. ok (inner_from_parts (config cores b) l.0 l.1))

-- `Runtime::new`
unfoldable pub new : Option ℕ → Inner
unfolding inner_from_parts default_config
new cores = inner_from_parts (default_config cores) none []
