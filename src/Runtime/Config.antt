-- ===== src/Runtime/Config.antt =====
-- src/runtime/config.rs: the settings of a runtime and their defaults. The number of processors,
-- which the host may not tell, is a parameter.
use execra.Base.{ℕ, ◌*◌, Text, codes, Option, none, some}
use execra.Command.{Duration}
use execra.Driver.RawOutput.{RawOutputPolicy}

pub record RetentionPolicy : Type 0 where
  pub keep_events_for : Duration
  pub keep_raw_for : Duration
  pub pinned_tag : Text

pub record RuntimeConfig : Type 0 where
  pub log_dir : Option Text
  pub raw_output : RawOutputPolicy
  pub retention : RetentionPolicy
  pub max_concurrent : ℕ
  pub default_grace_period : Duration

-- `Duration::from_secs`
abbrev pub from_secs : ℕ → Duration
from_secs n = n * 1000000000

unfoldable pub default_retention : RetentionPolicy
default_retention = record {
  keep_events_for = from_secs (60 * 60 * 24 * 30);
  keep_raw_for = from_secs (60 * 60 * 24 * 7);
  pinned_tag = codes "pinned";
}

abbrev pub or_four : Option ℕ → ℕ
or_four none = 4
or_four (some n) = n

unfoldable pub default_config : Option ℕ → RuntimeConfig
unfolding default_retention
default_config cores = record {
  log_dir = none;
  raw_output = RawOutputPolicy.disabled;
  retention = default_retention;
  max_concurrent = or_four cores;
  default_grace_period = from_secs 5;
}
