-- ===== src/Finding.antt =====
-- src/finding.rs: findings, their severity, their action and what they relate to.
use execra.Base.{Text, Option, none, some, List}
use execra.Base.Int.{ℤ}

-- `std::time::SystemTime`: nanoseconds since the Unix epoch.
abbrev pub SystemTime : Type 0
SystemTime = ℤ

pub data Severity : Type 0 where
  info recommendation warning error : Severity

pub data Action : Type 0 where
  command : Text → Text → List Text → Option Text → Action
  link : Text → Text → Action
  instruction : Text → Text → Action

-- `Action::command`, in the directory of the caller.
unfoldable pub command_of : Text → Text → List Text → Action
command_of label program args = command label program args none

unfoldable pub command_in : Text → Text → List Text → Text → Action
command_in label program args cwd = command label program args (some cwd)

pub data RelatedEntity : Type 0 where
  a_package file url other : Text → RelatedEntity

pub record Finding : Type 0 where
  pub severity : Severity
  pub code : Text
  pub message : Text
  pub action : Option Action
  pub related : Option RelatedEntity
  pub at : SystemTime

-- `at` is what `SystemTime::now` returned.
unfoldable pub make : SystemTime → Severity → Text → Text → Finding
make at severity code message = record {
  severity = severity;
  code = code;
  message = message;
  action = none;
  related = none;
  at = at;
}

unfoldable pub with_action : Action → Finding → Finding
with_action action f = record f { action = some action }

unfoldable pub with_related : RelatedEntity → Finding → Finding
with_related related f = record f { related = some related }
