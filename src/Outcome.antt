-- ===== src/Outcome.antt =====
-- src/outcome.rs: the exit code, the outcome of a job, and why it failed.
use execra.Base.{
  Text, codes, Bool, true, false, ◌++◌, Option, none, some, List, ◌⊎◌, inl, inr, if◌then◌else◌,
}
use execra.Base.Int.{ℤ, pos, eqb_ℤ}
use execra.Finding.{Finding}

-- An `i32` is the integer that it stands for.
pub record ExitCode : Type 0 where
  pub code : Option ℤ
  pub signal : Option ℤ

unfoldable pub from_code : ℤ → ExitCode
from_code c = record { code = some c; signal = none }

unfoldable pub from_signal : ℤ → ExitCode
from_signal s = record { code = none; signal = some s }

abbrev pub is_zero : Option ℤ → Bool
is_zero none = false
is_zero (some c) = eqb_ℤ c (pos 0)

unfoldable pub exit_is_success : ExitCode → Bool
exit_is_success e = is_zero e.code

pub data FailureReason : Type 0 where
  non_zero_exit : ℤ → FailureReason
  signal : ℤ → FailureReason
  known_error : Text → Text → FailureReason
  spawn_failed : Text → FailureReason
  timeout : FailureReason

pub data Outcome : Type 0 where
  succeeded : Option Text → List Finding → Outcome
  failed : FailureReason → Option Text → List Finding → Outcome
  cancelled : List Finding → Outcome

unfoldable pub is_success : Outcome → Bool
is_success (succeeded summary findings) = true
is_success (failed reason summary findings) = false
is_success (cancelled findings) = false

abbrev pub unwrap_or : Option Text → Text → Text
unwrap_or none d = d
unwrap_or (some t) d = t

-- `decimal` prints an `i32`, as `format!` does.
module _ (decimal : ℤ → Text) where
  unfoldable pub reason_message : FailureReason → Text
  reason_message (known_error code message) = message
  reason_message (non_zero_exit code) = codes "process exited with code " ++ decimal code
  reason_message (signal sig) = codes "process was terminated by signal " ++ decimal sig
  reason_message (spawn_failed error) = error
  reason_message timeout = codes "operation timed out"

  unfoldable pub message : Outcome → Text
  unfolding reason_message
  message (succeeded summary findings) = unwrap_or summary (codes "completed successfully")
  message (cancelled findings) = codes "operation was cancelled"
  message (failed reason summary findings) = unwrap_or summary (reason_message reason)

  -- `Ok` is on the right, as for `?` after `.await`.
  unfoldable pub into_result : Outcome → Text ⊎ Text
  unfolding is_success message
  into_result o = if is_success o then inr (message o) else inl (message o)
