-- ===== src/Driver/Verdict.antt =====
-- `compute_outcome`, `from_status` and `panic_msg` of src/runtime/driver.rs.
use execra.Base.{Text, codes, Bool, Option, none, some, if◌then◌else◌}
use execra.Base.Int.{ℤ, negsuc}
use execra.Command.{Platform}
use execra.Interpreter.{PanicPayload, str, string, opaque}
use execra.Outcome.{
  ExitCode, Outcome, FailureReason, succeeded, failed, cancelled, known_error, signal,
  non_zero_exit, timeout, exit_is_success,
}
use execra.Driver.World.{DriverState}

-- `std::process::ExitStatus`: its `code()` and, on Unix, its `signal()`.
pub record ExitStatus : Type 0 where
  pub code : Option ℤ
  pub signal : Option ℤ

abbrev pub unix_status : ExitStatus → Option ℤ → ExitCode
unix_status s none = record { code = s.code; signal = none }
unix_status s (some sig) = record { code = none; signal = some sig }

unfoldable pub from_status : Platform → ExitStatus → ExitCode
from_status Platform.windows s = record { code = s.code; signal = none }
from_status Platform.other s = unix_status s s.signal

unfoldable pub failure_reason : Option (Text × Text) → Option ℤ → Option ℤ → FailureReason
failure_reason (some (code, msg)) sig exit = known_error code msg
failure_reason none (some sig) exit = signal sig
failure_reason none none (some c) = non_zero_exit c
failure_reason none none none = non_zero_exit (negsuc 0)

unfoldable pub compute_outcome : Bool → Bool → ExitCode → DriverState → Outcome
unfolding failure_reason exit_is_success
compute_outcome was_cancelled timed_out exit s =
    if was_cancelled
    then cancelled s.findings
    else if timed_out
    then failed timeout s.summary s.findings
    else if exit_is_success exit
    then succeeded s.summary s.findings
    else failed (failure_reason s.known_error exit.signal exit.code) s.summary s.findings

unfoldable pub panic_msg : PanicPayload → Text
panic_msg (str s) = s
panic_msg (string s) = s
panic_msg opaque = codes "interpreter panicked"
