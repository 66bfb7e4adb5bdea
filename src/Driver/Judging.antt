-- ===== src/Driver/Judging.antt =====
-- Who decides whether a job has succeeded (`compute_outcome` and its call in src/runtime/driver.rs).
use execra.Base.{Bool, not, ◌&&◌, Option, ◌≡◌, ap, ◌∙◌, arith}
use execra.Command.{CommandSpec, Platform}
use execra.Host.{Host}
use execra.Interpreter.{Interpreter}
use execra.Job.{JobId}
use execra.Outcome.{ExitCode, is_success, exit_is_success}
use execra.Driver.Loop.Call.{call_exit, run_on_exit, settle}
use execra.Driver.Loop.Run.{final_exit, finish, verdict, wind_up}
use execra.Driver.Loop.Task.{Task}
use execra.Driver.Verdict.{compute_outcome}
use execra.Driver.World.{DriverState}

compute_outcome-is_success :
    (c late : Bool) (e : ExitCode) (s : DriverState)
    → is_success (compute_outcome c late e s) ≡ not c && not late && exit_is_success e
unfolding compute_outcome is_success
compute_outcome-is_success c late e s = ground arith

module _ {I : Type 0} (h : Host) (platform : Platform) (interp : Interpreter I) (job : JobId)
    (spec : CommandSpec) where
  call_exit-same :
      (o : Option I) (b : Bool) (e : ExitCode) (t : Task I)
      → let u = call_exit h interp job spec o b e t in
        (u.cancelled ≡ t.cancelled) × (u.timed_out ≡ t.timed_out) × (u.exit_status ≡ t.exit_status)
  unfolding call_exit settle
  call_exit-same o b e t = ground arith

  -- Whatever the interpreter has said and says at the exit: the job succeeds exactly if it was not
  -- cancelled, did not run out of time, and its process exited with code 0.
  pub finish-is_success :
      (t : Task I)
      → is_success (finish h platform interp job spec t).0
        ≡ not t.cancelled
          && not t.timed_out
          && exit_is_success (final_exit h platform interp job spec t.exit_status)
  unfolding finish verdict wind_up run_on_exit
  finish-is_success t =
      let u = wind_up h platform interp job spec t in
      let f = final_exit h platform interp job spec in
      let s = call_exit-same t.interpreter t.drive.state.interp_disabled (f t.exit_status) t in
      compute_outcome-is_success u.cancelled u.timed_out (f u.exit_status) u.drive.state
      ∙ ap (λ c. not c && not u.timed_out && exit_is_success (f u.exit_status)) s.0
      ∙ ap (λ l. not t.cancelled && not l && exit_is_success (f u.exit_status)) s.1
      ∙ ap (λ e. not t.cancelled && not t.timed_out && exit_is_success (f e)) s.2
