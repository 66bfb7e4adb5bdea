-- ===== src/Driver/Loop/Frame.antt =====
-- What the calls of the interpreter leave alone in the task (src/runtime/driver.rs): all but the
-- driver's state, the events, the interpreter and the raw output.
use execra.Base.{Text, Bool, true, false, Option, none, some, ◌≡◌, arith}
use execra.Command.{CommandSpec}
use execra.Event.{Stream}
use execra.Host.{Host}
use execra.Interpreter.{Interpreter, Returned, ok, panicked, Line}
use execra.Job.{JobId}
use execra.Driver.Loop.Task.{Task}
use execra.Driver.Loop.Call.{settle, call_line, record_line, process_line, call_exit}
use execra.Outcome.{ExitCode}

pub record IsFrame {I : Type 0} (t u : Task I) : Type 0 where
  pub stdout : u.stdout ≡ t.stdout
  pub stderr : u.stderr ≡ t.stderr
  pub stdout_partial : u.stdout_partial ≡ t.stdout_partial
  pub stderr_partial : u.stderr_partial ≡ t.stderr_partial
  pub stdout_done : u.stdout_done ≡ t.stdout_done
  pub stderr_done : u.stderr_done ≡ t.stderr_done
  pub wait : u.wait ≡ t.wait
  pub wait_dropped : u.wait_dropped ≡ t.wait_dropped
  pub cancelled : u.cancelled ≡ t.cancelled
  pub child_exited : u.child_exited ≡ t.child_exited
  pub timed_out : u.timed_out ≡ t.timed_out
  pub exit_status : u.exit_status ≡ t.exit_status

module _ {I : Type 0} where
  IsFrame-refl : (t : Task I) → IsFrame t t
  IsFrame-refl t = grind arith

module _ {I : Type 0} (h : Host) (interp : Interpreter I) (job : JobId) (spec : CommandSpec) where
  settle-IsFrame : (l : Option Text) (r : Returned I) (t : Task I) → IsFrame t (settle h job l r t)
  unfolding settle
  settle-IsFrame l (ok i evs) t = grind arith
  settle-IsFrame l (panicked i p) t = grind arith

  call_line-IsFrame :
      (o : Option I) (b : Bool) (l : Line) (t : Task I)
      → IsFrame t (call_line h interp job spec o b l t)
  unfolding call_line
  call_line-IsFrame (some i) false l t = settle-IsFrame _ _ t
  call_line-IsFrame (some i) true l t = IsFrame-refl t
  call_line-IsFrame none b l t = IsFrame-refl t

  pub call_exit-IsFrame :
      (o : Option I) (b : Bool) (e : ExitCode) (t : Task I)
      → IsFrame t (call_exit h interp job spec o b e t)
  unfolding call_exit
  call_exit-IsFrame (some i) false e t = settle-IsFrame _ _ t
  call_exit-IsFrame (some i) true e t = IsFrame-refl t
  call_exit-IsFrame none b e t = IsFrame-refl t

  pub process_line-IsFrame :
      (s : Stream) (x : Text) (t : Task I) → IsFrame t (process_line h interp job spec s x t)
  unfolding process_line
  process_line-IsFrame s x t =
      let u = record_line h interp job spec s x (h.now t.drive.world.clock) t in
      let f =
        call_line-IsFrame t.interpreter t.drive.state.interp_disabled
          (record { stream = s; text = x; at = h.now t.drive.world.clock }) u in
      record {
        stdout = f.stdout;
        stderr = f.stderr;
        stdout_partial = f.stdout_partial;
        stderr_partial = f.stderr_partial;
        stdout_done = f.stdout_done;
        stderr_done = f.stderr_done;
        wait = f.wait;
        wait_dropped = f.wait_dropped;
        cancelled = f.cancelled;
        child_exited = f.child_exited;
        timed_out = f.timed_out;
        exit_status = f.exit_status;
      }
