-- ===== src/Driver/Loop/Rule.antt =====
-- What holds of `drive_job`'s loop (src/runtime/driver.rs) after every tick: a rule that asks for the
-- steps that matter, the lines, the exit and the wakes, and does the polls once for all.
use execra.Base.{Text, Bool, true, false, List, [], ◌∷◌, ◌≡◌, refl, arith, if_rule}
use execra.Command.{CommandSpec, Platform}
use execra.Event.{Stream, stdout, stderr}
use execra.Host.{Host}
use execra.Interpreter.{Interpreter}
use execra.Job.{JobId}
use execra.Driver.Lines.{Read, line, Poll, ready, pending, poll_line}
use execra.Driver.Loop.Task.{Task, is_over}
use execra.Driver.Loop.Call.{process_line}
use execra.Driver.Loop.Run.{Tick, wake, poll, on_wake, tick, run}
use execra.Driver.Loop.Select.{
  drop_futures, on_read, on_exit, receive, poll_exit, take_stderr, poll_stderr, take_stdout,
  poll_stdout, poll_select,
}
use execra.Driver.Wait.{Stage, reported, Wake, Waited, io_error}

-- The wait task has sent its report or is gone.
abbrev pub is_spent : Stage → Bool → Bool
is_spent (reported o) dropped = true
is_spent _ dropped = dropped

-- Two tasks that differ in their pipes, their ends, and the cancellation alone.
pub record IsPlumbing {I : Type 0} (t u : Task I) : Type 0 where
  pub drive : u.drive ≡ t.drive
  pub interpreter : u.interpreter ≡ t.interpreter
  pub raw : u.raw ≡ t.raw
  pub wait : u.wait ≡ t.wait
  pub dropped : t.wait_dropped ≡ true → u.wait_dropped ≡ true
  pub cancelled : t.cancelled ≡ true → u.cancelled ≡ true
  pub child_exited : u.child_exited ≡ t.child_exited
  pub timed_out : u.timed_out ≡ t.timed_out
  pub exit_status : u.exit_status ≡ t.exit_status

module _ {I : Type 0} (h : Host) (platform : Platform) (interp : Interpreter I) (job : JobId)
    (spec : CommandSpec) (P : Task I → Type 0)
    (plumbing : (t u : Task I) → IsPlumbing t u → P t → P u)
    (on_line : (s : Stream) (x : Text) (t : Task I)
      → P t
      → P (process_line h interp job spec s x t))
    (exits : (r : Waited) (late : Bool) (t : Task I)
      → t.child_exited ≡ false
      → is_spent t.wait.stage t.wait_dropped ≡ true
      → P t
      → P (on_exit h platform interp job spec r late t))
    (wakes : (w : Wake) (t : Task I)
      → t.wait_dropped ≡ false
      → P t
      → P (on_wake h platform interp job spec w t)) where
  read_keeps :
      (s : Stream) (r : Read) (t : Task I) → P t → P (on_read h platform interp job spec s r t)
  unfolding on_read
  read_keeps s (line bytes) t p = on_line s _ t p
  read_keeps stdout _ t p = plumbing t _ (ground arith) p
  read_keeps stderr _ t p = plumbing t _ (ground arith) p

  receive_keeps :
      (st : Stage) (b : Bool) (t : Task I)
      → t.wait.stage ≡ st
      → t.wait_dropped ≡ b
      → t.child_exited ≡ false
      → P t
      → P (receive h platform interp job spec st b t)
  unfolding receive
  receive_keeps (reported o) b t es eb e p =
      exits o.status o.timed_out (drop_futures t) e (rw es refl)
        (plumbing t (drop_futures t) (ground arith) p)
  receive_keeps _ true t es eb e p =
      exits io_error false (drop_futures t) e (rw (es, eb) refl)
        (plumbing t (drop_futures t) (ground arith) p)
  receive_keeps _ false t es eb e p = p

  poll_exit_keeps : (t : Task I) → P t → P (poll_exit h platform interp job spec t)
  unfolding poll_exit
  poll_exit_keeps t p =
      if_rule P t.child_exited (λ e. p)
        (λ e. receive_keeps t.wait.stage t.wait_dropped t refl refl e p)

  take_stderr_keeps : (r : Poll) (t : Task I) → P t → P (take_stderr h platform interp job spec r t)
  unfolding take_stderr
  take_stderr_keeps (ready r q) t p = read_keeps stderr r _ (plumbing t _ (ground arith) p)
  take_stderr_keeps (pending b q) t p =
      poll_exit_keeps (record t { stderr = q; stderr_partial = b })
        (plumbing t (record t { stderr = q; stderr_partial = b }) (ground arith) p)

  poll_stderr_keeps : (t : Task I) → P t → P (poll_stderr h platform interp job spec t)
  unfolding poll_stderr
  poll_stderr_keeps t p =
      if_rule P t.stderr_done (λ e. poll_exit_keeps t p)
        (λ e. take_stderr_keeps (poll_line t.stderr_partial t.stderr) t p)

  take_stdout_keeps : (r : Poll) (t : Task I) → P t → P (take_stdout h platform interp job spec r t)
  unfolding take_stdout
  take_stdout_keeps (ready r q) t p = read_keeps stdout r _ (plumbing t _ (ground arith) p)
  take_stdout_keeps (pending b q) t p =
      poll_stderr_keeps (record t { stdout = q; stdout_partial = b })
        (plumbing t (record t { stdout = q; stdout_partial = b }) (ground arith) p)

  poll_stdout_keeps : (t : Task I) → P t → P (poll_stdout h platform interp job spec t)
  unfolding poll_stdout
  poll_stdout_keeps t p =
      if_rule P t.stdout_done (λ e. poll_stderr_keeps t p)
        (λ e. take_stdout_keeps (poll_line t.stdout_partial t.stdout) t p)

  poll_select_keeps : (t : Task I) → P t → P (poll_select h platform interp job spec t)
  unfolding poll_select
  poll_select_keeps t p = if_rule P (is_over t) (λ e. p) (λ e. poll_stdout_keeps t p)

  tick_keeps : (x : Tick) (t : Task I) → P t → P (tick h platform interp job spec x t)
  unfolding tick
  tick_keeps (wake w) t p = if_rule P t.wait_dropped (λ e. p) (λ e. wakes w t e p)
  tick_keeps poll t p = poll_select_keeps t p
  tick_keeps _ t p = plumbing t _ (ground arith) p

  pub run_keeps : (xs : List Tick) (t : Task I) → P t → P (run h platform interp job spec xs t)
  unfolding run
  run_keeps [] t p = p
  run_keeps (x ∷ xs) t p = run_keeps xs _ (tick_keeps x t p)
