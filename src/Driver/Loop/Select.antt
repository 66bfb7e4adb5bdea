-- ===== src/Driver/Loop/Select.antt =====
-- One poll of the `select!` in the loop of `drive_job` (src/runtime/driver.rs). It is biased: the
-- branches are polled in their order, and a branch that is not enabled is not polled.
use execra.Base.{Bool, true, false, none, some, [], if◌then◌else◌}
use execra.Command.{CommandSpec, Platform}
use execra.Event
use execra.Event.{Stream, stdout, stderr}
use execra.Host.{Host}
use execra.Interpreter.{Interpreter}
use execra.Job.{JobId, JobState}
use execra.Outcome.{ExitCode}
use execra.Driver.Lines.{Read, line, failed, done, Poll, ready, pending, poll_line, strip}
use execra.Driver.Verdict.{from_status}
use execra.Driver.Wait.{Stage, reported, Waited, status, io_error}
use execra.Driver.World.{World, now, after_now, emit, update_snapshot, persist_snapshot}
use execra.Driver.Loop.Call.{process_line}
use execra.Driver.Loop.Task.{Task, is_over}

unfoldable pub exit_code : Platform → Waited → ExitCode
unfolding from_status
exit_code platform (status s) = from_status platform s
exit_code platform io_error = record { code = none; signal = none }

-- The `ExitCode` is written to the snapshot after it is sent.
unfoldable pub note_exit : Host → JobId → ExitCode → World → World
unfolding emit update_snapshot persist_snapshot
note_exit h job ec w = persist_snapshot h (
    update_snapshot (λ j. record j { exit = some ec; state = JobState.exited })
      (emit h (Event.exited job ec (now h w)) (after_now w)))

module _ {I : Type 0} where
  -- When a branch has been taken, the futures of the others are dropped, with what they had read.
  abbrev pub drop_futures : Task I → Task I
  drop_futures t = record t { stdout_partial = []; stderr_partial = [] }

  abbrev pub mark_done : Stream → Task I → Task I
  mark_done stdout t = record t { stdout_done = true }
  mark_done stderr t = record t { stderr_done = true }

module _ {I : Type 0} (h : Host) (platform : Platform) (interp : Interpreter I) (job : JobId)
    (spec : CommandSpec) where
  unfoldable pub on_read : Stream → Read → Task I → Task I
  on_read stream (line bytes) t =
      process_line h interp job spec stream (h.from_utf8_lossy (strip bytes)) t
  on_read stream failed t = mark_done stream t
  on_read stream done t = mark_done stream t

  unfoldable pub on_exit : Waited → Bool → Task I → Task I
  unfolding note_exit exit_code
  on_exit r late t = record t {
    child_exited = true;
    timed_out = late;
    exit_status = some r;
    drive = record t.drive { world = note_exit h job (exit_code platform r) t.drive.world };
  }

  -- The third branch: the report of the wait task, or the end of its channel.
  unfoldable pub receive : Stage → Bool → Task I → Task I
  unfolding on_exit
  receive (reported o) dropped t = on_exit o.status o.timed_out (drop_futures t)
  receive _ true t = on_exit io_error false (drop_futures t)
  receive _ false t = t

  unfoldable pub poll_exit : Task I → Task I
  unfolding receive
  poll_exit t = if t.child_exited then t else receive t.wait.stage t.wait_dropped t

  unfoldable pub take_stderr : Poll → Task I → Task I
  unfolding on_read poll_exit
  take_stderr (ready r p) t = on_read stderr r (drop_futures (record t { stderr = p }))
  take_stderr (pending bytes p) t = poll_exit (record t { stderr = p; stderr_partial = bytes })

  unfoldable pub poll_stderr : Task I → Task I
  unfolding take_stderr poll_line
  poll_stderr t =
      if t.stderr_done then poll_exit t else take_stderr (poll_line t.stderr_partial t.stderr) t

  unfoldable pub take_stdout : Poll → Task I → Task I
  unfolding on_read poll_stderr
  take_stdout (ready r p) t = on_read stdout r (drop_futures (record t { stdout = p }))
  take_stdout (pending bytes p) t = poll_stderr (record t { stdout = p; stdout_partial = bytes })

  unfoldable pub poll_stdout : Task I → Task I
  unfolding take_stdout poll_line
  poll_stdout t =
      if t.stdout_done then poll_stderr t else take_stdout (poll_line t.stdout_partial t.stdout) t

  -- One poll of the driver inside its `while` loop.
  unfoldable pub poll_select : Task I → Task I
  unfolding poll_stdout
  poll_select t = if is_over t then t else poll_stdout t
