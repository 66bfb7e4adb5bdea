-- ===== src/Driver/Loop/Run.antt =====
-- `drive_job` of src/runtime/driver.rs from the spawn of the child to its outcome.
use execra.Base.{ℕ, Bool, true, false, Option, none, some, List, [], ◌∷◌, ◌++◌, Text, if◌then◌else◌}
use execra.Command.{CommandSpec, Platform}
use execra.Event.{Event}
use execra.Host.{Host}
use execra.Interpreter.{Interpreter}
use execra.Job.{JobId, JobState}
use execra.Outcome.{ExitCode, Outcome, failed, spawn_failed}
use execra.Driver.Apply.{exit_open_phases}
use execra.Driver.Lines.{Pipe, End}
use execra.Driver.RawOutput.{Raw}
use execra.Driver.Verdict.{compute_outcome}
use execra.Driver.Wait
use execra.Driver.Wait.{Wake, Waited, WaitTask, Stage, emits_cancelled, step}
use execra.Driver.World.{World, fresh, now, after_now, emit, update_snapshot, persist_snapshot}
use execra.Driver.Loop.Call.{run_on_exit}
use execra.Driver.Loop.Select.{poll_select, exit_code}
use execra.Driver.Loop.Task.{Task, open_pipe}

pub data Tick : Type 0 where
  stdout_bytes stderr_bytes : List ℕ → Tick
  stdout_end stderr_end : End → Tick
  wake : Wake → Tick
  cancel wait_dropped poll : Tick

-- Nothing comes out of a pipe that has ended.
abbrev pub arrive : List ℕ → Option End → Pipe → Pipe
arrive bytes none p = record p { buffer = p.buffer ++ bytes }
arrive bytes (some e) p = p

abbrev pub close : End → Option End → Pipe → Pipe
close e none p = record p { end = some e }
close e (some e') p = p

-- What the code does to the job when it is finalized: the snapshot, the store, the event.
unfoldable pub finalize : Host → JobId → Outcome → World → World
unfolding emit update_snapshot persist_snapshot
finalize h job outcome w =
    let w' =
      persist_snapshot h (
        update_snapshot (λ j. record j { state = JobState.finalized; outcome = some outcome }) w) in
    emit h (Event.finalized job outcome (now h w')) (after_now w')

abbrev pub close_raw : Raw → Raw
close_raw r = record r { file = none }

-- `child.id().unwrap_or(0)`
abbrev pub pid_or_zero : Option ℕ → ℕ
pid_or_zero none = 0
pid_or_zero (some pid) = pid

-- `JobStarted` is sent before the snapshot is running.
unfoldable pub note_start : Host → JobId → ℕ → World → World
unfolding emit update_snapshot persist_snapshot
note_start h job pid w =
    let w' = emit h (Event.job_started job pid (now h w)) (after_now w) in
    persist_snapshot h (
      update_snapshot (λ j. record j { state = JobState.running; started_at = some (now h w') })
        (after_now w'))

unfoldable pub spawn_error : Text → Outcome
spawn_error error = failed (spawn_failed error) none []

-- The child could not be spawned.
unfoldable pub fail_spawn : Host → JobId → Text → World → Outcome × World
unfolding finalize spawn_error
fail_spawn h job error w = (spawn_error error, finalize h job (spawn_error error) w)

abbrev pub cancelled_world : Host → JobId → Bool → World → World
cancelled_world h job false w = w
cancelled_world h job true w = emit h (Event.cancelled job (now h w)) (after_now w)

abbrev pub is_some : Option ℕ → Bool
is_some none = false
is_some (some n) = true

module _ {I : Type 0} (h : Host) (platform : Platform) (interp : Interpreter I) (job : JobId)
    (spec : CommandSpec) where
  unfoldable pub start : Option ℕ → Bool → Raw → Option I → Bool → World → Task I
  unfolding note_start
  start pid has_group raw i cancelled w = record {
    drive = record { state = fresh; world = note_start h job (pid_or_zero pid) w };
    interpreter = i;
    raw = raw;
    stdout = open_pipe;
    stderr = open_pipe;
    stdout_partial = [];
    stderr_partial = [];
    stdout_done = false;
    stderr_done = false;
    wait = Wait.start (is_some spec.timeout) has_group;
    wait_dropped = false;
    cancelled = cancelled;
    child_exited = false;
    timed_out = false;
    exit_status = none;
  }

  unfoldable pub on_wake : Wake → Task I → Task I
  on_wake wk t = record t {
    wait = step t.cancelled wk t.wait;
    drive = record t.drive {
      world = cancelled_world h job (emits_cancelled t.wait.stage t.cancelled wk) t.drive.world;
    };
  }

  unfoldable pub tick : Tick → Task I → Task I
  unfolding on_wake poll_select
  tick (stdout_bytes bytes) t = record t { stdout = arrive bytes t.stdout.end t.stdout }
  tick (stderr_bytes bytes) t = record t { stderr = arrive bytes t.stderr.end t.stderr }
  tick (stdout_end e) t = record t { stdout = close e t.stdout.end t.stdout }
  tick (stderr_end e) t = record t { stderr = close e t.stderr.end t.stderr }
  tick (wake wk) t = if t.wait_dropped then t else on_wake wk t
  tick cancel t = record t { cancelled = true }
  tick wait_dropped t = record t { wait_dropped = true }
  tick poll t = poll_select h platform interp job spec t

  unfoldable pub run : List Tick → Task I → Task I
  unfolding tick
  run [] t = t
  run (x ∷ xs) t = run xs (tick x t)

  abbrev pub final_exit : Option Waited → ExitCode
  final_exit none = record { code = none; signal = none }
  final_exit (some r) = exit_code platform r

  -- The interpreter's last call, and the phases that it left open.
  unfoldable pub wind_up : Task I → Task I
  unfolding run_on_exit exit_open_phases
  wind_up t =
      let t' = run_on_exit h interp job spec (final_exit t.exit_status) t in
      record t' { drive = exit_open_phases h job t'.drive }

  unfoldable pub verdict : Task I → Outcome
  unfolding compute_outcome
  verdict t = compute_outcome t.cancelled t.timed_out (final_exit t.exit_status) t.drive.state

  -- What follows the loop.
  unfoldable pub finish : Task I → Outcome × Task I
  finish t =
      let t' = wind_up t in
      let outcome = verdict t' in
      (
        outcome,
        record t' {
          drive = record t'.drive { world = finalize h job outcome t'.drive.world };
          raw = close_raw t'.raw;
        },
      )
