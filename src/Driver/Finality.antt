-- ===== src/Driver/Finality.antt =====
-- The snapshot and the last event of a job when `drive_job` of src/runtime/driver.rs returns.
use execra.Base.{Bool, true, false, Option, none, some, List, snoc, ◌≡◌, refl, subst, if_rule}
use execra.Command.{CommandSpec, Platform}
use execra.Event.{Event}
use execra.Finding.{SystemTime}
use execra.Host.{Host}
use execra.Interpreter.{Interpreter}
use execra.Job.{JobId, JobState}
use execra.Outcome.{Outcome}
use execra.Driver.Loop.Drive.{Spawned, child, refused, drive_job, drive_spawned, left}
use execra.Driver.Loop.Run.{Tick, fail_spawn, finalize, finish, run, start, spawn_error}
use execra.Driver.Loop.Task.{Task, is_over}
use execra.Driver.RawOutput.{Raw}
use execra.Driver.World.{World, emit, persist_snapshot, update_snapshot}

-- A job with this outcome: the snapshot is final, and its finalization is the last event.
abbrev pub IsFinal : JobId → Outcome → World → Type 0
IsFinal job o w =
    (w.snapshot.state ≡ JobState.finalized)
    × (w.snapshot.outcome ≡ some o)
    × ((before : List Event) × (at : SystemTime) × (w.sent
          ≡ snoc before (Event.finalized job o at)))

-- Nothing is said of a job whose driver has not given an outcome.
abbrev pub IsFinalIf : JobId → Option Outcome × World → Type 0
IsFinalIf job (none, w) = Unit {0}
IsFinalIf job (some o, w) = IsFinal job o w

pub finalize-IsFinal :
    (h : Host) (job : JobId) (o : Outcome) (w : World) → IsFinal job o (finalize h job o w)
unfolding finalize emit persist_snapshot update_snapshot
finalize-IsFinal h job o w = (refl, refl, (w.sent, _, refl))

module _ {I : Type 0} (h : Host) (platform : Platform) (interp : Interpreter I) (job : JobId)
    (spec : CommandSpec) where
  left-IsFinalIf : (t : Task I) → IsFinalIf job (left h platform interp job spec t)
  unfolding finish
  left-IsFinalIf t = if_rule (IsFinalIf job) (is_over t) (λ e. finalize-IsFinal h job _ _) (λ e. tt)

  drive_spawned-IsFinalIf :
      (s : Spawned) (raw : Raw) (i : Option I) (c : Bool) (ticks : List Tick) (w : World)
      → IsFinalIf job (drive_spawned h platform interp job spec s raw i c ticks w)
  unfolding fail_spawn
  drive_spawned-IsFinalIf (refused error) raw i c ticks w =
      finalize-IsFinal h job (spawn_error error) w
  drive_spawned-IsFinalIf (child pid group) raw i c ticks w =
      left-IsFinalIf (
        run h platform interp job spec ticks (start h platform interp job spec pid group raw i c w))

  drive_job-IsFinalIf :
      (permit : Bool) (s : Spawned) (raw : Raw) (i : Option I) (c : Bool) (ticks : List Tick)
      (w : World)
      → IsFinalIf job (drive_job h platform interp job spec permit s raw i c ticks w)
  unfolding drive_job
  drive_job-IsFinalIf false s raw i c ticks w = tt
  drive_job-IsFinalIf true s raw i c ticks w = drive_spawned-IsFinalIf s raw i c ticks w

  -- When the handle is given an outcome, whether the process ran or could not be spawned, the job's
  -- snapshot is finalized with this outcome, and its finalization with this outcome is the last
  -- event that was sent.
  pub drive_job-IsFinal :
      (permit : Bool) (s : Spawned) (raw : Raw) (i : Option I) (c : Bool) (ticks : List Tick)
      (w w' : World) (o : Outcome)
      → drive_job h platform interp job spec permit s raw i c ticks w ≡ (some o, w')
      → IsFinal job o w'
  drive_job-IsFinal permit s raw i c ticks w w' o e =
      subst (IsFinalIf job) e (drive_job-IsFinalIf permit s raw i c ticks w)
