-- ===== src/Driver/Loop/Drive.antt =====
-- `drive_job` of src/runtime/driver.rs as a whole: the permit, the spawn, the loop and its end.
use execra.Base.{ℕ, Text, Bool, true, false, Option, none, some, List, if◌then◌else◌}
use execra.Command.{CommandSpec, Platform}
use execra.Host.{Host}
use execra.Interpreter.{Interpreter}
use execra.Job.{JobId}
use execra.Outcome.{Outcome}
use execra.Driver.Loop.Run.{Tick, fail_spawn, finish, run, start}
use execra.Driver.Loop.Task.{Task, is_over}
use execra.Driver.RawOutput.{Raw}
use execra.Driver.World.{World}

-- What the system makes of the command: a child, with its pid and whether it has a process group, or
-- an error.
pub data Spawned : Type 0 where
  child : Option ℕ → Bool → Spawned
  refused : Text → Spawned

module _ {I : Type 0} (h : Host) (platform : Platform) (interp : Interpreter I) (job : JobId)
    (spec : CommandSpec) where
  abbrev pub given : Outcome × Task I → Option Outcome × World
  given (outcome, u) = (some outcome, u.drive.world)

  abbrev pub left : Task I → Option Outcome × World
  left t = if is_over t then given (finish h platform interp job spec t) else (none, t.drive.world)

  abbrev pub failed_spawn : Outcome × World → Option Outcome × World
  failed_spawn (outcome, w) = (some outcome, w)

  abbrev pub drive_spawned :
      Spawned → Raw → Option I → Bool → List Tick → World → Option Outcome × World
  drive_spawned (refused error) raw i cancelled ticks w = failed_spawn (fail_spawn h job error w)
  drive_spawned (child pid group) raw i cancelled ticks w = left (
      run h platform interp job spec ticks
        (start h platform interp job spec pid group raw i cancelled w))

  -- What the driver has sent to the handle after the ticks, if anything, and the world. Without a
  -- permit, which it does not get from a semaphore that is closed, it returns at once.
  unfoldable pub drive_job :
      Bool → Spawned → Raw → Option I → Bool → List Tick → World → Option Outcome × World
  unfolding fail_spawn finish run start
  drive_job false s raw i cancelled ticks w = (none, w)
  drive_job true s raw i cancelled ticks w = drive_spawned s raw i cancelled ticks w
