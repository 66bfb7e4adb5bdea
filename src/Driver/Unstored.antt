-- ===== src/Driver/Unstored.antt =====
-- The driver of src/runtime/driver.rs with a store and without one.
use execra.Base.{Bool, Option, none, List, ◌≡◌, refl}
use execra.Command.{CommandSpec, Platform}
use execra.Host.{Host}
use execra.Interpreter.{Interpreter}
use execra.Job.{JobId}
use execra.Outcome.{Outcome}
use execra.Driver.Loop.Drive.{Spawned, drive_job}
use execra.Driver.Loop.Run.{Tick}
use execra.Driver.Mapped.Loop.{drive_job-seen}
use execra.Driver.Mapped.Steps.{Lens}
use execra.Driver.RawOutput.{Raw}
use execra.Driver.World.{World}

-- The same world without a store.
abbrev pub unstored : World → World
unstored w = record w { store = none }

abbrev pub unstored_given : Option Outcome × World → Option Outcome × World
unstored_given g = (g.0, unstored g.1)

abbrev without_store : (h : Host) (job : JobId) → Lens h job
without_store h job = record {
  on_sent = λ es. es;
  on_store = λ s. none;
  sent_law = λ es e o. refl;
  stored_law = λ e s. refl;
  upserted_law = λ j s. refl;
}

-- The store never changes what a job does: whatever the store holds and whatever it refuses to
-- write, the driver with a store gives the handle the same outcome, sends the same events in the
-- same order and leaves the same snapshot and clock as the driver without one, for every permit,
-- spawn, interpreter and sequence of ticks.
pub drive_job-unstored :
    {I : Type 0} (h : Host) (platform : Platform) (interp : Interpreter I) (job : JobId)
    (spec : CommandSpec) (permit : Bool) (s : Spawned) (raw : Raw) (i : Option I) (c : Bool)
    (ticks : List Tick) (w : World)
    → unstored_given (drive_job h platform interp job spec permit s raw i c ticks w)
      ≡ drive_job h platform interp job spec permit s raw i c ticks (unstored w)
drive_job-unstored h platform interp job spec permit s raw i c ticks w =
    drive_job-seen (without_store h job) platform interp spec permit s raw i c ticks w
