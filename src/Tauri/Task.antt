-- ===== src/Tauri/Task.antt =====
-- `TaskBuilder` of src/tauri.rs. The handle of the application is left out: an observer is the
-- effects that it has.
use execra.Base.{
  Text, Bool, true, false, Option, none, some, List, [], ◌∷◌, snoc, if◌then◌else◌, ◌||◌, not,
}
use execra.Command
use execra.Command.{Command}
use execra.Event.{Event, Stream}
use execra.Host.{Host}
use execra.Job.{JobId}
use execra.Outcome.{Outcome}
use execra.Runtime.Jobs.{Answer, Runtime, bad, good, spawn}
use execra.Tauri.Forward.{CreepFn}

pub record TaskBuilder (I : Type 0) (O : Type 0) : Type 0 where
  pub cmd : Command I
  pub channel : Option Text
  pub observers : List (Event → List O)
  pub tags : List Text
  pub creep : Option CreepFn

abbrev pub if_created : {O : Type 0} → (JobId → List O) → Event → List O
if_created f (Event.job_created job command at) = f job
if_created f _ = []

abbrev pub if_output : {O : Type 0} → (Stream → Text → List O) → Event → List O
if_output f (Event.output_appended job stream line at) = f stream line
if_output f _ = []

abbrev pub if_interpreter_error :
    {O : Type 0} → (Text → Text → Option Text → List O) → Event → List O
if_interpreter_error f (Event.interpreter_error job interpreter error line at) =
    f interpreter error line
if_interpreter_error f _ = []

abbrev pub if_finalized : {O : Type 0} → (Outcome → List O) → Event → List O
if_finalized f (Event.finalized job outcome at) = f outcome
if_finalized f _ = []

abbrev pub is_empty : {A : Type 0} → List A → Bool
is_empty [] = true
is_empty (a ∷ more) = false

abbrev pub is_some : {A : Type 0} → Option A → Bool
is_some none = false
is_some (some a) = true

abbrev pub handle_of : Answer (JobId × Bool) → Answer JobId
handle_of (good (id, forwarded)) = good id
handle_of (bad e) = bad e

module _ {I : Type 0} {O : Type 0} where
  -- `task`, before any setter.
  abbrev pub task : Command I → TaskBuilder I O
  task c = record { cmd = c; channel = none; observers = []; tags = []; creep = none }

  unfoldable pub channel : Text → TaskBuilder I O → TaskBuilder I O
  channel name b = record b { channel = some name }

  unfoldable pub observe : (Event → List O) → TaskBuilder I O → TaskBuilder I O
  observe f b = record b { observers = snoc b.observers f }

  unfoldable pub on_created : (JobId → List O) → TaskBuilder I O → TaskBuilder I O
  unfolding observe
  on_created f = observe (if_created f)

  unfoldable pub on_output : (Stream → Text → List O) → TaskBuilder I O → TaskBuilder I O
  unfolding observe
  on_output f = observe (if_output f)

  unfoldable pub on_interpreter_error :
      (Text → Text → Option Text → List O) → TaskBuilder I O → TaskBuilder I O
  unfolding observe
  on_interpreter_error f = observe (if_interpreter_error f)

  unfoldable pub on_finalized : (Outcome → List O) → TaskBuilder I O → TaskBuilder I O
  unfolding observe
  on_finalized f = observe (if_finalized f)

  unfoldable pub label : Text → TaskBuilder I O → TaskBuilder I O
  unfolding Command.label
  label text b = record b { cmd = Command.label text b.cmd }

  unfoldable pub tag : Text → TaskBuilder I O → TaskBuilder I O
  tag t b = record b { tags = snoc b.tags t }

  unfoldable pub interpreter : I → TaskBuilder I O → TaskBuilder I O
  unfolding package.execra.Command.interpreter
  interpreter i b = record b { cmd = package.execra.Command.interpreter i b.cmd }

  unfoldable pub creep : CreepFn → TaskBuilder I O → TaskBuilder I O
  creep f b = record b { creep = some f }

  -- `finalize_cmd`: the command that is spawned.
  unfoldable pub finalize_cmd : TaskBuilder I O → Command I
  unfolding Command.tags
  finalize_cmd b = if is_empty b.tags then b.cmd else Command.tags b.tags b.cmd

  abbrev pub has_listener : TaskBuilder I O → Bool
  has_listener b = is_some b.channel || not (is_empty b.observers) || is_some b.creep

  abbrev pub with_forwarder : TaskBuilder I O → Answer JobId → Answer (JobId × Bool)
  with_forwarder b (good id) = good (id, has_listener b)
  with_forwarder b (bad e) = bad e

  -- The id of the handle, and whether a task forwards the events of the job.
  unfoldable pub spawn_with_forwarding :
      Host → TaskBuilder I O → Runtime → Answer (JobId × Bool) × Runtime
  unfolding finalize_cmd spawn
  spawn_with_forwarding h b r =
      let s = spawn h (finalize_cmd b).spec r in (with_forwarder b s.0, s.1)

  -- `spawn`, and `spawn_tracked`, which keeps the id of the handle.
  unfoldable pub spawn_tracked : Host → TaskBuilder I O → Runtime → Answer JobId × Runtime
  unfolding spawn_with_forwarding
  spawn_tracked h b r = let s = spawn_with_forwarding h b r in (handle_of s.0, s.1)
