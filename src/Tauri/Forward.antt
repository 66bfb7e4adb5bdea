-- ===== src/Tauri/Forward.antt =====
-- `forward_events` of src/tauri.rs: the observers and the channel are given each event of the job
-- until it is finalized. An observer is the effects that it has on an event, and `emit` is what
-- `app.emit` does.
use execra.Base.{Text, Bool, true, false, Option, none, some, List, [], ◌∷◌, ◌++◌, if◌then◌else◌}
use execra.Event.{Event}
use execra.Finding.{SystemTime}
use execra.Job.{JobId}
use execra.Progress.{F32, of_fraction}
use execra.Tauri.Creep.{Rounding, CreepState, new, tick}

abbrev pub CreepFn : Type 0
CreepFn = Text → Option (F32 × F32)

abbrev pub is_finalized : Event → Bool
is_finalized (Event.finalized job outcome at) = true
is_finalized _ = false

module _ {O : Type 0} (emit : Text → Event → O) where
  unfoldable pub observed : List (Event → List O) → Event → List O
  observed [] e = []
  observed (f ∷ fs) e = f e ++ observed fs e

  abbrev pub emitted : Option Text → Event → List O
  emitted none e = []
  emitted (some channel) e = emit channel e ∷ []

  -- The observers in the order in which they were added, then the channel.
  unfoldable pub deliver : List (Event → List O) → Option Text → Event → List O
  unfolding observed
  deliver observers channel e = observed observers e ++ emitted channel e

  unfoldable pub deliver_all : List (Event → List O) → Option Text → List Event → List O
  unfolding deliver
  deliver_all observers channel [] = []
  deliver_all observers channel (e ∷ es) =
      deliver observers channel e ++ deliver_all observers channel es

-- What a poll of the task finds: the stream gives an event or closes, or it has none and the timer
-- fires.
pub data Turn : Type 0 where
  next : Option Event → Turn
  timer : SystemTime → Turn

-- Which events are delivered without synthetic progress, `while let Some(event)`.
unfoldable pub straight : List Turn → List Event
straight [] = []
straight (timer at ∷ ts) = straight ts
straight (next none ∷ ts) = []
straight (next (some e) ∷ ts) =
    let rest = straight ts in if is_finalized e then e ∷ [] else e ∷ rest

module _ (fl : Rounding) (creep : CreepFn) (job : JobId) where
  open fl use {f32_gt}

  -- `.filter(|(s, e)| e > s).map(…)`
  abbrev pub armed : Option (F32 × F32) → Option CreepState
  armed none = none
  armed (some (s, e)) = if f32_gt e s then some (new fl s e) else none

  -- The `match &event`.
  unfoldable pub on_event : Event → Option CreepState → Option CreepState
  on_event (Event.phase_entered j phase name label at) c = armed (creep name)
  on_event (Event.phase_exited j phase at) c = none
  on_event (Event.finalized j outcome at) c = none
  on_event (Event.cancelled j at) c = none
  on_event _ c = c

  -- `state = None` where the creeping is done.
  abbrev pub disarmed : CreepState → Option CreepState
  disarmed c = if c.done then none else some c

  -- The timer's arm.
  abbrev pub bumped : SystemTime → Option F32 × CreepState → List Event × Option CreepState
  bumped at (some f, c) = (Event.progress_updated job (of_fraction f) at ∷ [], some c)
  bumped at (none, c) = ([], disarmed c)

  unfoldable pub on_timer : SystemTime → Option CreepState → List Event × Option CreepState
  unfolding tick
  on_timer at none = ([], none)
  on_timer at (some c) = bumped at (tick fl c)

  -- The loop, with the events that it delivers.
  unfoldable pub creeping : Option CreepState → List Turn → List Event
  unfolding on_event on_timer
  creeping c [] = []
  creeping c (next none ∷ ts) = []
  creeping c (next (some e) ∷ ts) =
      let rest = creeping (on_event e c) ts in if is_finalized e then e ∷ [] else e ∷ rest
  creeping c (timer at ∷ ts) = let t = on_timer at c in t.0 ++ creeping t.1 ts

-- The events that `forward_events` delivers.
unfoldable pub forward : Rounding → Option CreepFn → JobId → List Turn → List Event
unfolding straight creeping
forward fl none job ts = straight ts
forward fl (some creep) job ts = creeping fl creep job none ts

unfoldable pub forward_events :
    {O : Type 0}
    → (Text → Event → O)
    → Rounding
    → JobId
    → Option Text
    → List (Event → List O)
    → Option CreepFn
    → List Turn
    → List O
unfolding forward deliver_all
forward_events emit fl job channel observers creep ts =
    deliver_all emit observers channel (forward fl creep job ts)
