-- ===== src/Tauri/Merged.antt =====
-- Which events `forward_events` of src/tauri.rs delivers.
use execra.Base.{Option, none, some, List, [], ◌∷◌, ◌++◌, if_rule₂, refl}
use execra.Event.{Event}
use execra.Finding.{SystemTime}
use execra.Job.{JobId}
use execra.Progress.{F32, of_fraction}
use execra.Tauri.Creep.{Rounding, CreepState, tick}
use execra.Tauri.Forward.{
  CreepFn, Turn, next, timer, bumped, creeping, forward, is_finalized, on_event, on_timer, straight,
}

-- The second list with synthetic progress of a job put in.
pub data IsMerged (job : JobId) : List Event → List Event → Type 0 where
  none_left : IsMerged job [] []
  real : {e : Event} {ds es : List Event} → IsMerged job ds es → IsMerged job (e ∷ ds) (e ∷ es)
  synthetic :
      (f : F32) (at : SystemTime) {ds es : List Event}
      → IsMerged job ds es
      → IsMerged job (Event.progress_updated job (of_fraction f) at ∷ ds) es

IsMerged-self : (job : JobId) (es : List Event) → IsMerged job es es
IsMerged-self job [] = none_left
IsMerged-self job (e ∷ es) = real (IsMerged-self job es)

bumped-IsMerged :
    (fl : Rounding) (creep : CreepFn) (job : JobId) (at : SystemTime) (t : Option F32 × CreepState)
    (ds es : List Event)
    → IsMerged job ds es
    → IsMerged job ((bumped fl creep job at t).0 ++ ds) es
bumped-IsMerged fl creep job at (none, c) ds es m = m
bumped-IsMerged fl creep job at (some f, c) ds es m = synthetic f at m

on_timer-IsMerged :
    (fl : Rounding) (creep : CreepFn) (job : JobId) (at : SystemTime) (c : Option CreepState)
    (ds es : List Event)
    → IsMerged job ds es
    → IsMerged job ((on_timer fl creep job at c).0 ++ ds) es
unfolding on_timer
on_timer-IsMerged fl creep job at none ds es m = m
on_timer-IsMerged fl creep job at (some c) ds es m =
    bumped-IsMerged fl creep job at (tick fl c) ds es m

creeping-IsMerged :
    (fl : Rounding) (creep : CreepFn) (job : JobId) (c : Option CreepState) (ts : List Turn)
    → IsMerged job (creeping fl creep job c ts) (straight ts)
unfolding creeping straight
creeping-IsMerged fl creep job c [] = none_left
creeping-IsMerged fl creep job c (next none ∷ ts) = none_left
creeping-IsMerged fl creep job c (next (some e) ∷ ts) =
    if_rule₂ (λ x y. IsMerged job x y) (is_finalized e) (is_finalized e) refl (λ y. real none_left)
      (λ n. real (creeping-IsMerged fl creep job (on_event fl creep job e c) ts))
creeping-IsMerged fl creep job c (timer at ∷ ts) =
    let t = on_timer fl creep job at c in
    on_timer-IsMerged fl creep job at c (creeping fl creep job t.1 ts) (straight ts)
      (creeping-IsMerged fl creep job t.1 ts)

-- Whenever the timer fires: with synthetic progress or without it, the listeners are given the events
-- of the stream up to the first finalization, each once and in their order, and nothing else but
-- synthetic progress of the job.
pub forward-IsMerged :
    (fl : Rounding) (creep : Option CreepFn) (job : JobId) (ts : List Turn)
    → IsMerged job (forward fl creep job ts) (straight ts)
unfolding forward
forward-IsMerged fl none job ts = IsMerged-self job (straight ts)
forward-IsMerged fl (some creep) job ts = creeping-IsMerged fl creep job none ts
