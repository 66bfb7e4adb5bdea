-- ===== src/Tauri/Quiet.antt =====
-- When `forward_events` of src/tauri.rs makes no synthetic progress.
use execra.Base.{
  Bool, true, false, Option, none, some, List, [], ◌∷◌, ◌≡◌, refl, ap, ◌∙◌, arith, if_rule₂,
  if◌then◌else◌,
}
use execra.Event.{Event}
use execra.Job.{JobId}
use execra.Tauri.Creep.{Rounding, CreepState}
use execra.Tauri.Forward.{
  CreepFn, Turn, next, timer, armed, creeping, forward, is_finalized, on_event, on_timer, straight,
}

abbrev pub is_armed : Option CreepState → Bool
is_armed none = false
is_armed (some c) = true

-- The phase, or the job, is over.
abbrev pub closes : Event → Bool
closes (Event.phase_exited j phase at) = true
closes (Event.finalized j outcome at) = true
closes (Event.cancelled j at) = true
closes _ = false

module _ (fl : Rounding) (creep : CreepFn) (job : JobId) where
  -- A phase is entered that `creep` gives a range.
  abbrev pub opens : Event → Bool
  opens (Event.phase_entered j phase name label at) = is_armed (armed fl creep job (creep name))
  opens _ = false

  abbrev pub none_opens : List Turn → Bool
  none_opens [] = true
  none_opens (timer at ∷ ts) = none_opens ts
  none_opens (next none ∷ ts) = none_opens ts
  none_opens (next (some e) ∷ ts) = if opens e then false else none_opens ts

  is_armed-none : (c : Option CreepState) → is_armed c ≡ false → c ≡ none
  is_armed-none none h = refl
  is_armed-none (some c) h = cc

  on_event-none : (e : Event) → opens e ≡ false → on_event fl creep job e none ≡ none
  unfolding on_event
  on_event-none (Event.phase_entered j phase name label at) h = is_armed-none _ h
  on_event-none e h = ground arith

  on_event-closes :
      (e : Event) (c : Option CreepState) → closes e ≡ true → on_event fl creep job e c ≡ none
  unfolding on_event
  on_event-closes e c h = ground arith

  none_opens_first :
      (e : Event) (ts : List Turn)
      → none_opens (next (some e) ∷ ts) ≡ true
      → (opens e ≡ false) × (none_opens ts ≡ true)
  none_opens_first e ts h = ground arith

  creeping-none_opens :
      (ts : List Turn) → none_opens ts ≡ true → creeping fl creep job none ts ≡ straight ts
  unfolding creeping straight on_timer
  creeping-none_opens [] h = refl
  creeping-none_opens (timer at ∷ ts) h = creeping-none_opens ts h
  creeping-none_opens (next none ∷ ts) h = refl
  creeping-none_opens (next (some e) ∷ ts) h =
      let o = none_opens_first e ts h in
      if_rule₂ (λ x y. x ≡ y) (is_finalized e) (is_finalized e) refl (λ y. refl)
        (λ n.
          ap (λ es. e ∷ es)
            (ap (λ c. creeping fl creep job c ts) (on_event-none e o.0)
              ∙ creeping-none_opens ts o.1))

  -- Whatever was armed: an event that closes the phase or the job disarms the timer.
  closed :
      (c : Option CreepState) (e : Event) (ts : List Turn)
      → closes e ≡ true
      → none_opens ts ≡ true
      → creeping fl creep job c (next (some e) ∷ ts) ≡ straight (next (some e) ∷ ts)
  unfolding creeping straight
  closed c e ts k h =
      if_rule₂ (λ x y. x ≡ y) (is_finalized e) (is_finalized e) refl (λ y. refl)
        (λ n.
          ap (λ es. e ∷ es)
            (ap (λ c. creeping fl creep job c ts) (on_event-closes e c k)
              ∙ creeping-none_opens ts h))

-- Synthetic progress belongs to phases that `creep` gives a range: as long as no such phase is
-- entered, exactly the events of the stream are delivered, up to the finalization, however often the
-- timer fires. This holds from the start, and, whatever the timer's state is, from an event on that
-- ends a phase, finalizes the job or cancels it.
pub forward_quiet :
    (fl : Rounding) (creep : CreepFn) (job : JobId) (ts : List Turn) (c : Option CreepState)
    (e : Event)
    → none_opens fl creep job ts ≡ true
    → closes e ≡ true
    → (forward fl (some creep) job ts ≡ straight ts)
      × (creeping fl creep job c (next (some e) ∷ ts) ≡ straight (next (some e) ∷ ts))
unfolding forward
forward_quiet fl creep job ts c e h k =
    (creeping-none_opens fl creep job ts h, closed fl creep job c e ts k h)
