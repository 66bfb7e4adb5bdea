-- ===== src/Driver/Emitting.antt =====
-- `emit` of src/runtime/driver.rs in two tasks at once: that of the driver, and the wait task of
-- src/runtime/wait.rs, whose send and insertion may come between those of the driver.
use execra.Base.{
  not, Option, none, some, List, [], ◌∷◌, ◌++◌, append-nil, snoc, ◌≡◌, refl, sym, ap, ◌∙◌, subst,
}
use execra.Base.Sorted.{filter, filter-append}
use execra.Driver.Logged.{is_cancelled}
use execra.Event.{Event}
use execra.Finding.{SystemTime}
use execra.Job.{JobId}

-- What has been sent and inserted, and the event that the driver has sent and not inserted yet.
pub record Emitted : Type 0 where
  pub sent : List Event
  pub inserted : List Event
  pub pending : Option Event

-- The steps of the two tasks.
pub data Half : Type 0 where
  driver_sends : Event → Half
  driver_inserts : Half
  wait_task_sends : JobId → SystemTime → Half
  wait_task_inserts : JobId → SystemTime → Half

-- The driver inserts an event before it sends the next one.
abbrev pub driver_step : Half → Option Event → Emitted → Emitted
driver_step (driver_sends e) none s = record s { sent = snoc s.sent e; pending = some e }
driver_step driver_inserts (some e) s = record s { inserted = snoc s.inserted e; pending = none }
driver_step (wait_task_sends job at) p s = record s { sent = snoc s.sent (Event.cancelled job at) }
driver_step (wait_task_inserts job at) p s = record s {
  inserted = snoc s.inserted (Event.cancelled job at);
}
driver_step _ p s = s

unfoldable pub halves : List Half → Emitted → Emitted
halves [] s = s
halves (x ∷ xs) s = halves xs (driver_step x s.pending s)

abbrev pub of_driver : List Event → List Event
of_driver es = filter (λ e. not (is_cancelled e)) es

abbrev pub waiting_for : Option Event → List Event
waiting_for none = []
waiting_for (some e) = e ∷ []

-- What the driver has sent is what it has inserted, and what it has not inserted yet.
abbrev pub IsInStep : Emitted → Option Event → Type 0
IsInStep s p = of_driver s.sent ≡ of_driver s.inserted ++ of_driver (waiting_for p)

of_driver-snoc :
    (es : List Event) (e : Event) → of_driver (snoc es e) ≡ of_driver es ++ of_driver (e ∷ [])
of_driver-snoc es e = filter-append (λ e. not (is_cancelled e)) es (e ∷ [])

driver_step-IsInStep :
    (x : Half) (p : Option Event) (s : Emitted)
    → s.pending ≡ p
    → IsInStep s p
    → let u = driver_step x p s in IsInStep u u.pending
unfolding filter
driver_step-IsInStep (driver_sends e) none s q i =
    of_driver-snoc s.sent e
    ∙ ap (λ es. es ++ of_driver (e ∷ [])) (i ∙ append-nil (of_driver s.inserted))
driver_step-IsInStep (driver_sends e) (some x) s q i = subst (IsInStep s) (sym q) i
driver_step-IsInStep driver_inserts none s q i = subst (IsInStep s) (sym q) i
driver_step-IsInStep driver_inserts (some e) s q i =
    i ∙ sym (of_driver-snoc s.inserted e) ∙ sym (append-nil (of_driver (snoc s.inserted e)))
driver_step-IsInStep (wait_task_sends job at) p s q i =
    of_driver-snoc s.sent (Event.cancelled job at)
    ∙ append-nil (of_driver s.sent)
    ∙ subst (IsInStep s) (sym q) i
driver_step-IsInStep (wait_task_inserts job at) p s q i =
    subst (IsInStep s) (sym q) i
    ∙ ap (λ es. es ++ of_driver (waiting_for s.pending))
        (sym
          (of_driver-snoc s.inserted (Event.cancelled job at) ∙ append-nil (of_driver s.inserted)))

halves-IsInStep :
    (xs : List Half) (s : Emitted)
    → IsInStep s s.pending
    → IsInStep (halves xs s) (halves xs s).pending
unfolding halves
halves-IsInStep [] s i = i
halves-IsInStep (x ∷ xs) s i =
    halves-IsInStep xs (driver_step x s.pending s) (driver_step-IsInStep x s.pending s refl i)

-- In whatever order the two tasks take their steps: when the driver has inserted what it has sent, then
-- the events that were inserted, but cancellations, are those that were sent, in the same order.
halves_in_step :
    (xs : List Half)
    → let u = halves xs (record { sent = []; inserted = []; pending = none }) in
      u.pending ≡ none → of_driver u.sent ≡ of_driver u.inserted
unfolding filter
halves_in_step xs e =
    let u = halves xs (record { sent = []; inserted = []; pending = none }) in
    let i = halves-IsInStep xs (record { sent = []; inserted = []; pending = none }) refl in
    subst (IsInStep u) e i ∙ append-nil (of_driver u.inserted)
