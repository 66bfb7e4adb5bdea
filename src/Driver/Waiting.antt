-- ===== src/Driver/Waiting.antt =====
-- What the wait task of src/runtime/wait.rs does to the process group, over every order of wakes.
use execra.Base.{Bool, true, false, List, [], ◌∷◌, ◌≡◌, refl, sym, ap, subst, ◌∙◌, ◌⊎◌}
use execra.Driver.Wait.{
  Stage, selecting, terminating, killed, reported, Wake, WaitTask, WaitOutcome, Signal, step,
  step_at, group_terminate, group_kill, start_kill,
}

-- A wake, and whether the token was cancelled by then.
unfoldable pub steps : List (Bool × Wake) → WaitTask → WaitTask
steps [] t = t
steps ((c, w) ∷ ws) t = steps ws (step c w t)

-- What is sent on cancellation: a group is asked to terminate, and a child without one is killed.
abbrev pub asked : Bool → List Signal
asked true = group_terminate ∷ []
asked false = start_kill ∷ []

-- What has been sent when the grace period is over, too: the group is killed, or the child again.
abbrev pub asked_and_killed : Bool → List Signal
asked_and_killed true = group_terminate ∷ group_kill ∷ []
asked_and_killed false = start_kill ∷ start_kill ∷ []

-- What is sent on a timeout.
abbrev pub killed_at_once : Bool → List Signal
killed_at_once true = group_kill ∷ []
killed_at_once false = start_kill ∷ []

-- The signals that may have been sent for a report: none if the child exited by itself, a kill after
-- a timeout, and the others on cancellation.
abbrev pub Ended : Bool → Bool → Bool → List Signal → Type 0
Ended timeout group true sent = (sent ≡ killed_at_once group) × (timeout ≡ true)
Ended timeout group false sent =
    (sent ≡ []) ⊎ (sent ≡ asked group) ⊎ (sent ≡ asked_and_killed group)

abbrev pub Escalated : Bool → Bool → Stage → List Signal → Type 0
Escalated timeout group selecting sent = sent ≡ []
Escalated timeout group terminating sent = sent ≡ asked group
Escalated timeout group (killed true) sent = (sent ≡ killed_at_once group) × (timeout ≡ true)
Escalated timeout group (killed false) sent = sent ≡ asked_and_killed group
Escalated timeout group (reported o) sent = Ended timeout group o.timed_out sent

record IsEscalated (timeout group : Bool) (t : WaitTask) : Type 0 where
  timeout_same : t.has_timeout ≡ timeout
  group_same : t.has_group ≡ group
  escalated : Escalated timeout group t.stage t.signals

-- A report is final: no later wake changes it or sends a signal.
pub steps_reported :
    (ws : List (Bool × Wake)) (t : WaitTask) {o : WaitOutcome}
    → t.stage ≡ reported o
    → steps ws t ≡ t
unfolding steps step
steps_reported [] t e = refl
steps_reported ((c, w) ∷ ws) t e =
    ap (steps ws) (subst (λ st. step_at st c w t ≡ t) (sym e) refl) ∙ steps_reported ws t e
