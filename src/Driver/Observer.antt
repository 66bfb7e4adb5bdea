-- ===== src/Driver/Observer.antt =====
-- What a subscriber learns of a job from the events alone, independent of the driver's own state.
use execra.Base.{
  Text, Bool, true, false, Option, none, some, List, [], ◌∷◌, snoc, ◌≡◌, refl, ◌==◌, if◌then◌else◌,
}
use execra.Event.{Event}
use execra.Finding.{Finding}
use execra.Job.{PhaseId}
use execra.Outcome.{Outcome}
use execra.Progress.{Progress}

-- The protocol: started, then exited, then finalized. A job that cannot be spawned is finalized at
-- once. `started` tells whether the cancellation has been sent. `broken` is a log that does not follow it.
pub data Life : Type 0 where
  created exited broken : Life
  started : Bool → Life
  finalized : Outcome → Life

-- The open phases, innermost first, are none if a phase was closed that is not the innermost one.
pub record View : Type 0 where
  pub life : Life
  pub phases : Option (List PhaseId)
  pub findings : List Finding
  pub known_error : Option (Text × Text)
  pub progress : Progress
  pub label : Option Text

-- Between its start and its end a job may send anything else.
abbrev pub stay : Life → Life
stay (started c) = started c
stay exited = exited
stay created = broken
stay broken = broken
stay (finalized o) = broken

abbrev pub on_started : Life → Life
on_started created = started false
on_started _ = broken

abbrev pub on_exited : Life → Life
on_exited (started c) = exited
on_exited _ = broken

-- A cancellation is sent once, and not after the exit.
abbrev pub on_cancelled : Life → Life
on_cancelled (started false) = started true
on_cancelled _ = broken

abbrev pub on_finalized : Outcome → Life → Life
on_finalized o created = finalized o
on_finalized o exited = finalized o
on_finalized o (started c) = broken
on_finalized o broken = broken
on_finalized o (finalized o') = broken

abbrev pub open_phase : PhaseId → Option (List PhaseId) → Option (List PhaseId)
open_phase id none = none
open_phase id (some ids) = some (id ∷ ids)

abbrev pub close_phase : PhaseId → Option (List PhaseId) → Option (List PhaseId)
close_phase id none = none
close_phase id (some []) = none
close_phase id (some (i ∷ ids)) = if i == id then some ids else none

-- An update is of the innermost phase.
abbrev pub update_open : PhaseId → Option (List PhaseId) → Option (List PhaseId)
update_open id none = none
update_open id (some []) = none
update_open id (some (i ∷ ids)) = if i == id then some (i ∷ ids) else none

unfoldable pub observe_event : View → Event → View
observe_event v (Event.job_created job command at) = record v { life = broken }
observe_event v (Event.job_started job pid at) = record v { life = on_started v.life }
observe_event v (Event.phase_entered job id name label at) = record v {
  life = stay v.life;
  phases = open_phase id v.phases;
}
observe_event v (Event.phase_updated job id label at) = record v {
  life = stay v.life;
  phases = update_open id v.phases;
}
observe_event v (Event.phase_exited job id at) = record v {
  life = stay v.life;
  phases = close_phase id v.phases;
}
observe_event v (Event.progress_updated job progress at) = record v {
  life = stay v.life;
  progress = progress;
}
observe_event v (Event.label_updated job label at) = record v {
  life = stay v.life;
  label = some label;
}
observe_event v (Event.output_appended job stream line at) = record v { life = stay v.life }
observe_event v (Event.warning_detected job code message at) = record v { life = stay v.life }
observe_event v (Event.known_error_detected job code message at) = record v {
  life = stay v.life;
  known_error = some (code, message);
}
observe_event v (Event.finding_emitted job finding at) = record v {
  life = stay v.life;
  findings = snoc v.findings finding;
}
observe_event v (Event.prompt_detected job prompt at) = record v { life = stay v.life }
observe_event v (Event.interpreter_error job i error line at) = record v { life = stay v.life }
observe_event v (Event.exited job code at) = record v { life = on_exited v.life }
observe_event v (Event.finalized job outcome at) = record v { life = on_finalized outcome v.life }
observe_event v (Event.cancelled job at) = record v { life = on_cancelled v.life }

unfoldable pub observe : View → List Event → View
observe v [] = v
observe v (e ∷ es) = observe (observe_event v e) es

pub observe-snoc :
    (v : View) (es : List Event) (e : Event)
    → observe v (snoc es e) ≡ observe_event (observe v es) e
unfolding observe
observe-snoc v [] e = refl
observe-snoc v (x ∷ es) e = observe-snoc (observe_event v x) es e
