-- ===== src/Store/Rows.antt =====
-- The rows of the three tables of src/store.rs, and the texts that stand in their columns.
use execra.Base.{Text, codes, Bool, false, ◌≡◌, refl, ◌∙◌, Option, some}
use execra.Base.Int.{ℤ}
use execra.Event.{Event}
use execra.Finding.{Severity}
use execra.Host.{ReadsPlain, Serde, is_escaped, state_from_string}
use execra.Job.{JobId, JobState}

pub record JobRow : Type 0 where
  pub id : JobId
  pub command_json : Text
  pub label : Option Text
  pub tags_json : Text
  pub created_at_ms : ℤ
  pub started_at_ms : Option ℤ
  pub state : Text
  pub exit_code : Option ℤ
  pub exit_signal : Option ℤ
  pub outcome_json : Option Text
  pub schema_version : ℤ

pub record EventRow : Type 0 where
  pub job_id : JobId
  pub at_ms : ℤ
  pub kind : Text
  pub payload : Text
  pub schema_version : ℤ

pub record FindingRow : Type 0 where
  pub job_id : JobId
  pub at_ms : ℤ
  pub code : Text
  pub severity : Text
  pub finding_json : Text

-- The serde names of the states, without their quotes.
unfoldable pub state_to_string : JobState → Text
state_to_string JobState.queued = codes "queued"
state_to_string JobState.running = codes "running"
state_to_string JobState.exited = codes "exited"
state_to_string JobState.finalized = codes "finalized"
state_to_string JobState.cancelled = codes "cancelled"

unfoldable pub severity_to_string : Severity → Text
severity_to_string Severity.info = codes "info"
severity_to_string Severity.recommendation = codes "recommendation"
severity_to_string Severity.warning = codes "warning"
severity_to_string Severity.error = codes "error"

unfoldable pub event_kind : Event → Text
event_kind (Event.job_created job command at) = codes "job_created"
event_kind (Event.job_started job pid at) = codes "job_started"
event_kind (Event.phase_entered job phase name label at) = codes "phase_entered"
event_kind (Event.phase_updated job phase label at) = codes "phase_updated"
event_kind (Event.phase_exited job phase at) = codes "phase_exited"
event_kind (Event.progress_updated job progress at) = codes "progress_updated"
event_kind (Event.label_updated job label at) = codes "label_updated"
event_kind (Event.output_appended job stream line at) = codes "output_appended"
event_kind (Event.warning_detected job code message at) = codes "warning_detected"
event_kind (Event.known_error_detected job code message at) = codes "known_error_detected"
event_kind (Event.finding_emitted job finding at) = codes "finding_emitted"
event_kind (Event.prompt_detected job prompt at) = codes "prompt_detected"
event_kind (Event.interpreter_error job interpreter error line at) = codes "interpreter_error"
event_kind (Event.exited job code at) = codes "exited"
event_kind (Event.finalized job outcome at) = codes "finalized"
event_kind (Event.cancelled job at) = codes "cancelled"

-- Each state is read back from its column.
pub state_from_string-state_to_string :
    (s : JobState) → state_from_string (state_to_string s) ≡ some s
unfolding state_from_string state_to_string
state_from_string-state_to_string JobState.queued = refl
state_from_string-state_to_string JobState.running = refl
state_from_string-state_to_string JobState.exited = refl
state_from_string-state_to_string JobState.finalized = refl
state_from_string-state_to_string JobState.cancelled = refl

state_to_string-plain : (s : JobState) → is_escaped (state_to_string s) ≡ false
unfolding state_to_string
state_to_string-plain JobState.queued = refl
state_to_string-plain JobState.running = refl
state_to_string-plain JobState.exited = refl
state_to_string-plain JobState.finalized = refl
state_to_string-plain JobState.cancelled = refl

pub state_from_json-state_to_string :
    (s : Serde) (st : JobState) → ReadsPlain s → s.state_from_json (state_to_string st) ≡ some st
state_from_json-state_to_string s st p =
    p (state_to_string st) (state_to_string-plain st) ∙ state_from_string-state_to_string st

-- A row whose state is written with an escape.
abbrev pub escaped : JobRow → Bool
escaped r = is_escaped r.state
