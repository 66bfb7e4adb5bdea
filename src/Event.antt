-- ===== src/Event.antt =====
-- src/event.rs: the wire protocol.
use execra.Base.{ℕ, Text, codes, Option}
use execra.Command.{CommandSpec}
use execra.Finding.{Finding, SystemTime}
use execra.Job.{JobId, PhaseId}
use execra.Outcome.{ExitCode, Outcome}
use execra.Progress.{Progress}

pub data Stream : Type 0 where
  stdout stderr : Stream

unfoldable pub as_str : Stream → Text
as_str stdout = codes "stdout"
as_str stderr = codes "stderr"

-- The job is the first field of each event and the time its last.
pub data Event : Type 0 where
  job_created : JobId → CommandSpec → SystemTime → Event
  job_started : JobId → ℕ → SystemTime → Event
  phase_entered : JobId → PhaseId → Text → Option Text → SystemTime → Event
  phase_updated : JobId → PhaseId → Text → SystemTime → Event
  phase_exited : JobId → PhaseId → SystemTime → Event
  progress_updated : JobId → Progress → SystemTime → Event
  label_updated : JobId → Text → SystemTime → Event
  output_appended : JobId → Stream → Text → SystemTime → Event
  warning_detected : JobId → Option Text → Text → SystemTime → Event
  known_error_detected : JobId → Text → Text → SystemTime → Event
  finding_emitted : JobId → Finding → SystemTime → Event
  prompt_detected : JobId → Text → SystemTime → Event
  interpreter_error : JobId → Text → Text → Option Text → SystemTime → Event
  exited : JobId → ExitCode → SystemTime → Event
  finalized : JobId → Outcome → SystemTime → Event
  cancelled : JobId → SystemTime → Event

unfoldable pub job_id : Event → JobId
job_id (job_created job command at) = job
job_id (job_started job pid at) = job
job_id (phase_entered job phase name label at) = job
job_id (phase_updated job phase label at) = job
job_id (phase_exited job phase at) = job
job_id (progress_updated job progress at) = job
job_id (label_updated job label at) = job
job_id (output_appended job stream line at) = job
job_id (warning_detected job code message at) = job
job_id (known_error_detected job code message at) = job
job_id (finding_emitted job finding at) = job
job_id (prompt_detected job prompt at) = job
job_id (interpreter_error job interpreter error line at) = job
job_id (exited job code at) = job
job_id (finalized job outcome at) = job
job_id (cancelled job at) = job

unfoldable pub at : Event → SystemTime
at (job_created job command t) = t
at (job_started job pid t) = t
at (phase_entered job phase name label t) = t
at (phase_updated job phase label t) = t
at (phase_exited job phase t) = t
at (progress_updated job progress t) = t
at (label_updated job label t) = t
at (output_appended job stream line t) = t
at (warning_detected job code message t) = t
at (known_error_detected job code message t) = t
at (finding_emitted job finding t) = t
at (prompt_detected job prompt t) = t
at (interpreter_error job interpreter error line t) = t
at (exited job code t) = t
at (finalized job outcome t) = t
at (cancelled job t) = t
