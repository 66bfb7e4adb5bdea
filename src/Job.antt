-- ===== src/Job.antt =====
-- src/job.rs and src/phase.rs: a job, its state, and its phases.
use execra.Base.{ℕ, Text, Option}
use execra.Command.{CommandSpec}
use execra.Finding.{SystemTime}
use execra.Outcome.{ExitCode, Outcome}
use execra.Progress.{Progress}

-- A UUID is a number of 128 bits.
abbrev pub JobId : Type 0
JobId = ℕ

abbrev pub PhaseId : Type 0
PhaseId = ℕ

pub record Phase : Type 0 where
  pub id : PhaseId
  pub name : Text
  pub label : Option Text
  pub entered_at : SystemTime

pub data JobState : Type 0 where
  queued running exited finalized cancelled : JobState

pub record Job : Type 0 where
  pub id : JobId
  pub command : CommandSpec
  pub created_at : SystemTime
  pub started_at : Option SystemTime
  pub state : JobState
  pub current_phase : Option PhaseId
  pub progress : Progress
  pub label : Option Text
  pub exit : Option ExitCode
  pub outcome : Option Outcome
