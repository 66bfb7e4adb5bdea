-- ===== src/ProcGroup.antt =====
-- src/proc_group.rs: the process group of a child, as the calls of the system that are made for it.
-- What a call answers is a parameter.
pub mod Windows
pub mod Unix
pub mod Handles
mod Tests
use execra.Base.{Bool}
use execra.Base.Int.{ℤ}

-- The calls on the job object of Windows, with whether they succeed, and `killpg`.
pub data Call : Type 0 where
  create_job_object set_information assign_process : Bool → Call
  terminate_job_object close_handle : Call
  killpg_sigterm killpg_sigkill : ℤ → Call

-- What the system answers, call by call; `raw_handle` is none for a child that was waited for.
pub record Answers : Type 0 where
  pub created : Bool
  pub limited : Bool
  pub raw_handle : Bool
  pub assigned : Bool
