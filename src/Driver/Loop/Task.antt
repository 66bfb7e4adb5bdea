-- ===== src/Driver/Loop/Task.antt =====
-- The local variables of `drive_job`.
use execra.Base.{ℕ, Bool, ◌&&◌, Option, none, List, []}
use execra.Driver.Lines.{Pipe}
use execra.Driver.RawOutput.{Raw}
use execra.Driver.Wait.{WaitTask, Waited}
use execra.Driver.World.{Drive}

-- The two partial lines are the buffers of the `next_line` futures of the current `select!`.
pub record Task (I : Type 0) : Type 0 where
  pub drive : Drive
  pub interpreter : Option I
  pub raw : Raw
  pub stdout : Pipe
  pub stderr : Pipe
  pub stdout_partial : List ℕ
  pub stderr_partial : List ℕ
  pub stdout_done : Bool
  pub stderr_done : Bool
  pub wait : WaitTask
  pub wait_dropped : Bool
  pub cancelled : Bool
  pub child_exited : Bool
  pub timed_out : Bool
  pub exit_status : Option Waited

abbrev pub open_pipe : Pipe
open_pipe = record { buffer = []; end = none }

-- The condition under which the `while` loop ends.
abbrev pub is_over : {I : Type 0} → Task I → Bool
is_over t = t.stdout_done && t.stderr_done && t.child_exited
