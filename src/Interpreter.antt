-- ===== src/Interpreter.antt =====
-- src/interpreter.rs: the contract between the runtime and an interpreter.
use execra.Base.{Text, Option, List}
use execra.Command.{CommandSpec, Duration}
use execra.Event.{Stream}
use execra.Finding.{Finding, SystemTime}
use execra.Job.{JobId, Phase}
use execra.Outcome.{ExitCode}
use execra.Progress.{Progress}

pub record Line : Type 0 where
  pub stream : Stream
  pub text : Text
  pub at : SystemTime

pub record Context : Type 0 where
  pub job : JobId
  pub command : CommandSpec
  pub current_phase : Option Phase
  pub phase_stack : List Phase
  pub elapsed : Duration

pub data InterpreterEvent : Type 0 where
  enter_phase : Text → Option Text → InterpreterEvent
  update_phase : Text → InterpreterEvent
  exit_phase : InterpreterEvent
  progress : Progress → InterpreterEvent
  label : Text → InterpreterEvent
  warning : Option Text → Text → InterpreterEvent
  known_error : Text → Text → InterpreterEvent
  finding : Finding → InterpreterEvent
  prompt : Text → InterpreterEvent
  summary : Text → InterpreterEvent

-- What a panic carries: `&str`, `String`, or some other value.
pub data PanicPayload : Type 0 where
  str string : Text → PanicPayload
  opaque : PanicPayload

-- A call under `catch_unwind`, with the state of the interpreter after it.
pub data Returned (I : Type 0) : Type 0 where
  ok : I → List InterpreterEvent → Returned I
  panicked : I → PanicPayload → Returned I

-- The trait, for interpreters whose state is an `I`.
pub record Interpreter (I : Type 0) : Type 0 where
  pub on_line : I → Context → Line → Returned I
  pub on_exit : I → Context → ExitCode → Returned I
