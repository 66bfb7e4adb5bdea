-- ===== src/Scoop.antt =====
-- examples/: the reference interpreters for `scoop`.
pub mod Install
pub mod Doctor
pub mod Notes
mod Tests
use execra.Base.{Text, Option, none, some, List}
use execra.Interpret.Render.{Captures}
use execra.Interpreter.{InterpreterEvent}

-- A compiled `Regex` is the function that it computes.
abbrev pub Regex : Type 0
Regex = Text → Option Captures

-- `if let Some(c) = … { return …; }` before what comes next.
abbrev pub matched :
    Option Captures
    → (Captures → List InterpreterEvent)
    → List InterpreterEvent
    → List InterpreterEvent
matched none emit next = next
matched (some c) emit next = emit c
