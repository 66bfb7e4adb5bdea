-- ===== src/Cli.antt =====
-- crates/execra-cli/src/main.rs: the command-line tool. What is printed is a list of lines; `clap`
-- gives the arguments.
pub mod Run
pub mod Commands
pub mod Shown
pub mod Packed
pub mod Main
mod Tests
use execra.Base.{Text, Option, none, some}
use execra.Runtime.Jobs.{Answer, bad, good}

pub data Printed : Type 0 where
  stdout stderr : Text → Printed

-- `anyhow::Result`, of which only the failure is kept.
abbrev pub Attempt : Type 0 → Type 0
Attempt A = Option A

infixl 5 ◌>>=◌
abbrev pub ◌>>=◌ : {A B : Type 0} → Attempt A → (A → Attempt B) → Attempt B
none >>= f = none
some a >>= f = f a

-- `?` on an answer of the runtime.
abbrev pub answered : {A : Type 0} → Answer A → Attempt A
answered (bad e) = none
answered (good a) = some a
