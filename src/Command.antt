-- ===== src/Command.antt =====
-- src/command.rs: the stdin policy, the serializable command, and the builder.
use execra.Base.{ℕ, Text, codes, Bool, true, false, Option, none, some, List, [], ◌∷◌, ◌++◌, snoc}

-- `std::time::Duration`, in nanoseconds.
abbrev pub Duration : Type 0
Duration = ℕ

pub data StdinMode : Type 0 where
  null inherit : StdinMode
  piped : List ℕ → StdinMode

-- A path is the text that names it.
pub record CommandSpec : Type 0 where
  pub program : Text
  pub args : List Text
  pub env : List (Text × Text)
  pub env_clear : Bool
  pub cwd : Option Text
  pub label : Option Text
  pub tags : List Text
  pub timeout : Option Duration
  pub hide_window : Bool

-- `I` is the type of the values that may stand in the interpreter slot.
pub record Command (I : Type 0) : Type 0 where
  pub spec : CommandSpec
  pub stdin : StdinMode
  pub interpreter : Option I

-- The two builds of the crate: `cfg(windows)` and the others.
pub data Platform : Type 0 where
  windows other : Platform

unfoldable pub default_hide_window : Platform → Bool
default_hide_window windows = true
default_hide_window other = false

module _ {I : Type 0} where
  unfoldable pub new : Platform → Text → Command I
  unfolding default_hide_window
  new platform program = record {
    spec = record {
      program = program;
      args = [];
      env = [];
      env_clear = false;
      cwd = none;
      label = none;
      tags = [];
      timeout = none;
      hide_window = default_hide_window platform;
    };
    stdin = null;
    interpreter = none;
  }

  abbrev edit_spec : (CommandSpec → CommandSpec) → Command I → Command I
  edit_spec f c = record c { spec = f c.spec }

  unfoldable pub arg : Text → Command I → Command I
  arg a = edit_spec λ s. record s { args = snoc s.args a }

  unfoldable pub args : List Text → Command I → Command I
  args as' = edit_spec λ s. record s { args = s.args ++ as' }

  unfoldable pub env : Text → Text → Command I → Command I
  env key val = edit_spec λ s. record s { env = snoc s.env (key, val) }

  unfoldable pub envs : List (Text × Text) → Command I → Command I
  envs vars = edit_spec λ s. record s { env = s.env ++ vars }

  unfoldable pub env_clear : Command I → Command I
  env_clear = edit_spec λ s. record s { env_clear = true }

  unfoldable pub cwd : Text → Command I → Command I
  cwd dir = edit_spec λ s. record s { cwd = some dir }

  unfoldable pub stdin : StdinMode → Command I → Command I
  stdin mode c = record c { stdin = mode }

  unfoldable pub label : Text → Command I → Command I
  label text = edit_spec λ s. record s { label = some text }

  unfoldable pub tags : List Text → Command I → Command I
  tags more = edit_spec λ s. record s { tags = s.tags ++ more }

  unfoldable pub interpreter : I → Command I → Command I
  interpreter i c = record c { interpreter = some i }

  unfoldable pub timeout : Duration → Command I → Command I
  timeout d = edit_spec λ s. record s { timeout = some d }

  unfoldable pub hide_window : Bool → Command I → Command I
  hide_window flag = edit_spec λ s. record s { hide_window = flag }

  -- `Command::sh`, `cmd`, `powershell`, `pwsh` and `shell`.
  unfoldable pub sh : Platform → Text → Command I
  unfolding new args
  sh platform script = args (codes "-c" ∷ script ∷ []) (new platform (codes "sh"))

  unfoldable pub cmd : Platform → Text → Command I
  unfolding new args
  cmd platform script = args (codes "/C" ∷ script ∷ []) (new platform (codes "cmd"))

  unfoldable pub powershell : Platform → Text → Command I
  unfolding new args
  powershell platform script =
      args (codes "-NoProfile" ∷ codes "-Command" ∷ script ∷ []) (new platform (codes "powershell"))

  unfoldable pub pwsh : Platform → Text → Command I
  unfolding new args
  pwsh platform script =
      args (codes "-NoProfile" ∷ codes "-Command" ∷ script ∷ []) (new platform (codes "pwsh"))

  unfoldable pub system_shell : Platform → Text → Command I
  unfolding cmd sh
  system_shell windows script = cmd windows script
  system_shell other script = sh other script

  unfoldable pub into_parts : Command I → CommandSpec × StdinMode × Option I
  into_parts c = (c.spec, c.stdin, c.interpreter)
