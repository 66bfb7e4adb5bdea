-- ===== src/Driver/Process.antt =====
-- How `drive_job` of src/runtime/driver.rs sets the process up, with `configure_hidden_window` there
-- and `ProcessGroup::configure` of src/proc_group.rs, and the task that writes its stdin. A
-- `tokio::process::Command` is what it has been told.
use execra.Base.{ℕ, Text, Bool, true, false, Option, none, some, List, [], ◌∷◌, snoc, if◌then◌else◌}
use execra.Command.{CommandSpec, Platform, windows, other, StdinMode}

pub data Stdio : Type 0 where
  null inherit piped : Stdio

-- `vars` are the calls of `env` since the last `env_clear`, oldest first.
pub record TokioCommand : Type 0 where
  pub program : Text
  pub args : List Text
  pub env_cleared : Bool
  pub vars : List (Text × Text)
  pub current_dir : Option Text
  pub stdout : Stdio
  pub stderr : Stdio
  pub stdin : Stdio
  pub kill_on_drop : Bool
  pub creation_flags : ℕ
  pub process_group : Option ℕ

abbrev pub new_command : Text → TokioCommand
new_command program = record {
  program = program;
  args = [];
  env_cleared = false;
  vars = [];
  current_dir = none;
  stdout = inherit;
  stderr = inherit;
  stdin = inherit;
  kill_on_drop = false;
  creation_flags = 0;
  process_group = none;
}

abbrev pub env_clear : TokioCommand → TokioCommand
env_clear c = record c { env_cleared = true; vars = [] }

-- `for (k, v) in &spec.env`
unfoldable pub set_env : List (Text × Text) → TokioCommand → TokioCommand
set_env [] c = c
set_env ((k, v) ∷ vars) c = set_env vars (record c { vars = snoc c.vars (k, v) })

abbrev pub in_dir : Option Text → TokioCommand → TokioCommand
in_dir none c = c
in_dir (some cwd) c = record c { current_dir = some cwd }

unfoldable pub stdio_of : StdinMode → Stdio
stdio_of StdinMode.null = null
stdio_of StdinMode.inherit = inherit
stdio_of (StdinMode.piped bytes) = piped

-- `CREATE_NO_WINDOW`, on Windows.
unfoldable pub configure_hidden_window : Platform → Bool → TokioCommand → TokioCommand
configure_hidden_window windows hide c =
    if hide then record c { creation_flags = 0x08000000 } else c
configure_hidden_window other hide c = c

-- `ProcessGroup::configure`
unfoldable pub configure_group : Platform → TokioCommand → TokioCommand
configure_group windows c = c
configure_group other c = record c { process_group = some 0 }

unfoldable pub configure : Platform → CommandSpec → StdinMode → TokioCommand
unfolding set_env stdio_of configure_hidden_window configure_group
configure platform spec stdin =
    let c = record (new_command spec.program) { args = spec.args } in
    let c = if spec.env_clear then env_clear c else c in
    let c = in_dir spec.cwd (set_env spec.env c) in
    let c = record c {
      stdout = piped;
      stderr = piped;
      stdin = stdio_of stdin;
      kill_on_drop = true;
    } in
    configure_group platform (configure_hidden_window platform spec.hide_window c)

-- What the task that writes the stdin of the process calls, whatever the calls answer.
pub data StdinCall : Type 0 where
  write_all : List ℕ → StdinCall
  shutdown : StdinCall

-- `has_stdin` tells whether the child has a pipe to be taken.
unfoldable pub feed : StdinMode → Bool → List StdinCall
feed (StdinMode.piped bytes) true = write_all bytes ∷ shutdown ∷ []
feed mode has_stdin = []
