-- ===== src/Driver/Samples.antt =====
-- Small inputs of the driver, for its tests.
use execra.Base.{
  ℕ, Text, codes, Bool, true, false, Option, none, some, List, [], ◌∷◌, ◌++◌, ◌≡◌, refl, ap, arith,
  not, ◌&&◌,
}
use execra.Base.Int.{pos}
use execra.Command.{CommandSpec, Platform}
use execra.Host.{Host, Serde}
use execra.Interpreter.{Interpreter, Context, Line, InterpreterEvent, ok, panicked, str}
use execra.Job.{Job, JobState}
use execra.Progress
use execra.Driver.Lines.{eof}
use execra.Driver.Loop.Run.{Tick, stdout_bytes, stdout_end, stderr_end, wake, poll}
use execra.Driver.Loop.Task.{Task}
use execra.Driver.Protocol.{after}
use execra.Driver.RawOutput.{Raw, memory_only}
use execra.Driver.Wait.{child_waited, status}
use execra.Driver.World.{World}

abbrev pub no_json : Serde
no_json = record {
  event_to_json = λ e. none;
  event_from_json = λ t. none;
  command_to_json = λ c. none;
  command_from_json = λ t. none;
  tags_to_json = λ t. none;
  state_from_json = λ t. none;
  outcome_to_json = λ o. none;
  outcome_from_json = λ t. none;
  finding_to_json = λ f. none;
}

-- Call number k of the clock is k nanoseconds after the epoch; ASCII output.
abbrev pub host : Host
host = record {
  now = pos;
  elapsed = λ k. k;
  new_id = λ k. k;
  runs = λ k. true;
  from_utf8_lossy = λ bytes. bytes;
  serde = no_json;
}

abbrev pub spec : CommandSpec
spec = record {
  program = codes "tool";
  args = [];
  env = [];
  env_clear = false;
  cwd = none;
  label = some (codes "run");
  tags = [];
  timeout = none;
  hide_window = false;
}

abbrev pub queued : Job
queued = record {
  id = 7;
  command = spec;
  created_at = pos 0;
  started_at = none;
  state = JobState.queued;
  current_phase = none;
  progress = Progress.unknown;
  label = some (codes "run");
  exit = none;
  outcome = none;
}

abbrev pub world : World
world = record { clock = 0; ids = 0; sent = []; store = none; snapshot = queued }

abbrev pub raw : Raw
raw = record { policy = memory_only; file = none; memory = [] }

-- Enters a phase for each line, and panics at the third.
abbrev pub on_line : ℕ → Context → Line → execra.Interpreter.Returned ℕ
on_line n c l =
    execra.Base.if◌then◌else◌ (execra.Base.ltb n 2)
      (ok (execra.Base.suc n) (InterpreterEvent.enter_phase l.text none ∷ []))
      (panicked n (str (codes "boom")))

abbrev pub phases : Interpreter ℕ
phases = record {
  on_line = on_line;
  on_exit = λ n c e. ok n (InterpreterEvent.summary (codes "fine") ∷ []);
}

abbrev pub exits : Tick
exits = wake (child_waited (status (record { code = some (pos 0); signal = none })))

abbrev pub history : List Tick
history =
    stdout_bytes (codes "one" ++ 10 ∷ codes "two" ++ 13 ∷ 10 ∷ [])
    ∷ poll
    ∷ poll
    ∷ exits
    ∷ stdout_end eof
    ∷ poll
    ∷ stderr_end eof
    ∷ poll
    ∷ poll
    ∷ []

abbrev pub ended : Task ℕ
ended = after host Platform.other phases 7 spec (some 99) true raw (some 0) false world history

abbrev pub started : Task ℕ
started = after host Platform.other phases 7 spec (some 99) true raw (some 0) false world []

abbrev pub lines : List ℕ
lines = codes "one" ++ 10 ∷ codes "two"

-- Returns nothing, ever.
abbrev pub silent : Interpreter ℕ
silent = record { on_line = λ n c l. ok n []; on_exit = λ n c e. ok n [] }
