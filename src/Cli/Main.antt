-- ===== src/Cli/Main.antt =====
-- `main` of crates/execra-cli/src/main.rs, with `run` as a whole.
use execra.Base.{
  ℕ, Text, Bool, true, false, ◌||◌, Option, none, some, List, [], ◌∷◌, any, ◌≡◌, ◌≢◌, arith,
}
use execra.Cli.{Attempt, Printed, stdout}
use execra.Cli.Commands.{Display, Logs, LsArgs, Shown, TailArgs, logs, ls, tail}
use execra.Cli.Run.{
  Arm, RunArgs, Status, ended, event, failed, finished, is_finalized, on_outcome, outcome,
  print_event, run_loop, started, waiting, went_on,
}
use execra.Command.{Platform}
use execra.Event.{Event}
use execra.Finding.{SystemTime}
use execra.Host.{Host}
use execra.Job.{JobId}
use execra.Outcome.{Outcome}
use execra.Runtime.Build.{Inner}
use execra.Runtime.Handle.{EventStream, JobHandle}
use execra.Store.Open.{Disk}
use execra.Store.Query.{Sqlite}

-- The argument of `logs` is the id alone.
pub data CliCommand : Type 0 where
  run_of : RunArgs → CliCommand
  ls_of : LsArgs → CliCommand
  logs_of : Text → CliCommand
  tail_of : TailArgs → CliCommand

pub record Cli : Type 0 where
  pub db : Text
  pub log_dir : Text
  pub command : CliCommand

-- What a run is given from outside: JSON and the display of an outcome, the time at its end, and for
-- a job that was started the arms that `select!` takes.
pub record Running : Type 0 where
  pub to_json : Event → Option Text
  pub debug : Outcome → Text
  pub now : SystemTime
  pub arms : Inner × EventStream × JobHandle → List Arm

abbrev pub looped :
    Running → Bool → Attempt (Inner × EventStream × JobHandle) → Status × List Printed
looped w json none = (failed, [])
looped w json (some (rt, events, handle)) =
    run_loop w.to_json w.debug json handle.id w.now false (w.arms (rt, events, handle))

-- How a command that does not wait ends.
abbrev pub at_once : Shown → Status × List Printed
at_once (true, lines) = (finished, lines)
at_once (false, lines) = (failed, lines)

-- `print!`: the text ends as the log does.
abbrev pub text_of : Attempt Text → Status × List Printed
text_of none = (failed, [])
text_of (some text) = (finished, stdout text ∷ [])

-- `display` knows the paths of the logs in a directory, `files` what is there.
module _ (platform : Platform) (cores : Option ℕ) (d : Disk) (q : Sqlite) (h : Host) (w : Running)
    (display : Text → Display) (files : Logs) where
  unfoldable pub run : Text → Text → RunArgs → Status × List Printed
  unfolding started run_loop
  run db dir a = looped w a.json (started platform cores d q h db dir a)

  unfoldable pub main : Cli → Status × List Printed
  unfolding run ls logs tail
  main cli = elim cli.command [
    | run_of a ↦ run cli.db cli.log_dir a
    | ls_of a ↦ at_once (ls (display cli.log_dir) cores d q h cli.db a)
    | logs_of job ↦ text_of (logs (display cli.log_dir) files job)
    | tail_of a ↦ at_once (tail (display cli.log_dir) d h cli.db a)
  ]

abbrev is_outcome : Arm → Bool
is_outcome (outcome o) = true
is_outcome (event e) = false

module _ (w : Running) where
  went_on-returns :
      (printed : Attempt (List Printed)) (rest : Status × List Printed)
      → rest.0 ≢ waiting
      → (went_on w.to_json w.debug printed rest).0 ≢ waiting
  went_on-returns none rest r = λ e. ground arith
  went_on-returns (some lines) rest r = r

  ended-returns : (printed : Attempt (List Printed)) → (ended w.to_json w.debug printed).0 ≢ waiting
  ended-returns none = λ e. ground arith
  ended-returns (some lines) = λ e. ground arith

  run_loop-returns :
      (json seen : Bool) (job : JobId) (at : SystemTime) (arms : List Arm)
      → any is_outcome arms ≡ true
      → (run_loop w.to_json w.debug json job at seen arms).0 ≢ waiting
  unfolding run_loop
  run_loop-returns json seen job at [] o = ground arith
  run_loop-returns json seen job at (event none ∷ arms) o = run_loop-returns json seen job at arms o
  run_loop-returns json seen job at (event (some x) ∷ arms) o =
      went_on-returns (print_event w.to_json w.debug x json) _
        (run_loop-returns json (seen || is_finalized x) job at arms o)
  run_loop-returns json seen job at (outcome x ∷ arms) o =
      ended-returns (on_outcome w.to_json w.debug json job at seen x)

  looped-returns :
      (json : Bool) (s : Attempt (Inner × EventStream × JobHandle))
      → ((t : Inner × EventStream × JobHandle) → any is_outcome (w.arms t) ≡ true)
      → (looped w json s).0 ≢ waiting
  looped-returns json none o = λ e. ground arith
  looped-returns json (some (rt, events, handle)) o =
      run_loop-returns json false handle.id w.now (w.arms (rt, events, handle))
        (o (rt, events, handle))

at_once-returns : (s : Shown) → (at_once s).0 ≢ waiting
at_once-returns (true, lines) = λ e. ground arith
at_once-returns (false, lines) = λ e. ground arith

text_of-returns : (t : Attempt Text) → (text_of t).0 ≢ waiting
text_of-returns none = λ e. ground arith
text_of-returns (some text) = λ e. ground arith

-- Whatever its arguments are and whatever stands in the files, `main` returns, with or without an
-- error, if every job that it starts comes to an outcome.
main-returns :
    (platform : Platform) (cores : Option ℕ) (d : Disk) (q : Sqlite) (h : Host) (w : Running)
    (display : Text → Display) (files : Logs) (cli : Cli)
    → ((t : Inner × EventStream × JobHandle) → any is_outcome (w.arms t) ≡ true)
    → (main platform cores d q h w display files cli).0 ≢ waiting
unfolding main run
main-returns platform cores d q h w display files cli o = by_command cli.command
  where
    by_command :
        (c : CliCommand)
        → (main platform cores d q h w display files (record cli { command = c })).0 ≢ waiting
    by_command (run_of a) =
        looped-returns w a.json (started platform cores d q h cli.db cli.log_dir a) o
    by_command (ls_of a) = at_once-returns _
    by_command (logs_of job) = text_of-returns _
    by_command (tail_of a) = at_once-returns _
