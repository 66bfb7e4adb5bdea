-- ===== src/Cli/Run.antt =====
-- `run` of crates/execra-cli/src/main.rs.
use execra.Base.{
  ℕ, ◌*◌, Text, codes, Bool, true, false, ◌||◌, Option, none, some, List, [], ◌∷◌, ◌++◌,
  if◌then◌else◌,
}
use execra.Cli.{Attempt, ◌>>=◌, Printed, answered, stdout, stderr}
use execra.Command.{Command, Platform, args, new, timeout}
use execra.Driver.RawOutput.{RawOutputPolicy}
use execra.Event.{Event, Stream}
use execra.Finding.{SystemTime}
use execra.Host.{Host}
use execra.Job.{JobId}
use execra.Outcome.{Outcome}
use execra.Runtime.Build.{Inner, build, builder, history, log_dir, raw_output}
use execra.Runtime.Handle.{EventStream, JobHandle, spawn_handle, subscribe}
use execra.Store.Open.{Disk}
use execra.Store.Query.{Sqlite}

pub record RunArgs : Type 0 where
  pub json : Bool
  pub timeout_ms : Option ℕ
  pub no_raw_log : Bool
  pub command : List Text

abbrev pub policy : RunArgs → RawOutputPolicy
policy a = if a.no_raw_log then RawOutputPolicy.disabled else RawOutputPolicy.persist

abbrev pub with_timeout : {I : Type 0} → Option ℕ → Command I → Command I
with_timeout none c = c
with_timeout (some ms) c = timeout (ms * 1000000) c

-- `split_first`, and the command that is spawned.
unfoldable pub command_of : {I : Type 0} → Platform → RunArgs → Attempt (Command I)
unfolding new args timeout
command_of platform a = elim a.command [
  | [] ↦ none
  | program ∷ rest ↦ some (with_timeout a.timeout_ms (args rest (new platform program)))
]

unfoldable pub open_rt :
    Option ℕ → Disk → Sqlite → Host → Text → Text → RawOutputPolicy → Attempt Inner
unfolding build history log_dir raw_output
open_rt cores d q h db logs raw =
    answered (build cores d q h (raw_output raw (log_dir logs (history db builder))))

-- `run` up to its loop: the runtime, the handle and the subscription.
unfoldable pub started :
    Platform
    → Option ℕ
    → Disk
    → Sqlite
    → Host
    → Text
    → Text
    → RunArgs
    → Attempt (Inner × EventStream × JobHandle)
unfolding command_of open_rt spawn_handle subscribe
started platform cores d q h db logs a = do
  cmd ← command_of {I = Unit {0}} platform a
  rt ← open_rt cores d q h db logs (policy a)
  let spawned = spawn_handle h cmd.spec rt.runtime
  handle ← answered spawned.0
  let subscribed = subscribe handle spawned.1
  some (record rt { runtime = spawned.1 }, subscribed.0, subscribed.1)

abbrev pub is_finalized : Event → Bool
is_finalized (Event.finalized job outcome at) = true
is_finalized _ = false

abbrev pub plain_line : Event → List Printed
plain_line (Event.output_appended job Stream.stdout line at) = stdout line ∷ []
plain_line (Event.output_appended job Stream.stderr line at) = stderr line ∷ []
plain_line _ = []

abbrev pub json_line : Option Text → Attempt (List Printed)
json_line none = none
json_line (some t) = some (stdout t ∷ [])

-- What the loop waits for: an event, or that the stream is closed, and the outcome of the handle.
pub data Arm : Type 0 where
  event : Option Event → Arm
  outcome : Outcome → Arm

-- How far `run` has come: it has returned, with or without an error, or waits.
pub data Status : Type 0 where
  finished failed waiting : Status

-- `to_json` is `serde_json::to_string` of an event, `debug` how an outcome is displayed.
module _ (to_json : Event → Option Text) (debug : Outcome → Text) where
  unfoldable pub print_event : Event → Bool → Attempt (List Printed)
  print_event e json = if json then json_line (to_json e) else some (plain_line e)

  abbrev pub print_outcome : Outcome → List Printed
  print_outcome o = stderr (codes "outcome: " ++ debug o) ∷ []

  -- The arm of the outcome, at whose time the finalization is made up if none was seen.
  unfoldable pub on_outcome : Bool → JobId → SystemTime → Bool → Outcome → Attempt (List Printed)
  unfolding print_event
  on_outcome json job at seen o =
      if json
      then if seen then some [] else print_event (Event.finalized job o at) true
      else some (print_outcome o)

  abbrev pub ended : Attempt (List Printed) → Status × List Printed
  ended none = (failed, [])
  ended (some lines) = (finished, lines)

  abbrev pub went_on : Attempt (List Printed) → Status × List Printed → Status × List Printed
  went_on none rest = (failed, [])
  went_on (some lines) rest = (rest.0, lines ++ rest.1)

  -- The loop, along the arms that `select!` takes.
  unfoldable pub run_loop : Bool → JobId → SystemTime → Bool → List Arm → Status × List Printed
  unfolding print_event on_outcome
  run_loop json job at seen [] = (waiting, [])
  run_loop json job at seen (event none ∷ arms) = run_loop json job at seen arms
  run_loop json job at seen (event (some e) ∷ arms) =
      went_on (print_event e json) (run_loop json job at (seen || is_finalized e) arms)
  run_loop json job at seen (outcome o ∷ arms) = ended (on_outcome json job at seen o)
