-- ===== src/Driver/Trials.antt =====
-- The theorems on the driver at tasks in the middle of a job.
use execra.Base.{
  Text, Option, text_eq, ℕ, codes, Bool, true, false, none, some, List, [], ◌∷◌, ◌++◌, ◌≡◌, refl,
  arith, not, ◌&&◌,
}
use execra.Command
use execra.Command.{Command, Platform}
use execra.Host.{Host}
use execra.Interpreter.{panicked, str}
use execra.Outcome.{is_success, exit_is_success}
use execra.Driver.Judging.{finish-is_success}
use execra.Driver.Ending.{IsEnding, polls, polls_end}
use execra.Driver.Output.{output}
use execra.Driver.Kept.{last_n, run_keeps_last, tagged_lines}
use execra.Driver.Lines.{eof}
use execra.Base.Sorted.{filter}
use execra.Driver.Logged.{events_of, finish-IsLogged, logged}
use execra.Store.{empty}
use execra.Driver.Finality.{IsFinal, drive_job-IsFinal}
use execra.Driver.Loop.Drive.{child, refused, drive_job}
use execra.Driver.Environment.{env_reaches, environment}
use execra.Driver.Process.{configure, configure_group, configure_hidden_window, set_env}
use execra.Driver.Unstored.{drive_job-unstored, unstored, unstored_given}
use execra.Driver.World.{World}
use execra.Driver.Loop.Run.{spawn_error}
use execra.Driver.Reading.{
  flat, lines_of, partial_stdout_lost, read_all, read_all_complete, with_stdout,
}
use execra.Driver.Loop.Select.{poll_select}
use execra.Driver.Loop.Run.{start, run, finish, final_exit}
use execra.Driver.Loop.Call.{settle}
use execra.Driver.Disabled.{finish_same}
use execra.Driver.Loop.Task.{Task, is_over}
use execra.Driver.RawOutput.{memory_raw_capacity, recall}
use execra.Driver.Wait.{child_waited, timeout_fired, status, Wake, WaitTask, Signal, reported}
use execra.Driver.Wait
use execra.Driver.Samples.{
  no_json, raw, world, host, spec, phases, history, ended, started, lines, silent,
}

abbrev closing : Task ℕ
closing = record started {
  stdout = record { buffer = lines; end = some eof };
  stderr = record { buffer = []; end = some eof };
  wait_dropped = true;
}

closing-IsEnding : IsEnding closing
unfolding start run
closing-IsEnding = record { stdout_ended = λ e. cc; stderr_ended = λ e. cc; spent = refl }

polls_end_example :
    is_over
      (run host Platform.other phases 7 spec (polls host Platform.other phases 7 spec 10) closing)
    ≡ true
unfolding start run
polls_end_example =
    polls_end host Platform.other phases 7 spec 10 closing closing-IsEnding (omega arith)

read_all_complete_example :
    (read_all 8 (record { buffer = lines; end = some eof }) ≡ lines_of lines)
    × (flat (read_all 8 (record { buffer = lines; end = some eof })) ≡ lines)
read_all_complete_example = read_all_complete 8 lines (omega arith)

abbrev erring : Task ℕ
erring = record started { stderr = record { buffer = codes "bad" ++ 10 ∷ []; end = none } }

partial_stdout_lost_example :
    poll_select host Platform.other phases 7 spec
      (with_stdout host Platform.other phases 7 spec (codes "prompt> ") erring)
    ≡ poll_select host Platform.other phases 7 spec
        (with_stdout host Platform.other phases 7 spec [] erring)
unfolding start run
partial_stdout_lost_example =
    partial_stdout_lost host Platform.other phases 7 spec erring (codes "prompt> ") []
      (codes "bad" ++ 10 ∷ []) [] refl refl refl refl refl

run_keeps_last_example :
    recall 7 ended.raw.memory
    ≡ last_n memory_raw_capacity (tagged_lines (output ended.drive.world.sent))
unfolding start output run recall
run_keeps_last_example =
    run_keeps_last host Platform.other phases 7 spec history started refl refl refl

abbrev late_wakes : List (Bool × Wake)
late_wakes = (false, timeout_fired) ∷ (false, child_waited Wait.io_error) ∷ []

abbrev timed_out : WaitTask
timed_out = record (Wait.start true true) {
  stage = reported (record { status = Wait.io_error; timed_out = true });
}

finish-is_success_example :
    is_success (finish host Platform.other phases 7 spec ended).0
    ≡ not ended.cancelled
      && not ended.timed_out
      && exit_is_success (final_exit host Platform.other phases 7 spec ended.exit_status)
finish-is_success_example = finish-is_success host Platform.other phases 7 spec ended

abbrev gave_up : Task ℕ
gave_up = settle host 7 none (panicked 0 (str (codes "boom"))) started

finish_same_example :
    finish host Platform.other phases 7 spec (run host Platform.other phases 7 spec history gave_up)
    ≡ finish host Platform.other silent 7 spec
        (run host Platform.other silent 7 spec history gave_up)
unfolding settle
finish_same_example = finish_same host Platform.other 7 spec phases silent history gave_up refl

-- The sample host with a JSON text for each event.
abbrev writing : Host
writing = record host { serde = record no_json { event_to_json = λ e. some [] } }

abbrev logging : Task ℕ
logging = record started {
  drive = record started.drive {
    world = record started.drive.world { store = some empty; sent = [] };
  };
}

finish-IsLogged_example :
    let u =
      (finish writing Platform.other phases 7 spec
        (run writing Platform.other phases 7 spec history logging)).1 in
    events_of u.drive.world.store ≡ some (logged writing.serde u.drive.world.sent)
unfolding logged filter
finish-IsLogged_example =
    finish-IsLogged writing (λ n. refl) 7 Platform.other phases spec history logging refl

drive_job-IsFinal_example :
    IsFinal 7
      (spawn_error (codes "no such file"))
      (drive_job host Platform.other phases 7 spec true
        (refused (codes "no such file"))
        raw
        (some 0)
        false
        []
        world).1
unfolding drive_job
drive_job-IsFinal_example =
    drive_job-IsFinal host Platform.other phases 7 spec true (refused (codes "no such file")) raw
      (some 0) false [] world
      (drive_job host Platform.other phases 7 spec true (refused (codes "no such file")) raw
        (some 0) false [] world).1
      (spawn_error (codes "no such file")) refl

abbrev with_store : World
with_store = record world { store = some empty }

drive_job-unstored_example :
    unstored_given (
      drive_job host Platform.other phases 7 spec true
        (child (some 99) true)
        raw
        (some 0)
        false
        history
        with_store)
    ≡ drive_job host Platform.other phases 7 spec true
        (child (some 99) true)
        raw
        (some 0)
        false
        history
        (unstored with_store)
drive_job-unstored_example =
    drive_job-unstored host Platform.other phases 7 spec true (child (some 99) true) raw (some 0)
      false history with_store

abbrev inherited : Text → Option Text
inherited k = some (codes "inherited")

abbrev tool : Command ℕ
tool = record { spec = spec; stdin = execra.Command.null; interpreter = none }

env_reaches_example :
    (environment text_eq inherited
        (configure Platform.other
          (execra.Command.env (codes "LANG") (codes "C") tool).spec
          execra.Command.null)
        (codes "PATH")
      ≡ some (codes "inherited"))
    × (environment text_eq inherited
          (configure Platform.other (execra.Command.env_clear tool).spec execra.Command.null)
          (codes "PATH")
        ≡ none)
unfolding text_eq configure set_env configure_group configure_hidden_window
env_reaches_example =
    env_reaches text_eq inherited Platform.other tool execra.Command.null (codes "LANG") (codes "C")
      (codes "PATH")
