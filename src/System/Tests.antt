-- ===== src/System/Tests.antt =====
-- Two jobs and one permit, and the theorems at them.
use execra.Base.{false, true, arith, some, ℕ, ◌+◌, ◌≤◌, codes, none, List, [], ◌∷◌, ◌≡◌, refl}
use execra.Command.{Command, CommandSpec, Platform}
use execra.Command
use execra.Host.{Host}
use execra.Driver.Loop.Drive.{child, refused}
use execra.Driver.Loop.Run.{
  spawn_error, fail_spawn, poll, start, stdout_end, stderr_end, tick, wait_dropped,
}
use execra.Driver.Lines.{eof}
use execra.Driver.Ending.{IsEnding}
use execra.Driver.Loop.Task.{Task}
use execra.Driver.World.{World}
use execra.Driver.Samples
use execra.Runtime.Jobs.{lookup, queued_job, spawn}
use execra.Event.{Event}
use execra.Runtime.Handle.{JobHandle, retained, spawn_handle, subscribe}
use execra.Runtime.Stream.{read_all}
use execra.System.Apart.{IsApart, act-IsApart}
use execra.System.Finishing.{IsReturned, acts_finish}
use execra.System.Heard.{spawn_heard}
use execra.System.Permits.{acts-permits, holding}
use execra.System.Reached.{acts-IsTold}
use execra.System.State.{Action, Seat, System, act, acts, returned, running}
use execra.System.Told.{IsTold}

-- Each id is its number.
abbrev host : Host
host = record Samples.host { new_id = λ n. n }

abbrev command : Command ℕ
command = record { spec = Samples.spec; stdin = execra.Command.null; interpreter = none }

abbrev idle : System ℕ
idle = record {
  runtime = record { store = none; jobs = []; sent = []; clock = 0; ids = 0 };
  phase_ids = 0;
  permits = 1;
  seats = [];
}

-- The second job has to wait until the first one, whose process cannot be spawned, has gone.
abbrev session : List (Action ℕ)
session =
    Action.spawn command
    ∷ Action.spawn command
    ∷ Action.acquire 0
    ∷ Action.acquire 1
    ∷ Action.launch 0 (refused (codes "no such file")) Samples.raw
    ∷ Action.cancel 1
    ∷ Action.acquire 1
    ∷ []

abbrev reached : System ℕ
reached = acts host Platform.other Samples.silent session idle

abbrev left : Seat ℕ
left = record {
  spec = Samples.spec;
  interpreter = none;
  stage = returned (spawn_error (codes "no such file"));
}

acts-IsTold_example : IsTold reached 0 left
unfolding acts lookup spawn fail_spawn
acts-IsTold_example =
    acts-IsTold host (λ m n e. e) Platform.other Samples.silent session idle 0 left refl refl refl

acts-permits_example : (reached.permits + holding reached.seats ≡ 1) × (holding reached.seats ≤ 1)
acts-permits_example =
    let p = acts-permits host Platform.other Samples.silent session idle refl in (p.0, p.1)

-- The second job, whose process cannot be spawned either, while the first one goes on.
abbrev later : List (Action ℕ)
later =
    Action.acquire 1
    ∷ Action.cancel 0
    ∷ Action.launch 1 (refused (codes "no such file")) Samples.raw
    ∷ Action.acquire 0
    ∷ []

abbrev handle : JobHandle
handle = record { id = 1; outcome_rx = true; initial_rx = some 1 }

abbrev before : System ℕ
before = acts host Platform.other Samples.silent (Action.spawn command ∷ []) idle

abbrev after : System ℕ
after =
    acts host Platform.other Samples.silent later
      (act host Platform.other Samples.silent (Action.spawn command) before)

spawn_heard_example :
    let first = (subscribe handle after.runtime).0 in
    (told : IsTold after 1 left) × (read_all 9 first.filter (retained first after.runtime.sent)
      ≡ Event.job_created 1 Samples.spec told.at ∷ told.since)
unfolding act acts lookup spawn spawn_handle fail_spawn
spawn_heard_example =
    spawn_heard host (λ m n e. e) Platform.other Samples.silent (Action.spawn command ∷ []) later
      idle command handle left 9 refl refl refl refl (omega arith) (omega arith)

act-IsApart_example :
    IsApart 1 before (act host Platform.other Samples.silent (Action.spawn command) before)
unfolding act acts spawn
act-IsApart_example = act-IsApart host Platform.other Samples.silent (Action.spawn command) before

-- A job whose child has ended, and a driver that is polled while another job comes and goes.
abbrev begun : List (Action ℕ)
begun =
    Action.spawn command
    ∷ Action.acquire 0
    ∷ Action.launch 0 (child (some 99) true) Samples.raw
    ∷ Action.drive 0 (stdout_end eof)
    ∷ Action.drive 0 (stderr_end eof)
    ∷ Action.drive 0 wait_dropped
    ∷ []

abbrev polled : List (Action ℕ)
polled =
    Action.drive 0 poll
    ∷ Action.spawn command
    ∷ Action.drive 0 poll
    ∷ Action.cancel 1
    ∷ Action.drive 0 poll
    ∷ []

abbrev first_world : World
first_world = record {
  clock = 1;
  ids = 0;
  sent = Event.job_created 0 Samples.spec (host.now 0) ∷ [];
  store = none;
  snapshot = queued_job 0 Samples.spec (host.now 0);
}

abbrev closing : Task ℕ
closing =
    record (start host Platform.other Samples.silent 0 Samples.spec (some 99) true Samples.raw none
      false first_world) {
        stdout = record { buffer = []; end = some eof };
        stderr = record { buffer = []; end = some eof };
        wait_dropped = true;
      }

abbrev working : Seat ℕ
working = record { spec = Samples.spec; interpreter = none; stage = running closing }

closing-IsEnding : IsEnding closing
unfolding start
closing-IsEnding = record { stdout_ended = λ e. cc; stderr_ended = λ e. cc; spent = refl }

acts_finish_example : IsReturned 0 (
    act host Platform.other Samples.silent (Action.leave 0) (
      acts host Platform.other Samples.silent polled
        (acts host Platform.other Samples.silent begun idle)))
unfolding act acts lookup spawn start tick
acts_finish_example =
    acts_finish host Platform.other Samples.silent (λ m n e. e) begun polled idle 0 working closing
      refl refl refl refl closing-IsEnding (omega arith)
