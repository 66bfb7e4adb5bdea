-- ===== src/System/State.antt =====
-- The jobs of a runtime with their drivers: `spawn` and `cancel` of src/runtime.rs, and `drive_job` of
-- src/runtime/driver.rs from the permit on, as actions on one state, in any order. The actions of
-- different jobs share the channel, the store, the clock and the permits; `job` of a seat shares
-- its snapshot and its token with the entry in the map of jobs.
use execra.Base.{ℕ, suc, Option, some, List, [], ◌∷◌, if◌then◌else◌}
use execra.Command.{Command, CommandSpec, Platform}
use execra.Host.{Host}
use execra.Interpreter.{Interpreter}
use execra.Job.{Job, JobId}
use execra.Outcome.{Outcome}
use execra.Driver.Loop.Drive.{Spawned, child, refused}
use execra.Driver.Loop.Run.{Tick, fail_spawn, finish, start, tick}
use execra.Driver.Loop.Task.{Task, is_over}
use execra.Driver.RawOutput.{Raw}
use execra.Driver.World.{World}
use execra.Runtime.Jobs
use execra.Runtime.Jobs.{Answer, good, bad, JobEntry, Runtime, change, lookup}

-- Where the driver of a job stands: it waits for a permit, it has one, its loop runs, it has sent the
-- outcome to the handle and given the permit back.
pub data Stage (I : Type 0) : Type 0 where
  waiting permitted : Stage I
  running : Task I → Stage I
  returned : Outcome → Stage I

pub record Seat (I : Type 0) : Type 0 where
  pub spec : CommandSpec
  pub interpreter : Option I
  pub stage : Stage I

-- `permits` is what the semaphore has left, and `phase_ids` counts the calls of `PhaseId::new`.
pub record System (I : Type 0) : Type 0 where
  pub runtime : Runtime
  pub phase_ids : ℕ
  pub permits : ℕ
  pub seats : List (JobId × Seat I)

-- A call of `spawn` or `cancel`, or what happens to the driver of a job.
pub data Action (I : Type 0) : Type 0 where
  spawn : Command I → Action I
  cancel acquire leave : JobId → Action I
  launch : JobId → Spawned → Raw → Action I
  drive : JobId → Tick → Action I

-- What the driver of a job with this snapshot shares.
abbrev pub world : {I : Type 0} → System I → Job → World
world s job = record {
  clock = s.runtime.clock;
  ids = s.phase_ids;
  sent = s.runtime.sent;
  store = s.runtime.store;
  snapshot = job;
}

abbrev pub with_snapshot : Job → JobEntry → JobEntry
with_snapshot job e = record e { snapshot = job }

-- What a driver that leaves the world so and stands there makes of the state.
abbrev pub settled : {I : Type 0} → JobId → World → Stage I → ℕ → System I → System I
settled id w stage permits s = record {
  runtime = record {
    store = w.store;
    jobs = change id (with_snapshot w.snapshot) s.runtime.jobs;
    sent = w.sent;
    clock = w.clock;
    ids = s.runtime.ids;
  };
  phase_ids = w.ids;
  permits = permits;
  seats = change id (λ seat. record seat { stage = stage }) s.seats;
}

-- The loop's variables, with what they share as it is now.
abbrev pub attached : {I : Type 0} → System I → JobEntry → Task I → Task I
attached s e t = record t {
  drive = record t.drive { world = world s e.snapshot };
  cancelled = e.cancel;
}

abbrev pub seated : {I : Type 0} → Command I → Answer JobId × Runtime → System I → System I
seated c (good id, r) s = record s {
  runtime = r;
  seats =
      (id, record { spec = c.spec; interpreter = c.interpreter; stage = Stage.waiting }) ∷ s.seats;
}
seated c (bad e, r) s = record s { runtime = r }

module _ {I : Type 0} (h : Host) (platform : Platform) (interp : Interpreter I) where
  -- `permits.acquire_owned()`: the waiting drivers may be served in any order.
  abbrev pub acquire_at : JobId → Stage I → ℕ → System I → System I
  acquire_at id Stage.waiting (suc n) s = record s {
    permits = n;
    seats = change id (λ seat. record seat { stage = Stage.permitted }) s.seats;
  }
  acquire_at id _ n s = s

  abbrev pub launch_at : JobId → Seat I → Spawned → Raw → JobEntry → Stage I → System I → System I
  launch_at id seat (child pid group) raw e Stage.permitted s =
      let t =
        start h platform interp id seat.spec pid group raw seat.interpreter e.cancel
          (world s e.snapshot) in
      settled id t.drive.world (Stage.running t) s.permits s
  launch_at id seat (refused error) raw e Stage.permitted s =
      let (outcome, w) = fail_spawn h id error (world s e.snapshot) in
      settled id w (Stage.returned outcome) (suc s.permits) s
  launch_at id seat x raw e _ s = s

  abbrev pub drive_at : JobId → Seat I → Tick → JobEntry → Stage I → System I → System I
  drive_at id seat x e (Stage.running t) s =
      let u = tick h platform interp id seat.spec x (attached s e t) in
      settled id u.drive.world (Stage.running u) s.permits s
  drive_at id seat x e _ s = s

  abbrev pub finish_at : JobId → Seat I → JobEntry → Task I → System I → System I
  finish_at id seat e t s =
      let (outcome, u) = finish h platform interp id seat.spec (attached s e t) in
      settled id u.drive.world (Stage.returned outcome) (suc s.permits) s

  abbrev pub leave_at : JobId → Seat I → JobEntry → Stage I → System I → System I
  leave_at id seat e (Stage.running t) s = if is_over t then finish_at id seat e t s else s
  leave_at id seat e _ s = s

  -- An action on a job that has no driver changes nothing.
  abbrev pub at_seat :
      (Seat I → JobEntry → System I → System I)
      → Option (Seat I)
      → Option JobEntry
      → System I
      → System I
  at_seat f (some seat) (some e) s = f seat e s
  at_seat f _ _ s = s

  abbrev pub on_seat : JobId → (Seat I → JobEntry → System I → System I) → System I → System I
  on_seat id f s = at_seat f (lookup id s.seats) (lookup id s.runtime.jobs) s

  unfoldable pub act : Action I → System I → System I
  unfolding Jobs.spawn Jobs.cancel lookup change start fail_spawn tick finish
  act (Action.spawn c) s = seated c (Jobs.spawn h c.spec s.runtime) s
  act (Action.cancel id) s = record s { runtime = (Jobs.cancel id s.runtime).1 }
  act (Action.acquire id) s = on_seat id (λ seat e. acquire_at id seat.stage s.permits) s
  act (Action.launch id x raw) s = on_seat id (λ seat e. launch_at id seat x raw e seat.stage) s
  act (Action.drive id x) s = on_seat id (λ seat e. drive_at id seat x e seat.stage) s
  act (Action.leave id) s = on_seat id (λ seat e. leave_at id seat e seat.stage) s

  unfoldable pub acts : List (Action I) → System I → System I
  unfolding act
  acts [] s = s
  acts (x ∷ xs) s = acts xs (act x s)
