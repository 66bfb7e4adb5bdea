-- ===== src/System/Apart.antt =====
-- What an action on one job leaves alone: the other jobs and what is on the channel.
use execra.Base.{
  ℕ, suc, Option, none, some, List, [], ◌∷◌, ◌++◌, append_assoc, append-nil, snoc, ◌≡◌, ◌≢◌, refl,
  sym, ap, ◌∙◌, arith, ==_iff, if_rule,
}
use execra.Base.Sorted.{filter}
use execra.Command.{Command, Platform}
use execra.Event.{Event, job_id}
use execra.Host.{Host}
use execra.Interpreter.{Interpreter}
use execra.Job.{Job, JobId}
use execra.Outcome.{Outcome}
use execra.Driver.Loop.Drive.{Spawned, child, refused}
use execra.Driver.Loop.Run.{Tick, fail_spawn, finalize, finish, spawn_error, start, tick}
use execra.Driver.Loop.Task.{Task, is_over}
use execra.Driver.Mapped.Steps.{Lens, seen}
use execra.Driver.Mapped.Loop.{finalize-seen, finish-seen, start-seen, tick-seen}
use execra.Driver.RawOutput.{Raw}
use execra.Driver.World.{World}
use execra.Runtime.Admission.{cancel_lem}
use execra.Runtime.Jobs
use execra.Runtime.Jobs.{Answer, good, bad, JobEntry, Runtime, change, lookup, queued_job}
use execra.Runtime.Subscribed.{of_job}
use execra.System.Admitted.{IsEntered, admit-IsEntered}
use execra.System.Projection.{own_news, step_grows, with_sent}
use execra.System.Seats.{resumed}
use execra.System.State.{
  Stage, waiting, permitted, running, Seat, System, Action, act, acts, at_seat, acquire_at,
  launch_at, drive_at, leave_at, seated, settled, world, with_snapshot,
}
use execra.System.Told.{unchanged}

-- From `s` to `u` only the job `id` has moved: what was on the channel is still there, and what has
-- come is of this job.
pub record IsApart {I : Type 0} (id : JobId) (s u : System I) : Type 0 where
  pub news : List Event
  pub grown : u.runtime.sent ≡ s.runtime.sent ++ news
  pub own : filter (of_job id) news ≡ news
  pub seats : (k : JobId) → id ≢ k → lookup k u.seats ≡ lookup k s.seats
  pub jobs : (k : JobId) → id ≢ k → lookup k u.runtime.jobs ≡ lookup k s.runtime.jobs

nothing-IsApart : {I : Type 0} (id : JobId) (s : System I) → IsApart id s s
unfolding filter
nothing-IsApart id s = record {
  news = [];
  grown = sym (append-nil s.runtime.sent);
  own = refl;
  seats = λ k n. refl;
  jobs = λ k n. refl;
}

-- A step of a driver, with the world as a function of the one before.
settled-IsApart :
    {I : Type 0} {h : Host} (id : JobId) (F : World → World)
    → ((l : Lens h id) (w : World) → seen l (F w) ≡ F (seen l w))
    → (j : Job) (stage : Stage I) (n : ℕ) (s : System I)
    → IsApart id s (settled id (F (world s j)) stage n s)
settled-IsApart id F keeps j stage n s = record {
  news = (F (with_sent (world s j) [])).sent;
  grown = step_grows F keeps (world s j);
  own = own_news F keeps (world s j);
  seats = λ k d. unchanged id k (λ seat. record seat { stage = stage }) s.seats d;
  jobs = λ k d. unchanged id k (with_snapshot (F (world s j)).snapshot) s.runtime.jobs d;
}

-- The job that an action is on.
abbrev pub target : {I : Type 0} → Host → Action I → System I → JobId
target h (Action.spawn c) s = h.new_id s.runtime.ids
target h (Action.cancel id) s = id
target h (Action.acquire id) s = id
target h (Action.launch id x raw) s = id
target h (Action.drive id x) s = id
target h (Action.leave id) s = id

module _ {I : Type 0} (h : Host) (platform : Platform) (interp : Interpreter I) where
  module _ (id : JobId) (seat : Seat I) (e : JobEntry) (s : System I) where
    launch_at-IsApart :
        (x : Spawned) (raw : Raw) (stage : Stage I)
        → IsApart id s (launch_at h platform interp id seat x raw e stage s)
    unfolding fail_spawn
    launch_at-IsApart (child pid group) raw permitted =
        let G : World → Task I =
          start h platform interp id seat.spec pid group raw seat.interpreter e.cancel in
        settled-IsApart id (λ w. (G w).drive.world)
          (λ (l : Lens h id) w.
            ap (λ (t : Task I). t.drive.world)
              (start-seen l platform interp seat.spec pid group raw seat.interpreter e.cancel w))
          e.snapshot _ s.permits s
    launch_at-IsApart (refused error) raw permitted =
        settled-IsApart id (finalize h id (spawn_error error))
          (λ (l : Lens h id) w. finalize-seen l (spawn_error error) w) e.snapshot _ (suc s.permits)
          s
    launch_at-IsApart x raw _ = nothing-IsApart id s

    drive_at-IsApart :
        (x : Tick) (stage : Stage I) → IsApart id s (drive_at h platform interp id seat x e stage s)
    drive_at-IsApart x (running t) =
        settled-IsApart id
          (λ w. (tick h platform interp id seat.spec x (resumed e.cancel t w)).drive.world)
          (λ (l : Lens h id) w.
            ap (λ (t : Task I). t.drive.world)
              (tick-seen l platform interp seat.spec x (resumed e.cancel t w)))
          e.snapshot _ s.permits s
    drive_at-IsApart x _ = nothing-IsApart id s

    leave_at-IsApart :
        (stage : Stage I) → IsApart id s (leave_at h platform interp id seat e stage s)
    leave_at-IsApart (running t) =
        if_rule (IsApart id s) (is_over t)
          (λ o.
            settled-IsApart id
              (λ w. (finish h platform interp id seat.spec (resumed e.cancel t w)).1.drive.world)
              (λ (l : Lens h id) w.
                ap (λ (g : Option Outcome × World). g.1)
                  (finish-seen l platform interp seat.spec (resumed e.cancel t w)))
              e.snapshot _ (suc s.permits) s)
          (λ o. nothing-IsApart id s)
    leave_at-IsApart _ = nothing-IsApart id s

    acquire_at-IsApart :
        (stage : Stage I) (n : ℕ) → IsApart id s (acquire_at h platform interp id stage n s)
    unfolding filter
    acquire_at-IsApart waiting (suc n) = record {
      news = [];
      grown = sym (append-nil s.runtime.sent);
      own = refl;
      seats = λ k d. unchanged id k (λ x. record x { stage = permitted }) s.seats d;
      jobs = λ k d. refl;
    }
    acquire_at-IsApart _ n = nothing-IsApart id s

  at_seat-IsApart :
      (f : Seat I → JobEntry → System I → System I) (id : JobId) (o : Option (Seat I))
      (p : Option JobEntry) (s : System I)
      → ((seat : Seat I) (e : JobEntry) → IsApart id s (f seat e s))
      → IsApart id s (at_seat h platform interp f o p s)
  at_seat-IsApart f id (some seat) (some e) s j = j seat e
  at_seat-IsApart f id none p s j = nothing-IsApart id s
  at_seat-IsApart f id (some seat) none s j = nothing-IsApart id s

  cancel-IsApart :
      (id : JobId) (s : System I)
      → IsApart id s (record s { runtime = (Jobs.cancel id s.runtime).1 })
  unfolding filter
  cancel-IsApart id s = record {
    news = [];
    grown = (cancel_lem id 0 s.runtime).2 ∙ sym (append-nil s.runtime.sent);
    own = refl;
    seats = λ k d. refl;
    jobs = λ k d. (cancel_lem id k s.runtime).1 ∙ ground (arith, ==_iff id k, d);
  }

  seated-IsApart :
      (c : Command I) (a : Answer JobId) (r' : Runtime) (q : Job) (s : System I)
      → (r : Runtime) → r.jobs ≡ s.runtime.jobs
      → r.sent ≡ s.runtime.sent
      → IsEntered q r (a, r')
      → IsApart q.id s (seated c (a, r') s)
  unfolding filter lookup job_id
  seated-IsApart c (good id) r' q s r m n en = record {
    news = Event.job_created q.id q.command q.created_at ∷ [];
    grown = en.2 ∙ ap (λ es. snoc es (Event.job_created q.id q.command q.created_at)) n;
    own = ground (arith, ==_iff q.id q.id);
    seats = λ k d. ground (arith, ==_iff q.id k, en.0, d);
    jobs = λ k d. en.1 k ∙ ground (arith, ==_iff q.id k, m, d);
  }
  seated-IsApart c (bad e) r' q s r m n en = record {
    news = [];
    grown = en.1 ∙ n ∙ sym (append-nil s.runtime.sent);
    own = refl;
    seats = λ k d. refl;
    jobs = λ k d. ap (lookup k) (en.0 ∙ m);
  }

  -- Jobs are apart: whatever the state, an action on one job, be it a spawn, a cancellation or a
  -- step of its driver, leaves what is on the channel, adds events of this job alone, and changes
  -- neither the driver nor the entry in the map of any other job.
  pub act-IsApart :
      (x : Action I) (s : System I) → IsApart (target h x s) s (act h platform interp x s)
  unfolding act Jobs.spawn
  act-IsApart (Action.spawn c) s =
      seated-IsApart c _ _ (queued_job (h.new_id s.runtime.ids) c.spec (h.now s.runtime.clock)) s
        (record s.runtime { clock = suc s.runtime.clock; ids = suc s.runtime.ids }) refl refl
        (admit-IsEntered h _ s.runtime.store _)
  act-IsApart (Action.cancel id) s = cancel-IsApart id s
  act-IsApart (Action.acquire id) s =
      at_seat-IsApart _ id (lookup id s.seats) (lookup id s.runtime.jobs) s
        (λ seat e. acquire_at-IsApart id seat e s seat.stage s.permits)
  act-IsApart (Action.launch id x raw) s =
      at_seat-IsApart _ id (lookup id s.seats) (lookup id s.runtime.jobs) s
        (λ seat e. launch_at-IsApart id seat e s x raw seat.stage)
  act-IsApart (Action.drive id x) s =
      at_seat-IsApart _ id (lookup id s.seats) (lookup id s.runtime.jobs) s
        (λ seat e. drive_at-IsApart id seat e s x seat.stage)
  act-IsApart (Action.leave id) s =
      at_seat-IsApart _ id (lookup id s.seats) (lookup id s.runtime.jobs) s
        (λ seat e. leave_at-IsApart id seat e s seat.stage)

  -- What is on the channel stays there.
  pub acts_grow :
      (xs : List (Action I)) (s : System I)
      → (news : List Event) × ((acts h platform interp xs s).runtime.sent ≡ s.runtime.sent ++ news)
  unfolding acts
  acts_grow [] s = ([], sym (append-nil s.runtime.sent))
  acts_grow (x ∷ xs) s =
      let a = act-IsApart x s in
      let b = acts_grow xs (act h platform interp x s) in
      (a.news ++ b.0, b.1 ∙ ap (λ es. es ++ b.0) a.grown ∙ append_assoc s.runtime.sent a.news b.0)
