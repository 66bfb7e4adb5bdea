-- ===== src/System/Reached.antt =====
-- Every state of the runtime and its drivers that actions lead to, in any order.
use execra.Base.{
  ℕ, suc, Option, none, some, List, [], ◌∷◌, ◌≡◌, refl, sym, ap, subst₂, ◌∙◌, if_rule,
}
use execra.Base.Sorted.{filter}
use execra.Command.{Platform}
use execra.Event.{Event}
use execra.Host.{Host}
use execra.Interpreter.{Interpreter}
use execra.Job.{Job, JobId}
use execra.Driver.Loop.Drive.{Spawned, child, refused}
use execra.Driver.Loop.Run.{Tick}
use execra.Driver.Loop.Task.{is_over}
use execra.Driver.RawOutput.{Raw}
use execra.Runtime.Jobs
use execra.Runtime.Jobs.{
  Answer, good, bad, JobEntry, Runtime, admit, cancel_entry, cancel_found, enter, enter_stored,
  lookup, queued_job,
}
use execra.Runtime.Subscribed.{of_job}
use execra.System.Admitted.{admit-IsEntered, cancel-IsQuiet, quiet-IsSound, seated-IsSound}
use execra.System.Projection.{some_same}
use execra.System.Seats.{AtStage, start-IsStep, tick-IsStep, finish-IsStep, fail_spawn-IsStep}
use execra.System.State.{
  Stage, waiting, permitted, running, Seat, System, Action, act, acts, at_seat, acquire_at,
  launch_at, drive_at, leave_at, world,
}
use execra.System.Told.{IsTold, IsSound, settled-IsSound, permitted-IsSound}

not_some : {A : Type 0} {a : A} → none ≡ some a → ⊥
not_some e = cc

module _ {I : Type 0} (h : Host) where
  stands_at :
      (id : JobId) (seat : Seat I) (e : JobEntry) (stage : Stage I) (s : System I)
      (t : IsTold s id seat)
      → t.entry ≡ e
      → seat.stage ≡ stage
      → AtStage id (queued_job id seat.spec t.at) t.since e.snapshot stage
  stands_at id seat e stage s t g f =
      subst₂ (λ y z. AtStage id (queued_job id seat.spec t.at) t.since y z)
        (ap (λ (y : JobEntry). y.snapshot) g) f t.stands

  module _ (platform : Platform) (interp : Interpreter I) (id : JobId) (e : JobEntry)
      (seat : Seat I) (s : System I) (t : IsTold s id seat) (l : lookup id s.seats ≡ some seat)
      (g : t.entry ≡ e) (k : IsSound h s) where
    abbrev queued : Job
    queued = queued_job id seat.spec t.at

    abbrev created : Event
    created = Event.job_created id seat.spec t.at

    launch_at-IsSound :
        (x : Spawned) (raw : Raw) (stage : Stage I)
        → seat.stage ≡ stage
        → IsSound h (launch_at h platform interp id seat x raw e stage s)
    launch_at-IsSound (child pid group) raw permitted f =
        let a = stands_at id seat e permitted s t g f in
        settled-IsSound h id _ _ s.permits s seat t l
          (start-IsStep h platform interp id seat.spec queued created (world s e.snapshot) pid group
            raw seat.interpreter e.cancel (t.own ∙ ap (λ es. created ∷ es) a.0) a.1 refl)
          k
    launch_at-IsSound (refused error) raw permitted f =
        let a = stands_at id seat e permitted s t g f in
        settled-IsSound h id _ _ (suc s.permits) s seat t l
          (fail_spawn-IsStep h platform interp id seat.spec queued created (world s e.snapshot)
            error (t.own ∙ ap (λ es. created ∷ es) a.0) a.1)
          k
    launch_at-IsSound x raw _ f = k

    drive_at-IsSound :
        (x : Tick) (stage : Stage I)
        → seat.stage ≡ stage
        → IsSound h (drive_at h platform interp id seat x e stage s)
    drive_at-IsSound x (running u) f =
        settled-IsSound h id _ _ s.permits s seat t l
          (tick-IsStep h platform interp id seat.spec queued created (world s e.snapshot) x e.cancel
            u t.since t.own (stands_at id seat e (running u) s t g f))
          k
    drive_at-IsSound x _ f = k

    leave_at-IsSound :
        (stage : Stage I)
        → seat.stage ≡ stage
        → IsSound h (leave_at h platform interp id seat e stage s)
    leave_at-IsSound (running u) f =
        if_rule (IsSound h) (is_over u)
          (λ o.
            settled-IsSound h id _ _ (suc s.permits) s seat t l
              (finish-IsStep h platform interp id seat.spec queued created (world s e.snapshot)
                e.cancel u t.since o t.own (stands_at id seat e (running u) s t g f))
              k)
          (λ o. k)
    leave_at-IsSound _ f = k

    acquire_at-IsSound :
        (stage : Stage I) (n : ℕ)
        → seat.stage ≡ stage
        → IsSound h (acquire_at h platform interp id stage n s)
    acquire_at-IsSound waiting (suc n) f = permitted-IsSound h id n s seat l f k
    acquire_at-IsSound _ n f = k

  at_seat-IsSound :
      (platform : Platform) (interp : Interpreter I) (f : Seat I → JobEntry → System I → System I)
      (id : JobId) (o : Option (Seat I)) (p : Option JobEntry) (s : System I)
      → lookup id s.seats ≡ o
      → lookup id s.runtime.jobs ≡ p
      → IsSound h s
      → ((seat : Seat I) (e : JobEntry) (t : IsTold s id seat)
          → lookup id s.seats ≡ some seat
          → t.entry ≡ e
          → IsSound h (f seat e s))
      → IsSound h (at_seat h platform interp f o p s)
  at_seat-IsSound platform interp f id (some seat) (some e) s l m k j =
      let t = k.told id seat l in j seat e t l (some_same (sym t.entered ∙ m))
  at_seat-IsSound platform interp f id none p s l m k j = k
  at_seat-IsSound platform interp f id (some seat) none s l m k j = k

  module _ (distinct : (m n : ℕ) → h.new_id m ≡ h.new_id n → m ≡ n) (platform : Platform)
      (interp : Interpreter I) where
    pub act-IsSound :
        (x : Action I) (s : System I) → IsSound h s → IsSound h (act h platform interp x s)
    unfolding act Jobs.spawn
    act-IsSound (Action.spawn c) s k =
        seated-IsSound h distinct c _ s _ (admit-IsEntered h _ s.runtime.store _) k
    act-IsSound (Action.cancel id) s k = quiet-IsSound h _ s (cancel-IsQuiet id s.runtime) k
    act-IsSound (Action.acquire id) s k =
        at_seat-IsSound platform interp _ id (lookup id s.seats) (lookup id s.runtime.jobs) s refl
          refl k
          (λ seat e t l g.
            acquire_at-IsSound platform interp id e seat s t l g k seat.stage s.permits refl)
    act-IsSound (Action.launch id x raw) s k =
        at_seat-IsSound platform interp _ id (lookup id s.seats) (lookup id s.runtime.jobs) s refl
          refl k
          (λ seat e t l g.
            launch_at-IsSound platform interp id e seat s t l g k x raw seat.stage refl)
    act-IsSound (Action.drive id x) s k =
        at_seat-IsSound platform interp _ id (lookup id s.seats) (lookup id s.runtime.jobs) s refl
          refl k
          (λ seat e t l g. drive_at-IsSound platform interp id e seat s t l g k x seat.stage refl)
    act-IsSound (Action.leave id) s k =
        at_seat-IsSound platform interp _ id (lookup id s.seats) (lookup id s.runtime.jobs) s refl
          refl k
          (λ seat e t l g. leave_at-IsSound platform interp id e seat s t l g k seat.stage refl)

    pub acts-IsSound :
        (xs : List (Action I)) (s : System I)
        → IsSound h s
        → IsSound h (acts h platform interp xs s)
    unfolding acts
    acts-IsSound [] s k = k
    acts-IsSound (x ∷ xs) s k = acts-IsSound xs _ (act-IsSound x s k)

    pub empty-IsSound : (s : System I) → s.seats ≡ [] → s.runtime.sent ≡ [] → IsSound h s
    unfolding lookup filter
    empty-IsSound s n o = record {
      told = λ id seat e. absurd (not_some (sym (ap (lookup id) n) ∙ e));
      unused = λ m b. (ap (filter (of_job (h.new_id m))) o, ap (lookup (h.new_id m)) n);
    }

    -- The whole runtime: from one without drivers and with nothing on the channel on, whatever is
    -- spawned, cancelled, refused or run, and in whatever order the drivers of all jobs take their
    -- steps, every job with a driver stands in the map of jobs, and its events on the channel are
    -- its creation and then: none as long as it waits, and its snapshot is that of a queued job;
    -- while the driver runs, such that a subscriber sees what the driver holds; and once it has
    -- given the handle an outcome, the protocol to its end, with this outcome's finalization as
    -- the last event, and the snapshot is finalized with it. It is for job ids that are distinct.
    pub acts-IsTold :
        (xs : List (Action I)) (s : System I) (id : JobId) (seat : Seat I)
        → s.seats ≡ []
        → s.runtime.sent ≡ []
        → lookup id (acts h platform interp xs s).seats ≡ some seat
        → IsTold (acts h platform interp xs s) id seat
    acts-IsTold xs s id seat n o = (acts-IsSound xs s (empty-IsSound s n o)).told id seat
