-- ===== src/System/Coming.antt =====
-- How far the driver of one job is from its end while anything happens to the runtime.
use execra.Base.{
  ℕ, suc, ◌+◌, ◌≤◌, Bool, Option, some, List, [], ◌∷◌, ◌≡◌, ◌≢◌, ◌⊎◌, inl, inr, refl, sym, subst,
  subst₂, ◌∙◌, arith, ◌==◌, ==_iff, if◌then◌else◌, if_rule,
}
use execra.Command.{Platform}
use execra.Host.{Host}
use execra.Interpreter.{Interpreter}
use execra.Job.{JobId}
use execra.Driver.Due.{IsDue, left_after, tick-IsDue}
use execra.Driver.Loop.Drive.{Spawned, child, refused}
use execra.Driver.Loop.Run.{Tick, poll}
use execra.Driver.Loop.Task.{Task, is_over}
use execra.Driver.RawOutput.{Raw}
use execra.Driver.World.{World}
use execra.Runtime.Jobs.{JobEntry, lookup}
use execra.System.Apart.{act-IsApart, target}
use execra.System.Seats.{resumed}
use execra.System.State.{
  Stage, waiting, permitted, running, returned, Seat, System, Action, act, at_seat, acquire_at,
  launch_at, drive_at, leave_at, settled, world,
}
use execra.System.Told.{IsSound, apart, changed}

-- How often the driver of the job is polled.
abbrev pub polls_of : {I : Type 0} → JobId → List (Action I) → ℕ
polls_of id [] = 0
polls_of id (Action.drive j poll ∷ xs) = (if j == id then 1 else 0) + polls_of id xs
polls_of id (x ∷ xs) = polls_of id xs

abbrev pub left_in : {I : Type 0} → ℕ → JobId → Action I → ℕ
left_in n id (Action.drive j x) = if j == id then left_after n x else n
left_in n id x = n

abbrev pub left_all : {I : Type 0} → ℕ → JobId → List (Action I) → ℕ
left_all n id [] = n
left_all n id (x ∷ xs) = left_all (left_in n id x) id xs

pub polls_suffice :
    {I : Type 0} (xs : List (Action I)) (n : ℕ) (id : JobId)
    → n ≤ polls_of id xs
    → left_all n id xs ≡ 0
polls_suffice [] n id l = omega (arith, l)
polls_suffice (Action.drive j poll ∷ xs) n id l = polls_suffice xs _ id (ground (arith, l))
polls_suffice (x ∷ xs) n id l = polls_suffice xs _ id (ground (arith, l))

-- The driver has returned, or its loop is due.
abbrev pub DueAt : {I : Type 0} → ℕ → Stage I → Type 0
DueAt n waiting = ⊥
DueAt n permitted = ⊥
DueAt n (running t) = IsDue n t
DueAt n (returned o) = Unit {0}

pub record Comes {I : Type 0} (n : ℕ) (id : JobId) (s : System I) : Type 0 where
  pub seat : Seat I
  pub there : lookup id s.seats ≡ some seat
  pub due : DueAt n seat.stage

resumed-IsDue :
    {I : Type 0} (n : ℕ) (c : Bool) (t : Task I) (w : World) → IsDue n t → IsDue n (resumed c t w)
resumed-IsDue n c t w (inl o) = inl o
resumed-IsDue n c t w (inr (e, l)) =
    inr
      (record { stdout_ended = e.stdout_ended; stderr_ended = e.stderr_ended; spent = e.spent }, l)

settled-Comes :
    {I : Type 0} (n k : ℕ) (id : JobId) (w : World) (stage : Stage I) (seat : Seat I) (s : System I)
    → lookup id s.seats ≡ some seat
    → DueAt n stage
    → Comes n id (settled id w stage k s)
settled-Comes n k id w stage seat s l d = record {
  seat = record seat { stage = stage };
  there = changed id (λ x. record x { stage = stage }) seat s.seats l;
  due = d;
}

own_left :
    (id : JobId) (n : ℕ) (x : Tick) → left_after n x ≡ (if id == id then left_after n x else n)
own_left id n x = ground (arith, ==_iff id id)

module _ {I : Type 0} (h : Host) (platform : Platform) (interp : Interpreter I) where
  module _ (n : ℕ) (id : JobId) (seat : Seat I) (e : JobEntry) (s : System I)
      (l : lookup id s.seats ≡ some seat) where
    stays : (stage : Stage I) → seat.stage ≡ stage → DueAt n stage → Comes n id s
    stays stage f d = record { seat = seat; there = l; due = subst (DueAt n) (sym f) d }

    acquire_at-Comes :
        (stage : Stage I) (k : ℕ)
        → seat.stage ≡ stage
        → DueAt n stage
        → Comes n id (acquire_at h platform interp id stage k s)
    acquire_at-Comes waiting k f d = absurd d
    acquire_at-Comes permitted k f d = absurd d
    acquire_at-Comes (running t) k f d = stays (running t) f d
    acquire_at-Comes (returned o) k f d = stays (returned o) f d

    launch_at-Comes :
        (x : Spawned) (raw : Raw) (stage : Stage I)
        → seat.stage ≡ stage
        → DueAt n stage
        → Comes n id (launch_at h platform interp id seat x raw e stage s)
    launch_at-Comes x raw waiting f d = absurd d
    launch_at-Comes x raw permitted f d = absurd d
    launch_at-Comes (child pid group) raw (running t) f d = stays (running t) f d
    launch_at-Comes (refused error) raw (running t) f d = stays (running t) f d
    launch_at-Comes (child pid group) raw (returned o) f d = stays (returned o) f d
    launch_at-Comes (refused error) raw (returned o) f d = stays (returned o) f d

    drive_at-Comes :
        (x : Tick) (stage : Stage I)
        → seat.stage ≡ stage
        → DueAt n stage
        → Comes (left_after n x) id (drive_at h platform interp id seat x e stage s)
    drive_at-Comes x waiting f d = absurd d
    drive_at-Comes x permitted f d = absurd d
    drive_at-Comes x (running t) f d = settled-Comes (left_after n x) s.permits id _ _ seat s l (
        tick-IsDue h platform interp id seat.spec n x _
          (resumed-IsDue n e.cancel t (world s e.snapshot) d))
    drive_at-Comes x (returned o) f d = record {
      seat = seat;
      there = l;
      due = subst (DueAt (left_after n x)) (sym f) tt;
    }

    leave_at-Comes :
        (stage : Stage I)
        → seat.stage ≡ stage
        → DueAt n stage
        → Comes n id (leave_at h platform interp id seat e stage s)
    leave_at-Comes waiting f d = absurd d
    leave_at-Comes permitted f d = absurd d
    leave_at-Comes (running t) f d =
        if_rule (Comes n id) (is_over t)
          (λ o. settled-Comes n (suc s.permits) id _ (returned _) seat s l tt)
          (λ o. stays (running t) f d)
    leave_at-Comes (returned o) f d = stays (returned o) f d

  pub at_some :
      (f : Seat I → JobEntry → System I → System I) (o : Option (Seat I)) (p : Option JobEntry)
      (seat : Seat I) (e : JobEntry) (s : System I)
      → o ≡ some seat
      → p ≡ some e
      → at_seat h platform interp f o p s ≡ f seat e s
  at_some f o p seat e s l m = rw (l, m) refl

  -- An action on the job itself.
  own-Comes :
      (n : ℕ) (x : Action I) (s : System I)
      → IsSound h s
      → Comes n (target h x s) s
      → Comes (left_in n (target h x s) x) (target h x s) (act h platform interp x s)
  unfolding act
  own-Comes n (Action.spawn c) s k d =
      absurd (apart _ _ d.seat s.seats d.there (k.unused s.runtime.ids (omega arith)).1 refl)
  own-Comes n (Action.cancel id) s k d = record { seat = d.seat; there = d.there; due = d.due }
  own-Comes n (Action.acquire id) s k d =
      let t = k.told id d.seat d.there in
      subst (Comes n id) (sym (at_some _ _ _ d.seat t.entry s d.there t.entered))
        (acquire_at-Comes n id d.seat t.entry s d.there d.seat.stage s.permits refl d.due)
  own-Comes n (Action.launch id x raw) s k d =
      let t = k.told id d.seat d.there in
      subst (Comes n id) (sym (at_some _ _ _ d.seat t.entry s d.there t.entered))
        (launch_at-Comes n id d.seat t.entry s d.there x raw d.seat.stage refl d.due)
  own-Comes n (Action.drive id x) s k d =
      let t = k.told id d.seat d.there in
      subst₂ (λ m u. Comes m id u) (own_left id n x)
        (sym (at_some _ _ _ d.seat t.entry s d.there t.entered))
        (drive_at-Comes n id d.seat t.entry s d.there x d.seat.stage refl d.due)
  own-Comes n (Action.leave id) s k d =
      let t = k.told id d.seat d.there in
      subst (Comes n id) (sym (at_some _ _ _ d.seat t.entry s d.there t.entered))
        (leave_at-Comes n id d.seat t.entry s d.there d.seat.stage refl d.due)

  -- An action on another job.
  other_left :
      (n : ℕ) (id : JobId) (x : Action I) (s : System I) → target h x s ≢ id → left_in n id x ≡ n
  other_left n id (Action.drive j x) s d = ground (arith, ==_iff j id, d)
  other_left n id _ s d = refl

  pub act-Comes :
      (n : ℕ) (id : JobId) (x : Action I) (s : System I)
      → IsSound h s
      → Comes n id s
      → (target h x s ≡ id) ⊎ (target h x s ≢ id)
      → Comes (left_in n id x) id (act h platform interp x s)
  act-Comes n id x s k d (inl p) =
      subst (λ i. Comes (left_in n i x) i (act h platform interp x s)) p
        (own-Comes n x s k (subst (λ i. Comes n i s) (sym p) d))
  act-Comes n id x s k d (inr f) = record {
    seat = d.seat;
    there = (act-IsApart h platform interp x s).seats id f ∙ d.there;
    due = subst (λ m. DueAt m d.seat.stage) (sym (other_left n id x s f)) d.due;
  }
