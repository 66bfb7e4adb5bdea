-- ===== src/System/Permits.antt =====
-- The permits of the semaphore of src/runtime.rs, which `drive_job` of src/runtime/driver.rs takes and
-- gives back.
use execra.Base.{
  ℕ, zero, suc, ◌+◌, ◌≤◌, ◌<◌, Option, none, some, List, [], ◌∷◌, ◌≡◌, refl, ◌∙◌, arith, ==_iff,
  if_rule,
}
use execra.Command.{Command, Platform}
use execra.Host.{Host}
use execra.Interpreter.{Interpreter}
use execra.Job.{JobId}
use execra.Driver.Loop.Drive.{Spawned, child, refused}
use execra.Driver.Loop.Run.{Tick}
use execra.Driver.Loop.Task.{is_over}
use execra.Driver.RawOutput.{Raw}
use execra.Runtime.Admission.{lookup-change}
use execra.Runtime.Jobs.{Answer, good, bad, JobEntry, Runtime, change, lookup}
use execra.System.State.{
  Stage, waiting, permitted, running, Seat, System, Action, act, acts, at_seat, acquire_at,
  launch_at, drive_at, leave_at, seated,
}

abbrev pub holds : {I : Type 0} → Stage I → ℕ
holds permitted = 1
holds (running t) = 1
holds _ = 0

-- How many drivers hold a permit.
abbrev pub holding : {I : Type 0} → List (JobId × Seat I) → ℕ
holding [] = 0
holding ((id, seat) ∷ seats) = holds seat.stage + holding seats

abbrev total : {I : Type 0} → System I → ℕ
total s = s.permits + holding s.seats

holding-change :
    {I : Type 0} (id : JobId) (stage : Stage I) (seat : Seat I) (seats : List (JobId × Seat I))
    → lookup id seats ≡ some seat
    → holding (change id (λ x. record x { stage = stage }) seats) + holds seat.stage
      ≡ holding seats + holds stage
unfolding lookup change
holding-change id stage seat [] e = ground arith
holding-change id stage seat ((i, x) ∷ seats) e = ground (arith, holding-change id stage seat seats)

-- What is left and held after the driver of `seat` has come to `stage`, with `n` permits left.
kept :
    {I : Type 0} (id : JobId) (stage : Stage I) (n : ℕ) (seat : Seat I) (s : System I)
    → lookup id s.seats ≡ some seat
    → n + holds stage ≡ s.permits + holds seat.stage
    → n + holding (change id (λ x. record x { stage = stage }) s.seats) ≡ total s
kept id stage n seat s e b = omega (arith, holding-change id stage seat s.seats e)

module _ {I : Type 0} (h : Host) (platform : Platform) (interp : Interpreter I) where
  acquire_at-total :
      (id : JobId) (stage : Stage I) (n : ℕ) (seat : Seat I) (s : System I)
      → lookup id s.seats ≡ some seat
      → seat.stage ≡ stage
      → s.permits ≡ n
      → total (acquire_at h platform interp id stage n s) ≡ total s
  acquire_at-total id stage n seat s e f g =
      ground (arith, holding-change id permitted seat s.seats e)

  launch_at-total :
      (id : JobId) (x : Spawned) (raw : Raw) (e : JobEntry) (stage : Stage I) (seat : Seat I)
      (s : System I)
      → lookup id s.seats ≡ some seat
      → seat.stage ≡ stage
      → total (launch_at h platform interp id seat x raw e stage s) ≡ total s
  launch_at-total id (child pid group) raw e permitted seat s l f =
      kept id _ s.permits seat s l (rw f refl)
  launch_at-total id (refused error) raw e permitted seat s l f =
      kept id _ (suc s.permits) seat s l (rw f (omega arith))
  launch_at-total id x raw e _ seat s l f = refl

  drive_at-total :
      (id : JobId) (x : Tick) (e : JobEntry) (stage : Stage I) (seat : Seat I) (s : System I)
      → lookup id s.seats ≡ some seat
      → seat.stage ≡ stage
      → total (drive_at h platform interp id seat x e stage s) ≡ total s
  drive_at-total id x e (running t) seat s l f = kept id _ s.permits seat s l (rw f refl)
  drive_at-total id x e _ seat s l f = refl

  leave_at-total :
      (id : JobId) (e : JobEntry) (stage : Stage I) (seat : Seat I) (s : System I)
      → lookup id s.seats ≡ some seat
      → seat.stage ≡ stage
      → total (leave_at h platform interp id seat e stage s) ≡ total s
  leave_at-total id e (running t) seat s l f =
      if_rule (λ (u : System I). total u ≡ total s) (is_over t)
        (λ o. kept id _ (suc s.permits) seat s l (rw f (omega arith))) (λ o. refl)
  leave_at-total id e _ seat s l f = refl

  at_seat-total :
      (f : Seat I → JobEntry → System I → System I) (o : Option (Seat I)) (p : Option JobEntry)
      (s : System I)
      → ((seat : Seat I) (e : JobEntry) → o ≡ some seat → total (f seat e s) ≡ total s)
      → total (at_seat h platform interp f o p s) ≡ total s
  at_seat-total f (some seat) (some e) s k = k seat e refl
  at_seat-total f none p s k = refl
  at_seat-total f (some seat) none s k = refl

  seated-total :
      (c : Command I) (a : Answer JobId × Runtime) (s : System I) → total (seated c a s) ≡ total s
  seated-total c (good id, r) s = omega arith
  seated-total c (bad e, r) s = refl

  act-total : (x : Action I) (s : System I) → total (act h platform interp x s) ≡ total s
  unfolding act
  act-total (Action.spawn c) s = seated-total c _ s
  act-total (Action.cancel id) s = refl
  act-total (Action.acquire id) s =
      at_seat-total _ (lookup id s.seats) (lookup id s.runtime.jobs) s
        (λ seat e l. acquire_at-total id seat.stage s.permits seat s l refl refl)
  act-total (Action.launch id x raw) s =
      at_seat-total _ (lookup id s.seats) (lookup id s.runtime.jobs) s
        (λ seat e l. launch_at-total id x raw e seat.stage seat s l refl)
  act-total (Action.drive id x) s =
      at_seat-total _ (lookup id s.seats) (lookup id s.runtime.jobs) s
        (λ seat e l. drive_at-total id x e seat.stage seat s l refl)
  act-total (Action.leave id) s =
      at_seat-total _ (lookup id s.seats) (lookup id s.runtime.jobs) s
        (λ seat e l. leave_at-total id e seat.stage seat s l refl)

  acts-total : (xs : List (Action I)) (s : System I) → total (acts h platform interp xs s) ≡ total s
  unfolding acts
  acts-total [] s = refl
  acts-total (x ∷ xs) s = acts-total xs _ ∙ act-total x s

  acquired_at :
      (id : JobId) (seat : Seat I) (n : ℕ) (s : System I)
      → lookup id s.seats ≡ some seat
      → 0 < n
      → lookup id (acquire_at h platform interp id waiting n s).seats
        ≡ some (record seat { stage = permitted })
  acquired_at id seat zero s l p = ground arith
  acquired_at id seat (suc n) s l p = ground (
    arith,
    lookup-change id id (λ (x : Seat I). record x { stage = permitted }) s.seats,
    ==_iff id id,
  )

  acquired :
      (id : JobId) (seat : Seat I) (e : JobEntry) (s : System I)
      → lookup id s.seats ≡ some seat
      → lookup id s.runtime.jobs ≡ some e
      → seat.stage ≡ waiting
      → 0 < s.permits
      → lookup id (act h platform interp (Action.acquire id) s).seats
        ≡ some (record seat { stage = permitted })
  unfolding act
  acquired id seat e s l m w p = rw (l, m, w) (acquired_at id seat s.permits s l p)

  -- Permits are neither lost nor made up: from a runtime without drivers on, whatever is spawned,
  -- cancelled, refused or run, in whatever order, the permits that are left and those that drivers
  -- hold are those at the start, so no more drivers run at once. And as long as fewer do, a job
  -- with an entry in the map whose driver waits is given one when it asks.
  pub acts-permits :
      (xs : List (Action I)) (s : System I)
      → s.seats ≡ []
      → let u = acts h platform interp xs s in
        (u.permits + holding u.seats ≡ s.permits)
        × (holding u.seats ≤ s.permits)
        × ((id : JobId) (seat : Seat I) (e : JobEntry)
            → lookup id u.seats ≡ some seat
            → lookup id u.runtime.jobs ≡ some e
            → seat.stage ≡ waiting
            → holding u.seats < s.permits
            → lookup id (act h platform interp (Action.acquire id) u).seats
              ≡ some (record seat { stage = permitted }))
  acts-permits xs s n =
      let u = acts h platform interp xs s in
      let t : u.permits + holding u.seats ≡ s.permits = acts-total xs s ∙ rw n (omega arith) in
      (t, omega (arith, t), λ id seat e l m w f. acquired id seat e u l m w (omega (arith, t, f)))
