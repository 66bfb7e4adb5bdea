-- ===== src/System/Finishing.antt =====
-- The end of a job among the others: no order of what happens to the runtime keeps a driver that is
-- polled from its end.
use execra.Base.{ℕ, ◌≤◌, some, List, [], ◌∷◌, ◌≡◌, inr, refl, sym, subst, arith, if_rule}
use execra.Command.{Platform}
use execra.Host.{Host}
use execra.Interpreter.{Interpreter}
use execra.Job.{JobId}
use execra.Outcome.{Outcome}
use execra.Driver.Due.{due-is_over}
use execra.Driver.Ending.{IsEnding, work}
use execra.Driver.Loop.Task.{Task, is_over}
use execra.Runtime.Jobs.{JobEntry, lookup}
use execra.System.Coming.{
  Comes, DueAt, act-Comes, at_some, left_all, left_in, polls_of, polls_suffice,
}
use execra.System.Apart.{target}
use execra.System.Reached.{act-IsSound, acts-IsSound, empty-IsSound}
use execra.System.State.{
  Stage, waiting, permitted, running, returned, Seat, System, Action, act, acts, leave_at,
}
use execra.System.Told.{IsSound, changed, same_or_not}

-- The driver of the job has given an outcome.
abbrev pub IsReturned : {I : Type 0} → JobId → System I → Type 0
IsReturned {I} id s =
    (seat : Seat I) × (o : Outcome) × (lookup id s.seats ≡ some seat) × (seat.stage ≡ returned o)

module _ {I : Type 0} (h : Host) (platform : Platform) (interp : Interpreter I) where
  module _ (distinct : (m n : ℕ) → h.new_id m ≡ h.new_id n → m ≡ n) where
    acts-Comes :
        (n : ℕ) (id : JobId) (xs : List (Action I)) (s : System I)
        → IsSound h s
        → Comes n id s
        → Comes (left_all n id xs) id (acts h platform interp xs s)
    unfolding acts
    acts-Comes n id [] s k d = d
    acts-Comes n id (x ∷ xs) s k d =
        acts-Comes (left_in n id x) id xs (act h platform interp x s)
          (act-IsSound h distinct platform interp x s k)
          (act-Comes h platform interp n id x s k d (same_or_not (target h x s) id))

  -- A driver that is due at once has left the loop when it is to.
  leave_at-IsReturned :
      (id : JobId) (seat : Seat I) (e : JobEntry) (s : System I)
      → lookup id s.seats ≡ some seat
      → (stage : Stage I) → seat.stage ≡ stage
      → DueAt 0 stage
      → IsReturned id (leave_at h platform interp id seat e stage s)
  leave_at-IsReturned id seat e s l waiting f d = absurd d
  leave_at-IsReturned id seat e s l permitted f d = absurd d
  leave_at-IsReturned id seat e s l (returned o) f d = (seat, o, l, f)
  leave_at-IsReturned id seat e s l (running t) f d =
      let o = due-is_over h platform interp id seat.spec t d in
      if_rule (IsReturned id) (is_over t)
        (λ y. (
          record seat { stage = returned _ },
          _,
          changed id (λ x. record x { stage = returned _ }) seat s.seats l,
          refl,
        ))
        (λ y. cc)

  -- No job is kept from its end: in any state that the runtime gets to, once both pipes of a
  -- running job have ended and its wait task has reported or is gone, then whatever happens, to
  -- this job and to the others, in any order, if the job's driver is polled as often as there are
  -- unread bytes, half-read bytes and enabled branches of it together, it has returned with an
  -- outcome when it leaves the loop. It is for job ids that are distinct.
  pub acts_finish :
      (distinct : (m n : ℕ) → h.new_id m ≡ h.new_id n → m ≡ n) (xs ys : List (Action I))
      (s : System I) (id : JobId) (seat : Seat I) (t : Task I)
      → s.seats ≡ []
      → s.runtime.sent ≡ []
      → lookup id (acts h platform interp xs s).seats ≡ some seat
      → seat.stage ≡ running t
      → IsEnding t
      → work t ≤ polls_of id ys
      → IsReturned id (
          act h platform interp
            (Action.leave id)
            (acts h platform interp ys (acts h platform interp xs s)))
  unfolding act
  acts_finish distinct xs ys s id seat t n o l f e b =
      let r = acts h platform interp xs s in
      let u = acts h platform interp ys r in
      let sound =
        acts-IsSound h distinct platform interp xs s
          (empty-IsSound h distinct platform interp s n o) in
      let sound' = acts-IsSound h distinct platform interp ys r sound in
      let comes = acts-Comes distinct (work t) id ys r sound (record {
        seat = seat;
        there = l;
        due = subst (DueAt (work t)) (sym f) (inr (e, omega arith));
      }) in
      let told = sound'.told id comes.seat comes.there in
      subst (IsReturned id)
        (sym (at_some h platform interp _ _ _ comes.seat told.entry u comes.there told.entered))
        (leave_at-IsReturned id comes.seat told.entry u comes.there comes.seat.stage refl
          (subst (λ m. DueAt m comes.seat.stage) (polls_suffice ys (work t) id b) comes.due))
