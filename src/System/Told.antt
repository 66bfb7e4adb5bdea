-- ===== src/System/Told.antt =====
-- What the channel and the map of jobs show of every job of the runtime, in every order of what
-- happens to them.
use execra.Base.{
  ℕ, ◌≤◌, none, some, List, [], ◌∷◌, ◌≡◌, ◌≢◌, sym, ap, subst, subst₂, ◌∙◌, arith, ==_iff, ◌⊎◌, inl,
  inr,
}
use execra.Base.Sorted.{filter}
use execra.Event.{Event}
use execra.Finding.{SystemTime}
use execra.Host.{Host}
use execra.Job.{JobId}
use execra.Driver.World.{World}
use execra.Runtime.Admission.{lookup-change}
use execra.Runtime.Jobs.{JobEntry, change, lookup, queued_job}
use execra.Runtime.Subscribed.{of_job}
use execra.System.Projection.{some_same}
use execra.System.Seats.{AtStage, IsStep}
use execra.System.State.{Stage, waiting, permitted, Seat, System, settled, with_snapshot}

-- A job with a driver: its entry, its events from its creation on, and where it stands.
pub record IsTold {I : Type 0} (s : System I) (id : JobId) (seat : Seat I) : Type 0 where
  pub entry : JobEntry
  pub at : SystemTime
  pub since : List Event
  pub entered : lookup id s.runtime.jobs ≡ some entry
  pub own : filter (of_job id) s.runtime.sent ≡ Event.job_created id seat.spec at ∷ since
  pub stands : AtStage id (queued_job id seat.spec at) since entry.snapshot seat.stage

-- All jobs with a driver are told; and ids that have not been given yet are of no job.
pub record IsSound {I : Type 0} (h : Host) (s : System I) : Type 0 where
  pub told : (id : JobId) (seat : Seat I) → lookup id s.seats ≡ some seat → IsTold s id seat
  pub unused :
      (n : ℕ)
      → s.runtime.ids ≤ n
      → (filter (of_job (h.new_id n)) s.runtime.sent ≡ []) × (lookup (h.new_id n) s.seats ≡ none)

-- The entries of the map after a change of one, at that one and at the others.
pub changed :
    {A : Type 0} (id : JobId) (f : A → A) (a : A) (js : List (JobId × A))
    → lookup id js ≡ some a
    → lookup id (change id f js) ≡ some (f a)
changed id f a js e = ground (arith, lookup-change id id f js, ==_iff id id)

pub unchanged :
    {A : Type 0} (id k : JobId) (f : A → A) (js : List (JobId × A))
    → id ≢ k
    → lookup k (change id f js) ≡ lookup k js
unchanged id k f js n = ground (arith, lookup-change id k f js, ==_iff id k)

pub same_or_not : (a b : ℕ) → (a ≡ b) ⊎ (a ≢ b)
same_or_not a b = ground (arith, ==_iff a b)

pub apart :
    {A : Type 0} (id j : JobId) (a : A) (js : List (JobId × A))
    → lookup id js ≡ some a
    → lookup j js ≡ none
    → id ≢ j
apart id j a js e n = λ p. cc

module _ {I : Type 0} (h : Host) where
  settled_own :
      (id : JobId) (w : World) (stage : Stage I) (n : ℕ) (s : System I) (seat x : Seat I)
      (t : IsTold s id seat)
      → IsStep id
          (queued_job id seat.spec t.at)
          (Event.job_created id seat.spec t.at)
          s.runtime.sent
          w
          stage
      → record seat { stage = stage } ≡ x
      → IsTold (settled id w stage n s) id x
  settled_own id w stage n s seat x t step e =
      subst (IsTold (settled id w stage n s) id) e (record {
        entry = with_snapshot w.snapshot t.entry;
        at = t.at;
        since = step.since;
        entered = changed id (with_snapshot w.snapshot) t.entry s.runtime.jobs t.entered;
        own = step.own;
        stands = step.stands;
      })

  settled_other :
      (id k : JobId) (w : World) (stage : Stage I) (n : ℕ) (s : System I) (seat : Seat I)
      → id ≢ k
      → filter (of_job k) w.sent ≡ filter (of_job k) s.runtime.sent
      → IsTold s k seat
      → IsTold (settled id w stage n s) k seat
  settled_other id k w stage n s seat d o t = record {
    entry = t.entry;
    at = t.at;
    since = t.since;
    entered = unchanged id k (with_snapshot w.snapshot) s.runtime.jobs d ∙ t.entered;
    own = o ∙ t.own;
    stands = t.stands;
  }

  abbrev staged : Stage I → Seat I → Seat I
  staged stage seat = record seat { stage = stage }

  -- What a step of the driver of `id` leaves of the job `j`, be it the same or another.
  settled_any :
      (id j : JobId) (w : World) (stage : Stage I) (n : ℕ) (s : System I) (seat x : Seat I)
      (t : IsTold s id seat)
      → lookup id s.seats ≡ some seat
      → IsStep id
          (queued_job id seat.spec t.at)
          (Event.job_created id seat.spec t.at)
          s.runtime.sent
          w
          stage
      → IsSound h s
      → lookup j (change id (staged stage) s.seats) ≡ some x
      → (id ≡ j) ⊎ (id ≢ j)
      → IsTold (settled id w stage n s) j x
  settled_any id j w stage n s seat x t l step k e (inl p) =
      subst (λ j. IsTold (settled id w stage n s) j x) p
        (settled_own id w stage n s seat x t step (
          some_same (
            sym (changed id (staged stage) seat s.seats l)
            ∙ ap (λ i. lookup i (change id (staged stage) s.seats)) p
            ∙ e)))
  settled_any id j w stage n s seat x t l step k e (inr d) =
      settled_other id j w stage n s x d (step.others j d)
        (k.told j x (sym (unchanged id j (staged stage) s.seats d) ∙ e))

  pub settled-IsSound :
      (id : JobId) (w : World) (stage : Stage I) (n : ℕ) (s : System I) (seat : Seat I)
      (t : IsTold s id seat)
      → lookup id s.seats ≡ some seat
      → IsStep id
          (queued_job id seat.spec t.at)
          (Event.job_created id seat.spec t.at)
          s.runtime.sent
          w
          stage
      → IsSound h s
      → IsSound h (settled id w stage n s)
  settled-IsSound id w stage n s seat t l step k = record {
    told = λ j x e. settled_any id j w stage n s seat x t l step k e (same_or_not id j);
    unused = λ m b.
        let u = k.unused m b in
        let d = apart id (h.new_id m) seat s.seats l u.1 in
        (
          step.others (h.new_id m) d ∙ u.0,
          unchanged id (h.new_id m) (staged stage) s.seats d ∙ u.1,
        );
  }

  -- A permit changes nothing that is told.
  permitted-IsTold :
      (id j : JobId) (n : ℕ) (s : System I) (seat x : Seat I)
      → lookup id s.seats ≡ some seat
      → seat.stage ≡ waiting
      → IsSound h s
      → lookup j (change id (staged permitted) s.seats) ≡ some x
      → (id ≡ j) ⊎ (id ≢ j)
      → IsTold s j x
  permitted-IsTold id j n s seat x l f k e (inl p) =
      let t = k.told id seat l in
      subst₂ (λ j x. IsTold s j x) p
        (some_same (
          sym (changed id (staged permitted) seat s.seats l)
          ∙ ap (λ i. lookup i (change id (staged permitted) s.seats)) p
          ∙ e))
        (record {
          entry = t.entry;
          at = t.at;
          since = t.since;
          entered = t.entered;
          own = t.own;
          stands =
              subst (AtStage id (queued_job id seat.spec t.at) t.since t.entry.snapshot) f t.stands;
        })
  permitted-IsTold id j n s seat x l f k e (inr d) =
      k.told j x (sym (unchanged id j (staged permitted) s.seats d) ∙ e)

  pub permitted-IsSound :
      (id : JobId) (n : ℕ) (s : System I) (seat : Seat I)
      → lookup id s.seats ≡ some seat
      → seat.stage ≡ waiting
      → IsSound h s
      → IsSound h (record s { permits = n; seats = change id (staged permitted) s.seats })
  permitted-IsSound id n s seat l f k = record {
    told = λ j x e.
        let t = permitted-IsTold id j n s seat x l f k e (same_or_not id j) in
        record {
          entry = t.entry;
          at = t.at;
          since = t.since;
          entered = t.entered;
          own = t.own;
          stands = t.stands;
        };
    unused = λ m b.
        let u = k.unused m b in
        let d = apart id (h.new_id m) seat s.seats l u.1 in
        (u.0, unchanged id (h.new_id m) (staged permitted) s.seats d ∙ u.1);
  }
