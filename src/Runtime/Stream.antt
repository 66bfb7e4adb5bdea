-- ===== src/Runtime/Stream.antt =====
-- src/runtime/stream.rs: the events that a subscriber reads.
use execra.Base.{
  ℕ, zero, suc, ◌≤◌, ◌<◌, if_rule₂, Bool, true, Option, none, some, List, [], ◌∷◌, ◌==◌,
  if◌then◌else◌, ◌≡◌, refl, ap, arith, length,
}
use execra.Event.{Event, job_id}
use execra.Job.{JobId}

-- What `BroadcastStream` gives: an event, or that events have been dropped.
pub data Received : Type 0 where
  event : Event → Received
  lagged : ℕ → Received

abbrev pub is_wanted : Option JobId → Event → Bool
is_wanted none e = true
is_wanted (some f) e = job_id e == f

-- The loop of `next`, on what the channel gives before it closes: an event, and what comes after it.
unfoldable pub next : Option JobId → List Received → Option (Event × List Received)
unfolding job_id
next f [] = none
next f (lagged n ∷ rs) = next f rs
next f (event e ∷ rs) = let rest = next f rs in if is_wanted f e then some (e, rs) else rest

-- A subscriber that calls `next` until it gives nothing.
abbrev pub read_on : (List Received → List Event) → Option (Event × List Received) → List Event
read_on go none = []
read_on go (some (e, rs)) = e ∷ go rs

unfoldable pub read_all : ℕ → Option JobId → List Received → List Event
read_all zero f rs = []
read_all (suc n) f rs = read_on (read_all n f) (next f rs)

-- The events of the job, or all where there is no filter.
unfoldable pub wanted : Option JobId → List Received → List Event
wanted f [] = []
wanted f (lagged n ∷ rs) = wanted f rs
wanted f (event e ∷ rs) = let rest = wanted f rs in if is_wanted f e then e ∷ rest else rest

next-wanted :
    (n : ℕ) (f : Option JobId) (rs : List Received)
    → length rs ≤ n
    → read_all (suc n) f rs ≡ wanted f rs
unfolding read_all next wanted
next-wanted n f [] h = refl
next-wanted n f (lagged k ∷ rs) h = next-wanted n f rs (omega arith)
next-wanted zero f (event e ∷ rs) h = ground arith
next-wanted (suc n) f (event e ∷ rs) h =
    if_rule₂ (λ x y. read_on (read_all (suc n) f) x ≡ y) (is_wanted f e) (is_wanted f e) refl
      (λ y. ap (λ es. e ∷ es) (next-wanted n f rs (omega arith)))
      (λ y. next-wanted (suc n) f rs (omega arith))

-- A subscriber that reads until nothing comes gets the events of its job in the order in which they
-- were sent, or all events if it has no filter; where events were dropped it goes on with the next
-- one. As many calls as the channel gives items, and one more, are enough.
pub read_all-wanted :
    (n : ℕ) (f : Option JobId) (rs : List Received) → length rs < n → read_all n f rs ≡ wanted f rs
read_all-wanted zero f rs h = ground arith
read_all-wanted (suc n) f rs h = next-wanted n f rs (omega arith)
