-- ===== src/Runtime/Polling.antt =====
-- What polling gives: `poll` of src/runtime/handle.rs and `poll_next` of src/runtime/stream.rs.
use execra.Base.{
  ℕ, zero, suc, ◌<◌, ◌≤◌, true, false, Option, none, some, List, [], ◌∷◌, ◌≡◌, refl, ap, arith,
  length, if_rule₂,
}
use execra.Event.{Event}
use execra.Job.{JobId}
use execra.Outcome.{Outcome, cancelled}
use execra.Runtime.Handle.{
  JobHandle, Oneshot, sent, dropped, waiting, Poll, ready, pending, poll, poll_next,
}
use execra.Runtime.Stream.{Received, event, lagged, is_wanted, wanted}

-- The outcomes that a handle is ready with, poll after poll.
abbrev pub with_outcome : (JobHandle → List Outcome) → Option Outcome × JobHandle → List Outcome
with_outcome go (none, handle) = go handle
with_outcome go (some o, handle) = o ∷ go handle

pub polls : List Oneshot → JobHandle → List Outcome
unfolding poll
polls [] handle = []
polls (rx ∷ rest) handle = with_outcome (polls rest) (poll handle rx)

-- The first thing that comes: the value that was sent, or a cancellation where the sender is gone.
abbrev pub first_outcome : List Oneshot → List Outcome
first_outcome [] = []
first_outcome (sent o ∷ rest) = o ∷ []
first_outcome (dropped ∷ rest) = cancelled [] ∷ []
first_outcome (waiting ∷ rest) = first_outcome rest

polls-closed : (rs : List Oneshot) (h : JobHandle) → h.outcome_rx ≡ false → polls rs h ≡ []
unfolding polls poll
polls-closed [] h c = refl
polls-closed (rx ∷ rs) h c = ground (arith, polls-closed rs h c)

-- However often a handle is polled, it is ready once: at the first poll at which the driver has sent
-- the outcome, with this outcome, or has gone without one, with a cancellation that has no findings.
-- From then on it is pending, even where the channel would give something again.
pub polls-first_outcome :
    (rs : List Oneshot) (h : JobHandle) → h.outcome_rx ≡ true → polls rs h ≡ first_outcome rs
unfolding polls poll
polls-first_outcome [] h o = refl
polls-first_outcome (sent x ∷ rs) h o =
    ground (arith, polls-closed rs (record h { outcome_rx = false }) refl)
polls-first_outcome (dropped ∷ rs) h o =
    ground (arith, polls-closed rs (record h { outcome_rx = false }) refl)
polls-first_outcome (waiting ∷ rs) h o = ground (arith, polls-first_outcome rs h o)

-- A task that polls a stream until it ends, and what it is given.
abbrev pub poll_on :
    (List (Option Received) → List Event) → Poll × List (Option Received) → List Event
poll_on go (ready none, rs) = []
poll_on go (ready (some e), rs) = e ∷ go rs
poll_on go (pending, rs) = go rs

pub poll_all : ℕ → Option JobId → List (Option Received) → List Event
unfolding poll_next
poll_all zero f rs = []
poll_all (suc n) f rs = poll_on (poll_all n f) (poll_next f rs)

abbrev pub arrived : List (Option Received) → List Received
arrived [] = []
arrived (none ∷ rs) = arrived rs
arrived (some r ∷ rs) = r ∷ arrived rs

poll_next-wanted :
    (n : ℕ) (f : Option JobId) (rs : List (Option Received))
    → length rs ≤ n
    → poll_all (suc n) f rs ≡ wanted f (arrived rs)
unfolding poll_all poll_next wanted
poll_next-wanted n f [] h = refl
poll_next-wanted zero f (r ∷ rs) h = ground arith
poll_next-wanted (suc n) f (none ∷ rs) h = poll_next-wanted n f rs (omega arith)
poll_next-wanted (suc n) f (some (lagged k) ∷ rs) h = poll_next-wanted (suc n) f rs (omega arith)
poll_next-wanted (suc n) f (some (event e) ∷ rs) h =
    if_rule₂ (λ x y. poll_on (poll_all (suc n) f) x ≡ y) (is_wanted f e) (is_wanted f e) refl
      (λ y. ap (λ es. e ∷ es) (poll_next-wanted n f rs (omega arith)))
      (λ y. poll_next-wanted (suc n) f rs (omega arith))

-- A task that polls the stream, and finds nothing yet at any of its looks, is given the same events
-- in the same order as a subscriber that waits for each: those of its job, or all without a filter.
-- One poll more than there are looks at the channel is enough to reach the end.
pub poll_all-wanted :
    (n : ℕ) (f : Option JobId) (rs : List (Option Received))
    → length rs < n
    → poll_all n f rs ≡ wanted f (arrived rs)
poll_all-wanted zero f rs h = ground arith
poll_all-wanted (suc n) f rs h = poll_next-wanted n f rs (omega arith)
