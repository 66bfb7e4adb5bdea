-- ===== src/Runtime/Handle.antt =====
-- src/runtime/handle.rs, and `poll_next` of src/runtime/stream.rs. A receiver of the broadcast channel
-- is the number of events that were sent before it subscribed.
use execra.Base.{
  ℕ, zero, suc, ◌+◌, ◌-◌, ◌≤◌, ◌≡◌, refl, arith, length-drop, Bool, true, false, Option, none, some,
  List, [], ◌∷◌, length, drop, map, if◌then◌else◌,
}
use execra.Command.{CommandSpec}
use execra.Event.{Event}
use execra.Host.{Host}
use execra.Job.{JobId}
use execra.Outcome.{Outcome, cancelled}
use execra.Runtime.Jobs
use execra.Runtime.Jobs.{Answer, Error, Runtime, bad, good, spawn}
use execra.Runtime.Stream.{Received, event, lagged, is_wanted}

-- `outcome_rx` tells whether the receiver of the outcome is still there.
pub record JobHandle : Type 0 where
  pub id : JobId
  pub outcome_rx : Bool
  pub initial_rx : Option ℕ

abbrev pub handle_from : ℕ → Answer JobId → Answer JobHandle
handle_from sent (bad e) = bad e
handle_from sent (good id) = good (record { id = id; outcome_rx = true; initial_rx = some sent })

-- `Runtime::spawn`, with its handle: `events_tx.subscribe()` comes before the first event is sent.
unfoldable pub spawn_handle : Host → CommandSpec → Runtime → Answer JobHandle × Runtime
unfolding spawn
spawn_handle h spec r = let s = spawn h spec r in (handle_from (length r.sent) s.0, s.1)

unfoldable pub cancel : JobHandle → Runtime → Answer (Unit {0}) × Runtime
unfolding Jobs.cancel
cancel handle r = Jobs.cancel handle.id r

pub record EventStream : Type 0 where
  pub rx : ℕ
  pub filter : Option JobId

abbrev pub taken_or : Option ℕ → ℕ → ℕ
taken_or none now = now
taken_or (some rx) now = rx

unfoldable pub subscribe : JobHandle → Runtime → EventStream × JobHandle
subscribe handle r = (
  record { rx = taken_or handle.initial_rx (length r.sent); filter = some handle.id },
  record handle { initial_rx = none },
)

-- `Runtime::subscribe` and `Runtime::subscribe_job`
unfoldable pub subscribe_all : Runtime → EventStream
subscribe_all r = record { rx = length r.sent; filter = none }

unfoldable pub subscribe_job : JobId → Runtime → EventStream
subscribe_job id r = record { rx = length r.sent; filter = some id }

-- What a receiver is given of the events that have been sent, if it keeps up with them: it takes each
-- before as many more are sent as the channel holds. Runtime/Channel has every order of sends and takes.
abbrev pub received : EventStream → List Event → List Received
received s sent = map event (drop s.rx sent)

-- `broadcast::channel(1024)`
abbrev pub capacity : ℕ
capacity = 1024

abbrev pub lagging : ℕ → List Received → List Received
lagging zero rs = rs
lagging (suc n) rs = lagged (suc n) ∷ rs

-- What a receiver is given that has taken nothing yet when these events have been sent: the last ones,
-- as many as the channel holds, after the number of those that it has missed.
abbrev pub retained : EventStream → List Event → List Received
retained s sent =
    let unread = drop s.rx sent in
    let missed = length unread - capacity in lagging missed (map event (drop missed unread))

retained_all :
    (n : ℕ) (unread : List Event) → n ≡ 0 → lagging n (map event (drop n unread)) ≡ map event unread
retained_all zero unread e = refl
retained_all (suc n) unread e = ground arith

-- A receiver that has missed nothing is given all.
pub retained-received :
    (s : EventStream) (sent : List Event)
    → length sent ≤ s.rx + capacity
    → retained s sent ≡ received s sent
retained-received s sent l =
    retained_all (length (drop s.rx sent) - capacity) (drop s.rx sent)
      (omega (arith, length-drop s.rx sent))

-- A poll of the outcome's receiver: a value, the sender has been dropped, or nothing yet.
pub data Oneshot : Type 0 where
  sent : Outcome → Oneshot
  dropped waiting : Oneshot

-- `poll`: none is `Poll::Pending`.
unfoldable pub poll : JobHandle → Oneshot → Option Outcome × JobHandle
poll handle rx = if handle.outcome_rx then poll_rx rx else (none, handle)
  where
    poll_rx : Oneshot → Option Outcome × JobHandle
    poll_rx (sent o) = (some o, record handle { outcome_rx = false })
    poll_rx dropped = (some (cancelled []), record handle { outcome_rx = false })
    poll_rx waiting = (none, handle)

-- What a poll of a stream gives.
pub data Poll : Type 0 where
  ready : Option Event → Poll
  pending : Poll

-- The loop of `poll_next`, on what the channel gives at each look, nothing yet included, before it
-- closes.
unfoldable pub poll_next : Option JobId → List (Option Received) → Poll × List (Option Received)
poll_next f [] = (ready none, [])
poll_next f (none ∷ rs) = (pending, rs)
poll_next f (some (lagged n) ∷ rs) = poll_next f rs
poll_next f (some (event e) ∷ rs) =
    let rest = poll_next f rs in if is_wanted f e then (ready (some e), rs) else rest
