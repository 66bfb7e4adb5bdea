-- ===== src/Runtime/Channel.antt =====
-- A receiver of the broadcast channel of src/runtime.rs while events are sent and taken in any order,
-- and why `received` of Runtime/Handle is what it is given if it keeps up.
use execra.Base.{
  ℕ, zero, suc, ◌-◌, Bool, true, ◌&&◌, Option, none, some, List, [], ◌∷◌, ◌++◌, append_assoc,
  append-nil, map, length, drop, snoc, ltb, ◌≡◌, sym, ap, ◌∙◌, arith, if◌then◌else◌, length-append,
  subst,
}
use execra.Event.{Event}
use execra.Job.{JobId}
use execra.Runtime.Handle.{capacity, lagging, received}
use execra.Runtime.Subscribed.{drop-append}
use execra.Runtime.Stream.{Received, event, lagged}

-- The events that it has not taken, oldest first, and how many it has missed since the last that it
-- took.
pub record Receiver : Type 0 where
  pub missed : ℕ
  pub unread : List Event

pub data Move : Type 0 where
  send : Event → Move
  take : Move

-- A full channel drops the oldest event.
abbrev pub on_send : Event → Receiver → Receiver
on_send e r =
    if ltb (length r.unread) capacity
    then record r { unread = snoc r.unread e }
    else record { missed = suc r.missed; unread = drop 1 (snoc r.unread e) }

-- It is told first what it has missed.
abbrev pub on_take : ℕ → List Event → Option Received × Receiver
on_take (suc n) es = (some (lagged (suc n)), record { missed = 0; unread = es })
on_take zero [] = (none, record { missed = 0; unread = [] })
on_take zero (e ∷ es) = (some (event e), record { missed = 0; unread = es })

abbrev pub given : (Receiver → List Received) → Option Received × Receiver → List Received
given go (none, r) = go r
given go (some x, r) = x ∷ go r

-- All that it is given: on these moves, and then until nothing is left.
unfoldable pub gives : List Move → Receiver → List Received
gives [] r = lagging r.missed (map event r.unread)
gives (send e ∷ ms) r = gives ms (on_send e r)
gives (take ∷ ms) r = given (gives ms) (on_take r.missed r.unread)

abbrev pub sends : List Move → List Event
sends [] = []
sends (send e ∷ ms) = e ∷ sends ms
sends (take ∷ ms) = sends ms

-- From as many unread events on, an event is sent only where the channel has room for it.
abbrev pub keeps_up : ℕ → List Move → Bool
keeps_up n [] = true
keeps_up n (send e ∷ ms) = ltb n capacity && keeps_up (suc n) ms
keeps_up n (take ∷ ms) = keeps_up (n - 1) ms

on_send-kept :
    (e : Event) (es : List Event)
    → ltb (length es) capacity ≡ true
    → on_send e (record { missed = 0; unread = es }) ≡ record { missed = 0; unread = snoc es e }
on_send-kept e es k = ground arith

length-snoc : (es : List Event) (e : Event) → length (snoc es e) ≡ suc (length es)
length-snoc es e = ground (arith, length-append es (e ∷ []))

gives-unread :
    (ms : List Move) (es : List Event)
    → keeps_up (length es) ms ≡ true
    → gives ms (record { missed = 0; unread = es }) ≡ map event (es ++ sends ms)
unfolding gives
gives-unread [] es k = ap (map event) (sym (append-nil es))
gives-unread (take ∷ ms) [] k = gives-unread ms [] k
gives-unread (take ∷ ms) (e ∷ es) k =
    let one_less : suc (length es) - 1 ≡ length es = omega arith in
    ap (λ rs. event e ∷ rs) (gives-unread ms es (subst (λ n. keeps_up n ms ≡ true) one_less k))
gives-unread (send e ∷ ms) es k =
    ap (gives ms) (on_send-kept e es (ground (arith, k)))
    ∙ gives-unread ms (snoc es e)
        (subst (λ n. keeps_up n ms ≡ true) (sym (length-snoc es e)) (ground (arith, k)))
    ∙ ap (map event) (append_assoc es (e ∷ []) (sends ms))

-- A receiver that subscribes after `pre` and takes the events, in whatever order sends and takes come,
-- before the channel is full, is given what `received` says of all that has been sent.
gives-received :
    (f : Option JobId) (pre : List Event) (ms : List Move)
    → keeps_up 0 ms ≡ true
    → gives ms (record { missed = 0; unread = [] })
      ≡ received (record { rx = length pre; filter = f }) (pre ++ sends ms)
gives-received f pre ms k = gives-unread ms [] k ∙ ap (map event) (sym (drop-append pre (sends ms)))
