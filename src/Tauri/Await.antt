-- ===== src/Tauri/Await.antt =====
-- `IntoFuture` of src/tauri.rs: `.await` on a task builder, poll by poll. What the task that forwards
-- has seen by a poll is the turns that it has taken.
use execra.Base.{
  Text, Bool, true, false, Option, none, some, List, [], ◌∷◌, ◌++◌, if◌then◌else◌, ◌⊎◌, inl, inr,
}
use execra.Host.{Host}
use execra.Outcome.{Outcome, failed, spawn_failed}
use execra.Runtime.Handle.{JobHandle, Oneshot, poll, spawn_handle}
use execra.Runtime.Jobs.{Answer, Error, Runtime, bad, good}
use execra.Tauri.Forward.{Turn, is_finalized, next, timer}
use execra.Tauri.Task.{TaskBuilder, finalize_cmd, has_listener}

-- Where the future stands: at the handle, with or without a task that forwards, or at this task, with
-- the outcome.
pub data Awaiting : Type 0 where
  on_handle : JobHandle → Bool → Awaiting
  on_forwarder : Outcome → Awaiting

-- Whether the task that forwards is through after these turns.
unfoldable pub is_through : List Turn → Bool
is_through [] = false
is_through (timer at ∷ ts) = is_through ts
is_through (next none ∷ ts) = true
is_through (next (some e) ∷ ts) = let rest = is_through ts in if is_finalized e then true else rest

-- The first part of the future: it waits, or yields at once.
abbrev pub begun :
    {I O : Type 0} → (Error → Text) → TaskBuilder I O → Answer JobHandle → Awaiting ⊎ Outcome
begun to_string b (good handle) = inl (on_handle handle (has_listener b))
begun to_string b (bad e) = inr (failed (spawn_failed (to_string e)) none [])

-- An error is displayed by `to_string`.
unfoldable pub into_future :
    {I O : Type 0}
    → (Error → Text)
    → Host
    → TaskBuilder I O
    → Runtime
    → (Awaiting ⊎ Outcome) × Runtime
unfolding spawn_handle finalize_cmd
into_future to_string h b r =
    let s = spawn_handle h (finalize_cmd b).spec r in (begun to_string b s.0, s.1)

-- `forwarder.await`
unfoldable pub poll_forwarder : List Turn → Outcome → Option Outcome × Awaiting
unfolding is_through
poll_forwarder ts o = if is_through ts then (some o, on_forwarder o) else (none, on_forwarder o)

-- `handle.await`, and what comes after it in the same poll.
abbrev pub after_handle : Bool → List Turn → Option Outcome × JobHandle → Option Outcome × Awaiting
after_handle forwarded ts (none, handle) = (none, on_handle handle forwarded)
after_handle true ts (some o, handle) = poll_forwarder ts o
after_handle false ts (some o, handle) = (some o, on_handle handle false)

unfoldable pub poll_awaiting : Awaiting → Oneshot → List Turn → Option Outcome × Awaiting
unfolding poll poll_forwarder
poll_awaiting (on_handle handle forwarded) rx ts = after_handle forwarded ts (poll handle rx)
poll_awaiting (on_forwarder o) rx ts = poll_forwarder ts o

-- Polls one after the other until one is ready, each with what the receiver of the outcome gives and
-- the turns that the other task has taken since the last one: the outcome, and all turns by then.
abbrev pub or_again :
    (Awaiting → Option (Outcome × List Turn))
    → List Turn
    → Option Outcome × Awaiting
    → Option (Outcome × List Turn)
or_again go ts (none, a) = go a
or_again go ts (some o, a) = some (o, ts)

unfoldable pub await :
    Awaiting → List Turn → List (Oneshot × List Turn) → Option (Outcome × List Turn)
unfolding poll_awaiting
await a ts [] = none
await a ts ((rx, more) ∷ rest) =
    or_again (λ b. await b (ts ++ more) rest) (ts ++ more) (poll_awaiting a rx (ts ++ more))
