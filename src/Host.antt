-- ===== src/Host.antt =====
-- What the code takes from outside the repository: the clocks, fresh UUIDs, serde_json, lossy UTF-8
-- and whether each SQLite statement runs. Nothing is assumed of these values here; a theorem that
-- relies on documented behaviour names it as a hypothesis.
use execra.Base.{
  ℕ, Text, Bool, false, Option, some, List, ◌≡◌, any, ◌==◌, codes, if◌then◌else◌, text_eq, none,
}
use execra.Command.{CommandSpec, Duration}
use execra.Event.{Event}
use execra.Finding.{Finding, SystemTime}
use execra.Job.{JobState}
use execra.Outcome.{Outcome}

-- `serde_json::to_string` and `from_str` at the types that are stored; `state_from_json` is given the
-- text that stands between the quotes of a JSON string.
pub record Serde : Type 0 where
  pub event_to_json : Event → Option Text
  pub event_from_json : Text → Option Event
  pub command_to_json : CommandSpec → Option Text
  pub command_from_json : Text → Option CommandSpec
  pub tags_to_json : List Text → Option Text
  pub state_from_json : Text → Option JobState
  pub outcome_to_json : Outcome → Option Text
  pub outcome_from_json : Text → Option Outcome
  pub finding_to_json : Finding → Option Text

abbrev pub backslash : ℕ
backslash = 92

-- The k-th call of `SystemTime::now` returns `now k`, and so on.
pub record Host : Type 0 where
  pub now : ℕ → SystemTime
  pub elapsed : ℕ → Duration
  pub new_id : ℕ → ℕ
  pub runs : ℕ → Bool
  pub from_utf8_lossy : List ℕ → Text
  pub serde : Serde

-- The state of which this is the serde name.
unfoldable pub state_from_string : Text → Option JobState
unfolding text_eq
state_from_string t =
    if text_eq t (codes "queued")
    then some JobState.queued
    else if text_eq t (codes "running")
    then some JobState.running
    else if text_eq t (codes "exited")
    then some JobState.exited
    else if text_eq t (codes "finalized")
    then some JobState.finalized
    else if text_eq t (codes "cancelled")
    then some JobState.cancelled
    else none

abbrev pub is_escaped : Text → Bool
is_escaped t = any (λ b. b == backslash) t

-- A JSON string without a backslash stands for the text between its quotes.
abbrev pub ReadsPlain : Serde → Type 0
ReadsPlain s = (t : Text) → is_escaped t ≡ false → s.state_from_json t ≡ state_from_string t

-- What is written of a command and an outcome is read back. (An event is not always read back: a fraction that is not
-- finite is written as `null`.)
pub record IsFaithful (s : Serde) : Type 0 where
  pub state_plain : ReadsPlain s
  pub command_back :
      (c : CommandSpec) (t : Text) → s.command_to_json c ≡ some t → s.command_from_json t ≡ some c
  pub outcome_back :
      (o : Outcome) (t : Text) → s.outcome_to_json o ≡ some t → s.outcome_from_json t ≡ some o
