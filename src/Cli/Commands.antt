-- ===== src/Cli/Commands.antt =====
-- `ls`, `logs` and `tail` of crates/execra-cli/src/main.rs.
use execra.Base.{
  true, false, ℕ, Text, codes, Bool, Option, none, some, List, [], ◌∷◌, ◌++◌, text_eq,
  if◌then◌else◌,
}
use execra.Cli.{Attempt, ◌>>=◌, Printed, answered, stdout}
use execra.Event.{Event}
use execra.Host.{Host}
use execra.Job.{Job, JobId, JobState}
use execra.Runtime.Build.{build, builder, history}
use execra.Runtime.Query.{JobsQuery, default, limit, resolve, with_state, with_tag}
use execra.Store.{Result, list_events, ok, err}
use execra.Store.Open.{Disk, open_file}
use execra.Store.Query.{Sqlite}

pub record LsArgs : Type 0 where
  pub json : Bool
  pub tag : Option Text
  pub state : Option Text
  pub limit : ℕ

pub record TailArgs : Type 0 where
  pub json : Bool
  pub limit : ℕ
  pub job : Text

unfoldable pub parse_job_state : Text → Attempt JobState
unfolding text_eq
parse_job_state t =
    if text_eq t (codes "queued")
    then some JobState.queued
    else if text_eq t (codes "running")
    then some JobState.running
    else if text_eq t (codes "exited")
    then some JobState.exited
    else if text_eq t (codes "finalized")
    then some JobState.finalized
    else if text_eq t (codes "cancelled")
    then some JobState.cancelled
    else none

abbrev pub or_dash : Option Text → Text
or_dash none = codes "-"
or_dash (some label) = label

-- What was printed, and whether the command ended without an error.
abbrev pub Shown : Type 0
Shown = Bool × List Printed

abbrev pub one_more : Option Text → Shown → Shown
one_more none rest = (false, [])
one_more (some t) rest = (rest.0, stdout t ∷ rest.1)

-- `println!`, line after line; a text that cannot be made ends the command.
unfoldable pub print_all : {A : Type 0} → (A → Option Text) → List A → Shown
print_all to_text [] = (true, [])
print_all to_text (a ∷ more) = one_more (to_text a) (print_all to_text more)

abbrev pub shown : Attempt Shown → Shown
shown none = (false, [])
shown (some s) = s

abbrev pub tagged : Option Text → JobsQuery → JobsQuery
tagged none q = q
tagged (some t) q = with_tag t q

abbrev pub in_state : Option Text → JobsQuery → Attempt JobsQuery
in_state none q = some q
in_state (some t) q = parse_job_state t >>= λ s. some (with_state s q)

abbrev pub listed : {A : Type 0} → Result A → Attempt A
listed (err e) = none
listed (ok a) = some a

-- What `logs` looks up: whether a path exists, its text, and the text that it unpacks to.
pub record Logs : Type 0 where
  pub exists : Text → Bool
  pub read_to_string : Text → Option Text
  pub gunzip : Text → Option Text

-- The JSON of serde, `{}` of an id and `{:?}` of a state and an event, and `Uuid::parse_str`.
pub record Display : Type 0 where
  pub job_to_json : Job → Option Text
  pub event_to_json : Event → Option Text
  pub show_id : JobId → Text
  pub debug_state : JobState → Text
  pub debug_event : Event → Text
  pub parse_id : Text → Option JobId
  pub log_path : JobId → Text

module _ (w : Display) where
  open w use {job_to_json, event_to_json, show_id, debug_state, debug_event, parse_id, log_path}

  abbrev pub tab : Text
  tab = 9 ∷ []

  abbrev pub job_line : Job → Text
  job_line j = show_id j.id ++ tab ++ debug_state j.state ++ tab ++ or_dash j.label

  unfoldable pub print_jobs : Bool → List Job → Shown
  unfolding print_all
  print_jobs json js =
      if json then print_all job_to_json js else print_all (λ j. some (job_line j)) js

  unfoldable pub ls : Option ℕ → Disk → Sqlite → Host → Text → LsArgs → Shown
  unfolding history build parse_job_state resolve print_jobs
  ls cores d q h db a = shown (do
    rt ← answered (build cores d q h (history db builder))
    query ← in_state a.state (tagged a.tag (limit a.limit default))
    jobs ← answered (resolve q h.serde query rt.runtime)
    some (print_jobs a.json jobs))

  unfoldable pub logs : Logs → Text → Attempt Text
  logs files job = do
    id ← parse_id job
    let plain = log_path id
    let gz = plain ++ codes ".gz"
    if files.exists plain
        then files.read_to_string plain
        else if files.exists gz
        then files.gunzip gz
        else none

  unfoldable pub print_events : Bool → List Event → Shown
  unfolding print_all
  print_events json es =
      if json then print_all event_to_json es else print_all (λ e. some (debug_event e)) es

  unfoldable pub tail : Disk → Host → Text → TailArgs → Shown
  unfolding open_file list_events print_events
  tail d h db a = shown (do
    id ← parse_id a.job
    s ← listed (open_file d h db)
    events ← listed (list_events h.serde id a.limit s)
    some (print_events a.json events))
