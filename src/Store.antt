-- ===== src/Store.antt =====
-- src/store.rs: the SQLite store. A table is a list of rows in the order of insertion, and each
-- statement is the change that its SQL text makes, if the connection runs it.
pub mod Time
pub mod Rows
pub mod History
pub mod Listing
pub mod Restart
pub mod Query
pub mod Found
pub mod Open
pub mod Settled
mod Tests
use execra.Base.{
  ℕ, suc, ltb, ◌-◌, ◌%◌, ◌^◌, Text, codes, Bool, true, false, ◌≡◌, Option, none, some, List, [],
  ◌∷◌, map, snoc, take, if◌then◌else◌, ◌==◌, text_eq, ◌||◌,
}
use execra.Base.Int.{ℤ, pos, negsuc, ltb_ℤ}
use execra.Event
use execra.Event.{Event, job_id, at}
use execra.Finding.{Finding}
use execra.Host.{Host, Serde}
use execra.Job.{Job, JobId}
use execra.Outcome.{ExitCode, Outcome, failed, spawn_failed}
use execra.Progress.{unknown}
use Time.{to_ms, from_ms}
use Rows.{JobRow, EventRow, FindingRow, state_to_string, severity_to_string, event_kind}

abbrev pub schema_version : ℤ
schema_version = pos 0

pub data StoreError : Type 0 where
  sqlite serde io : StoreError
  unsupported_schema_version : ℤ → ℤ → StoreError

pub data Result (A : Type 0) : Type 0 where
  ok : A → Result A
  err : StoreError → Result A

infixl 5 ◌>>=◌
abbrev pub ◌>>=◌ : {A B : Type 0} → Result A → (A → Result B) → Result B
ok a >>= f = f a
err e >>= f = err e

-- `?` on a serde result.
abbrev pub from_serde : {A : Type 0} → Option A → Result A
from_serde none = err serde
from_serde (some a) = ok a

-- The three tables, and the number of statements executed so far.
pub record Store : Type 0 where
  pub jobs : List JobRow
  pub events : List EventRow
  pub findings : List FindingRow
  pub statements : ℕ

abbrev pub empty : Store
empty = record { jobs = []; events = []; findings = []; statements = 0 }

abbrev pub Update : Type 0
Update = Result (Unit {0}) × Store

-- One `conn.execute` that changes the tables by `change`.
pub execute : Host → (Store → Store) → Store → Update
execute h change s =
    let s' = record s { statements = suc s.statements } in
    if h.runs s.statements then (ok tt, change s') else (err sqlite, s')

-- `INSERT … ON CONFLICT(id) DO UPDATE`: the command, the tags and the time of creation stay.
pub upsert_row : JobRow → List JobRow → List JobRow
upsert_row new [] = new ∷ []
upsert_row new (r ∷ rs) =
    if r.id == new.id
    then record r {
      label = new.label;
      started_at_ms = new.started_at_ms;
      state = new.state;
      exit_code = new.exit_code;
      exit_signal = new.exit_signal;
      outcome_json = new.outcome_json;
    }
      ∷ rs
    else r ∷ upsert_row new rs

abbrev pub encode_outcome : Serde → Option Outcome → Result (Option Text)
encode_outcome s none = ok none
encode_outcome s (some o) = from_serde (s.outcome_to_json o) >>= λ t. ok (some t)

abbrev pub exit_code_of : Option ExitCode → Option ℤ
exit_code_of none = none
exit_code_of (some e) = e.code

abbrev pub exit_signal_of : Option ExitCode → Option ℤ
exit_signal_of none = none
exit_signal_of (some e) = e.signal

abbrev pub started_ms_of : Option ℤ → Option ℤ
started_ms_of none = none
started_ms_of (some t) = some (to_ms t)

pub job_row : Serde → Job → Result JobRow
job_row s job = do
  command_json ← from_serde (s.command_to_json job.command)
  outcome_json ← encode_outcome s job.outcome
  tags_json ← from_serde (s.tags_to_json job.command.tags)
  ok (record {
    id = job.id;
    command_json = command_json;
    label = job.label;
    tags_json = tags_json;
    created_at_ms = to_ms job.created_at;
    started_at_ms = started_ms_of job.started_at;
    state = state_to_string job.state;
    exit_code = exit_code_of job.exit;
    exit_signal = exit_signal_of job.exit;
    outcome_json = outcome_json;
    schema_version = schema_version;
  })

pub upsert_with : Host → Result JobRow → Store → Update
unfolding execute
upsert_with h (err e) s = (err e, s)
upsert_with h (ok row) s = execute h (λ t. record t { jobs = upsert_row row t.jobs }) s

unfoldable pub upsert_job : Host → Job → Store → Update
unfolding job_row upsert_with
upsert_job h job s = upsert_with h (job_row h.serde job) s

pub insert_finding : Host → JobId → Finding → Store → Update
unfolding execute
insert_finding h job f s = elim (h.serde.finding_to_json f) [
  | none ↦ (err serde, s)
  | some json ↦
      execute h
        (λ t. record t {
          findings = snoc t.findings (record {
            job_id = job;
            at_ms = to_ms f.at;
            code = f.code;
            severity = severity_to_string f.severity;
            finding_json = json;
          });
        })
        s
]

-- The second statement of `insert_event`, for a finding whose event row went in.
pub after_event_row : Host → Event → Update → Update
unfolding insert_finding
after_event_row h e (err x, s) = (err x, s)
after_event_row h (Event.finding_emitted job f t) (ok u, s) = insert_finding h job f s
after_event_row h _ (ok u, s) = (ok u, s)

pub insert_row : Host → Event → Store → Update
unfolding execute after_event_row job_id at
insert_row h e s = elim (h.serde.event_to_json e) [
  | none ↦ (err serde, s)
  | some payload ↦ after_event_row h e (
      execute h
        (λ t. record t {
          events = snoc t.events (record {
            job_id = job_id e;
            at_ms = to_ms (at e);
            kind = event_kind e;
            payload = payload;
            schema_version = schema_version;
          });
        })
        s)
]

abbrev pub is_output : Event → Bool
is_output (Event.output_appended job stream line t) = true
is_output _ = false

unfoldable pub insert_event : Host → Event → Store → Update
unfolding insert_row
insert_event h e s = if is_output e then (ok tt, s) else insert_row h e s

pub check_schema_version : ℤ → Result (Unit {0})
check_schema_version found =
    if ltb_ℤ schema_version found
    then err (unsupported_schema_version found schema_version)
    else ok tt

abbrev pub decode_outcome : Serde → Option Text → Result (Option Outcome)
decode_outcome s none = ok none
decode_outcome s (some j) = from_serde (s.outcome_from_json j) >>= λ o. ok (some o)

-- `exit_code.is_some() || exit_signal.is_some()`
abbrev pub exit_of : Option ℤ → Option ℤ → Option ExitCode
exit_of none none = none
exit_of none (some sig) = some (record { code = none; signal = some sig })
exit_of (some c) none = some (record { code = some c; signal = none })
exit_of (some c) (some sig) = some (record { code = some c; signal = some sig })

-- `as i32`: two's complement.
unfoldable pub as_i32 : ℤ → ℤ
as_i32 (pos n) = let r = n % 2 ^ 32 in if ltb r (2 ^ 31) then pos r else negsuc (2 ^ 32 - 1 - r)
as_i32 (negsuc n) = let r = n % 2 ^ 32 in if ltb r (2 ^ 31) then negsuc r else pos (2 ^ 32 - 1 - r)

abbrev pub cast : Option ℤ → Option ℤ
cast none = none
cast (some n) = some (as_i32 n)

abbrev pub started_of : Option ℤ → Option ℤ
started_of none = none
started_of (some ms) = some (from_ms ms)

pub build_job : Serde → JobRow → Result Job
unfolding as_i32
build_job s r = do
  command ← from_serde (s.command_from_json r.command_json)
  state ← from_serde (s.state_from_json r.state)
  outcome ← decode_outcome s r.outcome_json
  ok (record {
    id = r.id;
    command = command;
    created_at = from_ms r.created_at_ms;
    started_at = started_of r.started_at_ms;
    state = state;
    current_phase = none;
    progress = unknown;
    label = r.label;
    exit = exit_of (cast r.exit_code) (cast r.exit_signal);
    outcome = outcome;
  })

pub find_row : JobId → List JobRow → Option JobRow
find_row id [] = none
find_row id (r ∷ rs) = if r.id == id then some r else find_row id rs

pub read_row : Serde → Option JobRow → Result (Option Job)
read_row s none = ok none
read_row s (some r) =
    check_schema_version r.schema_version >>= λ u. build_job s r >>= λ job. ok (some job)

-- A query that SQLite runs.
unfoldable pub load_job : Serde → JobId → Store → Result (Option Job)
unfolding find_row read_row check_schema_version build_job
load_job s id t = read_row s (find_row id t.jobs)

pub decode_events : Serde → List EventRow → Result (List Event)
unfolding check_schema_version
decode_events s [] = ok []
decode_events s (r ∷ rs) =
    let rest = decode_events s rs in
    check_schema_version r.schema_version
    >>= (λ u. from_serde (s.event_from_json r.payload))
    >>= λ e. rest >>= λ es. ok (e ∷ es)

pub rows_of : JobId → List EventRow → List EventRow
rows_of job [] = []
rows_of job (r ∷ rs) = let rest = rows_of job rs in if r.job_id == job then r ∷ rest else rest

-- `WHERE job_id = ? ORDER BY id ASC LIMIT ?`: the key grows with each insertion.
unfoldable pub list_events : Serde → JobId → ℕ → Store → Result (List Event)
unfolding decode_events rows_of
list_events s job limit t = decode_events s (take limit (rows_of job t.events))

abbrev pub is_stranded : Text → Bool
is_stranded state =
    text_eq state (codes "queued")
    || text_eq state (codes "running")
    || text_eq state (codes "exited")

abbrev pub host_exited : Outcome
host_exited = failed (spawn_failed (codes "host process exited")) none []

pub resurrect_row : Text → JobRow → JobRow
resurrect_row json r =
    if is_stranded r.state
    then record r { state = codes "finalized"; outcome_json = some json }
    else r

unfoldable pub resurrect_stranded_jobs : Host → Store → Update
unfolding execute resurrect_row
resurrect_stranded_jobs h s = elim (h.serde.outcome_to_json host_exited) [
  | none ↦ (err serde, s)
  | some json ↦ execute h (λ t. record t { jobs = map (resurrect_row json) t.jobs }) s
]
