-- ===== src/Store/Listing.antt =====
-- What `list_events` of src/store.rs gives after `insert_event`.
use execra.Base.{
  ℕ, suc, Text, true, false, ◌≡◌, refl, sym, ap, ◌∙◌, subst, arith, none, some, List, [], ◌∷◌, snoc,
  ==_iff, length, length-append, ◌≤◌, ◌<◌, take-all,
}
use execra.Event.{Event, job_id, at}
use execra.Host.{Host, Serde}
use execra.Job.{Job, JobId}
use execra.Store.{
  Store, job_row, upsert_job, upsert_with, Result, ok, err, ◌>>=◌, execute, insert_event,
  insert_row, insert_finding, after_event_row, is_output, list_events, decode_events, rows_of,
  schema_version, check_schema_version, Update,
}
use execra.Store.Rows.{JobRow, EventRow, event_kind}
use execra.Store.Time.{to_ms}

abbrev pub event_row : Event → Text → EventRow
event_row e payload = record {
  job_id = job_id e;
  at_ms = to_ms (at e);
  kind = event_kind e;
  payload = payload;
  schema_version = schema_version;
}

after_event_row-events :
    (h : Host) (e : Event) (u : Update) → (after_event_row h e u).1.events ≡ u.1.events
unfolding after_event_row insert_finding execute
after_event_row-events h e (err x, t) = refl
after_event_row-events h (Event.finding_emitted job f at) (ok u, t) = ground arith
after_event_row-events h e (ok u, t) = refl

insert_row-events :
    (h : Host) (e : Event) (t : Store) (payload : Text)
    → h.serde.event_to_json e ≡ some payload
    → h.runs t.statements ≡ true
    → (insert_row h e t).1.events ≡ snoc t.events (event_row e payload)
unfolding insert_row execute
insert_row-events h e t payload j w = ground (arith, after_event_row-events h e)

pub insert_event-events :
    (h : Host) (e : Event) (t : Store) (payload : Text)
    → is_output e ≡ false
    → h.serde.event_to_json e ≡ some payload
    → h.runs t.statements ≡ true
    → (insert_event h e t).1.events ≡ snoc t.events (event_row e payload)
unfolding insert_event insert_row execute
insert_event-events h e t payload o j w =
    ground (arith, after_event_row-events h e, insert_row-events h e t payload j w)

pub insert_event-output :
    (h : Host) (e : Event) (t : Store)
    → is_output e ≡ true
    → (insert_event h e t).1.events ≡ t.events
unfolding insert_event
insert_event-output h e t o = ground arith

pub insert_event-no_json :
    (h : Host) (e : Event) (t : Store)
    → is_output e ≡ false
    → h.serde.event_to_json e ≡ none
    → (insert_event h e t).1.events ≡ t.events
unfolding insert_event insert_row
insert_event-no_json h e t o j = ground arith

upsert_with-events :
    (h : Host) (r : Result JobRow) (t : Store) → (upsert_with h r t).1.events ≡ t.events
unfolding upsert_with execute
upsert_with-events h (err e) t = refl
upsert_with-events h (ok row) t = ground arith

-- `upsert_job` leaves the events alone.
pub upsert_job-events : (h : Host) (j : Job) (t : Store) → (upsert_job h j t).1.events ≡ t.events
unfolding upsert_job
upsert_job-events h j t = upsert_with-events h (job_row h.serde j) t

rows_of-snoc :
    (job : JobId) (r : EventRow) (rs : List EventRow)
    → r.job_id ≡ job
    → rows_of job (snoc rs r) ≡ snoc (rows_of job rs) r
unfolding rows_of
rows_of-snoc job r [] i = ground (arith, ==_iff r.job_id job)
rows_of-snoc job r (x ∷ rs) i = ground (arith, rows_of-snoc job r rs i)

decode_step :
    (a : Result Event) (e : Event) (b c : Result (List Event))
    → c ≡ (b >>= λ es. ok (snoc es e))
    → (a >>= λ x. c >>= λ es. ok (x ∷ es))
      ≡ ((a >>= λ x. b >>= λ es. ok (x ∷ es)) >>= λ es. ok (snoc es e))
decode_step (err x) e b c i = refl
decode_step (ok a) e (err x) c i = ap (λ c. c >>= λ es. ok (a ∷ es)) i
decode_step (ok a) e (ok es) c i = ap (λ c. c >>= λ es. ok (a ∷ es)) i

decode_events-snoc :
    (s : Serde) (r : EventRow) (e : Event) (rs : List EventRow)
    → r.schema_version ≡ schema_version
    → s.event_from_json r.payload ≡ some e
    → decode_events s (snoc rs r) ≡ (decode_events s rs >>= λ es. ok (snoc es e))
unfolding decode_events check_schema_version
decode_events-snoc s r e [] v j = ground arith
decode_events-snoc s r e (x ∷ rs) v j = decode_step _ e _ _ (decode_events-snoc s r e rs v j)

length-snoc {ℓ} : {A : Type ℓ} (xs : List A) (x : A) → length (snoc xs x) ≡ suc (length xs)
length-snoc xs x = ground (arith, length-append xs (x ∷ []))

list_events-all :
    (s : Serde) (job : JobId) (limit : ℕ) (t : Store)
    → length (rows_of job t.events) ≤ limit
    → list_events s job limit t ≡ decode_events s (rows_of job t.events)
unfolding list_events
list_events-all s job limit t l = ap (decode_events s) (take-all limit (rows_of job t.events) l)

-- An event other than output whose JSON can be made and is read back, and whose insertion SQLite runs,
-- is listed as the last event of its job from then on, after the events that were listed before, if
-- the limit leaves room for it.
pub list_events-insert_event :
    (h : Host) (e : Event) (t : Store) (payload : Text) (limit : ℕ) (es : List Event)
    → h.serde.event_from_json payload ≡ some e
    → is_output e ≡ false
    → h.serde.event_to_json e ≡ some payload
    → h.runs t.statements ≡ true
    → length (rows_of (job_id e) t.events) < limit
    → list_events h.serde (job_id e) limit t ≡ ok es
    → list_events h.serde (job_id e) limit (insert_event h e t).1 ≡ ok (snoc es e)
list_events-insert_event h e t payload limit es b o j w l d =
    let rows = rows_of (job_id e) t.events in
    let added : rows_of (job_id e) (insert_event h e t).1.events ≡ snoc rows (event_row e payload) =
      ap (rows_of (job_id e)) (insert_event-events h e t payload o j w)
      ∙ rows_of-snoc (job_id e) (event_row e payload) t.events refl in
    list_events-all h.serde (job_id e) limit (insert_event h e t).1 (
      subst (λ rs. length rs ≤ limit) (sym added)
        (ground (arith, length-snoc rows (event_row e payload))))
    ∙ ap (decode_events h.serde) added
    ∙ decode_events-snoc h.serde (event_row e payload) e rows refl b
    ∙ ap (λ x. x >>= λ es. ok (snoc es e))
        (sym (list_events-all h.serde (job_id e) limit t (ground arith)) ∙ d)
