-- ===== src/Runtime/Stored.antt =====
-- What `JobsQuery::run` of src/runtime/query.rs answers where the runtime has a store.
use execra.Base.{
  ℕ, ◌+◌, ◌^◌, ◌<◌, ◌≤◌, Text, Bool, true, false, ◌&&◌, not, ◌≡◌, refl, sym, ap, ◌∙◌, arith, Option,
  none, some, List, [], ◌∷◌, length, text_eq, text_eq_sound, if◌then◌else◌, zero, suc, subst,
  ==_iff, Bool-cases, inl, inr,
}
use execra.Base.Int.{ℤ, pos, leb_ℤ, ltb_ℤ}
use execra.Base.Sorted.{count, is_sorted}
use execra.Finding.{SystemTime}
use execra.Host.{ReadsPlain, Serde, state_from_string}
use execra.Job.{Job, JobState}
use execra.Runtime.Jobs.{Runtime, good}
use execra.Runtime.Query.{
  JobsQuery, after_fits, before_fits, filter_of, ask, from_store, limit_or_100, matches, resolve,
  same_state, state_fits, state_index,
}
use execra.Store.{Store, Result, ok, err}
use execra.Store.Found.{
  created, holds, list_jobs_lem, list_jobs-total, unreadable, reads, read_lem, unlisted,
}
use execra.Store.Query.{
  Sqlite, IsOrdering, after_clause, before_clause, state_clause, tag_clause, row_fits, read,
}
use execra.Store.Rows.{JobRow, escaped, state_to_string, state_from_string-state_to_string}
use execra.Store.Time.{to_ms, from_ms}

abbrev pub whole_ms : Option SystemTime → Option SystemTime
whole_ms none = none
whole_ms (some t) = some (from_ms (to_ms t))

-- The query but for its tag, with bounds in whole milliseconds.
abbrev pub stored_query : JobsQuery → JobsQuery
stored_query q = record q {
  tag = none;
  created_after = whole_ms q.created_after;
  created_before = whole_ms q.created_before;
}

-- A column whose time can be read back.
abbrev pub is_ms : ℤ → Bool
is_ms ms = leb_ℤ (pos 0) ms

abbrev pub bound_is_ms : Option SystemTime → Bool
bound_is_ms none = true
bound_is_ms (some t) = is_ms (to_ms t)

from_ms-order :
    (a b : ℤ) → is_ms a ≡ true → is_ms b ≡ true → not (ltb_ℤ (from_ms b) (from_ms a)) ≡ leb_ℤ a b
unfolding from_ms
from_ms-order a b h k = ground arith

after_lem :
    (t : Option SystemTime) (r : JobRow)
    → bound_is_ms t ≡ true
    → is_ms r.created_at_ms ≡ true
    → after_fits (whole_ms t) (from_ms r.created_at_ms) ≡ after_clause t r
after_lem none r h k = refl
after_lem (some t) r h k = from_ms-order (to_ms t) r.created_at_ms h k

before_lem :
    (t : Option SystemTime) (r : JobRow)
    → bound_is_ms t ≡ true
    → is_ms r.created_at_ms ≡ true
    → before_fits (whole_ms t) (from_ms r.created_at_ms) ≡ before_clause t r
before_lem none r h k = refl
before_lem (some t) r h k = from_ms-order r.created_at_ms (to_ms t) k h

state_of : ℕ → JobState
state_of zero = JobState.queued
state_of (suc zero) = JobState.running
state_of (suc (suc zero)) = JobState.exited
state_of (suc (suc (suc zero))) = JobState.finalized
state_of (suc (suc (suc (suc n)))) = JobState.cancelled

state_of-state_index : (s : JobState) → state_of (state_index s) ≡ s
unfolding state_of
state_of-state_index JobState.queued = refl
state_of-state_index JobState.running = refl
state_of-state_index JobState.exited = refl
state_of-state_index JobState.finalized = refl
state_of-state_index JobState.cancelled = refl

same_state_sound : (a b : JobState) → same_state a b ≡ true → a ≡ b
same_state_sound a b e =
    sym (state_of-state_index a)
    ∙ ap state_of ((==_iff (state_index a) (state_index b)).0 e)
    ∙ state_of-state_index b

same_state_refl : (a : JobState) → same_state a a ≡ true
same_state_refl a = ground arith

state_column_text :
    (t : Text) (s : JobState) → state_from_string t ≡ some s → text_eq t (state_to_string s) ≡ true
unfolding state_from_string state_to_string
state_column_text t JobState.queued e = ground arith
state_column_text t JobState.running e = ground arith
state_column_text t JobState.exited e = ground arith
state_column_text t JobState.finalized e = ground arith
state_column_text t JobState.cancelled e = ground arith

some_inj : {A : Type 0} {a b : A} → some a ≡ some b → a ≡ b
some_inj e = cc

-- A column that is read as a state is that state's text, and no other state's.
state_column :
    (t : Text) (s want : JobState)
    → state_from_string t ≡ some s
    → text_eq t (state_to_string want) ≡ same_state s want
state_column t s want e = elim (Bool-cases (same_state s want)) [
  | inl y ↦
      subst (λ w. text_eq t (state_to_string w) ≡ true) (same_state_sound s want y)
        (state_column_text t s e)
      ∙ sym y
  | inr n ↦ ground (
    arith,
    text_eq_sound t (state_to_string want),
    state_from_string-state_to_string want,
    same_state_refl s,
  )
]

state_lem :
    (want : Option JobState) (r : JobRow) (s : JobState)
    → state_from_string r.state ≡ some s
    → state_fits want s ≡ state_clause want r
state_lem none r s e = refl
state_lem (some want) r s e = sym (state_column r.state s want e)

guards_lem :
    (s a b t s' a' b' : Bool)
    → s' ≡ s
    → a' ≡ a
    → b' ≡ b
    → (s && a && b && t)
      ≡ (t && (if not s' then false else if not a' then false else if not b' then false else true))
guards_lem s a b t s' a' b' i j k = ground arith

row_fits_lem :
    (sql : Sqlite) (s : Serde) (q : JobsQuery) (r : JobRow) (j : Job)
    → bound_is_ms q.created_after ≡ true
    → bound_is_ms q.created_before ≡ true
    → is_ms r.created_at_ms ≡ true
    → ReadsPlain s
    → escaped r ≡ false
    → read s r ≡ ok j
    → row_fits sql (filter_of q) r ≡ (tag_clause sql q.tag r && matches (stored_query q) j)
unfolding row_fits matches
row_fits_lem sql s q r j a b m p x e =
    let c = read_lem s r j e in
    guards_lem (state_clause q.state r) (after_clause q.created_after r)
      (before_clause q.created_before r) (tag_clause sql q.tag r) (state_fits q.state j.state)
      (after_fits (whole_ms q.created_after) j.created_at)
      (before_fits (whole_ms q.created_before) j.created_at)
      (state_lem q.state r j.state (sym (p r.state x) ∙ c.0))
      (ap (after_fits (whole_ms q.created_after)) c.1 ∙ after_lem q.created_after r a m)
      (ap (before_fits (whole_ms q.created_before)) c.1 ∙ before_lem q.created_before r b m)

abbrev pub is_found : Sqlite → Serde → JobsQuery → (Job → Bool) → JobRow → Bool
is_found sql s q p r = tag_clause sql q.tag r && reads s (λ j. matches (stored_query q) j && p j) r

one_row :
    (sql : Sqlite) (s : Serde) (q : JobsQuery) (p : Job → Bool) (r : JobRow) (x : Result Job)
    → bound_is_ms q.created_after ≡ true
    → bound_is_ms q.created_before ≡ true
    → is_ms r.created_at_ms ≡ true
    → ReadsPlain s
    → escaped r ≡ false
    → read s r ≡ x
    → (row_fits sql (filter_of q) r && holds p x)
      ≡ (tag_clause sql q.tag r && holds (λ j. matches (stored_query q) j && p j) x)
one_row sql s q p r (err x) a b m l y e = ground arith
one_row sql s q p r (ok j) a b m l y e = ground (arith, row_fits_lem sql s q r j a b m l y e)

abbrev pub off_ms : JobRow → Bool
off_ms r = not (is_ms r.created_at_ms)

all_rows :
    (sql : Sqlite) (s : Serde) (q : JobsQuery) (p : Job → Bool) (rs : List JobRow)
    → bound_is_ms q.created_after ≡ true
    → bound_is_ms q.created_before ≡ true
    → count off_ms rs ≡ 0
    → ReadsPlain s
    → count escaped rs ≡ 0
    → count (λ r. row_fits sql (filter_of q) r && reads s p r) rs ≡ count (is_found sql s q p) rs
all_rows sql s q p [] a b m l y = refl
all_rows sql s q p (r ∷ rs) a b m l y = ground (
  arith,
  all_rows sql s q p rs a b (omega (arith, m)) l (omega (arith, y)),
  one_row sql s q p r (read s r) a b (ground (arith, m)) l (ground (arith, y)) refl,
)

-- With a store of which every row of a job can be read, a query gives the newest of the stored jobs
-- that match it, up to its limit, or up to 100: these and the rows that it leaves out are the rows
-- whose job matches the query's state and its bounds, in whole milliseconds, and whose tags SQLite
-- finds to be like the pattern, as often as they stand in the table; no job is older than the next
-- one. It is for a limit below 2^63 and rows in which no state is written with an escape, and rests on
-- SQLite's ordering, on times from the epoch on, and on serde_json reading a plain string.
pub resolve_lem :
    (sql : Sqlite) (s : Serde) (q : JobsQuery) (r : Runtime) (t : Store) (p : Job → Bool)
    → IsOrdering sql
    → limit_or_100 q.limit < 2 ^ 63
    → bound_is_ms q.created_after ≡ true
    → bound_is_ms q.created_before ≡ true
    → count off_ms t.jobs ≡ 0
    → ReadsPlain s
    → count escaped t.jobs ≡ 0
    → count (unreadable s) t.jobs ≡ 0
    → r.store ≡ some t
    → let rest = unlisted sql (limit_or_100 q.limit) (filter_of q) t.jobs in
      (js : List Job) × (resolve sql s q r ≡ good js)
      × (count p js + count (reads s p) rest ≡ count (is_found sql s q p) t.jobs)
      × (is_sorted created js ≡ true)
      × (length js ≤ limit_or_100 q.limit)
unfolding resolve
resolve_lem sql s q r t p o l a b m z y u h =
    let found = list_jobs-total sql s (limit_or_100 q.limit) (filter_of q) t o u in
    let f = list_jobs_lem sql s (limit_or_100 q.limit) (filter_of q) t found.0 p o l found.1 in
    (
      found.0,
      ap (ask sql s q r) h ∙ ap from_store found.1,
      f.0 ∙ all_rows sql s q p t.jobs a b m z y,
      f.1,
      f.2,
    )
