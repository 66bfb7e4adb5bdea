-- ===== src/Runtime/Query.antt =====
-- src/runtime/query.rs: `JobsQuery` over the jobs in memory.
use execra.Base.{
  ℕ, Text, Bool, true, false, not, Option, none, some, List, any, text_eq, ◌==◌, if◌then◌else◌,
}
use execra.Base.Int.{ltb_ℤ}
use execra.Base.Sorted.{filter}
use execra.Finding.{SystemTime}
use execra.Job.{Job, JobState}
use execra.Host.{Serde}
use execra.Store.{Store, Result, ok, err}
use execra.Store.Query.{Sqlite, JobsFilter, list_jobs}
use execra.Runtime.Jobs.{Answer, Error, Runtime, bad, good, snapshots}
use execra.Runtime.Newest.{newest}

pub record JobsQuery : Type 0 where
  pub tag : Option Text
  pub state : Option JobState
  pub created_after : Option SystemTime
  pub created_before : Option SystemTime
  pub limit : Option ℕ

abbrev pub default : JobsQuery
default = record {
  tag = none;
  state = none;
  created_after = none;
  created_before = none;
  limit = none;
}

unfoldable pub with_tag : Text → JobsQuery → JobsQuery
with_tag t q = record q { tag = some t }

unfoldable pub limit : ℕ → JobsQuery → JobsQuery
limit n q = record q { limit = some n }

unfoldable pub with_state : JobState → JobsQuery → JobsQuery
with_state s q = record q { state = some s }

unfoldable pub created_after : SystemTime → JobsQuery → JobsQuery
created_after at q = record q { created_after = some at }

unfoldable pub created_before : SystemTime → JobsQuery → JobsQuery
created_before at q = record q { created_before = some at }

abbrev pub state_index : JobState → ℕ
state_index JobState.queued = 0
state_index JobState.running = 1
state_index JobState.exited = 2
state_index JobState.finalized = 3
state_index JobState.cancelled = 4

-- The derived `==`.
abbrev pub same_state : JobState → JobState → Bool
same_state a b = state_index a == state_index b

abbrev pub state_fits : Option JobState → JobState → Bool
state_fits none s = true
state_fits (some want) s = same_state s want

abbrev pub after_fits : Option SystemTime → SystemTime → Bool
after_fits none at = true
after_fits (some after) at = not (ltb_ℤ at after)

abbrev pub before_fits : Option SystemTime → SystemTime → Bool
before_fits none at = true
before_fits (some before) at = not (ltb_ℤ before at)

abbrev pub tag_fits : Option Text → List Text → Bool
tag_fits none tags = true
tag_fits (some tag) tags = any (λ t. text_eq t tag) tags

unfoldable pub matches : JobsQuery → Job → Bool
unfolding text_eq
matches q j =
    if not (state_fits q.state j.state)
    then false
    else if not (after_fits q.created_after j.created_at)
    then false
    else if not (before_fits q.created_before j.created_at)
    then false
    else tag_fits q.tag j.command.tags

abbrev pub limit_or_100 : Option ℕ → ℕ
limit_or_100 none = 100
limit_or_100 (some n) = n

-- `run` of a runtime without a store.
unfoldable pub run : JobsQuery → Runtime → List Job
unfolding filter matches newest
run q r = newest (limit_or_100 q.limit) (filter (matches q) (snapshots r.jobs))

abbrev pub filter_of : JobsQuery → JobsFilter
filter_of q = record {
  tag = q.tag;
  state = q.state;
  created_after = q.created_after;
  created_before = q.created_before;
}

-- `map_err(Error::from)`
abbrev pub from_store : {A : Type 0} → Result A → Answer A
from_store (err e) = bad (Error.store e)
from_store (ok a) = good a

abbrev pub ask : Sqlite → Serde → JobsQuery → Runtime → Option Store → Answer (List Job)
ask sql s q r none = good (run q r)
ask sql s q r (some t) = from_store (list_jobs sql s (limit_or_100 q.limit) (filter_of q) t)

-- The whole `run`.
unfoldable pub resolve : Sqlite → Serde → JobsQuery → Runtime → Answer (List Job)
unfolding run list_jobs
resolve sql s q r = ask sql s q r r.store
