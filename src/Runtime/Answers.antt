-- ===== src/Runtime/Answers.antt =====
-- What the runtime answers when it is asked for its jobs: `recent` of src/runtime.rs and
-- `JobsQuery::run` of src/runtime/query.rs.
use execra.Base.{ℕ, Bool, true, ◌&&◌, ◌++◌, ◌≡◌, ◌≤◌, ◌∙◌, length}
use execra.Base.Sorted.{count, filter, filter-count}
use execra.Job.{Job}
use execra.Runtime.Jobs.{Runtime, recent, snapshots}
use execra.Runtime.Newest.{is_sorted, left_out, newest_lem}
use execra.Runtime.Query.{JobsQuery, limit_or_100, matches, run}

-- `recent n` gives the newest `n` snapshots: these and the ones that it leaves out are all the
-- snapshots, as often as they stand in the map, and together no job is older than the next one.
pub recent_lem :
    (n : ℕ) (r : Runtime) (p : Job → Bool)
    → let js = snapshots r.jobs in
      (count p (recent n r ++ left_out n js) ≡ count p js)
      × (is_sorted (recent n r ++ left_out n js) ≡ true)
      × (length (recent n r) ≤ n)
unfolding recent
recent_lem n r p = newest_lem n (snapshots r.jobs) p

-- A query in memory gives the newest of the jobs that match it, up to its limit, or up to 100: these
-- and the ones that it leaves out are the snapshots that match, as often as they stand in the map,
-- and together no job is older than the next one.
pub run_lem :
    (q : JobsQuery) (r : Runtime) (p : Job → Bool)
    → let rest = left_out (limit_or_100 q.limit) (filter (matches q) (snapshots r.jobs)) in
      (count p (run q r ++ rest) ≡ count (λ j. matches q j && p j) (snapshots r.jobs))
      × (is_sorted (run q r ++ rest) ≡ true)
      × (length (run q r) ≤ limit_or_100 q.limit)
unfolding run
run_lem q r p =
    let js = filter (matches q) (snapshots r.jobs) in
    let l = newest_lem (limit_or_100 q.limit) js p in
    (l.0 ∙ filter-count p (matches q) (snapshots r.jobs), l.1, l.2)
