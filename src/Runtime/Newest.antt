-- ===== src/Runtime/Newest.antt =====
-- `sort_by` on the time of creation, newest first, and `truncate`: what `Runtime::recent` and
-- `JobsQuery::run` end with (src/runtime.rs, src/runtime/query.rs).
use execra.Base.{ℕ, ◌≤◌, Bool, true, List, ◌++◌, ◌≡◌, ap, ◌∙◌, take, drop, length}
use execra.Base.Sorted
use execra.Base.Sorted.{count, sort, sort-count, sort-is_sorted, take-drop, length-take}
use execra.Finding.{SystemTime}
use execra.Job.{Job}

abbrev pub created : Job → SystemTime
created j = j.created_at

-- The sort is stable.
unfoldable pub newest_first : List Job → List Job
unfolding sort
newest_first js = sort created js

unfoldable pub newest : ℕ → List Job → List Job
unfolding newest_first
newest n js = take n (newest_first js)

-- No job of the list is older than the next one.
abbrev pub is_sorted : List Job → Bool
is_sorted js = Sorted.is_sorted created js

-- What is left out.
abbrev pub left_out : ℕ → List Job → List Job
left_out n js = drop n (newest_first js)

-- What `newest` gives and what it leaves out are the jobs of the list, as often as they stand there,
-- and together no job is older than the next one; it gives as many as are asked for at most.
pub newest_lem :
    (n : ℕ) (js : List Job) (p : Job → Bool)
    → (count p (newest n js ++ left_out n js) ≡ count p js)
      × (is_sorted (newest n js ++ left_out n js) ≡ true)
      × (length (newest n js) ≤ n)
unfolding newest newest_first
newest_lem n js p =
    let e = take-drop n (newest_first js) in
    (
      ap (count p) e ∙ sort-count created p js,
      ap is_sorted e ∙ sort-is_sorted created js,
      length-take n (newest_first js),
    )
