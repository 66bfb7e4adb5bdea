-- ===== src/Runtime/Restarted.antt =====
-- A runtime that `RuntimeBuilder::build` (src/runtime/builder.rs) makes over the history of an
-- earlier process, or without one.
use execra.Base.{
  ℕ, ◌≤◌, Text, Bool, true, false, ◌&&◌, not, ◌≡◌, ◌≢◌, refl, sym, subst, ap, ◌∙◌, arith, Option,
  none, some, List, [], ◌∷◌, length, Option-cases, inl, inr,
}
use execra.Base.Sorted.{count}
use execra.Host.{Host, ReadsPlain, Serde}
use execra.Job.{Job, JobId}
use execra.Runtime.Build.{
  at_least_one, Inner, RuntimeBuilder, build, config, inner_from_parts, load_history, settled,
}
use execra.Runtime.Config.{RuntimeConfig}
use execra.Runtime.Query.{from_store}
use execra.Runtime.Jobs.{JobEntry, Jobs, from_parts, good, insert, insert_all}
use execra.Store.{Store, Update, Result, ok, err, ◌>>=◌, resurrect_stranded_jobs}
use execra.Store.Settled.{
  decode_jobs-unfinished, decode_jobs-too_new, resurrect_stranded_jobs-escaped,
  resurrect_stranded_jobs-rows, stranded, too_new, unfinished,
}
use execra.Store.Found.{selected-all, selected-none}
use execra.Store.Open.{Disk, open_file, set_up}
use execra.Store.Query.{Sqlite, default, IsOrdering, JobsFilter, list_jobs, selected}
use execra.Store.Restart.{is_unfinished}
use execra.Store.Rows.{escaped}

-- Not running in this process, and under a token that is not cancelled.
abbrev pub is_settled : JobEntry → Bool
is_settled e = not (is_unfinished e.snapshot.state) && not e.cancel

abbrev pub all_settled : Jobs → Bool
all_settled [] = true
all_settled ((i, e) ∷ js) = is_settled e && all_settled js

insert-all_settled :
    (i : JobId) (e : JobEntry) (js : Jobs)
    → is_settled e ≡ true
    → all_settled js ≡ true
    → all_settled (insert i e js) ≡ true
unfolding insert
insert-all_settled i e [] h k = ground arith
insert-all_settled i e ((j, f) ∷ js) h k = ground (arith, insert-all_settled i e js h)

insert_all-all_settled :
    (ps : List Job) (js : Jobs)
    → count unfinished ps ≡ 0
    → all_settled js ≡ true
    → all_settled (insert_all ps js) ≡ true
unfolding insert_all
insert_all-all_settled [] js h k = k
insert_all-all_settled (j ∷ ps) js h k =
    insert_all-all_settled ps (insert j.id (record { cancel = false; snapshot = j }) js)
      (omega (arith, h))
      (insert-all_settled j.id (record { cancel = false; snapshot = j }) js (ground arith) k)

-- `list_jobs` of rows of which none is stranded gives no unfinished job.
list_jobs-unfinished :
    (q : Sqlite) (s : Serde) (n : ℕ) (f : JobsFilter) (t : Store) (js : List Job)
    → IsOrdering q
    → ReadsPlain s
    → count escaped t.jobs ≡ 0
    → count stranded t.jobs ≡ 0
    → list_jobs q s n f t ≡ ok js
    → count unfinished js ≡ 0
unfolding list_jobs
list_jobs-unfinished q s n f t js o p x h e =
    decode_jobs-unfinished s (selected q n f t.jobs) js p (selected-none q n f escaped t.jobs o x) e
      (selected-none q n f stranded t.jobs o h)

listed :
    (s : Store) (js : Result (List Job)) (l : Option Store × List Job)
    → (js >>= λ jobs. ok (some s, jobs)) ≡ ok l
    → js ≡ ok l.1
listed s (err x) l e = ground arith
listed s (ok js) l e = ground arith

cleaned :
    (u : Update) (g : Store → Result (List Job)) (l : Option Store × List Job)
    → (settled u >>= λ s. g s >>= λ jobs. ok (some s, jobs)) ≡ ok l
    → (u.0 ≡ ok tt) × (g u.1 ≡ ok l.1)
cleaned (err x, s) g l e = ground arith
cleaned (ok u, s) g l e = (refl, listed s (g s) l e)

opened_first :
    (a : Result Store) (u : Store → Update) (g : Store → Result (List Job))
    (l : Option Store × List Job)
    → (a >>= λ o. settled (u o) >>= λ s. g s >>= λ jobs. ok (some s, jobs)) ≡ ok l
    → (o : Store) × (a ≡ ok o) × ((u o).0 ≡ ok tt) × (g (u o).1 ≡ ok l.1)
opened_first (err x) u g l e = ground arith
opened_first (ok o) u g l e = let c = cleaned (u o) g l e in (o, refl, c.0, c.1)

-- The steps of `load_history` on a file.
load_history_steps :
    (d : Disk) (q : Sqlite) (h : Host) (path : Text) (l : Option Store × List Job)
    → load_history d q h (some path) ≡ ok l
    → (o : Store) × (open_file d h path ≡ ok o)
      × ((resurrect_stranded_jobs h o).0 ≡ ok tt)
      × (list_jobs q h.serde 10000 default (resurrect_stranded_jobs h o).1 ≡ ok l.1)
unfolding load_history
load_history_steps d q h path l e =
    opened_first (open_file d h path) (resurrect_stranded_jobs h)
      (list_jobs q h.serde 10000 default) l e

-- The file at any path has no state that is written with an escape.
abbrev pub IsPlain : Disk → Type 0
IsPlain d = (path : Text) (t : Store) → d.connect path ≡ some t → count escaped t.jobs ≡ 0

open_file-jobs :
    (d : Disk) (h : Host) (path : Text) (t o : Store)
    → d.connect path ≡ some t
    → open_file d h path ≡ ok o
    → o.jobs ≡ t.jobs
unfolding open_file set_up
open_file-jobs d h path t o c e = ground arith

connected_first :
    (d : Disk) (h : Host) (path : Text) (o : Store)
    → open_file d h path ≡ ok o
    → (t : Store) × (d.connect path ≡ some t)
unfolding open_file
connected_first d h path o e = elim (Option-cases (d.connect path)) [
  | inl n ↦ ground arith
  | inr (t, c) ↦ (t, c)
]

open_file-plain :
    (d : Disk) (h : Host) (path : Text) (o : Store)
    → IsPlain d
    → open_file d h path ≡ ok o
    → count escaped o.jobs ≡ 0
open_file-plain d h path o x e =
    let (t, c) = connected_first d h path o e in
    ap (count escaped) (open_file-jobs d h path t o c e) ∙ x path t c

load_history-unfinished :
    (d : Disk) (q : Sqlite) (h : Host) (path : Option Text) (l : Option Store × List Job)
    → IsOrdering q
    → ReadsPlain h.serde
    → IsPlain d
    → load_history d q h path ≡ ok l
    → count unfinished l.1 ≡ 0
unfolding load_history
load_history-unfinished d q h none l o p x e = ground arith
load_history-unfinished d q h (some path) l o p x e =
    let (opened, a, done, c) = load_history_steps d q h path l e in
    list_jobs-unfinished q h.serde 10000 default (resurrect_stranded_jobs h opened).1 l.1 o p
      (resurrect_stranded_jobs-escaped h opened done (open_file-plain d h path opened x a))
      (resurrect_stranded_jobs-rows h opened done).0 c

built :
    (x : Result (Option Store × List Job)) (cfg : RuntimeConfig) (i : Inner)
    → from_store (x >>= λ l. ok (inner_from_parts cfg l.0 l.1)) ≡ good i
    → (l : Option Store × List Job) × (x ≡ ok l) × (i ≡ inner_from_parts cfg l.0 l.1)
built (err e) cfg i b = ground arith
built (ok l) cfg i b = (l, refl, ground arith)

inner-all_settled :
    (cfg : RuntimeConfig) (st : Option Store) (js : List Job)
    → count unfinished js ≡ 0
    → all_settled (inner_from_parts cfg st js).runtime.jobs ≡ true
unfolding inner_from_parts from_parts
inner-all_settled cfg st js h = insert_all-all_settled js [] h refl

at_least_one_lem : (n : ℕ) → 1 ≤ at_least_one n
at_least_one_lem n = ground arith

inner-permits :
    (cfg : RuntimeConfig) (st : Option Store) (js : List Job)
    → 1 ≤ (inner_from_parts cfg st js).permits
unfolding inner_from_parts
inner-permits cfg st js = at_least_one_lem cfg.max_concurrent

-- After a restart no job is left over as if it ran: whatever stands in the database file, but for
-- states that are written with an escape, and whatever the settings are, if the runtime can be built,
-- then none of its jobs is queued, running or exited, no token is cancelled, and there is a permit
-- for a job to run. It rests on SQLite's ordering, and on serde_json reading a plain string.
pub build-all_settled :
    (cores : Option ℕ) (d : Disk) (q : Sqlite) (h : Host) (b : RuntimeBuilder) (i : Inner)
    → IsOrdering q
    → ReadsPlain h.serde
    → IsPlain d
    → build cores d q h b ≡ good i
    → (all_settled i.runtime.jobs ≡ true) × (1 ≤ i.permits)
unfolding build
build-all_settled cores d q h b i o p x e =
    let (l, a, c) = built (load_history d q h b.history) (config cores b) i e in
    subst (λ (x : Inner). (all_settled x.runtime.jobs ≡ true) × (1 ≤ x.permits)) (sym c)
      (
        inner-all_settled (config cores b) l.0 l.1
            (load_history-unfinished d q h b.history l o p x a),
        inner-permits (config cores b) l.0 l.1,
      )

list_jobs-too_new :
    (q : Sqlite) (s : Serde) (t : Store) (js : List Job)
    → IsOrdering q
    → length t.jobs ≤ 10000
    → list_jobs q s 10000 default t ≡ ok js
    → count too_new t.jobs ≡ 0
unfolding list_jobs
list_jobs-too_new q s t js o l e =
    sym (selected-all q 10000 too_new t.jobs o (omega arith) l)
    ∙ decode_jobs-too_new s (selected q 10000 default t.jobs) js e

history-too_new :
    (d : Disk) (q : Sqlite) (h : Host) (path : Text) (t : Store) (l : Option Store × List Job)
    → IsOrdering q
    → d.connect path ≡ some t
    → length t.jobs ≤ 10000
    → load_history d q h (some path) ≡ ok l
    → count too_new t.jobs ≡ 0
history-too_new d q h path t l o c n e =
    let (opened, a, done, listed) = load_history_steps d q h path l e in
    let rows = resurrect_stranded_jobs-rows h opened done in
    let same = open_file-jobs d h path t opened c a in
    let short : length opened.jobs ≤ 10000 = subst (λ rs. length rs ≤ 10000) (sym same) n in
    ap (count too_new) (sym same)
    ∙ sym rows.1
    ∙ list_jobs-too_new q h.serde (resurrect_stranded_jobs h opened).1 l.1 o
        (omega (arith, rows.2, short)) listed

-- History that a later version has written is refused: if the jobs table of the database file holds
-- at most 10 000 rows, and one of them has a schema version above this one's, no runtime is built. It
-- rests on SQLite's ordering.
pub build-too_new :
    (cores : Option ℕ) (d : Disk) (q : Sqlite) (h : Host) (b : RuntimeBuilder) (path : Text)
    (t : Store) (i : Inner)
    → IsOrdering q
    → b.history ≡ some path
    → d.connect path ≡ some t
    → length t.jobs ≤ 10000
    → count too_new t.jobs ≢ 0
    → ¬ (build cores d q h b ≡ good i)
unfolding build
build-too_new cores d q h b path t i o p c n m e =
    let (l, a, x) = built (load_history d q h b.history) (config cores b) i e in
    m (history-too_new d q h path t l o c n (ap (load_history d q h) (sym p) ∙ a))
