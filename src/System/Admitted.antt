-- ===== src/System/Admitted.antt =====
-- `spawn` and `cancel` of src/runtime.rs in the state with all drivers.
use execra.Base.{
  ℕ, suc, ◌≤◌, false, Option, none, some, [], snoc, ◌≡◌, ◌≢◌, refl, sym, ap, subst, subst₂, ◌∙◌,
  arith, ◌==◌, ==_iff, ◌⊎◌, inl, inr, if◌then◌else◌,
}
use execra.Base.Sorted.{filter}
use execra.Command.{Command}
use execra.Event.{Event, job_id}
use execra.Host.{Host}
use execra.Job.{Job, JobId}
use execra.Store.{Store, Update, ok, err, upsert_job}
use execra.Runtime.Admission.{lookup-insert, cancel_lem, cancelled}
use execra.Runtime.Jobs
use execra.Runtime.Jobs.{
  Answer, good, bad, JobEntry, Runtime, admit, cancel_entry, cancel_found, enter, enter_stored,
  lookup, queued_job,
}
use execra.Runtime.Subscribed.{of_job}
use execra.System.Projection.{filter-snoc, filter-snoc_other}
use execra.System.Seats.{AtStage}
use execra.System.State.{waiting, Seat, System, seated}
use execra.System.Told.{IsTold, IsSound, same_or_not}

-- What `spawn` does to the runtime `r` in which the job `q` is to be entered.
abbrev pub IsEntered : Job → Runtime → Answer JobId × Runtime → Type 0
IsEntered q r (good id, r') =
    (id ≡ q.id)
    × ((j : JobId)
        → lookup j r'.jobs
          ≡ (if q.id == j then some (record { cancel = false; snapshot = q }) else lookup j r.jobs))
    × (r'.sent ≡ snoc r.sent (Event.job_created q.id q.command q.created_at))
    × (r'.ids ≡ r.ids)
IsEntered q r (bad e, r') = (r'.jobs ≡ r.jobs) × (r'.sent ≡ r.sent) × (r'.ids ≡ r.ids)

enter-IsEntered :
    (h : Host) (q : Job) (st : Option Store) (r : Runtime) → IsEntered q r (enter h q st r)
unfolding enter
enter-IsEntered h q st r =
    (refl, (λ j. lookup-insert q.id j (record { cancel = false; snapshot = q }) r.jobs), refl, refl)

enter_stored-IsEntered :
    (h : Host) (q : Job) (u : Update) (r : Runtime) → IsEntered q r (enter_stored h q u r)
enter_stored-IsEntered h q (err e, s) r = (refl, refl, refl)
enter_stored-IsEntered h q (ok u, s) r = enter-IsEntered h q (some s) r

pub admit-IsEntered :
    (h : Host) (q : Job) (st : Option Store) (r : Runtime) → IsEntered q r (admit h q st r)
admit-IsEntered h q none r = enter-IsEntered h q none r
admit-IsEntered h q (some s) r = enter_stored-IsEntered h q (upsert_job h q s) r

-- A change of the runtime that leaves the snapshots and the channel.
abbrev pub IsQuiet : Runtime → Runtime → Type 0
IsQuiet r r' =
    ((j : JobId) (e : JobEntry)
      → lookup j r.jobs ≡ some e
      → (e' : JobEntry) × (lookup j r'.jobs ≡ some e') × (e.snapshot ≡ e'.snapshot))
    × (r'.sent ≡ r.sent)
    × (r.ids ≤ r'.ids)

abbrev cancelled_entry : JobId → JobId → JobEntry → JobEntry
cancelled_entry id j e = if id == j then cancel_entry e else e

cancelled-some :
    (id j : JobId) (e : JobEntry) → cancelled id j (some e) ≡ some (cancelled_entry id j e)
cancelled-some id j e = ground arith

cancelled_entry-snapshot :
    (id j : JobId) (e : JobEntry) → e.snapshot ≡ (cancelled_entry id j e).snapshot
cancelled_entry-snapshot id j e = ground arith

cancel_found-ids :
    (id : JobId) (o : Option JobEntry) (r : Runtime) → r.ids ≤ (cancel_found id o r).1.ids
cancel_found-ids id none r = omega arith
cancel_found-ids id (some e) r = omega arith

pub cancel-IsQuiet : (id : JobId) (r : Runtime) → IsQuiet r (Jobs.cancel id r).1
unfolding Jobs.cancel
cancel-IsQuiet id r = (
  λ j e l. (
    cancelled_entry id j e,
    (cancel_lem id j r).1 ∙ ap (cancelled id j) l ∙ cancelled-some id j e,
    cancelled_entry-snapshot id j e,
  ),
  (cancel_lem id 0 r).2,
  cancel_found-ids id (lookup id r.jobs) r,
)

module _ {I : Type 0} (h : Host) where
  pub quiet-IsSound :
      (r : Runtime) (s : System I)
      → IsQuiet s.runtime r
      → IsSound h s
      → IsSound h (record s { runtime = r })
  quiet-IsSound r s q k = record {
    told = λ j x e.
        let t = k.told j x e in
        let f = q.0 j t.entry t.entered in
        record {
          entry = f.0;
          at = t.at;
          since = t.since;
          entered = f.1;
          own = ap (filter (of_job j)) q.1 ∙ t.own;
          stands = subst (λ y. AtStage j (queued_job j x.spec t.at) t.since y x.stage) f.2 t.stands;
        };
    unused = λ m b.
        let u = k.unused m (omega (arith, b, q.2)) in
        (ap (filter (of_job (h.new_id m))) q.1 ∙ u.0, u.1);
  }

  -- A job that has just been spawned is told, and so are the others.
  module _ (distinct : (m n : ℕ) → h.new_id m ≡ h.new_id n → m ≡ n) (c : Command I) (r' : Runtime)
      (s : System I) where
    abbrev pub new_job : Job
    new_job = queued_job (h.new_id s.runtime.ids) c.spec (h.now s.runtime.clock)

    abbrev creation : Event
    creation = Event.job_created new_job.id c.spec new_job.created_at

    abbrev new_seat : Seat I
    new_seat = record { spec = c.spec; interpreter = c.interpreter; stage = waiting }

    abbrev pub called : Runtime
    called = record s.runtime { clock = suc s.runtime.clock; ids = suc s.runtime.ids }

    abbrev after_spawn : System I
    after_spawn = seated c (good new_job.id, r') s

    spawned_own :
        IsEntered new_job called (good new_job.id, r')
        → IsSound h s
        → IsTold after_spawn new_job.id new_seat
    unfolding job_id
    spawned_own en k = record {
      entry = record { cancel = false; snapshot = new_job };
      at = new_job.created_at;
      since = [];
      entered = en.1 new_job.id ∙ ground (arith, ==_iff new_job.id new_job.id);
      own =
          ap (filter (of_job new_job.id)) en.2
          ∙ filter-snoc new_job.id s.runtime.sent creation refl
          ∙ ap (λ es. snoc es creation) (k.unused s.runtime.ids (omega arith)).0;
      stands = (refl, refl);
    }

    spawned_other :
        (j : JobId) (x : Seat I)
        → IsEntered new_job called (good new_job.id, r')
        → IsTold s j x
        → new_job.id ≢ j
        → IsTold after_spawn j x
    unfolding job_id
    spawned_other j x en t d = record {
      entry = t.entry;
      at = t.at;
      since = t.since;
      entered = en.1 j ∙ ground (arith, ==_iff new_job.id j, t.entered);
      own =
          ap (filter (of_job j)) en.2
          ∙ filter-snoc_other new_job.id j s.runtime.sent creation refl d
          ∙ t.own;
      stands = t.stands;
    }

    spawned_any :
        (j : JobId) (x : Seat I)
        → IsEntered new_job called (good new_job.id, r')
        → IsSound h s
        → lookup j after_spawn.seats ≡ some x
        → (new_job.id ≡ j) ⊎ (new_job.id ≢ j)
        → IsTold after_spawn j x
    unfolding lookup
    spawned_any j x en k e (inl p) =
        subst₂ (IsTold after_spawn) p (ground (arith, ==_iff new_job.id j, p, e)) (spawned_own en k)
    spawned_any j x en k e (inr d) =
        spawned_other j x en (k.told j x (ground (arith, ==_iff new_job.id j, d, e))) d

    spawned-IsSound :
        IsEntered new_job called (good new_job.id, r') → IsSound h s → IsSound h after_spawn
    unfolding lookup job_id
    spawned-IsSound en k = record {
      told = λ j x e. spawned_any j x en k e (same_or_not new_job.id j);
      unused = λ m b.
          let b' : suc s.runtime.ids ≤ m = omega (arith, b, en.3) in
          let u = k.unused m (omega (arith, b')) in
          let d : new_job.id ≢ h.new_id m = λ p. omega (arith, b', distinct s.runtime.ids m p) in
          (
            ap (filter (of_job (h.new_id m))) en.2
                ∙ filter-snoc_other new_job.id (h.new_id m) s.runtime.sent creation refl d
                ∙ u.0,
            ground (arith, ==_iff new_job.id (h.new_id m), d, u.1),
          );
    }

    pub seated-IsSound :
        (a : Answer JobId)
        → IsEntered new_job called (a, r')
        → IsSound h s
        → IsSound h (seated c (a, r') s)
    seated-IsSound (good id) en k =
        subst (λ i. IsSound h (seated c (good i, r') s)) (sym en.0)
          (spawned-IsSound (refl, en.1, en.2, en.3) k)
    seated-IsSound (bad e) en k =
        quiet-IsSound r' s ((λ j f l. (f, ap (lookup j) en.0 ∙ l, refl)), en.1, omega (arith, en.2))
          k
