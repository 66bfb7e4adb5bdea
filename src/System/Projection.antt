-- ===== src/System/Projection.antt =====
-- One job's part of the broadcast channel: what a step of a job's driver adds to it, and to the part
-- of any other job.
use execra.Base.{
  true, false, some, List, [], ◌∷◌, ◌++◌, append_assoc, append-nil, snoc, ◌≡◌, ◌≢◌, refl, sym, ap,
  ◌∙◌, arith, ==_iff,
}
pub use execra.Base.Sorted.{filter-append}
use execra.Base.Sorted.{filter}
use execra.Event.{Event, job_id}
use execra.Host.{Host}
use execra.Job.{JobId}
use execra.Driver.Loop.Task.{Task}
use execra.Driver.Mapped.Steps.{Lens, seen, seen_task}
use execra.Driver.World.{World}
use execra.Runtime.Subscribed.{of_job}

pub some_same : {A : Type 0} {a b : A} → some a ≡ some b → a ≡ b
some_same e = cc

of_job-own : (id : JobId) (e : Event) → job_id e ≡ id → of_job id e ≡ true
of_job-own id e o = ground (arith, ==_iff (job_id e) id)

of_job-other : (j k : JobId) (e : Event) → j ≢ k → of_job j e ≡ true → of_job k e ≡ false
of_job-other j k e n o = ground (arith, ==_iff (job_id e) j, ==_iff (job_id e) k)

pub filter-snoc :
    (id : JobId) (es : List Event) (e : Event)
    → job_id e ≡ id
    → filter (of_job id) (snoc es e) ≡ snoc (filter (of_job id) es) e
unfolding filter
filter-snoc id [] e o = ground (arith, of_job-own id e o)
filter-snoc id (x ∷ es) e o = ground (arith, filter-snoc id es e o)

pub filter-snoc_other :
    (id k : JobId) (es : List Event) (e : Event)
    → job_id e ≡ id
    → id ≢ k
    → filter (of_job k) (snoc es e) ≡ filter (of_job k) es
unfolding filter
filter-snoc_other id k [] e o n = ground (arith, of_job-other id k e n (of_job-own id e o))
filter-snoc_other id k (x ∷ es) e o n = ground (arith, filter-snoc_other id k es e o n)

-- No event is of two jobs.
filter_apart :
    (j k : JobId) (es : List Event) → j ≢ k → filter (of_job k) (filter (of_job j) es) ≡ []
unfolding filter
filter_apart j k [] n = refl
filter_apart j k (e ∷ es) n = ground (arith, filter_apart j k es n, of_job-other j k e n)

abbrev own_part : (h : Host) (job : JobId) → Lens h job
own_part h job = record {
  on_sent = filter (of_job job);
  on_store = λ s. s;
  sent_law = filter-snoc job;
  stored_law = λ e s. refl;
  upserted_law = λ j s. refl;
}

abbrev after_these : (h : Host) (job : JobId) → List Event → Lens h job
after_these h job before = record {
  on_sent = λ es. before ++ es;
  on_store = λ s. s;
  sent_law = λ es e o. sym (append_assoc before es (e ∷ []));
  stored_law = λ e s. refl;
  upserted_law = λ j s. refl;
}

abbrev pub with_sent : World → List Event → World
with_sent w es = record w { sent = es }

-- What a step gives does not depend on what the channel has of other jobs, nor on the creation.
pub value_own :
    {A : Type 0} {h : Host} {job : JobId} (K : World → A)
    (keeps : (l : Lens h job) (w : World) → K w ≡ K (seen l w)) (w : World) (e : Event)
    (rest : List Event)
    → filter (of_job job) w.sent ≡ e ∷ rest
    → K w ≡ K (with_sent w rest)
value_own {h = h} {job = job} K keeps w e rest o =
    keeps (own_part h job) w
    ∙ ap (λ es. K (with_sent w es)) o
    ∙ sym (keeps (after_these h job (e ∷ [])) (with_sent w rest))

-- A step of the driver of `job`, as a function of the world.
module _ {h : Host} {job : JobId} (F : World → World)
    (keeps : (l : Lens h job) (w : World) → seen l (F w) ≡ F (seen l w)) where
  pub step_own :
      (w : World) (e : Event) (rest : List Event)
      → filter (of_job job) w.sent ≡ e ∷ rest
      → filter (of_job job) (F w).sent ≡ e ∷ (F (with_sent w rest)).sent
  step_own w e rest o =
      ap (λ (x : World). x.sent) (keeps (own_part h job) w)
      ∙ ap (λ es. (F (with_sent w es)).sent) o
      ∙ sym (ap (λ (x : World). x.sent) (keeps (after_these h job (e ∷ [])) (with_sent w rest)))

  -- What the step adds to the channel is the job's own, and is not of what is on it.
  pub step_grows : (w : World) → (F w).sent ≡ w.sent ++ (F (with_sent w [])).sent
  step_grows w =
      ap (λ es. (F (with_sent w es)).sent) (sym (append-nil w.sent))
      ∙ sym (ap (λ (x : World). x.sent) (keeps (after_these h job w.sent) (with_sent w [])))

  pub own_news :
      (w : World) → filter (of_job job) (F (with_sent w [])).sent ≡ (F (with_sent w [])).sent
  unfolding filter
  own_news w = ap (λ (x : World). x.sent) (keeps (own_part h job) (with_sent w []))

  pub step_others :
      (k : JobId) (w : World) → job ≢ k → filter (of_job k) (F w).sent ≡ filter (of_job k) w.sent
  step_others k w n =
      let news = (F (with_sent w [])).sent in
      ap (filter (of_job k)) (step_grows w)
      ∙ filter-append (of_job k) w.sent news
      ∙ ap (λ es. filter (of_job k) w.sent ++ es)
          (ap (filter (of_job k)) (sym (own_news w)) ∙ filter_apart job k news n)
      ∙ append-nil (filter (of_job k) w.sent)

abbrev pub task_with_sent : {I : Type 0} → Task I → List Event → Task I
task_with_sent t es = record t { drive = record t.drive { world = with_sent t.drive.world es } }

-- The same of a step that gives the task.
module _ {I : Type 0} {h : Host} {job : JobId} (G : World → Task I)
    (keeps : (l : Lens h job) (w : World) → seen_task l (G w) ≡ G (seen l w)) where
  pub task_own :
      (w : World) (e : Event) (rest : List Event)
      → filter (of_job job) w.sent ≡ e ∷ rest
      → task_with_sent (G w) (G (with_sent w rest)).drive.world.sent ≡ G (with_sent w rest)
  task_own w e rest o =
      ap (λ (t : Task I). task_with_sent t (G (with_sent w rest)).drive.world.sent)
        (keeps (own_part h job) w
          ∙ ap (λ es. G (with_sent w es)) o
          ∙ sym (keeps (after_these h job (e ∷ [])) (with_sent w rest)))
