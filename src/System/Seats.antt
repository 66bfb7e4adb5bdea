-- ===== src/System/Seats.antt =====
-- What the channel and the snapshot show of one job while its driver stands where it stands, and that
-- each step of the driver leads from there to the next.
use execra.Base.{
  ℕ, Text, Bool, true, Option, none, some, List, [], ◌∷◌, snoc, ◌≡◌, ◌≢◌, refl, sym, ap, subst, ◌∙◌,
}
use execra.Base.Sorted.{filter}
use execra.Command.{CommandSpec, Platform}
use execra.Event.{Event}
use execra.Finding.{SystemTime}
use execra.Host.{Host}
use execra.Interpreter.{Interpreter}
use execra.Job.{Job, JobId, JobState}
use execra.Outcome.{Outcome}
use execra.Driver.Between.{are_between, between_before, refused-IsTold}
use execra.Driver.Coherent.{IsCoherent, run-IsCoherent}
use execra.Driver.Finality.{finalize-IsFinal}
use execra.Driver.Loop.Drive.{given}
use execra.Driver.Loop.Run.{
  Tick, fail_spawn, finalize, finish, run, spawn_error, start, tick, verdict, wind_up,
}
use execra.Driver.Loop.Task.{Task, is_over}
use execra.Driver.Mapped.Steps.{Lens, seen, seen_task}
use execra.Driver.Mapped.Loop.{finalize-seen, finish-seen, start-seen, tick-seen}
use execra.Driver.Observer.{Life, View, observe}
use execra.Driver.Protocol.{finish_from, initial, over-child_exited, start-IsCoherent}
use execra.Driver.RawOutput.{Raw}
use execra.Driver.World.{World}
use execra.Runtime.Subscribed.{of_job}
use execra.System.Projection.{some_same, step_others, step_own, task_own, value_own, with_sent}
use execra.System.State.{Stage, waiting, permitted, running, returned}

-- A task whose world has these events and this snapshot.
abbrev pub placed : {I : Type 0} → List Event → Job → Task I → Task I
placed es j t = record t {
  drive = record t.drive { world = record t.drive.world { sent = es; snapshot = j } };
}

-- The events after the creation of a job follow the protocol to its end: the last one, and no other,
-- is the finalization with the outcome, and no other creation is among them.
abbrev pub HasEnded : JobId → Job → List Event → Outcome → Type 0
HasEnded id queued es o =
    (before : List Event) × (at : SystemTime) × (es ≡ snoc before (Event.finalized id o at))
    × (are_between before ≡ true)
    × ((observe (initial queued) es).life ≡ Life.finalized o)

ended :
    (id : JobId) (queued : Job) (es before : List Event) (o o' : Outcome) (at : SystemTime)
    → es ≡ snoc before (Event.finalized id o at)
    → (observe (initial queued) es).life ≡ Life.finalized o
    → o ≡ o'
    → HasEnded id queued es o'
ended id queued es before o o' at e l p = subst (HasEnded id queued es) p (
  before,
  at,
  e,
  between_before (initial queued) before (Event.finalized id o at) o
      (ap (λ xs. (observe (initial queued) xs).life) (sym e) ∙ l),
  l,
)

-- `queued` is the job when it was spawned, `es` what has been sent of it since its creation and `j`
-- its snapshot. A job whose driver has not begun has sent nothing; while the driver runs, a
-- subscriber sees what the driver holds; and when it has returned, the events are those of a job
-- that is finalized with the outcome, and so is the snapshot.
abbrev pub AtStage : {I : Type 0} → JobId → Job → List Event → Job → Stage I → Type 0
AtStage id queued es j waiting = (es ≡ []) × (j ≡ queued)
AtStage id queued es j permitted = (es ≡ []) × (j ≡ queued)
AtStage id queued es j (running t) = IsCoherent (initial queued) (placed es j t)
AtStage id queued es j (returned o) =
    HasEnded id queued es o × (j.state ≡ JobState.finalized) × (j.outcome ≡ some o)

-- What a step of the driver of `id` does to the channel and the snapshot, where `created` was the
-- first event of the job.
pub record IsStep {I : Type 0} (id : JobId) (queued : Job) (created : Event) (before : List Event)
    (w : World) (stage : Stage I) : Type 0 where
  pub since : List Event
  pub own : filter (of_job id) w.sent ≡ created ∷ since
  pub stands : AtStage id queued since w.snapshot stage
  pub others : (k : JobId) → id ≢ k → filter (of_job k) w.sent ≡ filter (of_job k) before

module _ {I : Type 0} (h : Host) (platform : Platform) (interp : Interpreter I) (id : JobId)
    (spec : CommandSpec) (queued : Job) (created : Event) (w : World) where
  pub start-IsStep :
      (pid : Option ℕ) (group : Bool) (raw : Raw) (i : Option I) (c : Bool)
      → filter (of_job id) w.sent ≡ created ∷ []
      → w.snapshot ≡ queued
      → queued.current_phase ≡ none
      → let t = start h platform interp id spec pid group raw i c w in
        IsStep id queued created w.sent t.drive.world (running t)
  start-IsStep pid group raw i c o q p =
      let G : World → Task I = start h platform interp id spec pid group raw i c in
      let F : World → World = λ w. (G w).drive.world in
      let keeps : (l : Lens h id) (w : World) → seen_task l (G w) ≡ G (seen l w) =
        λ l w. start-seen l platform interp spec pid group raw i c w in
      let keeps_world : (l : Lens h id) (w : World) → seen l (F w) ≡ F (seen l w) =
        λ l w. ap (λ (t : Task I). t.drive.world) (keeps l w) in
      record {
        since = (F (with_sent w [])).sent;
        own = step_own F keeps_world w created [] o;
        stands = subst (IsCoherent (initial queued)) (sym (task_own G keeps w created [] o)) (
            subst (λ j. IsCoherent (initial j) (G (with_sent w []))) q
              (start-IsCoherent h platform interp id spec pid group raw i c (with_sent w []) refl
                (ap (λ (j : Job). j.current_phase) q ∙ p)));
        others = λ k n. step_others F keeps_world k w n;
      }

-- The variables of a loop with what they share, as the driver finds it.
abbrev pub resumed : {I : Type 0} → Bool → Task I → World → Task I
resumed c t w = record t { drive = record t.drive { world = w }; cancelled = c }

resumed-IsCoherent :
    {I : Type 0} (v : View) (es : List Event) (c : Bool) (t : Task I) (w : World)
    → IsCoherent v (placed es w.snapshot t)
    → IsCoherent v (resumed c t (with_sent w es))
resumed-IsCoherent v es c t w (told, k) = (
  told,
  record {
    sees = record { seen = k.sees.seen; current = k.sees.current };
    once = k.once;
    spent = k.spent;
  },
)

module _ {I : Type 0} (h : Host) (platform : Platform) (interp : Interpreter I) (id : JobId)
    (spec : CommandSpec) (queued : Job) (created : Event) (w : World) where
  pub tick-IsStep :
      (x : Tick) (c : Bool) (t : Task I) (es : List Event)
      → filter (of_job id) w.sent ≡ created ∷ es
      → AtStage id queued es w.snapshot (running t)
      → let u = tick h platform interp id spec x (resumed c t w) in
        IsStep id queued created w.sent u.drive.world (running u)
  unfolding run
  tick-IsStep x c t es o a =
      let G : World → Task I = λ w. tick h platform interp id spec x (resumed c t w) in
      let F : World → World = λ w. (G w).drive.world in
      let keeps : (l : Lens h id) (w : World) → seen_task l (G w) ≡ G (seen l w) =
        λ l w. tick-seen l platform interp spec x (resumed c t w) in
      let keeps_world : (l : Lens h id) (w : World) → seen l (F w) ≡ F (seen l w) =
        λ l w. ap (λ (t : Task I). t.drive.world) (keeps l w) in
      record {
        since = (F (with_sent w es)).sent;
        own = step_own F keeps_world w created es o;
        stands = subst (IsCoherent (initial queued)) (sym (task_own G keeps w created es o)) (
            run-IsCoherent h platform interp id spec (initial queued) (x ∷ [])
              (resumed c t (with_sent w es)) (resumed-IsCoherent (initial queued) es c t w a));
        others = λ k n. step_others F keeps_world k w n;
      }

  pub finish-IsStep :
      (c : Bool) (t : Task I) (es : List Event)
      → is_over t ≡ true
      → filter (of_job id) w.sent ≡ created ∷ es
      → AtStage id queued es w.snapshot (running t)
      → let (outcome, u) = finish h platform interp id spec (resumed c t w) in
        IsStep {I = I} id queued created w.sent u.drive.world (returned outcome)
  unfolding finish
  finish-IsStep c t es e o a =
      let K : World → Option Outcome × World =
        λ w. given h platform interp id spec (finish h platform interp id spec (resumed c t w)) in
      let keeps : (l : Lens h id) (w : World) → (((K w).0, seen l (K w).1)) ≡ K (seen l w) =
        λ l w. finish-seen l platform interp spec (resumed c t w) in
      let F : World → World = λ w. (K w).1 in
      let keeps_world : (l : Lens h id) (w : World) → seen l (F w) ≡ F (seen l w) =
        λ l w. ap (λ (g : Option Outcome × World). g.1) (keeps l w) in
      let told =
        finish_from h platform interp id spec (initial queued) (resumed c t (with_sent w es))
          (over-child_exited t e) (resumed-IsCoherent (initial queued) es c t w a) in
      let same : (K w).0 ≡ (K (with_sent w es)).0 =
        value_own (λ w. (K w).0) (λ l w. ap (λ (g : Option Outcome × World). g.0) (keeps l w)) w
          created es o in
      let final = finalize-IsFinal h id _ _ in
      let last =
        (finalize-IsFinal h id
          (verdict h platform interp id spec
            (wind_up h platform interp id spec (resumed c t (with_sent w es))))
          (wind_up h platform interp id spec (resumed c t (with_sent w es))).drive.world).2 in
      record {
        since = (F (with_sent w es)).sent;
        own = step_own F keeps_world w created es o;
        stands = (
          ended id queued _ last.0 _ _ last.1 last.2 (ap (λ (v : View). v.life) told)
              (some_same (sym same)),
          final.0,
          final.1,
        );
        others = λ k n. step_others F keeps_world k w n;
      }

  pub fail_spawn-IsStep :
      (error : Text)
      → filter (of_job id) w.sent ≡ created ∷ []
      → w.snapshot ≡ queued
      → let (outcome, w') = fail_spawn h id error w in
        IsStep {I = I} id queued created w.sent w' (returned outcome)
  unfolding fail_spawn
  fail_spawn-IsStep error o q =
      let F : World → World = λ w. finalize h id (spawn_error error) w in
      let keeps : (l : Lens h id) (w : World) → seen l (F w) ≡ F (seen l w) =
        λ l w. finalize-seen l (spawn_error error) w in
      let final = finalize-IsFinal h id (spawn_error error) w in
      let last = (finalize-IsFinal h id (spawn_error error) (with_sent w [])).2 in
      record {
        since = (F (with_sent w [])).sent;
        own = step_own F keeps w created [] o;
        stands = (
          ended id queued _ last.0 _ _ last.1 last.2
              (subst
                (λ j.
                  (observe (initial j) (F (with_sent w [])).sent).life
                  ≡ Life.finalized (spawn_error error))
                q
                (refused-IsTold h platform interp id spec (spawn_error error) (with_sent w [])
                  refl))
              refl,
          final.0,
          final.1,
        );
        others = λ k n. step_others F keeps k w n;
      }
