-- ===== src/Driver/Between.antt =====
-- What the driver of src/runtime/driver.rs sends before the finalization of its job.
use execra.Base.{
  Bool, true, false, Option, none, some, List, [], ◌∷◌, snoc, ◌≡◌, refl, sym, ap, ◌∙◌, arith, ◌&&◌,
  subst, if_rule,
}
use execra.Command.{CommandSpec, Platform}
use execra.Event.{Event}
use execra.Finding.{SystemTime}
use execra.Host.{Host}
use execra.Interpreter.{Interpreter}
use execra.Job.{JobId}
use execra.Outcome.{Outcome}
use execra.Driver.Finality.{drive_job-IsFinal}
use execra.Driver.Loop.Drive.{Spawned, child, refused, drive_job, drive_spawned}
use execra.Driver.Loop.Run.{Tick, fail_spawn, finalize, spawn_error}
use execra.Driver.Loop.Task.{is_over}
use execra.Driver.Observer.{
  Life, View, observe, observe_event, on_finalized, on_exited, on_cancelled, on_started, stay,
}
use execra.Driver.Protocol.{after, initial, finish_observed}
use execra.Driver.RawOutput.{Raw}
use execra.Driver.World.{World, emit, persist_snapshot, update_snapshot}

-- Neither the creation of a job nor its finalization.
abbrev pub is_between : Event → Bool
is_between (Event.job_created j command at) = false
is_between (Event.finalized j o at) = false
is_between _ = true

unfoldable pub are_between : List Event → Bool
are_between [] = true
are_between (e ∷ es) = is_between e && are_between es

broken_stays :
    (v : View) (e : Event) → v.life ≡ Life.broken → (observe_event v e).life ≡ Life.broken
unfolding observe_event
broken_stays v (Event.job_created j c at) b = refl
broken_stays v (Event.job_started j c at) b = ap on_started b
broken_stays v (Event.exited j c at) b = ap on_exited b
broken_stays v (Event.cancelled j at) b = ap on_cancelled b
broken_stays v (Event.finalized j o at) b = ap (on_finalized o) b
broken_stays v _ b = ap stay b

broken_after :
    (v : View) (es : List Event) → v.life ≡ Life.broken → (observe v es).life ≡ Life.broken
unfolding observe
broken_after v [] b = b
broken_after v (e ∷ es) b = broken_after (observe_event v e) es (broken_stays v e b)

-- A job in this life has nothing more to send.
abbrev ended : Life → Bool
ended Life.broken = true
ended (Life.finalized o) = true
ended _ = false

stay-ended : (l : Life) → ended l ≡ true → stay l ≡ Life.broken
stay-ended l n = ground arith

on_started-ended : (l : Life) → ended l ≡ true → on_started l ≡ Life.broken
on_started-ended l n = ground arith

on_exited-ended : (l : Life) → ended l ≡ true → on_exited l ≡ Life.broken
on_exited-ended l n = ground arith

on_cancelled-ended : (l : Life) → ended l ≡ true → on_cancelled l ≡ Life.broken
on_cancelled-ended l n = ground arith

on_finalized-ended : (o : Outcome) (l : Life) → ended l ≡ true → on_finalized o l ≡ Life.broken
on_finalized-ended o l n = ground arith

ended-on_finalized : (o : Outcome) (l : Life) → ended (on_finalized o l) ≡ true
ended-on_finalized o l = ground arith

breaks : (v : View) (e : Event) → ended v.life ≡ true → (observe_event v e).life ≡ Life.broken
unfolding observe_event
breaks v (Event.job_created j c at) n = refl
breaks v (Event.job_started j c at) n = on_started-ended v.life n
breaks v (Event.exited j c at) n = on_exited-ended v.life n
breaks v (Event.cancelled j at) n = on_cancelled-ended v.life n
breaks v (Event.finalized j o at) n = on_finalized-ended o v.life n
breaks v _ n = stay-ended v.life n

over_breaks :
    (v : View) (xs : List Event) (e : Event)
    → ended v.life ≡ true
    → (observe v (snoc xs e)).life ≡ Life.broken
unfolding observe
over_breaks v [] e n = breaks v e n
over_breaks v (x ∷ xs) e n = broken_after (observe_event v x) (snoc xs e) (breaks v x n)

not_final : (l : Life) (o : Outcome) → l ≡ Life.broken → l ≡ Life.finalized o → false ≡ true
not_final l o b f = ground arith

-- What comes before the last event of a log that follows the protocol to its end.
pub between_before :
    (v : View) (xs : List Event) (e : Event) (o : Outcome)
    → (observe v (snoc xs e)).life ≡ Life.finalized o
    → are_between xs ≡ true
unfolding are_between observe observe_event
between_before v [] e o f = refl
between_before v (Event.job_created j c at ∷ xs) e o f =
    not_final _ o (broken_after (record v { life = Life.broken }) (snoc xs e) refl) f
between_before v (Event.finalized j o' at ∷ xs) e o f =
    not_final _ o
      (over_breaks (record v { life = on_finalized o' v.life }) xs e (ended-on_finalized o' v.life))
      f
between_before v (x ∷ xs) e o f = between_before (observe_event v x) xs e o f

-- The events of a job whose driver gave an outcome follow the protocol to its end.
abbrev IsToldIf : View → Option Outcome × World → Type 0
IsToldIf v (none, w) = Unit {0}
IsToldIf v (some o, w) = (observe v w.sent).life ≡ Life.finalized o

module _ {I : Type 0} (h : Host) (platform : Platform) (interp : Interpreter I) (job : JobId)
    (spec : CommandSpec) where
  pub refused-IsTold :
      (o : Outcome) (w : World)
      → w.sent ≡ []
      → (observe (initial w.snapshot) (finalize h job o w).sent).life ≡ Life.finalized o
  unfolding finalize emit persist_snapshot update_snapshot observe observe_event
  refused-IsTold o w e =
      ap
        (λ es.
          (observe (initial w.snapshot) (snoc es (Event.finalized job o (h.now w.clock)))).life)
        e

  drive_spawned-IsToldIf :
      (s : Spawned) (raw : Raw) (i : Option I) (c : Bool) (ticks : List Tick) (w : World)
      → w.sent ≡ []
      → w.snapshot.current_phase ≡ none
      → IsToldIf (initial w.snapshot) (drive_spawned h platform interp job spec s raw i c ticks w)
  unfolding fail_spawn
  drive_spawned-IsToldIf (refused error) raw i c ticks w e p =
      refused-IsTold (spawn_error error) w e
  drive_spawned-IsToldIf (child pid group) raw i c ticks w e p =
      let t = after h platform interp job spec pid group raw i c w ticks in
      if_rule (IsToldIf (initial w.snapshot)) (is_over t)
        (λ y.
          ap (λ (v : View). v.life)
            (finish_observed h platform interp job spec pid group raw i c w ticks e p y))
        (λ n. tt)

  drive_job-IsToldIf :
      (permit : Bool) (s : Spawned) (raw : Raw) (i : Option I) (c : Bool) (ticks : List Tick)
      (w : World)
      → w.sent ≡ []
      → w.snapshot.current_phase ≡ none
      → IsToldIf
          (initial w.snapshot)
          (drive_job h platform interp job spec permit s raw i c ticks w)
  unfolding drive_job
  drive_job-IsToldIf false s raw i c ticks w e p = tt
  drive_job-IsToldIf true s raw i c ticks w e p = drive_spawned-IsToldIf s raw i c ticks w e p

  -- What the driver of a job that gave an outcome has sent: no creation, and a finalization only as
  -- the last event.
  pub drive_job-between :
      (permit : Bool) (s : Spawned) (raw : Raw) (i : Option I) (c : Bool) (ticks : List Tick)
      (w w' : World) (o : Outcome)
      → w.sent ≡ []
      → w.snapshot.current_phase ≡ none
      → drive_job h platform interp job spec permit s raw i c ticks w ≡ (some o, w')
      → (before : List Event) × (at : SystemTime) × (w'.sent
          ≡ snoc before (Event.finalized job o at))
        × (are_between before ≡ true)
  drive_job-between permit s raw i c ticks w w' o e p d =
      let final =
        (drive_job-IsFinal h platform interp job spec permit s raw i c ticks w w' o d).2 in
      let told =
        subst (IsToldIf (initial w.snapshot)) d (drive_job-IsToldIf permit s raw i c ticks w e p) in
      (
        final.0,
        final.1,
        final.2,
        between_before (initial w.snapshot) final.0 (Event.finalized job o final.1) o
            (ap (λ es. (observe (initial w.snapshot) es).life) (sym final.2) ∙ told),
      )
