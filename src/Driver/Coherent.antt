-- ===== src/Driver/Coherent.antt =====
-- The loop of `drive_job` (src/runtime/driver.rs) beside the view of a subscriber.
use execra.Base.{Text, Bool, true, false, Option, none, some, List, ◌≡◌, refl, arith}
use execra.Command.{CommandSpec, Platform}
use execra.Event.{Stream}
use execra.Finding.{SystemTime}
use execra.Host.{Host}
use execra.Interpreter.{Interpreter, Returned, ok, panicked, Line}
use execra.Job.{JobId}
use execra.Outcome.{ExitCode}
use execra.Driver.Faithful.{Sees, apply_events-Sees}
use execra.Driver.Loop.Task.{Task}
use execra.Driver.Loop.Call.{settle, call_line, call_exit, record_line, process_line}
use execra.Driver.Loop.Run.{Tick, cancelled_world, on_wake, run}
use execra.Driver.Loop.Rule.{is_spent, IsPlumbing, run_keeps}
use execra.Driver.Loop.Select.{on_exit}
use execra.Driver.Observer.{Life, stay, View, observe_event, observe-snoc}
use execra.Driver.Wait.{
  Stage, selecting, terminating, reported, Wake, Waited, WaitTask, step, step_at, emits_cancelled,
  cancel_seen, child_waited, timeout_fired, grace_expired, killed,
}
use execra.Driver.World.{Drive, emit}

abbrev pub life_of : Bool → Bool → Life
life_of true told = Life.exited
life_of false told = Life.started told

-- The wait task has not been woken by anything that it waits for at first.
abbrev pub is_selecting : Stage → Bool
is_selecting selecting = true
is_selecting _ = false

-- The subscriber sees what the driver holds, the exit is noted only when the wait task is through, and
-- `told`, whether the cancellation has been sent, is so only when it has left its first `select!`.
pub record IsCoherentAt {I : Type 0} (v : View) (told : Bool) (t : Task I) : Type 0 where
  pub sees : Sees v (life_of t.child_exited told) t.drive
  pub once : is_selecting t.wait.stage ≡ true → told ≡ false
  pub spent : t.child_exited ≡ true → is_spent t.wait.stage t.wait_dropped ≡ true

-- It is so, whether or not the cancellation has been sent.
abbrev pub IsCoherent : {I : Type 0} → View → Task I → Type 0
IsCoherent v t = (told : Bool) × IsCoherentAt v told t

stay-life_of : (b told : Bool) → stay (life_of b told) ≡ life_of b told
stay-life_of true told = refl
stay-life_of false told = refl

-- `Event::Cancelled` is sent before the report, so before the exit.
unspent-running :
    (st : Stage) (b : Bool) (w : Wake) (dropped exited : Bool)
    → dropped ≡ false
    → emits_cancelled st b w ≡ true
    → (exited ≡ true → is_spent st dropped ≡ true)
    → exited ≡ false
unspent-running selecting b w dropped exited e m f = grind arith
unspent-running terminating true cancel_seen dropped exited e m f = cc
unspent-running _ b w dropped exited e m f = cc

pub dropped-is_spent : (st : Stage) → is_spent st true ≡ true
dropped-is_spent (reported o) = refl
dropped-is_spent _ = refl

pub step-is_spent :
    (st : Stage) (b : Bool) (w : Wake) (t : WaitTask) (dropped : Bool)
    → t.stage ≡ st
    → is_spent st dropped ≡ true
    → is_spent (step_at st b w t).stage dropped ≡ true
step-is_spent (reported o) b w t dropped e s = rw e
step-is_spent _ b w t dropped e s = rw s (dropped-is_spent _)

module _ {I : Type 0} (h : Host) (job : JobId) (v : View) (told : Bool) where
  settle-IsCoherent :
      (l : Option Text) (r : Returned I) (t : Task I)
      → IsCoherentAt v told t
      → IsCoherentAt v told (settle h job l r t)
  unfolding settle observe_event
  settle-IsCoherent l (ok i evs) t c = record {
    sees =
        apply_events-Sees h job v (life_of t.child_exited told) (stay-life_of t.child_exited told)
          evs t.drive c.sees;
    once = c.once;
    spent = c.spent;
  }
  settle-IsCoherent l (panicked i p) t c =
      grind (arith, observe-snoc, stay-life_of t.child_exited told)

module _ {I : Type 0} (h : Host) (platform : Platform) (interp : Interpreter I) (job : JobId)
    (spec : CommandSpec) (v : View) (told : Bool) where
  call_line-IsCoherent :
      (o : Option I) (b : Bool) (l : Line) (t : Task I)
      → IsCoherentAt v told t
      → IsCoherentAt v told (call_line h interp job spec o b l t)
  unfolding call_line
  call_line-IsCoherent (some i) false l t c = settle-IsCoherent h job v told _ _ t c
  call_line-IsCoherent (some i) true l t c = c
  call_line-IsCoherent none b l t c = c

  pub call_exit-IsCoherent :
      (o : Option I) (b : Bool) (e : ExitCode) (t : Task I)
      → IsCoherentAt v told t
      → IsCoherentAt v told (call_exit h interp job spec o b e t)
  unfolding call_exit
  call_exit-IsCoherent (some i) false l t c = settle-IsCoherent h job v told _ _ t c
  call_exit-IsCoherent (some i) true l t c = c
  call_exit-IsCoherent none b l t c = c

  record_line-IsCoherent :
      (s : Stream) (x : Text) (at : SystemTime) (t : Task I)
      → IsCoherentAt v told t
      → IsCoherentAt v told (record_line h interp job spec s x at t)
  unfolding record_line observe_event
  record_line-IsCoherent s x at t c = grind (arith, observe-snoc, stay-life_of t.child_exited told)

  process_line-IsCoherent :
      (s : Stream) (x : Text) (t : Task I)
      → IsCoherentAt v told t
      → IsCoherentAt v told (process_line h interp job spec s x t)
  unfolding process_line
  process_line-IsCoherent s x t c = call_line-IsCoherent _ _ _ _ (record_line-IsCoherent s x _ t c)

  plumbing-IsCoherent :
      (t u : Task I) → IsPlumbing t u → IsCoherentAt v told t → IsCoherentAt v told u
  plumbing-IsCoherent t u p c = grind arith

  on_exit-IsCoherent :
      (r : Waited) (late : Bool) (t : Task I)
      → t.child_exited ≡ false
      → is_spent t.wait.stage t.wait_dropped ≡ true
      → IsCoherentAt v told t
      → IsCoherentAt v told (on_exit h platform interp job spec r late t)
  unfolding on_exit observe_event
  on_exit-IsCoherent r late t e sp c = grind (arith, observe-snoc)

-- What the subscriber knows of a cancellation once the wait task has been woken.
abbrev told_by : Bool → Bool → Bool
told_by told true = true
told_by told false = told

told_once :
    (st : Stage) (b told : Bool) (w : Wake)
    → (is_selecting st ≡ true → told ≡ false)
    → emits_cancelled st b w ≡ true
    → told ≡ false
told_once selecting b told w f m = f refl
told_once terminating true told cancel_seen f m = cc
told_once _ b told w f m = cc

step-once :
    (st : Stage) (b told : Bool) (w : Wake) (t : WaitTask)
    → t.stage ≡ st
    → (is_selecting st ≡ true → told ≡ false)
    → is_selecting (step_at st b w t).stage ≡ true
    → told_by told (emits_cancelled st b w) ≡ false
step-once selecting true told cancel_seen t e f m = ground arith
step-once selecting false told cancel_seen t e f m = f refl
step-once selecting true told (child_waited r) t e f m = f refl
step-once selecting false told (child_waited r) t e f m = f refl
step-once selecting true told timeout_fired t e f m = f refl
step-once selecting false told timeout_fired t e f m = f refl
step-once selecting true told grace_expired t e f m = f refl
step-once selecting false told grace_expired t e f m = f refl
step-once terminating b told (child_waited r) t e f m = ground arith
step-once terminating b told cancel_seen t e f m = ground arith
step-once terminating b told timeout_fired t e f m = ground arith
step-once terminating b told grace_expired t e f m = ground arith
step-once (killed late) b told (child_waited r) t e f m = ground arith
step-once (killed late) b told cancel_seen t e f m = ground arith
step-once (killed late) b told timeout_fired t e f m = ground arith
step-once (killed late) b told grace_expired t e f m = ground arith
step-once (reported o) b told w t e f m = ground arith

module _ {I : Type 0} (h : Host) (platform : Platform) (interp : Interpreter I) (job : JobId)
    (spec : CommandSpec) (v : View) where
  cancelled_world-Sees :
      (b exited told : Bool) (d : Drive)
      → (b ≡ true → exited ≡ false)
      → (b ≡ true → told ≡ false)
      → Sees v (life_of exited told) d
      → Sees v
          (life_of exited (told_by told b))
          (record d { world = cancelled_world h job b d.world })
  unfolding observe_event emit
  cancelled_world-Sees false exited told d n m s = record { seen = s.seen; current = s.current }
  cancelled_world-Sees true exited told d n m s = grind (arith, observe-snoc)

  on_wake-IsCoherent :
      (w : Wake) (t : Task I)
      → t.wait_dropped ≡ false
      → IsCoherent v t
      → IsCoherent v (on_wake h platform interp job spec w t)
  unfolding on_wake step
  on_wake-IsCoherent w t e (told, c) = (
    told_by told (emits_cancelled t.wait.stage t.cancelled w),
    record {
      sees =
          cancelled_world-Sees (emits_cancelled t.wait.stage t.cancelled w) t.child_exited told
            t.drive
            (λ m.
              unspent-running t.wait.stage t.cancelled w t.wait_dropped t.child_exited e m c.spent)
            (told_once t.wait.stage t.cancelled told w c.once) c.sees;
      once = step-once t.wait.stage t.cancelled told w t.wait refl c.once;
      spent = λ x. step-is_spent t.wait.stage t.cancelled w t.wait t.wait_dropped refl (c.spent x);
    },
  )

  pub run-IsCoherent :
      (xs : List Tick) (t : Task I)
      → IsCoherent v t
      → IsCoherent v (run h platform interp job spec xs t)
  run-IsCoherent =
      run_keeps h platform interp job spec (IsCoherent v)
        (λ t u p c. (c.0, plumbing-IsCoherent h platform interp job spec v c.0 t u p c.1))
        (λ s x t c. (c.0, process_line-IsCoherent h platform interp job spec v c.0 s x t c.1))
        (λ r late t e sp c.
          (c.0, on_exit-IsCoherent h platform interp job spec v c.0 r late t e sp c.1))
        on_wake-IsCoherent
