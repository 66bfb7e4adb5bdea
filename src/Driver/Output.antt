-- ===== src/Driver/Output.antt =====
-- The output events of a job, and what leaves them alone (src/runtime/driver.rs).
use execra.Base.{
  ℕ, zero, suc, Text, Bool, true, false, Option, none, some, List, [], ◌∷◌, ◌++◌, snoc, ◌≡◌, refl,
  sym, ap, subst, subst₂, ◌∙◌, arith, if◌then◌else◌, Bool-cases, inl, inr, if_rule₂, append-nil,
}
use execra.Command.{CommandSpec}
use execra.Event.{Event, Stream}
use execra.Finding.{SystemTime}
use execra.Host.{Host}
use execra.Interpreter.{Interpreter, InterpreterEvent, Returned, ok, panicked, Line}
use execra.Job.{JobId, Phase}
use execra.Outcome.{ExitCode, Outcome}
use execra.Driver.Apply.{apply_event, apply_events, update_phase, exit_phase, exit_phases}
use execra.Driver.Loop.Task.{Task}
use execra.Driver.Loop.Frame.{IsFrame}
use execra.Driver.Loop.Call.{settle, call_line, call_exit, record_line, process_line}
use execra.Driver.Loop.Run.{cancelled_world, finalize}
use execra.Driver.RawOutput.{keep_line}
use execra.Driver.World.{World, Drive, now, after_now, emit}

-- The output lines that were sent, in order.
abbrev pub line_of : Event → List (Stream × Text)
line_of (Event.output_appended job stream text at) = (stream, text) ∷ []
line_of _ = []

unfoldable pub output : List Event → List (Stream × Text)
output [] = []
output (e ∷ es) = line_of e ++ output es

pub output-snoc : (es : List Event) (e : Event) → output (snoc es e) ≡ output es ++ line_of e
unfolding output
output-snoc [] e = append-nil (line_of e)
output-snoc (x ∷ es) e =
    rw (output-snoc es e) (sym (execra.Base.append_assoc (line_of x) (output es) (line_of e)))

module _ (h : Host) (job : JobId) where
  update_phase-output :
      (ps : List Phase) (l : Text) (at : SystemTime) (d : Drive)
      → output (update_phase h job ps l at d).world.sent ≡ output d.world.sent
  unfolding update_phase
  update_phase-output [] l at d = grind (arith, output-snoc, append-nil)
  update_phase-output (p ∷ ps) l at d = grind (arith, output-snoc, append-nil)

  exit_phase-output :
      (ps : List Phase) (at : SystemTime) (d : Drive)
      → output (exit_phase h job ps at d).world.sent ≡ output d.world.sent
  unfolding exit_phase
  exit_phase-output [] at d = grind (arith, output-snoc, append-nil)
  exit_phase-output (p ∷ ps) at d = grind (arith, output-snoc, append-nil)

  apply_event-output :
      (ev : InterpreterEvent) (at : SystemTime) (d : Drive)
      → output (apply_event h job ev at d).world.sent ≡ output d.world.sent
  unfolding apply_event
  apply_event-output (InterpreterEvent.summary t) at d = refl
  apply_event-output (InterpreterEvent.update_phase l) at d =
      update_phase-output d.state.phase_stack l at d
  apply_event-output InterpreterEvent.exit_phase at d = exit_phase-output d.state.phase_stack at d
  apply_event-output _ at d = grind (arith, output-snoc, append-nil)

  apply_events-output :
      (evs : List InterpreterEvent) (d : Drive)
      → output (apply_events h job evs d).world.sent ≡ output d.world.sent
  unfolding apply_events
  apply_events-output [] d = refl
  apply_events-output (ev ∷ evs) d =
      let d' = record d { world = after_now d.world } in
      apply_events-output evs (apply_event h job ev (now h d.world) d')
      ∙ apply_event-output ev (now h d.world) d'

pub exit_phases-output :
    (h : Host) (job : JobId) (ps : List Phase) (w : World)
    → output (exit_phases h job ps w).sent ≡ output w.sent
unfolding exit_phases
exit_phases-output h job [] w = refl
exit_phases-output h job (p ∷ ps) w =
    exit_phases-output h job ps (emit h (Event.phase_exited job p.id (now h w)) (after_now w))
    ∙ unfold emit in output-snoc w.sent _ ∙ append-nil (output w.sent)

pub cancelled_world-output :
    (h : Host) (job : JobId) (x : Bool) (w : World)
    → output (cancelled_world h job x w).sent ≡ output w.sent
unfolding emit
cancelled_world-output h job false w = refl
cancelled_world-output h job true w = output-snoc w.sent _ ∙ append-nil (output w.sent)

-- A change of the interpreter and of what it tells, alone.
pub record IsQuiet {I : Type 0} (t u : Task I) : Type 0 where
  pub frame : IsFrame t u
  pub raw : u.raw ≡ t.raw
  pub output_same : output u.drive.world.sent ≡ output t.drive.world.sent

module _ {I : Type 0} (h : Host) (interp : Interpreter I) (job : JobId) (spec : CommandSpec) where
  IsQuiet-refl : (t : Task I) → IsQuiet t t
  IsQuiet-refl t = grind arith

  settle-IsQuiet : (l : Option Text) (r : Returned I) (t : Task I) → IsQuiet t (settle h job l r t)
  unfolding settle
  settle-IsQuiet l (ok i evs) t = grind (arith, apply_events-output h job evs t.drive)
  settle-IsQuiet l (panicked i p) t = grind (arith, output-snoc, append-nil)

  pub call_line-IsQuiet :
      (o : Option I) (b : Bool) (l : Line) (t : Task I)
      → IsQuiet t (call_line h interp job spec o b l t)
  unfolding call_line
  call_line-IsQuiet (some i) false l t = settle-IsQuiet _ _ t
  call_line-IsQuiet (some i) true l t = IsQuiet-refl t
  call_line-IsQuiet none b l t = IsQuiet-refl t

  pub call_exit-IsQuiet :
      (o : Option I) (b : Bool) (e : ExitCode) (t : Task I)
      → IsQuiet t (call_exit h interp job spec o b e t)
  unfolding call_exit
  call_exit-IsQuiet (some i) false l t = settle-IsQuiet _ _ t
  call_exit-IsQuiet (some i) true l t = IsQuiet-refl t
  call_exit-IsQuiet none b l t = IsQuiet-refl t

module _ {I : Type 0} (h : Host) (interp : Interpreter I) (job : JobId) (spec : CommandSpec) where
  -- A line is one more output event and one more line of raw output, whatever the interpreter makes
  -- of it.
  pub process_line-kept :
      (s : Stream) (x : Text) (t : Task I)
      → ((process_line h interp job spec s x t).raw ≡ keep_line job s x t.raw)
        × (output (process_line h interp job spec s x t).drive.world.sent
            ≡ snoc (output t.drive.world.sent) (s, x))
  unfolding process_line record_line
  process_line-kept s x t =
      let q =
        call_line-IsQuiet h interp job spec t.interpreter t.drive.state.interp_disabled
          (record { stream = s; text = x; at = now h t.drive.world })
          (record_line h interp job spec s x (now h t.drive.world) t) in
      (q.raw, q.output_same ∙ output-snoc t.drive.world.sent _)

pub finalize-output :
    (h : Host) (job : JobId) (o : Outcome) (w : World)
    → output (finalize h job o w).sent ≡ output w.sent
unfolding finalize
finalize-output h job o w = output-snoc w.sent _ ∙ append-nil (output w.sent)
