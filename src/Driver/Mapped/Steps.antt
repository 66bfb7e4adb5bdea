-- ===== src/Driver/Mapped/Steps.antt =====
-- Views of the channel and the store that keep up with `emit`, `send` and `persist_snapshot` of
-- src/runtime/driver.rs, and with `apply_events`, `exit_open_phases` and the calls of the interpreter.
use execra.Base.{
  Text, Bool, true, false, Option, none, some, List, [], ◌∷◌, snoc, ◌≡◌, refl, ap, ◌∙◌,
}
use execra.Command.{CommandSpec}
use execra.Event.{Event, Stream, job_id}
use execra.Finding.{SystemTime}
use execra.Host.{Host}
use execra.Interpreter.{InterpreterEvent, Interpreter, Line, Returned, ok, panicked}
use execra.Job.{Job, JobId, Phase}
use execra.Outcome.{ExitCode}
use execra.Store.{Store}
use execra.Driver.Apply.{
  apply_event, apply_events, enter_phase, update_phase, exit_phase, exit_phases, exit_open_phases,
  emit_interp_error,
}
use execra.Driver.Loop.Call.{call_exit, call_line, disable, process_line, record_line, settle}
use execra.Driver.Loop.Task.{Task}
use execra.Driver.World.{
  World, Drive, emit, update_snapshot, persist_snapshot, send, stored, upserted, after_now,
}

-- `on_sent` and `on_store` are what the view shows of the channel and of the store.
pub record Lens (h : Host) (job : JobId) : Type 0 where
  pub on_sent : List Event → List Event
  pub on_store : Option Store → Option Store
  pub sent_law :
      (es : List Event) (e : Event) → job_id e ≡ job → on_sent (snoc es e) ≡ snoc (on_sent es) e
  pub stored_law :
      (e : Event) (s : Option Store) → on_store (stored h e s) ≡ stored h e (on_store s)
  pub upserted_law :
      (j : Job) (s : Option Store) → on_store (upserted h j s) ≡ upserted h j (on_store s)

abbrev pub with_world : Drive → World → Drive
with_world d w = record d { world = w }

abbrev pub with_drive : {I : Type 0} → Task I → Drive → Task I
with_drive t d = record t { drive = d }

abbrev with_io : World → List Event → Option Store → World
with_io w es s = record w { sent = es; store = s }

abbrev phases_closed : Drive → World → Drive
phases_closed d w = record { state = record d.state { phase_stack = [] }; world = w }

module _ {h : Host} {job : JobId} (l : Lens h job) where
  abbrev pub seen : World → World
  seen w = record w { sent = l.on_sent w.sent; store = l.on_store w.store }

  abbrev pub seen_drive : Drive → Drive
  seen_drive d = record d { world = seen d.world }

  abbrev pub seen_task : {I : Type 0} → Task I → Task I
  seen_task t = record t { drive = seen_drive t.drive }

  pub emit-seen : (e : Event) (w : World) → job_id e ≡ job → seen (emit h e w) ≡ emit h e (seen w)
  unfolding emit
  emit-seen e w o =
      ap (λ es. with_io w es (l.on_store (stored h e w.store))) (l.sent_law w.sent e o)
      ∙ ap (λ s. with_io w (snoc (l.on_sent w.sent) e) s) (l.stored_law e w.store)

  pub send-seen : (e : Event) (w : World) → job_id e ≡ job → seen (send e w) ≡ send e (seen w)
  unfolding send
  send-seen e w o = ap (λ es. with_io w es (l.on_store w.store)) (l.sent_law w.sent e o)

  pub persist_snapshot-seen :
      (w : World) → seen (persist_snapshot h w) ≡ persist_snapshot h (seen w)
  unfolding persist_snapshot
  persist_snapshot-seen w =
      ap (λ s. with_io w (l.on_sent w.sent) s) (l.upserted_law w.snapshot w.store)

  update_phase-seen :
      (ps : List Phase) (label : Text) (at : SystemTime) (d : Drive)
      → seen_drive (update_phase h job ps label at d)
        ≡ update_phase h job ps label at (seen_drive d)
  unfolding update_phase emit_interp_error job_id
  update_phase-seen [] label at d = ap (with_world d) (emit-seen _ d.world refl)
  update_phase-seen (p ∷ ps) label at d =
      ap (with_world (update_phase h job (p ∷ ps) label at d)) (emit-seen _ d.world refl)

  exit_phase-seen :
      (ps : List Phase) (at : SystemTime) (d : Drive)
      → seen_drive (exit_phase h job ps at d) ≡ exit_phase h job ps at (seen_drive d)
  unfolding exit_phase emit_interp_error update_snapshot job_id
  exit_phase-seen [] at d = ap (with_world d) (emit-seen _ d.world refl)
  exit_phase-seen (p ∷ ps) at d =
      ap (with_world (exit_phase h job (p ∷ ps) at d)) (emit-seen _ _ refl)

  apply_event-seen :
      (ev : InterpreterEvent) (at : SystemTime) (d : Drive)
      → seen_drive (apply_event h job ev at d) ≡ apply_event h job ev at (seen_drive d)
  unfolding apply_event enter_phase update_snapshot job_id
  apply_event-seen (InterpreterEvent.enter_phase name label) at d =
      ap (with_world (enter_phase h job name label at d)) (emit-seen _ _ refl)
  apply_event-seen (InterpreterEvent.update_phase label) at d =
      update_phase-seen d.state.phase_stack label at d
  apply_event-seen InterpreterEvent.exit_phase at d = exit_phase-seen d.state.phase_stack at d
  apply_event-seen (InterpreterEvent.summary text) at d = refl
  apply_event-seen ev at d = ap (with_world (apply_event h job ev at d)) (emit-seen _ _ refl)

  apply_events-seen :
      (evs : List InterpreterEvent) (d : Drive)
      → seen_drive (apply_events h job evs d) ≡ apply_events h job evs (seen_drive d)
  unfolding apply_events
  apply_events-seen [] d = refl
  apply_events-seen (ev ∷ evs) d =
      apply_events-seen evs _ ∙ ap (apply_events h job evs) (apply_event-seen ev _ _)

  exit_phases-seen :
      (ps : List Phase) (w : World) → seen (exit_phases h job ps w) ≡ exit_phases h job ps (seen w)
  unfolding exit_phases job_id
  exit_phases-seen [] w = refl
  exit_phases-seen (p ∷ ps) w =
      exit_phases-seen ps _ ∙ ap (exit_phases h job ps) (emit-seen _ (after_now w) refl)

  pub exit_open_phases-seen :
      (d : Drive) → seen_drive (exit_open_phases h job d) ≡ exit_open_phases h job (seen_drive d)
  unfolding exit_open_phases update_snapshot
  exit_open_phases-seen d =
      ap
        (λ (w : World).
          phases_closed d (update_snapshot (λ j. record j { current_phase = none }) w))
        (exit_phases-seen d.state.phase_stack d.world)

  module _ {I : Type 0} where
    settle-seen :
        (line : Option Text) (r : Returned I) (t : Task I)
        → seen_task (settle h job line r t) ≡ settle h job line r (seen_task t)
    unfolding settle disable job_id
    settle-seen line (ok i evs) t =
        ap (λ (d : Drive). with_drive (record t { interpreter = some i }) d)
          (apply_events-seen evs t.drive)
    settle-seen line (panicked i p) t =
        ap
          (λ w.
            with_drive (settle h job line (panicked i p) t)
              (with_world (disable h job p line t.drive) w))
          (emit-seen _ (after_now t.drive.world) refl)

    module _ (interp : Interpreter I) (spec : CommandSpec) where
      call_line-seen :
          (i : Option I) (off : Bool) (x : Line) (t : Task I)
          → seen_task (call_line h interp job spec i off x t)
            ≡ call_line h interp job spec i off x (seen_task t)
      unfolding call_line
      call_line-seen (some i) false x t = settle-seen (some x.text) _ t
      call_line-seen (some i) true x t = refl
      call_line-seen none off x t = refl

      pub call_exit-seen :
          (i : Option I) (off : Bool) (exit : ExitCode) (t : Task I)
          → seen_task (call_exit h interp job spec i off exit t)
            ≡ call_exit h interp job spec i off exit (seen_task t)
      unfolding call_exit
      call_exit-seen (some i) false exit t = settle-seen none _ t
      call_exit-seen (some i) true exit t = refl
      call_exit-seen none off exit t = refl

      record_line-seen :
          (s : Stream) (text : Text) (at : SystemTime) (t : Task I)
          → seen_task (record_line h interp job spec s text at t)
            ≡ record_line h interp job spec s text at (seen_task t)
      unfolding record_line job_id
      record_line-seen s text at t =
          ap (λ w. with_drive (record_line h interp job spec s text at t) (with_world t.drive w))
            (send-seen _ (after_now t.drive.world) refl)

      pub process_line-seen :
          (s : Stream) (text : Text) (t : Task I)
          → seen_task (process_line h interp job spec s text t)
            ≡ process_line h interp job spec s text (seen_task t)
      unfolding process_line
      process_line-seen s text t =
          call_line-seen t.interpreter t.drive.state.interp_disabled _ _
          ∙ ap (call_line h interp job spec t.interpreter t.drive.state.interp_disabled _)
              (record_line-seen s text _ t)
