-- ===== src/Driver/Logged.antt =====
-- What the events table holds of the events of a job (src/runtime/driver.rs, `emit`, and src/store.rs).
use execra.Base.{
  codes, text_eq, not, ◌||◌, refl, Option-cases, ℕ, Text, Bool, true, false, Option, none, some,
  List, [], ◌∷◌, ◌++◌, snoc, ◌≡◌, sym, subst, ap, ◌∙◌, arith, if◌then◌else◌, append-nil,
  append_assoc, Bool-cases, inl, inr,
}
use execra.Command.{CommandSpec, Platform}
use execra.Event.{Event, Stream}
use execra.Finding.{SystemTime}
use execra.Base.Sorted.{filter}
use execra.Host.{Host, Serde}
use execra.Interpreter.{Interpreter, InterpreterEvent, Returned, ok, panicked, Line}
use execra.Job.{Job, JobId, JobState, Phase}
use execra.Outcome.{ExitCode, Outcome}
use execra.Store.{Store, insert_event, is_output}
use execra.Store.Listing.{
  event_row, insert_event-events, insert_event-no_json, insert_event-output, upsert_job-events,
}
use execra.Store.Rows.{EventRow, event_kind}
use execra.Driver.Apply.{
  apply_event, apply_events, enter_phase, emit_interp_error, exit_open_phases, exit_phase,
  exit_phases, update_phase,
}
use execra.Driver.Loop.Call.{
  call_exit, call_line, disable, process_line, record_line, run_on_exit, settle,
}
use execra.Driver.Loop.Rule.{run_keeps}
use execra.Driver.Loop.Run.{
  Tick, cancelled_world, finalize, finish, on_wake, run, verdict, wind_up, final_exit,
}
use execra.Driver.Loop.Select.{exit_code, note_exit, on_exit}
use execra.Driver.Loop.Task.{Task}
use execra.Driver.Wait.{emits_cancelled}
use execra.Driver.World.{
  World, Drive, emit, persist_snapshot, stored, upserted, update_snapshot, now, after_now,
}

some_inj : {A : Type 0} {a b : A} → some a ≡ some b → a ≡ b
some_inj e = cc

abbrev pub is_cancelled : Event → Bool
is_cancelled (Event.cancelled job at) = true
is_cancelled _ = false

-- The row of an event that the driver itself sends, if it has a JSON text: none of output, and none of
-- the cancellation, which the wait task sends and inserts beside the driver.
abbrev pub row_of : Serde → Event → List EventRow
row_of s e =
    if is_output e || is_cancelled e
    then []
    else elim (s.event_to_json e) [ none ↦ [] | some payload ↦ event_row e payload ∷ [] ]

-- The rows of these events.
unfoldable pub logged : Serde → List Event → List EventRow
logged s [] = []
logged s (e ∷ es) = row_of s e ++ logged s es

logged-snoc :
    (s : Serde) (es : List Event) (e : Event) → logged s (snoc es e) ≡ logged s es ++ row_of s e
unfolding logged
logged-snoc s [] e = append-nil (row_of s e)
logged-snoc s (x ∷ es) e =
    ap (λ rs. row_of s x ++ rs) (logged-snoc s es e)
    ∙ sym (append_assoc (row_of s x) (logged s es) (row_of s e))

-- Not the row of a cancellation.
abbrev pub is_drivers : EventRow → Bool
is_drivers r = not (text_eq r.kind (codes "cancelled"))

-- The rows of the events table but those of cancellations.
abbrev pub events_of : Option Store → Option (List EventRow)
events_of none = none
events_of (some s) = some (filter is_drivers s.events)

event_row-is_drivers :
    (e : Event) (payload : Text) → is_drivers (event_row e payload) ≡ not (is_cancelled e)
unfolding event_kind text_eq
event_row-is_drivers (Event.job_created j c at) p = refl
event_row-is_drivers (Event.job_started j c at) p = refl
event_row-is_drivers (Event.phase_entered j i n l at) p = refl
event_row-is_drivers (Event.phase_updated j i l at) p = refl
event_row-is_drivers (Event.phase_exited j i at) p = refl
event_row-is_drivers (Event.progress_updated j x at) p = refl
event_row-is_drivers (Event.label_updated j l at) p = refl
event_row-is_drivers (Event.output_appended j s l at) p = refl
event_row-is_drivers (Event.warning_detected j c m at) p = refl
event_row-is_drivers (Event.known_error_detected j c m at) p = refl
event_row-is_drivers (Event.finding_emitted j f at) p = refl
event_row-is_drivers (Event.prompt_detected j x at) p = refl
event_row-is_drivers (Event.interpreter_error j i x l at) p = refl
event_row-is_drivers (Event.exited j c at) p = refl
event_row-is_drivers (Event.finalized j o at) p = refl
event_row-is_drivers (Event.cancelled j at) p = refl

filter-snoc :
    (rs : List EventRow) (r : EventRow)
    → filter is_drivers (snoc rs r) ≡ filter is_drivers rs ++ (if is_drivers r then r ∷ [] else [])
unfolding filter
filter-snoc [] r = ground arith
filter-snoc (x ∷ rs) r = ground (arith, filter-snoc rs r)

-- SQLite runs every statement.
module _ (h : Host) (runs : (n : ℕ) → h.runs n ≡ true) where
  abbrev pub IsLogged : World → Type 0
  IsLogged w = events_of w.store ≡ some (logged h.serde w.sent)

  inserted :
      (e : Event) (s : Store) (payload : Text)
      → is_output e ≡ false
      → h.serde.event_to_json e ≡ some payload
      → filter is_drivers (insert_event h e s).1.events
        ≡ filter is_drivers s.events ++ row_of h.serde e
  inserted e s payload o j =
      ap (filter is_drivers) (insert_event-events h e s payload o j (runs s.statements))
      ∙ filter-snoc s.events (event_row e payload)
      ∙ ap (λ rs. filter is_drivers s.events ++ rs) (ground (arith, event_row-is_drivers e payload))

  insert_event-logged :
      (e : Event) (s : Store)
      → filter is_drivers (insert_event h e s).1.events
        ≡ filter is_drivers s.events ++ row_of h.serde e
  insert_event-logged e s = elim (Bool-cases (is_output e)) [
    | inl o ↦ ground (arith, insert_event-output h e s o, append-nil (filter is_drivers s.events))
    | inr o ↦ elim (Option-cases (h.serde.event_to_json e)) [
      | inl n ↦
          ground (arith, insert_event-no_json h e s o n, append-nil (filter is_drivers s.events))
      | inr (payload, j) ↦ inserted e s payload o j
    ]
  ]

  stored-events :
      (e : Event) (o : Option Store) (rs : List EventRow)
      → events_of o ≡ some rs
      → events_of (stored h e o) ≡ some (rs ++ row_of h.serde e)
  stored-events e none rs l = ground arith
  stored-events e (some s) rs l =
      ap some (insert_event-logged e s) ∙ ap some (ap (λ xs. xs ++ row_of h.serde e) (some_inj l))

  emit-IsLogged : (e : Event) (w : World) → IsLogged w → IsLogged (emit h e w)
  unfolding emit
  emit-IsLogged e w l =
      stored-events e w.store (logged h.serde w.sent) l
      ∙ ap some (sym (logged-snoc h.serde w.sent e))

  upserted-events :
      (j : Job) (o : Option Store) (rs : List EventRow)
      → events_of o ≡ some rs
      → events_of (upserted h j o) ≡ some rs
  upserted-events j none rs l = l
  upserted-events j (some s) rs l =
      ap (λ es. some (filter is_drivers es)) (upsert_job-events h j s) ∙ l

  persist-IsLogged : (w : World) → IsLogged w → IsLogged (persist_snapshot h w)
  unfolding persist_snapshot
  persist-IsLogged w l = upserted-events w.snapshot w.store (logged h.serde w.sent) l

  module _ (job : JobId) where
    update_phase-IsLogged :
        (ps : List Phase) (l : Text) (at : SystemTime) (d : Drive)
        → IsLogged d.world
        → IsLogged (update_phase h job ps l at d).world
    unfolding update_phase emit_interp_error
    update_phase-IsLogged [] l at d g = emit-IsLogged _ d.world g
    update_phase-IsLogged (p ∷ ps) l at d g = emit-IsLogged _ d.world g

    exit_phase-IsLogged :
        (ps : List Phase) (at : SystemTime) (d : Drive)
        → IsLogged d.world
        → IsLogged (exit_phase h job ps at d).world
    unfolding exit_phase emit_interp_error update_snapshot
    exit_phase-IsLogged [] at d g = emit-IsLogged _ d.world g
    exit_phase-IsLogged (p ∷ ps) at d g = emit-IsLogged _ d.world g

    apply_event-IsLogged :
        (ev : InterpreterEvent) (at : SystemTime) (d : Drive)
        → IsLogged d.world
        → IsLogged (apply_event h job ev at d).world
    unfolding apply_event update_snapshot enter_phase
    apply_event-IsLogged (InterpreterEvent.summary t) at d g = g
    apply_event-IsLogged (InterpreterEvent.update_phase l) at d g =
        update_phase-IsLogged d.state.phase_stack l at d g
    apply_event-IsLogged InterpreterEvent.exit_phase at d g =
        exit_phase-IsLogged d.state.phase_stack at d g
    apply_event-IsLogged _ at d g = emit-IsLogged _ d.world g

    apply_events-IsLogged :
        (evs : List InterpreterEvent) (d : Drive)
        → IsLogged d.world
        → IsLogged (apply_events h job evs d).world
    unfolding apply_events
    apply_events-IsLogged [] d g = g
    apply_events-IsLogged (ev ∷ evs) d g =
        apply_events-IsLogged evs _
          (apply_event-IsLogged ev (now h d.world) (record d { world = after_now d.world }) g)

    exit_phases-IsLogged :
        (ps : List Phase) (w : World) → IsLogged w → IsLogged (exit_phases h job ps w)
    unfolding exit_phases
    exit_phases-IsLogged [] w g = g
    exit_phases-IsLogged (p ∷ ps) w g =
        exit_phases-IsLogged ps (emit h (Event.phase_exited job p.id (now h w)) (after_now w))
          (emit-IsLogged (Event.phase_exited job p.id (now h w)) w g)

    cancelled_world-IsLogged :
        (b : Bool) (w : World) → IsLogged w → IsLogged (cancelled_world h job b w)
    unfolding emit
    cancelled_world-IsLogged false w g = g
    cancelled_world-IsLogged true w g = emit-IsLogged _ w g

    finalize-IsLogged : (o : Outcome) (w : World) → IsLogged w → IsLogged (finalize h job o w)
    unfolding finalize update_snapshot
    finalize-IsLogged o w g =
        let u =
          update_snapshot (λ j. record j { state = JobState.finalized; outcome = some o }) w in
        emit-IsLogged _ (persist_snapshot h u) (persist-IsLogged u g)

    note_exit-IsLogged : (e : ExitCode) (w : World) → IsLogged w → IsLogged (note_exit h job e w)
    unfolding note_exit update_snapshot
    note_exit-IsLogged e w g =
        let ev = Event.exited job e (now h w) in
        persist-IsLogged
          (update_snapshot (λ j. record j { exit = some e; state = JobState.exited })
            (emit h ev (after_now w)))
          (emit-IsLogged ev w g)

    settle-IsLogged :
        {I : Type 0} (l : Option Text) (r : Returned I) (t : Task I)
        → IsLogged t.drive.world
        → IsLogged (settle h job l r t).drive.world
    unfolding settle disable
    settle-IsLogged l (ok i evs) t g = apply_events-IsLogged evs t.drive g
    settle-IsLogged l (panicked i p) t g = emit-IsLogged _ t.drive.world g

    module _ {I : Type 0} (platform : Platform) (interp : Interpreter I) (spec : CommandSpec) where
      call_line-IsLogged :
          (o : Option I) (b : Bool) (l : Line) (t : Task I)
          → IsLogged t.drive.world
          → IsLogged (call_line h interp job spec o b l t).drive.world
      unfolding call_line
      call_line-IsLogged (some i) false l t g = settle-IsLogged _ _ t g
      call_line-IsLogged (some i) true l t g = g
      call_line-IsLogged none b l t g = g

      call_exit-IsLogged :
          (o : Option I) (b : Bool) (e : ExitCode) (t : Task I)
          → IsLogged t.drive.world
          → IsLogged (call_exit h interp job spec o b e t).drive.world
      unfolding call_exit
      call_exit-IsLogged (some i) false e t g = settle-IsLogged _ _ t g
      call_exit-IsLogged (some i) true e t g = g
      call_exit-IsLogged none b e t g = g

      record_line-IsLogged :
          (s : Stream) (x : Text) (at : SystemTime) (t : Task I)
          → IsLogged t.drive.world
          → IsLogged (record_line h interp job spec s x at t).drive.world
      unfolding record_line
      record_line-IsLogged s x at t g =
          g
          ∙ ap some (
              sym (append-nil (logged h.serde t.drive.world.sent))
              ∙ sym (logged-snoc h.serde t.drive.world.sent (Event.output_appended job s x at)))

      process_line-IsLogged :
          (s : Stream) (x : Text) (t : Task I)
          → IsLogged t.drive.world
          → IsLogged (process_line h interp job spec s x t).drive.world
      unfolding process_line
      process_line-IsLogged s x t g = call_line-IsLogged _ _ _ _ (record_line-IsLogged s x _ t g)

      run-IsLogged :
          (xs : List Tick) (t : Task I)
          → IsLogged t.drive.world
          → IsLogged (run h platform interp job spec xs t).drive.world
      unfolding on_exit on_wake
      run-IsLogged =
          run_keeps h platform interp job spec (λ t. IsLogged t.drive.world)
            (λ t u p g. subst (λ d. IsLogged d.world) (sym p.drive) g) process_line-IsLogged
            (λ r late t e s g. note_exit-IsLogged (exit_code platform r) t.drive.world g)
            (λ w t e g.
              cancelled_world-IsLogged (emits_cancelled t.wait.stage t.cancelled w) t.drive.world g)

      -- History: if the events table holds the events that the driver has sent, but the output and
      -- those that have no JSON text, in their order, and SQLite runs every statement, then when
      -- the job is through it still does. The row of the cancellation is left out, since the wait
      -- task inserts it beside the driver.
      pub finish-IsLogged :
          (xs : List Tick) (t : Task I)
          → events_of t.drive.world.store ≡ some (logged h.serde t.drive.world.sent)
          → let u = (finish h platform interp job spec (run h platform interp job spec xs t)).1 in
            events_of u.drive.world.store ≡ some (logged h.serde u.drive.world.sent)
      unfolding finish wind_up run_on_exit exit_open_phases update_snapshot
      finish-IsLogged xs t g =
          let u = run h platform interp job spec xs t in
          let e = final_exit h platform interp job spec u.exit_status in
          let v = run_on_exit h interp job spec e u in
          finalize-IsLogged
            (verdict h platform interp job spec (wind_up h platform interp job spec u))
            (update_snapshot (λ j. record j { current_phase = none })
              (exit_phases h job v.drive.state.phase_stack v.drive.world))
            (exit_phases-IsLogged v.drive.state.phase_stack v.drive.world (
              call_exit-IsLogged u.interpreter u.drive.state.interp_disabled e u
                (run-IsLogged xs t g)))
