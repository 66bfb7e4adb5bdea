-- ===== src/Driver/Apply.antt =====
-- `apply_events`, `emit_interp_error` and `exit_open_phases` of src/runtime/driver.rs.
use execra.Base.{suc, Text, codes, Option, none, some, List, [], ◌∷◌, snoc}
use execra.Event.{Event}
use execra.Finding.{SystemTime}
use execra.Host.{Host}
use execra.Interpreter.{InterpreterEvent}
use execra.Job.{JobId, Phase, PhaseId}
use execra.Progress
use execra.Driver.World.{World, Drive, now, after_now, emit, update_snapshot}

abbrev pub top_id : List Phase → Option PhaseId
top_id [] = none
top_id (p ∷ ps) = some p.id

abbrev pub interpreter_name : Text
interpreter_name = codes "interpreter"

module _ (h : Host) (job : JobId) where
  unfoldable pub emit_interp_error : Text → Option Text → SystemTime → World → World
  emit_interp_error error line at =
      emit h (Event.interpreter_error job interpreter_name error line at)

  -- Each function below is one arm of the match, at the time `at`.
  unfoldable pub enter_phase : Text → Option Text → SystemTime → Drive → Drive
  unfolding emit update_snapshot
  enter_phase name label at d =
      let id = h.new_id d.world.ids in
      let w = record d.world { ids = suc d.world.ids } in
      let phase : Phase = record { id = id; name = name; label = label; entered_at = at } in
      record {
        state = record d.state { phase_stack = phase ∷ d.state.phase_stack };
        world =
            emit h (Event.phase_entered job id name label at)
              (update_snapshot (λ j. record j { current_phase = some id }) w);
      }

  unfoldable pub update_phase : List Phase → Text → SystemTime → Drive → Drive
  unfolding emit emit_interp_error
  update_phase [] label at d = record d {
    world = emit_interp_error (codes "UpdatePhase with empty phase stack") none at d.world;
  }
  update_phase (top ∷ rest) label at d = record {
    state = record d.state { phase_stack = record top { label = some label } ∷ rest };
    world = emit h (Event.phase_updated job top.id label at) d.world;
  }

  unfoldable pub exit_phase : List Phase → SystemTime → Drive → Drive
  unfolding emit update_snapshot emit_interp_error
  exit_phase [] at d = record d {
    world = emit_interp_error (codes "ExitPhase with empty phase stack") none at d.world;
  }
  exit_phase (top ∷ rest) at d = record {
    state = record d.state { phase_stack = rest };
    world =
        emit h (Event.phase_exited job top.id at)
          (update_snapshot (λ j. record j { current_phase = top_id rest }) d.world);
  }

  unfoldable pub apply_event : InterpreterEvent → SystemTime → Drive → Drive
  unfolding enter_phase update_phase exit_phase emit update_snapshot
  apply_event (InterpreterEvent.enter_phase name label) at d = enter_phase name label at d
  apply_event (InterpreterEvent.update_phase label) at d =
      update_phase d.state.phase_stack label at d
  apply_event InterpreterEvent.exit_phase at d = exit_phase d.state.phase_stack at d
  apply_event (InterpreterEvent.progress progress) at d =
      let p = Progress.normalize progress in
      record d {
        world =
            emit h (Event.progress_updated job p at)
              (update_snapshot (λ j. record j { progress = p }) d.world);
      }
  apply_event (InterpreterEvent.label text) at d = record d {
    world =
        emit h (Event.label_updated job text at)
          (update_snapshot (λ j. record j { label = some text }) d.world);
  }
  apply_event (InterpreterEvent.warning code message) at d = record d {
    world = emit h (Event.warning_detected job code message at) d.world;
  }
  apply_event (InterpreterEvent.known_error code message) at d = record {
    state = record d.state { known_error = some (code, message) };
    world = emit h (Event.known_error_detected job code message at) d.world;
  }
  apply_event (InterpreterEvent.finding finding) at d = record {
    state = record d.state { findings = snoc d.state.findings finding };
    world = emit h (Event.finding_emitted job finding at) d.world;
  }
  apply_event (InterpreterEvent.prompt prompt) at d = record d {
    world = emit h (Event.prompt_detected job prompt at) d.world;
  }
  apply_event (InterpreterEvent.summary text) at d = record d {
    state = record d.state { summary = some text };
  }

  unfoldable pub apply_events : List InterpreterEvent → Drive → Drive
  unfolding apply_event
  apply_events [] d = d
  apply_events (ev ∷ evs) d =
      apply_events evs (apply_event ev (now h d.world) (record d { world = after_now d.world }))

  -- The loop of `exit_open_phases` over the stack.
  unfoldable pub exit_phases : List Phase → World → World
  unfolding emit
  exit_phases [] w = w
  exit_phases (top ∷ rest) w =
      exit_phases rest (emit h (Event.phase_exited job top.id (now h w)) (after_now w))

  unfoldable pub exit_open_phases : Drive → Drive
  unfolding exit_phases update_snapshot
  exit_open_phases d = record {
    state = record d.state { phase_stack = [] };
    world =
        update_snapshot (λ j. record j { current_phase = none })
          (exit_phases d.state.phase_stack d.world);
  }
