-- ===== src/Driver/Faithful.antt =====
-- The driver's state beside the events that it sends: `apply_events` and `exit_open_phases` of
-- src/runtime/driver.rs.
use execra.Base.{Text, some, List, [], ◌∷◌, ◌≡◌, refl, ◌∙◌, arith}
use execra.Event.{Event}
use execra.Finding.{SystemTime}
use execra.Host.{Host}
use execra.Interpreter.{InterpreterEvent}
use execra.Job.{JobId, Phase, PhaseId}
use execra.Driver.Apply.{
  top_id, update_phase, exit_phase, apply_event, apply_events, exit_phases, exit_open_phases,
}
use execra.Driver.Observer.{Life, View, stay, observe_event, observe, observe-snoc}
use execra.Driver.World.{World, Drive, now, after_now, emit}

abbrev pub ids : List Phase → List PhaseId
ids [] = []
ids (p ∷ ps) = p.id ∷ ids ps

-- What the driver holds, as a view.
abbrev pub view : Life → Drive → View
view life d = record {
  life = life;
  phases = some (ids d.state.phase_stack);
  findings = d.state.findings;
  known_error = d.state.known_error;
  progress = d.world.snapshot.progress;
  label = d.world.snapshot.label;
}

-- A subscriber whose view was `v` at the start now sees what the driver holds, and the snapshot
-- names the innermost phase.
pub record Sees (v : View) (life : Life) (d : Drive) : Type 0 where
  pub seen : observe v d.world.sent ≡ view life d
  pub current : d.world.snapshot.current_phase ≡ top_id d.state.phase_stack

module _ (h : Host) (job : JobId) (v : View) (life : Life) (lives : stay life ≡ life) where
  update_phase-Sees :
      (ps : List Phase) (label : Text) (at : SystemTime) (d : Drive)
      → d.state.phase_stack ≡ ps
      → Sees v life d
      → Sees v life (update_phase h job ps label at d)
  unfolding update_phase observe_event
  update_phase-Sees [] label at d e s = grind (arith, observe-snoc)
  update_phase-Sees (p ∷ ps) label at d e s = grind (arith, observe-snoc)

  exit_phase-Sees :
      (ps : List Phase) (at : SystemTime) (d : Drive)
      → d.state.phase_stack ≡ ps
      → Sees v life d
      → Sees v life (exit_phase h job ps at d)
  unfolding exit_phase observe_event
  exit_phase-Sees [] at d e s = grind (arith, observe-snoc)
  exit_phase-Sees (p ∷ ps) at d e s = grind (arith, observe-snoc)

  apply_event-Sees :
      (ev : InterpreterEvent) (at : SystemTime) (d : Drive)
      → Sees v life d
      → Sees v life (apply_event h job ev at d)
  unfolding apply_event observe_event
  apply_event-Sees (InterpreterEvent.update_phase label) at d s =
      update_phase-Sees d.state.phase_stack label at d refl s
  apply_event-Sees InterpreterEvent.exit_phase at d s =
      exit_phase-Sees d.state.phase_stack at d refl s
  apply_event-Sees (InterpreterEvent.summary text) at d s = grind arith
  apply_event-Sees _ at d s = grind (arith, observe-snoc)

  -- Whatever an interpreter returns, the events that the driver sends for it keep the subscriber's
  -- view equal to the driver's state.
  pub apply_events-Sees :
      (evs : List InterpreterEvent) (d : Drive)
      → Sees v life d
      → Sees v life (apply_events h job evs d)
  unfolding apply_events
  apply_events-Sees [] d s = s
  apply_events-Sees (ev ∷ evs) d s = apply_events-Sees evs _ (
      apply_event-Sees ev (now h d.world) (record d { world = after_now d.world })
        (record { seen = s.seen; current = s.current }))

  exit_phases-seen :
      (ps : List Phase) (w : World) (u : View)
      → observe v w.sent ≡ record u { life = life; phases = some (ids ps) }
      → observe v (exit_phases h job ps w).sent ≡ record u { life = life; phases = some [] }
  unfolding exit_phases observe_event
  exit_phases-seen [] w u e = e
  exit_phases-seen (p ∷ ps) w u e =
      exit_phases-seen ps (emit h (Event.phase_exited job p.id (now h w)) (after_now w)) u
        (grind (arith, observe-snoc))

  exit_phases-snapshot :
      (ps : List Phase) (w : World) → (exit_phases h job ps w).snapshot ≡ w.snapshot
  unfolding exit_phases
  exit_phases-snapshot [] w = refl
  exit_phases-snapshot (p ∷ ps) w =
      exit_phases-snapshot ps (emit h (Event.phase_exited job p.id (now h w)) (after_now w))

  -- After `exit_open_phases` no phase is open, for the driver and for the subscriber.
  pub exit_open_phases-Sees :
      (d : Drive)
      → Sees v life d
      → Sees v life (exit_open_phases h job d) × ((exit_open_phases h job d).state.phase_stack ≡ [])
  unfolding exit_open_phases
  exit_open_phases-Sees d s = (
    record {
      seen =
          exit_phases-seen d.state.phase_stack d.world (view life d) s.seen
          ∙ rw (exit_phases-snapshot d.state.phase_stack d.world);
      current = refl;
    },
    refl,
  )
