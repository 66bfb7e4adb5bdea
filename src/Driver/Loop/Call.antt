-- ===== src/Driver/Loop/Call.antt =====
-- `process_line` and `run_on_exit` of src/runtime/driver.rs: the calls of the interpreter.
use mathlib.Core.List.{reverse}
use execra.Base.{Text, Bool, true, false, Option, none, some, List, [], ◌∷◌}
use execra.Command.{CommandSpec}
use execra.Event
use execra.Event.{Stream}
use execra.Finding.{SystemTime}
use execra.Host.{Host}
use execra.Interpreter.{Interpreter, Context, Line, Returned, ok, panicked, PanicPayload}
use execra.Job.{JobId, Phase}
use execra.Outcome.{ExitCode}
use execra.Driver.Apply.{apply_events, interpreter_name}
use execra.Driver.RawOutput.{keep_line}
use execra.Driver.Verdict.{panic_msg}
use execra.Driver.World.{Drive, now, after_now, emit, send}
use execra.Driver.Loop.Task.{Task}

abbrev pub last : List Phase → Option Phase
last [] = none
last (p ∷ ps) = some p

-- The slice that an interpreter sees has the innermost phase last.
abbrev pub context : Host → JobId → CommandSpec → Drive → Context
context h job spec d = record {
  job = job;
  command = spec;
  current_phase = last d.state.phase_stack;
  phase_stack = reverse d.state.phase_stack;
  elapsed = h.elapsed d.world.clock;
}

-- After a panic the interpreter is not called again for this job.
unfoldable pub disable : Host → JobId → PanicPayload → Option Text → Drive → Drive
unfolding emit
disable h job p line d = record {
  state = record d.state { interp_disabled = true };
  world =
      emit h (Event.interpreter_error job interpreter_name (panic_msg p) line (now h d.world))
        (after_now d.world);
}

module _ {I : Type 0} (h : Host) (job : JobId) where
  unfoldable pub settle : Option Text → Returned I → Task I → Task I
  unfolding disable
  settle line (ok i evs) t = record t {
    interpreter = some i;
    drive = apply_events h job evs t.drive;
  }
  settle line (panicked i p) t = record t {
    interpreter = some i;
    drive = disable h job p line t.drive;
  }

module _ {I : Type 0} (h : Host) (interp : Interpreter I) (job : JobId) (spec : CommandSpec) where
  -- `if let Some(interp) = interpreter { if !state.interp_disabled { … } }`
  unfoldable pub call_line : Option I → Bool → Line → Task I → Task I
  unfolding settle
  call_line (some i) false l t =
      settle h job (some l.text) (interp.on_line i (context h job spec t.drive) l) t
  call_line (some i) true l t = t
  call_line none disabled l t = t

  unfoldable pub call_exit : Option I → Bool → ExitCode → Task I → Task I
  unfolding settle
  call_exit (some i) false exit t =
      settle h job none (interp.on_exit i (context h job spec t.drive) exit) t
  call_exit (some i) true exit t = t
  call_exit none disabled exit t = t

  unfoldable pub run_on_exit : ExitCode → Task I → Task I
  unfolding call_exit
  run_on_exit exit t = call_exit t.interpreter t.drive.state.interp_disabled exit t

  -- The line goes to the raw output and to the channel, past the store, before it is interpreted.
  unfoldable pub record_line : Stream → Text → SystemTime → Task I → Task I
  unfolding send
  record_line stream text at t = record t {
    raw = keep_line job stream text t.raw;
    drive = record t.drive {
      world = send (Event.output_appended job stream text at) (after_now t.drive.world);
    };
  }

  unfoldable pub process_line : Stream → Text → Task I → Task I
  unfolding call_line record_line
  process_line stream text t =
      let at = now h t.drive.world in
      call_line t.interpreter t.drive.state.interp_disabled
        (record { stream = stream; text = text; at = at }) (record_line stream text at t)
