-- ===== src/Tauri/Tests.antt =====
-- A forwarded job with a phase that creeps, and the theorems at it.
use execra.Base.{
  ℕ, Text, Option, true, map, arith, ◌+◌, codes, false, none, some, List, [], ◌∷◌, ◌≡◌, refl, ltb,
}
use execra.Base.Int.{pos}
use execra.Command.{Command, CommandSpec, Platform}
use execra.Event
use execra.Event.{Event, Stream}
use execra.Job.{JobId}
use execra.Outcome.{Outcome, cancelled}
use execra.Driver.Samples
use execra.Driver.Loop.Drive.{Spawned, refused, drive_job}
use execra.Driver.Loop.Run.{spawn_error}
use execra.Driver.World.{World}
use execra.Base.Sorted.{filter}
use execra.Runtime.Handle.{JobHandle, Oneshot, sent, spawn_handle, subscribe, waiting}
use execra.Runtime.Jobs.{Runtime}
use execra.Runtime.Stream.{read_all}
use execra.Progress.{Floats}
use execra.Tauri.Creep.{CreepState, Rounding}
use execra.Tauri.Forward.{CreepFn, Turn, creeping, forward, forward_events, next, straight, timer}
use execra.Tauri.Merged.{IsMerged, forward-IsMerged}
use execra.Tauri.Called.{outputs}
use execra.Tauri.Task.{finalize_cmd, on_created, on_finalized, on_output}
use execra.Tauri.Session.{listening}
use execra.Tauri.Await.{await, into_future, on_handle}
use execra.Tauri.Returned.{await_called}
use execra.Tauri.Quiet.{forward_quiet}

abbrev floats : Floats
floats = record {
  f32_add = λ a b. a;
  f32_sub = λ a b. a;
  f32_mul = λ a b. a;
  f32_div = λ a b. a;
  f32_of_u64 = λ n. n;
  f64_div = λ a b. a;
  f64_mul_million = λ a. a;
  f64_to_f32 = λ a. a;
  f64_to_u64 = λ a. a;
  f64_parse = λ t. none;
}

-- Every bump is a new percent.
abbrev rounding : Rounding
rounding = record {
  floats = floats;
  f32_ge = λ a b. false;
  f32_gt = λ a b. ltb b a;
  f32_min = λ a b. a + 1;
  round_i32 = pos;
}

abbrev creep : CreepFn
creep name = some (0, 1)

abbrev entered : Event
entered = Event.phase_entered 3 1 (codes "hash") none (pos 0)

abbrev exited : Event
exited = Event.phase_exited 3 1 (pos 0)

abbrev finalized : Event
finalized = Event.finalized 3 (cancelled []) (pos 0)

abbrev turns : List Turn
turns =
    next (some entered)
    ∷ timer (pos 500)
    ∷ next (some exited)
    ∷ timer (pos 1000)
    ∷ next (some finalized)
    ∷ next (some entered)
    ∷ []

forward-IsMerged_example :
    IsMerged 3 (forward rounding (some creep) 3 turns) (entered ∷ exited ∷ finalized ∷ [])
unfolding straight
forward-IsMerged_example = forward-IsMerged rounding (some creep) 3 turns

abbrev bar : CreepState
bar = record { cap = 9; cur = 1; done = false }

forward_quiet_example :
    creeping rounding creep 3
      (some bar)
      (next (some exited) ∷ timer (pos 1000) ∷ next (some finalized) ∷ [])
    ≡ exited ∷ finalized ∷ []
unfolding straight
forward_quiet_example =
    (forward_quiet rounding creep 3 (timer (pos 1000) ∷ next (some finalized) ∷ []) (some bar)
      exited refl refl).1

abbrev spec : CommandSpec
spec = record {
  program = codes "tool";
  args = [];
  env = [];
  env_clear = false;
  cwd = none;
  label = none;
  tags = [];
  timeout = none;
  hide_window = false;
}

abbrev command : Command ℕ
command = record { spec = spec; stdin = execra.Command.null; interpreter = none }

abbrev created : Event
created = Event.job_created 3 spec (pos 0)

abbrev printed : Text → Event
printed line = Event.output_appended 3 Stream.stdout line (pos 0)

-- What a callback does is a text.
abbrev emit : Text → Event → Text
emit channel e = channel

abbrev at_creation : JobId → List Text
at_creation job = codes "created" ∷ []

abbrev at_output : Stream → Text → List Text
at_output stream line = line ∷ []

abbrev at_end : Outcome → List Text
at_end outcome = codes "over" ∷ []

abbrev alone : Runtime
alone = record { store = none; jobs = []; sent = []; clock = 0; ids = 0 }

abbrev mine : JobHandle
mine = record { id = 0; outcome_rx = true; initial_rx = some 0 }

abbrev refusal : Spawned
refusal = refused (codes "no such file")

abbrev driven : Option Outcome × World
driven =
    drive_job Samples.host Platform.other Samples.silent 0 spec true refusal Samples.raw (some 0)
      false [] Samples.world

-- The outcome comes at the second poll, and the finalization before the third.
abbrev seen_at : List (Oneshot × List Turn)
seen_at =
    (waiting, timer (pos 500) ∷ [])
    ∷ (
      sent (spawn_error (codes "no such file")),
      next (some (Event.job_created 0 spec (Samples.host.now 0))) ∷ [],
    )
    ∷ (waiting, map (λ e. next (some e)) driven.1.sent)
    ∷ (waiting, timer (pos 1500) ∷ [])
    ∷ []

await_called_example :
    (by : List Turn) × (await (on_handle mine true) [] seen_at
      ≡ some (spawn_error (codes "no such file"), by))
    × (forward_events emit rounding 0 none
          (listening at_creation at_output at_end command).observers
          (some creep)
          by
        ≡ codes "created" ∷ codes "over" ∷ [])
unfolding drive_job filter spawn_handle outputs finalize_cmd package.execra.Event.job_id read_all
    execra.Runtime.Stream.next subscribe into_future on_created on_finalized on_output
await_called_example =
    await_called emit at_creation at_output at_end rounding (some creep) (λ e. []) command
      Samples.host Platform.other Samples.silent alone alone mine true refusal Samples.raw (some 0)
      false [] Samples.world driven.1 (spawn_error (codes "no such file")) driven.1.sent 20 seen_at
      refl refl refl refl refl (omega arith) refl refl
