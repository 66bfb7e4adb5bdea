-- ===== src/Driver/Tests.antt =====
-- Runs of the driver on small inputs, and the theorems at concrete inputs.
use execra.Base.{ℕ, codes, true, false, some, [], ◌≡◌, refl, ap}
use execra.Command.{Platform}
use execra.Outcome.{Outcome}
use execra.Driver.Isolation.{interpreter_isolated}
use execra.Driver.Output.{output}
use execra.Driver.Loop.Run.{start, run, finish, wind_up, verdict}
use execra.Driver.Loop.Call.{process_line}
use execra.Driver.Apply.{apply_events}
use execra.Driver.Loop.Task.{Task, is_over}
use execra.Driver.Protocol.{finish_observed, after, initial}
use execra.Driver.Observer.{observe, View}
use execra.Driver.Wait.{step}
use execra.Driver.Samples.{host, spec, queued, world, raw, phases, history, ended, silent}

ended-is_over : is_over ended ≡ true
unfolding run start process_line apply_events step
ended-is_over = refl

ended-outcome :
    (finish host Platform.other phases 7 spec ended).0 ≡ Outcome.succeeded (some (codes "fine")) []
unfolding run start finish wind_up verdict process_line apply_events step
ended-outcome = refl

finish_observed_example :
    (observe
      (initial queued)
      (finish host Platform.other phases 7 spec ended).1.drive.world.sent).phases
    ≡ some []
finish_observed_example = ap View.phases (
    finish_observed host Platform.other phases 7 spec (some 99) true raw (some 0) false world
      history refl refl ended-is_over)

abbrev ended_silently : Task ℕ
ended_silently =
    after host Platform.other silent 7 spec (some 99) true raw (some 0) false world history

interpreter_isolated_example :
    output (finish host Platform.other phases 7 spec ended).1.drive.world.sent
    ≡ output (finish host Platform.other silent 7 spec ended_silently).1.drive.world.sent
interpreter_isolated_example =
    (interpreter_isolated host Platform.other phases silent 7 spec (some 99) true raw (some 0)
      (some 0) false world history).1
