-- ===== src/Cli/Tests.antt =====
-- A run of the command-line tool and a log, and the theorems at them.
use execra.Base.{List, ℕ, Text, codes, true, false, some, none, [], ◌∷◌, ◌≡◌, refl}
use execra.Base.Int.{pos}
use execra.Cli.{stdout}
use execra.Cli.Run.{event, finished, outcome, run_loop}
use execra.Cli.Commands.{Display, logs}
use execra.Cli.Packed.{logs-finalize_raw_log, seen}
use execra.Driver.Packing.{Calls, LogFiles, finalize_raw_log, flushed}
use execra.Driver.RawOutput.{persist_gzip_on_finalize}
use execra.Cli.Shown.{json_lines, run_loop_lem}
use execra.Event.{Event, Stream}
use execra.Outcome.{cancelled}

abbrev text : Event → Text
text e = codes "{}"

abbrev said : Event
said = Event.output_appended 3 Stream.stdout (codes "hi") (pos 0)

run_loop_lem_example :
    run_loop
      (λ e. some (text e))
      (λ o. [])
      true
      3
      (pos 9)
      false
      (event none ∷ event (some said) ∷ outcome (cancelled []) ∷ event (some said) ∷ [])
    ≡ (finished, stdout (codes "{}") ∷ stdout (codes "{}") ∷ [])
unfolding json_lines
run_loop_lem_example =
    (run_loop_lem (λ e. some (text e)) (λ o. []) 3 (pos 9) (none ∷ some said ∷ []) (cancelled [])
      (event (some said) ∷ [])).1

abbrev unpack : List ℕ → List ℕ
unpack [] = []
unpack (b ∷ bytes) = bytes

abbrev display : Display
display = record {
  job_to_json = λ j. none;
  event_to_json = λ e. none;
  show_id = λ id. id ∷ [];
  debug_state = λ s. [];
  debug_event = λ e. [];
  parse_id = λ t. some 7;
  log_path = λ id. id ∷ [];
}

abbrev calls : Calls
calls = record {
  flush = true;
  open_src = true;
  create_dst = true;
  copy = true;
  finish = true;
  remove_src = false;
  written = [];
}

abbrev log : LogFiles
log = record { plain = some (1 ∷ []); packed = none }

logs-finalize_raw_log_example :
    logs display
      (seen some unpack (7 ∷ []) (
        finalize_raw_log
          (λ b. 31 ∷ b)
          persist_gzip_on_finalize
          (some [])
          calls
          (some (2 ∷ []))
          log))
      []
    ≡ some (1 ∷ 2 ∷ [])
unfolding flushed
logs-finalize_raw_log_example =
    logs-finalize_raw_log display some (λ b. 31 ∷ b) unpack [] 7 persist_gzip_on_finalize (some [])
      calls (some (2 ∷ [])) log (1 ∷ 2 ∷ []) (λ b. refl) refl refl
