-- ===== src/Cli/Shown.antt =====
-- What `run` of crates/execra-cli/src/main.rs prints.
use execra.Base.{
  ◌+◌, Text, Bool, true, false, ◌||◌, Option, none, some, List, [], ◌∷◌, ◌++◌, ◌≡◌, refl, sym, ap,
  ◌∙◌, arith, append_assoc, if◌then◌else◌, any,
}
use execra.Base.Sorted.{count, count-append}
use execra.Cli.{Printed, stdout}
use execra.Cli.Run.{
  Arm, event, outcome, Status, failed, finished, is_finalized, plain_line, print_outcome, json_line,
  run_loop, went_on,
}
use execra.Event.{Event}
use execra.Finding.{SystemTime}
use execra.Job.{JobId}
use execra.Outcome.{Outcome}

-- The arms that find an event, or the stream closed.
abbrev pub reads : List (Option Event) → List Arm → List Arm
reads [] rest = rest
reads (x ∷ xs) rest = event x ∷ reads xs rest

abbrev pub seen_events : List (Option Event) → List Event
seen_events [] = []
seen_events (none ∷ xs) = seen_events xs
seen_events (some e ∷ xs) = e ∷ seen_events xs

abbrev pub plain_lines : List Event → List Printed
plain_lines [] = []
plain_lines (e ∷ es) = plain_line e ++ plain_lines es

-- The events of which `--json` prints a line: if no finalization came, one is made of the outcome.
abbrev pub completed : Bool → JobId → SystemTime → Outcome → List Event → List Event
completed seen job at o es =
    if seen || any is_finalized es then es else es ++ Event.finalized job o at ∷ []

completed-count :
    (job : JobId) (at : SystemTime) (o : Outcome) (es : List Event)
    → count is_finalized (completed false job at o es)
      ≡ count is_finalized es + (if any is_finalized es then 0 else 1)
completed-count job at o es =
    ground (arith, count-append is_finalized es (Event.finalized job o at ∷ []))

-- A line for each event, and an error at the first that has no JSON text.
unfoldable pub json_lines : (Event → Option Text) → List Event → Status × List Printed
json_lines to_json [] = (finished, [])
json_lines to_json (e ∷ es) =
    let rest = json_lines to_json es in
    elim (to_json e) [ none ↦ (failed, []) | some t ↦ (rest.0, stdout t ∷ rest.1) ]

module _ (to_json : Event → Option Text) (debug : Outcome → Text) (job : JobId)
    (at : SystemTime) where
  run_plain :
      (xs : List (Option Event)) (o : Outcome) (rest : List Arm) (seen : Bool)
      → run_loop to_json debug false job at seen (reads xs (outcome o ∷ rest))
        ≡ (finished, plain_lines (seen_events xs) ++ print_outcome to_json debug o)
  unfolding run_loop
  run_plain [] o rest seen = refl
  run_plain (none ∷ xs) o rest seen = run_plain xs o rest seen
  run_plain (some e ∷ xs) o rest seen =
      ap (λ (p : Status × List Printed). (p.0, plain_line e ++ p.1))
        (run_plain xs o rest (seen || is_finalized e))
      ∙ ap (λ (l : List Printed). (finished, l))
          (sym (
            append_assoc (plain_line e) (plain_lines (seen_events xs))
              (print_outcome to_json debug o)))

  completed-cons :
      (seen : Bool) (o : Outcome) (e : Event) (es : List Event)
      → e ∷ completed (seen || is_finalized e) job at o es ≡ completed seen job at o (e ∷ es)
  completed-cons true o e es = refl
  completed-cons false o e es = ground arith

  at_event :
      (e : Event) (es : List Event)
      → went_on to_json debug (json_line (to_json e)) (json_lines to_json es)
        ≡ json_lines to_json (e ∷ es)
  unfolding json_lines
  at_event e es = ground arith

  run_json :
      (xs : List (Option Event)) (o : Outcome) (rest : List Arm) (seen : Bool)
      → run_loop to_json debug true job at seen (reads xs (outcome o ∷ rest))
        ≡ json_lines to_json (completed seen job at o (seen_events xs))
  unfolding run_loop json_lines
  run_json [] o rest true = refl
  run_json [] o rest false = ground arith
  run_json (none ∷ xs) o rest seen = run_json xs o rest seen
  run_json (some e ∷ xs) o rest seen =
      ap (went_on to_json debug (json_line (to_json e)))
        (run_json xs o rest (seen || is_finalized e))
      ∙ at_event e (completed (seen || is_finalized e) job at o (seen_events xs))
      ∙ ap (json_lines to_json) (completed-cons seen o e (seen_events xs))

-- Along any events that the loop reads before it takes the arm of the outcome, and whatever is still
-- to come then, the loop of `run` ends. In text it ends without an error and has printed the output
-- lines among these events, in order, and the outcome last. With `--json` it has printed the events
-- in order, a line each, and a finalization made of the outcome exactly if none was among them; but
-- at the first of these that has no JSON text it ends with an error.
pub run_loop_lem :
    (to_json : Event → Option Text) (debug : Outcome → Text) (job : JobId) (at : SystemTime)
    (xs : List (Option Event)) (o : Outcome) (rest : List Arm)
    → let arms = reads xs (outcome o ∷ rest) in
      let es = seen_events xs in
      let shown = completed false job at o es in
      (run_loop to_json debug false job at false arms
        ≡ (finished, plain_lines es ++ print_outcome to_json debug o))
      × (run_loop to_json debug true job at false arms ≡ json_lines to_json shown)
      × (count is_finalized shown ≡ count is_finalized es + (if any is_finalized es then 0 else 1))
run_loop_lem to_json debug job at xs o rest = (
  run_plain to_json debug job at xs o rest false,
  run_json to_json debug job at xs o rest false,
  completed-count job at o (seen_events xs),
)
