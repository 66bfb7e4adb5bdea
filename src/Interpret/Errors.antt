-- ===== src/Interpret/Errors.antt =====
-- The known errors of `RuleInterpreter` (src/interpret.rs) and its fallback.
use execra.Base.{
  ℕ, Text, Bool, true, false, ◌||◌, Option, none, some, List, [], ◌∷◌, ◌++◌, ◌≡◌, refl, ◌∙◌, arith,
  if_rule, any, text_eq,
}
use execra.Finding.{SystemTime}
use execra.Interpreter.{InterpreterEvent, Line}
use execra.Outcome.{ExitCode, exit_is_success}
use execra.Progress.{Floats, F32}
use execra.Interpret.Chars.{trim}
use execra.Interpret.Render.{Captures}
use execra.Interpret.Table.{
  RuleAction, RuleInterpreter, NotesConfig, FallbackPolicy, close_phase, flush_notes, apply_rule,
  apply_match, parsed, is_nil, note_failed, classify, take_note, line_with, on_line, byte_progress,
  fall_back, leave_phase, on_exit, on_lines, first_match, stderr_line,
}

abbrev pub is_known_error : InterpreterEvent → Bool
is_known_error (InterpreterEvent.known_error code message) = true
is_known_error _ = false

abbrev pub reports : List InterpreterEvent → Bool
reports es = any is_known_error es

pub reports-append : (xs ys : List InterpreterEvent) → reports (xs ++ ys) ≡ reports xs || reports ys
reports-append [] ys = refl
reports-append (x ∷ xs) ys = ground (arith, reports-append xs ys)

close_phase-quiet :
    (range : Text → Option (F32 × F32)) (o : Option Text) → reports (close_phase range o) ≡ false
unfolding close_phase
close_phase-quiet range o = ground arith

-- The interpreter remembers whether it has reported a known error.
abbrev IsCounted : RuleInterpreter → List InterpreterEvent × RuleInterpreter → Type 0
IsCounted i (events, j) = j.emitted_known_error ≡ i.emitted_known_error || reports events

or_false : (b : Bool) → b ≡ b || false
or_false true = refl
or_false false = refl

module _ (fl : Floats) (now : ℕ → SystemTime) where
  flush_notes-quiet :
      (i : RuleInterpreter)
      → (reports (flush_notes fl now i).0 ≡ false)
        × ((flush_notes fl now i).1.emitted_known_error ≡ i.emitted_known_error)
        × ((flush_notes fl now i).1.fallback ≡ i.fallback)
        × ((flush_notes fl now i).1.last_stderr ≡ i.last_stderr)
  unfolding flush_notes
  flush_notes-quiet i = ground arith

  byte_progress-quiet :
      (i : RuleInterpreter) (d t : Option ℕ) → reports (byte_progress fl now i d t) ≡ false
  unfolding byte_progress
  byte_progress-quiet i d t = ground arith

  apply_rule-IsCounted :
      (a : RuleAction) (caps : Captures) (i : RuleInterpreter)
      → IsCounted i (apply_rule fl now a caps i)
  unfolding apply_rule
  apply_rule-IsCounted (RuleAction.enter_phase name template) caps i = ground (
    arith,
    close_phase-quiet i.phases i.current_phase,
    reports-append (close_phase i.phases i.current_phase),
  )
  apply_rule-IsCounted RuleAction.byte_progress_mb caps i =
      ground (arith, byte_progress-quiet i (parsed fl now (caps 1)) (parsed fl now (caps 2)))
  apply_rule-IsCounted _ caps i = ground arith

  leave_phase-quiet : (i : RuleInterpreter) → reports (leave_phase fl now i).0 ≡ false
  unfolding leave_phase
  leave_phase-quiet i = close_phase-quiet i.phases i.current_phase

  note_failed-emitted :
      (text : Text) (i : RuleInterpreter)
      → (note_failed text i).emitted_known_error ≡ i.emitted_known_error
  unfolding note_failed
  note_failed-emitted text i = ground arith

  apply_match-IsCounted :
      (m : Option (RuleAction × Captures)) (text : Text) (i : RuleInterpreter)
      → IsCounted i (apply_match fl now m text i)
  apply_match-IsCounted none text i = ground (arith, note_failed-emitted text i)
  apply_match-IsCounted (some (a, caps)) text i = apply_rule-IsCounted a caps i

  classify-IsCounted : (l : Line) (i : RuleInterpreter) → IsCounted i (classify fl now l i)
  unfolding classify
  classify-IsCounted l i =
      if_rule (IsCounted i) (is_nil l.text) (λ e. or_false i.emitted_known_error)
        (λ e.
          apply_match-IsCounted (first_match i.rules l.text) l.text
            (record i { last_stderr = stderr_line l i.last_stderr }))

  take_note-IsCounted : (t : Text) (i : RuleInterpreter) → IsCounted i (take_note fl now t i)
  unfolding take_note
  take_note-IsCounted t i = ground (arith, flush_notes-quiet i)

  line_with-IsCounted :
      (n : Option NotesConfig) (l : Line) (i : RuleInterpreter)
      → IsCounted i (line_with fl now n l i)
  line_with-IsCounted none l i = classify-IsCounted l i
  line_with-IsCounted (some n) l i =
      if_rule (IsCounted i) i.in_notes (λ e. take_note-IsCounted l.text i)
        (λ e.
          if_rule (IsCounted i) (text_eq (trim l.text) n.trigger)
            (λ f. or_false i.emitted_known_error) (λ f. classify-IsCounted l i))

  pub on_lines-IsCounted :
      (ls : List Line) (i : RuleInterpreter) → IsCounted i (on_lines fl now ls i)
  unfolding on_lines on_line
  on_lines-IsCounted [] i = or_false i.emitted_known_error
  on_lines-IsCounted (l ∷ ls) i =
      let s = on_line fl now l i in
      ground (
        arith,
        line_with-IsCounted i.notes l i,
        on_lines-IsCounted ls s.1,
        reports-append s.0 (on_lines fl now ls s.1).0,
      )

  -- The interpreter when its fallback is asked.
  abbrev pub asked : RuleInterpreter → RuleInterpreter
  asked i = (leave_phase fl now (flush_notes fl now i).1).1

  -- What `on_exit` reports is what the fallback adds.
  pub on_exit-reports :
      (e : ExitCode) (i : RuleInterpreter)
      → reports (on_exit fl now e i).0 ≡ reports (fall_back fl now (asked i).fallback e (asked i)).0
  unfolding on_exit
  on_exit-reports e i =
      let f = flush_notes fl now i in
      let c = leave_phase fl now f.1 in
      ground (
        arith,
        reports-append (f.0 ++ c.0) (fall_back fl now (asked i).fallback e (asked i)).0,
        reports-append f.0 c.0,
        leave_phase-quiet f.1,
        flush_notes-quiet i,
      )

  fall_back-quiet :
      (o : Option FallbackPolicy) (e : ExitCode) (i : RuleInterpreter)
      → exit_is_success e || i.emitted_known_error ≡ true
      → reports (fall_back fl now o e i).0 ≡ false
  fall_back-quiet o e i h = ground arith

  pub asked-same :
      (i : RuleInterpreter)
      → ((asked i).emitted_known_error ≡ i.emitted_known_error)
        × ((asked i).fallback ≡ i.fallback)
        × ((asked i).last_stderr ≡ i.last_stderr)
  unfolding leave_phase
  asked-same i = let q = flush_notes-quiet i in (q.1, q.2, q.3)

  -- The same failure is not reported twice: a job that succeeds, or for which a rule has reported a
  -- known error, gets no known error from the fallback.
  pub on_exit_quiet :
      (ls : List Line) (e : ExitCode) (i : RuleInterpreter)
      → exit_is_success e || reports (on_lines fl now ls i).0 ≡ true
      → reports (on_exit fl now e (on_lines fl now ls i).1).0 ≡ false
  on_exit_quiet ls e i h =
      let j = (on_lines fl now ls i).1 in
      on_exit-reports e j
      ∙ fall_back-quiet (asked j).fallback e (asked j)
          (ground (arith, on_lines-IsCounted ls i, asked-same j))
