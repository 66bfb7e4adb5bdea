-- ===== src/Interpret/Phases.antt =====
-- The phases of `RuleInterpreter` (src/interpret.rs).
use execra.Base.{
  ℕ, Text, Bool, true, false, Option, none, some, List, [], ◌∷◌, ◌++◌, ◌≡◌, refl, subst, ap, ◌∙◌,
  arith, if_rule, Option-cases, inl, inr, text_eq,
}
use execra.Finding.{SystemTime}
use execra.Interpreter.{InterpreterEvent, Line}
use execra.Outcome.{ExitCode}
use execra.Progress.{Floats, F32}
use execra.Interpret.Chars.{trim}
use execra.Interpret.Render.{Captures}
use execra.Interpret.Table.{
  RuleAction, RuleInterpreter, NotesConfig, FallbackPolicy, close_phase, flush_notes, apply_rule,
  apply_match, parsed, is_nil, note_failed, classify, take_note, line_with, on_line, byte_progress,
  fall_back, synthesize, leave_phase, on_exit, on_lines, interpret, first_match, stderr_line,
}

-- A phase is entered only where none is open and exited only where one is.
abbrev pub flat_step : Bool → InterpreterEvent → Option Bool
flat_step false (InterpreterEvent.enter_phase name l) = some true
flat_step true (InterpreterEvent.enter_phase name l) = none
flat_step true InterpreterEvent.exit_phase = some false
flat_step false InterpreterEvent.exit_phase = none
flat_step b (InterpreterEvent.update_phase l) = none
flat_step b _ = some b

-- Reads the phase events: whether a phase is open in the end.
unfoldable pub flat_after : Bool → List InterpreterEvent → Option Bool
flat_after b [] = some b
flat_after b (e ∷ es) = elim (flat_step b e) [ none ↦ none | some c ↦ flat_after c es ]

abbrev pub is_open : Option Text → Bool
is_open none = false
is_open (some name) = true

flat_after-append :
    (b c : Bool) (xs ys : List InterpreterEvent)
    → flat_after b xs ≡ some c
    → flat_after b (xs ++ ys) ≡ flat_after c ys
unfolding flat_after
flat_after-append b c [] ys h = ground arith
flat_after-append b c (x ∷ xs) ys h = elim (Option-cases (flat_step b x)) [
  | inl n ↦ ground arith
  | inr (d, e) ↦ ground (arith, flat_after-append d c xs ys)
]

close_phase-flat :
    (range : Text → Option (F32 × F32)) (o : Option Text)
    → flat_after (is_open o) (close_phase range o) ≡ some false
unfolding flat_after close_phase
close_phase-flat range o = ground arith

-- From one interpreter to the next, by these events.
abbrev IsFlat : RuleInterpreter → List InterpreterEvent × RuleInterpreter → Type 0
IsFlat i (events, j) = flat_after (is_open i.current_phase) events ≡ some (is_open j.current_phase)

module _ (fl : Floats) (now : ℕ → SystemTime) where
  flush_notes-IsFlat : (i : RuleInterpreter) → IsFlat i (flush_notes fl now i)
  unfolding flat_after flush_notes
  flush_notes-IsFlat i = ground arith

  enter-IsFlat :
      (i : RuleInterpreter) (name template : Text) (caps : Captures)
      → IsFlat i (apply_rule fl now (RuleAction.enter_phase name template) caps i)
  unfolding flat_after apply_rule
  enter-IsFlat i name template caps = ground (
    arith,
    flat_after-append (is_open i.current_phase) false (close_phase i.phases i.current_phase),
    close_phase-flat i.phases i.current_phase,
  )

  byte_progress-flat :
      (i : RuleInterpreter) (d t : Option ℕ) (b : Bool)
      → flat_after b (byte_progress fl now i d t) ≡ some b
  unfolding flat_after byte_progress
  byte_progress-flat i d t b = ground arith

  apply_rule-IsFlat :
      (a : RuleAction) (caps : Captures) (i : RuleInterpreter)
      → IsFlat i (apply_rule fl now a caps i)
  unfolding flat_after apply_rule
  apply_rule-IsFlat (RuleAction.enter_phase name template) caps i =
      enter-IsFlat i name template caps
  apply_rule-IsFlat RuleAction.byte_progress_mb caps i =
      byte_progress-flat i (parsed fl now (caps 1)) (parsed fl now (caps 2))
        (is_open i.current_phase)
  apply_rule-IsFlat _ caps i = ground arith

  note_failed-current_phase :
      (text : Text) (i : RuleInterpreter) → (note_failed text i).current_phase ≡ i.current_phase
  unfolding note_failed
  note_failed-current_phase text i = ground arith

  apply_match-IsFlat :
      (m : Option (RuleAction × Captures)) (text : Text) (i : RuleInterpreter)
      → IsFlat i (apply_match fl now m text i)
  unfolding flat_after
  apply_match-IsFlat none text i = ground (arith, note_failed-current_phase text i)
  apply_match-IsFlat (some (a, caps)) text i = apply_rule-IsFlat a caps i

  classify-IsFlat : (l : Line) (i : RuleInterpreter) → IsFlat i (classify fl now l i)
  unfolding flat_after classify
  classify-IsFlat l i =
      if_rule (IsFlat i) (is_nil l.text) (λ e. refl)
        (λ e.
          apply_match-IsFlat (first_match i.rules l.text) l.text
            (record i { last_stderr = stderr_line l i.last_stderr }))

  take_note-IsFlat : (t : Text) (i : RuleInterpreter) → IsFlat i (take_note fl now t i)
  unfolding flat_after take_note
  take_note-IsFlat t i = ground (arith, flush_notes-IsFlat i)

  line_with-IsFlat :
      (n : Option NotesConfig) (l : Line) (i : RuleInterpreter) → IsFlat i (line_with fl now n l i)
  unfolding flat_after
  line_with-IsFlat none l i = classify-IsFlat l i
  line_with-IsFlat (some n) l i =
      if_rule (IsFlat i) i.in_notes (λ e. take_note-IsFlat l.text i)
        (λ e.
          if_rule (IsFlat i) (text_eq (trim l.text) n.trigger) (λ f. refl)
            (λ f. classify-IsFlat l i))

  on_lines-IsFlat : (ls : List Line) (i : RuleInterpreter) → IsFlat i (on_lines fl now ls i)
  unfolding flat_after on_lines on_line
  on_lines-IsFlat [] i = refl
  on_lines-IsFlat (l ∷ ls) i =
      let s = on_line fl now l i in
      flat_after-append (is_open i.current_phase) (is_open s.1.current_phase) s.0
        (on_lines fl now ls s.1).0 (line_with-IsFlat i.notes l i)
      ∙ on_lines-IsFlat ls s.1

  fall_back-flat :
      (o : Option FallbackPolicy) (e : ExitCode) (i : RuleInterpreter)
      → flat_after false (fall_back fl now o e i).0 ≡ some false
  unfolding flat_after synthesize
  fall_back-flat o e i = ground arith

  on_exit-flat :
      (e : ExitCode) (i : RuleInterpreter)
      → flat_after (is_open i.current_phase) (on_exit fl now e i).0 ≡ some false
  unfolding on_exit leave_phase
  on_exit-flat e i =
      let f = flush_notes fl now i in
      let j = leave_phase fl now f.1 in
      let last = (fall_back fl now j.1.fallback e j.1).0 in
      flat_after-append (is_open i.current_phase) false (f.0 ++ j.0) last (
        flat_after-append (is_open i.current_phase) (is_open f.1.current_phase) f.0 j.0
          (flush_notes-IsFlat i)
        ∙ close_phase-flat f.1.phases f.1.current_phase)
      ∙ fall_back-flat j.1.fallback e j.1

  -- For every table of rules, all lines and every exit: a job whose interpreter starts with no phase
  -- open enters a phase only while none is open, exits one only while one is, updates none, and
  -- has closed the last one when the interpreter is through.
  pub interpret-flat :
      (ls : List Line) (e : ExitCode) (i : RuleInterpreter)
      → i.current_phase ≡ none
      → flat_after false (interpret fl now ls e i) ≡ some false
  unfolding interpret
  interpret-flat ls e i c =
      let s = on_lines fl now ls i in
      subst (λ b. flat_after b (interpret fl now ls e i) ≡ some false) (ap is_open c)
        (flat_after-append (is_open i.current_phase) (is_open s.1.current_phase) s.0
            (on_exit fl now e s.1).0 (on_lines-IsFlat ls i)
          ∙ on_exit-flat e s.1)
