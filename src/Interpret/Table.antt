-- ===== src/Interpret/Table.antt =====
-- `RuleInterpreter` of src/interpret.rs: its state, `on_line` and `on_exit`. A compiled `Regex` is
-- the function that it computes, and the model of the phases is the function `range`.
mod Settings
unfoldable pub use Settings.*
use execra.Base.{
  ℕ, suc, Text, codes, Bool, true, false, ◌&&◌, ◌||◌, Option, none, some, List, [], ◌∷◌, ◌++◌, snoc,
  text_eq, if◌then◌else◌,
}
use execra.Event.{stdout, stderr}
use execra.Finding.{SystemTime, make, Severity}
use execra.Interpreter
use execra.Interpreter.{InterpreterEvent, Interpreter, Context, Line, Returned}
use execra.Outcome.{ExitCode, exit_is_success}
use execra.Progress.{Floats, F32, F64, Progress, of_fraction}
use execra.Interpret.Chars.{
  trim, trim_start, starts_with, contains, to_ascii_lowercase, join_lines, f64_is_positive,
  f64_clamp,
}
use execra.Interpret.Render.{Captures, render}

-- Events, and the interpreter after the call.
abbrev pub Step : Type 0
Step = List InterpreterEvent × RuleInterpreter

abbrev pub notes_code : Option NotesConfig → Text
notes_code none = codes "notes"
notes_code (some n) = n.code

abbrev pub is_nil {ℓ} : {A : Type ℓ} → List A → Bool
is_nil [] = true
is_nil (x ∷ xs) = false

abbrev pub is_none : Option Text → Bool
is_none none = true
is_none (some t) = false

-- The end, and the start, of a phase's slice of the whole progress, as a boundary event.
abbrev pub boundary_end : Option (F32 × F32) → List InterpreterEvent
boundary_end none = []
boundary_end (some (start, end)) = InterpreterEvent.progress (of_fraction end) ∷ []

abbrev pub boundary_start : Option (F32 × F32) → List InterpreterEvent
boundary_start none = []
boundary_start (some (start, end)) = InterpreterEvent.progress (of_fraction start) ∷ []

-- `if let Some(prev) = self.current_phase.take()`
unfoldable pub close_phase : (Text → Option (F32 × F32)) → Option Text → List InterpreterEvent
close_phase range none = []
close_phase range (some prev) = InterpreterEvent.exit_phase ∷ boundary_end (range prev)

-- The first rule whose regex matches, with what it captured.
unfoldable pub first_match : List Rule → Text → Option (RuleAction × Captures)
first_match [] text = none
first_match (r ∷ rs) text =
    let rest = first_match rs text in
    elim (r.regex text) [ none ↦ rest | some caps ↦ some (r.action, caps) ]

unfoldable pub stderr_line : Line → Option Text → Option Text
stderr_line l last = elim l.stream [ stdout ↦ last | stderr ↦ some l.text ]

abbrev pub wants_failed_line : Option FallbackPolicy → Bool
wants_failed_line none = false
wants_failed_line (some fb) = fb.from_failed_line

-- Keeps the first line that mentions a failure and that no rule classified.
unfoldable pub note_failed : Text → RuleInterpreter → RuleInterpreter
unfolding contains to_ascii_lowercase
note_failed text i =
    if wants_failed_line i.fallback
      && is_none i.fallback_error
      && contains (codes "failed") (to_ascii_lowercase text)
    then record i { fallback_error = some text }
    else i

-- `now k` is what the k-th call of `SystemTime::now` returns.
module _ (fl : Floats) (now : ℕ → SystemTime) where
  unfoldable pub flush_notes : RuleInterpreter → Step
  unfolding join_lines make
  flush_notes i = if is_nil i.notes_buf then ([], record i { in_notes = false }) else (
    InterpreterEvent.finding
          (make (now i.clock) Severity.info (notes_code i.notes) (join_lines i.notes_buf))
        ∷ [],
    record i { in_notes = false; notes_buf = []; clock = suc i.clock },
  )

  -- `caps.get(k).and_then(|m| m.as_str().parse::<f64>().ok())`
  abbrev pub parsed : Option Text → Option F64
  parsed none = none
  parsed (some t) = fl.f64_parse t

  abbrev pub current_range : (Text → Option (F32 × F32)) → Option Text → Option (F32 × F32)
  current_range range none = none
  current_range range (some p) = range p

  abbrev pub scaled : F32 → Option (F32 × F32) → F32
  scaled ratio none = ratio
  scaled ratio (some (start, end)) = fl.f32_add start (fl.f32_mul ratio (fl.f32_sub end start))

  unfoldable pub byte_progress : RuleInterpreter → Option F64 → Option F64 → List InterpreterEvent
  unfolding f64_is_positive f64_clamp of_fraction
  byte_progress i (some d) (some t) =
      if f64_is_positive t
      then InterpreterEvent.progress (
          of_fraction (
            scaled (fl.f64_to_f32 (f64_clamp (fl.f64_div d t)))
              (current_range i.phases i.current_phase)))
        ∷ []
      else []
  byte_progress i (some d) none = []
  byte_progress i none t = []

  unfoldable pub apply_rule : RuleAction → Captures → RuleInterpreter → Step
  unfolding render close_phase byte_progress
  apply_rule RuleAction.benign caps i = ([], i)
  apply_rule (RuleAction.progress hint) caps i =
      (InterpreterEvent.progress (Progress.indeterminate (some hint)) ∷ [], i)
  apply_rule (RuleAction.enter_phase name template) caps i = (
    close_phase i.phases i.current_phase
        ++ InterpreterEvent.enter_phase name (some (render template caps))
          ∷ boundary_start (i.phases name),
    record i { current_phase = some name },
  )
  apply_rule (RuleAction.warning code template) caps i =
      (InterpreterEvent.warning (some code) (render template caps) ∷ [], i)
  apply_rule (RuleAction.known_error code template) caps i = (
    InterpreterEvent.known_error code (render template caps) ∷ [],
    record i { emitted_known_error = true; fallback_error = none },
  )
  apply_rule (RuleAction.summary template) caps i =
      (InterpreterEvent.summary (render template caps) ∷ [], i)
  apply_rule RuleAction.byte_progress_mb caps i =
      (byte_progress i (parsed (caps 1)) (parsed (caps 2)), i)

  abbrev pub apply_match : Option (RuleAction × Captures) → Text → RuleInterpreter → Step
  apply_match none text i = ([], note_failed text i)
  apply_match (some (action, caps)) text i = apply_rule action caps i

  -- A line outside the notes.
  unfoldable pub classify : Line → RuleInterpreter → Step
  unfolding first_match stderr_line apply_rule note_failed
  classify l i =
      if is_nil l.text
      then ([], i)
      else apply_match (first_match i.rules l.text) l.text
          (record i { last_stderr = stderr_line l i.last_stderr })

  -- A line of the notes.
  unfoldable pub take_note : Text → RuleInterpreter → Step
  unfolding trim trim_start starts_with flush_notes
  take_note text i =
      if starts_with (codes "---") (trim_start text)
      then ([], i)
      else if is_nil (trim text)
      then flush_notes i
      else ([], record i { notes_buf = snoc i.notes_buf text })

  abbrev pub line_with : Option NotesConfig → Line → RuleInterpreter → Step
  line_with none l i = classify l i
  line_with (some n) l i =
      if i.in_notes
      then take_note l.text i
      else if text_eq (trim l.text) n.trigger
      then ([], record i { in_notes = true })
      else classify l i

  unfoldable pub on_line : Line → RuleInterpreter → Step
  unfolding classify take_note trim text_eq
  on_line l i = line_with i.notes l i

  -- `message` before stderr is asked.
  abbrev pub failed_line : FallbackPolicy → RuleInterpreter → Option Text
  failed_line fb i = if fb.from_failed_line then i.fallback_error else none

  abbrev pub or_stderr : Bool → Option Text → Option Text → Option Text
  or_stderr b (some m) last = some m
  or_stderr true none last = last
  or_stderr false none last = none

  abbrev pub fallback_message : FallbackPolicy → RuleInterpreter → Option Text
  fallback_message fb i = or_stderr fb.from_stderr (failed_line fb i) i.last_stderr

  abbrev pub synthesized : FallbackPolicy → Option Text → List InterpreterEvent
  synthesized fb none = []
  synthesized fb (some m) = InterpreterEvent.known_error fb.code m ∷ []

  -- The two messages are taken out where they are asked for.
  unfoldable pub synthesize : FallbackPolicy → RuleInterpreter → Step
  synthesize fb i = (
    synthesized fb (fallback_message fb i),
    record i {
      fallback_error = if fb.from_failed_line then none else i.fallback_error;
      last_stderr = if is_none (failed_line fb i) && fb.from_stderr then none else i.last_stderr;
    },
  )

  abbrev pub fall_back : Option FallbackPolicy → ExitCode → RuleInterpreter → Step
  fall_back none exit i = ([], i)
  fall_back (some fb) exit i =
      if exit_is_success exit || i.emitted_known_error then ([], i) else synthesize fb i

  unfoldable pub leave_phase : RuleInterpreter → Step
  unfolding close_phase
  leave_phase i = (close_phase i.phases i.current_phase, record i { current_phase = none })

  unfoldable pub on_exit : ExitCode → RuleInterpreter → Step
  unfolding flush_notes leave_phase synthesize exit_is_success
  on_exit exit i =
      let flushed = flush_notes i in
      let closed = leave_phase flushed.1 in
      let last = fall_back closed.1.fallback exit closed.1 in
      (flushed.0 ++ closed.0 ++ last.0, last.1)

  abbrev pub returned : Step → Returned RuleInterpreter
  returned (events, i) = Interpreter.ok i events

  -- The interpreter as the driver calls it: it never reads the context.
  unfoldable pub interpreter : Interpreter RuleInterpreter
  unfolding on_line on_exit
  interpreter = record {
    on_line = λ i ctx l. returned (on_line l i);
    on_exit = λ i ctx exit. returned (on_exit exit i);
  }

  -- The lines of a job in turn.
  unfoldable pub on_lines : List Line → RuleInterpreter → Step
  unfolding on_line
  on_lines [] i = ([], i)
  on_lines (l ∷ ls) i =
      let (first, i') = on_line l i in let (rest, j) = on_lines ls i' in (first ++ rest, j)

  -- A whole job: its lines and then its exit.
  unfoldable pub interpret : List Line → ExitCode → RuleInterpreter → List InterpreterEvent
  unfolding on_lines on_exit
  interpret ls exit i = let (events, j) = on_lines ls i in events ++ (on_exit exit j).0
