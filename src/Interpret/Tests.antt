-- ===== src/Interpret/Tests.antt =====
-- A small table of rules, and the theorems on `RuleInterpreter` at it.
use execra.Base.{
  ℕ, zero, suc, Text, codes, true, false, Option, none, some, List, [], ◌∷◌, ◌++◌, ◌≡◌, refl,
  if◌then◌else◌, ◌==◌, text_eq, length,
}
use execra.Base.Int.{pos}
use execra.Event.{stdout, stderr}
use execra.Interpreter.{Line}
use execra.Outcome.{ExitCode, exit_is_success}
use execra.Progress.{Floats}
use execra.Interpret.Chars.{starts_with, trim, is_ascii_digit, parse_usize}
use execra.Interpret.Errors.{reports}
use execra.Interpret.Fallback.{interpret-reports}
use execra.Interpret.Matching.{render-reference}
use execra.Interpret.Notes.{after_notes, idle, noted, on_lines-notes}
use execra.Interpret.Phases.{flat_after, interpret-flat}
use execra.Interpret.Render.{Captures, render}
use execra.Interpret.Rules.{benign, enter_phase, known}
use execra.Interpret.Rules
use execra.Interpret.Table.{
  Rule, RuleAction, RuleInterpreter, NotesConfig, default_policy, interpret, new, on_lines,
  with_fallback,
}

-- An arithmetic that the examples do not reach.
abbrev floats : Floats
floats = record {
  f32_add = λ a b. a;
  f32_sub = λ a b. a;
  f32_mul = λ a b. a;
  f32_div = λ a b. a;
  f32_of_u64 = λ n. n;
  f64_div = λ a b. a;
  f64_mul_million = λ a. a;
  f64_to_f32 = λ a. a;
  f64_to_u64 = λ a. a;
  f64_parse = λ t. none;
}

abbrev rest_of : ℕ → Text → Text
rest_of n [] = []
rest_of zero (c ∷ t) = c ∷ t
rest_of (suc n) (c ∷ t) = rest_of n t

-- `^p(.*)`
abbrev after_prefix : Text → ℕ → Text → Option Captures
after_prefix p n t =
    if starts_with p t then some (λ k. if k == 1 then some (rest_of n t) else none) else none

abbrev rules : List Rule
rules =
    record {
      regex = after_prefix (codes "get ") 4;
      action = RuleAction.enter_phase (codes "download") (codes "$1!");
    }
    ∷ record {
      regex = after_prefix (codes "error: ") 7;
      action = RuleAction.known_error (codes "x.err") (codes "$1");
    }
    ∷ []

abbrev table : RuleInterpreter
table = with_fallback default_policy (new rules (λ name. some (0, 1)))

abbrev out : Text → Line
out t = record { stream = stdout; text = t; at = pos 0 }

abbrev err : Text → Line
err t = record { stream = stderr; text = t; at = pos 0 }

abbrev lines : List Line
lines = out (codes "get a") ∷ err (codes "odd") ∷ out (codes "get b") ∷ []

abbrev failing : ExitCode
failing = record { code = some (pos 1); signal = none }

interpret-flat_example : flat_after false (interpret floats pos lines failing table) ≡ some false
unfolding new with_fallback
interpret-flat_example = interpret-flat floats pos lines failing table refl

interpret-reports_example : reports (interpret floats pos lines failing table) ≡ true
unfolding new with_fallback default_policy exit_is_success
interpret-reports_example =
    interpret-reports floats pos (out (codes "get a") ∷ []) (out (codes "get b") ∷ [])
      (err (codes "odd")) failing table default_policy refl refl refl refl refl refl refl

abbrev classified : List Line
classified = err (codes "error: bad") ∷ []

abbrev one_capture : Captures
one_capture n = some (codes "cap")

render-reference_example :
    render (codes "got " ++ (36 ∷ (49 ∷ []) ++ codes "!")) one_capture
    ≡ codes "got " ++ codes "cap" ++ render (codes "!") one_capture
unfolding parse_usize is_ascii_digit
render-reference_example =
    render-reference one_capture (codes "got ") (codes "!") 49 [] refl refl refl

abbrev notes : NotesConfig
notes = record { trigger = codes "Notes"; code = codes "x.notes" }

on_lines-notes_example :
    on_lines floats pos
      (out (codes "Notes ") ∷ (out (codes "---") ∷ out (codes "one") ∷ []) ++ out [] ∷ [])
      (idle table notes)
    ≡ (
      noted (pos 0) (codes "x.notes") (codes "one" ∷ []),
      after_notes floats pos table notes (codes "one" ∷ []),
    )
unfolding new with_fallback text_eq trim starts_with
on_lines-notes_example =
    on_lines-notes floats pos table notes (out (codes "Notes ")) (out [])
      (out (codes "---") ∷ out (codes "one") ∷ []) refl refl refl

-- The pattern is a prefix, and the empty one is refused.
abbrev compile : Text → Option (Text → Option Captures)
compile [] = none
compile (c ∷ p) = some (after_prefix (c ∷ p) (length (c ∷ p)))

built :
    Rules.rules compile (
      enter_phase (codes "download") (codes "$1!") (codes "get ")
      ∷ known (codes "x.err") (codes "$1") (codes "error: ")
      ∷ [])
    ≡ some rules
unfolding Rules.rules
built = refl

panics : Rules.rules compile (benign (codes "ok") ∷ benign [] ∷ []) ≡ none
unfolding Rules.rules
panics = refl
