-- ===== src/Interpret/Matching.antt =====
-- Which rule of `RuleInterpreter` a line is given to, and what `render` writes for it
-- (src/interpret.rs).
use execra.Base.{
  ℕ, Text, Bool, true, false, not, ◌&&◌, Option, none, some, List, [], ◌∷◌, ◌++◌, snoc, ◌≡◌, refl,
  sym, ap, ◌∙◌, arith, if_rule, append_assoc, append-nil, ◌==◌,
}
use execra.Finding.{SystemTime}
use execra.Interpreter.{Line}
use execra.Progress.{Floats}
use execra.Interpret.Chars.{is_ascii_digit, parse_usize}
use execra.Interpret.Render.{Captures, dollar, captured, reference, render_from, render}
use execra.Interpret.Table.{
  Rule, RuleAction, RuleInterpreter, is_nil, first_match, stderr_line, apply_rule, apply_match,
  classify, line_with, on_line, byte_progress, parsed, Step,
}

-- No rule of the list matches.
unfoldable pub none_matches : List Rule → Text → Bool
none_matches [] t = true
none_matches (r ∷ rs) t =
    let rest = none_matches rs t in elim (r.regex t) [ none ↦ rest | some caps ↦ false ]

first_match-append :
    (rs qs : List Rule) (r : Rule) (t : Text) (caps : Captures)
    → none_matches rs t ≡ true
    → r.regex t ≡ some caps
    → first_match (rs ++ r ∷ qs) t ≡ some (r.action, caps)
unfolding first_match none_matches
first_match-append [] qs r t caps n m = rw m refl
first_match-append (x ∷ rs) qs r t caps n m = ground (arith, first_match-append rs qs r t caps)

-- The characters of a template before its first `$`, and digits.
abbrev pub is_plain : Text → Bool
is_plain [] = true
is_plain (c ∷ t) = not (c == dollar) && is_plain t

abbrev pub is_digits : Text → Bool
is_digits [] = true
is_digits (c ∷ t) = is_ascii_digit c && is_digits t

abbrev pub starts_with_digit : Text → Bool
starts_with_digit [] = false
starts_with_digit (c ∷ t) = is_ascii_digit c

render_from-digits :
    (caps : Captures) (acc ds b : Text)
    → is_digits ds ≡ true
    → starts_with_digit b ≡ false
    → render_from caps (some acc) (ds ++ b) ≡ reference caps (acc ++ ds) ++ render_from caps none b
unfolding render_from
render_from-digits caps acc [] [] d n =
    ground (arith, append-nil acc, append-nil (reference caps acc))
render_from-digits caps acc [] (c ∷ b) d n = ground (arith, append-nil acc)
render_from-digits caps acc (x ∷ ds) b d n =
    ground (arith, render_from-digits caps (snoc acc x) ds b, append_assoc acc (x ∷ []) ds)

render_from-plain :
    (caps : Captures) (a b : Text)
    → is_plain a ≡ true
    → render_from caps none (a ++ b) ≡ a ++ render_from caps none b
unfolding render_from
render_from-plain caps [] b p = refl
render_from-plain caps (c ∷ a) b p = ground (arith, render_from-plain caps a b)

-- A reference in a template: the text before it, in which there is no `$`, is kept; the `$` and the
-- digits, all that follow it, give what the capture of that number holds, or nothing if there is no
-- such capture or the number does not fit in 64 bits; and the rest is rendered alike.
pub render-reference :
    (caps : Captures) (a b : Text) (d : ℕ) (ds : Text)
    → is_plain a ≡ true
    → is_digits (d ∷ ds) ≡ true
    → starts_with_digit b ≡ false
    → render (a ++ (dollar ∷ (d ∷ ds) ++ b)) caps
      ≡ a ++ captured caps (parse_usize (d ∷ ds)) ++ render b caps
unfolding render render_from reference
render-reference caps a b d ds p g n =
    render_from-plain caps a (dollar ∷ (d ∷ ds) ++ b) p
    ∙ ap (λ x. a ++ x) (render_from-digits caps [] (d ∷ ds) b g n)
    ∙ sym (append_assoc a (captured caps (parse_usize (d ∷ ds))) (render_from caps none b))

-- A template without `$` is rendered as it is.
pub render-plain : (caps : Captures) (a : Text) → is_plain a ≡ true → render a caps ≡ a
unfolding render
render-plain caps a p =
    ap (λ t. render_from caps none t) (sym (append-nil a))
    ∙ render_from-plain caps a [] p
    ∙ append-nil a

module _ (fl : Floats) (now : ℕ → SystemTime) where
  byte_progress-stderr :
      (i : RuleInterpreter) (last : Option Text) (d t : Option ℕ)
      → byte_progress fl now (record i { last_stderr = last }) d t ≡ byte_progress fl now i d t
  unfolding byte_progress
  byte_progress-stderr i last none t = refl
  byte_progress-stderr i last (some d) none = refl
  byte_progress-stderr i last (some d) (some t) = refl

  apply_rule-stderr :
      (a : RuleAction) (caps : Captures) (i : RuleInterpreter) (last : Option Text)
      → (apply_rule fl now a caps (record i { last_stderr = last })).0
        ≡ (apply_rule fl now a caps i).0
  unfolding apply_rule
  apply_rule-stderr RuleAction.byte_progress_mb caps i last =
      byte_progress-stderr i last (parsed fl now (caps 1)) (parsed fl now (caps 2))
  apply_rule-stderr _ caps i last = refl

  -- The first rule that matches decides, on both streams: outside the notes, a line that is not
  -- empty gives the events of the first rule of the table that matches its text.
  pub on_line-first :
      (l : Line) (i : RuleInterpreter) (rs qs : List Rule) (r : Rule) (caps : Captures)
      → i.notes ≡ none
      → i.rules ≡ rs ++ r ∷ qs
      → none_matches rs l.text ≡ true
      → r.regex l.text ≡ some caps
      → is_nil l.text ≡ false
      → (on_line fl now l i).0 ≡ (apply_rule fl now r.action caps i).0
  unfolding on_line classify
  on_line-first l i rs qs r caps n q m e t =
      let seen = record i { last_stderr = stderr_line l i.last_stderr } in
      ap (λ o. (line_with fl now o l i).0) n
      ∙ if_rule (λ (u : Step). u.0 ≡ (apply_rule fl now r.action caps i).0) (is_nil l.text)
          (λ y. cc)
          (λ y.
            ap (λ x. (apply_match fl now x l.text seen).0)
              (ap (λ x. first_match x l.text) q ∙ first_match-append rs qs r l.text caps m e)
            ∙ apply_rule-stderr r.action caps i (stderr_line l i.last_stderr))
