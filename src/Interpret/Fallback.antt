-- ===== src/Interpret/Fallback.antt =====
-- When the fallback of `RuleInterpreter` (src/interpret.rs) explains a failure.
use execra.Base.{
  ℕ, Text, true, false, ◌||◌, Option, none, some, List, [], ◌∷◌, ◌++◌, ◌≡◌, refl, sym, subst, ap,
  ◌∙◌, arith, if_rule, Bool-cases, inl, inr,
}
use execra.Event.{stderr}
use execra.Finding.{SystemTime}
use execra.Interpreter.{Line}
use execra.Outcome.{ExitCode, exit_is_success}
use execra.Progress.{Floats}
use execra.Interpret.Errors.{
  reports, reports-append, on_lines-IsCounted, on_exit-reports, asked, asked-same,
}
use execra.Interpret.Render.{Captures}
use execra.Interpret.Table.{
  RuleAction, RuleInterpreter, FallbackPolicy, apply_rule, apply_match, is_nil, is_none,
  note_failed, classify, line_with, on_line, fall_back, synthesize, on_exit, on_lines, interpret,
  first_match, stderr_line, Step,
}

-- The settings stay, and a line of stderr that was kept is not forgotten.
record IsKept (i j : RuleInterpreter) : Type 0 where
  notes : j.notes ≡ i.notes
  fallback : j.fallback ≡ i.fallback
  last_stderr : is_none i.last_stderr ≡ false → is_none j.last_stderr ≡ false

module _ (fl : Floats) (now : ℕ → SystemTime) where
  apply_rule-same :
      (a : RuleAction) (caps : Captures) (i : RuleInterpreter)
      → let j = (apply_rule fl now a caps i).1 in
        (j.notes ≡ i.notes) × (j.fallback ≡ i.fallback) × (j.last_stderr ≡ i.last_stderr)
  unfolding apply_rule
  apply_rule-same a caps i = ground arith

  apply_match-same :
      (m : Option (RuleAction × Captures)) (text : Text) (i : RuleInterpreter)
      → let j = (apply_match fl now m text i).1 in
        (j.notes ≡ i.notes) × (j.fallback ≡ i.fallback) × (j.last_stderr ≡ i.last_stderr)
  unfolding note_failed
  apply_match-same none text i = ground arith
  apply_match-same (some (a, caps)) text i = apply_rule-same a caps i

  -- What `classify` does once the line of stderr has been noted.
  seen :
      (l : Line) (i : RuleInterpreter)
      → let j =
          (apply_match fl now
            (first_match i.rules l.text)
            l.text
            (record i { last_stderr = stderr_line l i.last_stderr })).1 in
        (j.notes ≡ i.notes)
        × (j.fallback ≡ i.fallback)
        × (j.last_stderr ≡ stderr_line l i.last_stderr)
  seen l i = apply_match-same (first_match i.rules l.text) l.text _

  classify-IsKept : (l : Line) (i : RuleInterpreter) → IsKept i (classify fl now l i).1
  unfolding classify stderr_line
  classify-IsKept l i =
      if_rule (λ (u : Step). IsKept i u.1) (is_nil l.text)
        (λ e. record { notes = refl; fallback = refl; last_stderr = λ h. h })
        (λ e.
          let s = seen l i in
          record { notes = s.0; fallback = s.1; last_stderr = λ h. ap is_none s.2 ∙ ground arith })

  classify-stderr :
      (l : Line) (i : RuleInterpreter)
      → l.stream ≡ stderr
      → is_nil l.text ≡ false
      → is_none (classify fl now l i).1.last_stderr ≡ false
  unfolding classify stderr_line
  classify-stderr l i e n =
      if_rule (λ (u : Step). is_none u.1.last_stderr ≡ false) (is_nil l.text) (λ y. cc)
        (λ y. ap is_none (seen l i).2 ∙ ground arith)

  on_line-IsKept :
      (l : Line) (i : RuleInterpreter) → i.notes ≡ none → IsKept i (on_line fl now l i).1
  unfolding on_line
  on_line-IsKept l i n =
      subst (λ o. IsKept i (line_with fl now o l i).1) (sym n) (classify-IsKept l i)

  on_lines-IsKept :
      (ls : List Line) (i : RuleInterpreter) → i.notes ≡ none → IsKept i (on_lines fl now ls i).1
  unfolding on_lines
  on_lines-IsKept [] i n = record { notes = refl; fallback = refl; last_stderr = λ h. h }
  on_lines-IsKept (l ∷ ls) i n =
      let j = (on_line fl now l i).1 in
      let k = on_line-IsKept l i n in
      let m = on_lines-IsKept ls j (k.notes ∙ n) in
      record {
        notes = m.notes ∙ k.notes;
        fallback = m.fallback ∙ k.fallback;
        last_stderr = λ h. m.last_stderr (k.last_stderr h);
      }

  on_lines-append :
      (ls ms : List Line) (i : RuleInterpreter)
      → (on_lines fl now (ls ++ ms) i).1 ≡ (on_lines fl now ms (on_lines fl now ls i).1).1
  unfolding on_lines
  on_lines-append [] ms i = refl
  on_lines-append (l ∷ ls) ms i = on_lines-append ls ms (on_line fl now l i).1

  kept_stderr :
      (ls ms : List Line) (l : Line) (i : RuleInterpreter)
      → i.notes ≡ none
      → l.stream ≡ stderr
      → is_nil l.text ≡ false
      → is_none (on_lines fl now (ls ++ l ∷ ms) i).1.last_stderr ≡ false
  unfolding on_lines on_line
  kept_stderr ls ms l i n e t =
      let j = (on_lines fl now ls i).1 in
      let jn = (on_lines-IsKept ls i n).notes ∙ n in
      let k = on_line-IsKept l j jn in
      ap (λ u. is_none u.last_stderr) (on_lines-append ls (l ∷ ms) i)
      ∙ (on_lines-IsKept ms (on_line fl now l j).1 (k.notes ∙ jn)).last_stderr (
          subst (λ o. is_none (line_with fl now o l j).1.last_stderr ≡ false) (sym jn)
            (classify-stderr l j e t))

  fall_back-reports :
      (fb : FallbackPolicy) (o : Option FallbackPolicy) (e : ExitCode) (i : RuleInterpreter)
      → o ≡ some fb
      → fb.from_stderr ≡ true
      → exit_is_success e ≡ false
      → i.emitted_known_error ≡ false
      → is_none i.last_stderr ≡ false
      → reports (fall_back fl now o e i).0 ≡ true
  unfolding synthesize
  fall_back-reports fb o e i p q r s t = ground arith

  -- A failure is explained: where the policy allows stderr and no notes are collected, a job that
  -- exits without success and has written a line of stderr that is not empty is reported to have a
  -- known error, by a rule or by the fallback.
  pub interpret-reports :
      (ls ms : List Line) (l : Line) (e : ExitCode) (i : RuleInterpreter) (fb : FallbackPolicy)
      → i.fallback ≡ some fb
      → fb.from_stderr ≡ true
      → i.notes ≡ none
      → i.emitted_known_error ≡ false
      → l.stream ≡ stderr
      → is_nil l.text ≡ false
      → exit_is_success e ≡ false
      → reports (interpret fl now (ls ++ l ∷ ms) e i) ≡ true
  unfolding interpret
  interpret-reports ls ms l e i fb f b n m s t x =
      let all = on_lines fl now (ls ++ l ∷ ms) i in
      let a = asked-same fl now all.1 in
      let k = on_lines-IsKept (ls ++ l ∷ ms) i n in
      let count = on_lines-IsCounted fl now (ls ++ l ∷ ms) i in
      reports-append all.0 (on_exit fl now e all.1).0 ∙ elim (Bool-cases (reports all.0)) [
        | inl y ↦ rw y refl
        | inr y ↦ rw y (
            on_exit-reports fl now e all.1
            ∙ fall_back-reports fb (asked fl now all.1).fallback e (asked fl now all.1)
                (a.1 ∙ k.fallback ∙ f) b x (a.0 ∙ count ∙ ap (λ c. c || reports all.0) m ∙ y)
                (ap is_none a.2 ∙ kept_stderr ls ms l i n s t))
      ]
