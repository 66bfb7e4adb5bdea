-- ===== src/Interpret/Notes.antt =====
-- The notes of `RuleInterpreter` (src/interpret.rs).
use execra.Base.{
  ℕ, suc, Text, codes, Bool, true, false, not, ◌&&◌, some, List, [], ◌∷◌, ◌++◌, snoc, ◌≡◌, refl,
  sym, ap, ◌∙◌, arith, if_rule, if_rule₂, if◌then◌else◌, text_eq, append_assoc, append-nil,
}
use execra.Finding.{SystemTime, make, Severity}
use execra.Interpreter.{InterpreterEvent, Line}
use execra.Progress.{Floats}
use execra.Interpret.Chars.{
  trim, trim_start, trim_end, starts_with, join_lines, is_whitespace, cons_kept,
}
use execra.Interpret.Table.{
  RuleInterpreter, NotesConfig, is_nil, flush_notes, take_note, on_line, on_lines, Step,
}

abbrev pub is_blank : Text → Bool
is_blank t = is_nil (trim t)

abbrev pub is_separator : Text → Bool
is_separator t = starts_with (codes "---") (trim_start t)

-- No line of the block is blank.
abbrev pub is_body : List Line → Bool
is_body [] = true
is_body (l ∷ ls) = not (is_blank l.text) && is_body ls

-- The texts of a block that are kept.
abbrev pub kept : List Line → List Text
kept [] = []
kept (l ∷ ls) = if is_separator l.text then kept ls else l.text ∷ kept ls

-- What becomes of them.
abbrev pub noted : SystemTime → Text → List Text → List InterpreterEvent
noted at code [] = []
noted at code (t ∷ ts) =
    InterpreterEvent.finding (make at Severity.info code (join_lines (t ∷ ts))) ∷ []

contradiction : ¬ (true ≡ false)
contradiction h = cc

trim_end-cons : (c : ℕ) (t : Text) → is_whitespace c ≡ false → is_nil (cons_kept c t) ≡ false
trim_end-cons c t e = ground arith

blank-trim_start : (t : Text) → is_nil (trim_end (trim_start t)) ≡ true → trim_start t ≡ []
unfolding trim_start trim_end
blank-trim_start [] h = refl
blank-trim_start (c ∷ t) h = ground (arith, blank-trim_start t, trim_end-cons c (trim_end t))

blank_separates : (t : Text) → is_blank t ≡ true → is_separator t ≡ false
unfolding trim starts_with
blank_separates t h = rw (blank-trim_start t h) refl

-- An interpreter that waits for notes, and one that collects them.
abbrev pub idle : RuleInterpreter → NotesConfig → RuleInterpreter
idle i n = record i { notes = some n; in_notes = false; notes_buf = [] }

abbrev pub collecting : RuleInterpreter → NotesConfig → List Text → RuleInterpreter
collecting i n buf = record i { notes = some n; in_notes = true; notes_buf = buf }

module _ (fl : Floats) (now : ℕ → SystemTime) (i : RuleInterpreter) (n : NotesConfig) where
  take_body :
      (l : Line) (buf : List Text)
      → is_blank l.text ≡ false
      → on_line fl now l (collecting i n buf)
        ≡ ([], collecting i n (if is_separator l.text then buf else snoc buf l.text))
  unfolding on_line take_note
  take_body l buf b =
      if_rule₂ (λ (u : Step) x. u ≡ ([], collecting i n x)) (is_separator l.text)
        (is_separator l.text) refl (λ e. refl)
        (λ e.
          if_rule (λ (u : Step). u ≡ ([], collecting i n (snoc buf l.text))) (is_blank l.text)
            (λ y. cc) (λ y. refl))

  kept_append :
      (b : Bool) (t : Text) (buf ks : List Text)
      → (if b then buf else snoc buf t) ++ ks ≡ buf ++ (if b then ks else t ∷ ks)
  kept_append true t buf ks = refl
  kept_append false t buf ks = append_assoc buf (t ∷ []) ks

  -- The lines of a block are collected, and nothing is emitted for them.
  collect :
      (ls ms : List Line) (buf : List Text)
      → is_body ls ≡ true
      → on_lines fl now (ls ++ ms) (collecting i n buf)
        ≡ on_lines fl now ms (collecting i n (buf ++ kept ls))
  unfolding on_lines
  collect [] ms buf b = ap (λ x. on_lines fl now ms (collecting i n x)) (sym (append-nil buf))
  collect (l ∷ ls) ms buf b =
      ap
        (λ (u : Step).
          (u.0 ++ (on_lines fl now (ls ++ ms) u.1).0, (on_lines fl now (ls ++ ms) u.1).1))
        (take_body l buf (ground arith))
      ∙ collect ls ms (if is_separator l.text then buf else snoc buf l.text) (ground arith)
      ∙ ap (λ x. on_lines fl now ms (collecting i n x))
          (kept_append (is_separator l.text) l.text buf (kept ls))

  -- The interpreter after a block of which `ks` was kept.
  abbrev pub after_notes : List Text → RuleInterpreter
  after_notes ks = record (idle i n) { clock = if is_nil ks then i.clock else suc i.clock }

  flush_notes-noted :
      (ks : List Text)
      → flush_notes fl now (collecting i n ks) ≡ (noted (now i.clock) n.code ks, after_notes ks)
  unfolding flush_notes
  flush_notes-noted [] = refl
  flush_notes-noted (k ∷ ks) = refl

  take_blank :
      (l : Line) (ks : List Text)
      → is_blank l.text ≡ true
      → on_line fl now l (collecting i n ks) ≡ (noted (now i.clock) n.code ks, after_notes ks)
  unfolding on_line take_note
  take_blank l ks b =
      if_rule (λ (u : Step). u ≡ (noted (now i.clock) n.code ks, after_notes ks))
        (is_separator l.text) (λ y. absurd (contradiction (sym y ∙ blank_separates l.text b)))
        (λ y.
          if_rule (λ (u : Step). u ≡ (noted (now i.clock) n.code ks, after_notes ks))
            (is_blank l.text) (λ z. flush_notes-noted ks) (λ z. cc))

  take_trigger :
      (t : Line)
      → text_eq (trim t.text) n.trigger ≡ true
      → on_line fl now t (idle i n) ≡ ([], collecting i n [])
  unfolding on_line
  take_trigger t h =
      if_rule (λ (u : Step). u ≡ ([], collecting i n [])) (text_eq (trim t.text) n.trigger)
        (λ y. refl) (λ y. cc)

  -- A block of notes: the line of the trigger, then lines of which none is blank, then a blank one.
  -- It gives one finding, an information with the configured code whose message is the lines
  -- without the separators, joined by newlines; no finding where no line is left; and no other
  -- event, whatever the rules are. Afterwards the interpreter is as before, but for its clock.
  pub on_lines-notes :
      (t l : Line) (ls : List Line)
      → text_eq (trim t.text) n.trigger ≡ true
      → is_body ls ≡ true
      → is_blank l.text ≡ true
      → on_lines fl now (t ∷ ls ++ l ∷ []) (idle i n)
        ≡ (noted (now i.clock) n.code (kept ls), after_notes (kept ls))
  unfolding on_lines
  on_lines-notes t l ls h b e =
      let ks = kept ls in
      ap
        (λ (u : Step).
          (u.0 ++ (on_lines fl now (ls ++ l ∷ []) u.1).0, (on_lines fl now (ls ++ l ∷ []) u.1).1))
        (take_trigger t h)
      ∙ collect ls (l ∷ []) [] b
      ∙ ap (λ (u : Step). (u.0 ++ [], u.1)) (take_blank l ks e)
      ∙ ap (λ es. (es, after_notes ks)) (append-nil (noted (now i.clock) n.code ks))
