-- ===== src/Scoop/Notes.antt =====
-- The notes of `ScoopInstall` (examples/scoop_install.rs).
use execra.Base.{
  Text, codes, Bool, true, false, not, ◌&&◌, List, [], ◌∷◌, ◌++◌, snoc, ◌≡◌, refl, sym, ap, ◌∙◌,
  arith, if_rule, if_rule₂, if◌then◌else◌, text_eq, append_assoc, append-nil,
}
use execra.Finding.{SystemTime, Severity, make}
use execra.Interpret.Chars.{join_lines}
use execra.Interpreter.{InterpreterEvent, Line}
use execra.Progress.{Floats}
use execra.Scoop.Install.{
  Patterns, ScoopInstall, Step, flush_notes, is_empty, is_separator, new, on_line, take_note,
}

-- The events of the lines, in order, where each call is at the time `at`.
pub on_lines : Patterns → Floats → SystemTime → List Line → ScoopInstall → Step
on_lines p fl at [] i = ([], i)
on_lines p fl at (l ∷ ls) i =
    let s = on_line p fl at l i in let rest = on_lines p fl at ls s.1 in (s.0 ++ rest.0, rest.1)

-- No line of the block is empty.
abbrev pub is_body : List Line → Bool
is_body [] = true
is_body (l ∷ ls) = not (is_empty l.text) && is_body ls

-- The texts of a block that are kept.
abbrev pub kept : List Line → List Text
kept [] = []
kept (l ∷ ls) = if is_separator l.text then kept ls else l.text ∷ kept ls

abbrev pub noted : SystemTime → List Text → List InterpreterEvent
noted at [] = []
noted at (t ∷ ts) =
    InterpreterEvent.finding (make at Severity.info (codes "scoop.notes") (join_lines (t ∷ ts)))
    ∷ []

abbrev pub collecting : List Text → ScoopInstall
collecting buf = record { in_notes = true; notes_buf = buf }

-- What a block leaves behind: an interpreter that still takes every line for a note, if nothing of
-- the block was kept.
abbrev pub left_behind : List Text → ScoopInstall
left_behind [] = collecting []
left_behind (t ∷ ts) = new

-- What comes of the lines after a block: they are read as by a new interpreter, or, if nothing of the
-- block was kept, collected.
abbrev pub after : Patterns → Floats → SystemTime → List Line → List Text → Step
after p fl at more [] = ([], collecting (kept more))
after p fl at more (k ∷ ks) = on_lines p fl at more new

abbrev pub then_lines : (ScoopInstall → Step) → Step → Step
then_lines go s = (s.0 ++ (go s.1).0, (go s.1).1)

module _ (p : Patterns) (fl : Floats) (at : SystemTime) where
  take_body :
      (l : Line) (buf : List Text)
      → is_empty l.text ≡ false
      → on_line p fl at l (collecting buf)
        ≡ ([], collecting (if is_separator l.text then buf else snoc buf l.text))
  unfolding on_line take_note
  take_body l buf h =
      if_rule
        (λ (u : Step). u ≡ ([], collecting (if is_separator l.text then buf else snoc buf l.text)))
        (is_empty l.text) (λ y. cc)
        (λ n.
          if_rule₂ (λ (u : Step) x. u ≡ ([], collecting x)) (is_separator l.text)
            (is_separator l.text) refl (λ y. refl) (λ n. refl))

  kept_append :
      (b : Bool) (t : Text) (buf ks : List Text)
      → (if b then buf else snoc buf t) ++ ks ≡ buf ++ (if b then ks else t ∷ ks)
  kept_append true t buf ks = refl
  kept_append false t buf ks = append_assoc buf (t ∷ []) ks

  -- The lines of a block are collected, and nothing is emitted for them.
  collect :
      (ls ms : List Line) (buf : List Text)
      → is_body ls ≡ true
      → on_lines p fl at (ls ++ ms) (collecting buf)
        ≡ on_lines p fl at ms (collecting (buf ++ kept ls))
  unfolding on_lines
  collect [] ms buf b = ap (λ x. on_lines p fl at ms (collecting x)) (sym (append-nil buf))
  collect (l ∷ ls) ms buf b =
      ap (then_lines (on_lines p fl at (ls ++ ms))) (take_body l buf (ground arith))
      ∙ collect ls ms (if is_separator l.text then buf else snoc buf l.text) (ground arith)
      ∙ ap (λ x. on_lines p fl at ms (collecting x))
          (kept_append (is_separator l.text) l.text buf (kept ls))

  take_empty :
      (l : Line) (ks : List Text)
      → is_empty l.text ≡ true
      → on_line p fl at l (collecting ks) ≡ (noted at ks, left_behind ks)
  unfolding on_line take_note flush_notes new
  take_empty l [] e = ground arith
  take_empty l (k ∷ ks) e = ground arith

  take_trigger :
      (t : Line)
      → text_eq t.text (codes "Notes") ≡ true
      → on_line p fl at t new ≡ ([], collecting [])
  unfolding on_line new
  take_trigger t h =
      if_rule (λ (u : Step). u ≡ ([], collecting [])) (text_eq t.text (codes "Notes")) (λ y. refl)
        (λ n. cc)

  block :
      (t l : Line) (ls more : List Line)
      → text_eq t.text (codes "Notes") ≡ true
      → is_body ls ≡ true
      → is_empty l.text ≡ true
      → on_lines p fl at (t ∷ ls ++ l ∷ more) new
        ≡ then_lines (on_lines p fl at more) (noted at (kept ls), left_behind (kept ls))
  unfolding on_lines
  block t l ls more h b e =
      ap (then_lines (on_lines p fl at (ls ++ l ∷ more))) (take_trigger t h)
      ∙ collect ls (l ∷ more) [] b
      ∙ ap (then_lines (on_lines p fl at more)) (take_empty l (kept ls) e)

  -- Lines of which none is empty, after a block that left nothing behind, are swallowed.
  after_block :
      (ms : List Line) (ks : List Text)
      → is_body ms ≡ true
      → on_lines p fl at ms (left_behind ks) ≡ after p fl at ms ks
  unfolding on_lines
  after_block ms [] b =
      ap (λ ms. on_lines p fl at ms (collecting [])) (sym (append-nil ms)) ∙ collect ms [] [] b
  after_block ms (k ∷ ks) b = refl

-- A block of notes: the line `Notes`, then lines of which none is empty, then an empty one; and after
-- it more lines of which none is empty. The block gives one finding whose message is the lines
-- without the separators, joined by newlines, and the lines after it are read as by a new
-- interpreter. But if only separators stand in the block, or nothing, it gives no finding, and of the
-- lines after it none is read: they are collected as notes, whatever they say.
pub on_lines-block :
    (p : Patterns) (fl : Floats) (at : SystemTime) (t l : Line) (ls more : List Line)
    → text_eq t.text (codes "Notes") ≡ true
    → is_body ls ≡ true
    → is_empty l.text ≡ true
    → is_body more ≡ true
    → on_lines p fl at (t ∷ ls ++ l ∷ more) new
      ≡ (noted at (kept ls) ++ (after p fl at more (kept ls)).0, (after p fl at more (kept ls)).1)
on_lines-block p fl at t l ls more h b e m =
    block p fl at t l ls more h b e
    ∙ ap (λ (s : Step). (noted at (kept ls) ++ s.0, s.1)) (after_block p fl at more (kept ls) m)
