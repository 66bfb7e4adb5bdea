-- ===== src/Driver/Reading.antt =====
-- What `next_line` reads from a pipe, and what a `select!` does to its future
-- (src/runtime/driver.rs).
use execra.Base.{
  ℕ, zero, suc, ◌≤◌, ◌+◌, false, Option, none, some, List, [], ◌∷◌, ◌++◌, ◌≡◌, refl, ap, ◌∙◌, arith,
  ◌==◌, if◌then◌else◌, length, append_assoc, Option-cases, inl, inr,
}
use execra.Command.{CommandSpec, Platform}
use execra.Host.{Host}
use execra.Interpreter.{Interpreter}
use execra.Job.{JobId}
use execra.Driver.Lines.{
  Pipe, End, eof, line, failed, done, Poll, ready, pending, poll_line, split_line, newline,
}
use execra.Driver.Loop.Task.{Task}
use execra.Driver.Loop.Select.{take_stderr, poll_stderr, take_stdout, poll_select}

-- No newline among the bytes.
abbrev pub IsOpenLine : List ℕ → Type 0
IsOpenLine bs = split_line bs ≡ none

split_line-append :
    (as' bs l r : List ℕ)
    → IsOpenLine as'
    → split_line bs ≡ some (l, r)
    → split_line (as' ++ bs) ≡ some (as' ++ l, r)
unfolding split_line
split_line-append [] bs l r o e = e
split_line-append (a ∷ as') bs l r o e = ground (arith, split_line-append as' bs l r)

split_line-append_open : (as' bs : List ℕ) → IsOpenLine as' → IsOpenLine bs → IsOpenLine (as' ++ bs)
unfolding split_line
split_line-append_open [] bs o e = e
split_line-append_open (a ∷ as') bs o e = ground (arith, split_line-append_open as' bs)

-- The bytes of a pipe come in pieces: a poll that has to wait keeps what it has read, so the poll
-- after the next piece gives the line that one poll over both pieces gives.
pub poll_line-append :
    (p as' bs : List ℕ) (e : Option End)
    → IsOpenLine as'
    → poll_line (p ++ as') (record { buffer = bs; end = e })
      ≡ poll_line p (record { buffer = as' ++ bs; end = e })
unfolding poll_line
poll_line-append p as' bs e o = elim (Option-cases (split_line bs)) [
  | inl n ↦ rw (n, split_line-append_open as' bs o n, append_assoc p as' bs)
  | inr ((l, r), s) ↦ rw (s, split_line-append as' bs l r o s, append_assoc p as' l)
]

-- The lines of a text: each with its newline, and what follows the last one, if anything does.
abbrev cons_first : ℕ → List (List ℕ) → List (List ℕ)
cons_first b [] = (b ∷ []) ∷ []
cons_first b (l ∷ ls) = (b ∷ l) ∷ ls

pub lines_of : List ℕ → List (List ℕ)
lines_of [] = []
lines_of (b ∷ bs) =
    let rest = lines_of bs in if b == newline then (b ∷ []) ∷ rest else cons_first b rest

-- Reads of a pipe that has ended, until the end or an error, each by a future of its own.
abbrev read_next : (Pipe → List (List ℕ)) → Poll → List (List ℕ)
read_next go (ready (line l) q) = l ∷ go q
read_next go (ready failed q) = []
read_next go (ready done q) = []
read_next go (pending bs q) = []

pub read_all : ℕ → Pipe → List (List ℕ)
read_all zero p = []
read_all (suc n) p = read_next (read_all n) (poll_line [] p)

lines_of-split : (bs l r : List ℕ) → split_line bs ≡ some (l, r) → lines_of bs ≡ l ∷ lines_of r
unfolding lines_of split_line
lines_of-split [] l r e = cc
lines_of-split (b ∷ bs) l r e = elim (Option-cases (split_line bs)) [
  | inl n ↦ ground arith
  | inr ((l', r'), s) ↦ ground (arith, lines_of-split bs l' r' s)
]

pub length-split : (bs l r : List ℕ) → split_line bs ≡ some (l, r) → length r + 1 ≤ length bs
unfolding split_line
length-split [] l r e = cc
length-split (b ∷ bs) l r e = elim (Option-cases (split_line bs)) [
  | inl n ↦ ground arith
  | inr ((l', r'), s) ↦ ground (arith, length-split bs l' r' s)
]

lines_of-open : (b : ℕ) (bs : List ℕ) → IsOpenLine (b ∷ bs) → lines_of (b ∷ bs) ≡ (b ∷ bs) ∷ []
unfolding lines_of split_line
lines_of-open b [] e = ground arith
lines_of-open b (c ∷ bs) e = ground (arith, lines_of-open c bs)

read_all-open :
    (n : ℕ) (bs : List ℕ)
    → length bs ≤ n
    → IsOpenLine bs
    → read_all (suc n) (record { buffer = bs; end = some eof }) ≡ lines_of bs
unfolding read_all poll_line lines_of
read_all-open n [] h o = refl
read_all-open zero (b ∷ bs) h o = absurd (omega arith)
read_all-open (suc n) (b ∷ bs) h o = rw (o, lines_of-open b bs o)

read_all-eq-lines_of :
    (n : ℕ) (bs : List ℕ)
    → length bs + 1 ≤ n
    → read_all n (record { buffer = bs; end = some eof }) ≡ lines_of bs
unfolding read_all poll_line
read_all-eq-lines_of zero bs h = absurd (omega arith)
read_all-eq-lines_of (suc n) bs h = elim (Option-cases (split_line bs)) [
  | inl o ↦ read_all-open n bs (omega arith) o
  | inr ((l, r), s) ↦
      rw (read_all, s, lines_of-split bs l r s)
        (ap (λ ls. l ∷ ls) (read_all-eq-lines_of n r (omega (arith, length-split bs l r s))))
]

pub flat : List (List ℕ) → List ℕ
flat [] = []
flat (l ∷ ls) = l ++ flat ls

flat-cons_first : (b : ℕ) (ls : List (List ℕ)) → flat (cons_first b ls) ≡ b ∷ flat ls
unfolding flat
flat-cons_first b [] = refl
flat-cons_first b (l ∷ ls) = refl

flat-lines_of : (bs : List ℕ) → flat (lines_of bs) ≡ bs
unfolding flat lines_of
flat-lines_of [] = refl
flat-lines_of (b ∷ bs) = ground (arith, flat-lines_of bs, flat-cons_first b (lines_of bs))

-- A pipe that has ended is read line by line: reads, one more than it has bytes, give the lines of
-- its bytes in their order, and the lines joined are the bytes.
pub read_all_complete :
    (n : ℕ) (bs : List ℕ)
    → length bs + 1 ≤ n
    → let lines = read_all n (record { buffer = bs; end = some eof }) in
      (lines ≡ lines_of bs) × (flat lines ≡ bs)
read_all_complete n bs h =
    (read_all-eq-lines_of n bs h, ap flat (read_all-eq-lines_of n bs h) ∙ flat-lines_of bs)

module _ {I : Type 0} (h : Host) (platform : Platform) (interp : Interpreter I) (job : JobId)
    (spec : CommandSpec) where
  -- The loop with `bs` in the stdout pipe, which is open.
  abbrev pub with_stdout : List ℕ → Task I → Task I
  with_stdout bs t = record t { stdout = record { buffer = bs; end = none } }

  -- Output is lost: if a line of stderr is there when the driver is polled, what stdout has of a
  -- line that is not complete is read and dropped. The driver goes on as if other bytes, or none,
  -- had been written.
  pub partial_stdout_lost :
      (t : Task I) (as' bs l r : List ℕ)
      → t.stdout_done ≡ false
      → t.stderr_done ≡ false
      → split_line t.stderr.buffer ≡ some (l, r)
      → IsOpenLine as'
      → IsOpenLine bs
      → poll_select h platform interp job spec (with_stdout as' t)
        ≡ poll_select h platform interp job spec (with_stdout bs t)
  unfolding poll_select take_stdout poll_stderr take_stderr poll_line
  partial_stdout_lost t as' bs l r d e s oa ob = ground arith
