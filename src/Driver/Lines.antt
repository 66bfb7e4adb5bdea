-- ===== src/Driver/Lines.antt =====
-- `next_line` of src/runtime/driver.rs: one poll of the future that reads a line from a pipe.
use execra.Base.{ℕ, Option, none, some, List, [], ◌∷◌, ◌++◌, ◌==◌, if◌then◌else◌}

-- How a pipe ends.
pub data End : Type 0 where
  eof read_error : End

-- The bytes that have come in and are not yet read, and the end, if it has come.
pub record Pipe : Type 0 where
  pub buffer : List ℕ
  pub end : Option End

abbrev pub newline : ℕ
newline = 10

abbrev pub carriage_return : ℕ
carriage_return = 13

abbrev pub cons_line : ℕ → Option (List ℕ × List ℕ) → Option (List ℕ × List ℕ)
cons_line b none = none
cons_line b (some (l, r)) = some (b ∷ l, r)

-- The bytes up to and with the first newline, and those after it.
unfoldable pub split_line : List ℕ → Option (List ℕ × List ℕ)
split_line [] = none
split_line (b ∷ bs) =
    let rest = split_line bs in if b == newline then some (b ∷ [], bs) else cons_line b rest

-- `if bytes.ends_with(&[x]) { bytes.pop(); }`
unfoldable pub pop_if : ℕ → List ℕ → List ℕ
pop_if x [] = []
pop_if x (b ∷ []) = if b == x then [] else b ∷ []
pop_if x (b ∷ c ∷ bs) = b ∷ pop_if x (c ∷ bs)

unfoldable pub strip : List ℕ → List ℕ
unfolding pop_if
strip bytes = pop_if carriage_return (pop_if newline bytes)

-- What `next_line` resolves to: a line, an error, or the end.
pub data Read : Type 0 where
  line : List ℕ → Read
  failed : Read
  done : Read

pub data Poll : Type 0 where
  ready : Read → Pipe → Poll
  pending : List ℕ → Pipe → Poll

abbrev pub at_end : List ℕ → Option End → Poll
at_end bytes none = pending bytes (record { buffer = []; end = none })
at_end bytes (some read_error) = ready failed (record { buffer = []; end = some read_error })
at_end [] (some eof) = ready done (record { buffer = []; end = some eof })
at_end (b ∷ bs) (some eof) = ready (line (b ∷ bs)) (record { buffer = []; end = some eof })

abbrev pub poll_split : Option (List ℕ × List ℕ) → List ℕ → Pipe → Poll
poll_split (some (l, rest)) partial p = ready (line (partial ++ l)) (record p { buffer = rest })
poll_split none partial p = at_end (partial ++ p.buffer) p.end

-- `partial` is the local buffer of the future, which has read it in earlier polls. `read_until`
-- moves what is there into that buffer before it waits.
unfoldable pub poll_line : List ℕ → Pipe → Poll
unfolding split_line
poll_line partial p = poll_split (split_line p.buffer) partial p
