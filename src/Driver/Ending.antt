-- ===== src/Driver/Ending.antt =====
-- The end of the loop of `drive_job` (src/runtime/driver.rs).
use execra.Base.{
  ℕ, zero, suc, ◌+◌, ◌≤◌, ◌<◌, Text, Bool, true, false, Option, none, some, List, [], ◌∷◌, ◌++◌,
  ◌≡◌, ◌≢◌, refl, arith, length, length-append, Bool-cases, inl, inr, if_rule,
}
use execra.Command.{CommandSpec, Platform}
use execra.Event.{Stream, stdout, stderr}
use execra.Host.{Host}
use execra.Interpreter.{Interpreter}
use execra.Job.{JobId}
use execra.Driver.Lines.{
  Pipe, End, eof, read_error, line, failed, done, Poll, ready, pending, poll_line, poll_split,
  split_line, at_end,
}
use execra.Driver.Reading.{length-split}
use execra.Driver.Loop.Call.{process_line}
use execra.Driver.Loop.Frame.{process_line-IsFrame}
use execra.Driver.Loop.Rule.{is_spent}
use execra.Driver.Loop.Task.{Task, is_over}
use execra.Driver.Loop.Select.{
  receive, poll_exit, take_stderr, poll_stderr, take_stdout, poll_stdout, poll_select,
}
use execra.Driver.Loop.Run.{Tick, poll, tick, run}
use execra.Driver.Wait.{Stage, reported}

abbrev pub flag : Bool → ℕ
flag true = 0
flag false = 1

-- The bytes that are not yet a line, and the branches that are still enabled.
abbrev pub work : {I : Type 0} → Task I → ℕ
work t =
    length t.stdout_partial
    + length t.stdout.buffer
    + flag t.stdout_done
    + (length t.stderr_partial + length t.stderr.buffer + flag t.stderr_done)
    + flag t.child_exited

-- Nothing more can come.
pub record IsEnding {I : Type 0} (t : Task I) : Type 0 where
  pub stdout_ended : t.stdout.end ≢ none
  pub stderr_ended : t.stderr.end ≢ none
  pub spent : is_spent t.wait.stage t.wait_dropped ≡ true

-- A read of an ended pipe is ready, keeps the end, and takes bytes unless it is the last one.
abbrev Consumes : List ℕ → Pipe → Poll → Type 0
Consumes partial p (ready (line l) q) =
    (length q.buffer + 1 ≤ length partial + length p.buffer) × (q.end ≢ none)
Consumes partial p (ready failed q) =
    (length q.buffer ≤ length partial + length p.buffer) × (q.end ≢ none)
Consumes partial p (ready done q) =
    (length q.buffer ≤ length partial + length p.buffer) × (q.end ≢ none)
Consumes partial p (pending bs q) = ⊥

at_end-Consumes :
    (partial : List ℕ) (p : Pipe) (bytes : List ℕ) (e : Option End)
    → e ≢ none
    → length bytes ≡ length partial + length p.buffer
    → Consumes partial p (at_end bytes e)
at_end-Consumes partial p bytes none n l = absurd (n refl)
at_end-Consumes partial p bytes (some read_error) n l = (omega arith, λ x. cc)
at_end-Consumes partial p [] (some eof) n l = (omega arith, λ x. cc)
at_end-Consumes partial p (b ∷ bs) (some eof) n l = (omega arith, λ x. cc)

poll_split-Consumes :
    (partial : List ℕ) (p : Pipe) (o : Option (List ℕ × List ℕ))
    → split_line p.buffer ≡ o
    → p.end ≢ none
    → Consumes partial p (poll_split o partial p)
poll_split-Consumes partial p none s e =
    at_end-Consumes partial p (partial ++ p.buffer) p.end e (length-append partial p.buffer)
poll_split-Consumes partial p (some (l, r)) s e = (omega (arith, length-split p.buffer l r s), e)

poll_line-Consumes :
    (partial : List ℕ) (p : Pipe) → p.end ≢ none → Consumes partial p (poll_line partial p)
unfolding poll_line
poll_line-Consumes partial p e = poll_split-Consumes partial p (split_line p.buffer) refl e

-- The task after a poll has less to do.
pub record IsLess {I : Type 0} (t u : Task I) : Type 0 where
  pub less : work u < work t
  pub ending : IsEnding u

module _ {I : Type 0} (h : Host) (platform : Platform) (interp : Interpreter I) (job : JobId)
    (spec : CommandSpec) where
  read_line-IsLess :
      (s : Stream) (x : Text) (t u : Task I)
      → work u < work t
      → IsEnding u
      → IsLess t (process_line h interp job spec s x u)
  read_line-IsLess s x t u l e =
      let f = process_line-IsFrame h interp job spec s x u in
      record {
        less =
            rw
              (
                f.stdout, f.stderr, f.stdout_partial, f.stderr_partial, f.stdout_done,
                f.stderr_done, f.child_exited,
              )
              l;
        ending = record {
          stdout_ended = rw f.stdout e.stdout_ended;
          stderr_ended = rw f.stderr e.stderr_ended;
          spent = rw (f.wait, f.wait_dropped) e.spent;
        };
      }

  receive-IsLess :
      (st : Stage) (b : Bool) (t : Task I)
      → is_spent st b ≡ true
      → t.child_exited ≡ false
      → IsEnding t
      → IsLess t (receive h platform interp job spec st b t)
  unfolding receive
  receive-IsLess (reported o) b t s c e = ground arith
  receive-IsLess _ true t s c e = ground arith
  receive-IsLess _ false t s c e = cc

  take_stderr-IsLess :
      (r : Poll) (t : Task I)
      → Consumes t.stderr_partial t.stderr r
      → t.stderr_done ≡ false
      → IsEnding t
      → IsLess t (take_stderr h platform interp job spec r t)
  unfolding take_stderr
  take_stderr-IsLess (ready (line l) q) t c d e =
      read_line-IsLess stderr _ t _ (omega arith)
        (record { stdout_ended = e.stdout_ended; stderr_ended = c.1; spent = e.spent })
  take_stderr-IsLess (ready failed q) t c d e = ground arith
  take_stderr-IsLess (ready done q) t c d e = ground arith
  take_stderr-IsLess (pending bs q) t c d e = absurd c

  take_stdout-IsLess :
      (r : Poll) (t : Task I)
      → Consumes t.stdout_partial t.stdout r
      → t.stdout_done ≡ false
      → IsEnding t
      → IsLess t (take_stdout h platform interp job spec r t)
  unfolding take_stdout
  take_stdout-IsLess (ready (line l) q) t c d e =
      read_line-IsLess stdout _ t _ (omega arith)
        (record { stdout_ended = c.1; stderr_ended = e.stderr_ended; spent = e.spent })
  take_stdout-IsLess (ready failed q) t c d e = ground arith
  take_stdout-IsLess (ready done q) t c d e = ground arith
  take_stdout-IsLess (pending bs q) t c d e = absurd c

  poll_exit-IsLess :
      (t : Task I)
      → t.child_exited ≡ false
      → IsEnding t
      → IsLess t (poll_exit h platform interp job spec t)
  unfolding poll_exit
  poll_exit-IsLess t x e =
      if_rule (IsLess t) t.child_exited (λ y. cc)
        (λ y. receive-IsLess t.wait.stage t.wait_dropped t e.spent x e)

  poll_stderr-IsLess :
      (t : Task I)
      → (t.stderr_done ≡ true → t.child_exited ≡ false)
      → IsEnding t
      → IsLess t (poll_stderr h platform interp job spec t)
  unfolding poll_stderr
  poll_stderr-IsLess t x e =
      if_rule (IsLess t) t.stderr_done (λ y. poll_exit-IsLess t (x y) e)
        (λ y.
          take_stderr-IsLess (poll_line t.stderr_partial t.stderr) t
            (poll_line-Consumes t.stderr_partial t.stderr e.stderr_ended) y e)

  poll_stdout-IsLess :
      (t : Task I)
      → is_over t ≡ false
      → IsEnding t
      → IsLess t (poll_stdout h platform interp job spec t)
  unfolding poll_stdout
  poll_stdout-IsLess t o e =
      if_rule (IsLess t) t.stdout_done (λ y. poll_stderr-IsLess t (λ z. ground arith) e)
        (λ y.
          take_stdout-IsLess (poll_line t.stdout_partial t.stdout) t
            (poll_line-Consumes t.stdout_partial t.stdout e.stdout_ended) y e)

  pub poll_select-IsLess :
      (t : Task I)
      → is_over t ≡ false
      → IsEnding t
      → IsLess t (poll_select h platform interp job spec t)
  unfolding poll_select
  poll_select-IsLess t o e =
      if_rule (IsLess t) (is_over t) (λ y. cc) (λ y. poll_stdout-IsLess t o e)

  abbrev pub polls : ℕ → List Tick
  polls zero = []
  polls (suc n) = poll ∷ polls n

  over_stays :
      (n : ℕ) (t : Task I)
      → is_over t ≡ true
      → is_over (run h platform interp job spec (polls n) t) ≡ true
  unfolding run tick poll_select
  over_stays zero t o = o
  over_stays (suc n) t o = over_stays n (poll_select h platform interp job spec t) (
      if_rule (λ u. is_over u ≡ true) (is_over t) {x = t}
        {y = poll_stdout h platform interp job spec t} (λ y. o) (λ y. cc))

  -- Once both pipes have ended and the wait task has reported or is gone, the loop is over after at
  -- most as many polls as there are unread bytes, half-read bytes and enabled branches together.
  pub polls_end :
      (n : ℕ) (t : Task I)
      → IsEnding t
      → work t ≤ n
      → is_over (run h platform interp job spec (polls n) t) ≡ true
  unfolding run tick
  polls_end zero t e m = elim (Bool-cases (is_over t)) [
    | inl o ↦ o
    | inr o ↦ absurd (omega (arith, (poll_select-IsLess t o e).less))
  ]
  polls_end (suc n) t e m = elim (Bool-cases (is_over t)) [
    | inl o ↦ over_stays (suc n) t o
    | inr o ↦
        let l = poll_select-IsLess t o e in
        polls_end n (poll_select h platform interp job spec t) l.ending (omega (arith, l.less))
  ]
