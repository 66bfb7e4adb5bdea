-- ===== src/Driver/Due.antt =====
-- How far the loop of `drive_job` (src/runtime/driver.rs) is from its end, whatever happens between
-- its polls.
use execra.Base.{
  ℕ, ◌-◌, ◌≤◌, true, Option, none, some, List, ◌≡◌, ◌≢◌, ◌⊎◌, inl, inr, refl, sym, subst, arith,
  Bool-cases, if_rule,
}
use execra.Command.{CommandSpec, Platform}
use execra.Host.{Host}
use execra.Interpreter.{Interpreter}
use execra.Job.{JobId}
use execra.Driver.Coherent.{dropped-is_spent, step-is_spent}
use execra.Driver.Ending.{IsEnding, work, poll_select-IsLess}
use execra.Driver.Lines.{Pipe, End}
use execra.Driver.Loop.Run.{
  Tick, stdout_bytes, stderr_bytes, stdout_end, stderr_end, wake, cancel, wait_dropped, poll,
  arrive, close, on_wake, tick,
}
use execra.Driver.Loop.Select.{poll_select, poll_stdout}
use execra.Driver.Loop.Task.{Task, is_over}
use execra.Driver.Wait.{Wake, step}

-- The loop is over, or nothing more can come and at most `n` polls are left to do.
abbrev pub IsDue : {I : Type 0} → ℕ → Task I → Type 0
IsDue n t = (is_over t ≡ true) ⊎ (IsEnding t × (work t ≤ n))

-- Only a poll of the driver counts, and nothing else sets it back.
abbrev pub left_after : ℕ → Tick → ℕ
left_after n poll = n - 1
left_after n _ = n

arrive-ended : (bytes : List ℕ) (e : Option End) (p : Pipe) → e ≢ none → arrive bytes e p ≡ p
arrive-ended bytes none p n = absurd (n refl)
arrive-ended bytes (some e) p n = refl

close-ended : (x : End) (e : Option End) (p : Pipe) → e ≢ none → close x e p ≡ p
close-ended x none p n = absurd (n refl)
close-ended x (some e) p n = refl

module _ {I : Type 0} (h : Host) (platform : Platform) (interp : Interpreter I) (job : JobId)
    (spec : CommandSpec) where
  on_wake-IsDue :
      (n : ℕ) (w : Wake) (t : Task I) → IsDue n t → IsDue n (on_wake h platform interp job spec w t)
  unfolding on_wake step
  on_wake-IsDue n w t (inl o) = inl o
  on_wake-IsDue n w t (inr (e, l)) = inr (
    record {
      stdout_ended = e.stdout_ended;
      stderr_ended = e.stderr_ended;
      spent = step-is_spent t.wait.stage t.cancelled w t.wait t.wait_dropped refl e.spent;
    },
    l,
  )

  stdout-IsDue :
      (n : ℕ) (p : Pipe) (t : Task I)
      → (t.stdout.end ≢ none → p ≡ t.stdout)
      → IsDue n t
      → IsDue n (record t { stdout = p })
  stdout-IsDue n p t s (inl o) = inl o
  stdout-IsDue n p t s (inr (e, l)) = inr (
      subst (λ q. IsEnding (record t { stdout = q }) × (work (record t { stdout = q }) ≤ n))
        (sym (s e.stdout_ended)) (e, l))

  stderr-IsDue :
      (n : ℕ) (p : Pipe) (t : Task I)
      → (t.stderr.end ≢ none → p ≡ t.stderr)
      → IsDue n t
      → IsDue n (record t { stderr = p })
  stderr-IsDue n p t s (inl o) = inl o
  stderr-IsDue n p t s (inr (e, l)) = inr (
      subst (λ q. IsEnding (record t { stderr = q }) × (work (record t { stderr = q }) ≤ n))
        (sym (s e.stderr_ended)) (e, l))

  wait_dropped-IsDue : (n : ℕ) (t : Task I) → IsDue n t → IsDue n (record t { wait_dropped = true })
  wait_dropped-IsDue n t (inl o) = inl o
  wait_dropped-IsDue n t (inr (e, l)) = inr (
    record {
      stdout_ended = e.stdout_ended;
      stderr_ended = e.stderr_ended;
      spent = dropped-is_spent t.wait.stage;
    },
    l,
  )

  cancel-IsDue : (n : ℕ) (t : Task I) → IsDue n t → IsDue n (record t { cancelled = true })
  cancel-IsDue n t (inl o) = inl o
  cancel-IsDue n t (inr (e, l)) =
      inr (
        record { stdout_ended = e.stdout_ended; stderr_ended = e.stderr_ended; spent = e.spent },
        l,
      )

  poll_over :
      (t : Task I) → is_over t ≡ true → is_over (poll_select h platform interp job spec t) ≡ true
  unfolding poll_select
  poll_over t o =
      if_rule (λ (u : Task I). is_over u ≡ true) (is_over t) {x = t}
        {y = poll_stdout h platform interp job spec t} (λ y. o) (λ y. cc)

  poll-IsDue :
      (n : ℕ) (t : Task I) → IsDue n t → IsDue (n - 1) (poll_select h platform interp job spec t)
  poll-IsDue n t (inl o) = inl (poll_over t o)
  poll-IsDue n t (inr (e, l)) = elim (Bool-cases (is_over t)) [
    | inl o ↦ inl (poll_over t o)
    | inr o ↦
        let x = poll_select-IsLess h platform interp job spec t o e in
        inr (x.ending, omega (arith, x.less, l))
  ]

  pub tick-IsDue :
      (n : ℕ) (x : Tick) (t : Task I)
      → IsDue n t
      → IsDue (left_after n x) (tick h platform interp job spec x t)
  unfolding tick
  tick-IsDue n (stdout_bytes bytes) t d =
      stdout-IsDue n _ t (arrive-ended bytes t.stdout.end t.stdout) d
  tick-IsDue n (stderr_bytes bytes) t d =
      stderr-IsDue n _ t (arrive-ended bytes t.stderr.end t.stderr) d
  tick-IsDue n (stdout_end e) t d = stdout-IsDue n _ t (close-ended e t.stdout.end t.stdout) d
  tick-IsDue n (stderr_end e) t d = stderr-IsDue n _ t (close-ended e t.stderr.end t.stderr) d
  tick-IsDue n (wake w) t d = if_rule (IsDue n) t.wait_dropped (λ y. d) (λ y. on_wake-IsDue n w t d)
  tick-IsDue n cancel t d = cancel-IsDue n t d
  tick-IsDue n wait_dropped t d = wait_dropped-IsDue n t d
  tick-IsDue n poll t d = poll-IsDue n t d

  pub due-is_over : (t : Task I) → IsDue 0 t → is_over t ≡ true
  due-is_over t (inl o) = o
  due-is_over t (inr (e, l)) = elim (Bool-cases (is_over t)) [
    | inl o ↦ o
    | inr o ↦ absurd (omega (arith, (poll_select-IsLess h platform interp job spec t o e).less, l))
  ]
