-- ===== src/Driver/Isolation.antt =====
-- Two interpreters on one job (`drive_job` in src/runtime/driver.rs; INTERPRETER.md on bad metadata).
use execra.Base.{ℕ, Bool, Option, List, ◌≡◌, refl, sym, ap, ◌∙◌, arith}
use execra.Command.{CommandSpec, Platform}
use execra.Host.{Host}
use execra.Interpreter.{Interpreter}
use execra.Job.{JobId}
use execra.Outcome
use execra.Outcome.{ExitCode, Outcome}
use execra.Driver.Loop.Task.{is_over}
use execra.Driver.Loop.Run.{Tick, run, finish, wind_up, verdict, final_exit, start, close_raw}
use execra.Driver.Verdict.{compute_outcome}
use execra.Driver.RawOutput.{Raw}
use execra.Driver.World.{World, DriverState}
use execra.Driver.Output.{output, finalize-output}
use execra.Driver.Twin.{IsTwin, run-IsTwin, wind_up-IsTwin}

-- How a job ended, without what its interpreter says of it.
pub data Kind : Type 0 where
  won lost late stopped : Kind

abbrev pub kind : Outcome → Kind
kind (Outcome.succeeded summary findings) = won
kind (Outcome.failed Outcome.timeout summary findings) = late
kind (Outcome.failed _ summary findings) = lost
kind (Outcome.cancelled findings) = stopped

compute_outcome-kind :
    (c c' l l' : Bool) (e e' : ExitCode) (s s' : DriverState)
    → c' ≡ c
    → l' ≡ l
    → e' ≡ e
    → kind (compute_outcome c l e s) ≡ kind (compute_outcome c' l' e' s')
unfolding compute_outcome
compute_outcome-kind c c' l l' e e' s s' p q r = rw (p, q, r) (ground arith)

module _ {I J : Type 0} (h : Host) (platform : Platform) (a : Interpreter I) (b : Interpreter J)
    (job : JobId) (spec : CommandSpec) (pid : Option ℕ) (group : Bool) (raw : Raw) (i : Option I)
    (j : Option J) (was_cancelled : Bool) (w : World) where
  start-IsTwin :
      IsTwin
        (start h platform a job spec pid group raw i was_cancelled w)
        (start h platform b job spec pid group raw j was_cancelled w)
  unfolding start
  start-IsTwin = grind arith

  -- The same ticks with two interpreters, or with one and with none, which may panic or return any
  -- events: the loops end at the same tick, with the same output events in the same order, the same
  -- raw output and exit status, and outcomes of the same kind: success, failure, timeout or
  -- cancellation.
  pub interpreter_isolated :
      (xs : List Tick)
      → let t =
          run h platform a job spec xs
            (start h platform a job spec pid group raw i was_cancelled w) in
        let u =
          run h platform b job spec xs
            (start h platform b job spec pid group raw j was_cancelled w) in
        let (o, t') = finish h platform a job spec t in
        let (p, u') = finish h platform b job spec u in
        (is_over t ≡ is_over u)
        × (output t'.drive.world.sent ≡ output u'.drive.world.sent)
        × (t'.raw ≡ u'.raw)
        × (t'.exit_status ≡ u'.exit_status)
        × (kind o ≡ kind p)
  unfolding finish verdict
  interpreter_isolated xs =
      let t =
        run h platform a job spec xs
          (start h platform a job spec pid group raw i was_cancelled w) in
      let u =
        run h platform b job spec xs
          (start h platform b job spec pid group raw j was_cancelled w) in
      let s = run-IsTwin h platform a b job spec xs _ _ start-IsTwin in
      let f = wind_up-IsTwin h platform a b job spec t u s in
      let t' = wind_up h platform a job spec t in
      let u' = wind_up h platform b job spec u in
      (
        rw (s.stdout_done, s.stderr_done, s.child_exited) refl,
        finalize-output h job _ t'.drive.world
            ∙ sym f.output_same
            ∙ sym (finalize-output h job _ u'.drive.world),
        ap close_raw (sym f.raw),
        sym f.exit_status,
        compute_outcome-kind t'.cancelled u'.cancelled t'.timed_out u'.timed_out
            (final_exit h platform a job spec t'.exit_status)
            (final_exit h platform b job spec u'.exit_status) t'.drive.state u'.drive.state
            f.cancelled f.timed_out (ap (final_exit h platform a job spec) f.exit_status),
      )
