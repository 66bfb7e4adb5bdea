-- ===== src/Driver/Disabled.antt =====
-- What `interp_disabled` does to the rest of a job (src/runtime/driver.rs).
use execra.Base.{
  Text, Bool, true, false, Option, List, [], ◌∷◌, ◌≡◌, refl, sym, ap, ◌∙◌, arith, if_rule₂,
}
use execra.Command.{CommandSpec, Platform}
use execra.Event.{Stream, stdout, stderr}
use execra.Host.{Host}
use execra.Interpreter.{Interpreter, Line}
use execra.Job.{JobId}
use execra.Outcome.{ExitCode}
use execra.Driver.Apply.{exit_open_phases}
use execra.Driver.Lines.{Read, line, failed, done, Poll, ready, pending, poll_line}
use execra.Driver.Loop.Call.{call_line, call_exit, record_line, process_line, run_on_exit}
use execra.Driver.Loop.Rule.{run_keeps}
use execra.Driver.Loop.Run.{
  Tick, poll, on_wake, tick, run, close_raw, final_exit, finalize, finish, verdict, wind_up,
}
use execra.Driver.Loop.Select.{
  on_read, on_exit, receive, poll_exit, take_stderr, poll_stderr, take_stdout, poll_stdout,
  poll_select,
}
use execra.Driver.Loop.Task.{Task, is_over}

abbrev IsOff : {I : Type 0} → Task I → Type 0
IsOff t = t.drive.state.interp_disabled ≡ true

module _ {I : Type 0} (h : Host) (job : JobId) (spec : CommandSpec) (a : Interpreter I) where
  call_line-off :
      (o : Option I) (b : Bool) (l : Line) (t : Task I)
      → b ≡ true
      → call_line h a job spec o b l t ≡ t
  unfolding call_line
  call_line-off o true l t e = ground arith
  call_line-off o false l t e = cc

  call_exit-off :
      (o : Option I) (b : Bool) (x : ExitCode) (t : Task I)
      → b ≡ true
      → call_exit h a job spec o b x t ≡ t
  unfolding call_exit
  call_exit-off o true x t e = ground arith
  call_exit-off o false x t e = cc

  process_line-off :
      (s : Stream) (x : Text) (t : Task I)
      → IsOff t
      → process_line h a job spec s x t ≡ record_line h a job spec s x (h.now t.drive.world.clock) t
  unfolding process_line record_line
  process_line-off s x t e = call_line-off t.interpreter t.drive.state.interp_disabled _ _ e

module _ {I : Type 0} (h : Host) (platform : Platform) (job : JobId) (spec : CommandSpec)
    (a b : Interpreter I) where
  process_line_same :
      (s : Stream) (x : Text) (t : Task I)
      → IsOff t
      → process_line h a job spec s x t ≡ process_line h b job spec s x t
  unfolding record_line
  process_line_same s x t e =
      process_line-off h job spec a s x t e ∙ sym (process_line-off h job spec b s x t e)

  on_read_same :
      (s : Stream) (r : Read) (t : Task I)
      → IsOff t
      → on_read h platform a job spec s r t ≡ on_read h platform b job spec s r t
  unfolding on_read
  on_read_same s (line bytes) t e = process_line_same s _ t e
  on_read_same s failed t e = refl
  on_read_same s done t e = refl

  poll_exit_same :
      (t : Task I) → poll_exit h platform a job spec t ≡ poll_exit h platform b job spec t
  unfolding poll_exit receive on_exit
  poll_exit_same t = refl

  take_stderr_same :
      (r : Poll) (t : Task I)
      → IsOff t
      → take_stderr h platform a job spec r t ≡ take_stderr h platform b job spec r t
  unfolding take_stderr
  take_stderr_same (ready r q) t e = on_read_same stderr r _ e
  take_stderr_same (pending bytes q) t e =
      poll_exit_same (record t { stderr = q; stderr_partial = bytes })

  poll_stderr_same :
      (t : Task I)
      → IsOff t
      → poll_stderr h platform a job spec t ≡ poll_stderr h platform b job spec t
  unfolding poll_stderr
  poll_stderr_same t e =
      if_rule₂ (λ (x y : Task I). x ≡ y) t.stderr_done t.stderr_done refl (λ y. poll_exit_same t)
        (λ y. take_stderr_same (poll_line t.stderr_partial t.stderr) t e)

  take_stdout_same :
      (r : Poll) (t : Task I)
      → IsOff t
      → take_stdout h platform a job spec r t ≡ take_stdout h platform b job spec r t
  unfolding take_stdout
  take_stdout_same (ready r q) t e = on_read_same stdout r _ e
  take_stdout_same (pending bytes q) t e =
      poll_stderr_same (record t { stdout = q; stdout_partial = bytes }) e

  poll_select_same :
      (t : Task I)
      → IsOff t
      → poll_select h platform a job spec t ≡ poll_select h platform b job spec t
  unfolding poll_select poll_stdout
  poll_select_same t e =
      if_rule₂ (λ (x y : Task I). x ≡ y) (is_over t) (is_over t) refl (λ y. refl)
        (λ y.
          if_rule₂ (λ (x y : Task I). x ≡ y) t.stdout_done t.stdout_done refl
            (λ z. poll_stderr_same t e)
            (λ z. take_stdout_same (poll_line t.stdout_partial t.stdout) t e))

  tick_same :
      (x : Tick) (t : Task I)
      → IsOff t
      → tick h platform a job spec x t ≡ tick h platform b job spec x t
  unfolding tick on_wake
  tick_same poll t e = poll_select_same t e
  tick_same _ t e = refl

  tick-IsOff : (x : Tick) (t : Task I) → IsOff t → IsOff (tick h platform a job spec x t)
  unfolding on_exit on_wake record_line run
  tick-IsOff x =
      run_keeps h platform a job spec IsOff
        (λ t u p e. ap (λ d. d.state.interp_disabled) p.drive ∙ e)
        (λ s x t e.
          ap (λ u. u.drive.state.interp_disabled) (process_line-off h job spec a s x t e) ∙ e)
        (λ r late t y z e. e) (λ w t y e. e) (x ∷ [])

  run_same :
      (xs : List Tick) (t : Task I)
      → IsOff t
      → run h platform a job spec xs t ≡ run h platform b job spec xs t
  unfolding run
  run_same [] t e = refl
  run_same (x ∷ xs) t e =
      run_same xs (tick h platform a job spec x t) (tick-IsOff x t e)
      ∙ ap (run h platform b job spec xs) (tick_same x t e)

  run-IsOff : (xs : List Tick) (t : Task I) → IsOff t → IsOff (run h platform a job spec xs t)
  unfolding run
  run-IsOff [] t e = e
  run-IsOff (x ∷ xs) t e = run-IsOff xs (tick h platform a job spec x t) (tick-IsOff x t e)

  wind_up_same :
      (t : Task I) → IsOff t → wind_up h platform a job spec t ≡ wind_up h platform b job spec t
  unfolding wind_up run_on_exit
  wind_up_same t e =
      let x = final_exit h platform a job spec t.exit_status in
      ap (λ (u : Task I). record u { drive = exit_open_phases h job u.drive })
        (call_exit-off h job spec a t.interpreter t.drive.state.interp_disabled x t e
          ∙ sym (call_exit-off h job spec b t.interpreter t.drive.state.interp_disabled x t e))

  -- An interpreter that is off is not asked again: from there on, with any interpreter in its place,
  -- the loop does the same on the same ticks, and the job ends with the same outcome, the same
  -- events and the same snapshot.
  pub finish_same :
      (xs : List Tick) (t : Task I)
      → IsOff t
      → finish h platform a job spec (run h platform a job spec xs t)
        ≡ finish h platform b job spec (run h platform b job spec xs t)
  unfolding finish verdict
  finish_same xs t e =
      ap
        (λ (u : Task I). (
          verdict h platform a job spec u,
          record u {
            drive = record u.drive {
              world = finalize h job (verdict h platform a job spec u) u.drive.world;
            };
            raw = close_raw u.raw;
          },
        ))
        (wind_up_same (run h platform a job spec xs t) (run-IsOff xs t e))
      ∙ ap (finish h platform b job spec) (run_same xs t e)
