-- ===== src/Driver/Twin.antt =====
-- Two runs of `drive_job`'s loop (src/runtime/driver.rs) on the same ticks with two interpreters.
use execra.Base.{
  Text, Bool, true, false, List, [], ◌∷◌, ◌≡◌, sym, ap, subst₂, arith, if_rule₂, append-nil,
}
use execra.Command.{CommandSpec, Platform}
use execra.Event.{Stream, stdout, stderr}
use execra.Finding.{SystemTime}
use execra.Host.{Host}
use execra.Interpreter.{Interpreter}
use execra.Job.{JobId}
use execra.Driver.Apply.{exit_open_phases}
use execra.Driver.Loop.Task.{Task, is_over}
use execra.Driver.Loop.Call.{call_exit, record_line, process_line, run_on_exit}
use execra.Driver.Loop.Select.{
  drop_futures, on_read, on_exit, receive, poll_exit, take_stderr, poll_stderr, take_stdout,
  poll_stdout, poll_select,
}
use execra.Driver.Loop.Run.{Tick, wake, poll, on_wake, tick, run, wind_up, final_exit}
use execra.Driver.Lines.{Read, line, Poll, ready, pending, poll_line}
use execra.Driver.Wait.{Stage, reported, Waited, io_error, Wake, emits_cancelled}
use execra.Driver.Output.{
  output, output-snoc, exit_phases-output, cancelled_world-output, IsQuiet, call_line-IsQuiet,
  call_exit-IsQuiet,
}

-- Two tasks, perhaps with interpreters of different types, that differ in what these tell alone.
pub record IsTwin {I J : Type 0} (t : Task I) (u : Task J) : Type 0 where
  pub stdout : u.stdout ≡ t.stdout
  pub stderr : u.stderr ≡ t.stderr
  pub stdout_partial : u.stdout_partial ≡ t.stdout_partial
  pub stderr_partial : u.stderr_partial ≡ t.stderr_partial
  pub stdout_done : u.stdout_done ≡ t.stdout_done
  pub stderr_done : u.stderr_done ≡ t.stderr_done
  pub wait : u.wait ≡ t.wait
  pub wait_dropped : u.wait_dropped ≡ t.wait_dropped
  pub cancelled : u.cancelled ≡ t.cancelled
  pub child_exited : u.child_exited ≡ t.child_exited
  pub timed_out : u.timed_out ≡ t.timed_out
  pub exit_status : u.exit_status ≡ t.exit_status
  pub raw : u.raw ≡ t.raw
  pub output_same : output u.drive.world.sent ≡ output t.drive.world.sent

quiet-IsTwin :
    {I J : Type 0} (t t' : Task I) (u u' : Task J)
    → IsQuiet t t'
    → IsQuiet u u'
    → IsTwin t u
    → IsTwin t' u'
quiet-IsTwin t t' u u' q r w = grind arith

module _ {I J : Type 0} (h : Host) (platform : Platform) (a : Interpreter I) (b : Interpreter J)
    (job : JobId) (spec : CommandSpec) where
  record_line-IsTwin :
      (s : Stream) (x : Text) (at at' : SystemTime) (t : Task I) (u : Task J)
      → IsTwin t u
      → IsTwin (record_line h a job spec s x at t) (record_line h b job spec s x at' u)
  unfolding record_line
  record_line-IsTwin s x at at' t u w = grind (arith, output-snoc)

  process_line-IsTwin :
      (s : Stream) (x : Text) (t : Task I) (u : Task J)
      → IsTwin t u
      → IsTwin (process_line h a job spec s x t) (process_line h b job spec s x u)
  unfolding process_line
  process_line-IsTwin s x t u w =
      quiet-IsTwin _ _ _ _
        (call_line-IsQuiet h a job spec t.interpreter t.drive.state.interp_disabled _ _)
        (call_line-IsQuiet h b job spec u.interpreter u.drive.state.interp_disabled _ _)
        (record_line-IsTwin s x _ _ t u w)

  on_read-IsTwin :
      (s : Stream) (r : Read) (t : Task I) (u : Task J)
      → IsTwin t u
      → IsTwin (on_read h platform a job spec s r t) (on_read h platform b job spec s r u)
  unfolding on_read
  on_read-IsTwin s (line bytes) t u w = process_line-IsTwin s _ t u w
  on_read-IsTwin stdout _ t u w = grind arith
  on_read-IsTwin stderr _ t u w = grind arith

  on_exit-IsTwin :
      (r : Waited) (late : Bool) (t : Task I) (u : Task J)
      → IsTwin t u
      → IsTwin (on_exit h platform a job spec r late t) (on_exit h platform b job spec r late u)
  unfolding on_exit
  on_exit-IsTwin r late t u w = grind (arith, output-snoc, append-nil)

  receive-IsTwin :
      (st : Stage) (d : Bool) (t : Task I) (u : Task J)
      → IsTwin t u
      → IsTwin (receive h platform a job spec st d t) (receive h platform b job spec st d u)
  unfolding receive
  receive-IsTwin (reported o) d t u w =
      on_exit-IsTwin o.status o.timed_out (drop_futures t) (drop_futures u) (grind arith)
  receive-IsTwin _ true t u w =
      on_exit-IsTwin io_error false (drop_futures t) (drop_futures u) (grind arith)
  receive-IsTwin _ false t u w = w

  poll_exit-IsTwin :
      (t : Task I) (u : Task J)
      → IsTwin t u
      → IsTwin (poll_exit h platform a job spec t) (poll_exit h platform b job spec u)
  unfolding poll_exit
  poll_exit-IsTwin t u w =
      if_rule₂ IsTwin t.child_exited u.child_exited w.child_exited (λ y. w)
        (λ y.
          subst₂
            (λ st d.
              IsTwin (receive h platform a job spec t.wait.stage t.wait_dropped t)
                (receive h platform b job spec st d u))
            (ap (λ x. x.stage) (sym w.wait)) (sym w.wait_dropped)
            (receive-IsTwin t.wait.stage t.wait_dropped t u w))

  take_stderr-IsTwin :
      (r : Poll) (t : Task I) (u : Task J)
      → IsTwin t u
      → IsTwin (take_stderr h platform a job spec r t) (take_stderr h platform b job spec r u)
  unfolding take_stderr
  take_stderr-IsTwin (ready r q) t u w =
      on_read-IsTwin stderr r (drop_futures (record t { stderr = q }))
        (drop_futures (record u { stderr = q })) (grind arith)
  take_stderr-IsTwin (pending bs q) t u w =
      poll_exit-IsTwin (record t { stderr = q; stderr_partial = bs })
        (record u { stderr = q; stderr_partial = bs }) (grind arith)

  poll_stderr-IsTwin :
      (t : Task I) (u : Task J)
      → IsTwin t u
      → IsTwin (poll_stderr h platform a job spec t) (poll_stderr h platform b job spec u)
  unfolding poll_stderr
  poll_stderr-IsTwin t u w =
      if_rule₂ IsTwin t.stderr_done u.stderr_done w.stderr_done (λ y. poll_exit-IsTwin t u w)
        (λ y.
          subst₂
            (λ p q.
              IsTwin (take_stderr h platform a job spec (poll_line t.stderr_partial t.stderr) t)
                (take_stderr h platform b job spec (poll_line p q) u))
            (sym w.stderr_partial) (sym w.stderr)
            (take_stderr-IsTwin (poll_line t.stderr_partial t.stderr) t u w))

  take_stdout-IsTwin :
      (r : Poll) (t : Task I) (u : Task J)
      → IsTwin t u
      → IsTwin (take_stdout h platform a job spec r t) (take_stdout h platform b job spec r u)
  unfolding take_stdout
  take_stdout-IsTwin (ready r q) t u w =
      on_read-IsTwin stdout r (drop_futures (record t { stdout = q }))
        (drop_futures (record u { stdout = q })) (grind arith)
  take_stdout-IsTwin (pending bs q) t u w =
      poll_stderr-IsTwin (record t { stdout = q; stdout_partial = bs })
        (record u { stdout = q; stdout_partial = bs }) (grind arith)

  poll_stdout-IsTwin :
      (t : Task I) (u : Task J)
      → IsTwin t u
      → IsTwin (poll_stdout h platform a job spec t) (poll_stdout h platform b job spec u)
  unfolding poll_stdout
  poll_stdout-IsTwin t u w =
      if_rule₂ IsTwin t.stdout_done u.stdout_done w.stdout_done (λ y. poll_stderr-IsTwin t u w)
        (λ y.
          subst₂
            (λ p q.
              IsTwin (take_stdout h platform a job spec (poll_line t.stdout_partial t.stdout) t)
                (take_stdout h platform b job spec (poll_line p q) u))
            (sym w.stdout_partial) (sym w.stdout)
            (take_stdout-IsTwin (poll_line t.stdout_partial t.stdout) t u w))

  poll_select-IsTwin :
      (t : Task I) (u : Task J)
      → IsTwin t u
      → IsTwin (poll_select h platform a job spec t) (poll_select h platform b job spec u)
  unfolding poll_select
  poll_select-IsTwin t u w =
      if_rule₂ IsTwin (is_over t) (is_over u) (rw (w.stdout_done, w.stderr_done, w.child_exited))
        (λ y. w) (λ y. poll_stdout-IsTwin t u w)

  on_wake-IsTwin :
      (x : Wake) (t : Task I) (u : Task J)
      → IsTwin t u
      → IsTwin (on_wake h platform a job spec x t) (on_wake h platform b job spec x u)
  unfolding on_wake
  on_wake-IsTwin x t u w = grind (
    arith,
    cancelled_world-output h job (emits_cancelled t.wait.stage t.cancelled x) t.drive.world,
    cancelled_world-output h job (emits_cancelled u.wait.stage u.cancelled x) u.drive.world,
  )

  tick-IsTwin :
      (x : Tick) (t : Task I) (u : Task J)
      → IsTwin t u
      → IsTwin (tick h platform a job spec x t) (tick h platform b job spec x u)
  unfolding tick
  tick-IsTwin (wake x) t u w =
      if_rule₂ IsTwin t.wait_dropped u.wait_dropped w.wait_dropped (λ y. w)
        (λ y. on_wake-IsTwin x t u w)
  tick-IsTwin poll t u w = poll_select-IsTwin t u w
  tick-IsTwin _ t u w = grind arith

  pub run-IsTwin :
      (xs : List Tick) (t : Task I) (u : Task J)
      → IsTwin t u
      → IsTwin (run h platform a job spec xs t) (run h platform b job spec xs u)
  unfolding run
  run-IsTwin [] t u w = w
  run-IsTwin (x ∷ xs) t u w = run-IsTwin xs _ _ (tick-IsTwin x t u w)

  wound-IsTwin :
      (t : Task I) (u : Task J)
      → IsTwin t u
      → IsTwin
          (record t { drive = exit_open_phases h job t.drive })
          (record u { drive = exit_open_phases h job u.drive })
  unfolding exit_open_phases
  wound-IsTwin t u w = grind (
    arith,
    exit_phases-output h job t.drive.state.phase_stack t.drive.world,
    exit_phases-output h job u.drive.state.phase_stack u.drive.world,
  )

  pub wind_up-IsTwin :
      (t : Task I) (u : Task J)
      → IsTwin t u
      → IsTwin (wind_up h platform a job spec t) (wind_up h platform b job spec u)
  unfolding wind_up run_on_exit
  wind_up-IsTwin t u w =
      let x = final_exit h platform a job spec t.exit_status in
      let y = final_exit h platform b job spec u.exit_status in
      let t' = call_exit h a job spec t.interpreter t.drive.state.interp_disabled x t in
      let u' = call_exit h b job spec u.interpreter u.drive.state.interp_disabled y u in
      let w' =
        quiet-IsTwin t t' u u'
          (call_exit-IsQuiet h a job spec t.interpreter t.drive.state.interp_disabled x t)
          (call_exit-IsQuiet h b job spec u.interpreter u.drive.state.interp_disabled y u) w in
      wound-IsTwin t' u' w'
