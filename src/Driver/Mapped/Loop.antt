-- ===== src/Driver/Mapped/Loop.antt =====
-- The loop of `drive_job` of src/runtime/driver.rs, and the whole of it, beside another view of the
-- channel and the store.
use execra.Base.{Bool, true, false, Option, some, List, [], ◌∷◌, ◌≡◌, refl, ap, ◌∙◌, if_rule₂, ℕ}
use execra.Command.{CommandSpec, Platform}
use execra.Event.{Event, Stream, stdout, stderr, job_id}
use execra.Host.{Host}
use execra.Interpreter.{Interpreter}
use execra.Job.{JobId, JobState}
use execra.Outcome.{ExitCode, Outcome}
use execra.Driver.Apply.{exit_open_phases}
use execra.Driver.Lines.{Read, line, failed, done, Poll, ready, pending, poll_line}
use execra.Driver.Loop.Call.{run_on_exit}
use execra.Driver.Loop.Drive.{Spawned, child, refused, drive_job, drive_spawned, given, left}
use execra.Driver.Loop.Run.{
  Tick, fail_spawn, final_exit, finalize, finish, note_start, on_wake, run, start, tick, verdict,
  wind_up, wake, poll, cancelled_world, pid_or_zero, spawn_error,
}
use execra.Driver.Loop.Select.{
  note_exit, on_exit, on_read, poll_exit, poll_select, poll_stderr, poll_stdout, receive,
  take_stderr, take_stdout, exit_code, drop_futures,
}
use execra.Driver.Loop.Task.{Task, is_over}
use execra.Driver.RawOutput.{Raw}
use execra.Driver.Wait.{Stage, emits_cancelled, reported, step, Wake, Waited, io_error}
use execra.Driver.World.{World, emit, update_snapshot, persist_snapshot, after_now, now, fresh}
use execra.Driver.Mapped.Steps.{
  Lens, seen, seen_task, with_drive, with_world, emit-seen, persist_snapshot-seen,
  process_line-seen, call_exit-seen, exit_open_phases-seen,
}

module _ {h : Host} {job : JobId} (l : Lens h job) where
  note_exit-seen :
      (ec : ExitCode) (w : World) → seen l (note_exit h job ec w) ≡ note_exit h job ec (seen l w)
  unfolding note_exit update_snapshot job_id
  note_exit-seen ec w =
      persist_snapshot-seen l _
      ∙ ap
          (λ w.
            persist_snapshot h
              (update_snapshot (λ j. record j { exit = some ec; state = JobState.exited }) w))
          (emit-seen l (Event.exited job ec (now h w)) (after_now w) refl)

  pub note_start-seen :
      (pid : ℕ) (w : World) → seen l (note_start h job pid w) ≡ note_start h job pid (seen l w)
  unfolding note_start update_snapshot job_id
  note_start-seen pid w =
      persist_snapshot-seen l _
      ∙ ap
          (λ w. persist_snapshot h (
            update_snapshot
              (λ j. record j { state = JobState.running; started_at = some (now h w) })
              (after_now w)))
          (emit-seen l (Event.job_started job pid (now h w)) (after_now w) refl)

  pub finalize-seen :
      (o : Outcome) (w : World) → seen l (finalize h job o w) ≡ finalize h job o (seen l w)
  unfolding finalize update_snapshot job_id
  finalize-seen o w =
      emit-seen l _ _ refl
      ∙ ap (λ w. emit h (Event.finalized job o (now h w)) (after_now w))
          (persist_snapshot-seen l
            (update_snapshot (λ j. record j { state = JobState.finalized; outcome = some o }) w))

  cancelled_world-seen :
      (b : Bool) (w : World)
      → seen l (cancelled_world h job b w) ≡ cancelled_world h job b (seen l w)
  unfolding job_id
  cancelled_world-seen false w = refl
  cancelled_world-seen true w = emit-seen l _ (after_now w) refl

module _ {I : Type 0} {h : Host} {job : JobId} (l : Lens h job) (platform : Platform)
    (interp : Interpreter I) (spec : CommandSpec) where
  on_read-seen :
      (s : Stream) (r : Read) (t : Task I)
      → seen_task l (on_read h platform interp job spec s r t)
        ≡ on_read h platform interp job spec s r (seen_task l t)
  unfolding on_read
  on_read-seen s (line bytes) t = process_line-seen l interp spec s _ t
  on_read-seen stdout failed t = refl
  on_read-seen stderr failed t = refl
  on_read-seen stdout done t = refl
  on_read-seen stderr done t = refl

  on_exit-seen :
      (r : Waited) (late : Bool) (t : Task I)
      → seen_task l (on_exit h platform interp job spec r late t)
        ≡ on_exit h platform interp job spec r late (seen_task l t)
  unfolding on_exit
  on_exit-seen r late t =
      ap (λ w. with_drive (on_exit h platform interp job spec r late t) (with_world t.drive w))
        (note_exit-seen l (exit_code platform r) t.drive.world)

  receive-seen :
      (st : Stage) (b : Bool) (t : Task I)
      → seen_task l (receive h platform interp job spec st b t)
        ≡ receive h platform interp job spec st b (seen_task l t)
  unfolding receive
  receive-seen (reported o) b t = on_exit-seen o.status o.timed_out (drop_futures t)
  receive-seen st true t = on_exit-seen io_error false (drop_futures t)
  receive-seen st false t = refl

  poll_exit-seen :
      (t : Task I)
      → seen_task l (poll_exit h platform interp job spec t)
        ≡ poll_exit h platform interp job spec (seen_task l t)
  unfolding poll_exit
  poll_exit-seen t =
      if_rule₂ (λ (x y : Task I). seen_task l x ≡ y) t.child_exited t.child_exited refl (λ e. refl)
        (λ e. receive-seen t.wait.stage t.wait_dropped t)

  take_stderr-seen :
      (r : Poll) (t : Task I)
      → seen_task l (take_stderr h platform interp job spec r t)
        ≡ take_stderr h platform interp job spec r (seen_task l t)
  unfolding take_stderr
  take_stderr-seen (ready r q) t = on_read-seen stderr r _
  take_stderr-seen (pending b q) t = poll_exit-seen (record t { stderr = q; stderr_partial = b })

  poll_stderr-seen :
      (t : Task I)
      → seen_task l (poll_stderr h platform interp job spec t)
        ≡ poll_stderr h platform interp job spec (seen_task l t)
  unfolding poll_stderr
  poll_stderr-seen t =
      if_rule₂ (λ (x y : Task I). seen_task l x ≡ y) t.stderr_done t.stderr_done refl
        (λ e. poll_exit-seen t) (λ e. take_stderr-seen (poll_line t.stderr_partial t.stderr) t)

  take_stdout-seen :
      (r : Poll) (t : Task I)
      → seen_task l (take_stdout h platform interp job spec r t)
        ≡ take_stdout h platform interp job spec r (seen_task l t)
  unfolding take_stdout
  take_stdout-seen (ready r q) t = on_read-seen stdout r _
  take_stdout-seen (pending b q) t = poll_stderr-seen (record t { stdout = q; stdout_partial = b })

  poll_select-seen :
      (t : Task I)
      → seen_task l (poll_select h platform interp job spec t)
        ≡ poll_select h platform interp job spec (seen_task l t)
  unfolding poll_select poll_stdout
  poll_select-seen t =
      if_rule₂ (λ (x y : Task I). seen_task l x ≡ y) (is_over t) (is_over t) refl (λ e. refl)
        (λ e.
          if_rule₂ (λ (x y : Task I). seen_task l x ≡ y) t.stdout_done t.stdout_done refl
            (λ e. poll_stderr-seen t)
            (λ e. take_stdout-seen (poll_line t.stdout_partial t.stdout) t))

  on_wake-seen :
      (w : Wake) (t : Task I)
      → seen_task l (on_wake h platform interp job spec w t)
        ≡ on_wake h platform interp job spec w (seen_task l t)
  unfolding on_wake
  on_wake-seen w t =
      ap
        (λ (x : World).
          with_drive (record t { wait = step t.cancelled w t.wait }) (with_world t.drive x))
        (cancelled_world-seen l (emits_cancelled t.wait.stage t.cancelled w) t.drive.world)

  pub tick-seen :
      (x : Tick) (t : Task I)
      → seen_task l (tick h platform interp job spec x t)
        ≡ tick h platform interp job spec x (seen_task l t)
  unfolding tick
  tick-seen (wake w) t =
      if_rule₂ (λ (x y : Task I). seen_task l x ≡ y) t.wait_dropped t.wait_dropped refl (λ e. refl)
        (λ e. on_wake-seen w t)
  tick-seen poll t = poll_select-seen t
  tick-seen _ t = refl

  run-seen :
      (xs : List Tick) (t : Task I)
      → seen_task l (run h platform interp job spec xs t)
        ≡ run h platform interp job spec xs (seen_task l t)
  unfolding run
  run-seen [] t = refl
  run-seen (x ∷ xs) t = run-seen xs _ ∙ ap (run h platform interp job spec xs) (tick-seen x t)

  abbrev phases_ended : Task I → Task I
  phases_ended t = with_drive t (exit_open_phases h job t.drive)

  wind_up-seen :
      (t : Task I)
      → seen_task l (wind_up h platform interp job spec t)
        ≡ wind_up h platform interp job spec (seen_task l t)
  unfolding wind_up run_on_exit
  wind_up-seen t =
      let exit = final_exit h platform interp job spec t.exit_status in
      ap (with_drive (run_on_exit h interp job spec exit t))
        (exit_open_phases-seen l (run_on_exit h interp job spec exit t).drive)
      ∙ ap phases_ended
          (call_exit-seen l interp spec t.interpreter t.drive.state.interp_disabled exit t)

  abbrev pub seen_given : Option Outcome × World → Option Outcome × World
  seen_given g = (g.0, seen l g.1)

  abbrev pub finalized : Outcome → Task I → Option Outcome × World
  finalized o t = (some o, finalize h job o t.drive.world)

  finalized-seen :
      (o : Outcome) (t : Task I) → seen_given (finalized o t) ≡ finalized o (seen_task l t)
  finalized-seen o t = ap (λ (w : World). (some o, w)) (finalize-seen l o t.drive.world)

  pub finish-seen :
      (t : Task I)
      → seen_given (given h platform interp job spec (finish h platform interp job spec t))
        ≡ given h platform interp job spec (finish h platform interp job spec (seen_task l t))
  unfolding finish verdict
  finish-seen t =
      finalized-seen _ (wind_up h platform interp job spec t)
      ∙ ap (λ (u : Task I). finalized (verdict h platform interp job spec u) u) (wind_up-seen t)

  left-seen :
      (t : Task I)
      → seen_given (left h platform interp job spec t)
        ≡ left h platform interp job spec (seen_task l t)
  left-seen t =
      if_rule₂ (λ (x y : Option Outcome × World). seen_given x ≡ y) (is_over t) (is_over t) refl
        (λ e. finish-seen t) (λ e. refl)

  pub start-seen :
      (pid : Option ℕ) (group : Bool) (raw : Raw) (i : Option I) (c : Bool) (w : World)
      → seen_task l (start h platform interp job spec pid group raw i c w)
        ≡ start h platform interp job spec pid group raw i c (seen l w)
  unfolding start
  start-seen pid group raw i c w =
      ap
        (λ x.
          with_drive (start h platform interp job spec pid group raw i c w)
            (record { state = fresh; world = x }))
        (note_start-seen l (pid_or_zero pid) w)

  drive_spawned-seen :
      (s : Spawned) (raw : Raw) (i : Option I) (c : Bool) (ticks : List Tick) (w : World)
      → seen_given (drive_spawned h platform interp job spec s raw i c ticks w)
        ≡ drive_spawned h platform interp job spec s raw i c ticks (seen l w)
  unfolding fail_spawn
  drive_spawned-seen (refused error) raw i c ticks w =
      ap (λ (x : World). (some (spawn_error error), x)) (finalize-seen l (spawn_error error) w)
  drive_spawned-seen (child pid group) raw i c ticks w =
      left-seen (
        run h platform interp job spec ticks (start h platform interp job spec pid group raw i c w))
      ∙ ap (left h platform interp job spec) (
          run-seen ticks (start h platform interp job spec pid group raw i c w)
          ∙ ap (run h platform interp job spec ticks) (start-seen pid group raw i c w))

  -- The driver keeps every view that keeps up with its steps.
  pub drive_job-seen :
      (permit : Bool) (s : Spawned) (raw : Raw) (i : Option I) (c : Bool) (ticks : List Tick)
      (w : World)
      → seen_given (drive_job h platform interp job spec permit s raw i c ticks w)
        ≡ drive_job h platform interp job spec permit s raw i c ticks (seen l w)
  unfolding drive_job
  drive_job-seen false s raw i c ticks w = refl
  drive_job-seen true s raw i c ticks w = drive_spawned-seen s raw i c ticks w
