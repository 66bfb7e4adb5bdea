-- ===== src/Driver/Protocol.antt =====
-- The order of a job's events, and what they tell, over the whole of `drive_job`
-- (src/runtime/driver.rs), for every interpreter and every order of ticks.
use execra.Base.{ℕ, Bool, true, false, Option, none, some, List, [], ◌≡◌, refl, subst, ◌∙◌, arith}
use execra.Command.{CommandSpec, Platform}
use execra.Finding.{Finding}
use execra.Host.{Host}
use execra.Interpreter.{Interpreter}
use execra.Job.{Job, JobId}
use execra.Outcome.{Outcome, ExitCode}
use execra.Driver.Faithful.{Sees, view, exit_open_phases-Sees}
use execra.Driver.Loop.Task.{Task, is_over}
use execra.Driver.Loop.Call.{settle, call_exit, run_on_exit}
use execra.Driver.Loop.Run.{Tick, run, finalize, finish, wind_up, verdict, start, final_exit}
use execra.Driver.Observer.{Life, View, observe_event, observe, observe-snoc}
use execra.Driver.Verdict.{compute_outcome}
use execra.Driver.RawOutput.{Raw}
use execra.Driver.World.{World, Drive, DriverState}
use execra.Driver.Coherent.{IsCoherent, life_of, run-IsCoherent, call_exit-IsCoherent}

module _ {I : Type 0} (h : Host) (platform : Platform) (interp : Interpreter I) (job : JobId)
    (spec : CommandSpec) (v : View) where
  call_exit-child_exited :
      (o : Option I) (b : Bool) (e : ExitCode) (t : Task I)
      → (call_exit h interp job spec o b e t).child_exited ≡ t.child_exited
  unfolding call_exit settle
  call_exit-child_exited o b e t = ground arith

  wind_up-Sees :
      (t : Task I)
      → t.child_exited ≡ true
      → IsCoherent v t
      → Sees v Life.exited (wind_up h platform interp job spec t).drive
        × ((wind_up h platform interp job spec t).drive.state.phase_stack ≡ [])
  unfolding wind_up run_on_exit
  wind_up-Sees t e c =
      let exit = final_exit h platform interp job spec t.exit_status in
      let u = run_on_exit h interp job spec exit t in
      let d =
        call_exit-IsCoherent h platform interp job spec v c.0 t.interpreter
          t.drive.state.interp_disabled exit t c.1 in
      exit_open_phases-Sees h job v Life.exited refl u.drive (
        subst (λ b. Sees v (life_of b c.0) u.drive)
          (call_exit-child_exited t.interpreter t.drive.state.interp_disabled exit t ∙ e) d.sees)

  finalize-seen :
      (outcome : Outcome) (d : Drive)
      → d.state.phase_stack ≡ []
      → Sees v Life.exited d
      → observe v (finalize h job outcome d.world).sent ≡ view (Life.finalized outcome) d
  unfolding finalize observe_event
  finalize-seen o d e s = grind (arith, observe-snoc)

abbrev pub outcome_findings : Outcome → List Finding
outcome_findings (Outcome.succeeded summary findings) = findings
outcome_findings (Outcome.failed reason summary findings) = findings
outcome_findings (Outcome.cancelled findings) = findings

compute_outcome-findings :
    (b late : Bool) (e : ExitCode) (s : DriverState)
    → outcome_findings (compute_outcome b late e s) ≡ s.findings
unfolding compute_outcome
compute_outcome-findings b late e s = ground arith

finalize-kept :
    (h : Host) (job : JobId) (o : Outcome) (w : World)
    → ((finalize h job o w).snapshot.progress ≡ w.snapshot.progress)
      × ((finalize h job o w).snapshot.label ≡ w.snapshot.label)
unfolding finalize
finalize-kept h job o w = (refl, refl)

module _ {I : Type 0} (h : Host) (platform : Platform) (interp : Interpreter I) (job : JobId)
    (spec : CommandSpec) where
  verdict-findings :
      (t : Task I)
      → outcome_findings (verdict h platform interp job spec t) ≡ t.drive.state.findings
  unfolding verdict
  verdict-findings t =
      compute_outcome-findings t.cancelled t.timed_out
        (final_exit h platform interp job spec t.exit_status) t.drive.state

module _ {I : Type 0} (h : Host) (platform : Platform) (interp : Interpreter I) (job : JobId)
    (spec : CommandSpec) (v : View) where
  pub finish_from :
      (t : Task I)
      → t.child_exited ≡ true
      → IsCoherent v t
      → let (outcome, u) = finish h platform interp job spec t in
        observe v u.drive.world.sent ≡ record {
          life = Life.finalized outcome;
          phases = some [];
          findings = outcome_findings outcome;
          known_error = u.drive.state.known_error;
          progress = u.drive.world.snapshot.progress;
          label = u.drive.world.snapshot.label;
        }
  unfolding finish
  finish_from t e c =
      let u = wind_up h platform interp job spec t in
      let s = wind_up-Sees h platform interp job spec v t e c in
      finalize-seen h platform interp job spec v (verdict h platform interp job spec u) u.drive s.1
        s.0
      ∙ ground (
        arith,
        s.1,
        verdict-findings h platform interp job spec u,
        finalize-kept h job (verdict h platform interp job spec u) u.drive.world,
      )

-- The view of a subscriber who has seen a job's creation alone.
abbrev pub initial : Job → View
initial j = record {
  life = Life.created;
  phases = some [];
  findings = [];
  known_error = none;
  progress = j.progress;
  label = j.label;
}

pub over-child_exited : {I : Type 0} (t : Task I) → is_over t ≡ true → t.child_exited ≡ true
over-child_exited t e = ground arith

module _ {I : Type 0} (h : Host) (platform : Platform) (interp : Interpreter I) (job : JobId)
    (spec : CommandSpec) (pid : Option ℕ) (group : Bool) (raw : Raw) (slot : Option I)
    (cancelled : Bool) (w : World) where
  pub start-IsCoherent :
      w.sent ≡ []
      → w.snapshot.current_phase ≡ none
      → IsCoherent
          (initial w.snapshot)
          (start h platform interp job spec pid group raw slot cancelled w)
  unfolding start observe_event observe
  start-IsCoherent e p = (
    false,
    record { sees = record { seen = rw e; current = p }; once = λ x. refl; spent = λ x. cc },
  )

  -- The driver after the ticks `xs`.
  abbrev pub after : List Tick → Task I
  after xs =
      run h platform interp job spec xs
        (start h platform interp job spec pid group raw slot cancelled w)

  -- Whatever the interpreter does and in whatever order things happen: once the loop is over, the
  -- events of the job are one start, then at most one cancellation, one exit, and one finalization
  -- as the last, with the outcome that the driver returns; phases are closed in the order opposite
  -- to their opening, updated only while innermost, and all closed; and the findings in the events
  -- are the outcome's, in order. The progress and the label in the events are the snapshot's.
  pub finish_observed :
      (xs : List Tick)
      → w.sent ≡ []
      → w.snapshot.current_phase ≡ none
      → is_over (after xs) ≡ true
      → let (outcome, t) = finish h platform interp job spec (after xs) in
        observe (initial w.snapshot) t.drive.world.sent ≡ record {
          life = Life.finalized outcome;
          phases = some [];
          findings = outcome_findings outcome;
          known_error = t.drive.state.known_error;
          progress = t.drive.world.snapshot.progress;
          label = t.drive.world.snapshot.label;
        }
  finish_observed xs e p o =
      finish_from h platform interp job spec (initial w.snapshot) (after xs)
        (over-child_exited (after xs) o)
        (run-IsCoherent h platform interp job spec (initial w.snapshot) xs _ (start-IsCoherent e p))
