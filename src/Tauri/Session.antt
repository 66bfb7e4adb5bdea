-- ===== src/Tauri/Session.antt =====
-- A task of src/tauri.rs from its spawn over the driver and the subscription to its callbacks.
use execra.Base.{
  ℕ, ◌+◌, ◌<◌, Bool, Option, none, some, List, [], ◌∷◌, ◌++◌, snoc, ◌≡◌, refl, sym, ap, ◌∙◌, length,
  Text,
}
use execra.Base.Sorted.{filter}
use execra.Command.{Command, Platform}
use execra.Driver.Between.{drive_job-between}
use execra.Driver.Loop.Drive.{Spawned, drive_job}
use execra.Driver.Loop.Run.{Tick}
use execra.Driver.RawOutput.{Raw}
use execra.Driver.World.{World}
use execra.Event.{Event, Stream}
use execra.Finding.{SystemTime}
use execra.Host.{Host}
use execra.Interpreter.{Interpreter}
use execra.Job.{JobId}
use execra.Outcome.{Outcome}
use execra.Runtime.Handle.{JobHandle, received, spawn_handle, subscribe}
use execra.Runtime.Jobs.{Runtime, good}
use execra.Runtime.Lifecycle.{lifecycle}
use execra.Runtime.Stream.{read_all}
use execra.Runtime.Subscribed.{of_job}
use execra.Tauri.Called.{heard, outputs, forward_events-callbacks}
use execra.Tauri.Creep.{Rounding}
use execra.Tauri.Forward.{CreepFn, Turn, forward_events}
use execra.Tauri.Task.{
  TaskBuilder, finalize_cmd, if_output, on_created, on_finalized, on_output, task,
}

outputs-snoc :
    {O : Type 0} (p : Stream → Text → List O) (xs : List Event) (job : JobId) (o : Outcome)
    (at : SystemTime)
    → outputs p (snoc xs (Event.finalized job o at)) ≡ outputs p xs
unfolding outputs
outputs-snoc p [] job o at = refl
outputs-snoc p (x ∷ xs) job o at = ap (λ os. if_output p x ++ os) (outputs-snoc p xs job o at)

-- A task with a callback for the creation, one for the output and one for the finalization.
abbrev pub listening :
    {I O : Type 0}
    → (JobId → List O)
    → (Stream → Text → List O)
    → (Outcome → List O)
    → Command I
    → TaskBuilder I O
listening g p f c = on_finalized f (on_output p (on_created g (task c)))

-- A task from its spawn to its callbacks: if the driver of its job gives an outcome, then, whatever
-- the other jobs send meanwhile and whenever the timer of synthetic progress fires, the callback for
-- the creation is called once, with the job, the one for the output for each line that the driver
-- has sent, in order, and then the one for the finalization once, with the outcome that the handle
-- is given. It is for a forwarder that keeps up with the channel and reads it to the end.
pub callbacks_of_job :
    {I J O : Type 0} (emit : Text → Event → O) (g : JobId → List O) (p : Stream → Text → List O)
    (f : Outcome → List O) (fl : Rounding) (creep : Option CreepFn) (cmd : Command J) (h : Host)
    (platform : Platform) (interp : Interpreter I) (r late : Runtime) (handle : JobHandle)
    (permit : Bool) (s : Spawned) (raw : Raw) (i : Option I) (c : Bool) (ticks : List Tick)
    (w w' : World) (o : Outcome) (more : List Event) (n : ℕ) (ts : List Turn)
    → (spawn_handle h (finalize_cmd (listening g p f cmd)).spec r).0 ≡ good handle
    → w.sent ≡ []
    → w.snapshot.current_phase ≡ none
    → drive_job h platform interp handle.id cmd.spec permit s raw i c ticks w ≡ (some o, w')
    → filter (of_job handle.id) more ≡ w'.sent
    → length more + 1 < n
    → heard ts
      ≡ read_all n
          (subscribe handle late).0.filter
          (received (subscribe handle late).0 ((spawn_handle h cmd.spec r).1.sent ++ more))
    → forward_events emit fl handle.id none (listening g p f cmd).observers creep ts
      ≡ g handle.id ++ outputs p w'.sent ++ f o
unfolding finalize_cmd on_created on_output on_finalized
callbacks_of_job emit g p f fl creep cmd h platform interp r late handle permit s raw i c ticks w w'
      o more n ts e q k d m l t =
    let b =
      drive_job-between h platform interp handle.id cmd.spec permit s raw i c ticks w w' o q k d in
    let read =
      (lifecycle h platform interp cmd.spec r late handle permit s raw i c ticks w w' o more n [] e
        d m l).0 in
    let created = Event.job_created handle.id cmd.spec (h.now r.clock) in
    forward_events-callbacks emit g p f fl creep cmd handle.id cmd.spec o (h.now r.clock) b.1 b.0 []
      ts (t ∙ read ∙ ap (λ es. created ∷ es) b.2) b.3
    ∙ ap (λ os. g handle.id ++ os ++ f o)
        (sym (ap (outputs p) b.2 ∙ outputs-snoc p b.0 handle.id o b.1))
