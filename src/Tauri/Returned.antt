-- ===== src/Tauri/Returned.antt =====
-- `.await` on a task of src/tauri.rs, with the driver of its job and its callbacks.
use execra.Base.{
  ℕ, ◌+◌, ◌<◌, Bool, Option, none, List, [], ◌∷◌, ◌++◌, ◌≡◌, refl, sym, ap, ◌∙◌, length, Text, inl,
  some, arith, true,
}
use execra.Base.Sorted.{filter}
use execra.Command.{Command, Platform}
use execra.Driver.Between.{drive_job-between}
use execra.Driver.Loop.Drive.{Spawned, drive_job}
use execra.Driver.Loop.Run.{Tick}
use execra.Driver.RawOutput.{Raw}
use execra.Driver.World.{World}
use execra.Event.{Event, Stream}
use execra.Host.{Host}
use execra.Interpreter.{Interpreter}
use execra.Job.{JobId}
use execra.Outcome.{Outcome}
use execra.Runtime.Handle.{JobHandle, Oneshot, received, spawn_handle, subscribe}
use execra.Runtime.Jobs.{Answer, Error, Runtime, good, bad}
use execra.Runtime.Lifecycle.{lifecycle}
use execra.Runtime.Polling.{first_outcome}
use execra.Runtime.Stream.{read_all}
use execra.Runtime.Subscribed.{of_job, spawned}
use execra.Tauri.Await.{on_handle, await, begun, into_future}
use execra.Tauri.Awaited.{finalized-through, forward-append, receivers, taken, yields_handle}
use execra.Tauri.Called.{heard, outputs}
use execra.Tauri.Creep.{Rounding}
use execra.Tauri.Forward.{CreepFn, Turn, deliver_all, forward, forward_events}
use execra.Tauri.Session.{callbacks_of_job, listening}
use execra.Tauri.Task.{TaskBuilder, finalize_cmd, on_created, on_finalized, on_output, observe}

begun-good :
    {I O : Type 0} (to_string : Error → Text) (b : TaskBuilder I O) (a : Answer JobHandle)
    (handle : JobHandle) (forwarded : Bool)
    → begun to_string b a ≡ inl (on_handle handle forwarded)
    → a ≡ good handle
begun-good to_string b (bad e) handle forwarded q = ground arith
begun-good to_string b (good x) handle forwarded q = ground arith

-- `.await` on a task with callbacks for the creation, the output and the finalization returns, and
-- not before the callbacks are through: if the job was spawned, its driver gives an outcome, the
-- receiver of the handle gets it at one of the polls, and by the last of them the task that forwards
-- has read the stream, then one of the polls yields this outcome, and by this poll the callbacks
-- have been called with the creation, with each line of output, in order, and with this outcome.
-- This is so whatever the other jobs send meanwhile and whenever the timer of synthetic progress
-- fires, for a forwarder that keeps up with the channel.
pub await_called :
    {I J O : Type 0} (emit : Text → Event → O) (g : JobId → List O) (p : Stream → Text → List O)
    (f : Outcome → List O) (fl : Rounding) (creep : Option CreepFn) (to_string : Error → Text)
    (cmd : Command J) (h : Host) (platform : Platform) (interp : Interpreter I) (r late : Runtime)
    (handle : JobHandle) (permit : Bool) (s : Spawned) (raw : Raw) (i : Option I) (c : Bool)
    (ticks : List Tick) (w w' : World) (o : Outcome) (more : List Event) (n : ℕ)
    (ps : List (Oneshot × List Turn))
    → (into_future to_string h (listening g p f cmd) r).0 ≡ inl (on_handle handle true)
    → w.sent ≡ []
    → w.snapshot.current_phase ≡ none
    → drive_job h platform interp handle.id cmd.spec permit s raw i c ticks w ≡ (some o, w')
    → filter (of_job handle.id) more ≡ w'.sent
    → length more + 1 < n
    → heard (taken [] ps)
      ≡ read_all n
          (subscribe handle late).0.filter
          (received (subscribe handle late).0 ((spawn_handle h cmd.spec r).1.sent ++ more))
    → first_outcome (receivers ps) ≡ o ∷ []
    → (by : List Turn) × (await (on_handle handle true) [] ps ≡ some (o, by))
      × (forward_events emit fl handle.id none (listening g p f cmd).observers creep by
          ≡ g handle.id ++ outputs p w'.sent ++ f o)
unfolding into_future forward_events finalize_cmd on_created on_output on_finalized observe
await_called emit g p f fl creep to_string cmd h platform interp r late handle permit s raw i c
      ticks w w' o more n ps a q k d m l t first =
    let e = begun-good to_string (listening g p f cmd) (spawn_handle h cmd.spec r).0 handle _ a in
    let b =
      drive_job-between h platform interp handle.id cmd.spec permit s raw i c ticks w w' o q k d in
    let read =
      (lifecycle h platform interp cmd.spec r late handle permit s raw i c ticks w w' o more n [] e
        d m l).0 in
    let created = Event.job_created handle.id cmd.spec (h.now r.clock) in
    let through =
      finalized-through (taken [] ps) (created ∷ b.0) [] (Event.finalized handle.id o b.1) refl
        (t ∙ read ∙ ap (λ es. created ∷ es) b.2) in
    let y = yields_handle o handle (spawned h cmd.spec r handle e).2 [] ps first through in
    let obs = (listening g p f cmd).observers in
    (
      y.0,
      y.2,
      ap (deliver_all emit obs none) (
            sym (forward-append fl creep handle.id y.0 y.1 y.3)
            ∙ ap (λ ts. forward fl creep handle.id ts) (sym y.4))
          ∙ callbacks_of_job emit g p f fl creep cmd h platform interp r late handle permit s raw i
              c ticks w w' o more n (taken [] ps) e q k d m l t,
    )
