-- ===== src/Runtime/Lifecycle.antt =====
-- A job from `spawn` of src/runtime.rs over its driver, src/runtime/driver.rs, to the subscriber and
-- the handle, src/runtime/stream.rs and src/runtime/handle.rs.
use execra.Base.{ℕ, ◌+◌, ◌<◌, Bool, Option, some, List, [], ◌∷◌, ◌++◌, snoc, ◌≡◌, ap, ◌∙◌, length}
use execra.Base.Sorted.{filter}
use execra.Command.{CommandSpec, Platform}
use execra.Driver.Finality.{drive_job-IsFinal}
use execra.Driver.Loop.Drive.{Spawned, drive_job}
use execra.Driver.Loop.Run.{Tick}
use execra.Driver.RawOutput.{Raw}
use execra.Driver.World.{World}
use execra.Event.{Event}
use execra.Finding.{SystemTime}
use execra.Host.{Host}
use execra.Interpreter.{Interpreter}
use execra.Job.{JobState}
use execra.Outcome.{Outcome}
use execra.Runtime.Handle.{JobHandle, Oneshot, received, sent, spawn_handle, subscribe}
use execra.Runtime.Jobs.{Runtime, good}
use execra.Runtime.Polling.{polls, polls-first_outcome}
use execra.Runtime.Stream.{read_all}
use execra.Runtime.Subscribed.{of_job, spawned, subscribe_lem}

-- A job that is spawned and whose driver gives an outcome, whatever the other jobs send meanwhile:
-- its subscriber reads the creation of the job and then what the driver has sent, to the end, which
-- is the finalization with this outcome; whoever polls the handle is given this outcome, once; and
-- the snapshot is finalized. It is for a subscriber that keeps up with the channel.
pub lifecycle :
    {I : Type 0} (h : Host) (platform : Platform) (interp : Interpreter I) (spec : CommandSpec)
    (r late : Runtime) (handle : JobHandle) (permit : Bool) (s : Spawned) (raw : Raw) (i : Option I)
    (c : Bool) (ticks : List Tick) (w w' : World) (o : Outcome) (more : List Event) (n : ℕ)
    (rest : List Oneshot)
    → (spawn_handle h spec r).0 ≡ good handle
    → drive_job h platform interp handle.id spec permit s raw i c ticks w ≡ (some o, w')
    → filter (of_job handle.id) more ≡ w'.sent
    → length more + 1 < n
    → let first = (subscribe handle late).0 in
      (read_all n first.filter (received first ((spawn_handle h spec r).1.sent ++ more))
        ≡ Event.job_created handle.id spec (h.now r.clock) ∷ w'.sent)
      × ((before : List Event) × (at : SystemTime) × (w'.sent
            ≡ snoc before (Event.finalized handle.id o at)))
      × (polls (sent o ∷ rest) handle ≡ o ∷ [])
      × (w'.snapshot.state ≡ JobState.finalized)
lifecycle h platform interp spec r late handle permit s raw i c ticks w w' o more n rest e d f l =
    let final =
      drive_job-IsFinal h platform interp handle.id spec permit s raw i c ticks w w' o d in
    (
      (subscribe_lem h spec r late handle more n e l).0
          ∙ ap (λ es. Event.job_created handle.id spec (h.now r.clock) ∷ es) f,
      final.2,
      polls-first_outcome (sent o ∷ rest) handle (spawned h spec r handle e).2,
      final.0,
    )
