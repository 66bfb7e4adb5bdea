-- ===== src/System/Heard.antt =====
-- What the subscriber of a job's handle reads while the drivers of all jobs run: `spawn` and
-- `subscribe` of src/runtime.rs and src/runtime/handle.rs over every order of what happens.
use execra.Base.{
  ℕ, ◌+◌, ◌<◌, ◌≤◌, subst, some, List, [], ◌∷◌, ◌++◌, append_assoc, ◌≡◌, refl, sym, ap, ◌∙◌, arith,
  length, length-append,
}
use execra.Base.Sorted.{filter}
use execra.Command.{Command, Platform}
use execra.Event.{Event}
use execra.Host.{Host}
use execra.Interpreter.{Interpreter}
use execra.Job.{JobId}
use execra.Runtime.Handle.{
  JobHandle, capacity, received, retained, retained-received, spawn_handle, subscribe, taken_or,
}
use execra.Runtime.Jobs
use execra.Runtime.Jobs.{Answer, Runtime, good, bad, lookup}
use execra.Runtime.Stream.{read_all}
use execra.Runtime.Subscribed.{of_job, read_from, spawned}
use execra.System.Apart.{acts_grow}
use execra.System.Projection.{filter-append}
use execra.System.Reached.{acts-IsSound, empty-IsSound}
use execra.System.State.{Action, Seat, System, act, acts, seated}
use execra.System.Told.{IsTold}

seated-runtime :
    {I : Type 0} (c : Command I) (a : Answer JobId × Runtime) (s : System I)
    → (seated c a s).runtime ≡ a.1
seated-runtime c (good id, r) s = refl
seated-runtime c (bad e, r) s = refl

-- Who subscribed before the events `post` reads those of the job.
reads :
    (n : ℕ) (id : JobId) (rx : ℕ) (pre post sent : List Event)
    → rx ≡ length pre
    → sent ≡ pre ++ post
    → filter (of_job id) pre ≡ []
    → length sent < n
    → read_all n (some id) (received (record { rx = rx; filter = some id }) sent)
      ≡ filter (of_job id) sent
reads n id rx pre post sent p q e l =
    ap (λ x. read_all n (some id) (received (record { rx = x; filter = some id }) sent)) p
    ∙ ap (λ es. read_all n (some id) (received (record { rx = length pre; filter = some id }) es)) q
    ∙ read_from n id pre post (omega (arith, length-append pre post, ap (λ es. length es) q, l))
    ∙ sym (
        ap (filter (of_job id)) q
        ∙ filter-append (of_job id) pre post
        ∙ ap (λ es. es ++ filter (of_job id) post) e)

module _ {I : Type 0} (h : Host) (distinct : (m n : ℕ) → h.new_id m ≡ h.new_id n → m ≡ n)
    (platform : Platform) (interp : Interpreter I) where
  spawn_grows :
      (c : Command I) (ys : List (Action I)) (s : System I) (handle : JobHandle)
      → (spawn_handle h c.spec s.runtime).0 ≡ good handle
      → (post : List Event) × ((acts h platform interp ys
            (act h platform interp (Action.spawn c) s)).runtime.sent
          ≡ s.runtime.sent ++ post)
  unfolding act spawn_handle
  spawn_grows c ys s handle e =
      let created = Event.job_created handle.id c.spec (h.now s.runtime.clock) in
      let g = acts_grow h platform interp ys (act h platform interp (Action.spawn c) s) in
      (
        created ∷ g.0,
        g.1
            ∙ ap (λ es. es ++ g.0)
                (ap (λ (r : Runtime). r.sent) (seated-runtime c (Jobs.spawn h c.spec s.runtime) s)
                  ∙ (spawned h c.spec s.runtime handle e).1)
            ∙ append_assoc s.runtime.sent (created ∷ []) g.0,
      )

  -- The handle that `spawn` has given, in any state that the runtime gets to, misses nothing of
  -- its job whatever happens from then on, to this job and to the others, as long as no more than
  -- 1024 events have been sent since, which is what the channel holds: its first subscription reads
  -- the creation of the job and then all that the job has sent since, which is what the place of its
  -- driver says: once the outcome has been given, the protocol to its end with this outcome. It is
  -- for job ids that are distinct.
  pub spawn_heard :
      (xs ys : List (Action I)) (s : System I) (c : Command I) (handle : JobHandle) (seat : Seat I)
      (n : ℕ)
      → s.seats ≡ []
      → s.runtime.sent ≡ []
      → (spawn_handle h c.spec (acts h platform interp xs s).runtime).0 ≡ good handle
      → let r = acts h platform interp xs s in
        let u = acts h platform interp ys (act h platform interp (Action.spawn c) r) in
        lookup handle.id u.seats ≡ some seat
        → length u.runtime.sent < n
        → length u.runtime.sent ≤ length r.runtime.sent + capacity
        → let first = (subscribe handle u.runtime).0 in
          (told : IsTold u handle.id seat) × (read_all n first.filter
              (retained first u.runtime.sent)
            ≡ Event.job_created handle.id seat.spec told.at ∷ told.since)
  unfolding subscribe acts
  spawn_heard xs ys s c handle seat n k o e l b m =
      let r = acts h platform interp xs s in
      let sound =
        acts-IsSound h distinct platform interp xs s
          (empty-IsSound h distinct platform interp s k o) in
      let u = acts h platform interp ys (act h platform interp (Action.spawn c) r) in
      let sound' =
        acts-IsSound h distinct platform interp ys _
          (acts-IsSound h distinct platform interp (Action.spawn c ∷ []) r sound) in
      let told = sound'.told handle.id seat l in
      let p = spawned h c.spec r.runtime handle e in
      let g = spawn_grows c ys r handle e in
      (
        told,
        ap (read_all n (some handle.id)) (
              retained-received (subscribe handle u.runtime).0 u.runtime.sent (
                subst (λ rx. length u.runtime.sent ≤ rx + capacity)
                  (sym (ap (λ o. taken_or o (length u.runtime.sent)) p.0)) m))
            ∙ reads n handle.id _ r.runtime.sent g.0 u.runtime.sent
                (ap (λ o. taken_or o (length u.runtime.sent)) p.0) g.1
                (ap (λ i. filter (of_job i) r.runtime.sent) p.3
                  ∙ (sound.unused r.runtime.ids (omega arith)).0)
                b
            ∙ told.own,
      )
