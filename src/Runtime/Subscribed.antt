-- ===== src/Runtime/Subscribed.antt =====
-- What the first subscription of a handle gives: `spawn` of src/runtime.rs with `subscribe` of
-- src/runtime/handle.rs and the stream of src/runtime/stream.rs.
use execra.Base.{
  ℕ, suc, ◌+◌, ◌<◌, Bool, true, Option, none, some, List, [], ◌∷◌, ◌++◌, append_assoc, snoc, ◌≡◌,
  refl, sym, ap, ◌∙◌, arith, length, drop, map, ◌==◌, ==_iff,
}
use execra.Base.Sorted.{filter}
use execra.Command.{CommandSpec}
use execra.Event.{Event, job_id}
use execra.Host.{Host}
use execra.Job.{Job, JobId}
use execra.Store.{Store, Update, ok, err, upsert_job}
use execra.Runtime.Handle.{JobHandle, handle_from, received, taken_or, spawn_handle, subscribe}
use execra.Runtime.Jobs.{Answer, Runtime, admit, enter, enter_stored, good, bad, queued_job, spawn}
use execra.Runtime.Stream.{event, read_all, wanted, read_all-wanted}

abbrev pub of_job : JobId → Event → Bool
of_job id e = job_id e == id

pub drop-append : {A : Type 0} (xs ys : List A) → drop (length xs) (xs ++ ys) ≡ ys
drop-append [] ys = refl
drop-append (x ∷ xs) ys = drop-append xs ys

wanted-filter :
    (id : JobId) (es : List Event) → wanted (some id) (map event es) ≡ filter (of_job id) es
unfolding wanted filter
wanted-filter id [] = refl
wanted-filter id (e ∷ es) = ground (arith, wanted-filter id es)

length-map : (es : List Event) → length (map event es) ≡ length es
length-map [] = refl
length-map (e ∷ es) = ap suc (length-map es)

pub read_from :
    (n : ℕ) (id : JobId) (xs ys : List Event)
    → length ys < n
    → read_all n (some id) (received (record { rx = length xs; filter = some id }) (xs ++ ys))
      ≡ filter (of_job id) ys
read_from n id xs ys l =
    ap (λ es. read_all n (some id) (map event es)) (drop-append xs ys)
    ∙ read_all-wanted n (some id) (map event ys) (omega (arith, length-map ys))
    ∙ wanted-filter id ys

entered_stored :
    (h : Host) (q : Job) (u : Update) (r : Runtime) (id : JobId)
    → (enter_stored h q u r).0 ≡ good id
    → (id ≡ q.id)
      × ((enter_stored h q u r).1.sent
          ≡ snoc r.sent (Event.job_created q.id q.command q.created_at))
unfolding enter
entered_stored h q (err x, s) r id e = ground arith
entered_stored h q (ok u, s) r id e = ground arith

entered :
    (h : Host) (q : Job) (st : Option Store) (r : Runtime) (id : JobId)
    → (admit h q st r).0 ≡ good id
    → (id ≡ q.id)
      × ((admit h q st r).1.sent ≡ snoc r.sent (Event.job_created q.id q.command q.created_at))
unfolding enter
entered h q none r id e = ground arith
entered h q (some s) r id e = entered_stored h q (upsert_job h q s) r id e

handle_from_lem :
    (n : ℕ) (a : Answer JobId) (handle : JobHandle)
    → handle_from n a ≡ good handle
    → (a ≡ good handle.id)
      × (handle ≡ record { id = handle.id; outcome_rx = true; initial_rx = some n })
handle_from_lem n (bad x) handle e = ground arith
handle_from_lem n (good id) handle e = ground arith

-- The handle of a job that was admitted, and what was sent by then.
pub spawned :
    (h : Host) (spec : CommandSpec) (r : Runtime) (handle : JobHandle)
    → (spawn_handle h spec r).0 ≡ good handle
    → (handle.initial_rx ≡ some (length r.sent))
      × ((spawn_handle h spec r).1.sent
          ≡ snoc r.sent (Event.job_created handle.id spec (h.now r.clock)))
      × (handle.outcome_rx ≡ true)
      × (handle.id ≡ h.new_id r.ids)
unfolding spawn_handle spawn
spawned h spec r handle e =
    let q = queued_job (h.new_id r.ids) spec (h.now r.clock) in
    let r' = record r { clock = suc r.clock; ids = suc r.ids } in
    let a = handle_from_lem (length r.sent) (admit h q r.store r').0 handle e in
    let b = entered h q r.store r' handle.id a.0 in
    (
      ap (λ (x : JobHandle). x.initial_rx) a.1,
      b.1 ∙ ap (λ id. snoc r.sent (Event.job_created id spec (h.now r.clock))) (sym b.0),
      ap (λ (x : JobHandle). x.outcome_rx) a.1,
      b.0,
    )

==_refl : (n : ℕ) → (n == n) ≡ true
==_refl n = (==_iff n n).1 refl

first_is_own :
    (id : JobId) (e : Event) (es : List Event)
    → of_job id e ≡ true
    → filter (of_job id) (e ∷ es) ≡ e ∷ filter (of_job id) es
unfolding filter
first_is_own id e es o = ground arith

-- A handle misses nothing of its job: its first subscription, however late, gives the creation of the
-- job and then all that has been sent of the job since, in order, if the subscriber keeps up with the
-- channel. A second subscription gives what is sent of the job from then on.
pub subscribe_lem :
    (h : Host) (spec : CommandSpec) (r late : Runtime) (handle : JobHandle) (more : List Event)
    (n : ℕ)
    → (spawn_handle h spec r).0 ≡ good handle
    → length more + 1 < n
    → let (first, handle') = subscribe handle late in
      let (second, handle'') = subscribe handle' late in
      (read_all n first.filter (received first ((spawn_handle h spec r).1.sent ++ more))
        ≡ Event.job_created handle.id spec (h.now r.clock) ∷ filter (of_job handle.id) more)
      × (read_all n second.filter (received second (late.sent ++ more))
          ≡ filter (of_job handle.id) more)
unfolding subscribe job_id
subscribe_lem h spec r late handle more n e l =
    let s = spawned h spec r handle e in
    let created = Event.job_created handle.id spec (h.now r.clock) in
    let rx = ap (λ o. taken_or o (length late.sent)) s.0 in
    (
      ap
            (λ rx. read_all n (some handle.id) (
              received (record { rx = rx; filter = some handle.id })
                ((spawn_handle h spec r).1.sent ++ more)))
            rx
          ∙ ap
              (λ es.
                read_all n (some handle.id)
                  (received (record { rx = length r.sent; filter = some handle.id }) es))
              (ap (λ es. es ++ more) s.1 ∙ append_assoc r.sent (created ∷ []) more)
          ∙ read_from n handle.id r.sent (created ∷ more) (omega arith)
          ∙ first_is_own handle.id created more (==_refl handle.id),
      read_from n handle.id late.sent more (omega arith),
    )
