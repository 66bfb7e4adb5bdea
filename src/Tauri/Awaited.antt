-- ===== src/Tauri/Awaited.antt =====
-- What `.await` on a task builder of src/tauri.rs has waited for when it yields.
use execra.Base.{
  true, false, Option, none, some, List, [], ◌∷◌, ◌++◌, any, append_assoc, append-nil, ◌≡◌, refl,
  sym, ap, ◌∙◌, arith, if_rule, subst,
}
use execra.Event.{Event}
use execra.Job.{JobId}
use execra.Outcome.{Outcome}
use execra.Runtime.Handle.{JobHandle, Oneshot, sent, dropped, waiting, poll}
use execra.Runtime.Polling.{first_outcome}
use execra.Tauri.Await.{
  after_handle, on_forwarder, on_handle, await, is_through, or_again, poll_awaiting, poll_forwarder,
}
use execra.Tauri.Called.{heard}
use execra.Tauri.Creep.{Rounding, CreepState}
use execra.Tauri.Forward.{
  CreepFn, Turn, next, timer, creeping, forward, is_finalized, on_event, on_timer, straight,
}

-- All turns that the task that forwards takes by the last of the polls.
abbrev pub taken : List Turn → List (Oneshot × List Turn) → List Turn
taken ts [] = ts
taken ts ((rx, more) ∷ rest) = taken (ts ++ more) rest

abbrev pub receivers : List (Oneshot × List Turn) → List Oneshot
receivers [] = []
receivers ((rx, more) ∷ rest) = rx ∷ receivers rest

taken-prefix :
    (ts : List Turn) (ps : List (Oneshot × List Turn))
    → (rest : List Turn) × (taken ts ps ≡ ts ++ rest)
taken-prefix ts [] = ([], sym (append-nil ts))
taken-prefix ts ((rx, more) ∷ ps) =
    let t = taken-prefix (ts ++ more) ps in (more ++ t.0, t.1 ∙ append_assoc ts more t.0)

straight-append : (xs ys : List Turn) → is_through xs ≡ true → straight (xs ++ ys) ≡ straight xs
unfolding straight is_through
straight-append [] ys t = ground arith
straight-append (timer at ∷ xs) ys t = straight-append xs ys t
straight-append (next none ∷ xs) ys t = refl
straight-append (next (some e) ∷ xs) ys t = ground (arith, straight-append xs ys)

creeping-append :
    (fl : Rounding) (creep : CreepFn) (job : JobId) (c : Option CreepState) (xs ys : List Turn)
    → is_through xs ≡ true
    → creeping fl creep job c (xs ++ ys) ≡ creeping fl creep job c xs
unfolding creeping is_through
creeping-append fl creep job c [] ys t = ground arith
creeping-append fl creep job c (timer at ∷ xs) ys t =
    let u = on_timer fl creep job at c in
    ap (λ es. u.0 ++ es) (creeping-append fl creep job u.1 xs ys t)
creeping-append fl creep job c (next none ∷ xs) ys t = refl
creeping-append fl creep job c (next (some e) ∷ xs) ys t =
    ground (arith, creeping-append fl creep job (on_event fl creep job e c) xs ys)

-- A task that is through delivers nothing more.
pub forward-append :
    (fl : Rounding) (creep : Option CreepFn) (job : JobId) (xs ys : List Turn)
    → is_through xs ≡ true
    → forward fl creep job (xs ++ ys) ≡ forward fl creep job xs
unfolding forward
forward-append fl none job xs ys t = straight-append xs ys t
forward-append fl (some creep) job xs ys t = creeping-append fl creep job none xs ys t

any-middle :
    (xs ys : List Event) (e : Event)
    → is_finalized e ≡ true
    → any is_finalized (xs ++ e ∷ ys) ≡ true
any-middle [] ys e f = ground arith
any-middle (x ∷ xs) ys e f = ground (arith, any-middle xs ys e f)

heard-through : (ts : List Turn) → any is_finalized (heard ts) ≡ true → is_through ts ≡ true
unfolding is_through
heard-through [] f = ground arith
heard-through (timer at ∷ ts) f = heard-through ts f
heard-through (next none ∷ ts) f = refl
heard-through (next (some e) ∷ ts) f = ground (arith, heard-through ts)

-- A task that hears a finalization is through.
pub finalized-through :
    (ts : List Turn) (xs ys : List Event) (e : Event)
    → is_finalized e ≡ true
    → heard ts ≡ xs ++ e ∷ ys
    → is_through ts ≡ true
finalized-through ts xs ys e f h = heard-through ts (ap (any is_finalized) h ∙ any-middle xs ys e f)

-- The future has yielded this outcome, when the other task was through, of all turns that it takes.
abbrev pub IsGiven : Outcome → Option (Outcome × List Turn) → List Turn → Type 0
IsGiven o given all =
    (by : List Turn) × (rest : List Turn) × (given ≡ some (o, by))
    × (is_through by ≡ true)
    × (all ≡ by ++ rest)

-- The outcome is there, and the other task is polled.
at_forwarder :
    (o : Outcome) (ts : List Turn) (ps : List (Oneshot × List Turn))
    → (is_through ts ≡ false → IsGiven o (await (on_forwarder o) ts ps) (taken ts ps))
    → IsGiven o (or_again (λ b. await b ts ps) ts (poll_forwarder ts o)) (taken ts ps)
unfolding poll_forwarder
at_forwarder o ts ps again =
    let p = taken-prefix ts ps in
    if_rule (λ r. IsGiven o (or_again (λ b. await b ts ps) ts r) (taken ts ps)) (is_through ts)
      (λ y. (ts, p.0, refl, y, p.1)) again

yields_forwarder :
    (o : Outcome) (ts : List Turn) (ps : List (Oneshot × List Turn))
    → is_through (taken ts ps) ≡ true
    → is_through ts ≡ false
    → IsGiven o (await (on_forwarder o) ts ps) (taken ts ps)
unfolding await poll_awaiting
yields_forwarder o ts [] t n = ground arith
yields_forwarder o ts ((rx, more) ∷ ps) t n =
    at_forwarder o (ts ++ more) ps (yields_forwarder o (ts ++ more) ps t)

polled :
    (handle : JobHandle) (rx : Oneshot) (o : Outcome)
    → handle.outcome_rx ≡ true
    → first_outcome (rx ∷ []) ≡ o ∷ []
    → poll handle rx ≡ (some o, record handle { outcome_rx = false })
unfolding poll
polled handle waiting o r f = ground arith
polled handle (sent x) o r f = ground arith
polled handle dropped o r f = ground arith

polled_waiting :
    (handle : JobHandle) → handle.outcome_rx ≡ true → poll handle waiting ≡ (none, handle)
unfolding poll
polled_waiting handle r = ground arith

module _ (o : Outcome) (handle : JobHandle) (receives : handle.outcome_rx ≡ true) where
  at_outcome :
      (rx : Oneshot) (ts : List Turn) (ps : List (Oneshot × List Turn))
      → first_outcome (rx ∷ []) ≡ o ∷ []
      → is_through (taken ts ps) ≡ true
      → IsGiven o
          (or_again (λ b. await b ts ps) ts (after_handle true ts (poll handle rx)))
          (taken ts ps)
  at_outcome rx ts ps f t =
      subst
        (λ p. IsGiven o (or_again (λ b. await b ts ps) ts (after_handle true ts p)) (taken ts ps))
        (sym (polled handle rx o receives f)) (at_forwarder o ts ps (yields_forwarder o ts ps t))

  -- A handle whose outcome comes at one of the polls, and a task that is through by the last of
  -- them.
  pub yields_handle :
      (ts : List Turn) (ps : List (Oneshot × List Turn))
      → first_outcome (receivers ps) ≡ o ∷ []
      → is_through (taken ts ps) ≡ true
      → IsGiven o (await (on_handle handle true) ts ps) (taken ts ps)
  unfolding await poll_awaiting
  yields_handle ts [] f t = ground arith
  yields_handle ts ((waiting, more) ∷ ps) f t =
      let us = ts ++ more in
      subst
        (λ p. IsGiven o (or_again (λ b. await b us ps) us (after_handle true us p)) (taken us ps))
        (sym (polled_waiting handle receives)) (yields_handle us ps f t)
  yields_handle ts ((sent x, more) ∷ ps) f t = at_outcome (sent x) (ts ++ more) ps f t
  yields_handle ts ((dropped, more) ∷ ps) f t = at_outcome dropped (ts ++ more) ps f t
