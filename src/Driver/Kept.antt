-- ===== src/Driver/Kept.antt =====
-- The raw output that is kept: `process_line` of src/runtime/driver.rs.
use execra.Base.{
  ℕ, zero, suc, ◌+◌, ◌-◌, ◌≤◌, Text, Bool, true, false, List, [], ◌∷◌, ◌++◌, snoc, ◌≡◌, refl, sym,
  ap, ◌∙◌, arith, length, length-append, length-drop, drop, ltb, ◌==◌, ==_iff, if◌then◌else◌,
  append-nil, Bool-cases, inl, inr,
}
use native.Mathlib.Nat.{zero-add}
use execra.Command.{CommandSpec, Platform}
use execra.Event.{Stream}
use execra.Host.{Host}
use execra.Interpreter.{Interpreter}
use execra.Job.{JobId}
use execra.Driver.Output.{output, output-snoc, cancelled_world-output, process_line-kept}
use execra.Driver.Loop.Task.{Task}
use execra.Driver.Loop.Call.{process_line}
use execra.Driver.Loop.Select.{on_exit}
use execra.Driver.Loop.Run.{Tick, on_wake, run}
use execra.Driver.Loop.Rule.{IsPlumbing, is_spent, run_keeps}
use execra.Driver.Wait.{Wake, Waited, emits_cancelled}
use execra.Driver.RawOutput.{
  Raw, MemoryRawOutput, memory_raw_capacity, trim, remember, recall, keep_line, tagged, in_memory,
  memory_only,
}

-- The last `n` lines.
abbrev pub last_n : ℕ → List Text → List Text
last_n n xs = drop (length xs - n) xs

drop-nil : (k : ℕ) → drop {A = Text} k [] ≡ []
drop-nil zero = refl
drop-nil (suc k) = refl

pub trim-last_n : (n : ℕ) (xs : List Text) → trim n xs ≡ last_n n xs
unfolding trim
trim-last_n n [] = sym (drop-nil (0 - n))
trim-last_n n (x ∷ xs) = elim (Bool-cases (ltb n (length (x ∷ xs)))) [
  | inl e ↦
      let k : suc (length xs) - n ≡ suc (length xs - n) = ground arith in
      rw e (trim-last_n n xs ∙ ap (λ j. drop j (x ∷ xs)) (sym k))
  | inr e ↦
      let k : suc (length xs) - n ≡ 0 = ground arith in rw e (ap (λ j. drop j (x ∷ xs)) (sym k))
]

pub recall-remember :
    (job j : JobId) (line : Text) (m : MemoryRawOutput)
    → recall j (remember job line m)
      ≡ (if job == j then last_n memory_raw_capacity (snoc (recall j m) line) else recall j m)
unfolding recall remember
recall-remember job j line [] = refl
recall-remember job j line ((i, ls) ∷ m) =
    ground (arith, recall-remember job j line m, trim-last_n memory_raw_capacity (snoc ls line))

drop-append :
    (j k : ℕ) (xs ys : List Text)
    → k ≤ length xs
    → drop j (drop k xs ++ ys) ≡ drop (k + j) (xs ++ ys)
drop-append j zero xs ys h = rw zero-add
drop-append j (suc k) [] ys h = absurd (omega arith)
drop-append j (suc k) (x ∷ xs) ys h =
    let e : suc k + j ≡ suc (k + j) = omega arith in rw e (drop-append j k xs ys (omega arith))

-- Forgetting old lines early does not change the last ones.
pub last_n-snoc :
    (n : ℕ) (xs : List Text) (y : Text) → last_n n (snoc (last_n n xs) y) ≡ last_n n (snoc xs y)
last_n-snoc n xs y =
    let a = length-append (drop (length xs - n) xs) (y ∷ []) in
    let b = length-append xs (y ∷ []) in
    let c = length-drop (length xs - n) xs in
    let k : (length xs - n) + (length (snoc (last_n n xs) y) - n) ≡ length (snoc xs y) - n =
      omega (arith, a, b, c) in
    drop-append _ (length xs - n) xs (y ∷ []) (omega arith) ∙ ap (λ j. drop j (snoc xs y)) k

abbrev pub tagged_lines : List (Stream × Text) → List Text
tagged_lines [] = []
tagged_lines ((s, x) ∷ ls) = tagged s x ∷ tagged_lines ls

tagged_lines-snoc :
    (ls : List (Stream × Text)) (s : Stream) (x : Text)
    → tagged_lines (snoc ls (s, x)) ≡ snoc (tagged_lines ls) (tagged s x)
tagged_lines-snoc [] s x = refl
tagged_lines-snoc ((r, y) ∷ ls) s x = ap (λ zs. tagged r y ∷ zs) (tagged_lines-snoc ls s x)

keep_line-policy :
    (job : JobId) (s : Stream) (x : Text) (r : Raw) → (keep_line job s x r).policy ≡ r.policy
unfolding keep_line
keep_line-policy job s x r = refl

keep_line-memory :
    (job : JobId) (s : Stream) (x : Text) (r : Raw)
    → r.policy ≡ memory_only
    → (keep_line job s x r).memory ≡ remember job (tagged s x) r.memory
unfolding keep_line
keep_line-memory job s x r e =
    ap (λ p. if in_memory p then remember job (tagged s x) r.memory else r.memory) e

recall-keep_line :
    (job : JobId) (s : Stream) (x : Text) (r : Raw)
    → r.policy ≡ memory_only
    → recall job (keep_line job s x r).memory
      ≡ last_n memory_raw_capacity (snoc (recall job r.memory) (tagged s x))
recall-keep_line job s x r e =
    ap (recall job) (keep_line-memory job s x r e)
    ∙ recall-remember job job (tagged s x) r.memory
    ∙ ap
        (λ b.
          if b
          then last_n memory_raw_capacity (snoc (recall job r.memory) (tagged s x))
          else recall job r.memory)
        ((==_iff job job).1 refl)

-- In memory stand the last lines that were sent, and no more than the capacity.
record IsKept {I : Type 0} (job : JobId) (t : Task I) : Type 0 where
  policy : t.raw.policy ≡ memory_only
  kept :
      recall job t.raw.memory
      ≡ last_n memory_raw_capacity (tagged_lines (output t.drive.world.sent))

module _ {I : Type 0} (h : Host) (platform : Platform) (interp : Interpreter I) (job : JobId)
    (spec : CommandSpec) where
  plumbing-IsKept : (t u : Task I) → IsPlumbing t u → IsKept job t → IsKept job u
  plumbing-IsKept t u p k = grind arith

  process_line-IsKept :
      (s : Stream) (x : Text) (t : Task I)
      → IsKept job t
      → IsKept job (process_line h interp job spec s x t)
  process_line-IsKept s x t k =
      let c = process_line-kept h interp job spec s x t in
      let ls = output t.drive.world.sent in
      let y = tagged s x in
      record {
        policy = ap (λ r. r.policy) c.0 ∙ keep_line-policy job s x t.raw ∙ k.policy;
        kept =
            ap (λ r. recall job r.memory) c.0
            ∙ recall-keep_line job s x t.raw k.policy
            ∙ ap (λ zs. last_n memory_raw_capacity (snoc zs y)) k.kept
            ∙ last_n-snoc memory_raw_capacity (tagged_lines ls) y
            ∙ ap (last_n memory_raw_capacity)
                (sym (ap tagged_lines c.1 ∙ tagged_lines-snoc ls s x));
      }

  on_exit-IsKept :
      (r : Waited) (late : Bool) (t : Task I)
      → t.child_exited ≡ false
      → is_spent t.wait.stage t.wait_dropped ≡ true
      → IsKept job t
      → IsKept job (on_exit h platform interp job spec r late t)
  unfolding on_exit
  on_exit-IsKept r late t e s k = grind (arith, output-snoc, append-nil)

  on_wake-IsKept :
      (w : Wake) (t : Task I)
      → t.wait_dropped ≡ false
      → IsKept job t
      → IsKept job (on_wake h platform interp job spec w t)
  unfolding on_wake
  on_wake-IsKept w t e k = grind (
    arith,
    cancelled_world-output h job (emits_cancelled t.wait.stage t.cancelled w) t.drive.world,
  )

  -- Under the memory policy, after every run of the loop from a task with no output yet: the memory
  -- of the job holds the last 1024 of the lines that were sent as events, each with its stream's
  -- tag, in order.
  pub run_keeps_last :
      (xs : List Tick) (t : Task I)
      → t.raw.policy ≡ memory_only
      → output t.drive.world.sent ≡ []
      → recall job t.raw.memory ≡ []
      → let u = run h platform interp job spec xs t in
        recall job u.raw.memory
        ≡ last_n memory_raw_capacity (tagged_lines (output u.drive.world.sent))
  unfolding output
  run_keeps_last xs t p e m =
      (run_keeps h platform interp job spec (IsKept job) plumbing-IsKept process_line-IsKept
        on_exit-IsKept on_wake-IsKept xs t
        (record { policy = p; kept = rw (e, m) (sym (drop-nil (0 - memory_raw_capacity))) })).kept
