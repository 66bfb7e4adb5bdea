-- ===== src/ProcGroup/Unix.antt =====
-- `ProcessGroup` of src/proc_group.rs on Unix: the group that has the child's pid as its number.
use execra.Base.{ℕ, ◌-◌, ◌%◌, ◌^◌, Option, none, some, List, [], ◌∷◌, ltb, if◌then◌else◌}
use execra.Base.Int.{ℤ, pos, negsuc}
use execra.ProcGroup.{Call, killpg_sigkill, killpg_sigterm}

-- `as i32`
abbrev pub as_i32 : ℕ → ℤ
as_i32 n = let r = n % 2 ^ 32 in if ltb r (2 ^ 31) then pos r else negsuc (2 ^ 32 - 1 - r)

-- The group of a child with a pid has that number.
unfoldable pub assign : Option ℕ → Option ℤ
assign none = none
assign (some pid) = some (as_i32 pid)

unfoldable pub terminate : ℤ → List Call
terminate pgid = killpg_sigterm pgid ∷ []

unfoldable pub kill : ℤ → List Call
kill pgid = killpg_sigkill pgid ∷ []
