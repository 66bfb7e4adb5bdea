-- ===== src/Store/Time.antt =====
-- `to_ms` and `from_ms` of src/store.rs: times as 64-bit milliseconds.
use execra.Base.{ℕ, ◌-◌, ◌*◌, ◌/◌, ◌%◌, ◌^◌, ◌<◌, ◌≡◌, arith, ltb, if◌then◌else◌}
use execra.Base.Int.{ℤ, pos, negsuc}

-- `as i64`: two's complement.
unfoldable pub as_i64 : ℕ → ℤ
as_i64 n = let r = n % 2 ^ 64 in if ltb r (2 ^ 63) then pos r else negsuc (2 ^ 64 - 1 - r)

-- A time before the epoch is 0.
unfoldable pub to_ms : ℤ → ℤ
unfolding as_i64
to_ms (pos ns) = as_i64 (ns / 1000000)
to_ms (negsuc n) = pos 0

unfoldable pub from_ms : ℤ → ℤ
from_ms (pos ms) = pos (ms * 1000000)
from_ms (negsuc n) = pos 0

-- A time from the epoch on, below 2^63 milliseconds, comes back from the store with what is less
-- than a millisecond cut off.
pub from_ms-to_ms :
    (ns : ℕ) → ns / 1000000 < 2 ^ 63 → from_ms (to_ms (pos ns)) ≡ pos (ns - ns % 1000000)
unfolding from_ms to_ms as_i64
from_ms-to_ms ns h = ground arith
