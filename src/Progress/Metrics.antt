-- ===== src/Progress/Metrics.antt =====
-- The constructors of `Progress` in src/progress.rs.
use execra.Base.{ℕ, Text, Option, some, if◌then◌else◌}
use execra.Interpret.Chars.{f64_is_positive}
use execra.Progress.{F64, Floats, Progress, ProgressMetric, determinate}

unfoldable pub hinted : Text → Progress
hinted hint = Progress.indeterminate (some hint)

unfoldable pub counted : ℕ → ℕ → Progress
counted done total = determinate (ProgressMetric.count done total)

unfoldable pub byte_count : ℕ → Option ℕ → Progress
byte_count done total = determinate (ProgressMetric.bytes done total)

module _ (fl : Floats) where
  open fl use {f64_mul_million, f64_to_u64}

  -- `(mb * 1_000_000.0).max(0.0) as u64`: a NaN and what is not above 0.0 give 0.
  unfoldable pub to_bytes : F64 → ℕ
  unfolding f64_is_positive
  to_bytes mb = let b = f64_mul_million mb in f64_to_u64 (if f64_is_positive b then b else 0)

  unfoldable pub bytes_mb : F64 → F64 → Progress
  unfolding to_bytes
  bytes_mb done_mb total_mb =
      determinate (ProgressMetric.bytes (to_bytes done_mb) (some (to_bytes total_mb)))
