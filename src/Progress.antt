-- ===== src/Progress.antt =====
-- src/progress.rs. An `f32` is its 32-bit pattern, so `clamp01` computes; the arithmetic of the
-- processor is the record `Floats`, of which nothing is assumed.
pub mod Clamp
pub mod Metrics
mod Tests
use execra.Base.{ℕ, Text, Bool, ◌&&◌, Option, none, some, ltb, if◌then◌else◌, ◌%◌}

abbrev pub F32 : Type 0
F32 = ℕ

-- An `f64`, by its 64-bit pattern.
abbrev pub F64 : Type 0
F64 = ℕ

-- IEEE operations and the conversions between number types.
pub record Floats : Type 0 where
  pub f32_add : F32 → F32 → F32
  pub f32_sub : F32 → F32 → F32
  pub f32_mul : F32 → F32 → F32
  pub f32_div : F32 → F32 → F32
  pub f32_of_u64 : ℕ → F32
  pub f64_div : F64 → F64 → F64
  pub f64_mul_million : F64 → F64
  pub f64_to_f32 : F64 → F32
  pub f64_to_u64 : F64 → ℕ
  pub f64_parse : Text → Option F64

pub data ProgressMetric : Type 0 where
  fraction : F32 → ProgressMetric
  count : ℕ → ℕ → ProgressMetric
  bytes : ℕ → Option ℕ → ProgressMetric

pub data Progress : Type 0 where
  unknown : Progress
  indeterminate : Option Text → Progress
  determinate : ProgressMetric → Progress

-- 1.0 and the infinity of `f32`; patterns from `sign_bit` on are negative.
abbrev pub one_bits : F32
one_bits = 0x3f800000

abbrev pub infinity_bits : F32
infinity_bits = 0x7f800000

abbrev pub sign_bit : F32
sign_bit = 0x80000000

unfoldable pub is_nan : F32 → Bool
is_nan v = ltb infinity_bits (v % sign_bit)

-- `v.clamp(0.0, 1.0)` of a number: -0.0 is not below 0.0 and stays.
unfoldable pub clamp : F32 → F32
clamp v = if ltb sign_bit v then 0 else if ltb one_bits v && ltb v sign_bit then one_bits else v

unfoldable pub clamp01 : F32 → F32
unfolding is_nan clamp
clamp01 v = if is_nan v then 0 else clamp v

unfoldable pub normalize : Progress → Progress
unfolding clamp01
normalize (determinate (fraction v)) = determinate (fraction (clamp01 v))
normalize (determinate (count d t)) = determinate (count d t)
normalize (determinate (bytes d t)) = determinate (bytes d t)
normalize (indeterminate h) = indeterminate h
normalize unknown = unknown

-- `Progress::fraction`
unfoldable pub of_fraction : F32 → Progress
unfolding clamp01
of_fraction v = determinate (fraction (clamp01 v))

module _ (fl : Floats) where
  open fl use {f32_div, f32_of_u64, f64_mul_million, f64_to_u64}

  unfoldable pub ratio : ℕ → ℕ → Option F32
  unfolding clamp01
  ratio done total =
      if ltb 0 total then some (clamp01 (f32_div (f32_of_u64 done) (f32_of_u64 total))) else none

  unfoldable pub as_fraction : Progress → Option F32
  unfolding ratio
  as_fraction unknown = none
  as_fraction (indeterminate hint) = none
  as_fraction (determinate (fraction v)) = some v
  as_fraction (determinate (count done total)) = ratio done total
  as_fraction (determinate (bytes done (some total))) = ratio done total
  as_fraction (determinate (bytes done none)) = none
