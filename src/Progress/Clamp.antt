-- ===== src/Progress/Clamp.antt =====
-- The range of `clamp01` and `normalize` in src/progress.rs.
use execra.Base.{◌≤◌, ◌<◌, ◌≡◌, ◌⊎◌, ◌↔◌, subst, arith, ◌^◌}
use execra.Progress.{F32, clamp01, one_bits, sign_bit}

-- The patterns from 0.0 to 1.0, and that of -0.0.
abbrev pub InUnit : F32 → Type 0
InUnit v = (v ≤ one_bits) ⊎ (v ≡ sign_bit)

clamp01-InUnit : (v : F32) → v < 2 ^ 32 → InUnit (clamp01 v)
unfolding clamp01
clamp01-InUnit v h = ground arith

clamp01_same : (v : F32) → InUnit v → clamp01 v ≡ v
unfolding clamp01
clamp01_same v i = ground arith

-- Every pattern of 32 bits, a NaN and an infinity included, is clamped to a number from 0 to 1; the
-- numbers of that range, and no others, are left as they are; and clamping twice is clamping once.
pub clamp01_lem :
    (v : F32)
    → v < 2 ^ 32
    → InUnit (clamp01 v) × (clamp01 v ≡ v ↔ InUnit v) × (clamp01 (clamp01 v) ≡ clamp01 v)
clamp01_lem v h =
    let i = clamp01-InUnit v h in
    (i, (λ e. subst InUnit e i, clamp01_same v), clamp01_same (clamp01 v) i)
