-- ===== src/Progress/Tests.antt =====
-- The theorem on `clamp01` at an infinity.
use execra.Base.{◌≡◌, arith, ◌↔◌}
use execra.Progress.{clamp01}
use execra.Progress.Clamp.{InUnit, clamp01_lem}

clamp01_lem_example :
    InUnit (clamp01 2139095040)
    × (clamp01 2139095040 ≡ 2139095040 ↔ InUnit 2139095040)
    × (clamp01 (clamp01 2139095040) ≡ clamp01 2139095040)
clamp01_lem_example = clamp01_lem 2139095040 (omega arith)
