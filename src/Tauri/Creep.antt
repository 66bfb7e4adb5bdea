-- ===== src/Tauri/Creep.antt =====
-- `CreepState` of src/tauri.rs: synthetic progress through a phase without a signal of its own. The
-- arithmetic of the processor on an `f32` is a parameter.
use execra.Base.{Bool, true, false, not, Option, none, some, if◌then◌else◌}
use execra.Base.Int.{ℤ, eqb_ℤ}
use execra.Progress.{F32, Floats}

-- What `tick` needs besides the operations of `Floats`; `round_i32` is `round() as i32`.
pub record Rounding : Type 0 where
  pub floats : Floats
  pub f32_ge : F32 → F32 → Bool
  pub f32_gt : F32 → F32 → Bool
  pub f32_min : F32 → F32 → F32
  pub round_i32 : F32 → ℤ

pub record CreepState : Type 0 where
  pub cap : F32
  pub cur : F32
  pub done : Bool

-- 0.95, 0.0001, 0.02 and 100.0
abbrev share : F32
share = 0x3f733333

abbrev near : F32
near = 0x38d1b717

abbrev pace : F32
pace = 0x3ca3d70a

abbrev hundred : F32
hundred = 0x42c80000

module _ (fl : Rounding) where
  open fl use {f32_ge, f32_min, round_i32}
  open fl.floats use {f32_add, f32_sub, f32_mul}

  unfoldable pub new : F32 → F32 → CreepState
  new start end = record {
    cap = f32_add start (f32_mul share (f32_sub end start));
    cur = start;
    done = false;
  }

  abbrev pub percent : F32 → ℤ
  percent v = round_i32 (f32_mul v hundred)

  abbrev pub onward : CreepState → F32
  onward c = f32_min (f32_add c.cur (f32_mul (f32_sub c.cap c.cur) pace)) c.cap

  -- `tick`, with the state after it.
  unfoldable pub tick : CreepState → Option F32 × CreepState
  tick c =
      if c.done
      then (none, c)
      else if f32_ge (f32_add c.cur near) c.cap
      then (none, record c { done = true })
      else (
        if not (eqb_ℤ (percent (onward c)) (percent c.cur)) then some (onward c) else none,
        record c { cur = onward c },
      )
