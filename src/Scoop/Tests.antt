-- ===== src/Scoop/Tests.antt =====
-- An output of `scoop install`, and the theorem at it.
use execra.Base.{Text, codes, none, [], ◌∷◌, ◌≡◌, refl, text_eq}
use execra.Base.Int.{pos}
use execra.Event.{stdout}
use execra.Interpret.Chars.{starts_with, trim_start}
use execra.Interpreter.{Line}
use execra.Progress.{Floats}
use execra.Scoop.Install.{Patterns, new}
use execra.Scoop.Notes.{collecting, on_lines, on_lines-block}

abbrev floats : Floats
floats = record {
  f32_add = λ a b. a;
  f32_sub = λ a b. a;
  f32_mul = λ a b. a;
  f32_div = λ a b. a;
  f32_of_u64 = λ n. n;
  f64_div = λ a b. a;
  f64_mul_million = λ a. a;
  f64_to_f32 = λ a. a;
  f64_to_u64 = λ a. a;
  f64_parse = λ t. none;
}

abbrev patterns : Patterns
patterns = record {
  installing = λ t. none;
  downloading = λ t. none;
  bytes = λ t. none;
  checking_hash = λ t. none;
  hash_pass = λ t. none;
  hash_fail = λ t. none;
  extracting = λ t. none;
  linking = λ t. none;
  shimming = λ t. none;
  installed_ok = λ t. none;
  no_manifest = λ t. none;
  already_installed = λ t. none;
}

abbrev line : Text → Line
line t = record { stream = stdout; text = t; at = pos 0 }

-- A block that holds a separator alone, and the line after it.
on_lines-block_example :
    on_lines patterns floats
      (pos 1)
      (line (codes "Notes") ∷ line (codes "-----") ∷ line [] ∷ line (codes "hi") ∷ [])
      new
    ≡ ([], collecting (codes "hi" ∷ []))
unfolding starts_with trim_start text_eq
on_lines-block_example =
    on_lines-block patterns floats (pos 1) (line (codes "Notes")) (line [])
      (line (codes "-----") ∷ []) (line (codes "hi") ∷ []) refl refl refl refl
