-- ===== src/Interpret/Chars.antt =====
-- The operations on strings and floats that src/interpret.rs takes from Rust's standard library.
use execra.Base.{
  ℕ, ◌+◌, ◌-◌, ◌*◌, ◌^◌, Text, Bool, true, false, ◌&&◌, ◌||◌, Option, none, some, List, [], ◌∷◌,
  ◌++◌, ltb, leb, ◌==◌, if◌then◌else◌,
}
use execra.Progress.{F64}

-- `char::is_whitespace`: the code points of Unicode's White_Space.
unfoldable pub is_whitespace : ℕ → Bool
is_whitespace c =
    (leb 9 c && leb c 13)
    || c == 32
    || c == 0x85
    || c == 0xa0
    || c == 0x1680
    || (leb 0x2000 c && leb c 0x200a)
    || c == 0x2028
    || c == 0x2029
    || c == 0x202f
    || c == 0x205f
    || c == 0x3000

unfoldable pub trim_start : Text → Text
unfolding is_whitespace
trim_start [] = []
trim_start (c ∷ t) = let rest = trim_start t in if is_whitespace c then rest else c ∷ t

abbrev pub cons_kept : ℕ → Text → Text
cons_kept c [] = if is_whitespace c then [] else c ∷ []
cons_kept c (d ∷ t) = c ∷ d ∷ t

unfoldable pub trim_end : Text → Text
unfolding is_whitespace
trim_end [] = []
trim_end (c ∷ t) = cons_kept c (trim_end t)

unfoldable pub trim : Text → Text
unfolding trim_start trim_end
trim t = trim_end (trim_start t)

unfoldable pub starts_with : Text → Text → Bool
starts_with [] t = true
starts_with (p ∷ ps) [] = false
starts_with (p ∷ ps) (c ∷ t) = p == c && starts_with ps t

unfoldable pub contains : Text → Text → Bool
unfolding starts_with
contains p [] = starts_with p []
contains p (c ∷ t) = starts_with p (c ∷ t) || contains p t

unfoldable pub to_ascii_lowercase : Text → Text
to_ascii_lowercase [] = []
to_ascii_lowercase (c ∷ t) = (if leb 65 c && leb c 90 then c + 32 else c) ∷ to_ascii_lowercase t

-- `join("\n")`
unfoldable pub join_lines : List Text → Text
join_lines [] = []
join_lines (l ∷ []) = l
join_lines (l ∷ m ∷ ls) = l ++ 10 ∷ join_lines (m ∷ ls)

unfoldable pub is_ascii_digit : ℕ → Bool
is_ascii_digit c = leb 48 c && leb c 57

abbrev pub decimal_value : ℕ → Text → ℕ
decimal_value n [] = n
decimal_value n (d ∷ ds) = decimal_value (10 * n + (d - 48)) ds

-- `digits.parse::<usize>()` of a text of digits, at least one, on a target of 64 bits.
unfoldable pub parse_usize : Text → Option ℕ
parse_usize digits = let n = decimal_value 0 digits in if ltb n (2 ^ 64) then some n else none

abbrev pub f64_one : F64
f64_one = 0x3ff0000000000000

abbrev pub f64_infinity : F64
f64_infinity = 0x7ff0000000000000

abbrev pub f64_sign : F64
f64_sign = 0x8000000000000000

-- `t > 0.0`
unfoldable pub f64_is_positive : F64 → Bool
f64_is_positive v = ltb 0 v && leb v f64_infinity

-- `v.clamp(0.0, 1.0)`, which keeps a NaN.
unfoldable pub f64_clamp : F64 → F64
f64_clamp v =
    if ltb f64_sign v && leb v (f64_sign + f64_infinity)
    then 0
    else if ltb f64_one v && leb v f64_infinity
    then f64_one
    else v
