-- ===== src/Interpret/Render.antt =====
-- `render` of src/interpret.rs: `$1`, `$2`, … in a template.
use execra.Base.{ℕ, Text, Option, none, some, [], ◌∷◌, ◌++◌, ◌==◌, if◌then◌else◌, snoc}
use execra.Interpret.Chars.{is_ascii_digit, parse_usize}

-- `regex::Captures`, of which only `get` is used.
abbrev pub Captures : Type 0
Captures = ℕ → Option Text

abbrev pub dollar : ℕ
dollar = 36

abbrev pub captured : Captures → Option ℕ → Text
captured caps none = []
captured caps (some n) = elim (caps n) [ none ↦ [] | some m ↦ m ]

-- What is written for a `$` once its digits have been read.
unfoldable pub reference : Captures → Text → Text
unfolding parse_usize
reference caps [] = dollar ∷ []
reference caps (d ∷ ds) = captured caps (parse_usize (d ∷ ds))

-- The loop; `some digits` after a `$`, whose digits so far are `digits`.
unfoldable pub render_from : Captures → Option Text → Text → Text
unfolding reference is_ascii_digit
render_from caps none [] = []
render_from caps (some digits) [] = reference caps digits
render_from caps none (c ∷ t) =
    let next = render_from caps none t in
    let after = render_from caps (some []) t in if c == dollar then after else c ∷ next
render_from caps (some digits) (c ∷ t) =
    let more = render_from caps (some (snoc digits c)) t in
    let next = render_from caps none t in
    let after = render_from caps (some []) t in
    if is_ascii_digit c
    then more
    else reference caps digits ++ (if c == dollar then after else c ∷ next)

unfoldable pub render : Text → Captures → Text
unfolding render_from
render template caps = render_from caps none template
