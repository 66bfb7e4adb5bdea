-- ===== src/Interpret/Rules.antt =====
-- `Rule::new` and the macro `rules!` of src/interpret.rs. `compile` is `Regex::new`, which is not
-- part of the repository; a panic is `none`.
use execra.Base.{Text, Option, none, some, List, [], ◌∷◌}
use execra.Interpret.Render.{Captures}
use execra.Interpret.Table.{Rule, RuleAction}

-- What stands between two semicolons of `rules!`, the pattern last.
pub data Entry : Type 0 where
  benign byte_progress_mb : Text → Entry
  progress summary : Text → Text → Entry
  enter_phase warning known : Text → Text → Text → Entry

module _ (compile : Text → Option (Text → Option Captures)) where
  abbrev pub compiled : RuleAction → Option (Text → Option Captures) → Option Rule
  compiled action none = none
  compiled action (some regex) = some (record { regex = regex; action = action })

  unfoldable pub new_rule : Text → RuleAction → Option Rule
  new_rule pattern action = compiled action (compile pattern)

  abbrev pub both : Option Rule → Option (List Rule) → Option (List Rule)
  both (some r) (some rs) = some (r ∷ rs)
  both _ _ = none

  -- The rules `@one`.
  unfoldable pub one : Entry → Option Rule
  unfolding new_rule
  one (benign pat) = new_rule pat RuleAction.benign
  one (progress label pat) = new_rule pat (RuleAction.progress label)
  one (enter_phase name label pat) = new_rule pat (RuleAction.enter_phase name label)
  one (warning code msg pat) = new_rule pat (RuleAction.warning code msg)
  one (known code msg pat) = new_rule pat (RuleAction.known_error code msg)
  one (summary msg pat) = new_rule pat (RuleAction.summary msg)
  one (byte_progress_mb pat) = new_rule pat RuleAction.byte_progress_mb

  unfoldable pub rules : List Entry → Option (List Rule)
  unfolding one
  rules [] = some []
  rules (e ∷ es) = both (one e) (rules es)
