-- ===== src/Interpret/Table/Settings.antt =====
-- The rules of src/interpret.rs, the settings of `RuleInterpreter`, and its state.
use execra.Base.{ℕ, Text, codes, Bool, true, false, Option, none, some, List, []}
use execra.Progress.{F32}
use execra.Interpret.Render.{Captures}

pub data RuleAction : Type 0 where
  benign : RuleAction
  progress : Text → RuleAction
  enter_phase : Text → Text → RuleAction
  warning known_error : Text → Text → RuleAction
  summary : Text → RuleAction
  byte_progress_mb : RuleAction

pub record Rule : Type 0 where
  pub regex : Text → Option Captures
  pub action : RuleAction

pub record NotesConfig : Type 0 where
  pub trigger : Text
  pub code : Text

pub record FallbackPolicy : Type 0 where
  pub code : Text
  pub from_failed_line : Bool
  pub from_stderr : Bool

unfoldable pub default_policy : FallbackPolicy
default_policy = record {
  code = codes "command_error";
  from_failed_line = true;
  from_stderr = true;
}

unfoldable pub with_code : Text → FallbackPolicy → FallbackPolicy
with_code code policy = record policy { code = code }

-- `clock` counts the calls of `SystemTime::now` that the interpreter has made.
pub record RuleInterpreter : Type 0 where
  pub rules : List Rule
  pub phases : Text → Option (F32 × F32)
  pub notes : Option NotesConfig
  pub fallback : Option FallbackPolicy
  pub in_notes : Bool
  pub notes_buf : List Text
  pub current_phase : Option Text
  pub emitted_known_error : Bool
  pub fallback_error : Option Text
  pub last_stderr : Option Text
  pub clock : ℕ

unfoldable pub new : List Rule → (Text → Option (F32 × F32)) → RuleInterpreter
new rules phases = record {
  rules = rules;
  phases = phases;
  notes = none;
  fallback = none;
  in_notes = false;
  notes_buf = [];
  current_phase = none;
  emitted_known_error = false;
  fallback_error = none;
  last_stderr = none;
  clock = 0;
}

-- `()` as the model of the phases: none of them has a slice.
abbrev pub no_model : Text → Option (F32 × F32)
no_model name = none

unfoldable pub flat : List Rule → RuleInterpreter
unfolding new
flat rules = new rules no_model

unfoldable pub with_notes : Text → Text → RuleInterpreter → RuleInterpreter
with_notes trigger code i = record i { notes = some (record { trigger = trigger; code = code }) }

unfoldable pub with_fallback : FallbackPolicy → RuleInterpreter → RuleInterpreter
with_fallback policy i = record i { fallback = some policy }
