-- ===== src/Driver/RawOutput.antt =====
-- Raw output: src/runtime/raw_output.rs, the policies of src/runtime/config.rs, and the part of
-- `process_line` in src/runtime/driver.rs that keeps lines.
use execra.Base.{
  ℕ, Text, codes, Bool, true, false, Option, none, some, List, [], ◌∷◌, ◌++◌, snoc, length, ltb,
  ◌==◌, if◌then◌else◌,
}
use execra.Event.{Stream, as_str}
use execra.Job.{JobId}

pub data RawOutputPolicy : Type 0 where
  persist persist_gzip_on_finalize memory_only disabled : RawOutputPolicy

abbrev pub memory_raw_capacity : ℕ
memory_raw_capacity = 1024

-- `HashMap<JobId, VecDeque<String>>`, oldest line first.
abbrev pub MemoryRawOutput : Type 0
MemoryRawOutput = List (JobId × List Text)

-- The log files by job, and the job's open file: the lines appended to it, if it could be opened.
pub record Raw : Type 0 where
  pub policy : RawOutputPolicy
  pub file : Option (List Text)
  pub memory : MemoryRawOutput

-- `[stdout] text`
unfoldable pub tagged : Stream → Text → Text
unfolding as_str
tagged stream text = codes "[" ++ as_str stream ++ codes "] " ++ text

-- `while lines.len() > MEMORY_RAW_CAPACITY { lines.pop_front(); }`
unfoldable pub trim : ℕ → List Text → List Text
trim cap [] = []
trim cap (l ∷ ls) = let rest = trim cap ls in if ltb cap (length (l ∷ ls)) then rest else l ∷ ls

-- `raw.entry(job).or_default()`, pushed to and trimmed.
unfoldable pub remember : JobId → Text → MemoryRawOutput → MemoryRawOutput
unfolding trim
remember job line [] = (job, trim memory_raw_capacity (line ∷ [])) ∷ []
remember job line ((j, ls) ∷ m) =
    if j == job
    then (j, trim memory_raw_capacity (snoc ls line)) ∷ m
    else (j, ls) ∷ remember job line m

unfoldable pub recall : JobId → MemoryRawOutput → List Text
recall job [] = []
recall job ((j, ls) ∷ m) = if j == job then ls else recall job m

abbrev pub in_memory : RawOutputPolicy → Bool
in_memory memory_only = true
in_memory persist = false
in_memory persist_gzip_on_finalize = false
in_memory disabled = false

abbrev pub append_line : Text → Option (List Text) → Option (List Text)
append_line line none = none
append_line line (some ls) = some (snoc ls line)

unfoldable pub keep_line : JobId → Stream → Text → Raw → Raw
unfolding tagged remember
keep_line job stream text r = record r {
  file = append_line (tagged stream text) r.file;
  memory = if in_memory r.policy then remember job (tagged stream text) r.memory else r.memory;
}

unfoldable pub persists : RawOutputPolicy → Bool
persists persist = true
persists persist_gzip_on_finalize = true
persists memory_only = false
persists disabled = false

-- `opens` tells whether the directory and the file could be opened; the file is opened to append.
unfoldable pub open_raw_log : Option Text → RawOutputPolicy → (Text → Bool) → Option (List Text)
unfolding persists
open_raw_log none policy opens = none
open_raw_log (some dir) policy opens =
    if persists policy then (if opens dir then some [] else none) else none
