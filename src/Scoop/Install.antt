-- ===== src/Scoop/Install.antt =====
-- `ScoopInstall` of examples/scoop_install.rs. `at` is what `SystemTime::now` returns in the call.
use execra.Base.{
  ℕ, Text, codes, Bool, true, false, Option, none, some, List, [], ◌∷◌, ◌++◌, snoc, text_eq,
  if◌then◌else◌,
}
use execra.Finding.{SystemTime, Severity, make}
use execra.Interpret.Chars.{join_lines, starts_with, trim_start}
use execra.Interpret.Render.{Captures, captured}
use execra.Interpreter.{InterpreterEvent, Line}
use execra.Progress.{F64, Floats}
use execra.Progress.Metrics.{bytes_mb, hinted}
use execra.Scoop.{Regex, matched}

pub record Patterns : Type 0 where
  pub installing : Regex
  pub downloading : Regex
  pub bytes : Regex
  pub checking_hash : Regex
  pub hash_pass : Regex
  pub hash_fail : Regex
  pub extracting : Regex
  pub linking : Regex
  pub shimming : Regex
  pub installed_ok : Regex
  pub no_manifest : Regex
  pub already_installed : Regex

pub record ScoopInstall : Type 0 where
  pub in_notes : Bool
  pub notes_buf : List Text

unfoldable pub new : ScoopInstall
new = record { in_notes = false; notes_buf = [] }

abbrev pub Step : Type 0
Step = List InterpreterEvent × ScoopInstall

-- `&c[n]`
abbrev pub group : Captures → ℕ → Text
group c n = captured c (some n)

abbrev pub is_empty : Text → Bool
is_empty [] = true
is_empty (c ∷ t) = false

abbrev pub is_separator : Text → Bool
is_separator t = starts_with (codes "---") (trim_start t)

-- An empty buffer leaves `in_notes` as it is.
unfoldable pub flush_notes : SystemTime → ScoopInstall → Step
unfolding join_lines
flush_notes at i = elim i.notes_buf [
  | [] ↦ ([], i)
  | t ∷ ts ↦ (
    InterpreterEvent.finding (make at Severity.info (codes "scoop.notes") (join_lines (t ∷ ts)))
        ∷ [],
    record { in_notes = false; notes_buf = [] },
  )
]

unfoldable pub take_note : SystemTime → Text → ScoopInstall → Step
unfolding flush_notes starts_with trim_start
take_note at l i =
    let flushed = flush_notes at i in
    if is_empty l
    then flushed
    else if is_separator l
    then ([], i)
    else ([], record i { notes_buf = snoc i.notes_buf l })

-- `parse().unwrap_or(0.0)`
abbrev pub parsed : Option F64 → F64
parsed none = 0
parsed (some v) = v

module _ (p : Patterns) (fl : Floats) where
  open p use {
    installing, downloading, bytes, checking_hash, hash_pass, hash_fail, extracting, linking,
    shimming, installed_ok, no_manifest, already_installed,
  }
  open fl use {f64_parse}

  -- Known errors and summaries.
  unfoldable pub classify_result : Text → List InterpreterEvent
  classify_result l =
      matched (hash_fail l)
        (λ c.
          InterpreterEvent.known_error (codes "scoop.hash_mismatch")
            (codes "Downloaded file hash did not match manifest")
          ∷ [])
        (matched (no_manifest l)
          (λ c.
            InterpreterEvent.known_error (codes "scoop.unknown_package")
              (codes "No manifest for " ++ group c 1)
            ∷ [])
          (matched (installed_ok l)
            (λ c.
              InterpreterEvent.summary (codes "Installed " ++ group c 1 ++ codes " " ++ group c 2)
              ∷ [])
            (matched (already_installed l)
              (λ c. InterpreterEvent.summary (codes "Already installed (no changes)") ∷ []) [])))

  -- The phases after the download.
  unfoldable pub classify_phase : Text → List InterpreterEvent
  unfolding classify_result
  classify_phase l =
      matched (extracting l)
        (λ c.
          InterpreterEvent.enter_phase (codes "extract") (some (codes "Extracting " ++ group c 1))
          ∷ InterpreterEvent.progress (hinted (codes "extracting"))
          ∷ [])
        (matched (linking l)
          (λ c. InterpreterEvent.enter_phase (codes "link") (some (codes "Linking")) ∷ [])
          (matched (shimming l)
            (λ c. InterpreterEvent.enter_phase (codes "link") (some (codes "Creating shims")) ∷ [])
            (classify_result l)))

  unfoldable pub classify : Text → List InterpreterEvent
  unfolding classify_phase bytes_mb
  classify l =
      matched (installing l) (λ c. InterpreterEvent.label (codes "Installing " ++ group c 1) ∷ [])
        (matched (downloading l)
          (λ c.
            InterpreterEvent.enter_phase (codes "download")
              (some (codes "Downloading " ++ group c 1))
            ∷ [])
          (matched (bytes l)
            (λ c.
              InterpreterEvent.progress
                (bytes_mb fl (parsed (f64_parse (group c 1))) (parsed (f64_parse (group c 2))))
              ∷ [])
            (matched (checking_hash l)
              (λ c.
                InterpreterEvent.update_phase (codes "Verifying download")
                ∷ InterpreterEvent.progress (hinted (codes "verifying"))
                ∷ [])
              (matched (hash_pass l) (λ c. InterpreterEvent.exit_phase ∷ []) (classify_phase l)))))

  unfoldable pub on_line : SystemTime → Line → ScoopInstall → Step
  unfolding take_note text_eq classify
  on_line at line i =
      if i.in_notes
      then take_note at line.text i
      else if text_eq line.text (codes "Notes")
      then ([], record i { in_notes = true })
      else (classify line.text, i)

-- What stands in the buffer at the exit of the process.
unfoldable pub on_exit : SystemTime → ScoopInstall → Step
unfolding flush_notes
on_exit at i = flush_notes at i
