-- ===== src/Cli/Packed.antt =====
-- What `logs` of crates/execra-cli/src/main.rs prints of a log that `finalize_raw_log` of
-- src/runtime/raw_output.rs has closed.
use execra.Base.{
  ℕ, Text, codes, Bool, true, false, Option, none, some, List, [], ◌∷◌, ◌++◌, ◌≡◌, refl, sym, ap,
  ◌∙◌, arith, text_eq, text_eq_refl, if◌then◌else◌, if_rule, ◌⊎◌, inl, inr, subst,
}
use execra.Cli.Commands.{Display, Logs, logs}
use execra.Driver.Packing.{Calls, LogFiles, finalize_raw_log, flushed, pack, pack_bytes, packs}
use execra.Driver.RawOutput.{RawOutputPolicy}
use execra.Job.{JobId}

abbrev pub is_there : Option (List ℕ) → Bool
is_there none = false
is_there (some bytes) = true

abbrev pub decoded : (List ℕ → Option Text) → Option (List ℕ) → Option Text
decoded decode none = none
decoded decode (some bytes) = decode bytes

-- The two files of a job as the tool sees them, where `decode` reads UTF-8 and `gunzip` undoes gzip.
abbrev pub seen : (List ℕ → Option Text) → (List ℕ → List ℕ) → Text → LogFiles → Logs
seen decode gunzip path f =
    let at_gz = λ (t : Text). text_eq t (path ++ codes ".gz") in
    record {
      exists = λ t.
          if text_eq t path then is_there f.plain else if at_gz t then is_there f.packed else false;
      read_to_string = λ t. if text_eq t path then decoded decode f.plain else none;
      gunzip = λ t. if at_gz t then decoded (λ b. decode (gunzip b)) f.packed else none;
    }

not_longer : (t : Text) (c : ℕ) (s : Text) → text_eq (t ++ c ∷ s) t ≡ false
unfolding text_eq
not_longer [] c s = refl
not_longer (a ∷ t) c s = ground (arith, not_longer t c s)

-- The plain log is still there, or it is packed.
abbrev pub IsKept : (List ℕ → List ℕ) → List ℕ → LogFiles → Type 0
IsKept gzip bytes f = (f.plain ≡ some bytes) ⊎ ((f.plain ≡ none) × (f.packed ≡ some (gzip bytes)))

pack-IsKept :
    (gzip : List ℕ → List ℕ) (c : Calls) (f : LogFiles) (bytes : List ℕ)
    → f.plain ≡ some bytes
    → IsKept gzip bytes (pack_bytes gzip c bytes f)
pack-IsKept gzip c f bytes p = ground arith

finalize_raw_log-IsKept :
    (gzip : List ℕ → List ℕ) (policy : RawOutputPolicy) (dir : Option Text) (c : Calls)
    (raw_file : Option (List ℕ)) (f : LogFiles) (bytes : List ℕ)
    → (flushed c raw_file f).plain ≡ some bytes
    → IsKept gzip bytes (finalize_raw_log gzip policy dir c raw_file f)
unfolding finalize_raw_log
finalize_raw_log-IsKept gzip policy dir c raw_file f bytes p =
    if_rule (IsKept gzip bytes) (packs gzip policy dir)
      (λ y.
        subst (λ plain. IsKept gzip bytes (pack gzip c plain (flushed c raw_file f))) (sym p)
          (pack-IsKept gzip c (flushed c raw_file f) bytes p))
      (λ n. inl p)

module _ (w : Display) (decode : List ℕ → Option Text) (gunzip : List ℕ → List ℕ) where
  -- The plain file comes first.
  logs-plain :
      (job : Text) (id : JobId) (f : LogFiles) (bytes : List ℕ)
      → w.parse_id job ≡ some id
      → f.plain ≡ some bytes
      → logs w (seen decode gunzip (w.log_path id) f) job ≡ decode bytes
  unfolding logs
  logs-plain job id f bytes e p = ground (arith, text_eq_refl (w.log_path id))

  logs-packed :
      (job : Text) (id : JobId) (f : LogFiles) (bytes : List ℕ)
      → w.parse_id job ≡ some id
      → f.plain ≡ none
      → f.packed ≡ some bytes
      → logs w (seen decode gunzip (w.log_path id) f) job ≡ decode (gunzip bytes)
  unfolding logs
  logs-packed job id f bytes e p k = ground (
    arith,
    text_eq_refl (w.log_path id),
    text_eq_refl (w.log_path id ++ codes ".gz"),
    not_longer (w.log_path id) 46 (codes "gz"),
  )

  logs-IsKept :
      (gzip : List ℕ → List ℕ) (job : Text) (id : JobId) (f : LogFiles) (bytes : List ℕ)
      → gunzip (gzip bytes) ≡ bytes
      → w.parse_id job ≡ some id
      → IsKept gzip bytes f
      → logs w (seen decode gunzip (w.log_path id) f) job ≡ decode bytes
  logs-IsKept gzip job id f bytes g e (inl p) = logs-plain job id f bytes e p
  logs-IsKept gzip job id f bytes g e (inr (p, k)) =
      logs-packed job id f (gzip bytes) e p k ∙ ap decode g

-- A log outlives its packing: whichever calls of the file system fail when a finished job's log is
-- closed and packed, `logs` of the job's id prints the text of the log, under every policy: from the
-- plain file as long as it is there, else from the packed one. It rests on gunzip undoing gzip.
pub logs-finalize_raw_log :
    (w : Display) (decode : List ℕ → Option Text) (gzip gunzip : List ℕ → List ℕ) (job : Text)
    (id : JobId) (policy : RawOutputPolicy) (dir : Option Text) (c : Calls)
    (raw_file : Option (List ℕ)) (f : LogFiles) (bytes : List ℕ)
    → ((b : List ℕ) → gunzip (gzip b) ≡ b)
    → w.parse_id job ≡ some id
    → (flushed c raw_file f).plain ≡ some bytes
    → logs w
        (seen decode gunzip (w.log_path id) (finalize_raw_log gzip policy dir c raw_file f))
        job
      ≡ decode bytes
logs-finalize_raw_log w decode gzip gunzip job id policy dir c raw_file f bytes g e p =
    logs-IsKept w decode gunzip gzip job id (finalize_raw_log gzip policy dir c raw_file f) bytes
      (g bytes) e (finalize_raw_log-IsKept gzip policy dir c raw_file f bytes p)
