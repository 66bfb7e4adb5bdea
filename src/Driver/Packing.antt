-- ===== src/Driver/Packing.antt =====
-- `finalize_raw_log` of src/runtime/raw_output.rs, in a build with the feature `gzip`. Whether each
-- call of the file system is carried out is a parameter, and so is the encoder of flate2.
use execra.Base.{ℕ, Text, Bool, true, false, Option, none, some, List, ◌++◌, if◌then◌else◌}
use execra.Driver.RawOutput.{
  RawOutputPolicy, disabled, memory_only, persist, persist_gzip_on_finalize,
}

-- The bytes of `<job>.log` and of `<job>.log.gz`, if the file is there.
pub record LogFiles : Type 0 where
  pub plain : Option (List ℕ)
  pub packed : Option (List ℕ)

-- The calls in their order, and what a copy that fails has written.
pub record Calls : Type 0 where
  pub flush : Bool
  pub open_src : Bool
  pub create_dst : Bool
  pub copy : Bool
  pub finish : Bool
  pub remove_src : Bool
  pub written : List ℕ

abbrev pub appended : List ℕ → Option (List ℕ) → Option (List ℕ)
appended bytes none = none
appended bytes (some old) = some (old ++ bytes)

-- `file.flush()`, of the bytes that the open file still holds; then it is closed.
unfoldable pub flushed : Calls → Option (List ℕ) → LogFiles → LogFiles
flushed c none f = f
flushed c (some bytes) f = if c.flush then record f { plain = appended bytes f.plain } else f

module _ (gzip : List ℕ → List ℕ) where
  abbrev pub pack_bytes : Calls → List ℕ → LogFiles → LogFiles
  pack_bytes c bytes f =
      if c.open_src
      then if c.create_dst
        then if c.copy
          then if c.finish
            then if c.remove_src
              then record { plain = none; packed = some (gzip bytes) }
              else record f { packed = some (gzip bytes) }
            else record f { packed = some c.written }
          else record f { packed = some c.written }
        else f
      else f

  -- The blocking task; a log that is not there cannot be opened.
  unfoldable pub pack : Calls → Option (List ℕ) → LogFiles → LogFiles
  pack c none f = f
  pack c (some bytes) f = pack_bytes c bytes f

  abbrev pub packs : RawOutputPolicy → Option Text → Bool
  packs persist_gzip_on_finalize (some dir) = true
  packs persist_gzip_on_finalize none = false
  packs persist dir = false
  packs memory_only dir = false
  packs disabled dir = false

  unfoldable pub finalize_raw_log :
      RawOutputPolicy → Option Text → Calls → Option (List ℕ) → LogFiles → LogFiles
  unfolding flushed pack
  finalize_raw_log policy dir c raw_file f =
      let g = flushed c raw_file f in if packs policy dir then pack c g.plain g else g
