-- ===== src/Media/Segments/Sidecar.antt =====
-- readChecksumSidecar and PopulateChecksums: the checksum that is kept next to a segment.
pub mod Cached
use Prim.Native.String.{len}
use cloud_nvr.Base.{
  ℕ, suc, ◌≡◌, String, ◌<>◌, Bool, true, false, not, ◌&&◌, ◌||◌, Option, none, some, List, [], ◌∷◌,
  leb, if◌then◌else◌, ◌==◌, string_eq, nat_eq,
}
use cloud_nvr.Config.{ℤ, pos, negsuc}
use cloud_nvr.Sync.{is_hex}

-- strings.Fields, strconv.ParseInt in base 10 on 64 bits, the verb %d on an int64, and strings.ToLower.
pub record Texts : Type 0 where
  pub fields : String → List String
  pub parse_int : String → Option ℤ
  pub format_int : ℤ → String
  pub to_lower : String → String

-- RecordingFile, with the time of its last change as its end.
pub record RecordingFile : Type 0 where
  pub camera_id : String
  pub storage_key : String
  pub started_at : ℕ
  pub ended_at : ℕ
  pub size_bytes : ℕ
  pub checksum : String

abbrev pub is_number : ℕ → Option ℤ → Bool
is_number n none = false
is_number n (some (pos k)) = k == n
is_number n (some (negsuc k)) = false

-- How the calls for a file come out: its size and time, and its hash, if all of it can be read;
-- and whether the sidecar could be put in its place.
pub record Hashing : Type 0 where
  pub stat : Option (ℕ × ℕ)
  pub digest : Option String
  pub saved : Bool

-- A file of the inventory, and the sidecar that is written for it.
pub record Populated : Type 0 where
  pub file : RecordingFile
  pub written : Option String

abbrev pub unchanged : RecordingFile → Populated
unchanged f = record { file = f; written = none }

abbrev pub count_if : Bool → ℕ → ℕ
count_if true n = suc n
count_if false n = n

module _ (t : Texts) where
  unfoldable pub checked : ℕ → ℕ → List String → String
  checked size modified (a ∷ b ∷ c ∷ []) =
      let checksum = t.to_lower c in
      if is_number size (t.parse_int a)
        && is_number modified (t.parse_int b)
        && len checksum == 64
        && is_hex checksum
      then checksum
      else ""
  checked size modified _ = ""

  -- readChecksumSidecar; `none` is a file that cannot be read.
  unfoldable pub read_checksum_sidecar : Option String → ℕ → ℕ → String
  read_checksum_sidecar none size modified = ""
  read_checksum_sidecar (some text) size modified = checked size modified (t.fields text)

  -- The text that PopulateChecksums writes.
  unfoldable pub sidecar_text : ℕ → ℕ → String → String
  sidecar_text size modified checksum =
      t.format_int (pos size)
      <> (" " <> (t.format_int (pos modified) <> (" " <> (checksum <> "\n"))))

  abbrev pub hashed : RecordingFile → Bool → Option (ℕ × ℕ) → Option String → Bool × Populated
  hashed f saved (some (size, modified)) (some checksum) =
      if saved
      then (
        true,
        record {
          file = record f { checksum = checksum };
          written = some (sidecar_text size modified checksum);
        },
      )
      else (false, unchanged f)
  hashed f saved _ _ = (false, unchanged f)

  -- One round of the loop: was a checksum created?
  unfoldable pub populate_one : ℕ → ℕ → RecordingFile → Hashing → Bool × Populated
  populate_one maximum created f h =
      if not (f.checksum == "") || leb maximum created
      then (false, unchanged f)
      else hashed f h.saved h.stat h.digest

  -- PopulateChecksums
  unfoldable pub populate_from : ℕ → ℕ → List (RecordingFile × Hashing) → List Populated
  populate_from maximum created [] = []
  populate_from maximum created ((f, h) ∷ fs) =
      let (new, p) = populate_one maximum created f h in
      p ∷ populate_from maximum (count_if new created) fs

  abbrev pub populate_checksums : ℕ → List (RecordingFile × Hashing) → List Populated
  populate_checksums maximum = populate_from maximum 0
