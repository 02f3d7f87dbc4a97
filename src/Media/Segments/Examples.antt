-- ===== src/Media/Segments/Examples.antt =====
-- Concrete segments: one with a checksum file, and one on its way out of the staging directory.
use Prim.Native.Char.{char, code}
use text.Mathlib.TextEquality.{Char-path}
use text.Mathlib.TextLemmas.{nil-append, cons-append}
use cloud_nvr.Base.{
  ◌≡◌, refl, ap, ◌∙◌, subst, ◌≢◌, String, ◌<>◌, true, false, none, some, List, [], ◌∷◌, arith,
  if◌then◌else◌, ◌==◌, nat_eq, string_eq, map, ℕ, In, ◌≤◌, Option, All, eq_iff, ◌&&◌,
}
use cloud_nvr.Base.Text.{ends_with, is_mp4, trim_space, trim_left, trim_right}
use cloud_nvr.Base.Prefix.{split_on, Without, split_on-append, split_on-Without}
use cloud_nvr.Base.Int64.{in_int64}
use cloud_nvr.Base.Strokes.{format, parse, parse-format, format-Without}
use cloud_nvr.Config.{ℤ}
use cloud_nvr.Store.Recordings.{contains}
use cloud_nvr.Sync.{is_hex}
use cloud_nvr.Media.Workers.Recorder.{RecordingStream}
use cloud_nvr.Media.Segments.Sidecar.{
  Texts, RecordingFile, Hashing, checked, read_checksum_sidecar, sidecar_text, populate_checksums,
}
use cloud_nvr.Media.Segments.Sidecar.Cached.{
  IsFaithful, IsDigest, read-sidecar_text, Results, created, populate_checksums_lem,
}
use cloud_nvr.Media.Segments.Scan.{
  Names, put, seen, recording_metadata, match_stream, exists, sidecar_at, list_same, Staged,
  is_ready, moved, organize, walk, camera_directory, Entry, organize_all, scan_recordings,
  slug_from, drop_dashes, reverse_onto,
}
use cloud_nvr.Media.Segments.Scan.Found.{Sole, IsShown, found_file}
use cloud_nvr.Media.Segments.Scan.Organized.{tree_at, Untaken, scan_recordings-found_file}

abbrev digest : String
digest = "0123456789abcdef0123456789abcdef0123456789abcdef0123456789abcdef"

abbrev texts : Texts
texts = record { fields = λ s. []; parse_int = λ s. none; format_int = λ z. "1"; to_lower = λ s. s }

abbrev file : RecordingFile
file = record {
  camera_id = "cam";
  storage_key = "cam/a.mp4";
  started_at = 1;
  ended_at = 2;
  size_bytes = 3;
  checksum = "";
}

abbrev hashing : Hashing
hashing = record { stat = some (3, 2); digest = some digest; saved = true }

-- The words of a line between single spaces, without the end of the line.
chop : String → String
chop String.[] = String.[]
chop (String.◌∷◌ c s) = let rest = chop s in if code c == 10 then rest else String.◌∷◌ c rest

words : String → List String
words s = map chop (split_on b' ' s)

chop-Without : (s : String) → Without 10 s → chop s ≡ s
unfolding chop
chop-Without String.[] h = refl
chop-Without (String.◌∷◌ c s) h = ground (arith, h.0, chop-Without s h.1)

chop-line : (s : String) → Without 10 s → chop (s <> "\n") ≡ s
unfolding chop
chop-line String.[] h = refl
chop-line (String.◌∷◌ c s) h = rw (cons-append c s "\n") (ground (arith, h.0, chop-line s h.1))

Without-line : (s : String) → Without b' ' s → Without b' ' (s <> "\n")
Without-line String.[] h = ((λ e. omega (arith, e)), tt)
Without-line (String.◌∷◌ c s) h = rw (cons-append c s "\n") (h.0, Without-line s h.1)

hex_at :
    (c d : Prim.Native.Char.Char) (s : String)
    → c ≡ d
    → is_hex (String.◌∷◌ c s) ≡ true
    → is_hex (String.◌∷◌ d s) ≡ true
hex_at c d s e h = subst (λ x. is_hex (String.◌∷◌ x s) ≡ true) e h

no_newline : (c : Prim.Native.Char.Char) (s : String) → is_hex (String.◌∷◌ c s) ≡ true → code c ≢ 10
unfolding is_hex contains
no_newline c s h e = let bad = hex_at c (char 10 tt) s (Char-path c (char 10 tt) e) h in absurd cc

no_space : (c : Prim.Native.Char.Char) (s : String) → is_hex (String.◌∷◌ c s) ≡ true → code c ≢ 32
unfolding is_hex contains
no_space c s h e = let bad = hex_at c (char 32 tt) s (Char-path c (char 32 tt) e) h in absurd cc

hex-Without : (s : String) → is_hex s ≡ true → Without 10 s × Without b' ' s
unfolding is_hex
hex-Without String.[] h = (tt, tt)
hex-Without (String.◌∷◌ c s) h =
    let (a, b) = hex-Without s (ground (arith, h)) in ((no_newline c s h, a), (no_space c s h, b))

spaced : (t : String) → " " <> t ≡ String.◌∷◌ (char b' ' tt) t
spaced t =
    cons-append (char b' ' tt) String.[] t ∙ ap (λ x. String.◌∷◌ (char b' ' tt) x) (nil-append t)

words-line :
    (a b : ℤ) (c : String)
    → is_hex c ≡ true
    → words (format a <> (" " <> (format b <> (" " <> (c <> "\n"))))) ≡ format a ∷ format b ∷ c ∷ []
unfolding words
words-line a b c h =
    let (line, space) = hex-Without c h in
    let blank = char b' ' tt in
    let end = c <> "\n" in
    let rest = format b <> (" " <> end) in
    rw (spaced rest, split_on-append blank (format a) rest (format-Without b' ' a (omega arith)))
      (rw
        (
          spaced end,
          split_on-append blank (format b) end (format-Without b' ' b (omega arith)),
          split_on-Without b' ' end (Without-line c space),
          chop-Without (format a) (format-Without 10 a (omega arith)),
          chop-Without (format b) (format-Without 10 b (omega arith)),
          chop-line c line,
        )
        refl)

abbrev lines : Texts
lines = record { fields = words; parse_int = parse; format_int = format; to_lower = λ s. s }

lines-IsFaithful : IsFaithful lines
lines-IsFaithful = record {
  parse-format = parse-format;
  fields-line = λ a b c _ _ _ h. words-line a b c h;
}

digest-IsDigest : IsDigest lines digest
unfolding is_hex contains
digest-IsDigest = record { long = refl; hex = refl; lower = refl }

abbrev names : Names
names = record {
  parse_staged = λ s. some 5;
  parse_utc = λ s. none;
  parse_hourly = λ l. some 5;
  year = λ t. "2026";
  month = λ t. "01";
  day_of_month = λ t. "02";
  hour_of_day = λ t. "03";
  minute_second = λ t. "04-05";
  unix = λ t. "5";
  stem = λ s. "04-05";
  codes = λ s. [];
  text = λ l. "";
  is_letter = λ c. true;
  lower = λ c. c;
  joined = λ l. "key";
}

abbrev door : RecordingStream
door = record {
  id = "cam";
  name = "Door";
  input_url = "rtsp://door";
  retention_days = 0;
  enabled = true;
}

abbrev segment : Staged
segment = record {
  is_directory = false;
  entry = record {
    parts = [];
    name = "a.mp4";
    info_ok = true;
    modified = 60;
    size = 9;
    removable = true;
    sidecar = none;
  };
}

abbrev gate : RecordingStream
gate = record {
  id = "gate";
  name = "Gate";
  input_url = "rtsp://gate";
  retention_days = 0;
  enabled = true;
}

-- The segment that is looked for comes after one of the same second, and before a directory.
abbrev second : Staged
second = record segment { entry = record segment.entry { name = "b.mp4"; size = 12 } }

abbrev folder : Staged
folder = record segment { is_directory = true }

abbrev staged : String → List Staged
staged id = if id == "cam" then segment ∷ second ∷ folder ∷ [] else segment ∷ []

abbrev before_second : List Entry
before_second = tree_at names 10 100 staged [] door (segment ∷ []) []

door-Sole : Sole names (door ∷ gate ∷ []) door
unfolding camera_directory slug_from drop_dashes reverse_onto trim_space trim_left trim_right
    ends_with
door-Sole = ((λ e. refl), ((λ e. absurd (ground (arith, e))), tt))

gate_id : ◌≢◌ {A = String} "gate" "cam"
gate_id = ground (arith, eq_iff "gate" "cam")

gate_other : All (λ x. x ≢ door) (gate ∷ [])
gate_other = ((λ e. absurd (gate_id (ap (λ x. x.id) e))), tt)

second-IsShown : IsShown names 5 (moved names door before_second second.entry).name
unfolding split_on
second-IsShown = record { minute = "04"; second = "05"; rest = []; clock = refl; parsed = refl }

second_ready : is_ready 10 100 second ≡ true
unfolding is_mp4 ends_with
second_ready = refl

second-Untaken :
    Untaken names 10 100 door
      (moved names door before_second second.entry).parts
      (folder ∷ [])
      (put (moved names door before_second second.entry) before_second)
second-Untaken = ((λ e. absurd (ground (arith, e))), tt)

abbrev listed_by : Option (List RecordingFile) → List RecordingFile
listed_by none = []
listed_by (some l) = l

-- What the scan lists: both segments of the camera, and the one of the other.
abbrev listing : List RecordingFile
listing = listed_by (scan_recordings names lines 10 100 staged (door ∷ gate ∷ []) []).0

door_scan : (scan_recordings names lines 10 100 staged (door ∷ gate ∷ []) []).0 ≡ some listing
unfolding scan_recordings organize_all walk organize put seen recording_metadata match_stream
    camera_directory is_mp4 ends_with read_checksum_sidecar checked split_on exists sidecar_at
    list_same trim_space
door_scan = refl

populate_checksums_lem_example :
    Results texts ((file, hashing) ∷ []) (populate_checksums texts 4 ((file, hashing) ∷ []))
    × (created (populate_checksums texts 4 ((file, hashing) ∷ [])) ≤ 4)
populate_checksums_lem_example = populate_checksums_lem texts 4 ((file, hashing) ∷ [])

read-sidecar_text_example :
    read_checksum_sidecar lines (some (sidecar_text lines 3 2 digest)) 3 7
    ≡ (if ◌==◌ {K = ℕ} 3 3 && ◌==◌ {K = ℕ} 2 7 then digest else "")
unfolding in_int64
read-sidecar_text_example =
    read-sidecar_text lines 3 2 3 7 digest lines-IsFaithful digest-IsDigest refl refl

scan_recordings-found_file_example :
    In (found_file names lines door 5 (moved names door before_second second.entry)) listing
scan_recordings-found_file_example =
    scan_recordings-found_file names lines 10 100 staged [] (gate ∷ []) door [] (segment ∷ [])
      (folder ∷ []) second listing refl second_ready refl door-Sole gate_other second-IsShown
      second-Untaken door_scan
