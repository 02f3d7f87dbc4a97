-- ===== src/Media/Segments/Scan.antt =====
-- ScanRecordings of internal/media/recording.go: segments leave the staging directory of their
-- camera for a directory of the hour they began in, and what lies there is the inventory.
pub mod Found
pub mod Organized
use cloud_nvr.Base.{
  ℕ, ◌+◌, ◌*◌, String, ◌<>◌, Bool, true, false, not, ◌&&◌, ◌||◌, Option, none, some, List, [], ◌∷◌,
  ◌++◌, ltb, leb, if◌then◌else◌, ◌==◌, string_eq, nat_eq, filter,
}
use cloud_nvr.Base.Text.{ends_with, is_mp4, trim_space, byte_len}
use cloud_nvr.Base.Time.{day}
use cloud_nvr.Base.Prefix.{split_on, get_or}
use cloud_nvr.Media.Workers.Recorder.{RecordingStream}
use cloud_nvr.Media.Segments.Sidecar.{Texts, RecordingFile, read_checksum_sidecar}

-- What time, path/filepath and unicode make of a value. An instant is in nanoseconds; `year` to
-- `minute_second` are the layouts "2006", "01", "02", "15" and "04-05" in local time.
pub record Names : Type 0 where
  pub parse_staged : String → Option ℕ
  pub parse_utc : String → Option ℕ
  pub parse_hourly : List String → Option ℕ
  pub year : ℕ → String
  pub month : ℕ → String
  pub day_of_month : ℕ → String
  pub hour_of_day : ℕ → String
  pub minute_second : ℕ → String
  pub unix : ℕ → String
  pub stem : String → String
  pub codes : String → List ℕ
  pub text : List ℕ → String
  pub is_letter : ℕ → Bool
  pub lower : ℕ → ℕ
  pub joined : List String → String

-- One character of the loop of cameraDirectory: the text so far, last character first, and whether
-- it ends in a separator.
abbrev pub slug_step : Names → ℕ → List ℕ × Bool → List ℕ × Bool
slug_step n c ([], separator) = if n.is_letter c then (n.lower c ∷ [], false) else ([], separator)
slug_step n c (d ∷ out, separator) =
    if n.is_letter c
    then (n.lower c ∷ d ∷ out, false)
    else if separator
    then (d ∷ out, separator)
    else (b'-' ∷ d ∷ out, true)

unfoldable pub slug_from : Names → List ℕ → List ℕ × Bool → List ℕ
slug_from n [] (out, separator) = out
slug_from n (c ∷ cs) state =
    let next = slug_step n c state in
    let rest = slug_from n cs next in if leb 60 (byte_len next.0) then next.0 else rest

unfoldable pub drop_dashes : List ℕ → List ℕ
drop_dashes [] = []
drop_dashes (c ∷ s) = let rest = drop_dashes s in if c == b'-' then rest else c ∷ s

unfoldable pub reverse_onto : List ℕ → List ℕ → List ℕ
reverse_onto [] out = out
reverse_onto (c ∷ s) out = reverse_onto s (c ∷ out)

abbrev pub or_camera : String → String
or_camera s = if s == "" then "camera" else s

-- cameraDirectory
unfoldable pub camera_directory : Names → RecordingStream → String
unfolding slug_from drop_dashes reverse_onto
camera_directory n s =
    let name = or_camera (n.text (trim_space (n.codes s.name))) in
    let out = slug_from n (n.codes name) ([], false) in
    or_camera (n.text (drop_dashes (reverse_onto (drop_dashes out) []))) <> ("__" <> s.id)

-- A file below the directory of the recordings, by the parts of its path. `sidecar` is the text of
-- the checksum file next to it.
pub record Entry : Type 0 where
  pub parts : List String
  pub name : String
  pub info_ok : Bool
  pub modified : ℕ
  pub size : ℕ
  pub removable : Bool
  pub sidecar : Option String

-- A file in the staging directory of a camera.
pub record Staged : Type 0 where
  pub is_directory : Bool
  pub entry : Entry

abbrev pub settled : ℕ → ℕ → Entry → Bool
settled settle now e = leb (e.modified + settle) now

-- When a staged segment began, by its name or by its last change.
abbrev pub or_time : Option ℕ → ℕ → ℕ
or_time none t = t
or_time (some s) t = s

abbrev pub staged_start : Names → Entry → ℕ
staged_start n e =
    let base = n.stem e.name in
    or_time (n.parse_staged base) (or_time (n.parse_utc base) e.modified)

-- Is there a file at a path?
unfoldable pub list_same : List String → List String → Bool
list_same [] [] = true
list_same (a ∷ as') (b ∷ bs) = let rest = list_same as' bs in a == b && rest
list_same _ _ = false

unfoldable pub exists : List String → List Entry → Bool
unfolding list_same
exists path [] = false
exists path (e ∷ es) = let rest = exists path es in list_same e.parts path || rest

abbrev pub hour_directory : Names → RecordingStream → ℕ → List String
hour_directory n s started =
    camera_directory n s
    ∷ n.year started
    ∷ n.month started
    ∷ n.day_of_month started
    ∷ n.hour_of_day started
    ∷ []

-- The checksum file at a path stays there when its segment is replaced.
abbrev pub or_found : Bool → Option String → Option String → Option String
or_found true o rest = o
or_found false o rest = rest

unfoldable pub sidecar_at : List String → List Entry → Option String
unfolding list_same
sidecar_at path [] = none
sidecar_at path (e ∷ es) =
    let rest = sidecar_at path es in or_found (list_same e.parts path) e.sidecar rest

-- The name that a segment gets: with the second of its start, where the plain name is taken.
abbrev pub target_name : Names → RecordingStream → ℕ → List Entry → String
target_name n s started tree =
    if exists (hour_directory n s started ++ (n.minute_second started <> ".mp4") ∷ []) tree
    then n.minute_second started <> ("-" <> (n.unix started <> ".mp4"))
    else n.minute_second started <> ".mp4"

-- Rename takes the place of a file at the target.
unfoldable pub put : Entry → List Entry → List Entry
put e tree = e ∷ filter (λ x. not (list_same x.parts e.parts)) tree

abbrev pub is_ready : ℕ → ℕ → Staged → Bool
is_ready settle now s =
    not s.is_directory && is_mp4 s.entry.name && s.entry.info_ok && settled settle now s.entry

-- A staged segment in its new place.
abbrev pub moved : Names → RecordingStream → List Entry → Entry → Entry
moved n s tree e =
    let started = staged_start n e in
    let name = target_name n s started tree in
    let path = hour_directory n s started ++ name ∷ [] in
    record e { name = name; parts = path; sidecar = sidecar_at path tree }

-- organizeStagedRecordings for one camera, where no call fails: what is left, and the tree.
unfoldable pub organize :
    Names → ℕ → ℕ → RecordingStream → List Staged → List Entry → List Staged × List Entry
organize n settle now s [] tree = ([], tree)
organize n settle now s (e ∷ es) tree =
    let ready = is_ready settle now e in
    let next = if ready then put (moved n s tree e.entry) tree else tree in
    let (left, after) = organize n settle now s es next in (if ready then left else e ∷ left, after)

-- recordingMetadata for one camera: it is not its file, its start cannot be read in the old layout,
-- or it is its file.
pub data Match : Type 0 where
  other broken : Match
  began : ℕ → Match

abbrev pub began_or : Match → Option ℕ → Match
began_or m none = m
began_or m (some t) = began t

abbrev pub by_clock : Names → List String → List String → Match
by_clock n date (minute ∷ second ∷ _) =
    began_or other (n.parse_hourly (date ++ minute ∷ second ∷ []))
by_clock n date _ = other

unfoldable pub match_stream : Names → RecordingStream → List String → Match
match_stream n s (camera ∷ file ∷ []) =
    if camera == s.id then began_or broken (n.parse_utc (n.stem file)) else other
match_stream n s (camera ∷ y ∷ m ∷ d ∷ h ∷ file ∷ []) =
    if ends_with camera ("__" <> s.id)
    then by_clock n (y ∷ m ∷ d ∷ h ∷ []) (split_on b'-' (n.stem file))
    else other
match_stream n s _ = other

abbrev pub first_match :
    RecordingStream → Match → Option (RecordingStream × ℕ) → Option (RecordingStream × ℕ)
first_match s other rest = rest
first_match s broken rest = none
first_match s (began t) rest = some (s, t)

-- recordingMetadata
unfoldable pub recording_metadata :
    Names → List String → List RecordingStream → Option (RecordingStream × ℕ)
recording_metadata n parts [] = none
recording_metadata n parts (s ∷ ss) =
    let rest = recording_metadata n parts ss in first_match s (match_stream n s parts) rest

-- What the walk makes of a file: it is passed over, deleted, ends the walk, or is listed.
pub data Seen : Type 0 where
  passed deleted stuck : Seen
  listed : RecordingFile → Seen

abbrev pub is_kept_out : ℕ → RecordingStream → Entry → Bool
is_kept_out now s e = not (s.retention_days == 0) && ltb (e.modified + s.retention_days * day) now

abbrev pub seen_with : Names → Texts → ℕ → ℕ → Entry → Option (RecordingStream × ℕ) → Seen
seen_with n t settle now e none = passed
seen_with n t settle now e (some (s, started)) =
    if not e.info_ok || not (settled settle now e)
    then passed
    else if is_kept_out now s e
    then (if e.removable then deleted else stuck)
    else listed (record {
      camera_id = s.id;
      storage_key = n.joined e.parts;
      started_at = started;
      ended_at = e.modified;
      size_bytes = e.size;
      checksum = read_checksum_sidecar t e.sidecar e.size e.modified;
    })

unfoldable pub seen : Names → Texts → ℕ → ℕ → List RecordingStream → Entry → Seen
seen n t settle now streams e =
    if is_mp4 e.name
    then seen_with n t settle now e (recording_metadata n e.parts streams)
    else passed

-- The walk: the files listed, unless a file that is too old cannot be deleted, and what is left.
abbrev pub walked :
    Seen
    → Entry
    → Option (List RecordingFile) × List Entry
    → List Entry
    → Option (List RecordingFile) × List Entry
walked passed e (files, left) es = (files, e ∷ left)
walked deleted e (files, left) es = (files, left)
walked stuck e (files, left) es = (none, e ∷ es)
walked (listed f) e (none, left) es = (none, e ∷ left)
walked (listed f) e (some files, left) es = (some (f ∷ files), e ∷ left)

unfoldable pub walk :
    Names
    → Texts
    → ℕ
    → ℕ
    → List RecordingStream
    → List Entry
    → Option (List RecordingFile) × List Entry
walk n t settle now streams [] = (some [], [])
walk n t settle now streams (e ∷ es) =
    walked (seen n t settle now streams e) e (walk n t settle now streams es) es

-- organizeStagedRecordings for every camera; `staged` is by the id of the camera.
unfoldable pub organize_all :
    Names → ℕ → ℕ → (String → List Staged) → List RecordingStream → List Entry → List Entry
organize_all n settle now staged [] tree = tree
organize_all n settle now staged (s ∷ ss) tree =
    organize_all n settle now staged ss (organize n settle now s (staged s.id) tree).1

-- ScanRecordings
unfoldable pub scan_recordings :
    Names
    → Texts
    → ℕ
    → ℕ
    → (String → List Staged)
    → List RecordingStream
    → List Entry
    → Option (List RecordingFile) × List Entry
scan_recordings n t settle now staged streams tree =
    walk n t settle now streams (organize_all n settle now staged streams tree)
