-- ===== src/Media/Segments/Scan/Found.antt =====
-- What ScanRecordings finds: internal/media/recording.go.
use Prim.Native.Char.{code}
use cloud_nvr.Base.{
  ℕ, ◌≡◌, refl, ap, ◌∙◌, subst, inl, inr, String, ◌<>◌, true, false, Option, none, some, List, [],
  ◌∷◌, ◌++◌, arith, string_eq, nat_eq, ==_refl, Bool-cases, In, here, there, All,
}
use cloud_nvr.Base.Text.{ends_with, is_mp4}
use cloud_nvr.Base.Prefix.{split_on}
use text.Mathlib.TextLemmas.{nil-append, cons-append, append_assoc}
use cloud_nvr.Media.Workers.Recorder.{RecordingStream}
use cloud_nvr.Media.Segments.Sidecar.{Texts, RecordingFile, read_checksum_sidecar}
use cloud_nvr.Media.Segments.Scan.{
  Names, camera_directory, Entry, Staged, staged_start, hour_directory, target_name, is_ready,
  moved, other, began, match_stream, recording_metadata, Seen, passed, deleted, stuck, listed,
  is_kept_out, seen, walked, walk, exists,
}

ends_with_refl : (s : String) → ends_with s s ≡ true
unfolding ends_with
ends_with_refl String.[] = refl
ends_with_refl (String.◌∷◌ c s) = rw (==_refl (String.◌∷◌ c s)) refl

ends_with_cons :
    (c : Prim.Native.Char.Char) (s t : String)
    → ends_with s t ≡ true
    → ends_with (String.◌∷◌ c s) t ≡ true
unfolding ends_with
ends_with_cons c s t h = ground (arith, h)

ends_with-append : (a b : String) → ends_with (a <> b) b ≡ true
ends_with-append String.[] b = rw (nil-append b) (ends_with_refl b)
ends_with-append (String.◌∷◌ c a) b =
    rw (cons-append c a b) (ends_with_cons c (a <> b) b (ends_with-append a b))

is_mp4-append : (a : String) → is_mp4 (a <> ".mp4") ≡ true
unfolding is_mp4
is_mp4-append a = rw (ends_with-append a ".mp4") refl

-- No other camera's files could lie in the directory of a camera.
abbrev pub Sole : Names → List RecordingStream → RecordingStream → Type 0
Sole n streams s = All (λ x. ends_with (camera_directory n s) ("__" <> x.id) ≡ true → x ≡ s) streams

-- A time that its path tells again: the local clock shows it once.
pub record IsShown (n : Names) (t : ℕ) (file : String) : Type 0 where
  pub minute : String
  pub second : String
  pub rest : List String
  pub clock : split_on b'-' (n.stem file) ≡ minute ∷ second ∷ rest
  pub parsed :
      n.parse_hourly
        (n.year t ∷ n.month t ∷ n.day_of_month t ∷ n.hour_of_day t ∷ minute ∷ second ∷ [])
      ≡ some t

pub directory_own :
    (n : Names) (s : RecordingStream) → ends_with (camera_directory n s) ("__" <> s.id) ≡ true
unfolding camera_directory
directory_own n s = ends_with-append _ ("__" <> s.id)

match_own :
    (n : Names) (s x : RecordingStream) (t : ℕ) (file : String)
    → IsShown n t file
    → ends_with (camera_directory n s) ("__" <> x.id) ≡ true
    → match_stream n x (hour_directory n s t ++ file ∷ []) ≡ began t
unfolding match_stream
match_own n s x t file shown h = rw (h, shown.clock, shown.parsed) refl

match_other :
    (n : Names) (s x : RecordingStream) (t : ℕ) (file : String)
    → ends_with (camera_directory n s) ("__" <> x.id) ≡ false
    → match_stream n x (hour_directory n s t ++ file ∷ []) ≡ other
unfolding match_stream
match_other n s x t file h = rw h refl

-- The path of a segment tells its camera and its start.
metadata_found :
    (n : Names) (streams : List RecordingStream) (s : RecordingStream) (t : ℕ) (file : String)
    → In s streams
    → Sole n streams s
    → IsShown n t file
    → recording_metadata n (hour_directory n s t ++ file ∷ []) streams ≡ some (s, t)
unfolding recording_metadata
metadata_found n [] s t file i sole shown = elim i [ ]
metadata_found n (x ∷ streams) s t file here sole shown =
    rw (match_own n s s t file shown (directory_own n s)) refl
metadata_found n (x ∷ streams) s t file (there i) sole shown =
    elim (Bool-cases (ends_with (camera_directory n s) ("__" <> x.id))) [
      | inl e ↦ rw (match_own n s x t file shown e) (ap (λ y. some (y, t)) (sole.0 e))
      | inr e ↦ rw (match_other n s x t file e) (metadata_found n streams s t file i sole.1 shown)
    ]

abbrev pub found_file : Names → Texts → RecordingStream → ℕ → Entry → RecordingFile
found_file n t s started e = record {
  camera_id = s.id;
  storage_key = n.joined e.parts;
  started_at = started;
  ended_at = e.modified;
  size_bytes = e.size;
  checksum = read_checksum_sidecar t e.sidecar e.size e.modified;
}

target_mp4 :
    (n : Names) (s : RecordingStream) (t : ℕ) (tree : List Entry)
    → is_mp4 (target_name n s t tree) ≡ true
target_mp4 n s t tree =
    elim (Bool-cases (exists (hour_directory n s t ++ (n.minute_second t <> ".mp4") ∷ []) tree)) [
      | inl e ↦
          let mm = n.minute_second t in
          let assoc = append_assoc mm ("-" <> n.unix t) ".mp4" in
          let inner = append_assoc "-" (n.unix t) ".mp4" in
          let name_eq : (mm <> ("-" <> n.unix t)) <> ".mp4" ≡ mm <> ("-" <> (n.unix t <> ".mp4")) =
            assoc ∙ ap (λ x. mm <> x) inner in
          rw (e, ← name_eq) (is_mp4-append (mm <> ("-" <> n.unix t)))
      | inr e ↦ rw e (is_mp4-append (n.minute_second t))
    ]

pub moved-seen :
    (n : Names) (t : Texts) (settle now : ℕ) (streams : List RecordingStream) (s : RecordingStream)
    (tree : List Entry) (e : Staged)
    → is_ready settle now e ≡ true
    → In s streams
    → Sole n streams s
    → IsShown n (staged_start n e.entry) (target_name n s (staged_start n e.entry) tree)
    → is_kept_out now s e.entry ≡ false
    → let m = moved n s tree e.entry in
      seen n t settle now streams m ≡ listed (found_file n t s (staged_start n e.entry) m)
unfolding seen
moved-seen n t settle now streams s tree e ready i sole shown kept =
    let started = staged_start n e.entry in
    rw
      (
        target_mp4 n s started tree,
        metadata_found n streams s started (target_name n s started tree) i sole shown,
      )
      (ground (arith, ready, kept))

-- What a walk that does not fail has listed, from the walk over the rest.
walked_lists :
    (x : Seen) (e : Entry) (r : Option (List RecordingFile) × List Entry) (es : List Entry)
    {files : List RecordingFile}
    → (walked x e r es).0 ≡ some files
    → (fs : List RecordingFile) × (r.0 ≡ some fs)
      × ((g : RecordingFile) → In g fs → In g files)
      × ((f : RecordingFile) → x ≡ listed f → In f files)
walked_lists passed e (o, left) es {files} h = (files, h, λ g i. i, λ f c. absurd cc)
walked_lists deleted e (o, left) es {files} h = (files, h, λ g i. i, λ f c. absurd cc)
walked_lists stuck e (o, left) es h = cc
walked_lists (listed f) e (none, left) es h = cc
walked_lists (listed f) e (some fs, left) es {files} h =
    let files_eq : f ∷ fs ≡ files = ground (arith, h) in
    (
      fs,
      refl,
      λ g i. subst (λ l. In g l) files_eq (there i),
      λ g c.
          let same : f ≡ g = ground (arith, c) in
          subst (λ l. In g l) files_eq (subst (λ y. In y (f ∷ fs)) same here),
    )

pub walk_lists :
    (n : Names) (t : Texts) (settle now : ℕ) (streams : List RecordingStream) (es : List Entry)
    {e : Entry} {f : RecordingFile} {files : List RecordingFile}
    → In e es
    → seen n t settle now streams e ≡ listed f
    → (walk n t settle now streams es).0 ≡ some files
    → In f files
unfolding walk
walk_lists n t settle now streams [] i h ok = elim i [ ]
walk_lists n t settle now streams (x ∷ es) {f = f} here h ok =
    let (fs, _, _, own) = walked_lists _ x (walk n t settle now streams es) es ok in own f h
walk_lists n t settle now streams (x ∷ es) {f = f} (there i) h ok =
    let (fs, rest, later, _) = walked_lists _ x (walk n t settle now streams es) es ok in
    later f (walk_lists n t settle now streams es i h rest)
