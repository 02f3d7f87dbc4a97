-- ===== src/Cloud.antt =====
-- cmd/cloud/main.go: the loops of the cloud server that follow the cameras. Tickers and logs are
-- left out, but a pass says whether the loop waits for its ticker after it.
pub mod Indexed
mod Examples
use cloud_nvr.Base.{
  ℕ, suc, ◌+◌, ◌-◌, ◌*◌, String, Bool, true, false, not, ◌&&◌, ◌||◌, Option, none, some, List, [],
  ◌∷◌, map, if◌then◌else◌, ◌==◌, nat_eq, string_eq,
}
use cloud_nvr.Base.Time.{day}
use cloud_nvr.Domain.{
  access_direct, access_beq, mode_cloud, mode_hybrid, mode_local, mode_manual, mode_beq,
}
use cloud_nvr.Store.Cameras.{Camera}
use cloud_nvr.Store.Recordings.{
  Recording, Row, upsert_recording_inventory, reconcile_recording_inventory, prune_cloud_recordings,
}
use cloud_nvr.Media.Storage.Space.{Reclaimed, deleted, failed}
use cloud_nvr.Media.Workers.{Manager}
use cloud_nvr.Media.Workers.Relay.{Stream, reconcile_relays}
use cloud_nvr.Media.Workers.Recorder.{RecordingStream, reconcile_recorders}
use cloud_nvr.Media.Segments.Sidecar.{RecordingFile}

-- `cloudRecording` of syncCloudRecordings.
unfoldable pub records_in_cloud : Camera → Bool
records_in_cloud c =
    mode_beq c.recording_mode mode_cloud
    || mode_beq c.recording_mode mode_hybrid
    || access_beq c.access_mode access_direct && mode_beq c.recording_mode mode_local
    || mode_beq c.recording_mode mode_manual && c.manual_recording

abbrev pub retention_of : Camera → ℕ
retention_of c =
    if access_beq c.access_mode access_direct && mode_beq c.recording_mode mode_local
    then c.local_days
    else c.cloud_days

-- media.PublishURL for the camera with an id, the cipher, and how the fingerprints show a number.
pub record Tools : Type 0 where
  pub publish_url : String → Option String
  pub decrypt : String → Option String
  pub format_uint : ℕ → String
  pub show_duration : ℕ → String

module _ (tools : Tools) where
  abbrev pub add_stream : Camera → Option String → List RecordingStream → List RecordingStream
  add_stream c none rest = rest
  add_stream c (some url) rest =
      record {
        id = c.id;
        name = c.name;
        input_url = url;
        retention_days = retention_of c;
        enabled = true;
      }
      ∷ rest

  -- The streams of the recorders.
  unfoldable pub cloud_streams : List Camera → List RecordingStream
  cloud_streams [] = []
  cloud_streams (c ∷ cs) =
      let rest = cloud_streams cs in
      if not c.enabled || not (records_in_cloud c)
      then rest
      else add_stream c (tools.publish_url c.id) rest

  abbrev pub add_relay : Camera → Option String → Option String → List Stream → List Stream
  add_relay c (some input) (some output) rest =
      record {
        id = c.id;
        name = "";
        input_url = input;
        output_url = output;
        recording_path = "";
        segment_time = 0;
        enabled = c.enabled;
      }
      ∷ rest
  add_relay c _ _ rest = rest

  -- The streams of syncDirectCameras; the camera holds its URL encrypted.
  unfoldable pub direct_streams : List Camera → List Stream
  direct_streams [] = []
  direct_streams (c ∷ cs) =
      let rest = direct_streams cs in
      add_relay c (tools.decrypt c.stream_url) (tools.publish_url c.id) rest

  -- A round of syncDirectCameras; `none` is an error of the database.
  unfoldable pub sync_direct_cameras : Option (List Camera) → Manager → Manager
  sync_direct_cameras none m = m
  sync_direct_cameras (some cs) m = reconcile_relays tools.show_duration (direct_streams cs) m

-- The new id of a row, and whether the database takes it.
pub record Indexing : Type 0 where
  pub id : String
  pub stored : Bool

abbrev pub recording_of : String → RecordingFile → Recording
recording_of id f = record {
  id = id;
  camera_id = f.camera_id;
  source = "cloud";
  storage_key = f.storage_key;
  checksum = f.checksum;
  started_at = f.started_at;
  ended_at = some f.ended_at;
  size_bytes = f.size_bytes;
  event_type = "continuous";
}

-- The loop over the files, from a position on: were all of them stored, and the table.
unfoldable pub index_from :
    String → (ℕ → Indexing) → ℕ → List RecordingFile → List Row → Bool × List Row
index_from token indexing n [] rows = (true, rows)
index_from token indexing n (f ∷ fs) rows =
    let i = indexing n in
    let next =
      if i.stored then upsert_recording_inventory (recording_of i.id f) token rows else rows in
    let (complete, after) = index_from token indexing (suc n) fs next in
    (i.stored && complete, after)

abbrev pub ids_of : List RecordingStream → List String
ids_of = map (λ s. s.id)

-- The loop that applies the retention of each camera; `pruned` is whether the database does.
unfoldable pub prune_streams : ℕ → (String → Bool) → List RecordingStream → List Row → List Row
prune_streams now pruned [] rows = rows
prune_streams now pruned (s ∷ ss) rows = prune_streams now pruned ss (
    if not (s.retention_days == 0) && pruned s.id
    then prune_cloud_recordings s.id (now - s.retention_days * day) rows
    else rows)

-- What a pass of syncCloudRecordings meets. `scanned` is the result of ScanRecordings with the
-- checksums that PopulateChecksums could add.
pub record World : Type 0 where
  pub cameras : Option (List Camera)
  pub enforced : Reclaimed
  pub scanned : List RecordingStream → Option (List RecordingFile)
  pub token : Option String
  pub indexing : ℕ → Indexing
  pub reconciled : Bool
  pub now : ℕ
  pub pruned : String → Bool

pub record Kept : Type 0 where
  pub recorders : Manager
  pub rows : List Row

-- The removal of what was not scanned, if all of it was stored.
abbrev pub reconciled_rows : World → List RecordingStream → String → Bool × List Row → List Row
reconciled_rows w streams token (complete, rows) =
    if complete && w.reconciled
    then (reconcile_recording_inventory "cloud" (ids_of streams) token rows).1
    else rows

-- The pass once the files are known: does the loop wait for its ticker, and the table.
abbrev pub indexed :
    World → List RecordingStream → List RecordingFile → Option String → List Row → Bool × List Row
indexed w streams files none rows = (false, rows)
indexed w streams files (some token) rows = (
  true,
  prune_streams w.now w.pruned streams
      (reconciled_rows w streams token (index_from token w.indexing 0 files rows)),
)

abbrev pub scanned_rows :
    World → List RecordingStream → Option (List RecordingFile) → List Row → Bool × List Row
scanned_rows w streams none rows = (true, rows)
scanned_rows w streams (some files) rows = indexed w streams files w.token rows

abbrev pub on_cameras : Tools → World → List Camera → Reclaimed → Kept → Bool × Kept
on_cameras tools w cs (failed _) k =
    (true, record k { recorders = reconcile_recorders tools.format_uint [] k.recorders })
on_cameras tools w cs (deleted _) k =
    let streams = cloud_streams tools cs in
    let (waits, rows) = scanned_rows w streams (w.scanned streams) k.rows in
    (
      waits,
      record { recorders = reconcile_recorders tools.format_uint streams k.recorders; rows = rows },
    )

abbrev pub on_lookup : Tools → World → Option (List Camera) → Kept → Bool × Kept
on_lookup tools w none k = (true, k)
on_lookup tools w (some cs) k = on_cameras tools w cs w.enforced k

-- A pass of syncCloudRecordings.
unfoldable pub sync_cloud_recordings : Tools → World → Kept → Bool × Kept
sync_cloud_recordings tools w k = on_lookup tools w w.cameras k
