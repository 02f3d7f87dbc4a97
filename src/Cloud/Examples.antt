-- ===== src/Cloud/Examples.antt =====
-- A concrete pass of syncCloudRecordings.
use cloud_nvr.Base.{
  ◌<>◌, true, false, none, some, List, [], ◌∷◌, string_eq, All, refl, ◌≡◌, arith, eq_iff,
}
use cloud_nvr.Domain.{access_agent, mode_hybrid, transfer_none}
use cloud_nvr.Store.Cameras.{Camera}
use cloud_nvr.Media.Storage.Space.{deleted}
use cloud_nvr.Media.Segments.Sidecar.{RecordingFile}
use cloud_nvr.Cloud.{Tools, World, Kept, cloud_streams, ids_of, sync_cloud_recordings}
use cloud_nvr.Store.Recordings.{contains}
use cloud_nvr.Store.Recordings.Reconciled.{reported}
use cloud_nvr.Cloud.Indexed.{recordings_from, sync_cloud_recordings-reported}

abbrev camera : Camera
camera = record {
  id = "cam";
  site_id = "north";
  name = "Door";
  stream_url = "";
  access_mode = access_agent;
  recording_mode = mode_hybrid;
  local_days = 7;
  cloud_days = 30;
  transfer_policy = transfer_none;
  enabled = true;
  manual_recording = false;
  ptz_enabled = false;
  ptz_endpoint = "";
  ptz_username = "";
  ptz_password = none;
}

abbrev tools : Tools
tools = record {
  publish_url = λ id. some ("rtsp://media/camera-" <> id);
  decrypt = λ s. some s;
  format_uint = λ n. "30";
  show_duration = λ n. "0s";
}

abbrev files : List RecordingFile
files =
    record {
      camera_id = "cam";
      storage_key = "k";
      started_at = 1;
      ended_at = 2;
      size_bytes = 3;
      checksum = "";
    }
    ∷ []

abbrev world : World
world = record {
  cameras = some (camera ∷ []);
  enforced = deleted 0;
  scanned = λ streams. some files;
  token = some "t";
  indexing = λ n. record { id = "r"; stored = true };
  reconciled = true;
  now = 100;
  pruned = λ id. true;
}

abbrev kept : Kept
kept = record { recorders = record { workers = []; contexts = 0; cancelled = [] }; rows = [] }

sync_cloud_recordings-reported_example :
    All
      (λ x.
        x.source ≡ "cloud"
        → contains (ids_of (cloud_streams tools (camera ∷ []))) x.camera_id ≡ true
        → reported (recordings_from world.indexing 0 files) x.source x.storage_key ≡ true)
      (sync_cloud_recordings tools world kept).1.rows
sync_cloud_recordings-reported_example =
    sync_cloud_recordings-reported tools world kept (camera ∷ []) 0 files "t" refl refl refl refl
      refl (λ n. refl) (ground (arith, eq_iff "t" "")) tt
