-- ===== src/Agent/Examples.antt =====
-- Concrete runs of an upload and of the supervision of an agent.
use cloud_nvr.Base.{
  ℕ, Option, ◌*◌, ◌≡◌, refl, Bool, true, false, none, some, [], ◌∷◌, arith, ltb, if◌then◌else◌,
  string_eq,
}
use cloud_nvr.Base.Dict.{NodupKeys}
use cloud_nvr.Base.Time.{second}
use cloud_nvr.Config.{pos}
use cloud_nvr.Agent.Client.{Try, no_response, status, uploaded, upload_playback}
use cloud_nvr.Agent.Client.Attempts.{Ends, Persists, upload_playback-Ends, upload_playback-succeeds}
use cloud_nvr.Agent.Media.{Assigned, Site, Running, Disk}
use cloud_nvr.Domain.{access_agent, mode_hybrid, transfer_none}
use cloud_nvr.Media.Workers.{Manager}
use cloud_nvr.Media.Storage.Identity.{Outcome, absent}

-- Two attempts without an answer, then the cloud accepts.
abbrev met : ℕ → Try
met n = if ltb n 3 then no_response else status 201

abbrev lasting : ℕ → Bool
lasting _ = false

upload_playback-Ends_example : Ends met lasting 1 5 (upload_playback met lasting (pos 5))
upload_playback-Ends_example = upload_playback-Ends met lasting (pos 5)

met-Persists : Persists met lasting 1 3
met-Persists j ge lt =
    let early : met j ≡ no_response = ground (arith, ge, lt) in
    (rw early ((λ a. a), (λ a. a)), refl)

upload_playback-succeeds_example :
    ((upload_playback met lasting (pos 5)).outcome ≡ uploaded)
    × ((upload_playback met lasting (pos 5)).tries ≡ 3)
upload_playback-succeeds_example =
    upload_playback-succeeds met lasting (pos 5) 3 (omega arith) (omega arith) met-Persists
      (omega arith, omega arith)

abbrev door : Assigned
door = record {
  camera = record {
    id = "cam";
    site_id = "north";
    name = "Door";
    stream_url = "rtsp://door";
    access_mode = access_agent;
    recording_mode = mode_hybrid;
    local_days = 7;
    cloud_days = 30;
    transfer_policy = transfer_none;
    enabled = true;
    manual_recording = false;
    ptz_enabled = false;
    ptz_endpoint = "";
    ptz_username = "";
    ptz_password = none;
  };
  publish_url = "rtsp://cloud/camera-cam";
}

abbrev site : Site
site = record {
  webrtc_enabled = true;
  minimum_free_bytes = 100;
  segment_time = 60 * second;
  local_url = λ id. some "rtsp://local/camera-cam";
  show_duration = λ _. "0s";
  format_uint = λ _. "7";
}

abbrev idle : Manager
idle = record { workers = []; contexts = 0; cancelled = [] }

abbrev running : Running
running = record {
  relays = idle;
  local_relays = some idle;
  recorders = idle;
  storage = record { identity_file = absent; marker = absent };
}

abbrev calm : Outcome
calm = record {
  parent_made = true;
  base_made = true;
  random_ok = true;
  random = b'a' ∷ [];
  marker_failure = none;
  identity_failure = none;
}

abbrev disk : Disk
disk = record {
  ensured = calm;
  enforced = calm;
  statfs = some (record { blocks = 10; bavail = 5; bsize = 100 });
  now = 0;
  walk_ok = true;
  files = [];
}

abbrev KeyedIf : Option Manager → Type 0
KeyedIf none = Unit
KeyedIf (some m) = NodupKeys m.workers
