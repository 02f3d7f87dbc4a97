-- ===== src/Agent/Media.antt =====
-- cmd/agent/main.go, reconcileMedia: the relays and the recorders that run on an agent for the
-- configuration that it has.
pub mod Paused
use cloud_nvr.Base.{
  ℕ, ◌*◌, String, Bool, true, false, ◌&&◌, Option, none, some, List, [], ◌∷◌, map, if◌then◌else◌,
}
use cloud_nvr.Store.Cameras.{Camera}
use cloud_nvr.Sync.Agent.{records_locally}
use cloud_nvr.Media.Storage.Identity
use cloud_nvr.Media.Storage.Identity.{Storage, Outcome, ensure_recording_storage}
use cloud_nvr.Media.Storage.Space.{
  Statfs, VideoFile, Reclaimed, deleted, failed, enforce_minimum_free_space,
}
use cloud_nvr.Media.Workers.{Manager}
use cloud_nvr.Media.Workers.Relay.{Stream, reconcile_relays}
use cloud_nvr.Media.Workers.Recorder.{RecordingStream, reconcile_recorders}

-- A camera of agent.RemoteConfig, with its PublishURL.
pub record Assigned : Type 0 where
  pub camera : Camera
  pub publish_url : String

-- The settings that count, media.PublishURL for the local media server, and how the fingerprints
-- show a number.
pub record Site : Type 0 where
  pub webrtc_enabled : Bool
  pub minimum_free_bytes : ℕ
  pub segment_time : ℕ
  pub local_url : String → Option String
  pub show_duration : ℕ → String
  pub format_uint : ℕ → String

-- The managers, and the storage of the recordings. `local_relays` is nil without WebRTC.
pub record Running : Type 0 where
  pub relays : Manager
  pub local_relays : Option Manager
  pub recorders : Manager
  pub storage : Storage

-- What the file system does meanwhile.
pub record Disk : Type 0 where
  pub ensured : Outcome
  pub enforced : Outcome
  pub statfs : Option Statfs
  pub now : ℕ
  pub walk_ok : Bool
  pub files : List VideoFile

module _ (site : Site) where
  -- The URL of the local media server for a camera, if the agent has one.
  abbrev pub local_of : Assigned → Option String
  local_of a = if site.webrtc_enabled then site.local_url a.camera.id else none

  abbrev pub url_or : String → Option String → String
  url_or url none = url
  url_or url (some local) = local

  abbrev pub input_of : Assigned → String
  input_of a = url_or a.camera.stream_url (local_of a)

  abbrev pub relay_of : Assigned → String → String → Stream
  relay_of a input output = record {
    id = a.camera.id;
    name = a.camera.name;
    input_url = input;
    output_url = output;
    recording_path = "";
    segment_time = 0;
    enabled = a.camera.enabled;
  }

  abbrev pub add_local : Assigned → Option String → List Stream → List Stream
  add_local a none rest = rest
  add_local a (some url) rest = relay_of a a.camera.stream_url url ∷ rest

  -- The three lists of streams.
  unfoldable pub local_streams : List Assigned → List Stream
  local_streams [] = []
  local_streams (a ∷ as') = let rest = local_streams as' in add_local a (local_of a) rest

  abbrev pub streams : List Assigned → List Stream
  streams = map (λ a. relay_of a (input_of a) a.publish_url)

  abbrev pub recording_of : Assigned → RecordingStream
  recording_of a = record {
    id = a.camera.id;
    name = a.camera.name;
    input_url = input_of a;
    retention_days = a.camera.local_days;
    enabled = a.camera.enabled && records_locally a.camera;
  }

  abbrev pub recording_streams : List Assigned → List RecordingStream
  recording_streams = map recording_of

  abbrev pub reconcile_local : List Assigned → Option Manager → Option Manager
  reconcile_local as' none = none
  reconcile_local as' (some m) = some (reconcile_relays site.show_duration (local_streams as') m)

  abbrev pub relayed : List Assigned → Running → Running
  relayed as' r = record r {
    local_relays = reconcile_local as' r.local_relays;
    relays = reconcile_relays site.show_duration (streams as') r.relays;
  }

  abbrev pub record_on : List RecordingStream → Running → Running
  record_on l r = record r { recorders = reconcile_recorders site.format_uint l r.recorders }

  -- The result is whether it is nil.
  abbrev pub enforced_with : List Assigned → Running → Reclaimed → Bool × Running
  enforced_with as' r (failed _) = (false, record_on [] r)
  enforced_with as' r (deleted n) = (true, record_on (recording_streams as') r)

  abbrev pub ensured_with :
      Disk → List Assigned → Running → Identity.Result → Storage → Bool × Running
  ensured_with disk as' r (Identity.err _) s = (false, record_on [] (record r { storage = s }))
  ensured_with disk as' r Identity.ok s =
      let ((result, gone), s') =
        enforce_minimum_free_space disk.enforced disk.statfs site.minimum_free_bytes
          (2 * site.segment_time) disk.now disk.walk_ok disk.files s in
      enforced_with as' (record r { storage = s' }) result

  -- reconcileMedia
  unfoldable pub reconcile_media : Disk → List Assigned → Running → Bool × Running
  reconcile_media disk as' r =
      let (result, s) = ensure_recording_storage disk.ensured r.storage in
      ensured_with disk as' (relayed as' r) result s
