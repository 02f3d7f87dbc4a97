-- ===== src/Server/Cameras.antt =====
-- internal/cloud/server.go: the handlers that make and change cameras. A mode comes as a text and
-- is stored as the mode that it names.
pub mod Sound
pub mod Created
mod Examples
use cloud_nvr.Base.{
  ℕ, String, ◌<>◌, Bool, true, false, not, ◌&&◌, ◌||◌, Option, none, some, List, if◌then◌else◌,
  ◌==◌, string_eq, nat_eq,
}
use cloud_nvr.Base.Prefix.{has_prefix, get_or}
use cloud_nvr.Config.{Url}
use cloud_nvr.Domain.{
  RecordingMode, mode_local, mode_cloud, mode_hybrid, mode_manual, mode_disabled, mode_valid,
  TransferPolicy, transfer_all, transfer_events, transfer_manual, transfer_events_and_manual,
  transfer_none, transfer_valid, AccessMode, access_agent, access_direct, access_valid,
}
use cloud_nvr.Store.Enrollment.{Outcome, ok, not_found, failed}
use cloud_nvr.Store.Recordings.{null_if_empty}
use cloud_nvr.Store.Cameras.{
  Camera, create_camera, Update, update_camera, update_camera_policy, set_manual_recording,
}

-- The modes by their texts; the last one stands for each text that is none.
unfoldable pub mode_of : String → RecordingMode
mode_of s =
    if s == "local"
    then mode_local
    else if s == "cloud"
    then mode_cloud
    else if s == "hybrid"
    then mode_hybrid
    else if s == "manual"
    then mode_manual
    else mode_disabled

unfoldable pub transfer_of : String → TransferPolicy
transfer_of s =
    if s == "all"
    then transfer_all
    else if s == "events"
    then transfer_events
    else if s == "manual"
    then transfer_manual
    else if s == "events_and_manual"
    then transfer_events_and_manual
    else transfer_none

unfoldable pub access_of : String → AccessMode
access_of s = if s == "agent" then access_agent else access_direct

-- strings.TrimSpace and ToLower, url.Parse, and the cipher, which may fail.
pub record Env : Type 0 where
  pub trim : String → String
  pub to_lower : String → String
  pub parse_url : String → Option Url
  pub contains_colon : String → Bool
  pub encrypt : String → Option String

-- The body of a request to make or change a camera; `enabled` is ignored by the first, and
-- `manual_recording` by the second.
pub record Body : Type 0 where
  pub name : String
  pub stream_url : String
  pub access_mode : String
  pub recording_mode : String
  pub transfer_policy : String
  pub local_days : ℕ
  pub cloud_days : ℕ
  pub enabled : Bool
  pub manual_recording : Bool
  pub ptz_enabled : Bool
  pub ptz_endpoint : String
  pub ptz_username : String
  pub ptz_password : String

-- The status of the answer: 400, 404, 409, 500, or one of success.
pub data Reply : Type 0 where
  bad_request missing conflict internal_error done : Reply

abbrev pub or_text : String → String → String
or_text value default = if value == "" then default else value

abbrev pub or_days : ℕ → ℕ → ℕ
or_days value default = if value == 0 then default else value

module _ (env : Env) where
  -- validStreamURL
  unfoldable pub valid_stream_url : String → Bool
  valid_stream_url v =
      let lower = env.to_lower (env.trim v) in
      has_prefix lower "rtsp://" || has_prefix lower "rtsps://"

  abbrev pub is_http : Option Url → Bool
  is_http none = false
  is_http (some u) = (u.scheme == "http" || u.scheme == "https") && not (u.host == "")

  -- validHTTPURL
  unfoldable pub valid_http_url : String → Bool
  valid_http_url value = is_http (env.parse_url (env.trim value))

  abbrev pub endpoint_at : Option Url → String
  endpoint_at none = ""
  endpoint_at (some u) =
      if u.hostname == ""
      then ""
      else "http://"
        <> ((if env.contains_colon u.hostname then "[" <> (u.hostname <> "]") else u.hostname)
            <> "/onvif/device_service")

  -- defaultONVIFEndpoint
  unfoldable pub default_onvif_endpoint : String → String
  default_onvif_endpoint stream_url = endpoint_at (env.parse_url stream_url)

  -- The defaults of createCamera.
  abbrev pub with_defaults : Body → Body
  with_defaults b = record b {
    name = env.trim b.name;
    recording_mode = or_text b.recording_mode "hybrid";
    transfer_policy = or_text b.transfer_policy "events_and_manual";
    access_mode = or_text b.access_mode "agent";
    local_days = or_days b.local_days 7;
    cloud_days = or_days b.cloud_days 30;
  }

  abbrev pub has_modes : Body → Bool
  has_modes b =
      access_valid b.access_mode && mode_valid b.recording_mode && transfer_valid b.transfer_policy

  abbrev pub new_camera : String → String → Body → String → String → Option String → Camera
  new_camera site id b stream endpoint password = record {
    id = id;
    site_id = site;
    name = b.name;
    stream_url = stream;
    access_mode = access_of b.access_mode;
    recording_mode = mode_of b.recording_mode;
    local_days = b.local_days;
    cloud_days = b.cloud_days;
    transfer_policy = transfer_of b.transfer_policy;
    enabled = true;
    manual_recording = b.manual_recording;
    ptz_enabled = b.ptz_enabled;
    ptz_endpoint = endpoint;
    ptz_username = b.ptz_username;
    ptz_password = password;
  }

  -- The password as it is stored: not at all if there is none or PTZ is off.
  abbrev pub kept_password : Body → Option (Option String)
  kept_password b =
      if not b.ptz_enabled || b.ptz_password == ""
      then some none
      else (elim (env.encrypt b.ptz_password) [ none ↦ none | some p ↦ some (null_if_empty p) ])

  -- The INSERT; `fault` is an error of the database.
  abbrev pub insert_with :
      Bool
      → String
      → String
      → Body
      → String
      → String
      → Option (Option String)
      → List Camera
      → Reply × List Camera
  insert_with fault site id b stream endpoint none cs = (internal_error, cs)
  insert_with fault site id b stream endpoint (some password) cs =
      if fault
      then (internal_error, cs)
      else (done, create_camera (new_camera site id b stream endpoint password) cs)

  abbrev pub create_with :
      Bool → String → String → Body → Option String → List Camera → Reply × List Camera
  create_with fault site id b none cs = (internal_error, cs)
  create_with fault site id b (some stream) cs =
      let endpoint =
        if b.ptz_enabled
        then or_text b.ptz_endpoint (default_onvif_endpoint b.stream_url)
        else b.ptz_endpoint in
      if b.ptz_enabled && not (valid_http_url endpoint)
      then (bad_request, cs)
      else insert_with fault site id b stream endpoint (kept_password b) cs

  -- createCamera, after the body was read. `id` is what id.New gives.
  unfoldable pub create : Bool → String → String → Body → List Camera → Reply × List Camera
  create fault site id body cs =
      let b = with_defaults body in
      if b.name == "" || not (valid_stream_url b.stream_url) || not (has_modes b)
      then (bad_request, cs)
      else create_with fault site id b (env.encrypt b.stream_url) cs

  abbrev pub reply_of : Outcome × List Camera → Reply × List Camera
  reply_of (ok, cs) = (done, cs)
  reply_of (not_found, cs) = (missing, cs)
  reply_of (failed, cs) = (internal_error, cs)

  -- What an optional secret of an update becomes: kept, replaced, or an error of the cipher.
  abbrev pub secret_of : String → Option (Option String)
  secret_of s =
      if s == "" then some none else (elim (env.encrypt s) [ none ↦ none | some p ↦ some (some p) ])

  abbrev pub update_of : Body → String → Option String → Option String → Update
  update_of b endpoint stream password = record {
    name = b.name;
    stream_url = stream;
    ptz_password = password;
    access_mode = access_of b.access_mode;
    recording_mode = mode_of b.recording_mode;
    local_days = b.local_days;
    cloud_days = b.cloud_days;
    transfer_policy = transfer_of b.transfer_policy;
    enabled = b.enabled;
    ptz_enabled = b.ptz_enabled;
    ptz_endpoint = endpoint;
    ptz_username = env.trim b.ptz_username;
  }

  abbrev pub update_secret :
      Bool
      → String
      → Body
      → String
      → Option String
      → Option (Option String)
      → List Camera
      → Reply × List Camera
  update_secret fault id b endpoint stream none cs = (internal_error, cs)
  update_secret fault id b endpoint stream (some password) cs =
      if fault
      then (internal_error, cs)
      else reply_of (update_camera id (update_of b endpoint stream password) cs)

  abbrev pub update_with :
      Bool → String → Body → Option (Option String) → List Camera → Reply × List Camera
  update_with fault id b none cs = (internal_error, cs)
  update_with fault id b (some stream) cs =
      let given = env.trim b.ptz_endpoint in
      let endpoint =
        if b.ptz_enabled && given == "" && not (b.stream_url == "")
        then default_onvif_endpoint b.stream_url
        else given in
      if b.ptz_enabled && not (valid_http_url endpoint)
      then (bad_request, cs)
      else update_secret fault id b endpoint stream (secret_of b.ptz_password) cs

  -- updateCamera, after the body was read.
  unfoldable pub update : Bool → String → Body → List Camera → Reply × List Camera
  update fault id body cs =
      let b = record body { name = env.trim body.name; stream_url = env.trim body.stream_url } in
      if b.name == "" || not (has_modes b)
      then (bad_request, cs)
      else if not (b.stream_url == "") && not (valid_stream_url b.stream_url)
      then (bad_request, cs)
      else update_with fault id b (secret_of b.stream_url) cs

  -- updateCameraPolicy: of the body only the modes, the days and `enabled` count.
  unfoldable pub update_policy : Bool → String → Body → List Camera → Reply × List Camera
  update_policy fault id b cs =
      if not (mode_valid b.recording_mode) || not (transfer_valid b.transfer_policy)
      then (bad_request, cs)
      else if fault
      then (internal_error, cs)
      else reply_of (
          update_camera_policy id (mode_of b.recording_mode) b.local_days b.cloud_days
            (transfer_of b.transfer_policy) b.enabled cs)

  abbrev pub manual_reply : Outcome × List Camera → Reply × List Camera
  manual_reply (ok, cs) = (done, cs)
  manual_reply (not_found, cs) = (conflict, cs)
  manual_reply (failed, cs) = (internal_error, cs)

  -- setManualRecording
  unfoldable pub set_manual : Bool → String → Bool → List Camera → Reply × List Camera
  set_manual fault id active cs =
      if fault then (internal_error, cs) else manual_reply (set_manual_recording id active cs)
