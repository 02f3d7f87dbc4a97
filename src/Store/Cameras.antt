-- ===== src/Store/Cameras.antt =====
-- The table `cameras` of internal/store/store.go.
pub mod Updates
use cloud_nvr.Base.{
  ℕ, String, Bool, true, false, not, ◌&&◌, ◌||◌, Option, none, some, List, [], ◌∷◌, ◌==◌, string_eq,
  nat_eq, if◌then◌else◌, ◌++◌, filter,
}
use cloud_nvr.Domain.{
  AccessMode, RecordingMode, mode_manual, TransferPolicy, access_beq, mode_beq, policy_beq,
  bool_beq,
}
use cloud_nvr.Store.Recordings.{coalesce}
use cloud_nvr.Store.Enrollment.{Outcome, ok, not_found, Agent}

-- domain.Camera with its secrets.
pub record Camera : Type 0 where
  pub id : String
  pub site_id : String
  pub name : String
  pub stream_url : String
  pub access_mode : AccessMode
  pub recording_mode : RecordingMode
  pub local_days : ℕ
  pub cloud_days : ℕ
  pub transfer_policy : TransferPolicy
  pub enabled : Bool
  pub manual_recording : Bool
  pub ptz_enabled : Bool
  pub ptz_endpoint : String
  pub ptz_username : String
  pub ptz_password : Option String

-- An UPDATE: did any row get another value, and the table. The driver reports the changed rows.
unfoldable pub update_cameras :
    (Camera → Bool)
    → (Camera → Camera)
    → (Camera → Camera → Bool)
    → List Camera
    → Bool × List Camera
update_cameras p f same [] = (false, [])
update_cameras p f same (c ∷ cs) =
    let (hit, rest) = update_cameras p f same cs in
    if p c then (not (same c (f c)) || hit, f c ∷ rest) else (hit, c ∷ rest)

abbrev pub answer : Bool × List Camera → Outcome × List Camera
answer (true, cs) = (ok, cs)
answer (false, cs) = (not_found, cs)

-- CreateCamera
unfoldable pub create_camera : Camera → List Camera → List Camera
create_camera c cs = cs ++ c ∷ []

-- ListCameras, in the order of creation. `none` asks for every access mode.
unfoldable pub list_cameras : String → Option AccessMode → List Camera → List Camera
list_cameras site none = filter (λ c. c.site_id == site)
list_cameras site (some mode) = filter (λ c. c.site_id == site && access_beq c.access_mode mode)

-- ListCamerasByAccessMode
unfoldable pub list_cameras_by_access_mode : AccessMode → List Camera → List Camera
list_cameras_by_access_mode mode = filter (λ c. access_beq c.access_mode mode)

unfoldable pub find_camera : String → List Camera → Option Camera
find_camera id [] = none
find_camera id (c ∷ cs) = let rest = find_camera id cs in if c.id == id then some c else rest

-- CameraExists
unfoldable pub camera_exists : String → List Camera → Bool
camera_exists id [] = false
camera_exists id (c ∷ cs) = let rest = camera_exists id cs in c.id == id || rest

unfoldable pub agent_of : String → List Agent → Option Agent
agent_of site [] = none
agent_of site (a ∷ as') = let rest = agent_of site as' in if a.site_id == site then some a else rest

-- CameraLive: the camera, and whether the agent of its site is online and does WebRTC.
unfoldable pub camera_live : String → List Camera → List Agent → Option (Camera × Bool × Bool)
unfolding find_camera agent_of
camera_live id cs agents = elim (find_camera id cs) [
  | none ↦ none
  | some c ↦ elim (agent_of c.site_id agents) [
    | none ↦ some (c, false, false)
    | some a ↦ some (c, a.online, a.webrtc_enabled)
  ]
]

abbrev pub same_manual : Camera → Camera → Bool
same_manual a b = bool_beq a.manual_recording b.manual_recording

-- SetManualRecording
unfoldable pub set_manual_recording : String → Bool → List Camera → Outcome × List Camera
set_manual_recording id active cs = answer (
    update_cameras (λ c. c.id == id && mode_beq c.recording_mode mode_manual)
      (λ c. record c { manual_recording = active }) same_manual cs)

abbrev pub same_policy : Camera → Camera → Bool
same_policy a b =
    mode_beq a.recording_mode b.recording_mode
    && a.local_days == b.local_days
    && a.cloud_days == b.cloud_days
    && policy_beq a.transfer_policy b.transfer_policy
    && bool_beq a.enabled b.enabled

-- UpdateCameraPolicy
unfoldable pub update_camera_policy :
    String → RecordingMode → ℕ → ℕ → TransferPolicy → Bool → List Camera → Outcome × List Camera
update_camera_policy id mode local_days cloud_days transfer enabled cs = answer (
    update_cameras (λ c. c.id == id)
      (λ c. record c {
        recording_mode = mode;
        local_days = local_days;
        cloud_days = cloud_days;
        transfer_policy = transfer;
        enabled = enabled;
      })
      same_policy cs)

abbrev pub same_secret : Option String → Option String → Bool
same_secret none none = true
same_secret (some a) (some b) = a == b
same_secret _ _ = false

abbrev pub same_camera : Camera → Camera → Bool
same_camera a b =
    a.name == b.name
    && a.stream_url == b.stream_url
    && access_beq a.access_mode b.access_mode
    && same_policy a b
    && bool_beq a.ptz_enabled b.ptz_enabled
    && a.ptz_endpoint == b.ptz_endpoint
    && a.ptz_username == b.ptz_username
    && same_secret a.ptz_password b.ptz_password

-- The columns that UpdateCamera sets; `none` is a nil pointer.
pub record Update : Type 0 where
  pub name : String
  pub stream_url : Option String
  pub ptz_password : Option String
  pub access_mode : AccessMode
  pub recording_mode : RecordingMode
  pub local_days : ℕ
  pub cloud_days : ℕ
  pub transfer_policy : TransferPolicy
  pub enabled : Bool
  pub ptz_enabled : Bool
  pub ptz_endpoint : String
  pub ptz_username : String

abbrev pub or_old : Option String → String → String
or_old none old = old
or_old (some s) old = s

abbrev pub updated : Update → Camera → Camera
updated u c = record c {
  name = u.name;
  stream_url = or_old u.stream_url c.stream_url;
  access_mode = u.access_mode;
  recording_mode = u.recording_mode;
  local_days = u.local_days;
  cloud_days = u.cloud_days;
  transfer_policy = u.transfer_policy;
  enabled = u.enabled;
  ptz_enabled = u.ptz_enabled;
  ptz_endpoint = u.ptz_endpoint;
  ptz_username = u.ptz_username;
  ptz_password = coalesce u.ptz_password c.ptz_password;
}

-- UpdateCamera
unfoldable pub update_camera : String → Update → List Camera → Outcome × List Camera
update_camera id u cs = answer (update_cameras (λ c. c.id == id) (updated u) same_camera cs)

abbrev pub with_secret : Option Camera → Option (Camera × String)
with_secret none = none
with_secret (some c) = some (c, or_old c.ptz_password "")

-- CameraPTZ: the camera, and its encrypted password or the empty text.
unfoldable pub camera_ptz : String → List Camera → Option (Camera × String)
unfolding find_camera
camera_ptz id cs = with_secret (find_camera id cs)
