-- ===== src/Server/Commands.antt =====
-- internal/cloud/ptz_handlers.go: a viewer's command for a camera, up to its answer, and the result
-- that an agent reports. `F` is float64, with the tests of a velocity.
pub mod Accepted
pub mod Answered
use cloud_nvr.Base.{
  ℕ, String, Bool, true, false, not, ◌&&◌, ◌||◌, Option, none, some, List, if◌then◌else◌, ◌==◌,
  string_eq,
}
use cloud_nvr.Domain.{access_agent, access_beq}
use cloud_nvr.Store.Cameras.{Camera, camera_ptz}
use cloud_nvr.Ptz.{PtzCommand, PtzResult, PtzBroker, resolve}
use cloud_nvr.Server.Cameras.{Env, valid_http_url}

-- The tests `v < -1 || v > 1` and `v == 0`.
pub record Velocity (F : Type 0) : Type 0 where
  pub is_out : F → Bool
  pub is_zero : F → Bool

pub record Wish (F : Type 0) : Type 0 where
  pub action : String
  pub pan : F
  pub tilt : F
  pub zoom : F

-- What controlPTZ does with a wish: an answer of 400, 404, 500 or 409, a command for the agent of a
-- site, or a command that the server sends to the camera itself.
pub data Decision (F : Type 0) : Type 0 where
  bad_action bad_movement missing internal_error conflict : Decision F
  enqueues : String → PtzCommand F → Decision F
  executes : PtzCommand F → Decision F

-- How the wait for an agent ends, and the answer with it: 200, 502 with a message, 202, or none.
pub data Waited : Type 0 where
  completed : PtzResult → Waited
  timed_out gone : Waited

pub data Told : Type 0 where
  executed queued nothing : Told
  rejected : String → Told

unfoldable pub told : Waited → Told
told (completed r) =
    if r.success
    then executed
    else rejected (if r.message == "" then "camera rejected the PTZ command" else r.message)
told timed_out = queued
told gone = nothing

abbrev pub action_of : {F : Type 0} → Wish F → String
action_of w = if w.action == "" then "move" else w.action

abbrev pub is_action : String → Bool
is_action a = a == "move" || a == "set_home" || a == "goto_home"

abbrev pub is_bad_move : {F : Type 0} → Velocity F → Wish F → Bool
is_bad_move v w =
    v.is_out w.pan
    || v.is_out w.tilt
    || v.is_out w.zoom
    || v.is_zero w.pan && v.is_zero w.tilt && v.is_zero w.zoom

abbrev pub command_of : {F : Type 0} → String → Camera → String → Wish F → PtzCommand F
command_of id c password w = record {
  id = id;
  camera_id = c.id;
  action = action_of w;
  endpoint = c.ptz_endpoint;
  username = c.ptz_username;
  password = password;
  pan = w.pan;
  tilt = w.tilt;
  zoom = w.zoom;
}

abbrev pub with_id : {F : Type 0} → Camera → String → Wish F → Option String → Decision F
with_id c password w none = internal_error
with_id c password w (some id) =
    if access_beq c.access_mode access_agent
    then enqueues c.site_id (command_of id c password w)
    else executes (command_of id c password w)

abbrev pub with_password :
    {F : Type 0} → Camera → Wish F → Option String → Option String → Decision F
with_password c w new_id none = internal_error
with_password c w new_id (some password) = with_id c password w new_id

abbrev pub password_of : (String → Option String) → String → Option String
password_of decrypt encrypted = if encrypted == "" then some "" else decrypt encrypted

abbrev pub for_camera :
    {F : Type 0}
    → Env
    → (String → Option String)
    → Wish F
    → Option String
    → Option (Camera × String)
    → Decision F
for_camera env decrypt w new_id none = missing
for_camera env decrypt w new_id (some (c, encrypted)) =
    if not c.enabled || not c.ptz_enabled || not (valid_http_url env c.ptz_endpoint)
    then conflict
    else with_password c w new_id (password_of decrypt encrypted)

module _ {F : Type 0} (v : Velocity F) (env : Env) (decrypt : String → Option String) where
  -- controlPTZ; `fault` is an error of the database and `new_id` what id.New gives.
  unfoldable pub control_ptz : Bool → Option String → String → Wish F → List Camera → Decision F
  control_ptz fault new_id id w cs =
      if not (is_action (action_of w))
      then bad_action
      else if action_of w == "move" && is_bad_move v w
      then bad_movement
      else if fault
      then internal_error
      else for_camera env decrypt w new_id (camera_ptz id cs)

-- completePTZCommand: was the command found, and the broker; `cut` keeps the first 500 bytes of a
-- message. `none` is as in the broker.
unfoldable pub complete_ptz_command :
    {F : Type 0}
    → (String → String)
    → String
    → String
    → PtzResult
    → PtzBroker F
    → Option (Bool × PtzBroker F)
complete_ptz_command cut site id r = resolve site (record r { id = id; message = cut r.message })
