-- ===== src/Server/Cameras/Examples.antt =====
-- Concrete runs of the camera handlers and of a command.
use cloud_nvr.Base.{
  ℕ, ◌≡◌, refl, ◌<>◌, true, false, none, some, [], string_eq, nat_eq, ◌==◌, if◌then◌else◌, All,
}
use cloud_nvr.Base.Prefix.{without_prefix}
use cloud_nvr.Domain.{
  access_agent, mode_hybrid, transfer_none, mode_valid, transfer_valid, access_valid,
}
use cloud_nvr.Store.Cameras.{Camera}
use cloud_nvr.Server.Cameras.{
  Env, Body, done, create, valid_stream_url, valid_http_url, default_onvif_endpoint,
}
use cloud_nvr.Server.Cameras.Sound.{IsSound, creates, apply, apply-IsSound}
use cloud_nvr.Server.Commands.{Velocity, Wish}

abbrev env : Env
env = record {
  trim = λ s. s;
  to_lower = λ s. s;
  parse_url = λ s.
      if s == "" then none else some (record { scheme = "http"; host = "cam"; hostname = "cam" });
  contains_colon = λ s. false;
  encrypt = λ s. some ("#" <> s);
}

abbrev body : Body
body = record {
  name = "Door";
  stream_url = "rtsp://door";
  access_mode = "";
  recording_mode = "manual";
  transfer_policy = "";
  local_days = 0;
  cloud_days = 5;
  enabled = false;
  manual_recording = false;
  ptz_enabled = true;
  ptz_endpoint = "";
  ptz_username = "u";
  ptz_password = "p";
}

body_done : (create env false "north" "cam" body []).0 ≡ done
unfolding create valid_stream_url valid_http_url default_onvif_endpoint mode_valid transfer_valid
    access_valid without_prefix
body_done = refl

abbrev velocity : Velocity ℕ
velocity = record { is_out = λ n. false; is_zero = λ n. n == 0 }

abbrev wish : Wish ℕ
wish = record { action = ""; pan = 1; tilt = 0; zoom = 0 }

abbrev camera : Camera
camera = record {
  id = "cam";
  site_id = "north";
  name = "Door";
  stream_url = "";
  access_mode = access_agent;
  recording_mode = mode_hybrid;
  local_days = 7;
  cloud_days = 30;
  transfer_policy = transfer_none;
  enabled = true;
  manual_recording = false;
  ptz_enabled = true;
  ptz_endpoint = "http://cam/onvif/device_service";
  ptz_username = "";
  ptz_password = none;
}

apply-IsSound_example : All (IsSound env) (apply env (creates false "north" "cam" body) []).1
apply-IsSound_example = apply-IsSound env (creates false "north" "cam" body) [] tt
