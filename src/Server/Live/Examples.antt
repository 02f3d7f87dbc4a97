-- ===== src/Server/Live/Examples.antt =====
-- Concrete runs of the tunnel.
use cloud_nvr.Base.{
  Option, List, ◌<>◌, ap, ◌∙◌, ◌≡◌, refl, ◌≢◌, ◌↔◌, String, true, false, none, some, [], ◌∷◌, arith,
  eq_iff,
}
use cloud_nvr.Base.Prefix.{
  without_prefix, trim_prefix, without_prefix-append, split_on, Without, split_on-append,
}
use Prim.Native.Char.{char}
use text.Mathlib.TextLemmas.{append_assoc, nil-append, cons-append}
use cloud_nvr.Domain.{access_agent, mode_hybrid, transfer_none}
use cloud_nvr.Store.Cameras.{Camera}
use cloud_nvr.Signaling.{WebRtcRequest, WebRtcResponse}
use cloud_nvr.Agent.Proxy.{accepts_path, present}
use cloud_nvr.Server.Live.{
  live, Viewed, replied, waits, local_path, agent_webrtc, Urls, rewrite_agent_webrtc_location,
  after_wait,
}
use cloud_nvr.Server.Live.Tunnel.{accepts_path_lem}
use cloud_nvr.Server.Live.Routes.{
  is_plain, all_plain, IsSegment, path_of, IsRouted, five_parts, location_lem,
}
use cloud_nvr.Server.Live.Sessions.{Waiting, agent_webrtc-waits}

abbrev camera : Camera
camera = record {
  id = "cam";
  site_id = "north";
  name = "Door";
  stream_url = "";
  access_mode = access_agent;
  recording_mode = mode_hybrid;
  local_days = 7;
  cloud_days = 30;
  transfer_policy = transfer_none;
  enabled = true;
  manual_recording = false;
  ptz_enabled = false;
  ptz_endpoint = "";
  ptz_username = "";
  ptz_password = none;
}

abbrev viewed : Viewed
viewed = record {
  method = "GET";
  camera_id = "cam";
  resource = "view";
  query = "";
  header = λ _. "";
  body = some [];
}

cam_named : ◌≢◌ {A = String} "cam" ""
cam_named = ground (arith, eq_iff "cam" "")

accepts_path_lem_example :
    (accepts_path "cam" "/camera-cam/whep/x" ≡ true)
    ↔ ((resource : String) × (local_path "cam" resource ≡ some "/camera-cam/whep/x"))
accepts_path_lem_example = accepts_path_lem "cam" "/camera-cam/whep/x" cam_named

abbrev urls : Urls
urls = record { parse_location = λ l. some (l, ""); to_lower = λ s. s }

-- The route of the tunnel: the first segment below its path is the camera.
abbrev head_or : List String → String
head_or [] = ""
head_or (w ∷ ws) = w

abbrev below_camera : Option String → String × String
below_camera none = ("", "")
below_camera (some s) =
    (head_or (split_on b'/' s), trim_prefix s (head_or (split_on b'/' s) <> "/"))

abbrev route : String → Option (String × String)
route path = some (below_camera (without_prefix path "/media/agent-webrtc/"))

plain-Without : (s : String) → all_plain s ≡ true → Without b'/' s
unfolding is_plain all_plain
plain-Without String.[] h = tt
plain-Without (String.◌∷◌ c s) h =
    ((λ e. ground (arith, e, h)), plain-Without s (ground (arith, h)))

slashed : (t : String) → "/" <> t ≡ String.◌∷◌ (char b'/' tt) t
slashed t =
    cons-append (char b'/' tt) String.[] t ∙ ap (λ x. String.◌∷◌ (char b'/' tt) x) (nil-append t)

route_found :
    (camera rest : String)
    → all_plain camera ≡ true
    → route ("/media/agent-webrtc/" <> (camera <> ("/" <> rest))) ≡ some (camera, rest)
route_found camera rest plain =
    let head : split_on b'/' (camera <> ("/" <> rest)) ≡ camera ∷ split_on b'/' rest =
      rw (slashed rest) (split_on-append (char b'/' tt) camera rest (plain-Without camera plain)) in
    let tail : without_prefix (camera <> ("/" <> rest)) (camera <> "/") ≡ some rest =
      rw (← append_assoc camera "/" rest) (without_prefix-append (camera <> "/") rest) in
    rw (without_prefix-append "/media/agent-webrtc/" (camera <> ("/" <> rest)), head, tail) refl

urls-IsRouted : IsRouted urls route
urls-IsRouted = record {
  parse-path = λ w ws h. refl;
  route-path = λ camera w ws c h.
      ap route
        (five_parts "/" "media" "/" "agent-webrtc" "/" (camera <> ("/" <> (w <> path_of ws))))
      ∙ route_found camera (w <> path_of ws) c.1;
}

cam-IsSegment : IsSegment "cam"
unfolding is_plain all_plain
cam-IsSegment = (cam_named, refl)

s1-IsSegment : IsSegment "s1"
unfolding is_plain all_plain
s1-IsSegment = (ground (arith, eq_iff "s1" ""), refl)

location_lem_example :
    (asked : String) × (resource : String) × (urls.parse_location
        (rewrite_agent_webrtc_location urls "/camera-cam/whep/s1" "cam")
      ≡ some (asked, ""))
    × (route asked ≡ some ("cam", resource))
    × (local_path "cam" (trim_prefix resource "/") ≡ some "/camera-cam/whep/s1")
location_lem_example =
    location_lem urls route "/camera-cam/whep/s1" "cam" "s1" urls-IsRouted cam-IsSegment
      s1-IsSegment refl

abbrev asked : WebRtcRequest
asked = record {
  id = "r1";
  camera_id = "cam";
  method = "GET";
  path = "/camera-cam";
  query = "";
  headers = [];
  body = [];
}

view_waits : agent_webrtc (some "r1") viewed (live camera true true) ≡ waits "north" asked
unfolding agent_webrtc local_path without_prefix present
view_waits = refl

agent_webrtc-waits_example :
    Waiting viewed (live camera true true) "north" asked × (accepts_path "cam" "/camera-cam" ≡ true)
agent_webrtc-waits_example =
    agent_webrtc-waits (some "r1") viewed (live camera true true) "north" asked cam_named view_waits

abbrev answered : WebRtcResponse
answered = record { id = "r1"; status = 700; headers = []; body = 1 ∷ [] }

abbrev posted : Viewed
posted = record viewed { method = "POST"; resource = "whep" }

bad_status : after_wait urls posted (some answered) ≡ replied 502 [] (1 ∷ [])
unfolding after_wait without_prefix
bad_status = refl
