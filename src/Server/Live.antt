-- ===== src/Server/Live.antt =====
-- internal/cloud/media_handlers.go: what a viewer is offered for a camera (cameraStream), and the
-- tunnel of its WebRTC signaling to the agent of the site (agentWebRTC).
pub mod Tunnel
pub mod Sessions
pub mod Routes
mod Examples
use cloud_nvr.Base.{
  ℕ, ◌+◌, ◌/◌, String, ◌<>◌, Bool, true, false, not, ◌&&◌, ◌||◌, Option, none, some, List, [], ◌∷◌,
  ltb, leb, if◌then◌else◌, ◌==◌, string_eq,
}
use cloud_nvr.Base.Dict.{Dict}
use cloud_nvr.Base.Time.{second, hour}
use cloud_nvr.Base.Prefix.{has_prefix, trim_prefix}
use cloud_nvr.Domain.{access_agent, access_beq}
use cloud_nvr.Store.Cameras.{Camera}
use cloud_nvr.Signaling.{WebRtcRequest, WebRtcResponse}
use cloud_nvr.Agent.Proxy.{present}

-- What CameraLive answers: an error, ErrNotFound, or the camera with its agent.
pub data Lookup : Type 0 where
  broken missing : Lookup
  live : Camera → Bool → Bool → Lookup

-- What cameraStream answers for a camera that can be watched. It also sets the stream cookie, which
-- is the signature of `cookie_expires`, in seconds.
pub record Links : Type 0 where
  pub webrtc_url : String
  pub cloud_webrtc_url : String
  pub hls_url : String
  pub agent_webrtc_url : Option String
  pub webrtc_mode : String
  pub cookie_expires : ℕ

pub data Offer : Type 0 where
  offer_error offer_missing offer_disabled : Offer
  offered : Links → Offer

abbrev pub player : String
player = "?autoplay=true&muted=false&controls=true&playsInline=true"

-- May the signaling go to the agent?
abbrev pub is_tunnelled : Camera → Bool → Bool → Bool
is_tunnelled c online capable = access_beq c.access_mode access_agent && online && capable

-- setStreamCookie: the time that is signed.
abbrev pub stream_cookie_expires : ℕ → ℕ
stream_cookie_expires now = (now + hour) / second

abbrev pub cloud_links : ℕ → String → Links
cloud_links now id =
    let url = "/media/webrtc/" <> (("camera-" <> id) <> player) in
    record {
      webrtc_url = url;
      cloud_webrtc_url = url;
      hls_url = "/media/hls/" <> (("camera-" <> id) <> "?autoplay=true&muted=false&controls=true");
      agent_webrtc_url = none;
      webrtc_mode = "cloud";
      cookie_expires = stream_cookie_expires now;
    }

abbrev pub agent_links : ℕ → String → Links
agent_links now id =
    let url = "/media/agent-webrtc/" <> (id <> ("/view" <> player)) in
    record (cloud_links now id) {
      webrtc_url = url;
      agent_webrtc_url = some url;
      webrtc_mode = "agent_direct";
    }

-- cameraStream
unfoldable pub camera_stream : ℕ → String → Lookup → Offer
camera_stream now id broken = offer_error
camera_stream now id missing = offer_missing
camera_stream now id (live c online capable) =
    if not c.enabled
    then offer_disabled
    else if is_tunnelled c online capable
    then offered (agent_links now id)
    else offered (cloud_links now id)

-- A request of a viewer under /media/agent-webrtc/. A header that is not there is ""; `body` is
-- `none` if it cannot be read up to its limit.
pub record Viewed : Type 0 where
  pub method : String
  pub camera_id : String
  pub resource : String
  pub query : String
  pub header : String → String
  pub body : Option (List ℕ)

pub data Answer : Type 0 where
  not_found internal_error too_large unavailable bad_resource : Answer
  redirect : String → Answer
  replied : ℕ → Dict String String → List ℕ → Answer

-- Either the handler answers, or the request waits for the agent of a site.
pub data Signal : Type 0 where
  answer : Answer → Signal
  waits : String → WebRtcRequest → Signal

-- agentWebRTCFallback
unfoldable pub agent_webrtc_fallback : Viewed → Answer
agent_webrtc_fallback r =
    if r.method == "GET" && r.resource == "view"
    then redirect
        (("/media/webrtc/camera-" <> r.camera_id) <> (if r.query == "" then "" else "?" <> r.query))
    else unavailable

-- The path at the agent, by the resource that the viewer asks for.
unfoldable pub local_path : String → String → Option String
local_path camera resource =
    if resource == "view" || resource == ""
    then some ("/camera-" <> camera)
    else if resource == "reader.js"
    then some "/reader.js"
    else if resource == "whep" || has_prefix resource "whep/"
    then some (("/camera-" <> camera) <> ("/" <> resource))
    else none

abbrev pub forwarded : List String
forwarded = "Accept" ∷ "Content-Type" ∷ "If-Match" ∷ []

abbrev pub with_id : Viewed → String → String → List ℕ → Option String → Signal
with_id r site path body none = answer internal_error
with_id r site path body (some id) = waits site (record {
  id = id;
  camera_id = r.camera_id;
  method = r.method;
  path = path;
  query = r.query;
  headers = present r.header forwarded;
  body = body;
})

abbrev pub with_body : Viewed → String → Option String → String → Option (List ℕ) → Signal
with_body r site new_id path none = answer too_large
with_body r site new_id path (some body) = with_id r site path body new_id

abbrev pub with_path : Viewed → String → Option String → Option String → Signal
with_path r site new_id none = answer bad_resource
with_path r site new_id (some path) = with_body r site new_id path r.body

-- agentWebRTC up to its wait; `new_id` is what id.New gives.
unfoldable pub agent_webrtc : Option String → Viewed → Lookup → Signal
agent_webrtc new_id r broken = answer internal_error
agent_webrtc new_id r missing = answer not_found
agent_webrtc new_id r (live c online capable) =
    if not c.enabled || not (is_tunnelled c online capable)
    then answer (agent_webrtc_fallback r)
    else with_path r c.site_id new_id (local_path r.camera_id (trim_prefix r.resource "/"))

-- url.Parse of a location: its path and its raw query; and strings.ToLower.
pub record Urls : Type 0 where
  pub parse_location : String → Option (String × String)
  pub to_lower : String → String

-- rewriteAgentWebRTCLocation
abbrev pub rewritten : String → String → Option (String × String) → String
rewritten location camera none = location
rewritten location camera (some (path, query)) =
    let trimmed = trim_prefix path (("/camera-" <> camera) <> "/") in
    let resource = if trimmed == path then trim_prefix path "/" else trimmed in
    ((("/media/agent-webrtc/" <> camera) <> "/") <> resource)
    <> (if query == "" then "" else "?" <> query)

unfoldable pub rewrite_agent_webrtc_location : Urls → String → String → String
rewrite_agent_webrtc_location u location camera =
    rewritten location camera (u.parse_location location)

-- The headers of the agent that the viewer gets.
unfoldable pub passed_header : Urls → String → String → String → Option String
passed_header u camera name value =
    let lower = u.to_lower name in
    if lower == "content-type"
      || lower == "cache-control"
      || lower == "etag"
      || lower == "accept-patch"
      || lower == "link"
    then some value
    else if lower == "location"
    then some (rewrite_agent_webrtc_location u value camera)
    else none

abbrev pub add_header : String → Option String → Dict String String → Dict String String
add_header name none rest = rest
add_header name (some v) rest = (name, v) ∷ rest

unfoldable pub passed_headers : Urls → String → Dict String String → Dict String String
passed_headers u camera [] = []
passed_headers u camera ((n, v) ∷ hs) =
    let rest = passed_headers u camera hs in add_header n (passed_header u camera n v) rest

abbrev pub sent_status : ℕ → ℕ
sent_status s = if ltb s 100 || ltb 599 s then 502 else s

-- agentWebRTC after its wait: `none` is a request that no agent answered in time.
unfoldable pub after_wait : Urls → Viewed → Option WebRtcResponse → Answer
unfolding passed_headers
after_wait u r none = agent_webrtc_fallback r
after_wait u r (some w) =
    if leb 400 w.status && r.method == "GET" && trim_prefix r.resource "/" == "view"
    then agent_webrtc_fallback r
    else replied (sent_status w.status) (passed_headers u r.camera_id w.headers) w.body
