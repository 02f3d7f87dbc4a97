-- ===== src/Agent/Proxy.antt =====
-- cmd/agent/main.go, proxyLocalWebRTC: the agent answers a signaling request of a viewer from the
-- local media server, on a few paths and methods only.
use Prim.Native.Char.{code}
use cloud_nvr.Base.{
  ℕ, ◌*◌, String, ◌<>◌, Bool, not, ◌&&◌, ◌||◌, List, [], ◌∷◌, ltb, if◌then◌else◌, ◌==◌, string_eq,
  length,
}
use cloud_nvr.Base.Dict.{Dict}
use cloud_nvr.Base.Prefix.{has_prefix}
use cloud_nvr.Signaling.{WebRtcRequest, WebRtcResponse}

abbrev pub bytes : String → List ℕ
bytes String.[] = []
bytes (String.◌∷◌ c s) = code c ∷ bytes s

abbrev pub max_local_webrtc_response : ℕ
max_local_webrtc_response = 512 * 1024

-- The path test of proxyLocalWebRTC.
unfoldable pub accepts_path : String → String → Bool
accepts_path camera path =
    not (camera == "")
    && (path == "/reader.js"
        || path == ("/camera-" <> camera)
        || path == (("/camera-" <> camera) <> "/whep")
        || has_prefix path (("/camera-" <> camera) <> "/whep/"))

unfoldable pub accepts_method : String → Bool
accepts_method m = m == "GET" || m == "POST" || m == "PATCH" || m == "DELETE" || m == "OPTIONS"

-- What comes of the call of the local service. The texts of errors are the library's; a header that
-- is not there is "".
pub data Local : Type 0 where
  bad_url : Local
  no_request unreachable broken_body : List ℕ → Local
  answered : ℕ → (String → String) → List ℕ → Local

abbrev pub local_headers : List String
local_headers =
    "Content-Type" ∷ "Cache-Control" ∷ "ETag" ∷ "Accept-Patch" ∷ "Link" ∷ "Location" ∷ []

-- The headers of a list that have a value.
unfoldable pub present : (String → String) → List String → Dict String String
present get [] = []
present get (n ∷ ns) = let rest = present get ns in if get n == "" then rest else (n, get n) ∷ rest

abbrev pub refused : String → ℕ → List ℕ → WebRtcResponse
refused id status body = record {
  id = id;
  status = status;
  headers = ("Content-Type", "text/plain; charset=utf-8") ∷ [];
  body = body;
}

unfoldable pub local_answer : String → Local → WebRtcResponse
unfolding present
local_answer id bad_url = refused id 502 (bytes "invalid local WebRTC service URL")
local_answer id (no_request e) = refused id 502 e
local_answer id (unreachable e) = refused id 502 e
local_answer id (broken_body e) = refused id 502 e
local_answer id (answered status get body) =
    if ltb max_local_webrtc_response (length body)
    then refused id 502 (bytes "local WebRTC response is too large")
    else record { id = id; status = status; headers = present get local_headers; body = body }

-- proxyLocalWebRTC; `service` is the local media server, asked for a method, a path and a query.
unfoldable pub proxy_local_webrtc : (WebRtcRequest → Local) → WebRtcRequest → WebRtcResponse
proxy_local_webrtc service r =
    if not (accepts_path r.camera_id r.path)
    then refused r.id 400 (bytes "invalid local WebRTC path")
    else if not (accepts_method r.method)
    then refused r.id 405 (bytes "invalid local WebRTC method")
    else local_answer r.id (service r)
