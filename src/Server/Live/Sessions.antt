-- ===== src/Server/Live/Sessions.antt =====
-- A viewer's way through the tunnel: internal/cloud/media_handlers.go.
use cloud_nvr.Base.{
  ℕ, ◌≤◌, ◌≡◌, refl, sym, ap, ◌≢◌, ◌⊎◌, inl, inr, String, ◌<>◌, true, not, ◌&&◌, ◌||◌, Option, none,
  some, List, arith, leb, ◌==◌, string_eq, Bool-cases,
}
use cloud_nvr.Base.Dict.{Dict}
use cloud_nvr.Base.Prefix.{trim_prefix}
use cloud_nvr.Signaling.{WebRtcRequest, WebRtcResponse}
use cloud_nvr.Domain.{access_agent, access_beq}
use cloud_nvr.Store.Cameras.{Camera}
use cloud_nvr.Agent.Proxy.{accepts_path}
use cloud_nvr.Server.Live.{
  Lookup, Offer, too_large, offered, offer_error, offer_missing, offer_disabled, internal_error,
  not_found, Viewed, replied, Signal, answer, waits, local_path, agent_webrtc, with_path, with_body,
  with_id, agent_webrtc_fallback, Urls, after_wait, is_tunnelled, broken, missing, live,
  sent_status, redirect,
}
use cloud_nvr.Server.Live.Tunnel.{accepts_path_lem}

-- What stands behind a request that waits for an agent.
pub record Waiting (r : Viewed) (l : Lookup) (site : String) (w : WebRtcRequest) : Type 0 where
  pub camera : Camera
  pub found : l ≡ live camera true true
  pub enabled : camera.enabled ≡ true
  pub managed : access_beq camera.access_mode access_agent ≡ true
  pub of_site : site ≡ camera.site_id
  pub of_camera : w.camera_id ≡ r.camera_id
  pub of_method : w.method ≡ r.method
  pub of_path : local_path r.camera_id (trim_prefix r.resource "/") ≡ some w.path

with_id-waits :
    (r : Viewed) (s path : String) (body : List ℕ) (new_id : Option String) {site : String}
    {w : WebRtcRequest}
    → with_id r s path body new_id ≡ waits site w
    → (site ≡ s) × (w.camera_id ≡ r.camera_id) × (w.method ≡ r.method) × (w.path ≡ path)
with_id-waits r s path body none h = cc
with_id-waits r s path body (some id) {site} {w} h =
    (ground (arith, h), ground (arith, h), ground (arith, h), ground (arith, h))

with_body-waits :
    (r : Viewed) (s path : String) (new_id : Option String) (body : Option (List ℕ)) {site : String}
    {w : WebRtcRequest}
    → with_body r s new_id path body ≡ waits site w
    → (site ≡ s) × (w.camera_id ≡ r.camera_id) × (w.method ≡ r.method) × (w.path ≡ path)
with_body-waits r s path new_id none h = cc
with_body-waits r s path new_id (some body) h = with_id-waits r s path body new_id h

with_path-waits :
    (r : Viewed) (s : String) (new_id path : Option String) {site : String} {w : WebRtcRequest}
    → with_path r s new_id path ≡ waits site w
    → (site ≡ s) × (w.camera_id ≡ r.camera_id) × (w.method ≡ r.method) × (path ≡ some w.path)
with_path-waits r s new_id none h = cc
with_path-waits r s new_id (some path) h =
    let (of_site, of_camera, of_method, of_path) = with_body-waits r s path new_id r.body h in
    (of_site, of_camera, of_method, ap some (sym of_path))

agent_webrtc-Waiting :
    (new_id : Option String) (r : Viewed) (l : Lookup) (site : String) (w : WebRtcRequest)
    → agent_webrtc new_id r l ≡ waits site w
    → Waiting r l site w
unfolding agent_webrtc
agent_webrtc-Waiting new_id r broken site w h = cc
agent_webrtc-Waiting new_id r missing site w h = cc
agent_webrtc-Waiting new_id r (live c online capable) site w h =
    let tunnelled = is_tunnelled c online capable in
    elim (Bool-cases (not c.enabled || not tunnelled)) [
      | inl e ↦ absurd (ground (arith, h, e))
      | inr e ↦
          let path = local_path r.camera_id (trim_prefix r.resource "/") in
          let (of_site, of_camera, of_method, of_path) =
            with_path-waits r c.site_id new_id path {site = site} {w = w} (ground (arith, h, e)) in
          let on : online ≡ true = ground (arith, e) in
          let able : capable ≡ true = ground (arith, e) in
          record {
            camera = c;
            found = rw (on, able) refl;
            enabled = ground (arith, e);
            managed = ground (arith, e);
            of_site = of_site;
            of_camera = of_camera;
            of_method = of_method;
            of_path = of_path;
          }
    ]

-- A request of a viewer waits for an agent only if its camera is enabled, is in the hands of an
-- agent that is online and capable, and is of the site that the request waits for. It is the
-- viewer's request for that camera, on a path that the agent accepts.
pub agent_webrtc-waits :
    (new_id : Option String) (r : Viewed) (l : Lookup) (site : String) (w : WebRtcRequest)
    → r.camera_id ≢ ""
    → agent_webrtc new_id r l ≡ waits site w
    → Waiting r l site w × (accepts_path w.camera_id w.path ≡ true)
agent_webrtc-waits new_id r l site w named h =
    let v = agent_webrtc-Waiting new_id r l site w h in
    (
      v,
      rw (v.of_camera)
          ((accepts_path_lem r.camera_id w.path named).1 (trim_prefix r.resource "/", v.of_path)),
    )

no_reply :
    (r : Viewed) (status : ℕ) (hs : Dict String String) (body : List ℕ)
    → agent_webrtc_fallback r ≢ replied status hs body
unfolding agent_webrtc_fallback
no_reply r status hs body h = ground (arith, h)

-- Whatever the agent answers, the status that the viewer gets with it is one of HTTP.
pub after_wait-status :
    (u : Urls) (r : Viewed) (o : Option WebRtcResponse) (status : ℕ) (hs : Dict String String)
    (body : List ℕ)
    → after_wait u r o ≡ replied status hs body
    → (100 ≤ status) × (status ≤ 599)
unfolding after_wait
after_wait-status u r none status hs body h = absurd (no_reply r status hs body h)
after_wait-status u r (some w) status hs body h =
    elim (Bool-cases
      (leb 400 w.status && r.method == "GET" && trim_prefix r.resource "/" == "view")) [
        | inl e ↦ absurd (no_reply r status hs body (ground (arith, h, e)))
        | inr e ↦
            let same : status ≡ sent_status w.status = ground (arith, h, e) in ground (arith, same)
      ]

-- A request for the page that a viewer was offered.
pub record Opened (r : Viewed) (id : String) : Type 0 where
  pub getting : r.method ≡ "GET"
  pub paging : r.resource ≡ "view"
  pub on : r.camera_id ≡ id

-- The viewer is sent to the page of the camera at the cloud.
abbrev pub AtCloud : String → Signal → Type 0
AtCloud id s = (query : String) × (s ≡ answer (redirect (("/media/webrtc/camera-" <> id) <> query)))

-- The request goes on to the agent, for the page of the camera, unless its body is too large or no id
-- is drawn for it.
abbrev pub AtAgent : Option String → Option (List ℕ) → String → Signal → Type 0
AtAgent new body id s =
    ((site : String) × (w : WebRtcRequest) × (s ≡ waits site w) × (w.path ≡ "/camera-" <> id))
    ⊎ (body ≡ none) × (s ≡ answer too_large)
    ⊎ (new ≡ none) × (s ≡ answer internal_error)

abbrev pub KeptFor : Option String → Option (List ℕ) → String → Signal → Option String → Type 0
KeptFor new body id s none = AtCloud id s
KeptFor new body id s (some url) = AtAgent new body id s

abbrev pub Kept : Option String → Option (List ℕ) → String → Signal → Offer → Type 0
Kept new body id s (offered l) = KeptFor new body id s l.agent_webrtc_url
Kept new body id s offer_error = s ≡ answer internal_error
Kept new body id s offer_missing = s ≡ answer not_found
Kept new body id s offer_disabled = AtCloud id s
