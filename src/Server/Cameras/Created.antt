-- ===== src/Server/Cameras/Created.antt =====
-- What createCamera of internal/cloud/server.go stores.
use cloud_nvr.Base.{
  ◌≡◌, refl, ◌≢◌, inl, inr, String, Bool, true, false, not, ◌&&◌, ◌||◌, Option, none, some, List,
  [], ◌∷◌, ◌++◌, arith, eq_iff, if◌then◌else◌, ◌==◌, string_eq, nat_eq, Bool-cases,
}
use cloud_nvr.Domain.{mode_text, transfer_valid, transfer_text, access_valid, access_text}
use cloud_nvr.Store.Cameras.{Camera, create_camera}
use cloud_nvr.Server.Cameras.{
  new_camera, transfer_of, access_of, Env, Body, done, valid_http_url, create, create_with,
  insert_with, or_text, or_days, default_onvif_endpoint, kept_password, with_defaults, has_modes,
  valid_stream_url,
}
use cloud_nvr.Server.Cameras.Sound.{mode_of-text}

transfer_of-text : (s : String) → transfer_valid s ≡ true → transfer_text (transfer_of s) ≡ s
unfolding transfer_valid transfer_of
transfer_of-text s h = ground (
  arith,
  h,
  eq_iff s "all",
  eq_iff s "events",
  eq_iff s "manual",
  eq_iff s "events_and_manual",
  eq_iff s "none",
)

access_of-text : (s : String) → access_valid s ≡ true → access_text (access_of s) ≡ s
unfolding access_valid access_of
access_of-text s h = ground (arith, h, eq_iff s "agent", eq_iff s "direct")

-- A camera made from a request: its values are those of the request, or the defaults where the
-- request leaves them out.
pub record Made (env : Env) (site id : String) (b : Body) (c : Camera) : Type 0 where
  pub of_site : c.site_id ≡ site
  pub of_id : c.id ≡ id
  pub named : (c.name ≡ env.trim b.name) × (env.trim b.name ≢ "")
  pub reachable : valid_stream_url env b.stream_url ≡ true
  pub secret : env.encrypt b.stream_url ≡ some c.stream_url
  pub access : access_text c.access_mode ≡ or_text b.access_mode "agent"
  pub recording : mode_text c.recording_mode ≡ or_text b.recording_mode "hybrid"
  pub transfer : transfer_text c.transfer_policy ≡ or_text b.transfer_policy "events_and_manual"
  pub days : (c.local_days ≡ or_days b.local_days 7) × (c.cloud_days ≡ or_days b.cloud_days 30)
  pub on : c.enabled ≡ true

-- What is known of the inserted camera before its secrets are.
inserted :
    (env : Env) (fault : Bool) (site id : String) (b : Body) (stream endpoint : String)
    (password : Option (Option String)) (cs : List Camera)
    → (insert_with env fault site id b stream endpoint password cs).0 ≡ done
    → (p : Option String) × ((insert_with env fault site id b stream endpoint password cs).1
        ≡ create_camera (new_camera env site id b stream endpoint p) cs)
inserted env fault site id b stream endpoint none cs h = cc
inserted env true site id b stream endpoint (some p) cs h = cc
inserted env false site id b stream endpoint (some p) cs h = (p, refl)

created_with :
    (env : Env) (fault : Bool) (site id : String) (b : Body) (o : Option String) (cs : List Camera)
    → (create_with env fault site id b o cs).0 ≡ done
    → (stream : String) × (endpoint : String) × (p : Option String) × (o ≡ some stream)
      × ((create_with env fault site id b o cs).1
          ≡ create_camera (new_camera env site id b stream endpoint p) cs)
created_with env fault site id b none cs h = cc
created_with env fault site id b (some stream) cs h =
    let endpoint =
      if b.ptz_enabled
      then or_text b.ptz_endpoint (default_onvif_endpoint env b.stream_url)
      else b.ptz_endpoint in
    let test = b.ptz_enabled && not (valid_http_url env endpoint) in
    elim (Bool-cases test) [
      | inl e ↦ absurd (ground (arith, h, e))
      | inr e ↦
          let (p, same) =
            inserted env fault site id b stream endpoint (kept_password env b) cs
              (ground (arith, h, e)) in
          (stream, endpoint, p, refl, rw e same)
    ]

-- When createCamera answers that the camera is made, exactly one camera was added to the table, and
-- it holds what the request and the defaults say.
pub create-Made :
    (env : Env) (fault : Bool) (site id : String) (b : Body) (cs : List Camera)
    → (create env fault site id b cs).0 ≡ done
    → (c : Camera) × ((create env fault site id b cs).1 ≡ cs ++ c ∷ []) × Made env site id b c
unfolding create create_camera
create-Made env fault site id body cs h =
    let b = with_defaults env body in
    elim (Bool-cases
      (b.name == "" || not (valid_stream_url env b.stream_url) || not (has_modes env b))) [
        | inl e ↦ absurd (ground (arith, h, e))
        | inr e ↦
            let (stream, endpoint, p, encrypted, same) =
              created_with env fault site id b (env.encrypt b.stream_url) cs
                (ground (arith, h, e)) in
            (
              new_camera env site id b stream endpoint p,
              rw e same,
              record {
                of_site = refl;
                of_id = refl;
                named = (refl, ground (arith, e, eq_iff b.name ""));
                reachable = ground (arith, e);
                secret = encrypted;
                access = access_of-text b.access_mode (ground (arith, e));
                recording = mode_of-text b.recording_mode (ground (arith, e));
                transfer = transfer_of-text b.transfer_policy (ground (arith, e));
                days = (refl, refl);
                on = refl;
              },
            )
      ]
