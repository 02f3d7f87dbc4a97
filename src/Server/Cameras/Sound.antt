-- ===== src/Server/Cameras/Sound.antt =====
-- What the camera handlers of internal/cloud/server.go let into the table.
use cloud_nvr.Base.{
  ◌≡◌, refl, inl, inr, String, Bool, true, false, not, ◌&&◌, ◌||◌, Option, none, some, List, [],
  ◌∷◌, arith, eq_iff, if◌then◌else◌, ◌==◌, string_eq, nat_eq, Bool-cases, All, All-append,
}
use cloud_nvr.Domain.{mode_valid, mode_text, transfer_valid}
use cloud_nvr.Store.Cameras.{
  Camera, create_camera, updated, update_cameras, answer, same_camera, update_camera,
  update_camera_policy, set_manual_recording,
}
use cloud_nvr.Server.Cameras.{
  mode_of, Env, Body, Reply, valid_http_url, create, create_with, insert_with, update, update_with,
  update_secret, update_policy, set_manual, reply_of, manual_reply, or_text, default_onvif_endpoint,
  kept_password, update_of, secret_of, with_defaults, has_modes, valid_stream_url,
}

-- A valid text of a mode is stored as the mode with that text.
pub mode_of-text : (s : String) → mode_valid s ≡ true → mode_text (mode_of s) ≡ s
unfolding mode_valid mode_of
mode_of-text s h = ground (
  arith,
  h,
  eq_iff s "local",
  eq_iff s "cloud",
  eq_iff s "hybrid",
  eq_iff s "manual",
  eq_iff s "disabled",
)

-- A camera that can be moved has an endpoint that the handler of its commands accepts.
abbrev pub IsSound : Env → Camera → Type 0
IsSound env c = c.ptz_enabled ≡ true → valid_http_url env c.ptz_endpoint ≡ true

abbrev Sound : Env → List Camera → Type 0
Sound env = All (IsSound env)

keep_update :
    (p : Camera → Bool) (f : Camera → Camera) (same : Camera → Camera → Bool) (Q : Camera → Type 0)
    (cs : List Camera)
    → ((x : Camera) → Q x → Q (f x))
    → All Q cs
    → All Q (update_cameras p f same cs).1
unfolding update_cameras
keep_update p f same Q [] k h = tt
keep_update p f same Q (c ∷ cs) k h = elim (Bool-cases (p c)) [
  | inl e ↦ rw e (k c h.0, keep_update p f same Q cs k h.1)
  | inr e ↦ rw e (h.0, keep_update p f same Q cs k h.1)
]

reply_table : (env : Env) (r : Bool × List Camera) → (reply_of env (answer r)).1 ≡ r.1
reply_table env (true, cs) = refl
reply_table env (false, cs) = refl

manual_table : (env : Env) (r : Bool × List Camera) → (manual_reply env (answer r)).1 ≡ r.1
manual_table env (true, cs) = refl
manual_table env (false, cs) = refl

insert-Sound :
    (env : Env) (fault : Bool) (site id : String) (b : Body) (stream endpoint : String)
    (password : Option (Option String)) (cs : List Camera)
    → (b.ptz_enabled ≡ true → valid_http_url env endpoint ≡ true)
    → Sound env cs
    → Sound env (insert_with env fault site id b stream endpoint password cs).1
insert-Sound env fault site id b stream endpoint none cs good h = h
insert-Sound env true site id b stream endpoint (some password) cs good h = h
insert-Sound env false site id b stream endpoint (some password) cs good h =
    unfold create_camera in All-append (IsSound env) cs _ h (good, tt)

create_with-Sound :
    (env : Env) (fault : Bool) (site id : String) (b : Body) (stream : Option String)
    (cs : List Camera)
    → Sound env cs
    → Sound env (create_with env fault site id b stream cs).1
create_with-Sound env fault site id b none cs h = h
create_with-Sound env fault site id b (some stream) cs h =
    let endpoint =
      if b.ptz_enabled
      then or_text b.ptz_endpoint (default_onvif_endpoint env b.stream_url)
      else b.ptz_endpoint in
    elim (Bool-cases (b.ptz_enabled && not (valid_http_url env endpoint))) [
      | inl e ↦ rw e h
      | inr e ↦ rw e (
          insert-Sound env fault site id b stream endpoint (kept_password env b) cs
            (λ on. ground (arith, e, on)) h)
    ]

update_secret-Sound :
    (env : Env) (fault : Bool) (id : String) (b : Body) (endpoint : String) (stream : Option String)
    (password : Option (Option String)) (cs : List Camera)
    → (b.ptz_enabled ≡ true → valid_http_url env endpoint ≡ true)
    → Sound env cs
    → Sound env (update_secret env fault id b endpoint stream password cs).1
update_secret-Sound env fault id b endpoint stream none cs good h = h
update_secret-Sound env true id b endpoint stream (some password) cs good h = h
update_secret-Sound env false id b endpoint stream (some password) cs good h =
    let u = update_of env b endpoint stream password in
    unfold update_camera in
    rw (reply_table env (update_cameras (λ c. c.id == id) (updated u) same_camera cs))
      (keep_update _ _ _ (IsSound env) cs (λ x q. good) h)

update_with-Sound :
    (env : Env) (fault : Bool) (id : String) (b : Body) (stream : Option (Option String))
    (cs : List Camera)
    → Sound env cs
    → Sound env (update_with env fault id b stream cs).1
update_with-Sound env fault id b none cs h = h
update_with-Sound env fault id b (some stream) cs h =
    let given = env.trim b.ptz_endpoint in
    let endpoint =
      if b.ptz_enabled && given == "" && not (b.stream_url == "")
      then default_onvif_endpoint env b.stream_url
      else given in
    elim (Bool-cases (b.ptz_enabled && not (valid_http_url env endpoint))) [
      | inl e ↦ rw e h
      | inr e ↦ rw e (
          update_secret-Sound env fault id b endpoint stream (secret_of env b.ptz_password) cs
            (λ on. ground (arith, e, on)) h)
    ]

-- A request to make or change a camera.
pub data Change : Type 0 where
  creates : Bool → String → String → Body → Change
  updates policies : Bool → String → Body → Change
  manuals : Bool → String → Bool → Change

unfoldable pub apply : Env → Change → List Camera → Reply × List Camera
apply env (creates fault site id b) = create env fault site id b
apply env (updates fault id b) = update env fault id b
apply env (policies fault id b) = update_policy env fault id b
apply env (manuals fault id active) = set_manual env fault id active

-- No request to make or change a camera, whatever it holds and however it is answered, leaves a
-- camera in the table that can be moved but whose endpoint the handler of its commands refuses.
pub apply-IsSound :
    (env : Env) (ch : Change) (cs : List Camera)
    → All (IsSound env) cs
    → All (IsSound env) (apply env ch cs).1
unfolding apply create update update_policy set_manual update_camera_policy set_manual_recording
apply-IsSound env (creates fault site id body) cs h =
    let b = with_defaults env body in
    elim (Bool-cases
      (b.name == "" || not (valid_stream_url env b.stream_url) || not (has_modes env b))) [
        | inl e ↦ rw e h
        | inr e ↦ rw e (create_with-Sound env fault site id b (env.encrypt b.stream_url) cs h)
      ]
apply-IsSound env (updates fault id body) cs h =
    let b = record body { name = env.trim body.name; stream_url = env.trim body.stream_url } in
    elim (Bool-cases (b.name == "" || not (has_modes env b))) [
      | inl e ↦ rw e h
      | inr e ↦
          elim (Bool-cases (not (b.stream_url == "") && not (valid_stream_url env b.stream_url))) [
            | inl e' ↦ rw (e, e') h
            | inr e' ↦
                rw (e, e') (update_with-Sound env fault id b (secret_of env b.stream_url) cs h)
          ]
    ]
apply-IsSound env (policies fault id b) cs h =
    elim (Bool-cases
      (not (mode_valid b.recording_mode) || not (transfer_valid b.transfer_policy))) [
        | inl e ↦ rw e h
        | inr e ↦ elim (Bool-cases fault) [
          | inl f ↦ rw (e, f) h
          | inr f ↦
              rw (e, f) (rw (reply_table env _) (keep_update _ _ _ (IsSound env) cs (λ x q. q) h))
        ]
      ]
apply-IsSound env (manuals true id active) cs h = h
apply-IsSound env (manuals false id active) cs h =
    rw (manual_table env _) (keep_update _ _ _ (IsSound env) cs (λ x q. q) h)
