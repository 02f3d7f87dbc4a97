-- ===== src/Agent/Onvif.antt =====
-- internal/onvif/ptz.go: the calls that move a camera. `S` is the state of the camera and of the
-- network in front of it. What encoding/xml reads in an answer, and what the program uses of strings
-- and fmt, are fields of a record of parameters.
pub mod Calls
pub mod Still
pub mod Home
mod Examples
use cloud_nvr.Base.{
  ℕ, String, Bool, true, false, not, ◌&&◌, ◌||◌, Option, none, some, List, [], ◌∷◌, leb, ltb,
  if◌then◌else◌, ◌==◌, string_eq,
}
use cloud_nvr.Base.Prefix.{has_prefix}
use cloud_nvr.Server.Commands.{Velocity}

-- The bodies of the requests, with the token of the profile first. A movement has the numbers that
-- are printed into it, for the axes that it uses; a token of "" is left out.
pub data Request : Type 0 where
  get_capabilities get_profiles : Request
  continuous_move : String → Option (String × String) → Option String → Request
  stop : String → Bool → Bool → Request
  set_home_position goto_home_position get_presets : String → Request
  set_preset goto_preset : String → String → Request

-- What comes of a request: it cannot be made, there is no response, its body breaks off, or a status
-- with a body.
pub data Exchange : Type 0 where
  bad_request no_response broken_body : Exchange
  answered : ℕ → String → Exchange

pub record Preset : Type 0 where
  pub token : String
  pub name : String

-- The camera at an endpoint, for a user: does rand.Read give a nonce, what does a request do at an
-- address, and does the context end in the wait after a movement?
pub record Camera (S : Type 0) : Type 0 where
  pub endpoint : String
  pub username : String
  pub has_nonce : S → Bool
  pub post : String → Request → S → S × Exchange
  pub is_cancelled : S → Bool

-- The parts of an answer that the envelopes name, none where xml.Unmarshal fails; an element that is
-- not there is "". Then strings.TrimSpace, strings.EqualFold, and the format %.3f.
pub record Reader (F : Type 0) : Type 0 where
  pub capabilities : String → Option (String × String)
  pub profiles : String → Option (List String)
  pub presets : String → Option (List Preset)
  pub trim : String → String
  pub equal_fold : String → String → Bool
  pub decimals : F → String

pub data Failure : Type 0 where
  endpoint_empty out_of_range movement_empty : Failure
  no_discovery bad_capabilities no_services no_profiles no_usable_profile : Failure
  move_failed cancelled stop_failed : Failure
  set_home_failed go_home_failed home_not_configured : Failure

pub data Result (A : Type 0) : Type 0 where
  done : A → Result A
  failed : Failure → Result A

abbrev pub Action : Type 0 → Type 0 → Type 0
Action S A = S → Result A × S

module _ {S : Type 0} {A : Type 0} where
  abbrev pub pure : A → Action S A
  pure a s = (done a, s)

  abbrev pub fail : Failure → Action S A
  fail e s = (failed e, s)

  abbrev pub or_fail : Option A → Failure → Action S A
  or_fail none e = fail e
  or_fail (some a) e = pure a

abbrev pub continued : {S A B : Type 0} → (A → Action S B) → Result A → Action S B
continued f (done a) = f a
continued f (failed e) = fail e

infixl 5 ◌>>=◌ ◌>>◌
abbrev pub ◌>>=◌ : {S A B : Type 0} → Action S A → (A → Action S B) → Action S B
◌>>=◌ m f s = continued f (m s).0 (m s).1

abbrev pub ◌>>◌ : {S A B : Type 0} → Action S A → Action S B → Action S B
m >> k = m >>= λ _. k

-- bytes.Contains
unfoldable pub contains : String → String → Bool
contains String.[] t = has_prefix String.[] t
contains (String.◌∷◌ c s) t = let rest = contains s t in has_prefix (String.◌∷◌ c s) t || rest

-- The body that an exchange gives.
unfoldable pub received : Exchange → Option String
received bad_request = none
received no_response = none
received broken_body = none
received (answered status body) =
    if ltb status 200 || leb 300 status
    then none
    else if contains body ":Fault>" || contains body "<Fault>"
    then none
    else some body

-- call, where a failure becomes the error of its caller.
unfoldable pub call : {S : Type 0} → Camera S → String → Request → Failure → Action S String
call c url r e s =
    if not (c.username == "") && not (c.has_nonce s)
    then (failed e, s)
    else or_fail (received (c.post url r s).1) e (c.post url r s).0

pub record Service : Type 0 where
  pub url : String
  pub profile : String

abbrev pub first_profile : Option (List String) → Option String
first_profile none = none
first_profile (some []) = none
first_profile (some (t ∷ ts)) = if t == "" then none else some t

unfoldable pub named_preset_token : {F : Type 0} → Reader F → List Preset → String
named_preset_token x [] = ""
named_preset_token x (p ∷ ps) =
    let rest = named_preset_token x ps in
    if x.equal_fold (x.trim p.name) "CloudNVR Home" then x.trim p.token else rest

abbrev pub wait_to_stop : {S : Type 0} → Camera S → Action S Unit
wait_to_stop c s = if c.is_cancelled s then (failed cancelled, s) else (done tt, s)

abbrev pub uses_pan_tilt : {F : Type 0} → Velocity F → F → F → Bool
uses_pan_tilt v pan tilt = not (v.is_zero pan) || not (v.is_zero tilt)

-- The outcome of the first action unless it fails; then the second from the state that it left.
abbrev pub otherwise : {S : Type 0} → Result String → Action S Unit → Action S Unit
otherwise (done _) k = pure tt
otherwise (failed e) k = k

abbrev pub or_else : {S : Type 0} → Action S String → Action S Unit → Action S Unit
or_else m k s = otherwise (m s).0 k (m s).1

module _ {S F : Type 0} (x : Reader F) (c : Camera S) where
  abbrev pub services : String × String → Action S (String × String)
  services (media, ptz) =
      if x.trim media == "" || x.trim ptz == ""
      then fail no_services
      else pure (x.trim media, x.trim ptz)

  unfoldable pub discover : Action S Service
  discover = do
    body ← call c c.endpoint get_capabilities no_discovery
    found ← or_fail (x.capabilities body) bad_capabilities
    urls ← services found
    listed ← call c urls.0 get_profiles no_profiles
    token ← or_fail (first_profile (x.profiles listed)) no_usable_profile
    pure (record { url = urls.1; profile = token })

  abbrev pub run_move : Velocity F → F → F → F → Service → Action S Unit
  run_move v pan tilt zoom service = do
    call c service.url
        (continuous_move service.profile
          (if uses_pan_tilt v pan tilt then some (x.decimals pan, x.decimals tilt) else none)
          (if not (v.is_zero zoom) then some (x.decimals zoom) else none))
        move_failed
    wait_to_stop c
    call c service.url (stop service.profile (uses_pan_tilt v pan tilt) (not (v.is_zero zoom)))
        stop_failed
    pure tt

  unfoldable pub move : Velocity F → F → F → F → Action S Unit
  move v pan tilt zoom =
      if x.trim c.endpoint == ""
      then fail endpoint_empty
      else if v.is_out pan || v.is_out tilt || v.is_out zoom
      then fail out_of_range
      else if v.is_zero pan && v.is_zero tilt && v.is_zero zoom
      then fail movement_empty
      else discover >>= run_move v pan tilt zoom

  abbrev pub list_presets : Service → Failure → Action S (List Preset)
  list_presets service e = do
    body ← call c service.url (get_presets service.profile) e
    or_fail (x.presets body) e

  unfoldable pub set_named_home_preset : Service → Action S Unit
  set_named_home_preset service = do
    presets ← list_presets service set_home_failed
    call c service.url (set_preset service.profile (named_preset_token x presets)) set_home_failed
    pure tt

  abbrev pub goto_token : Service → String → Action S Unit
  goto_token service token =
      if token == ""
      then fail home_not_configured
      else do call c service.url (goto_preset service.profile token) go_home_failed; pure tt

  unfoldable pub goto_named_home_preset : Service → Action S Unit
  goto_named_home_preset service = do
    presets ← list_presets service go_home_failed
    goto_token service (named_preset_token x presets)

  unfoldable pub set_home : Action S Unit
  set_home = do
    service ← discover
    or_else (call c service.url (set_home_position service.profile) set_home_failed)
        (set_named_home_preset service)

  unfoldable pub goto_home : Action S Unit
  goto_home = do
    service ← discover
    or_else (call c service.url (goto_home_position service.profile) go_home_failed)
        (goto_named_home_preset service)
