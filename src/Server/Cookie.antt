-- ===== src/Server/Cookie.antt =====
-- internal/cloud/media_handlers.go: the signed cookie that opens the streams, and mediaAuth.
use Prim.Native.Char.{char}
use text.Mathlib.TextLemmas.{nil-append, cons-append}
use cloud_nvr.Base.{
  ℕ, ◌≡◌, refl, ◌↔◌, ◌⊎◌, String, ◌<>◌, Bool, true, false, ◌&&◌, ◌||◌, Option, none, some, List, [],
  ◌∷◌, arith, eq_iff, ltb, if◌then◌else◌, ◌==◌, string_eq,
}
use cloud_nvr.Base.Int64.{IsInt64}
use cloud_nvr.Base.Prefix.{has_prefix, split_on, Without, split_on-Without, split_on-append}
use cloud_nvr.Config.{ℤ, pos, negsuc}

-- strconv.FormatInt and ParseInt in base 10 on 64 bits, and the HMAC of a payload under a key in base64 for
-- URLs without padding. A time is in seconds since the epoch.
pub record Signing : Type 0 where
  pub format_int : ℤ → String
  pub parse_int : String → Option ℤ
  pub mac : String → String → String

-- What the model relies on: an int64 is read back from its own text, what is read is an int64, and
-- neither the text of one nor the base64 alphabet has a dot.
pub record IsFaithful (p : Signing) : Type 0 where
  pub parse-format : (z : ℤ) → IsInt64 z → p.parse_int (p.format_int z) ≡ some z
  pub parse-Int64 : (s : String) (z : ℤ) → p.parse_int s ≡ some z → IsInt64 z
  pub format-Without : (z : ℤ) → IsInt64 z → Without b'.' (p.format_int z)
  pub mac-Without : (key payload : String) → Without b'.' (p.mac key payload)

-- `time.Now().Unix() < expires`
abbrev pub is_before : ℕ → ℤ → Bool
is_before now (pos n) = ltb now n
is_before now (negsuc n) = false

module _ (p : Signing) (key : String) where
  -- signStreamCookie
  unfoldable pub sign_stream_cookie : ℤ → String
  sign_stream_cookie expires =
      let payload = p.format_int expires in payload <> ("." <> p.mac key payload)

  abbrev pub valid_expiry : ℕ → String → Option ℤ → Bool
  valid_expiry now value none = false
  valid_expiry now value (some expires) =
      is_before now expires && value == sign_stream_cookie expires

  unfoldable pub valid_parts : ℕ → String → List String → Bool
  valid_parts now value (payload ∷ _ ∷ []) = valid_expiry now value (p.parse_int payload)
  valid_parts now value _ = false

  -- validStreamCookie; `none` is a request without the cookie.
  unfoldable pub valid_stream_cookie : ℕ → Option String → Bool
  unfolding valid_parts
  valid_stream_cookie now none = false
  valid_stream_cookie now (some value) = valid_parts now value (split_on b'.' value)

  split-sign :
      IsFaithful p
      → (expires : ℤ) → IsInt64 expires
      → split_on b'.' (sign_stream_cookie expires)
        ≡ p.format_int expires ∷ p.mac key (p.format_int expires) ∷ []
  unfolding sign_stream_cookie
  split-sign ok expires range =
      let payload = p.format_int expires in
      let code_ = p.mac key payload in
      rw (cons-append (char b'.' tt) String.[] code_, nil-append code_)
        (rw
          (
            split_on-append (char b'.' tt) payload code_ (ok.format-Without expires range),
            split_on-Without b'.' code_ (ok.mac-Without key payload),
          )
          refl)

  -- The signature of a time that has not come.
  abbrev pub IsSigned : ℕ → String → Type 0
  IsSigned now value =
      (expires : ℤ) × IsInt64 expires
      × (value ≡ sign_stream_cookie expires)
      × (is_before now expires ≡ true)

  valid_expiry-IsSigned :
      (now : ℕ) (value : String) (e : Option ℤ)
      → ((z : ℤ) → e ≡ some z → IsInt64 z)
      → valid_expiry now value e ≡ true
      → IsSigned now value
  valid_expiry-IsSigned now value none range h = cc
  valid_expiry-IsSigned now value (some z) range h =
      (z, range z refl, ground (arith, h, eq_iff value (sign_stream_cookie z)), ground (arith, h))

  valid_parts-IsSigned :
      IsFaithful p
      → (now : ℕ) (value : String) (parts : List String) → valid_parts now value parts ≡ true
      → IsSigned now value
  unfolding valid_parts
  valid_parts-IsSigned ok now value [] h = cc
  valid_parts-IsSigned ok now value (a ∷ []) h = cc
  valid_parts-IsSigned ok now value (a ∷ b ∷ []) h =
      valid_expiry-IsSigned now value (p.parse_int a) (ok.parse-Int64 a) h
  valid_parts-IsSigned ok now value (a ∷ b ∷ c ∷ l) h = cc

  valid_parts-accepts :
      IsFaithful p
      → (now : ℕ) (value : String) → IsSigned now value
      → valid_parts now value (split_on b'.' value) ≡ true
  unfolding valid_parts
  valid_parts-accepts ok now value (expires, range, e, h) =
      rw (e, split-sign ok expires range, ok.parse-format expires range, h)
        ((eq_iff (sign_stream_cookie expires) (sign_stream_cookie expires)).1 refl)

  -- A cookie opens the streams exactly when it is the signature, under the key of the server, of a
  -- time of 64 bits that has not come. It relies on strconv to read back an int64 that it wrote, and on
  -- neither such a text nor base64 having a dot.
  pub valid_stream_cookie_lem :
      IsFaithful p
      → (now : ℕ) (value : String)
      → (valid_stream_cookie now (some value) ≡ true) ↔ IsSigned now value
  unfolding valid_stream_cookie
  valid_stream_cookie_lem ok now value =
      (valid_parts-IsSigned ok now value (split_on b'.' value), valid_parts-accepts ok now value)

-- What the media server asks about.
pub record MediaRequest : Type 0 where
  pub user : String
  pub password : String
  pub action : String
  pub protocol : String
  pub path : String

-- mediaAuth, under the user and the password of the publishers.
unfoldable pub media_auth : String → String → MediaRequest → Bool
media_auth user password r =
    if r.action == "publish" && has_prefix r.path "camera-"
    then r.user == user && r.password == password
    else if r.action == "read" && r.protocol == "rtsp" && has_prefix r.path "camera-"
    then r.user == user && r.password == password
    else if r.action == "read" && (r.protocol == "webrtc" || r.protocol == "hls")
    then has_prefix r.path "camera-"
    else false

-- Whatever the media server is allowed is about the path of a camera; to publish, and to read over
-- RTSP or anything but WebRTC and HLS, takes the credentials of the publishers.
pub media_auth-credentials :
    (user password : String) (r : MediaRequest)
    → media_auth user password r ≡ true
    → (has_prefix r.path "camera-" ≡ true)
      × ((r.action ≡ "read") × ((r.protocol ≡ "webrtc") ⊎ (r.protocol ≡ "hls"))
          ⊎ (r.user ≡ user) × (r.password ≡ password))
unfolding media_auth
media_auth-credentials user password r h = ground (
  arith,
  h,
  eq_iff r.action "publish",
  eq_iff r.action "read",
  eq_iff r.protocol "rtsp",
  eq_iff r.protocol "webrtc",
  eq_iff r.protocol "hls",
  eq_iff r.user user,
  eq_iff r.password password,
)
