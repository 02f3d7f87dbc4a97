-- ===== src/Config.antt =====
-- internal/config/config.go: the settings of both programs from the environment. The environment,
-- and what the packages strconv, time, net and net/url make of a text, are parameters.
pub mod Cloud
pub mod Agent
pub mod Bounds
mod Examples
use cloud_nvr.Base.{
  ℕ, ◌<>◌, ◌+◌, String, Bool, true, false, not, ◌&&◌, ◌||◌, Option, none, some, ltb, ◌==◌,
  string_eq, if◌then◌else◌, ◌≡◌, refl,
}

-- Go's signed integers, and time.Duration in nanoseconds.
pub data ℤ : Type 0 where
  pos negsuc : ℕ → ℤ

-- What url.Parse finds; `hostname` is Hostname().
pub record Url : Type 0 where
  pub scheme : String
  pub host : String
  pub hostname : String

-- os.Getenv and the parsers; `none` is an error. `F` is float64.
pub record Environment (F : Type 0) : Type 0 where
  pub getenv : String → String
  pub parse_duration : String → Option ℤ
  pub parse_int : String → Option ℤ
  pub parse_uint : String → Option ℕ
  pub parse_bool : String → Option Bool
  pub parse_float : String → Option F
  pub is_negative : F → Bool
  pub parse_url : String → Option Url
  pub contains_colon : String → Bool
  pub is_localhost : String → Bool
  pub parse_ip : String → Option Bool

pub data Error : Type 0 where
  segment_time cache_ttl cache_size upload_size cache_below_upload minimum_free required : Error
  poll_interval inventory_interval full_inventory_interval upload_mbps upload_retries : Error
  allow_insecure webrtc_enabled webrtc_workers cloud_url insecure_url media_rtsp media_webrtc :
      Error

pub data Result (A : Type 0) : Type 0 where
  ok : A → Result A
  err : Error → Result A

infixl 5 ◌>>=◌
unfoldable pub ◌>>=◌ : {A B : Type 0} → Result A → (A → Result B) → Result B
ok a >>= f = f a
err e >>= f = err e

-- What holds of a result that is no error.
abbrev pub Ensures : {A : Type 0} → (A → Type 0) → Result A → Type 0
Ensures P (ok a) = P a
Ensures P (err e) = Unit

pub bind-Ensures :
    {A B : Type 0} (Q : A → Type 0) (P : B → Type 0) (r : Result A) (f : A → Result B)
    → Ensures Q r
    → ((a : A) → Q a → Ensures P (f a))
    → Ensures P (r >>= f)
unfolding ◌>>=◌
bind-Ensures Q P (ok a) f h k = k a h
bind-Ensures Q P (err e) f h k = tt

-- `err != nil || v < low`, for a bound that is not negative.
unfoldable pub at_least : ℕ → Error → Option ℤ → Result ℕ
at_least low e none = err e
at_least low e (some (negsuc _)) = err e
at_least low e (some (pos n)) = if ltb n low then err e else ok n

-- `err != nil || v < low || v > high`
unfoldable pub in_range : ℕ → ℕ → Error → Option ℤ → Result ℕ
in_range low high e none = err e
in_range low high e (some (negsuc _)) = err e
in_range low high e (some (pos n)) = if ltb n low || ltb high n then err e else ok n

unfoldable pub parsed : {A : Type 0} → Error → Option A → Result A
parsed e none = err e
parsed e (some a) = ok a

unfoldable pub check : Bool → Error → Result Unit
check true e = ok tt
check false e = err e

module _ {F : Type 0} (env : Environment F) where
  unfoldable pub value : String → String → String
  value name fallback = let v = env.getenv name in if v == "" then fallback else v

  -- byteSizeFromEnv
  unfoldable pub byte_size_from_env : String → ℕ → Error → Result ℕ
  byte_size_from_env name fallback e =
      if env.getenv name == ""
      then ok fallback
      else at_least 1_048_576 e (env.parse_int (env.getenv name))

  -- nonNegativeByteSizeFromEnv
  unfoldable pub non_negative_byte_size_from_env : String → ℕ → Error → Result ℕ
  non_negative_byte_size_from_env name fallback e =
      if env.getenv name == "" then ok fallback else parsed e (env.parse_uint (env.getenv name))

  -- isPrivateHost; `parse_ip` says whether an address is a loopback or private one.
  unfoldable pub is_private_host : String → Bool
  is_private_host host =
      if env.is_localhost host
      then true
      else (elim (env.parse_ip host) [ none ↦ false | some private ↦ private ])

  -- validateServiceURL, for two schemes.
  unfoldable pub validate_service_url : String → String → String → Bool
  validate_service_url text scheme1 scheme2 = elim (env.parse_url text) [
    | none ↦ false
    | some u ↦ not (u.host == "") && (u.scheme == scheme1 || u.scheme == scheme2)
  ]

  -- publicRTSPURL; net.JoinHostPort puts a host with a colon into brackets.
  unfoldable pub public_rtsp_url : String → String
  public_rtsp_url text = elim (env.parse_url text) [
    | none ↦ "rtsp://localhost:8554"
    | some u ↦
        if u.hostname == ""
        then "rtsp://localhost:8554"
        else if env.contains_colon u.hostname
        then "rtsp://[" <> u.hostname <> "]:8554"
        else "rtsp://" <> u.hostname <> ":8554"
  ]
