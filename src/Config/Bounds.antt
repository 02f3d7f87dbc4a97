-- ===== src/Config/Bounds.antt =====
-- What the settings that internal/config/config.go accepts have in common.
use cloud_nvr.Base.{
  ℕ, ◌*◌, ◌≤◌, ◌≡◌, refl, ◌≢◌, ◌⊎◌, inl, inr, String, Bool, true, false, Option, none, some, arith,
  eq_iff, ltb, ◌==◌, nat_eq, string_eq, Bool-cases,
}
use cloud_nvr.Base.Time.{second, minute}
use cloud_nvr.Config.{
  ℤ, pos, negsuc, Url, Environment, Error, Result, ok, err, Ensures, bind-Ensures, at_least, check,
  byte_size_from_env, is_private_host, validate_service_url,
}
use cloud_nvr.Config.Cloud.{Cloud, cloud_settings, cloud_from_env}
use cloud_nvr.Config.Agent.{Agent}

at_least-Ensures : (low : ℕ) (e : Error) (o : Option ℤ) → Ensures (λ n. low ≤ n) (at_least low e o)
unfolding at_least
at_least-Ensures low e none = tt
at_least-Ensures low e (some (negsuc m)) = tt
at_least-Ensures low e (some (pos m)) = elim (Bool-cases (ltb m low)) [
  | inl b ↦ rw b tt
  | inr b ↦ rw b (ground (arith, b))
]

check-Ensures : (b : Bool) (e : Error) → Ensures (λ _. b ≡ true) (check b e)
unfolding check
check-Ensures true e = refl
check-Ensures false e = tt

any-Ensures : {A : Type 0} (r : Result A) → Ensures (λ _. Unit {0}) r
any-Ensures (ok a) = tt
any-Ensures (err e) = tt

module _ {F : Type 0} (env : Environment F) where
  byte_size-Ensures :
      (name : String) (fallback : ℕ) (e : Error)
      → 1_048_576 ≤ fallback
      → Ensures (λ n. 1_048_576 ≤ n) (byte_size_from_env env name fallback e)
  unfolding byte_size_from_env
  byte_size-Ensures name fallback e f = elim (Bool-cases (env.getenv name == "")) [
    | inl b ↦ rw b f
    | inr b ↦ rw b (at_least-Ensures 1_048_576 e (env.parse_int (env.getenv name)))
  ]

  abbrev pub IsAcceptedCloud : Cloud → Type 0
  IsAcceptedCloud c =
      (10 * second ≤ c.recording_segment_time)
      × (minute ≤ c.playback_cache_ttl)
      × (1_048_576 ≤ c.agent_upload_max_bytes)
      × (c.agent_upload_max_bytes ≤ c.playback_cache_max_bytes)
      × (c.database_dsn ≢ "")
      × (c.admin_api_key ≢ "")
      × (c.camera_encryption_key ≢ "")

  -- What CloudFromEnv accepts: segments of at least ten seconds, a cache that lives for at least a
  -- minute, room in the cache for an upload of the greatest size, which is at least a mebibyte, and
  -- no empty database, admin key or encryption key.
  pub cloud_bounds : Ensures IsAcceptedCloud (cloud_from_env env)
  unfolding cloud_from_env cloud_settings
  cloud_bounds = bind-Ensures _ _ _ _ (at_least-Ensures _ _ _) (λ segment b1.
      bind-Ensures _ _ _ _ (at_least-Ensures _ _ _) (λ ttl b2.
        bind-Ensures _ _ _ _ (any-Ensures _) (λ cache _.
          bind-Ensures _ _ _ _ (byte_size-Ensures _ _ _ (omega arith)) (λ upload b4.
            bind-Ensures _ _ _ _ (check-Ensures _ _) (λ _ b5.
              bind-Ensures _ _ _ _ (any-Ensures _) (λ free _.
                bind-Ensures _ _ _ _ (check-Ensures _ _) (λ _ b7. (
                  b1,
                  b2,
                  b4,
                  ground (arith, b5),
                  ground (arith, b7, eq_iff (env.getenv "DATABASE_DSN") ""),
                  ground (arith, b7, eq_iff (env.getenv "ADMIN_API_KEY") ""),
                  ground (arith, b7, eq_iff (env.getenv "CAMERA_ENCRYPTION_KEY") ""),
                ))))))))

  -- Where the agent goes: to a server with HTTPS, to any one by explicit permission, or to one on a
  -- private host.
  abbrev pub IsSecure : Bool → Option Url → Type 0
  IsSecure insecure o =
      (url : Url) × (o ≡ some url)
      × ((url.scheme ≡ "https") ⊎ (insecure ≡ true) ⊎ (is_private_host env url.hostname ≡ true))

  abbrev pub IsAcceptedAgent : Agent F → Type 0
  IsAcceptedAgent c =
      (10 * second ≤ c.segment_time)
      × (15 * second ≤ c.inventory_interval)
      × (c.inventory_interval ≤ c.full_inventory_interval)
      × ((1 ≤ c.upload_retries) × (c.upload_retries ≤ 20))
      × ((1 ≤ c.webrtc_workers) × (c.webrtc_workers ≤ 16))
      × (c.site_id ≢ "")
      × IsSecure c.allow_insecure_http (env.parse_url c.cloud_url)
      × (c.webrtc_enabled ≡ true
          → (validate_service_url env c.media_rtsp_url "rtsp" "rtsps" ≡ true)
            × (validate_service_url env c.media_webrtc_url "http" "https" ≡ true))
