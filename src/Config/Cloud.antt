-- ===== src/Config/Cloud.antt =====
-- CloudFromEnv of internal/config/config.go.
use cloud_nvr.Base.{ℕ, ◌*◌, String, Bool, not, ◌||◌, ltb, ◌==◌, string_eq, if◌then◌else◌}
use cloud_nvr.Base.Time.{second, minute}
use cloud_nvr.Config.{
  Environment, segment_time, cache_ttl, cache_size, upload_size, cache_below_upload, minimum_free,
  required, Result, ok, ◌>>=◌, at_least, check, value, byte_size_from_env,
  non_negative_byte_size_from_env, public_rtsp_url,
}

pub record Cloud : Type 0 where
  pub http_addr : String
  pub database_dsn : String
  pub admin_api_key : String
  pub camera_encryption_key : String
  pub public_url : String
  pub web_upstream : String
  pub media_webrtc_upstream : String
  pub media_hls_upstream : String
  pub media_api_url : String
  pub media_internal_rtsp_url : String
  pub media_public_rtsp_url : String
  pub media_publish_user : String
  pub media_publish_password : String
  pub recordings_path : String
  pub storage_identity_file : String
  pub recording_segment_time : ℕ
  pub playback_cache_ttl : ℕ
  pub playback_cache_max_bytes : ℕ
  pub agent_upload_max_bytes : ℕ
  pub minimum_free_bytes : ℕ

module _ {F : Type 0} (env : Environment F) where
  abbrev pub missing_secret : Bool
  missing_secret =
      env.getenv "DATABASE_DSN" == ""
      || env.getenv "ADMIN_API_KEY" == ""
      || env.getenv "CAMERA_ENCRYPTION_KEY" == ""

  -- The settings that need no check, with those that had one.
  unfoldable pub cloud_settings : ℕ → ℕ → ℕ → ℕ → ℕ → Cloud
  unfolding value public_rtsp_url
  cloud_settings segment ttl cache upload free = record {
    http_addr = value env "HTTP_ADDR" ":8080";
    database_dsn = env.getenv "DATABASE_DSN";
    admin_api_key = env.getenv "ADMIN_API_KEY";
    camera_encryption_key = env.getenv "CAMERA_ENCRYPTION_KEY";
    public_url = value env "PUBLIC_URL" "http://localhost:8080";
    web_upstream = env.getenv "WEB_UPSTREAM";
    media_webrtc_upstream = value env "MEDIA_WEBRTC_UPSTREAM" "http://mediamtx:8889";
    media_hls_upstream = value env "MEDIA_HLS_UPSTREAM" "http://mediamtx:8888";
    media_api_url = value env "MEDIA_API_URL" "http://mediamtx:9997";
    media_internal_rtsp_url = value env "MEDIA_INTERNAL_RTSP_URL" "rtsp://mediamtx:8554";
    media_public_rtsp_url =
        if env.getenv "MEDIA_PUBLIC_RTSP_URL" == ""
        then public_rtsp_url env (value env "PUBLIC_URL" "http://localhost:8080")
        else env.getenv "MEDIA_PUBLIC_RTSP_URL";
    media_publish_user = value env "MEDIA_PUBLISH_USER" "cloudnvr-agent";
    media_publish_password = value env "MEDIA_PUBLISH_PASSWORD" "change-media-password";
    recordings_path = value env "RECORDINGS_PATH" "/var/lib/cloudnvr/recordings";
    storage_identity_file = value env "CLOUD_STORAGE_ID_FILE" "/var/lib/cloudnvr-state/storage.id";
    recording_segment_time = segment;
    playback_cache_ttl = ttl;
    playback_cache_max_bytes = cache;
    agent_upload_max_bytes = upload;
    minimum_free_bytes = free;
  }

  -- CloudFromEnv
  unfoldable pub cloud_from_env : Result Cloud
  cloud_from_env =
      at_least (10 * second) segment_time
        (env.parse_duration (value env "RECORDING_SEGMENT_TIME" "1m"))
      >>= λ segment.
          at_least minute cache_ttl (env.parse_duration (value env "PLAYBACK_CACHE_TTL" "6h"))
          >>= λ ttl.
              byte_size_from_env env "PLAYBACK_CACHE_MAX_BYTES" 10_737_418_240 cache_size
              >>= λ cache.
                  byte_size_from_env env "AGENT_UPLOAD_MAX_BYTES" 2_147_483_648 upload_size
                  >>= λ upload. check (not (ltb cache upload)) cache_below_upload >>= λ _.
                      non_negative_byte_size_from_env env "CLOUD_MIN_FREE_BYTES" 5_368_709_120
                        minimum_free
                      >>= λ free. check (not missing_secret) required >>= λ _.
                          ok (cloud_settings segment ttl cache upload free)
