-- ===== src/Config/Agent.antt =====
-- AgentFromEnv of internal/config/config.go.
use cloud_nvr.Base.{
  ℕ, ◌*◌, String, Bool, true, false, not, ◌||◌, ◌&&◌, Option, none, some, ◌==◌, string_eq,
  if◌then◌else◌,
}
use cloud_nvr.Base.Time.{second}
use cloud_nvr.Config.{
  ℤ, Url, Environment, segment_time, minimum_free, required, poll_interval, inventory_interval,
  full_inventory_interval, upload_mbps, upload_retries, allow_insecure, webrtc_enabled,
  webrtc_workers, cloud_url, insecure_url, media_rtsp, media_webrtc, Result, ok, err, ◌>>=◌,
  at_least, in_range, parsed, check, value, non_negative_byte_size_from_env, is_private_host,
  validate_service_url,
}

pub record Agent (F : Type 0) : Type 0 where
  pub cloud_url : String
  pub site_id : String
  pub enrollment_token : String
  pub name : String
  pub state_file : String
  pub config_cache_file : String
  pub inventory_state_file : String
  pub poll_interval : ℤ
  pub inventory_interval : ℕ
  pub full_inventory_interval : ℕ
  pub recordings_path : String
  pub storage_identity_file : String
  pub segment_time : ℕ
  pub upload_mbps : F
  pub upload_retries : ℕ
  pub allow_insecure_http : Bool
  pub webrtc_enabled : Bool
  pub media_rtsp_url : String
  pub media_webrtc_url : String
  pub webrtc_workers : ℕ
  pub minimum_free_bytes : ℕ

module _ {F : Type 0} (env : Environment F) where
  -- ParseFloat, and `uploadMbps < 0`.
  abbrev pub not_negative : Option F → Result F
  not_negative none = err upload_mbps
  not_negative (some f) = if env.is_negative f then err upload_mbps else ok f

  -- The tests of CLOUD_URL.
  unfoldable pub check_cloud_url : Bool → Option Url → Result Unit
  check_cloud_url insecure none = err cloud_url
  check_cloud_url insecure (some u) =
      if u.host == "" || not (u.scheme == "https") && not (u.scheme == "http")
      then err cloud_url
      else check (u.scheme == "https" || insecure || is_private_host env u.hostname) insecure_url

  -- The tests of the local media service, if it is used.
  unfoldable pub check_media : Bool → String → String → Result Unit
  check_media false rtsp webrtc = ok tt
  check_media true rtsp webrtc =
      check (validate_service_url env rtsp "rtsp" "rtsps") media_rtsp >>= λ _.
      check (validate_service_url env webrtc "http" "https") media_webrtc

  unfoldable pub agent_settings : ℤ → ℕ → ℕ → ℕ → F → ℕ → Bool → Bool → ℕ → ℕ → Agent F
  unfolding value
  agent_settings poll segment inventory full mbps retries insecure webrtc workers free = record {
    cloud_url = env.getenv "CLOUD_URL";
    site_id = env.getenv "SITE_ID";
    enrollment_token = env.getenv "ENROLLMENT_TOKEN";
    name = value env "AGENT_NAME" "site-agent";
    state_file = value env "AGENT_STATE_FILE" "/var/lib/cloudnvr/agent.json";
    config_cache_file = value env "AGENT_CONFIG_CACHE_FILE" "/var/lib/cloudnvr/config.json";
    inventory_state_file =
        value env "AGENT_INVENTORY_STATE_FILE" "/var/lib/cloudnvr/inventory.json";
    poll_interval = poll;
    inventory_interval = inventory;
    full_inventory_interval = full;
    recordings_path = value env "RECORDINGS_PATH" "/var/lib/cloudnvr/recordings";
    storage_identity_file = value env "AGENT_STORAGE_ID_FILE" "/var/lib/cloudnvr/storage.id";
    segment_time = segment;
    upload_mbps = mbps;
    upload_retries = retries;
    allow_insecure_http = insecure;
    webrtc_enabled = webrtc;
    media_rtsp_url = value env "AGENT_MEDIA_RTSP_URL" "rtsp://127.0.0.1:8555";
    media_webrtc_url = value env "AGENT_MEDIA_WEBRTC_URL" "http://127.0.0.1:8890";
    webrtc_workers = workers;
    minimum_free_bytes = free;
  }

  -- AgentFromEnv from the point where the settings are put together.
  unfoldable pub check_agent : Agent F → Result (Agent F)
  check_agent c = check (not (c.cloud_url == "" || c.site_id == "")) required >>= λ _.
      check_cloud_url c.allow_insecure_http (env.parse_url c.cloud_url) >>= λ _.
      check_media c.webrtc_enabled c.media_rtsp_url c.media_webrtc_url >>= λ _. ok c

  -- AgentFromEnv
  unfoldable pub agent_from_env : Result (Agent F)
  agent_from_env =
      parsed poll_interval (env.parse_duration (value env "AGENT_POLL_INTERVAL" "15s")) >>= λ poll.
      at_least (10 * second) segment_time
        (env.parse_duration (value env "RECORDING_SEGMENT_TIME" "1m"))
      >>= λ segment.
          at_least (15 * second) inventory_interval
            (env.parse_duration (value env "AGENT_INVENTORY_INTERVAL" "1m"))
          >>= λ inventory.
              at_least inventory full_inventory_interval
                (env.parse_duration (value env "AGENT_FULL_INVENTORY_INTERVAL" "6h"))
              >>= λ full.
                  not_negative (env.parse_float (value env "AGENT_UPLOAD_MBPS" "8")) >>= λ mbps.
                  in_range 1 20 upload_retries
                    (env.parse_int (value env "AGENT_UPLOAD_RETRIES" "4"))
                  >>= λ retries.
                      parsed allow_insecure
                        (env.parse_bool (value env "AGENT_ALLOW_INSECURE_HTTP" "false"))
                      >>= λ insecure.
                          parsed webrtc_enabled
                            (env.parse_bool (value env "AGENT_WEBRTC_ENABLED" "false"))
                          >>= λ webrtc.
                              in_range 1 16 webrtc_workers
                                (env.parse_int (value env "AGENT_WEBRTC_WORKERS" "4"))
                              >>= λ workers.
                                  non_negative_byte_size_from_env env "AGENT_MIN_FREE_BYTES"
                                    2_147_483_648 minimum_free
                                  >>= λ free. check_agent (
                                      agent_settings poll segment inventory full mbps retries
                                        insecure webrtc workers free)
