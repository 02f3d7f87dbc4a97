-- ===== src/Media/Workers/Recorder.antt =====
-- RecorderManager.Reconcile and recordingFingerprint of internal/media/recording.go.
use cloud_nvr.Base.{ℕ, String, ◌<>◌, Bool, not, ◌&&◌, List, ◌==◌, string_eq}
use cloud_nvr.Media.Workers.{Manager, reconcile}

pub record RecordingStream : Type 0 where
  pub id : String
  pub name : String
  pub input_url : String
  pub retention_days : ℕ
  pub enabled : Bool

unfoldable pub runs : RecordingStream → Bool
runs s = s.enabled && not (s.id == "") && not (s.input_url == "")

-- `format_uint` is strconv.FormatUint in base 10.
module _ (format_uint : ℕ → String) where
  unfoldable pub recording_fingerprint : RecordingStream → String
  recording_fingerprint s = s.input_url <> "\0" <> format_uint s.retention_days

  unfoldable pub reconcile_recorders : List RecordingStream → Manager → Manager
  reconcile_recorders = reconcile runs (λ s. s.id) recording_fingerprint
