-- ===== src/Media/Workers/Relay.antt =====
-- RelayManager.Reconcile and fingerprint of internal/media/relay.go.
use cloud_nvr.Base.{ℕ, String, ◌<>◌, Bool, not, ◌&&◌, List, ◌==◌, string_eq}
use cloud_nvr.Media.Workers.{Manager, reconcile}

pub record Stream : Type 0 where
  pub id : String
  pub name : String
  pub input_url : String
  pub output_url : String
  pub recording_path : String
  pub segment_time : ℕ
  pub enabled : Bool

unfoldable pub runs : Stream → Bool
runs s = s.enabled && not (s.id == "") && not (s.input_url == "") && not (s.output_url == "")

-- `show_duration` is time.Duration.String; the parts are separated by a zero byte.
module _ (show_duration : ℕ → String) where
  unfoldable pub fingerprint : Stream → String
  fingerprint s =
      s.input_url
      <> "\0"
      <> s.output_url
      <> "\0"
      <> s.recording_path
      <> "\0"
      <> show_duration s.segment_time

  unfoldable pub reconcile_relays : List Stream → Manager → Manager
  reconcile_relays = reconcile runs (λ s. s.id) fingerprint
