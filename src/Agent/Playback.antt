-- ===== src/Agent/Playback.antt =====
-- cmd/agent/main.go, servePlaybackRequest: the agent uploads the recording that a viewer waits for.
use cloud_nvr.Base.{ℕ, String, Bool, true, ◌||◌, Option, none, some, ◌==◌, string_eq, if◌then◌else◌}
use cloud_nvr.Base.Prefix.{has_prefix}
use cloud_nvr.Config.{ℤ}
use cloud_nvr.Agent.Client.{Try, Run, upload_playback}

-- agent.PlaybackRequest
pub record PlaybackRequest : Type 0 where
  pub id : String
  pub recording_id : String
  pub storage_key : String
  pub checksum : String

-- What NextPlaybackRequest gives.
pub data Polled : Type 0 where
  poll_error nothing : Polled
  asked : PlaybackRequest → Polled

-- The file of a storage key: it cannot be opened, its size cannot be read, or it can be sent.
pub data Source : Type 0 where
  unopened unread readable : Source

-- What servePlaybackRequest does; `rejected` tells the cloud why, and `sent` is the run of the upload
-- of a storage key for a request.
pub data Served : Type 0 where
  broken idle : Served
  rejected : String → String → Served
  sent : String → String → Run → Served

-- filepath.Rel of the joined path under the directory of the recordings, on a system where the
-- separator is a slash; and the files there.
pub record Directory : Type 0 where
  pub relative : String → Option String
  pub source : String → Source

-- The test of the relative path.
unfoldable pub is_outside : Option String → Bool
is_outside none = true
is_outside (some relative) = relative == ".." || has_prefix relative "../"

abbrev pub send_from : PlaybackRequest → Source → Run → Served
send_from r unopened run = rejected r.id "recording no longer exists on agent"
send_from r unread run = broken
send_from r readable run = sent r.id r.storage_key run

unfoldable pub serve_playback_request : Directory → (ℕ → Try) → (ℕ → Bool) → ℤ → Polled → Served
serve_playback_request d tried stops attempts poll_error = broken
serve_playback_request d tried stops attempts nothing = idle
serve_playback_request d tried stops attempts (asked r) =
    if is_outside (d.relative r.storage_key)
    then rejected r.id "invalid recording path"
    else send_from r (d.source r.storage_key) (upload_playback tried stops attempts)
