-- ===== src/Sync.antt =====
-- How an agent reports its recordings: syncAgentRecordings of internal/cloud/recording_handlers.go,
-- which stores a report. An error of the database ends the handler with an answer of its own and
-- is left out; what earlier statements stored stays, as it does for a report that is refused.
pub mod Agent
pub mod Full
pub mod Changes
mod Examples
use Prim.Native.String.{len}
use cloud_nvr.Base.{
  ℕ, ◌*◌, ◌-◌, String, Bool, true, false, not, ◌&&◌, ◌||◌, List, [], ◌∷◌, map, ltb, ◌==◌, nat_eq,
  string_eq, length, if◌then◌else◌,
}
use cloud_nvr.Base.Text.{ends_with}
use cloud_nvr.Base.Time.{day}
use cloud_nvr.Domain.{access_agent}
use cloud_nvr.Store.Cameras.{Camera}
use cloud_nvr.Store.Recordings.{
  Recording, Row, contains, upsert_recording, upsert_recording_inventory, delete_agent_recording,
  reconcile_recording_inventory, prune_agent_recordings,
}

abbrev is_hex_digit : String → Bool
is_hex_digit c =
    contains
      ("0" ∷ "1" ∷ "2" ∷ "3" ∷ "4" ∷ "5" ∷ "6" ∷ "7" ∷ "8" ∷ "9" ∷ "a" ∷ "b" ∷ "c" ∷ "d" ∷ "e" ∷ "f"
        ∷ "A" ∷ "B" ∷ "C" ∷ "D" ∷ "E" ∷ "F" ∷ [])
      c

-- hex.DecodeString finds no error, for a text of even length.
unfoldable pub is_hex : String → Bool
is_hex String.[] = true
is_hex (String.◌∷◌ c s) = let rest = is_hex s in is_hex_digit (String.◌∷◌ c String.[]) && rest

-- validRecordingChecksum
unfoldable pub valid_recording_checksum : String → Bool
valid_recording_checksum value = value == "" || len value == 64 && is_hex value

-- The body of a report. The clock and each new id come with it.
pub record Report : Type 0 where
  pub recordings : List Recording
  pub deleted_recordings : List Recording
  pub sync_id : String
  pub complete : Bool

pub data Answer : Type 0 where
  indexed : ℕ → ℕ → Answer
  invalid_recording invalid_deleted invalid_inventory : Answer

unfoldable pub acceptable : List String → Recording → Bool
acceptable allowed r =
    contains allowed r.camera_id && not (r.storage_key == "") && valid_recording_checksum r.checksum

abbrev pub stamped : Recording → Recording
stamped r = record r { source = "agent"; event_type = "continuous" }

unfoldable pub store_one : String → Recording → List Row → List Row
store_one sync_id r rows =
    if sync_id == "" then upsert_recording r rows else upsert_recording_inventory r sync_id rows

-- The loop over the recordings: did it come to its end, and the table.
unfoldable pub store_recordings : List String → String → List Recording → List Row → Bool × List Row
store_recordings allowed sync_id [] rows = (true, rows)
store_recordings allowed sync_id (r ∷ rs) rows =
    let rest = store_recordings allowed sync_id rs (store_one sync_id (stamped r) rows) in
    if acceptable allowed r then rest else (false, rows)

-- The loop over the deleted recordings.
unfoldable pub delete_recordings : List String → List Recording → List Row → Bool × List Row
delete_recordings allowed [] rows = (true, rows)
delete_recordings allowed (r ∷ rs) rows =
    let rest =
      delete_recordings allowed rs (delete_agent_recording r.camera_id r.storage_key rows) in
    if contains allowed r.camera_id && not (r.storage_key == "") then rest else (false, rows)

-- The last loop: what is older than the camera keeps its recordings leaves the table.
unfoldable pub prune_cameras : ℕ → List Camera → List Row → List Row
prune_cameras now [] rows = rows
prune_cameras now (c ∷ cs) rows = prune_cameras now cs (
    if ltb 0 c.local_days
    then prune_agent_recordings c.id (now - c.local_days * day) rows
    else rows)

abbrev pub ids_of : List Camera → List String
ids_of = map (λ c. c.id)

-- syncAgentRecordings, for the cameras that ListCameras returns for the site of the agent.
unfoldable pub sync_agent_recordings : ℕ → List Camera → Report → List Row → Answer × List Row
sync_agent_recordings now cameras report rows =
    let (stored, rows1) = store_recordings (ids_of cameras) report.sync_id report.recordings rows in
    let (deleted, rows2) = delete_recordings (ids_of cameras) report.deleted_recordings rows1 in
    let rows3 = (reconcile_recording_inventory "agent" (ids_of cameras) report.sync_id rows2).1 in
    if not stored
    then (invalid_recording, rows1)
    else if not deleted
    then (invalid_deleted, rows2)
    else if report.complete && not (len report.sync_id == 36)
    then (invalid_inventory, rows2)
    else (
      indexed (length report.recordings) (length report.deleted_recordings),
      prune_cameras now cameras (if report.complete then rows3 else rows2),
    )
