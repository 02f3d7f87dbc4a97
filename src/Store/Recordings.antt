-- ===== src/Store/Recordings.antt =====
-- The table `recordings` of internal/store/store.go.
pub mod Inventory
pub mod Reconciled
use cloud_nvr.Base.{
  ℕ, String, Bool, true, false, not, ◌&&◌, ◌||◌, Option, none, some, List, [], ◌∷◌, ◌++◌, ltb,
  filter, length, ◌==◌, string_eq, nat_eq, if◌then◌else◌, ◌-◌,
}

-- domain.Recording, as far as it is stored.
pub record Recording : Type 0 where
  pub id : String
  pub camera_id : String
  pub source : String
  pub storage_key : String
  pub checksum : String
  pub started_at : ℕ
  pub ended_at : Option ℕ
  pub size_bytes : ℕ
  pub event_type : String

-- A row of the table. A NULL is `none`.
pub record Row : Type 0 where
  pub id : String
  pub camera_id : String
  pub source : String
  pub storage_key : String
  pub checksum : Option String
  pub started_at : ℕ
  pub ended_at : Option ℕ
  pub size_bytes : ℕ
  pub event_type : String
  pub inventory_token : Option String

-- NULLIF(?, '')
abbrev pub null_if_empty : String → Option String
null_if_empty s = if s == "" then none else some s

-- COALESCE(a, b)
abbrev pub coalesce : Option String → Option String → Option String
coalesce none b = b
coalesce (some a) b = some a

abbrev pub row_of : Recording → Option String → Row
row_of r token = record {
  id = r.id;
  camera_id = r.camera_id;
  source = r.source;
  storage_key = r.storage_key;
  checksum = null_if_empty r.checksum;
  started_at = r.started_at;
  ended_at = r.ended_at;
  size_bytes = r.size_bytes;
  event_type = r.event_type;
  inventory_token = token;
}

-- The condition `source = ? AND storage_key = ?`, where texts are equal only if they are the same; the
-- collation of the deployment also takes the two cases of a letter as equal.
abbrev pub same_file : String → String → Row → Bool
same_file source key row = row.source == source && row.storage_key == key

unfoldable pub any : (Row → Bool) → List Row → Bool
any p [] = false
any p (x ∷ xs) = let rest = any p xs in p x || rest

unfoldable pub update_where : (Row → Bool) → (Row → Row) → List Row → List Row
update_where p f [] = []
update_where p f (x ∷ xs) = (if p x then f x else x) ∷ update_where p f xs

abbrev pub delete_where : (Row → Bool) → List Row → List Row
delete_where p = filter (λ x. not (p x))

-- INSERT … ON DUPLICATE KEY UPDATE: the only unique key of the table is its `id`.
unfoldable pub insert_or_update : Row → List Row → List Row
insert_or_update new [] = new ∷ []
insert_or_update new (x ∷ xs) =
    if x.id == new.id
    then record x {
      checksum = coalesce new.checksum x.checksum;
      ended_at = new.ended_at;
      size_bytes = new.size_bytes;
      event_type = new.event_type;
    }
      ∷ xs
    else x ∷ insert_or_update new xs

-- UpsertRecording: the row is offered to the INSERT only if no row has the same file.
unfoldable pub upsert_recording : Recording → List Row → List Row
upsert_recording r rows =
    if any (same_file r.source r.storage_key) rows
    then rows
    else insert_or_update (row_of r none) rows

abbrev pub refreshed : Recording → String → Row → Row
refreshed r token row = record row {
  checksum = coalesce (null_if_empty r.checksum) row.checksum;
  ended_at = r.ended_at;
  size_bytes = r.size_bytes;
  event_type = r.event_type;
  inventory_token = some token;
}

-- UpsertRecordingInventory: the INSERT and the UPDATE of one transaction. The id is not in use.
unfoldable pub upsert_recording_inventory : Recording → String → List Row → List Row
upsert_recording_inventory r token rows =
    let inserted =
      if any (same_file r.source r.storage_key) rows
      then rows
      else rows ++ row_of r (some token) ∷ [] in
    update_where (same_file r.source r.storage_key) (refreshed r token) inserted

unfoldable pub contains : List String → String → Bool
contains [] s = false
contains (x ∷ xs) s = let rest = contains xs s in x == s || rest

abbrev pub token_differs : Option String → String → Bool
token_differs none token = true
token_differs (some t) token = not (t == token)

-- The condition of the DELETE of ReconcileRecordingInventory.
abbrev pub is_orphan : String → List String → String → Row → Bool
is_orphan source cameras token row =
    row.source == source
    && contains cameras row.camera_id
    && token_differs row.inventory_token token

abbrev pub is_empty : List String → Bool
is_empty [] = true
is_empty (_ ∷ _) = false

-- ReconcileRecordingInventory: how many rows were deleted, and the table.
unfoldable pub reconcile_recording_inventory :
    String → List String → String → List Row → ℕ × List Row
reconcile_recording_inventory source cameras token rows =
    if is_empty cameras || token == ""
    then (0, rows)
    else (let left = delete_where (is_orphan source cameras token) rows in
        (length rows - length left, left))

abbrev pub ended_before : ℕ → Row → Bool
ended_before cutoff row = elim row.ended_at [ none ↦ false | some t ↦ ltb t cutoff ]

-- PruneCloudRecordings and PruneAgentRecordings
unfoldable pub prune_recordings : String → String → ℕ → List Row → List Row
prune_recordings source camera cutoff =
    delete_where (λ row. row.camera_id == camera && row.source == source && ended_before cutoff row)

unfoldable pub prune_cloud_recordings : String → ℕ → List Row → List Row
unfolding prune_recordings
prune_cloud_recordings = prune_recordings "cloud"

unfoldable pub prune_agent_recordings : String → ℕ → List Row → List Row
unfolding prune_recordings
prune_agent_recordings = prune_recordings "agent"

-- DeleteAgentRecording
unfoldable pub delete_agent_recording : String → String → List Row → List Row
delete_agent_recording camera key =
    delete_where (λ row. row.source == "agent" && row.camera_id == camera && row.storage_key == key)
