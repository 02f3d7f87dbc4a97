-- ===== src/Cloud/Indexed.antt =====
-- What a pass of syncCloudRecordings in cmd/cloud/main.go leaves in the table of recordings.
use cloud_nvr.Base.{
  ℕ, suc, ◌-◌, ◌*◌, ◌≡◌, refl, ◌≢◌, inl, inr, String, Bool, true, not, ◌&&◌, some, List, [], ◌∷◌,
  ◌==◌, nat_eq, string_eq, Bool-cases, All,
}
use cloud_nvr.Base.Time.{day}
use cloud_nvr.Store.Cameras.{Camera}
use cloud_nvr.Store.Recordings.{
  Recording, Row, contains, token_differs, upsert_recording_inventory, prune_cloud_recordings,
  ended_before,
}
use cloud_nvr.Store.Recordings.Inventory.{upsert_all}
use cloud_nvr.Store.Recordings.Reconciled.{reported, inventory_lem, All-delete_where}
use cloud_nvr.Media.Storage.Space.{deleted}
use cloud_nvr.Media.Workers.Recorder.{RecordingStream}
use cloud_nvr.Media.Segments.Sidecar.{RecordingFile}
use cloud_nvr.Cloud.{
  Tools, cloud_streams, Indexing, recording_of, index_from, ids_of, prune_streams, World, Kept,
  sync_cloud_recordings,
}

-- The recordings of the scanned files, with their new ids.
abbrev pub recordings_from : (ℕ → Indexing) → ℕ → List RecordingFile → List Recording
recordings_from indexing n [] = []
recordings_from indexing n (f ∷ fs) =
    recording_of (indexing n).id f ∷ recordings_from indexing (suc n) fs

index_all :
    (token : String) (indexing : ℕ → Indexing) (n : ℕ) (fs : List RecordingFile) (rows : List Row)
    → ((k : ℕ) → (indexing k).stored ≡ true)
    → index_from token indexing n fs rows
      ≡ (true, upsert_all (recordings_from indexing n fs) token rows)
unfolding index_from upsert_all
index_all token indexing n [] rows h = refl
index_all token indexing n (f ∷ fs) rows h = rw (h n) (
    rw
      (index_all token indexing (suc n) fs
        (upsert_recording_inventory (recording_of (indexing n).id f) token rows) h)
      refl)

All-prune :
    (P : Row → Type 0) (camera : String) (cutoff : ℕ) (rows : List Row)
    → All P rows
    → All P (prune_cloud_recordings camera cutoff rows)
unfolding prune_cloud_recordings
All-prune P camera cutoff rows h =
    All-delete_where
      (λ row. row.camera_id == camera && row.source == "cloud" && ended_before cutoff row) P P rows
      (λ x p _. p) h

All-prune_streams :
    (P : Row → Type 0) (now : ℕ) (pruned : String → Bool) (ss : List RecordingStream)
    (rows : List Row)
    → All P rows
    → All P (prune_streams now pruned ss rows)
unfolding prune_streams
All-prune_streams P now pruned [] rows h = h
All-prune_streams P now pruned (s ∷ ss) rows h =
    elim (Bool-cases (not (s.retention_days == 0) && pruned s.id)) [
      | inl e ↦ rw e (
          All-prune_streams P now pruned ss _
            (All-prune P s.id (now - s.retention_days * day) rows h))
      | inr e ↦ rw e (All-prune_streams P now pruned ss rows h)
    ]

-- After a pass that read the cameras, had the space it needs, scanned the files, and stored and
-- reconciled them under a token that no row had before, each row of a recording of the cloud for a
-- camera that is recorded there is one of the scanned files.
pub sync_cloud_recordings-reported :
    (tools : Tools) (w : World) (k : Kept) (cs : List Camera) (removed : ℕ)
    (files : List RecordingFile) (token : String)
    → w.cameras ≡ some cs
    → w.enforced ≡ deleted removed
    → w.scanned (cloud_streams tools cs) ≡ some files
    → w.token ≡ some token
    → w.reconciled ≡ true
    → ((n : ℕ) → (w.indexing n).stored ≡ true)
    → token ≢ ""
    → All (λ x. token_differs x.inventory_token token ≡ true) k.rows
    → All
        (λ x.
          x.source ≡ "cloud"
          → contains (ids_of (cloud_streams tools cs)) x.camera_id ≡ true
          → reported (recordings_from w.indexing 0 files) x.source x.storage_key ≡ true)
        (sync_cloud_recordings tools w k).1.rows
unfolding sync_cloud_recordings
sync_cloud_recordings-reported tools w k cs removed files token c e s t r h ne fresh =
    let streams = cloud_streams tools cs in
    rw (c, e, s, t)
      (rw (index_all token w.indexing 0 files k.rows h, r)
        (All-prune_streams _ w.now w.pruned streams _
          (inventory_lem "cloud" (ids_of streams) token (recordings_from w.indexing 0 files) k.rows
            ne fresh).1))
