-- ===== src/Media/Storage/Space.antt =====
-- RecordingStorageStats and EnforceMinimumFreeSpace of internal/media/storage.go. The walk is the
-- list of the files below the directory, each with the directories on its way, in walk order.
pub mod Reserve
use cloud_nvr.Base.{
  ℕ, ◌+◌, ◌*◌, ◌%◌, ◌^◌, String, Bool, true, false, not, ◌&&◌, ◌||◌, Option, none, some, List, [],
  ◌∷◌, ltb, leb, ◌==◌, string_eq, nat_eq, if◌then◌else◌, length, filter,
}
use cloud_nvr.Base.Sort.{sort_by}
use cloud_nvr.Base.Text.{is_mp4}
use cloud_nvr.Media.Storage.Identity.{
  Error, Result, ok, err, Storage, Outcome, ensure_recording_storage,
}

abbrev pub u64 : ℕ → ℕ
u64 n = n % 18_446_744_073_709_551_616

-- The fields of syscall.Statfs_t that are read.
pub record Statfs : Type 0 where
  pub blocks : ℕ
  pub bavail : ℕ
  pub bsize : ℕ

pub record StorageStats : Type 0 where
  pub total_bytes : ℕ
  pub free_bytes : ℕ

pub data Refusal : Type 0 where
  storage : Error → Refusal
  statfs_failed walk_failed : Refusal
  below_minimum : ℕ → ℕ → Refusal

pub data Stats : Type 0 where
  stats : StorageStats → Stats
  refused : Refusal → Stats

abbrev stats_after : Result → Option Statfs → Stats
stats_after (err e) fs = refused (storage e)
stats_after ok none = refused statfs_failed
stats_after ok (some fs) =
    stats
      (record { total_bytes = u64 (fs.blocks * fs.bsize); free_bytes = u64 (fs.bavail * fs.bsize) })

-- RecordingStorageStats, with the outcome of Statfs.
unfoldable pub recording_storage_stats : Outcome → Option Statfs → Storage → Stats × Storage
recording_storage_stats o fs s =
    let (r, s') = ensure_recording_storage o s in (stats_after r fs, s')

pub record VideoFile : Type 0 where
  pub directories : List String
  pub name : String
  pub size : ℕ
  pub modified : ℕ
  pub info_ok : Bool
  pub removable : Bool

unfoldable pub is_skipped : List String → Bool
is_skipped [] = false
is_skipped (d ∷ ds) =
    let rest = is_skipped ds in d == ".staging" || d == "_playback_cache" || d == ".gitdata" || rest

-- The files that the walk collects: finalized segments that nobody has written for `settle`.
unfoldable pub is_candidate : ℕ → ℕ → VideoFile → Bool
is_candidate settle now f =
    not (is_skipped f.directories)
    && is_mp4 f.name
    && f.info_ok
    && not (ltb now (f.modified + settle))

-- The loop that deletes: the space then available, and the files deleted, in order.
unfoldable pub reclaim : ℕ → ℕ → List VideoFile → ℕ × List VideoFile
reclaim minimum available [] = (available, [])
reclaim minimum available (f ∷ rest) = elim (leb minimum available) [
  | true ↦ (available, [])
  | false ↦ elim f.removable [
    | true ↦ let (a, deleted) = reclaim minimum (u64 (available + f.size)) rest in (a, f ∷ deleted)
    | false ↦ reclaim minimum available rest
  ]
]

pub data Reclaimed : Type 0 where
  deleted : ℕ → Reclaimed
  failed : Refusal → Reclaimed

unfoldable pub reclaim_from : ℕ → ℕ → ℕ → Bool → List VideoFile → ℕ → Reclaimed × List VideoFile
unfolding reclaim
reclaim_from minimum settle now walk_ok files free =
    if not walk_ok
    then (failed walk_failed, [])
    else (let (available, gone) =
          reclaim minimum free
            (sort_by (λ f. f.modified) (filter (is_candidate settle now) files)) in
        if ltb available minimum
        then (failed (below_minimum available minimum), gone)
        else (deleted (length gone), gone))

unfoldable pub enforce_with : ℕ → ℕ → ℕ → Bool → List VideoFile → Stats → Reclaimed × List VideoFile
unfolding reclaim_from
enforce_with minimum settle now walk_ok files (refused r) = (failed r, [])
enforce_with minimum settle now walk_ok files (stats s) =
    if leb minimum s.free_bytes
    then (deleted 0, [])
    else reclaim_from minimum settle now walk_ok files s.free_bytes

-- EnforceMinimumFreeSpace: the result, the files deleted, and the storage after the check.
unfoldable pub enforce_minimum_free_space :
    Outcome
    → Option Statfs
    → ℕ
    → ℕ
    → ℕ
    → Bool
    → List VideoFile
    → Storage
    → (Reclaimed × List VideoFile) × Storage
unfolding enforce_with
enforce_minimum_free_space o fs minimum settle now walk_ok files s =
    if minimum == 0
    then ((deleted 0, []), s)
    else (let (st, s') = recording_storage_stats o fs s in
        (enforce_with minimum settle now walk_ok files st, s'))
