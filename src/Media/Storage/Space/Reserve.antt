-- ===== src/Media/Storage/Space/Reserve.antt =====
-- The reserve that EnforceMinimumFreeSpace of internal/media/storage.go keeps.
use cloud_nvr.Base.{
  ℕ, suc, ◌+◌, ◌≤◌, ◌<◌, ◌≡◌, refl, inl, inr, Bool, true, false, Option, List, [], ◌∷◌, arith, leb,
  if◌then◌else◌, ◌==◌, nat_eq, string_eq, Bool-cases, length, take, filter, All,
}
use cloud_nvr.Base.{String, ◌≢◌, eq_iff, All-weaken}
use cloud_nvr.Base.Text.{is_mp4}
use cloud_nvr.Base.Sort.{sort_by, IsSortedBy, sort_by-IsSortedBy, All-sort_by}
use cloud_nvr.Media.Storage.Identity.{Storage, Outcome}
use cloud_nvr.Media.Storage.Space.{
  u64, Statfs, StorageStats, Stats, stats, refused, VideoFile, is_candidate, is_skipped, reclaim,
  Reclaimed, deleted, failed, below_minimum, reclaim_from, enforce_with, recording_storage_stats,
  enforce_minimum_free_space,
}

-- The order of deletion.
abbrev pub queue : ℕ → ℕ → List VideoFile → List VideoFile
queue settle now files =
    sort_by (λ (f : VideoFile). f.modified) (filter (is_candidate settle now) files)

All-filter {ℓ} : {A : Type ℓ} (p : A → Bool) (xs : List A) → All (λ x. p x ≡ true) (filter p xs)
All-filter p [] = tt
All-filter p (x ∷ xs) = ground (arith, All-filter p xs)

-- Some first part of the list that deletes what can be deleted.
reclaim-prefix :
    (minimum available : ℕ) (files : List VideoFile)
    → (n : ℕ) × ((reclaim minimum available files).1 ≡ filter (λ f. f.removable) (take n files))
unfolding reclaim
reclaim-prefix minimum available [] = (0, refl)
reclaim-prefix minimum available (f ∷ rest) = elim (Bool-cases (leb minimum available)) [
  | inl e ↦ (0, ground (arith, e))
  | inr e ↦ elim (Bool-cases f.removable) [
    | inl r ↦
        let (n, h) = reclaim-prefix minimum (u64 (available + f.size)) rest in
        (suc n, ground (arith, h))
    | inr r ↦ let (n, h) = reclaim-prefix minimum available rest in (suc n, ground (arith, h))
  ]
]

reclaim-All :
    (P : VideoFile → Type 0) (minimum available : ℕ) (files : List VideoFile)
    → All P files
    → All P (reclaim minimum available files).1
unfolding reclaim
reclaim-All P minimum available [] h = tt
reclaim-All P minimum available (f ∷ rest) h = ground (
  arith,
  reclaim-All P minimum (u64 (available + f.size)) rest h.1,
  reclaim-All P minimum available rest h.1,
)

abbrev pub sizes : List VideoFile → ℕ
sizes [] = 0
sizes (f ∷ fs) = f.size + sizes fs

-- The count of available bytes is the free space with the deleted files' sizes.
reclaim-available :
    (minimum available : ℕ) (files : List VideoFile)
    → available + sizes files < 18_446_744_073_709_551_616
    → (reclaim minimum available files).0 ≡ available + sizes (reclaim minimum available files).1
unfolding reclaim
reclaim-available minimum available [] h = omega arith
reclaim-available minimum available (f ∷ rest) h = ground (
  arith,
  reclaim-available minimum (u64 (available + f.size)) rest,
  reclaim-available minimum available rest,
)

-- If the reserve is not met at the end, everything that could be deleted was.
reclaim-exhausts :
    (minimum available : ℕ) (files : List VideoFile)
    → (reclaim minimum available files).0 < minimum
    → (reclaim minimum available files).1 ≡ filter (λ f. f.removable) files
unfolding reclaim
reclaim-exhausts minimum available [] h = refl
reclaim-exhausts minimum available (f ∷ rest) h = ground (
  arith,
  reclaim-exhausts minimum (u64 (available + f.size)) rest,
  reclaim-exhausts minimum available rest,
)

All-if {ℓ κ} :
    {A : Type ℓ} (P : A → Type κ) (b : Bool) (xs ys : List A)
    → All P xs
    → All P ys
    → All P (if b then xs else ys)
All-if P true xs ys h k = h
All-if P false xs ys h k = k

-- A video that nobody has written for `settle`, outside the directories that are left alone.
abbrev pub IsFinal : ℕ → ℕ → VideoFile → Type 0
IsFinal settle now f =
    (is_mp4 f.name ≡ true)
    × (f.modified + settle ≤ now)
    × All (λ d. (d ≢ ".staging") × (d ≢ "_playback_cache") × (d ≢ ".gitdata")) f.directories

not_skipped :
    (ds : List String)
    → is_skipped ds ≡ false
    → All (λ d. (d ≢ ".staging") × (d ≢ "_playback_cache") × (d ≢ ".gitdata")) ds
unfolding is_skipped
not_skipped [] h = tt
not_skipped (d ∷ ds) h = (
  ground (arith, h, eq_iff d ".staging", eq_iff d "_playback_cache", eq_iff d ".gitdata"),
  not_skipped ds (ground (arith, h)),
)

is_candidate-IsFinal :
    (settle now : ℕ) (f : VideoFile) → is_candidate settle now f ≡ true → IsFinal settle now f
unfolding is_candidate
is_candidate-IsFinal settle now f h =
    (ground (arith, h), ground (arith, h), not_skipped f.directories (ground (arith, h)))

abbrev pub gone : (Reclaimed × List VideoFile) × Storage → List VideoFile
gone ((r, files), s) = files

abbrev pub outcome : (Reclaimed × List VideoFile) × Storage → Reclaimed
outcome ((r, files), s) = r

module _ (minimum settle now : ℕ) (walk_ok : Bool) (files : List VideoFile) where
  enforce_with-prefix :
      (st : Stats)
      → (n : ℕ) × ((enforce_with minimum settle now walk_ok files st).1
          ≡ filter (λ f. f.removable) (take n (queue settle now files)))
  unfolding enforce_with reclaim_from
  enforce_with-prefix (refused r) = (0, refl)
  enforce_with-prefix (stats s) = elim (Bool-cases (leb minimum s.free_bytes)) [
    | inl e ↦ (0, ground (arith, e))
    | inr e ↦ elim (Bool-cases walk_ok) [
      | inl w ↦
          let (n, h) = reclaim-prefix minimum s.free_bytes (queue settle now files) in
          (n, ground (arith, e, w, h))
      | inr w ↦ (0, ground (arith, e, w))
    ]
  ]

  enforce_with-files :
      (s : StorageStats)
      → (enforce_with minimum settle now walk_ok files (stats s)).1 ≡ (
          if leb minimum s.free_bytes
          then []
          else if walk_ok
          then (reclaim minimum s.free_bytes (queue settle now files)).1
          else [])
  unfolding enforce_with reclaim_from
  enforce_with-files s = ground arith

  enforce_with-All :
      (st : Stats)
      → All
          (λ f. is_candidate settle now f ≡ true)
          (enforce_with minimum settle now walk_ok files st).1
  unfolding enforce_with reclaim_from
  enforce_with-All (refused r) = tt
  enforce_with-All (stats s) = rw (enforce_with-files s) (
      All-if _ (leb minimum s.free_bytes) [] _ tt (
        All-if _ walk_ok _ []
          (reclaim-All (λ f. is_candidate settle now f ≡ true) minimum s.free_bytes
            (queue settle now files)
            (All-sort_by (λ f. f.modified) (λ f. is_candidate settle now f ≡ true)
              (filter (is_candidate settle now) files)
              (All-filter (is_candidate settle now) files)))
          tt))

  -- When it succeeds below the reserve, the free space and what was deleted meet the reserve, and
  -- the count is that of the deleted files. When it reports that the reserve is not met, all that
  -- could be deleted was. (The sizes do not overflow 64 bits.)
  enforce_with-reserve :
      (st : StorageStats) (n a m : ℕ)
      → st.free_bytes + sizes (queue settle now files) < 18_446_744_073_709_551_616
      → let (r, del) = enforce_with minimum settle now walk_ok files (stats st) in
        (r ≡ deleted n → (n ≡ length del) × (minimum ≤ st.free_bytes + sizes del))
        × (r ≡ failed (below_minimum a m)
            → (del ≡ filter (λ f. f.removable) (queue settle now files))
              × (st.free_bytes + sizes del < minimum))
  unfolding enforce_with reclaim_from
  enforce_with-reserve st n a m h = ground (
    arith,
    reclaim-available minimum st.free_bytes (queue settle now files),
    reclaim-exhausts minimum st.free_bytes (queue settle now files),
  )

  module _ (o : Outcome) (fs : Option Statfs) (s : Storage) where
    -- What is deleted is an initial part of the candidates in the order of their age, less those
    -- that the system refuses to delete. Each deleted file is a settled .mp4 outside the skipped
    -- directories, among them the staging directory that FFmpeg writes to.
    pub enforce_oldest :
        let all = queue settle now files in
        let del = gone (enforce_minimum_free_space o fs minimum settle now walk_ok files s) in
        (n : ℕ) × (del ≡ filter (λ f. f.removable) (take n all))
        × IsSortedBy (λ (f : VideoFile). f.modified) all
        × All (IsFinal settle now) del
    unfolding enforce_minimum_free_space
    enforce_oldest =
        let st = (recording_storage_stats o fs s).0 in
        let (n, h) = enforce_with-prefix st in
        let sorted =
          sort_by-IsSortedBy (λ (f : VideoFile). f.modified)
            (filter (is_candidate settle now) files) in
        elim (Bool-cases (minimum == 0)) [
          | inl e ↦ simp e (0, refl, sorted, tt)
          | inr e ↦ simp e (
            n,
            h,
            sorted,
            All-weaken (λ f. is_candidate settle now f ≡ true) (IsFinal settle now) _
                (is_candidate-IsFinal settle now) (enforce_with-All st),
          )
        ]

    -- Below the reserve, and with sizes that do not overflow 64 bits: on success the free space
    -- and the sizes of what was deleted meet the reserve, and the count is right; the error says
    -- that they do not meet it although everything that could be deleted was.
    pub enforce_reserve :
        (st : StorageStats) (n a m : ℕ)
        → 0 < minimum
        → (recording_storage_stats o fs s).0 ≡ stats st
        → st.free_bytes + sizes (queue settle now files) < 18_446_744_073_709_551_616
        → let run = enforce_minimum_free_space o fs minimum settle now walk_ok files s in
          (outcome run ≡ deleted n
            → (n ≡ length (gone run)) × (minimum ≤ st.free_bytes + sizes (gone run)))
          × (outcome run ≡ failed (below_minimum a m)
              → (gone run ≡ filter (λ f. f.removable) (queue settle now files))
                × (st.free_bytes + sizes (gone run) < minimum))
    unfolding enforce_minimum_free_space
    enforce_reserve st n a m pos e h =
        let nonzero : (minimum == 0) ≡ false = ground arith in
        simp (nonzero, e) (enforce_with-reserve st n a m h)
