-- ===== src/Playback/Cache.antt =====
-- The cache directory of internal/cloud/playback_broker.go, and the files that it may drop.
-- A directory is the list of its entries as `os.ReadDir` lists them. `readable` is whether
-- `os.ReadDir` succeeds, `info_ok` whether `Stat` and `Info` do, `removable` whether `os.Remove` does.
use cloud_nvr.Base.{
  ℕ, ◌+◌, ◌-◌, String, ◌<>◌, Bool, true, false, not, ◌&&◌, ◌||◌, Option, none, some, List, [], ◌∷◌,
  ◌++◌, ltb, leb, string_eq, if◌then◌else◌,
}
use cloud_nvr.Base.Dict.{Dict, lookup, erase}
use cloud_nvr.Base.Sort.{sort_by}
use cloud_nvr.Base.Text.{ends_with}

pub record CacheFile : Type 0 where
  pub is_dir : Bool
  pub info_ok : Bool
  pub regular : Bool
  pub size : ℕ
  pub modified : ℕ
  pub removable : Bool

pub record Cache : Type 0 where
  pub readable : Bool
  pub entries : Dict String CacheFile

-- os.Remove: whether it succeeded, and the directory after it.
unfoldable pub remove : String → Cache → Bool × Cache
remove name c = elim (lookup name c.entries) [
  | none ↦ (false, c)
  | some f ↦ if f.removable then (true, record c { entries = erase name c.entries }) else (false, c)
]

-- The path of a recording in the cache, without the directory in front.
unfoldable pub cache_path : String → String
cache_path recording_id = recording_id <> ".mp4"

cache_ready_at : Option CacheFile → String → ℕ → ℕ → Cache → Bool × Cache
unfolding remove
cache_ready_at none name ttl now c = (false, c)
cache_ready_at (some f) name ttl now c =
    if not f.info_ok
    then (false, c)
    else if ltb (f.modified + ttl) now
    then (false, (remove name c).1)
    else (f.regular && ltb 0 f.size, c)

-- A stale file is removed on the way.
unfoldable pub cache_ready : String → ℕ → ℕ → Cache → Bool × Cache
unfolding cache_ready_at cache_path
cache_ready recording_id ttl now c =
    cache_ready_at (lookup (cache_path recording_id) c.entries) (cache_path recording_id) ttl now c

pub record CachedFile : Type 0 where
  pub path : String
  pub size : ℕ
  pub modified : ℕ

pub record Scan : Type 0 where
  pub files : List CachedFile
  pub total : ℕ
  pub left : Cache

-- Is the entry one that the scan counts? Directories, other files and unreadable ones are not.
abbrev pub counted : String → CacheFile → Bool
counted name f = not (f.is_dir || not (ends_with name ".mp4")) && f.info_ok

-- The loop over the entries of enforceCacheLimitLocked, from the scan so far.
unfoldable pub scan : ℕ → ℕ → List (String × CacheFile) → Scan → Scan
unfolding remove
scan ttl now [] s = s
scan ttl now ((name, f) ∷ rest) s = scan ttl now rest (
    if not (counted name f)
    then s
    else if ltb (f.modified + ttl) now
    then record s { left = (remove name s.left).1 }
    else record s {
      files = s.files ++ record { path = name; size = f.size; modified = f.modified } ∷ [];
      total = s.total + f.size;
    })

-- The loop that removes the oldest files until the total fits.
unfoldable pub evict : ℕ → List CachedFile → ℕ → Cache → ℕ × Cache
unfolding remove
evict limit [] total c = (total, c)
evict limit (f ∷ rest) total c = elim (leb total limit) [
  | true ↦ (total, c)
  | false ↦
      let (removed, c') = remove f.path c in
      evict limit rest (if removed then total - f.size else total) c'
]

-- enforceCacheLimitLocked
unfoldable pub enforce_cache_limit : ℕ → ℕ → ℕ → Cache → Cache
unfolding scan evict
enforce_cache_limit limit ttl now c =
    if not c.readable
    then c
    else (let s = scan ttl now c.entries (record { files = []; total = 0; left = c }) in
        if leb s.total limit
        then s.left
        else (evict limit (sort_by (λ f. f.modified) s.files) s.total s.left).1)
