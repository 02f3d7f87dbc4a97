-- ===== src/Playback/Broker.antt =====
-- internal/cloud/playback_broker.go: the requests for recordings that an agent uploads. Every
-- method holds the mutex from its start to its end, so it is one step on the broker, and it reads
-- the clock as if at one instant, `now`. The cache directory belongs to the state.
pub mod Kept
pub mod Handout
pub mod WellFormed
pub mod Lease
pub mod Runs
mod Examples
use cloud_nvr.Base.{
  ℕ, ◌*◌, ◌+◌, String, Bool, true, false, not, ◌&&◌, ◌||◌, Option, none, some, List, [], ◌∷◌, ltb,
  ◌==◌, string_eq, if◌then◌else◌,
}
use cloud_nvr.Base.Dict.{Dict, lookup, insert}
use cloud_nvr.Base.Sort.{sort_by}
use cloud_nvr.Base.Time.{minute}
use cloud_nvr.Playback.Cache.{Cache, remove, cache_path, cache_ready, enforce_cache_limit}

-- The values of the field Status: "queued", "uploading", "ready", "error".
pub data Status : Type 0 where
  queued uploading ready error : Status

abbrev pub status_beq : Status → Status → Bool
status_beq queued queued = true
status_beq uploading uploading = true
status_beq ready ready = true
status_beq error error = true
status_beq _ _ = false

abbrev pub playback_request_ttl : ℕ
playback_request_ttl = 10 * minute

abbrev pub playback_upload_lease : ℕ
playback_upload_lease = 30 * minute

pub record PlaybackRequest : Type 0 where
  pub id : String
  pub recording_id : String
  pub site_id : String
  pub storage_key : String
  pub checksum : String
  pub status : Status
  pub message : String
  pub created_at : ℕ
  pub updated_at : ℕ

-- The fields of domain.Recording that the broker reads.
pub record Wanted : Type 0 where
  pub id : String
  pub site_id : String
  pub storage_key : String
  pub checksum : String

pub record Broker : Type 0 where
  pub cache_ttl : ℕ
  pub cache_max_bytes : ℕ
  pub requests : Dict String PlaybackRequest
  pub cache : Cache

unfoldable pub new_broker : ℕ → ℕ → Cache → Broker
new_broker ttl max_bytes cache = record {
  cache_ttl = ttl;
  cache_max_bytes = max_bytes;
  requests = [];
  cache = cache;
}

abbrev pub touch : ℕ → Status → PlaybackRequest → PlaybackRequest
touch now status r = record r { status = status; updated_at = now }

-- How long a request of this status may stay untouched.
abbrev pub ttl_of : ℕ → Status → ℕ
ttl_of cache_ttl ready = cache_ttl
ttl_of cache_ttl _ = playback_request_ttl

-- The end of the loop body of cleanupLocked: drop the request, and its file, when it is too old.
unfoldable pub expire : ℕ → ℕ → PlaybackRequest → Cache → Option PlaybackRequest × Cache
unfolding remove cache_path
expire ttl now r c =
    if ltb (r.updated_at + ttl_of ttl r.status) now
    then (none, if status_beq r.status ready then (remove (cache_path r.recording_id) c).1 else c)
    else (some r, c)

-- One round of the loop of cleanupLocked: the request that stays, if it does.
unfoldable pub cleanup_one : ℕ → ℕ → PlaybackRequest → Cache → Option PlaybackRequest × Cache
cleanup_one ttl now r c =
    if status_beq r.status ready
    then (let (cached, c') = cache_ready r.recording_id ttl now c in
        if not cached then (some (touch now queued r), c') else expire ttl now r c')
    else if status_beq r.status uploading && ltb (r.updated_at + playback_upload_lease) now
    then (some (touch now queued r), c)
    else expire ttl now r c

abbrev keep :
    String → Option PlaybackRequest → Dict String PlaybackRequest → Dict String PlaybackRequest
keep k none d = d
keep k (some r) d = (k, r) ∷ d

unfoldable pub cleanup_requests :
    ℕ → ℕ → Dict String PlaybackRequest → Cache → Dict String PlaybackRequest × Cache
cleanup_requests ttl now [] c = ([], c)
cleanup_requests ttl now ((k, r) ∷ d) c =
    let (kept, c') = cleanup_one ttl now r c in
    let (d', c'') = cleanup_requests ttl now d c' in (keep k kept d', c'')

-- cleanupLocked
unfoldable pub cleanup : ℕ → Broker → Broker
cleanup now b =
    let (requests, c) = cleanup_requests b.cache_ttl now b.requests b.cache in
    record b {
      requests = requests;
      cache = enforce_cache_limit b.cache_max_bytes b.cache_ttl now c;
    }

-- The first request that passes a test, in the order of the map.
abbrev pub find : (PlaybackRequest → Bool) → Dict String PlaybackRequest → Option PlaybackRequest
find p [] = none
find p ((_, r) ∷ d) = let rest = find p d in if p r then some r else rest

-- What `prepare` and `status` return for a recording that the cache holds.
abbrev pub ready_answer : String → PlaybackRequest
ready_answer recording_id = record {
  id = "";
  recording_id = recording_id;
  site_id = "";
  storage_key = "";
  checksum = "";
  status = ready;
  message = "";
  created_at = 0;
  updated_at = 0;
}

abbrev pub active_for : String → PlaybackRequest → Bool
active_for recording_id r = r.recording_id == recording_id && not (status_beq r.status error)

-- prepare once the locked cleanup is done; `new_id` is the outcome of id.New.
unfoldable pub prepare_clean : ℕ → Option String → Wanted → Broker → Option PlaybackRequest × Broker
prepare_clean now new_id w b = elim (find (active_for w.id) b.requests) [
  | some r ↦ (some r, b)
  | none ↦ elim new_id [
    | none ↦ (none, b)
    | some i ↦
        let r : PlaybackRequest = record {
          id = i;
          recording_id = w.id;
          site_id = w.site_id;
          storage_key = w.storage_key;
          checksum = w.checksum;
          status = queued;
          message = "";
          created_at = now;
          updated_at = now;
        } in
        (some r, record b { requests = insert i r b.requests })
  ]
]

-- `none` is the error of id.New.
unfoldable pub prepare : ℕ → Option String → Wanted → Broker → Option PlaybackRequest × Broker
prepare now new_id w b =
    let b' = cleanup now b in
    let (cached, c) = cache_ready w.id b'.cache_ttl now b'.cache in
    let b'' : Broker = record b' { cache = c } in
    if cached then (some (ready_answer w.id), b'') else prepare_clean now new_id w b''

unfoldable pub status : ℕ → String → Broker → Option PlaybackRequest × Broker
status now recording_id b =
    let b' = cleanup now b in
    let (cached, c) = cache_ready recording_id b'.cache_ttl now b'.cache in
    let b'' : Broker = record b' { cache = c } in
    if cached
    then (some (ready_answer recording_id), b'')
    else (find (λ r. r.recording_id == recording_id) b''.requests, b'')

abbrev pub candidates : String → Dict String PlaybackRequest → List PlaybackRequest
candidates site_id [] = []
candidates site_id ((_, r) ∷ d) =
    let rest = candidates site_id d in
    if r.site_id == site_id && status_beq r.status queued then r ∷ rest else rest

-- The requests sit in the map under their own id, so the pointer write is an update at the id.
unfoldable pub hand_out : ℕ → Broker → List PlaybackRequest → Option PlaybackRequest × Broker
hand_out now b [] = (none, b)
hand_out now b (r ∷ _) =
    let r' = touch now uploading r in (some r', record b { requests = insert r.id r' b.requests })

unfoldable pub next : ℕ → String → Broker → Option PlaybackRequest × Broker
unfolding hand_out
next now site_id b =
    let b' = cleanup now b in
    hand_out now b' (sort_by (λ r. r.created_at) (candidates site_id b'.requests))

-- May the agent of this site go on with the request?
abbrev pub open_for : String → PlaybackRequest → Bool
open_for site_id r =
    r.site_id == site_id && (status_beq r.status uploading || status_beq r.status queued)

-- request(requestID, siteID); `none` is `nil, false`.
unfoldable pub request : ℕ → String → String → Broker → Option PlaybackRequest × Broker
request now request_id site_id b = elim (lookup request_id b.requests) [
  | none ↦ (none, b)
  | some r ↦
      if open_for site_id r
      then (let r' : PlaybackRequest = record (touch now uploading r) { message = "" } in
          (some r', record b { requests = insert request_id r' b.requests }))
      else (none, b)
]

-- A change of one request, if it is there.
abbrev pub update : String → (PlaybackRequest → PlaybackRequest) → Broker → Broker
update request_id f b = elim (lookup request_id b.requests) [
  | none ↦ b
  | some r ↦ record b { requests = insert request_id (f r) b.requests }
]

unfoldable pub requeue : ℕ → String → Broker → Broker
requeue now request_id = update request_id (λ r. record (touch now queued r) { message = "" })

unfoldable pub set_ready : ℕ → String → Broker → Broker
set_ready now request_id b =
    let b' = update request_id (touch now ready) b in
    record b' { cache = enforce_cache_limit b'.cache_max_bytes b'.cache_ttl now b'.cache }

unfoldable pub fail : ℕ → String → String → Broker → Broker
fail now request_id message =
    update request_id (λ r. record (touch now error r) { message = message })
