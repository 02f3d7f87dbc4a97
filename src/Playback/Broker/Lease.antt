-- ===== src/Playback/Broker/Lease.antt =====
-- How long a request lives: cleanupLocked of internal/cloud/playback_broker.go.
use cloud_nvr.Base.{ℕ, ◌+◌, ◌≤◌, ◌<◌, ◌≡◌, String, none, some, arith, string_eq}
use cloud_nvr.Base.Dict.{lookup, NodupKeys}
use cloud_nvr.Playback.Broker.{
  Status, PlaybackRequest, Broker, ttl_of, playback_request_ttl, playback_upload_lease, cleanup,
}
use cloud_nvr.Playback.Broker.Kept.{lookup-cleanup_requests}

-- After a cleanup no request is older than the time that its status allows: ten minutes since its
-- last update, or the life of the cache for one that is ready.
pub cleanup_fresh :
    (now : ℕ) (b : Broker) (k : String) (r : PlaybackRequest)
    → NodupKeys b.requests
    → lookup k (cleanup now b).requests ≡ some r
    → now ≤ r.updated_at + ttl_of b.cache_ttl r.status
unfolding cleanup
cleanup_fresh now b k r u h =
    ground (arith, lookup-cleanup_requests b.cache_ttl now k b.requests b.cache u)

-- An upload that has gone on for more than ten minutes, and not yet for the lease of thirty, is
-- dropped by the next cleanup: the lease is not waited for.
pub upload_dropped_before_lease :
    (now : ℕ) (b : Broker) (k : String) (r : PlaybackRequest)
    → NodupKeys b.requests
    → lookup k b.requests ≡ some r
    → r.status ≡ Status.uploading
    → r.updated_at + playback_request_ttl < now
    → now ≤ r.updated_at + playback_upload_lease
    → lookup k (cleanup now b).requests ≡ none
unfolding cleanup
upload_dropped_before_lease now b k r u h s old young =
    ground (arith, lookup-cleanup_requests b.cache_ttl now k b.requests b.cache u)
