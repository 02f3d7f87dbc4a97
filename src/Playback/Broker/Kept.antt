-- ===== src/Playback/Broker/Kept.antt =====
-- What cleanupLocked (internal/cloud/playback_broker.go) does to each request.
use cloud_nvr.Base.{
  ℕ, ◌+◌, ◌≤◌, ◌<◌, ◌≡◌, refl, subst, ◌⊎◌, inl, inr, String, true, false, Option, none, some, [],
  ◌∷◌, arith, eq_iff, ◌==◌, string_eq, Bool-cases,
}
use cloud_nvr.Base.Dict.{Dict, lookup, NodupKeys}
use cloud_nvr.Playback.Cache.{Cache, cache_ready}
use cloud_nvr.Playback.Broker.{
  Status, PlaybackRequest, touch, ttl_of, playback_upload_lease, expire, cleanup_one,
  cleanup_requests, keep,
}

-- A request that stays is as it was, within its time, or it was queued again: its file is gone
-- from the cache, or its upload lasted longer than the lease.
abbrev pub Kept : ℕ → ℕ → PlaybackRequest → PlaybackRequest → Type 0
Kept ttl now r r' =
    ((r' ≡ r) × (now ≤ r.updated_at + ttl_of ttl r.status))
    ⊎ ((r' ≡ touch now Status.queued r)
        × ((r.status ≡ Status.ready)
            ⊎ ((r.status ≡ Status.uploading) × (r.updated_at + playback_upload_lease < now))))

expire-eq_self :
    (ttl now : ℕ) (r : PlaybackRequest) (c : Cache) (r' : PlaybackRequest)
    → (expire ttl now r c).0 ≡ some r'
    → (r' ≡ r) × (now ≤ r.updated_at + ttl_of ttl r.status)
unfolding expire
expire-eq_self ttl now r c r' h = ground arith

cleanup_one-Kept :
    (ttl now : ℕ) (r : PlaybackRequest) (c : Cache) (r' : PlaybackRequest)
    → (cleanup_one ttl now r c).0 ≡ some r'
    → Kept ttl now r r'
unfolding cleanup_one
cleanup_one-Kept ttl now r c r' h = ground (
  arith,
  expire-eq_self ttl now r c r',
  expire-eq_self ttl now r (cache_ready r.recording_id ttl now c).1 r',
)

cleanup_requests-none :
    (ttl now : ℕ) (k : String) (d : Dict String PlaybackRequest) (c : Cache)
    → lookup k d ≡ none
    → lookup k (cleanup_requests ttl now d c).0 ≡ none
unfolding cleanup_requests lookup
cleanup_requests-none ttl now k [] c h = refl
cleanup_requests-none ttl now k ((j, r) ∷ d) c h =
    ground (arith, cleanup_requests-none ttl now k d (cleanup_one ttl now r c).1, eq_iff j k)

pub cleanup_requests-NodupKeys :
    (ttl now : ℕ) (d : Dict String PlaybackRequest) (c : Cache)
    → NodupKeys d
    → NodupKeys (cleanup_requests ttl now d c).0
unfolding cleanup_requests
cleanup_requests-NodupKeys ttl now [] c h = tt
cleanup_requests-NodupKeys ttl now ((j, r) ∷ d) c h = ground (
  arith,
  cleanup_requests-NodupKeys ttl now d (cleanup_one ttl now r c).1 h.1,
  cleanup_requests-none ttl now j d (cleanup_one ttl now r c).1 h.0,
)

-- The cleaned entry at a key comes from the entry at that key.
abbrev pub From : ℕ → ℕ → Option PlaybackRequest → Option PlaybackRequest → Type 0
From ttl now none none = Unit
From ttl now none (some r') = ⊥
From ttl now (some r) none = Unit
From ttl now (some r) (some r') = Kept ttl now r r'

From-some :
    (ttl now : ℕ) (r : PlaybackRequest) (o : Option PlaybackRequest)
    → ((r' : PlaybackRequest) → o ≡ some r' → Kept ttl now r r')
    → From ttl now (some r) o
From-some ttl now r none f = tt
From-some ttl now r (some r') f = f r' refl

lookup-keep_self :
    (j k : String) (o : Option PlaybackRequest) (d : Dict String PlaybackRequest)
    → (j == k) ≡ true
    → lookup k d ≡ none
    → lookup k (keep j o d) ≡ o
unfolding lookup
lookup-keep_self j k o d e h = ground arith

lookup-keep_ne :
    (j k : String) (o : Option PlaybackRequest) (d : Dict String PlaybackRequest)
    → (j == k) ≡ false
    → lookup k (keep j o d) ≡ lookup k d
unfolding lookup
lookup-keep_ne j k o d e = ground arith

pub lookup-cleanup_requests :
    (ttl now : ℕ) (k : String) (d : Dict String PlaybackRequest) (c : Cache)
    → NodupKeys d
    → From ttl now (lookup k d) (lookup k (cleanup_requests ttl now d c).0)
unfolding lookup cleanup_requests
lookup-cleanup_requests ttl now k [] c h = tt
lookup-cleanup_requests ttl now k ((j, r) ∷ d) c h =
    let (kept, c') = cleanup_one ttl now r c in
    elim (Bool-cases (j == k)) [
      | inl e ↦
          let gone = cleanup_requests-none ttl now j d c' h.0 in
          rw
            (
              e,
              lookup-keep_self j k kept (cleanup_requests ttl now d c').0 e (
                  subst (λ (i : String). lookup i (cleanup_requests ttl now d c').0 ≡ none)
                    ((eq_iff j k).0 e) gone),
            )
            (From-some ttl now r kept (cleanup_one-Kept ttl now r c))
      | inr e ↦
          rw (e, lookup-keep_ne j k kept (cleanup_requests ttl now d c').0 e)
            (lookup-cleanup_requests ttl now k d c' h.1)
    ]
