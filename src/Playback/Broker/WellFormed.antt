-- ===== src/Playback/Broker/WellFormed.antt =====
-- The invariant of the requests of internal/cloud/playback_broker.go, kept by its methods.
use cloud_nvr.Base.{
  ℕ, ◌≡◌, refl, sym, ◌∙◌, subst, inl, inr, String, Bool, false, Option, none, some, [], ◌∷◌, arith,
  eq_iff, nat_eq, string_eq, Bool-cases, Option-cases,
}
use cloud_nvr.Base.Dict.{Dict, lookup, insert, NodupKeys, lookup-insert, insert-NodupKeys}
use cloud_nvr.Playback.Cache.{Cache, cache_ready}
use cloud_nvr.Playback.Broker.{
  Status, PlaybackRequest, Broker, Wanted, cleanup_requests, cleanup, find, active_for, status_beq,
  prepare_clean, prepare, open_for, request, update, requeue, set_ready, fail,
}
use cloud_nvr.Playback.Broker.Kept.{From, Kept, lookup-cleanup_requests, cleanup_requests-NodupKeys}

-- Every request sits under its own id, and a recording has at most one request that did not fail.
pub record WellFormed (d : Dict String PlaybackRequest) : Type 0 where
  pub nodup : NodupKeys d
  pub keyed : (k : String) (r : PlaybackRequest) → lookup k d ≡ some r → r.id ≡ k
  pub unique :
      (i j : String) (r s : PlaybackRequest)
      → lookup i d ≡ some r
      → lookup j d ≡ some s
      → status_beq r.status Status.error ≡ false
      → status_beq s.status Status.error ≡ false
      → r.recording_id ≡ s.recording_id
      → i ≡ j

Kept-fields :
    (ttl now : ℕ) (r r' : PlaybackRequest)
    → Kept ttl now r r'
    → (r'.id ≡ r.id)
      × (r'.recording_id ≡ r.recording_id)
      × (r'.site_id ≡ r.site_id)
      × (status_beq r'.status Status.error ≡ status_beq r.status Status.error)
Kept-fields ttl now r r' h = ground arith

-- What a cleaned entry comes from.
pub cleaned_from :
    (ttl now : ℕ) (k : String) (d : Dict String PlaybackRequest) (c : Cache) (r' : PlaybackRequest)
    → NodupKeys d
    → lookup k (cleanup_requests ttl now d c).0 ≡ some r'
    → (r : PlaybackRequest) × (lookup k d ≡ some r) × Kept ttl now r r'
cleaned_from ttl now k d c r' u h =
    go (lookup k d) refl
      (subst (From ttl now (lookup k d)) h (lookup-cleanup_requests ttl now k d c u))
  where
    go :
        (o : Option PlaybackRequest)
        → lookup k d ≡ o
        → From ttl now o (some r')
        → (r : PlaybackRequest) × (lookup k d ≡ some r) × Kept ttl now r r'
    go none e f = absurd f
    go (some r) e f = (r, e, f)

cleanup_requests-WellFormed :
    (ttl now : ℕ) (d : Dict String PlaybackRequest) (c : Cache)
    → WellFormed d
    → WellFormed (cleanup_requests ttl now d c).0
cleanup_requests-WellFormed ttl now d c w = record {
  nodup = cleanup_requests-NodupKeys ttl now d c w.nodup;
  keyed = λ k r' h.
      let (r, e, f) = cleaned_from ttl now k d c r' w.nodup h in
      (Kept-fields ttl now r r' f).0 ∙ w.keyed k r e;
  unique = λ i j r' s' hi hj ar al same.
      let (r, e, f) = cleaned_from ttl now i d c r' w.nodup hi in
      let (s, e', f') = cleaned_from ttl now j d c s' w.nodup hj in
      let (_, p, _, q) = Kept-fields ttl now r r' f in
      let (_, p', _, q') = Kept-fields ttl now s s' f' in
      w.unique i j r s e e' (sym q ∙ ar) (sym q' ∙ al) (sym p ∙ same ∙ p');
}

pub cleanup-WellFormed :
    (now : ℕ) (b : Broker) → WellFormed b.requests → WellFormed (cleanup now b).requests
unfolding cleanup
cleanup-WellFormed now b w = cleanup_requests-WellFormed b.cache_ttl now b.requests b.cache w

-- A request may be rewritten in place, unless that revives a failed one.
pub insert-WellFormed :
    (i : String) (r r' : PlaybackRequest) (d : Dict String PlaybackRequest)
    → WellFormed d
    → lookup i d ≡ some r
    → r'.id ≡ r.id
    → r'.recording_id ≡ r.recording_id
    → (status_beq r'.status Status.error ≡ false → status_beq r.status Status.error ≡ false)
    → WellFormed (insert i r' d)
insert-WellFormed i r r' d w e same_id same_recording alive = record {
  nodup = insert-NodupKeys i r' d w.nodup;
  keyed = λ k s h. ground (arith, lookup-insert i k r' d, eq_iff i k, w.keyed k s, w.keyed i r e);
  unique = λ j k s t hj hk live live_t same. ground (
    arith,
    lookup-insert i j r' d,
    lookup-insert i k r' d,
    eq_iff i j,
    eq_iff i k,
    w.unique j k s t,
    w.unique i k r t,
    w.unique j i s r,
  );
}

find-none :
    (p : PlaybackRequest → Bool) (d : Dict String PlaybackRequest) (k : String)
    (r : PlaybackRequest)
    → find p d ≡ none
    → lookup k d ≡ some r
    → p r ≡ false
unfolding lookup
find-none p [] k r h e = cc
find-none p ((j, s) ∷ d) k r h e = ground (arith, find-none p d k r)

fresh-WellFormed :
    (r : PlaybackRequest) (d : Dict String PlaybackRequest)
    → WellFormed d
    → lookup r.id d ≡ none
    → find (active_for r.recording_id) d ≡ none
    → WellFormed (insert r.id r d)
fresh-WellFormed r d w new lone = record {
  nodup = insert-NodupKeys r.id r d w.nodup;
  keyed = λ k s h. ground (arith, lookup-insert r.id k r d, eq_iff r.id k, w.keyed k s);
  unique = λ j k s t hj hk live live_t same. ground (
    arith,
    lookup-insert r.id j r d,
    lookup-insert r.id k r d,
    eq_iff r.id j,
    eq_iff r.id k,
    w.unique j k s t,
    find-none (active_for r.recording_id) d j s lone,
    find-none (active_for r.recording_id) d k t lone,
    eq_iff s.recording_id r.recording_id,
    eq_iff t.recording_id r.recording_id,
  );
}

prepare_clean-WellFormed :
    (now : ℕ) (i : String) (w : Wanted) (b : Broker)
    → WellFormed b.requests
    → lookup i b.requests ≡ none
    → WellFormed (prepare_clean now (some i) w b).1.requests
unfolding prepare_clean
prepare_clean-WellFormed now i w b v new = elim (Option-cases (find (active_for w.id) b.requests)) [
  | inl e ↦ rw (e, prepare_clean) (fresh-WellFormed _ b.requests v new e)
  | inr (r, e) ↦ rw (e, prepare_clean) v
]

cleanup-fresh_id :
    (now : ℕ) (i : String) (b : Broker)
    → WellFormed b.requests
    → lookup i b.requests ≡ none
    → lookup i (cleanup now b).requests ≡ none
unfolding cleanup
cleanup-fresh_id now i b w e =
    ground (arith, lookup-cleanup_requests b.cache_ttl now i b.requests b.cache w.nodup)

-- `prepare` with an id that is not in use keeps the invariant: it makes no second request for a
-- recording that already has one that did not fail.
pub prepare-WellFormed :
    (now : ℕ) (i : String) (w : Wanted) (b : Broker)
    → WellFormed b.requests
    → lookup i b.requests ≡ none
    → WellFormed (prepare now (some i) w b).1.requests
unfolding prepare
prepare-WellFormed now i w b v new =
    let b' = cleanup now b in
    let (cached, c) = cache_ready w.id b'.cache_ttl now b'.cache in
    let v' = cleanup-WellFormed now b v in
    elim (Bool-cases cached) [
      | inl e ↦ rw e v'
      | inr e ↦ rw e (
          prepare_clean-WellFormed now i w (record b' { cache = c }) v'
            (cleanup-fresh_id now i b v new))
    ]

pub request-WellFormed :
    (now : ℕ) (i site : String) (b : Broker)
    → WellFormed b.requests
    → WellFormed (request now i site b).1.requests
unfolding request
request-WellFormed now i site b w = elim (Option-cases (lookup i b.requests)) [
  | inl e ↦ rw (e, request) w
  | inr (r, e) ↦ elim (Bool-cases (open_for site r)) [
    | inl o ↦
        rw (e, request, o) (insert-WellFormed i r _ b.requests w e refl refl (λ _. ground arith))
    | inr o ↦ rw (e, request, o) w
  ]
]

pub fail-WellFormed :
    (now : ℕ) (i message : String) (b : Broker)
    → WellFormed b.requests
    → WellFormed (fail now i message b).requests
unfolding fail
fail-WellFormed now i message b w = elim (Option-cases (lookup i b.requests)) [
  | inl e ↦ rw (e, update) w
  | inr (r, e) ↦ rw (e, update) (insert-WellFormed i r _ b.requests w e refl refl (λ h. cc))
]

-- A request that failed is not revived by `requeue` or `ready`.
abbrev pub NotFailed : String → Broker → Type 0
NotFailed i b =
    (r : PlaybackRequest) → lookup i b.requests ≡ some r → status_beq r.status Status.error ≡ false

pub requeue-WellFormed :
    (now : ℕ) (i : String) (b : Broker)
    → WellFormed b.requests
    → NotFailed i b
    → WellFormed (requeue now i b).requests
unfolding requeue
requeue-WellFormed now i b w live = elim (Option-cases (lookup i b.requests)) [
  | inl e ↦ rw (e, update) w
  | inr (r, e) ↦ rw (e, update) (insert-WellFormed i r _ b.requests w e refl refl (λ _. live r e))
]

pub set_ready-WellFormed :
    (now : ℕ) (i : String) (b : Broker)
    → WellFormed b.requests
    → NotFailed i b
    → WellFormed (set_ready now i b).requests
unfolding set_ready
set_ready-WellFormed now i b w live = elim (Option-cases (lookup i b.requests)) [
  | inl e ↦ rw (e, update) w
  | inr (r, e) ↦ rw (e, update) (insert-WellFormed i r _ b.requests w e refl refl (λ _. live r e))
]
