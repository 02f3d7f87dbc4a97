-- ===== src/Playback/Broker/Handout.antt =====
-- Who gets a request: `next` of internal/cloud/playback_broker.go.
use cloud_nvr.Base.{
  ℕ, ◌+◌, ◌≤◌, ◌≡◌, refl, sym, ap, ◌∙◌, subst, ◌≢◌, inl, inr, String, Bool, true, false, ◌&&◌, none,
  some, List, [], ◌∷◌, arith, eq_iff, if◌then◌else◌, ◌==◌, nat_eq, string_eq, Bool-cases,
  List-cases, Option-cases, ==_refl, All, In, here, there, All_of_In, All-weaken,
}
use cloud_nvr.Base.Dict.{Dict, lookup, insert, lookup-insert}
use cloud_nvr.Base.Sort.{sort_by, All-sort_by}
use cloud_nvr.Playback.Broker.{
  Status, PlaybackRequest, Broker, touch, playback_upload_lease, cleanup, status_beq, candidates,
  hand_out, next, request,
}
use cloud_nvr.Base.Sort.{sort_by_head_least, All-of_sort_by}
use cloud_nvr.Playback.Broker.WellFormed.{
  WellFormed, cleaned_from, insert-WellFormed, cleanup-WellFormed,
}

-- Queued for this site, and in the map under its id.
abbrev pub IsQueuedFor : String → Dict String PlaybackRequest → PlaybackRequest → Type 0
IsQueuedFor site d r = (lookup r.id d ≡ some r) × (r.site_id ≡ site) × (r.status ≡ Status.queued)

IsQueuedFor-cons :
    (site k : String) (s : PlaybackRequest) (d : Dict String PlaybackRequest) (r : PlaybackRequest)
    → lookup k d ≡ none
    → IsQueuedFor site d r
    → IsQueuedFor site ((k, s) ∷ d) r
unfolding lookup
IsQueuedFor-cons site k s d r fresh h = ground (arith, eq_iff k r.id)

tail-WellFormed :
    (k : String) (s : PlaybackRequest) (d : Dict String PlaybackRequest)
    → WellFormed ((k, s) ∷ d)
    → WellFormed d
unfolding lookup
tail-WellFormed k s d w = record {
  nodup = w.nodup.1;
  keyed = λ i r h. w.keyed i r (rest i r h);
  unique = λ i j r t hi hj. w.unique i j r t (rest i r hi) (rest j t hj);
}
  where
    rest : (i : String) (r : PlaybackRequest) → lookup i d ≡ some r → lookup i ((k, s) ∷ d) ≡ some r
    rest i r h = ground (arith, w.nodup.0, eq_iff k i)

head-IsQueuedFor :
    (site k : String) (s : PlaybackRequest) (d : Dict String PlaybackRequest)
    → WellFormed ((k, s) ∷ d)
    → (s.site_id == site && status_beq s.status Status.queued) ≡ true
    → IsQueuedFor site ((k, s) ∷ d) s
unfolding lookup
head-IsQueuedFor site k s d w e =
    let at_key : s.id ≡ k = w.keyed k s (rw (==_refl k)) in
    ground (arith, at_key, eq_iff k s.id, eq_iff s.site_id site)

candidates-IsQueuedFor :
    (site : String) (d : Dict String PlaybackRequest)
    → WellFormed d
    → All (IsQueuedFor site d) (candidates site d)
candidates-IsQueuedFor site [] w = tt
candidates-IsQueuedFor site ((k, s) ∷ d) w =
    let rest : All (IsQueuedFor site ((k, s) ∷ d)) (candidates site d) =
      All-weaken (IsQueuedFor site d) (IsQueuedFor site ((k, s) ∷ d)) (candidates site d)
        (λ r. IsQueuedFor-cons site k s d r w.nodup.0)
        (candidates-IsQueuedFor site d (tail-WellFormed k s d w)) in
    elim (Bool-cases (s.site_id == site && status_beq s.status Status.queued)) [
      | inl e ↦ rw e (head-IsQueuedFor site k s d w e, rest)
      | inr e ↦ rw e rest
    ]

In-candidates :
    (b : Bool) (t r : PlaybackRequest) (rest : List PlaybackRequest)
    → In r rest
    → In r (if b then t ∷ rest else rest)
In-candidates true t r rest i = there i
In-candidates false t r rest i = i

candidates_complete :
    (site k : String) (d : Dict String PlaybackRequest) (r : PlaybackRequest)
    → lookup k d ≡ some r
    → r.site_id ≡ site
    → r.status ≡ Status.queued
    → In r (candidates site d)
unfolding lookup
candidates_complete site k [] r h s q = cc
candidates_complete site k ((j, t) ∷ d) r h s q = elim (Bool-cases (j == k)) [
  | inl e ↦
      let same : t ≡ r = ground arith in
      let passes : (t.site_id == site && status_beq t.status Status.queued) ≡ true =
        ground (arith, eq_iff t.site_id site) in
      rw (passes, same) here
  | inr e ↦
      In-candidates (t.site_id == site && status_beq t.status Status.queued) t r (candidates site d)
        (candidates_complete site k d r (ground arith) s q)
]

-- What `next` returns is the oldest request queued for the site, marked as being uploaded, and
-- nothing else of the cleaned map changes. The request was queued for this very site.
pub next_oldest :
    (now : ℕ) (site : String) (b : Broker) (r : PlaybackRequest)
    → WellFormed b.requests
    → (next now site b).0 ≡ some r
    → let d = (cleanup now b).requests in
      (q : PlaybackRequest) × (r ≡ touch now Status.uploading q)
      × IsQueuedFor site d q
      × ((k : String) (s : PlaybackRequest)
          → lookup k d ≡ some s
          → s.site_id ≡ site
          → s.status ≡ Status.queued
          → q.created_at ≤ s.created_at)
      × ((next now site b).1.requests ≡ insert q.id r d)
unfolding next
next_oldest now site b r w h =
    let b' = cleanup now b in
    let d = b'.requests in
    let w' = cleanup-WellFormed now b w in
    elim (List-cases (sort_by (λ q. q.created_at) (candidates site d))) [
      | inl e ↦ let h' = subst (λ l. (hand_out now b' l).0 ≡ some r) e h in cc
      | inr (q, rest, e) ↦
          let oldest = sort_by_head_least (λ q. q.created_at) (candidates site d) q rest e in
          let queued = subst (All (IsQueuedFor site d)) e (
            All-sort_by (λ q. q.created_at) (IsQueuedFor site d) (candidates site d)
              (candidates-IsQueuedFor site d w')) in
          let h' = subst (λ l. (hand_out now b' l).0 ≡ some r) e h in
          let given : r ≡ touch now Status.uploading q = ground arith in
          (
            q,
            given,
            queued.0,
            (λ k s f at_site is_queued.
                All_of_In (λ y. q.created_at ≤ y.created_at)
                  (candidates_complete site k d s f at_site is_queued) oldest),
            subst (λ l. (hand_out now b' l).1.requests ≡ insert q.id r d) (sym e) (rw given refl),
          )
    ]

pub hand_out-none :
    (now : ℕ) (b : Broker) (l : List PlaybackRequest)
    → (hand_out now b l).0 ≡ none
    → (hand_out now b l).1 ≡ b
unfolding hand_out
hand_out-none now b [] e = refl
hand_out-none now b (r ∷ l) e = cc

-- `next` gives nothing only if no request is queued for the site.
pub next-none :
    (now : ℕ) (site : String) (b : Broker) (k : String) (s : PlaybackRequest)
    → (next now site b).0 ≡ none
    → lookup k (cleanup now b).requests ≡ some s
    → s.site_id ≡ site
    → s.status ≢ Status.queued
unfolding next
next-none now site b k s h f at_site is_queued =
    let b' = cleanup now b in
    elim (List-cases (sort_by (λ q. q.created_at) (candidates site b'.requests))) [
      | inl e ↦
          let nobody : All (λ (q : PlaybackRequest). ⊥) (candidates site b'.requests) =
            All-of_sort_by (λ q. q.created_at) (λ q. ⊥) (candidates site b'.requests)
              (subst (All (λ (q : PlaybackRequest). ⊥)) (sym e) tt) in
          All_of_In (λ q. ⊥) (candidates_complete site k b'.requests s f at_site is_queued) nobody
      | inr (q, rest, e) ↦ let h' = subst (λ l. (hand_out now b' l).0 ≡ none) e h in cc
    ]

pub next-WellFormed-some :
    (now : ℕ) (site : String) (b : Broker) (r : PlaybackRequest)
    → WellFormed b.requests
    → (next now site b).0 ≡ some r
    → WellFormed (next now site b).1.requests × (lookup r.id (next now site b).1.requests ≡ some r)
next-WellFormed-some now site b r w h =
    let (q, given, (at_id, _, is_queued), _, after) = next_oldest now site b r w h in
    let d = (cleanup now b).requests in
    let id_kept : r.id ≡ q.id = ap (λ (x : PlaybackRequest). x.id) given in
    let same_recording : r.recording_id ≡ q.recording_id =
      ap (λ (x : PlaybackRequest). x.recording_id) given in
    (
      subst WellFormed (sym after) (
          insert-WellFormed q.id q r d (cleanup-WellFormed now b w) at_id id_kept same_recording
            (λ _. ground arith)),
      rw after (ground (arith, lookup-insert q.id r.id r d, eq_iff q.id r.id)),
    )

-- A request that an agent got is not handed out by the poll that comes next while its lease of
-- thirty minutes runs, neither to its own site nor to another.
pub next_exclusive :
    (now later : ℕ) (site site' : String) (b : Broker) (r r' : PlaybackRequest)
    → WellFormed b.requests
    → (next now site b).0 ≡ some r
    → (next later site' (next now site b).1).0 ≡ some r'
    → later ≤ r.updated_at + playback_upload_lease
    → r'.id ≢ r.id
next_exclusive now later site site' b r r' w first second in_lease same_id =
    let b' = (next now site b).1 in
    let (w', held) = next-WellFormed-some now site b r w first in
    let (_, given, _, _, _) = next_oldest now site b r w first in
    let (q', given', (at_id', _, is_queued'), _, _) = next_oldest later site' b' r' w' second in
    let uploading : r.status ≡ Status.uploading = ap (λ (x : PlaybackRequest). x.status) given in
    let id_kept : r'.id ≡ q'.id = ap (λ (x : PlaybackRequest). x.id) given' in
    let found =
      subst (λ k. lookup k (cleanup later b').requests ≡ some q') (sym id_kept ∙ same_id) at_id' in
    let (s, from, kept) =
      cleaned_from b'.cache_ttl later r.id b'.requests b'.cache q' w'.nodup
        (unfold cleanup in found) in
    ground arith

-- An agent reaches the requests of its own site only: `next` leaves those of other sites as the
-- cleanup left them, and `request` refuses them and changes nothing.
pub site_isolation :
    (now : ℕ) (site i : String) (b : Broker) (s : PlaybackRequest)
    → WellFormed b.requests
    → s.site_id ≢ site
    → (lookup i (cleanup now b).requests ≡ some s → lookup i (next now site b).1.requests ≡ some s)
      × (lookup i b.requests ≡ some s → request now i site b ≡ (none, b))
unfolding request next
site_isolation now site i b s w foreign = (
  λ h. elim (Option-cases (next now site b).0) [
    | inl e ↦ rw (hand_out-none now (cleanup now b) _ e) h
    | inr (r, e) ↦
        let (q, given, (at_id, at_site, _), _, after) = next_oldest now site b r w e in
        rw after (ground (arith, lookup-insert q.id i r (cleanup now b).requests, eq_iff q.id i))
  ],
  λ h. ground (arith, eq_iff s.site_id site),
)
