-- ===== src/Playback/Broker/Runs.antt =====
-- All runs of the broker of internal/cloud/playback_broker.go: its methods in any order, at any
-- instants, for any agents and viewers.
use cloud_nvr.Base.{
  ℕ, ◌≡◌, inl, inr, String, none, some, nat_eq, string_eq, Bool-cases, Option-cases,
}
use cloud_nvr.Base.Dict.{lookup}
use cloud_nvr.Playback.Cache.{Cache, cache_ready}
use cloud_nvr.Playback.Broker.{
  Broker, Wanted, new_broker, cleanup, find, active_for, prepare_clean, prepare, status, next,
  request, requeue, set_ready, fail,
}
use cloud_nvr.Playback.Broker.WellFormed.{
  WellFormed, NotFailed, cleanup-WellFormed, prepare-WellFormed, request-WellFormed,
  fail-WellFormed, requeue-WellFormed, set_ready-WellFormed,
}
use cloud_nvr.Playback.Broker.Handout.{next-WellFormed-some, hand_out-none}

-- One call. An id that id.New makes is not in use. An upload that ends, well or badly, ends for a
-- request that did not fail in the meantime.
pub data Call : Broker → Broker → Type 0 where
  prepares :
      (now : ℕ) (i : String) (w : Wanted) (b : Broker)
      → lookup i b.requests ≡ none
      → Call b (prepare now (some i) w b).1
  prepares_nothing : (now : ℕ) (w : Wanted) (b : Broker) → Call b (prepare now none w b).1
  asks : (now : ℕ) (recording_id : String) (b : Broker) → Call b (status now recording_id b).1
  polls : (now : ℕ) (site : String) (b : Broker) → Call b (next now site b).1
  opens : (now : ℕ) (i site : String) (b : Broker) → Call b (request now i site b).1
  requeues : (now : ℕ) (i : String) (b : Broker) → NotFailed i b → Call b (requeue now i b)
  readies : (now : ℕ) (i : String) (b : Broker) → NotFailed i b → Call b (set_ready now i b)
  fails : (now : ℕ) (i message : String) (b : Broker) → Call b (fail now i message b)

pub data Reachable : Broker → Type 0 where
  starts : (ttl max_bytes : ℕ) (cache : Cache) → Reachable (new_broker ttl max_bytes cache)
  calls : {b b' : Broker} → Reachable b → Call b b' → Reachable b'

new_broker-WellFormed :
    (ttl max_bytes : ℕ) (cache : Cache) → WellFormed (new_broker ttl max_bytes cache).requests
unfolding new_broker lookup
new_broker-WellFormed ttl max_bytes cache = record {
  nodup = tt;
  keyed = λ k r h. cc;
  unique = λ i j r s h k e f p. cc;
}

prepare-none-WellFormed :
    (now : ℕ) (w : Wanted) (b : Broker)
    → WellFormed b.requests
    → WellFormed (prepare now none w b).1.requests
unfolding prepare prepare_clean
prepare-none-WellFormed now w b v =
    let b' = cleanup now b in
    let v' = cleanup-WellFormed now b v in
    elim (Bool-cases (cache_ready w.id b'.cache_ttl now b'.cache).0) [
      | inl e ↦ rw e v'
      | inr e ↦ elim (Option-cases (find (active_for w.id) b'.requests)) [
        | inl f ↦ rw (e, prepare_clean, f) v'
        | inr (r, f) ↦ rw (e, prepare_clean, f) v'
      ]
    ]

status-WellFormed :
    (now : ℕ) (recording_id : String) (b : Broker)
    → WellFormed b.requests
    → WellFormed (status now recording_id b).1.requests
unfolding status
status-WellFormed now recording_id b v =
    let b' = cleanup now b in
    let v' = cleanup-WellFormed now b v in
    elim (Bool-cases (cache_ready recording_id b'.cache_ttl now b'.cache).0) [
      | inl e ↦ rw e v'
      | inr e ↦ rw e v'
    ]

next-WellFormed :
    (now : ℕ) (site : String) (b : Broker)
    → WellFormed b.requests
    → WellFormed (next now site b).1.requests
unfolding next
next-WellFormed now site b v = elim (Option-cases (next now site b).0) [
  | inl e ↦ rw (hand_out-none now (cleanup now b) _ e) (cleanup-WellFormed now b v)
  | inr (r, e) ↦ (next-WellFormed-some now site b r v e).0
]

call-WellFormed : {b b' : Broker} → Call b b' → WellFormed b.requests → WellFormed b'.requests
call-WellFormed (prepares now i w b new) v = prepare-WellFormed now i w b v new
call-WellFormed (prepares_nothing now w b) v = prepare-none-WellFormed now w b v
call-WellFormed (asks now recording_id b) v = status-WellFormed now recording_id b v
call-WellFormed (polls now site b) v = next-WellFormed now site b v
call-WellFormed (opens now i site b) v = request-WellFormed now i site b v
call-WellFormed (requeues now i b live) v = requeue-WellFormed now i b v live
call-WellFormed (readies now i b live) v = set_ready-WellFormed now i b v live
call-WellFormed (fails now i message b) v = fail-WellFormed now i message b v

-- In every broker that its methods can reach, as long as no upload ends for a request that failed
-- before, each request sits under its own id, once, and two requests for one recording that did
-- not fail are the same one.
pub Reachable-WellFormed : {b : Broker} → Reachable b → WellFormed b.requests
Reachable-WellFormed (starts ttl max_bytes cache) = new_broker-WellFormed ttl max_bytes cache
Reachable-WellFormed (calls r c) = call-WellFormed c (Reachable-WellFormed r)
