-- ===== src/Playback/Broker/Examples.antt =====
-- A broker with one request, and what the theorems say of it: internal/cloud/playback_broker.go.
use cloud_nvr.Base.{
  ◌*◌, ◌≤◌, ◌≡◌, refl, ap, subst, ◌≢◌, String, true, none, some, [], ◌∷◌, arith, eq_iff, nat_eq,
  string_eq,
}
use cloud_nvr.Base.Dict.{lookup, insert}
use cloud_nvr.Base.Time.{minute, hour}
use cloud_nvr.Base.Sort.{sort_by}
use cloud_nvr.Playback.Cache.{Cache, cache_path, cache_ready, scan, enforce_cache_limit}
use cloud_nvr.Playback.Broker.{
  Status, PlaybackRequest, Broker, Wanted, new_broker, touch, expire, cleanup_one, cleanup_requests,
  cleanup, prepare_clean, prepare, hand_out, next, request,
}
use cloud_nvr.Playback.Broker.WellFormed.{WellFormed}
use cloud_nvr.Playback.Broker.Handout.{next_oldest, next_exclusive, site_isolation}
use cloud_nvr.Playback.Broker.Lease.{upload_dropped_before_lease}
use cloud_nvr.Playback.Broker.Runs.{Reachable, starts, calls, prepares, Reachable-WellFormed}

abbrev wanted : Wanted
wanted = record { id = "rec"; site_id = "north"; storage_key = "a.mp4"; checksum = "" }

abbrev no_files : Cache
no_files = record { readable = true; entries = [] }

abbrev started : Broker
unfolding new_broker
started = new_broker hour 1000 no_files

abbrev asked : PlaybackRequest
asked = record {
  id = "p1";
  recording_id = "rec";
  site_id = "north";
  storage_key = "a.mp4";
  checksum = "";
  status = Status.queued;
  message = "";
  created_at = 5;
  updated_at = 5;
}

abbrev prepared : Broker
prepared = record {
  cache_ttl = hour;
  cache_max_bytes = 1000;
  requests = ("p1", asked) ∷ [];
  cache = no_files;
}

abbrev handed : Broker
handed = record prepared { requests = ("p1", touch 7 Status.uploading asked) ∷ [] }

prepare_run : prepare 5 (some "p1") wanted started ≡ (some asked, prepared)
unfolding prepare prepare_clean cleanup cleanup_requests cache_ready enforce_cache_limit scan lookup
    insert cache_path started
prepare_run = refl

next_run : next 7 "north" prepared ≡ (some (touch 7 Status.uploading asked), handed)
unfolding next hand_out cleanup cleanup_requests cleanup_one expire cache_ready enforce_cache_limit
    scan lookup insert cache_path sort_by
next_run = refl

prepared-Reachable : Reachable prepared
unfolding lookup started
prepared-Reachable =
    subst (λ x. Reachable x) (ap (λ x. x.1) prepare_run)
      (calls (starts hour 1000 no_files) (prepares 5 "p1" wanted started refl))

prepared-WellFormed : WellFormed prepared.requests
prepared-WellFormed = Reachable-WellFormed prepared-Reachable

Reachable-WellFormed_example : WellFormed prepared.requests
Reachable-WellFormed_example = Reachable-WellFormed prepared-Reachable

next_oldest_example :
    let d = (cleanup 7 prepared).requests in
    (q : PlaybackRequest) × (touch 7 Status.uploading asked ≡ touch 7 Status.uploading q)
    × ((lookup q.id d ≡ some q) × (q.site_id ≡ "north") × (q.status ≡ Status.queued))
    × ((k : String) (s : PlaybackRequest)
        → lookup k d ≡ some s
        → s.site_id ≡ "north"
        → s.status ≡ Status.queued
        → q.created_at ≤ s.created_at)
    × ((next 7 "north" prepared).1.requests ≡ insert q.id (touch 7 Status.uploading asked) d)
next_oldest_example =
    next_oldest 7 "north" prepared (touch 7 Status.uploading asked) prepared-WellFormed
      (ap (λ x. x.0) next_run)

abbrev wanted_later : Wanted
wanted_later = record { id = "rec2"; site_id = "north"; storage_key = "b.mp4"; checksum = "" }

abbrev asked_later : PlaybackRequest
asked_later = record {
  id = "p2";
  recording_id = "rec2";
  site_id = "north";
  storage_key = "b.mp4";
  checksum = "";
  status = Status.queued;
  message = "";
  created_at = 6;
  updated_at = 6;
}

abbrev both : Broker
both = record prepared { requests = ("p1", asked) ∷ ("p2", asked_later) ∷ [] }

abbrev both_handed : Broker
both_handed = record prepared {
  requests = ("p1", touch 7 Status.uploading asked) ∷ ("p2", asked_later) ∷ [];
}

both_run : prepare 6 (some "p2") wanted_later prepared ≡ (some asked_later, both)
unfolding prepare prepare_clean cleanup cleanup_requests cleanup_one expire cache_ready
    enforce_cache_limit scan lookup insert cache_path
both_run = refl

both-WellFormed : WellFormed both.requests
unfolding lookup
both-WellFormed = Reachable-WellFormed (
    subst (λ x. Reachable x) (ap (λ x. x.1) both_run)
      (calls prepared-Reachable (prepares 6 "p2" wanted_later prepared refl)))

first_run : (next 7 "north" both).0 ≡ some (touch 7 Status.uploading asked)
unfolding next hand_out cleanup cleanup_requests cleanup_one expire cache_ready enforce_cache_limit
    scan lookup insert cache_path sort_by
first_run = refl

second_run :
    (next 8 "north" (next 7 "north" both).1).0 ≡ some (touch 8 Status.uploading asked_later)
unfolding next hand_out cleanup cleanup_requests cleanup_one expire cache_ready enforce_cache_limit
    scan lookup insert cache_path sort_by
second_run = refl

next_exclusive_example : asked_later.id ≢ asked.id
next_exclusive_example =
    next_exclusive 7 8 "north" "north" both (touch 7 Status.uploading asked)
      (touch 8 Status.uploading asked_later) both-WellFormed first_run second_run (omega arith)

kept_run : lookup "p1" (cleanup 7 handed).requests ≡ some (touch 7 Status.uploading asked)
unfolding cleanup cleanup_requests cleanup_one expire cache_ready enforce_cache_limit scan lookup
    insert cache_path sort_by
kept_run = refl

site_isolation_example :
    (lookup "p1" (cleanup 7 prepared).requests ≡ some asked
      → lookup "p1" (next 7 "south" prepared).1.requests ≡ some asked)
    × (lookup "p1" prepared.requests ≡ some asked
        → request 7 "p1" "south" prepared ≡ (none, prepared))
site_isolation_example =
    site_isolation 7 "south" "p1" prepared asked prepared-WellFormed
      (ground (arith, eq_iff "north" "south"))

upload_dropped_before_lease_example : lookup "p1" (cleanup (20 * minute) handed).requests ≡ none
unfolding lookup
upload_dropped_before_lease_example =
    upload_dropped_before_lease (20 * minute) handed "p1" (touch 7 Status.uploading asked)
      (refl, tt) refl refl (omega arith) (omega arith)
