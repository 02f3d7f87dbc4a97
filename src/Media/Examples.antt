-- ===== src/Media/Examples.antt =====
-- A machine, a directory and a manager, and what the theorems say of them: internal/media.
use cloud_nvr.Base.{
  ℕ, zero, suc, ◌+◌, ◌≤◌, ◌<◌, ◌≡◌, refl, String, true, none, some, List, [], ◌∷◌, arith, nat_eq,
  string_eq, length, filter,
}
use cloud_nvr.Base.Dict.{lookup}
use cloud_nvr.Base.Sort.{sort_by}
use cloud_nvr.Base.Text.{NoSpace, byte_len, is_space, trim_space-NoSpace, is_mp4, ends_with}
use cloud_nvr.Media.Storage.Identity.{
  absent, holds, known, identity_of, read_identity, ok, Storage, Outcome, ensure_with,
  ensure_recording_storage, list_beq,
}
use cloud_nvr.Media.Storage.Identity.Binding.{IsHexIdentity, IsBound, ensure-IsBound}
use cloud_nvr.Media.Storage.Space.{
  Statfs, stats, VideoFile, is_candidate, is_skipped, deleted, failed, below_minimum,
  recording_storage_stats, enforce_minimum_free_space,
}
use cloud_nvr.Media.Storage.Space.Reserve.{queue, sizes, gone, outcome, enforce_reserve}
use cloud_nvr.Media.Workers.{Worker, Manager, new_manager, desired, reconcile}
use cloud_nvr.Media.Workers.Relay.{Stream, runs, fingerprint}
use cloud_nvr.Media.Workers.Reconciled.{Accounted, reconcile_lem}

abbrev zeros : ℕ → List ℕ
zeros zero = []
zeros (suc n) = 48 ∷ zeros n

zeros-NoSpace : (n : ℕ) → NoSpace (zeros n)
unfolding is_space
zeros-NoSpace zero = tt
zeros-NoSpace (suc n) = (refl, zeros-NoSpace n)

abbrev digits : List ℕ
digits = zeros 32

abbrev outcome_ok : Outcome
outcome_ok = record {
  parent_made = true;
  base_made = true;
  random_ok = true;
  random = digits;
  marker_failure = none;
  identity_failure = none;
}

abbrev fresh : Storage
fresh = record { identity_file = absent; marker = absent }

abbrev foreign : Storage
foreign = record { identity_file = absent; marker = holds digits }

abbrev bound : Storage
bound = record { identity_file = holds digits; marker = holds digits }

digits-IsHexIdentity : IsHexIdentity digits
unfolding byte_len
digits-IsHexIdentity = (zeros-NoSpace 32, refl)

ensure_run : (ensure_recording_storage outcome_ok fresh).0 ≡ ok
unfolding ensure_recording_storage ensure_with read_identity
ensure_run = refl

digits_run : read_identity (holds digits) ≡ known digits
unfolding read_identity identity_of byte_len
digits_run = rw (trim_space-NoSpace digits (zeros-NoSpace 32)) refl

ensure-IsBound_example : IsBound (ensure_recording_storage outcome_ok fresh).1
ensure-IsBound_example = ensure-IsBound outcome_ok fresh digits-IsHexIdentity ensure_run

abbrev old_file : VideoFile
old_file = record {
  directories = "cam" ∷ [];
  name = "a.mp4";
  size = 40;
  modified = 1;
  info_ok = true;
  removable = true;
}

abbrev disk : Statfs
disk = record { blocks = 100; bavail = 10; bsize = 1 }

abbrev files : List VideoFile
files = old_file ∷ []

stats_run :
    (recording_storage_stats outcome_ok (some disk) bound).0
    ≡ stats (record { total_bytes = 100; free_bytes = 10 })
unfolding recording_storage_stats ensure_recording_storage ensure_with list_beq
stats_run = rw digits_run refl

queue_run : queue 5 100 files ≡ files
unfolding sort_by is_candidate is_skipped is_mp4 ends_with
queue_run = refl

enforce_reserve_example :
    let run = enforce_minimum_free_space outcome_ok (some disk) 30 5 100 true files bound in
    (outcome run ≡ deleted 1 → (1 ≡ length (gone run)) × (30 ≤ 10 + sizes (gone run)))
    × (outcome run ≡ failed (below_minimum 50 30)
        → (gone run ≡ filter (λ f. f.removable) (queue 5 100 files)) × (10 + sizes (gone run) < 30))
enforce_reserve_example =
    enforce_reserve 30 5 100 true files outcome_ok (some disk) bound
      (record { total_bytes = 100; free_bytes = 10 }) 1 50 30 (omega arith) stats_run
      (rw queue_run (omega arith))

abbrev stream : Stream
stream = record {
  id = "cam";
  name = "Door";
  input_url = "rtsp://in";
  output_url = "rtsp://out";
  recording_path = "";
  segment_time = 60;
  enabled = true;
}

abbrev show : ℕ → String
show _ = "1m0s"

new_manager-Accounted : Accounted new_manager
unfolding new_manager
new_manager-Accounted = refl

reconcile_lem_example :
    let d = desired runs (λ s. s.id) (fingerprint show) (stream ∷ []) in
    let after =
      lookup "cam"
        (reconcile runs (λ s. s.id) (fingerprint show) (stream ∷ []) new_manager).workers in
    (lookup "cam" d ≡ none → after ≡ none)
    × ((s : Stream)
        → lookup "cam" d ≡ some s
        → (w : Worker) × (after ≡ some w)
          × (w.fingerprint ≡ fingerprint show s)
          × ((v : Worker)
              → lookup "cam" new_manager.workers ≡ some v
              → v.fingerprint ≡ fingerprint show s
              → w ≡ v))
unfolding new_manager
reconcile_lem_example =
    reconcile_lem runs (λ s. s.id) (fingerprint show) (stream ∷ []) new_manager "cam" tt

abbrev relaying : Manager
unfolding new_manager
relaying = reconcile runs (λ s. s.id) (fingerprint show) (stream ∷ []) new_manager
