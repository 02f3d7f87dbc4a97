-- ===== src/Agent/Media/Paused.antt =====
-- What reconcileMedia of cmd/agent/main.go does when the storage is not there, and when it is.
use cloud_nvr.Base.{ℕ, Option, ◌*◌, string_eq, ◌≡◌, String, Bool, true, false, none, some, List, []}
use cloud_nvr.Base.Dict.{Dict, lookup, NodupKeys}
use cloud_nvr.Media.Storage.Identity
use cloud_nvr.Media.Storage.Identity.{Storage, ensure_recording_storage}
use cloud_nvr.Media.Storage.Space.{Refusal, Reclaimed, deleted, failed, enforce_minimum_free_space}
use cloud_nvr.Media.Workers.{Worker, Manager, desired}
use cloud_nvr.Media.Workers.Relay
use cloud_nvr.Media.Workers.Relay.{Stream, fingerprint}
use cloud_nvr.Media.Workers.Recorder.{runs, recording_fingerprint}
use cloud_nvr.Agent.Media.{Assigned, Site, Running, Disk, streams, local_streams, recording_streams}

-- A manager after a configuration: a stream that is to run has a worker with its fingerprint, and
-- nothing else has one.
abbrev pub Follows :
    {S : Type 0} → (S → Bool) → (S → String) → (S → String) → List S → Manager → Type 0
Follows {S = S} runs' id_of fp l m =
    (k : String)
    → (lookup k (desired runs' id_of fp l) ≡ none → lookup k m.workers ≡ none)
      × ((s : S)
          → lookup k (desired runs' id_of fp l) ≡ some s
          → (w : Worker) × (lookup k m.workers ≡ some w) × (w.fingerprint ≡ fp s))

abbrev pub Relays : Site → List Stream → Manager → Type 0
Relays site = Follows Relay.runs (λ s. s.id) (fingerprint site.show_duration)

-- The relays to the local media server, if the agent has a manager for them.
abbrev pub LocalRelays : Site → List Assigned → Option Manager → Option Manager → Type 0
LocalRelays site as' none m = m ≡ none
LocalRelays site as' (some _) none = ⊥
LocalRelays site as' (some _) (some m) = Relays site (local_streams site as') m

-- The recorders by the result of reconcileMedia.
abbrev pub Recorders : Site → List Assigned → Bool → Manager → Type 0
Recorders site as' true m =
    Follows runs (λ s. s.id) (recording_fingerprint site.format_uint) (recording_streams site as') m
Recorders site as' false m = m.workers ≡ []

-- What the second check of the storage gives, after the first.
abbrev pub reclaimed : Site → Disk → Storage → Reclaimed
reclaimed site disk s =
    (enforce_minimum_free_space disk.enforced disk.statfs site.minimum_free_bytes
      (2 * site.segment_time) disk.now disk.walk_ok disk.files
      (ensure_recording_storage disk.ensured s).1).0.0

-- The result of reconcileMedia by the storage: it is nil exactly if the directory of the recordings is
-- the one of the agent, and enough of it is free or could be made free.
pub data Checked (site : Site) (disk : Disk) (s : Storage) : Bool → Type 0 where
  lost :
      (e : Identity.Error)
      → (ensure_recording_storage disk.ensured s).0 ≡ Identity.err e
      → Checked site disk s false
  full :
      (f : Refusal)
      → (ensure_recording_storage disk.ensured s).0 ≡ Identity.ok
      → reclaimed site disk s ≡ failed f
      → Checked site disk s false
  usable :
      (n : ℕ)
      → (ensure_recording_storage disk.ensured s).0 ≡ Identity.ok
      → reclaimed site disk s ≡ deleted n
      → Checked site disk s true

pub record Settled (site : Site) (disk : Disk) (as' : List Assigned) (r : Running)
    (after : Bool × Running) : Type 0 where
  pub checked : Checked site disk r.storage after.0
  pub relays : Relays site (streams site as') after.1.relays
  pub local_relays : LocalRelays site as' r.local_relays after.1.local_relays
  pub recorders : Recorders site as' after.0 after.1.recorders

-- No manager has two workers for one key.
pub record IsKeyed (r : Running) : Type 0 where
  pub relays : NodupKeys r.relays.workers
  pub local_relays : (m : Manager) → r.local_relays ≡ some m → NodupKeys m.workers
  pub recorders : NodupKeys r.recorders.workers
