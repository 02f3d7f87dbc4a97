-- ===== src/Media/Workers.antt =====
-- RelayManager of internal/media/relay.go and RecorderManager of internal/media/recording.go: one
-- worker for each enabled camera. The two files hold the same code over two types of streams, so
-- the loops are written once, over a stream's id, its fingerprint and the test that it is to run.
-- A worker's context is a number, in the order in which they were made; `cancelled` lists those
-- whose cancel function was called.
pub mod Relay
pub mod Recorder
pub mod Backoff
pub mod Reconciled
use cloud_nvr.Base.{
  ℕ, suc, String, Bool, true, false, Option, none, some, List, [], ◌∷◌, ◌++◌, ◌==◌, string_eq,
  if◌then◌else◌, length,
}
use cloud_nvr.Base.Dict.{Dict, lookup, insert}

pub record Worker : Type 0 where
  pub fingerprint : String
  pub context : ℕ

pub record Manager : Type 0 where
  pub workers : Dict String Worker
  pub contexts : ℕ
  pub cancelled : List ℕ

unfoldable pub new_manager : Manager
new_manager = record { workers = []; contexts = 0; cancelled = [] }

module _ {S : Type 0} (runs : S → Bool) (id_of : S → String) (fingerprint_of : S → String) where
  -- The map of the streams that are to run; a later stream with the same id takes the place.
  unfoldable pub desired_from : Dict String S → List S → Dict String S
  desired_from d [] = d
  desired_from d (s ∷ rest) = desired_from (if runs s then insert (id_of s) s d else d) rest

  abbrev pub desired : List S → Dict String S
  desired = desired_from []

  unfoldable pub still_wanted : Option S → Worker → Bool
  still_wanted none w = false
  still_wanted (some s) w = w.fingerprint == fingerprint_of s

  -- The loop that stops workers: those that stay, and the contexts cancelled.
  unfoldable pub stop_unwanted : Dict String S → Dict String Worker → Dict String Worker × List ℕ
  stop_unwanted d [] = ([], [])
  stop_unwanted d ((k, w) ∷ rest) =
      let (kept, gone) = stop_unwanted d rest in
      if still_wanted (lookup k d) w then ((k, w) ∷ kept, gone) else (kept, w.context ∷ gone)

  -- One round of the loop that starts workers.
  unfoldable pub start_one : String → S → Manager → Manager
  start_one k s m = elim (lookup k m.workers) [
    | some _ ↦ m
    | none ↦ record m {
      workers =
          insert k (record { fingerprint = fingerprint_of s; context = m.contexts }) m.workers;
      contexts = suc m.contexts;
    }
  ]

  unfoldable pub start_missing : Dict String S → Manager → Manager
  start_missing [] m = m
  start_missing ((k, s) ∷ rest) m = start_missing rest (start_one k s m)

  -- Reconcile
  unfoldable pub reconcile : List S → Manager → Manager
  reconcile streams m =
      let (kept, gone) = stop_unwanted (desired streams) m.workers in
      start_missing (desired streams) (record m { workers = kept; cancelled = gone ++ m.cancelled })

unfoldable pub contexts_of : Dict String Worker → List ℕ
contexts_of [] = []
contexts_of ((_, w) ∷ d) = w.context ∷ contexts_of d

-- Stop
unfoldable pub stop : Manager → Manager
stop m = record m { workers = []; cancelled = contexts_of m.workers ++ m.cancelled }

-- WorkerCount
abbrev pub worker_count : Manager → ℕ
worker_count m = length m.workers
