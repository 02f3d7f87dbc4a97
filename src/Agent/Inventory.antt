-- ===== src/Agent/Inventory.antt =====
-- cmd/agent/main.go, runInventorySync: the agent remembers the inventory that the cloud took last, in
-- memory and in a file, and reports what differs from it, or the whole from time to time.
pub mod Advanced
pub mod Restart
mod Examples
use cloud_nvr.Base.{
  ℕ, suc, ◌+◌, ◌-◌, String, Bool, true, false, Option, none, some, List, [], ◌∷◌, leb, length,
  if◌then◌else◌,
}
use cloud_nvr.Base.Dict.{Dict}
use cloud_nvr.Store.Recordings.{Recording}
use cloud_nvr.Sync.{Report}
use cloud_nvr.Sync.Agent.{inventory_snapshot, full_reports, change_reports, changed, gone}

-- json.Marshal of an inventory, none if it fails, and what json.Unmarshal leaves in a variable for a
-- text, whether or not it ends with an error.
pub record Codec : Type 0 where
  pub encode : Dict String Recording → Option String
  pub decode : String → Dict String Recording

-- The variables of the loop and the text of the state file, none if it cannot be read.
pub record Memory : Type 0 where
  pub previous : Dict String Recording
  pub last_full : Option ℕ
  pub file : Option String

-- What a pass meets: are there cameras, does reconcileMedia end without an error, what does
-- localRecordingInventory find, when is the last inventory compared with the clock, what does id.New
-- give, does the cloud accept the report of a number, can the file be written, and when is it.
pub record Pass : Type 0 where
  pub has_cameras : Bool
  pub reconciled : Bool
  pub scanned : Option (List Recording)
  pub started : ℕ
  pub sync_id : Option String
  pub accepts : ℕ → Bool
  pub saves : Bool
  pub finished : ℕ

-- What a pass leaves, with the reports that the cloud accepted.
pub record Passed : Type 0 where
  pub memory : Memory
  pub accepted : List Report

-- Is a full inventory due?
abbrev pub is_due : ℕ → ℕ → Option ℕ → Bool
is_due interval now none = true
is_due interval now (some t) = leb interval (now - t)

-- The reports up to the first that is refused, and whether all were taken.
unfoldable pub deliver : (ℕ → Bool) → ℕ → List Report → List Report × Bool
deliver accepts n [] = ([], true)
deliver accepts n (r ∷ rs) =
    let rest = deliver accepts (suc n) rs in if accepts n then (r ∷ rest.0, rest.1) else ([], false)

abbrev pub change_list : Dict String Recording → Dict String Recording → List Report
change_list previous next =
    let changes = changed previous next in
    let deletions = gone previous next in
    change_reports (length changes + length deletions) changes deletions

-- syncFullRecordingInventory
abbrev pub sync_full : Pass → Option String → List Recording → List Report × Bool
sync_full p none rs = ([], false)
sync_full p (some id) rs = deliver p.accepts 0 (full_reports id rs)

abbrev pub unchanged : Memory → List Report → Passed
unchanged m reports = record { memory = m; accepted = reports }

module _ (codec : Codec) where
  -- loadInventoryState at the start of the loop, which goes on with what it gives after an error too.
  abbrev pub loaded : Option String → Dict String Recording
  loaded none = []
  loaded (some text) = codec.decode text

  abbrev pub start : Option String → Memory
  start file = record { previous = loaded file; last_full = none; file = file }

  -- saveJSONAtomic: the text of the new file, if there is one.
  abbrev pub written : Pass → Dict String Recording → Option String
  written p next = if p.saves then codec.encode next else none

  abbrev pub stored : Pass → Memory → Bool → List Recording → List Report → Option String → Passed
  stored p m full rs reports none = unchanged m reports
  stored p m full rs reports (some text) = record {
    memory = record {
      previous = inventory_snapshot rs;
      last_full = if full then some p.finished else m.last_full;
      file = some text;
    };
    accepted = reports;
  }

  abbrev pub remember : Pass → Memory → Bool → List Recording → List Report × Bool → Passed
  remember p m full rs (reports, false) = unchanged m reports
  remember p m full rs (reports, true) =
      stored p m full rs reports (written p (inventory_snapshot rs))

  abbrev pub sync_scanned : ℕ → Pass → Memory → Option (List Recording) → Passed
  sync_scanned interval p m none = unchanged m []
  sync_scanned interval p m (some rs) =
      if is_due interval p.started m.last_full
      then remember p m true rs (sync_full p p.sync_id rs)
      else remember p m false rs
          (deliver p.accepts 0 (change_list m.previous (inventory_snapshot rs)))

  -- One round of the loop, for a `cfg.FullInventoryInterval`.
  unfoldable pub inventory_pass : ℕ → Pass → Memory → Passed
  inventory_pass interval p m =
      if p.has_cameras
      then if p.reconciled then sync_scanned interval p m p.scanned else unchanged m []
      else unchanged m []
