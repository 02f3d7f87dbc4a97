-- ===== src/Sync/Changes.antt =====
-- The reports of the changes between two inventories: cmd/agent/main.go.
use cloud_nvr.Base.{
  ℕ, zero, suc, ◌+◌, ◌≤◌, ◌≡◌, refl, ap, ◌∙◌, List, [], ◌∷◌, ◌++◌, arith, nat_eq, string_eq, length,
  take, drop, All, take-append-drop,
}
use cloud_nvr.Store.Recordings.{Recording}
use cloud_nvr.Sync.{Report}
use cloud_nvr.Sync.Agent.{page_size, change_reports}
use cloud_nvr.Sync.Full.{length-drop}

abbrev pub all_recordings : List Report → List Recording
all_recordings [] = []
all_recordings (r ∷ rs) = r.recordings ++ all_recordings rs

abbrev pub all_deleted : List Report → List Recording
all_deleted [] = []
all_deleted (r ∷ rs) = r.deleted_recordings ++ all_deleted rs

length-take : (n : ℕ) (rs : List Recording) → length (take n rs) ≤ n
length-take zero rs = omega arith
length-take (suc n) [] = omega arith
length-take (suc n) (r ∷ rs) = omega (arith, length-take n rs)

drop_nil : (n : ℕ) → drop {A = Recording} n [] ≡ []
drop_nil zero = refl
drop_nil (suc n) = refl

-- The reports of the changes hold every changed and every deleted recording, in order, with at
-- most two hundred of each kind in a report; as many rounds as there are recordings are enough.
pub change_reports_lem :
    (fuel : ℕ) (changes deletions : List Recording)
    → length changes + length deletions ≤ fuel
    → let reports = change_reports fuel changes deletions in
      (all_recordings reports ≡ changes)
      × (all_deleted reports ≡ deletions)
      × All
          (λ r. (length r.recordings ≤ page_size) × (length r.deleted_recordings ≤ page_size))
          reports
unfolding change_reports
change_reports_lem zero [] [] h = (refl, refl, tt)
change_reports_lem zero (r ∷ rs) ds h = ground (arith, h)
change_reports_lem zero [] (d ∷ ds) h = ground (arith, h)
change_reports_lem (suc n) [] [] h = (refl, refl, tt)
change_reports_lem (suc n) (r ∷ rs) ds h =
    let (a, b, c) =
      change_reports_lem n (drop page_size (r ∷ rs)) (drop page_size ds)
        (omega (arith, length-drop page_size (r ∷ rs), length-drop page_size ds)) in
    (
      ap (λ l. take page_size (r ∷ rs) ++ l) a ∙ take-append-drop page_size (r ∷ rs),
      ap (λ l. take page_size ds ++ l) b ∙ take-append-drop page_size ds,
      ((length-take page_size (r ∷ rs), length-take page_size ds), c),
    )
change_reports_lem (suc n) [] (d ∷ ds) h =
    let (a, b, c) =
      change_reports_lem n (drop page_size []) (drop page_size (d ∷ ds))
        (omega (arith, length-drop page_size [], length-drop page_size (d ∷ ds))) in
    (
      ap (λ l. take page_size [] ++ l) a ∙ take-append-drop page_size [],
      ap (λ l. take page_size (d ∷ ds) ++ l) b ∙ take-append-drop page_size (d ∷ ds),
      ((length-take page_size [], length-take page_size (d ∷ ds)), c),
    )
