-- ===== src/Agent/Inventory/Advanced.antt =====
-- When the agent's memory of its inventory moves on, and that its file keeps up with it.
use cloud_nvr.Base.{
  ℕ, suc, ◌+◌, String, Bool, true, false, Option, none, some, List, [], ◌∷◌, length, ap, Bool-cases,
  subst, sym, Option-cases, ◌≡◌, refl, string_eq, inl, inr, arith,
}
use cloud_nvr.Base.Dict.{Dict}
use cloud_nvr.Store.Recordings.{Recording}
use cloud_nvr.Sync.{Report}
use cloud_nvr.Sync.Agent.{inventory_snapshot, full_reports, changed, gone}
use cloud_nvr.Sync.Changes.{all_recordings, all_deleted, change_reports_lem}
use cloud_nvr.Agent.Inventory.{
  Codec, Memory, Pass, Passed, written, stored, is_due, deliver, change_list, sync_full, unchanged,
  remember, sync_scanned, inventory_pass,
}

-- Why a pass leaves the memory as it was.
pub data Held (codec : Codec) (interval : ℕ) (p : Pass) (m : Memory) : Type 0 where
  no_cameras : p.has_cameras ≡ false → Held codec interval p m
  unreconciled : p.reconciled ≡ false → Held codec interval p m
  unscanned : p.scanned ≡ none → Held codec interval p m
  no_id : is_due interval p.started m.last_full ≡ true → p.sync_id ≡ none → Held codec interval p m
  refused : (n : ℕ) → p.accepts n ≡ false → Held codec interval p m
  unsaved : p.saves ≡ false → Held codec interval p m
  unencoded :
      (rs : List Recording)
      → p.scanned ≡ some rs
      → codec.encode (inventory_snapshot rs) ≡ none
      → Held codec interval p m

-- How a pass leaves the memory: as it was, for a reason, or with the inventory that was scanned, after
-- the cloud took the whole of it, or each change and each deletion.
pub data Advanced (codec : Codec) (interval : ℕ) (p : Pass) (m : Memory) : Passed → Type 0 where
  kept :
      (reports : List Report)
      → Held codec interval p m
      → Advanced codec interval p m (unchanged m reports)
  whole :
      (rs : List Recording) (id text : String)
      → p.scanned ≡ some rs
      → is_due interval p.started m.last_full ≡ true
      → p.sync_id ≡ some id
      → codec.encode (inventory_snapshot rs) ≡ some text
      → Advanced codec interval p m (record {
        memory = record {
          previous = inventory_snapshot rs;
          last_full = some p.finished;
          file = some text;
        };
        accepted = full_reports id rs;
      })
  changes :
      (rs : List Recording) (text : String) (reports : List Report)
      → p.scanned ≡ some rs
      → is_due interval p.started m.last_full ≡ false
      → codec.encode (inventory_snapshot rs) ≡ some text
      → all_recordings reports ≡ changed m.previous (inventory_snapshot rs)
      → all_deleted reports ≡ gone m.previous (inventory_snapshot rs)
      → Advanced codec interval p m (record {
        memory = record {
          previous = inventory_snapshot rs;
          last_full = m.last_full;
          file = some text;
        };
        accepted = reports;
      })

-- All reports were taken.
deliver-all :
    (accepts : ℕ → Bool) (n : ℕ) (rs : List Report)
    → (deliver accepts n rs).1 ≡ true
    → (deliver accepts n rs).0 ≡ rs
unfolding deliver
deliver-all accepts n [] h = refl
deliver-all accepts n (r ∷ rs) h = elim (Bool-cases (accepts n)) [
  | inl e ↦ rw e (ap (λ l. r ∷ l) (deliver-all accepts (suc n) rs (ground (arith, h, e))))
  | inr e ↦ absurd (ground (arith, h, e))
]

-- If not all were taken, one was refused.
deliver-refused :
    (accepts : ℕ → Bool) (n : ℕ) (rs : List Report)
    → (deliver accepts n rs).1 ≡ false
    → (k : ℕ) × (accepts k ≡ false)
unfolding deliver
deliver-refused accepts n [] h = absurd (ground (arith, h))
deliver-refused accepts n (r ∷ rs) h = elim (Bool-cases (accepts n)) [
  | inl e ↦ deliver-refused accepts (suc n) rs (ground (arith, h, e))
  | inr e ↦ (n, e)
]

change_list_lem :
    (previous next : Dict String Recording)
    → (all_recordings (change_list previous next) ≡ changed previous next)
      × (all_deleted (change_list previous next) ≡ gone previous next)
change_list_lem previous next =
    let (a, b, c) =
      change_reports_lem (length (changed previous next) + length (gone previous next))
        (changed previous next) (gone previous next) (omega arith) in
    (a, b)

module _ (codec : Codec) (interval : ℕ) (p : Pass) (m : Memory) where
  -- A pass that delivered, by what the file system makes of the new inventory.
  stored-Advanced :
      (full : Bool) (rs : List Recording) (reports : List Report)
      → p.scanned ≡ some rs
      → ((text : String)
          → codec.encode (inventory_snapshot rs) ≡ some text
          → Advanced codec interval p m (stored codec p m full rs reports (some text)))
      → Advanced codec interval p m
          (stored codec p m full rs reports (written codec p (inventory_snapshot rs)))
  stored-Advanced full rs reports s k =
      let next = inventory_snapshot rs in
      let At : Option String → Type 0 =
        λ o. Advanced codec interval p m (stored codec p m full rs reports o) in
      elim (Bool-cases p.saves) [
        | inr e ↦
            let none_written : written codec p next ≡ none = rw e refl in
            subst At (sym none_written) (kept reports (unsaved e))
        | inl e ↦ elim (Option-cases (codec.encode next)) [
          | inl n ↦
              let none_written : written codec p next ≡ none = rw (e, n) refl in
              subst At (sym none_written) (kept reports (unencoded rs s n))
          | inr (text, t) ↦
              let one_written : written codec p next ≡ some text = rw (e, t) refl in
              subst At (sym one_written) (k text t)
        ]
      ]

  remember-Advanced :
      (full : Bool) (rs : List Recording) (d : List Report × Bool)
      → p.scanned ≡ some rs
      → (d.1 ≡ false → Held codec interval p m)
      → (d.1 ≡ true
          → (text : String) → codec.encode (inventory_snapshot rs) ≡ some text
          → Advanced codec interval p m (stored codec p m full rs d.0 (some text)))
      → Advanced codec interval p m (remember codec p m full rs d)
  remember-Advanced full rs (reports, false) s held k = kept reports (held refl)
  remember-Advanced full rs (reports, true) s held k = stored-Advanced full rs reports s (k refl)

  full-Advanced :
      (rs : List Recording) (id : Option String)
      → p.scanned ≡ some rs
      → is_due interval p.started m.last_full ≡ true
      → p.sync_id ≡ id
      → Advanced codec interval p m (remember codec p m true rs (sync_full p id rs))
  full-Advanced rs none s due i = kept [] (no_id due i)
  full-Advanced rs (some id) s due i =
      let d = deliver p.accepts 0 (full_reports id rs) in
      remember-Advanced true rs d s
        (λ no. let (k, e) = deliver-refused p.accepts 0 (full_reports id rs) no in refused k e)
        (λ yes text t.
          rw (deliver-all p.accepts 0 (full_reports id rs) yes) (whole rs id text s due i t))

  changes-Advanced :
      (rs : List Recording)
      → p.scanned ≡ some rs
      → is_due interval p.started m.last_full ≡ false
      → Advanced codec interval p m (
          remember codec p m false rs
            (deliver p.accepts 0 (change_list m.previous (inventory_snapshot rs))))
  changes-Advanced rs s due =
      let reports = change_list m.previous (inventory_snapshot rs) in
      let (a, b) = change_list_lem m.previous (inventory_snapshot rs) in
      remember-Advanced false rs (deliver p.accepts 0 reports) s
        (λ no. let (k, e) = deliver-refused p.accepts 0 reports no in refused k e)
        (λ yes text t.
          rw (deliver-all p.accepts 0 reports yes) (changes rs text reports s due t a b))

  scanned-Advanced :
      (o : Option (List Recording))
      → p.scanned ≡ o
      → Advanced codec interval p m (sync_scanned codec interval p m o)
  scanned-Advanced none s = kept [] (unscanned s)
  scanned-Advanced (some rs) s = elim (Bool-cases (is_due interval p.started m.last_full)) [
    | inl e ↦ rw e (full-Advanced rs p.sync_id s e refl)
    | inr e ↦ rw e (changes-Advanced rs s e)
  ]

  pub inventory_pass-Advanced : Advanced codec interval p m (inventory_pass codec interval p m)
  unfolding inventory_pass
  inventory_pass-Advanced =
      let At : Passed → Type 0 = Advanced codec interval p m in
      elim (Bool-cases p.has_cameras) [
        | inl a ↦ elim (Bool-cases p.reconciled) [
          | inl b ↦
              let ran : inventory_pass codec interval p m
                  ≡ sync_scanned codec interval p m p.scanned =
                rw (a, b) refl in
              subst At (sym ran) (scanned-Advanced p.scanned refl)
          | inr b ↦
              let ran : inventory_pass codec interval p m ≡ unchanged m [] = rw (a, b) refl in
              subst At (sym ran) (kept [] (unreconciled b))
        ]
        | inr a ↦
            let ran : inventory_pass codec interval p m ≡ unchanged m [] = rw a refl in
            subst At (sym ran) (kept [] (no_cameras a))
      ]
