-- ===== src/Store/Recordings/Reconciled.antt =====
-- What the removal of orphaned recordings keeps and removes: internal/store/store.go.
use cloud_nvr.Base.{
  ◌≡◌, refl, ◌≢◌, ◌⊎◌, inl, inr, String, Bool, true, false, ◌&&◌, ◌||◌, some, List, [], ◌∷◌, ◌++◌,
  arith, eq_iff, if◌then◌else◌, ◌==◌, nat_eq, string_eq, Bool-cases, ==_refl, All, In, here, there,
  All-append, All-weaken,
}
use cloud_nvr.Store.Recordings.{
  Recording, Row, row_of, same_file, any, delete_where, refreshed, upsert_recording_inventory,
  contains, token_differs, is_orphan, is_empty, reconcile_recording_inventory,
}
use cloud_nvr.Store.Recordings.Inventory.{
  upsert_all, upsert_all-Indexed, Indexed, All-update_where, seen_file,
}

pub any-delete_where :
    (p q : Row → Bool) (rows : List Row)
    → ((x : Row) → q x ≡ true → p x ≡ false)
    → any q rows ≡ true
    → any q (delete_where p rows) ≡ true
unfolding any
any-delete_where p q [] h e = e
any-delete_where p q (x ∷ rows) h e = ground (arith, h x, any-delete_where p q rows h)

pub All-delete_where :
    (p : Row → Bool) (P Q : Row → Type 0) (rows : List Row)
    → ((x : Row) → P x → p x ≡ false → Q x)
    → All P rows
    → All Q (delete_where p rows)
All-delete_where p P Q [] f h = tt
All-delete_where p P Q (x ∷ rows) f h = elim (Bool-cases (p x)) [
  | inl e ↦ rw e (All-delete_where p P Q rows f h.1)
  | inr e ↦ rw e (f x h.0 e, All-delete_where p P Q rows f h.1)
]

In-delete_where :
    (p : Row → Bool) (x : Row) {rows : List Row}
    → In x rows
    → p x ≡ false
    → In x (delete_where p rows)
In-delete_where p x {rows = []} i e = elim i [ ]
In-delete_where p x {rows = y ∷ rows} here e = rw e here
In-delete_where p x {rows = y ∷ rows} (there i) e = elim (Bool-cases (p y)) [
  | inl f ↦ rw f (In-delete_where p x i e)
  | inr f ↦ rw f (there (In-delete_where p x i e))
]

-- A row survives the reconciliation of an inventory if it is of another source, of a camera that
-- the inventory did not scan, or seen by the inventory.
pub reconcile_scope :
    (source : String) (cameras : List String) (token : String) (x : Row) (rows : List Row)
    → In x rows
    → (x.source ≢ source)
      ⊎ (contains cameras x.camera_id ≡ false)
      ⊎ (x.inventory_token ≡ some token)
    → In x (reconcile_recording_inventory source cameras token rows).1
unfolding reconcile_recording_inventory
reconcile_scope source cameras token x rows i h =
    let kept : is_orphan source cameras token x ≡ false = elim h [
      | inl ne ↦ ground (arith, eq_iff x.source source)
      | inr (inl c) ↦ ground (arith, c)
      | inr (inr t) ↦ rw t (ground (arith, eq_iff token token))
    ] in
    elim (Bool-cases (is_empty cameras || token == "")) [
      | inl e ↦ rw e i
      | inr e ↦ rw e (In-delete_where (is_orphan source cameras token) x i kept)
    ]

-- Whether a list of recordings holds one of this file.
abbrev pub reported : List Recording → String → String → Bool
reported [] source key = false
reported (r ∷ rs) source key =
    let rest = reported rs source key in r.source == source && r.storage_key == key || rest

reported-All : (rs : List Recording) → All (λ s. reported rs s.source s.storage_key ≡ true) rs
reported-All [] = tt
reported-All (r ∷ rs) = (
  ground (arith, ==_refl r.source, ==_refl r.storage_key),
  All-weaken (λ s. reported rs s.source s.storage_key ≡ true)
      (λ s. reported (r ∷ rs) s.source s.storage_key ≡ true) rs (λ s h. ground (arith, h))
      (reported-All rs),
)

-- A row with the token of the inventory is one of the listed files.
abbrev Honest : (String → String → Bool) → String → Row → Type 0
Honest listed token x =
    token_differs x.inventory_token token ≡ false → listed x.source x.storage_key ≡ true

module _ (listed : String → String → Bool) (token : String) where
  same_listed :
      (r : Recording) (x : Row)
      → same_file r.source r.storage_key x ≡ true
      → listed r.source r.storage_key ≡ true
      → listed x.source x.storage_key ≡ true
  same_listed r x e l =
      let s : x.source ≡ r.source = ground (arith, e, eq_iff x.source r.source) in
      let k : x.storage_key ≡ r.storage_key =
        ground (arith, e, eq_iff x.storage_key r.storage_key) in
      simp (s, k, l)

  Honest-insert :
      (r : Recording) (rows : List Row)
      → listed r.source r.storage_key ≡ true
      → All (Honest listed token) rows
      → All (Honest listed token) (upsert_recording_inventory r token rows)
  unfolding upsert_recording_inventory
  Honest-insert r rows l h =
      let inserted =
        if any (same_file r.source r.storage_key) rows
        then rows
        else rows ++ row_of r (some token) ∷ [] in
      All-update_where (same_file r.source r.storage_key) (refreshed r token) (Honest listed token)
        (Honest listed token) inserted (λ x _ e _. same_listed r x e l) (λ x hx _. hx)
        (elim (Bool-cases (any (same_file r.source r.storage_key) rows)) [
          | inl e ↦ rw e h
          | inr e ↦
              rw e (
                All-append (Honest listed token) rows (row_of r (some token) ∷ []) h ((λ _. l), tt))
        ])

  Honest-upsert_all :
      (rs : List Recording) (rows : List Row)
      → All (λ s. listed s.source s.storage_key ≡ true) rs
      → All (Honest listed token) rows
      → All (Honest listed token) (upsert_all rs token rows)
  unfolding upsert_all
  Honest-upsert_all [] rows l h = h
  Honest-upsert_all (r ∷ rs) rows l h =
      Honest-upsert_all rs (upsert_recording_inventory r token rows) l.1
        (Honest-insert r rows l.0 h)

no_cameras :
    (cameras : List String) (c : String) → is_empty cameras ≡ true → contains cameras c ≡ false
unfolding contains
no_cameras [] c e = refl
no_cameras (_ ∷ _) c e = cc

-- A full inventory of an agent that scanned some cameras, all its pages stored and then reconciled:
-- with a token that no row had before, every recording of the inventory is indexed with this
-- token, and every row that is left of the source and of these cameras is a recording of it.
pub inventory_lem :
    (source : String) (cameras : List String) (token : String) (recordings : List Recording)
    (rows : List Row)
    → token ≢ ""
    → All (λ x. token_differs x.inventory_token token ≡ true) rows
    → let after =
        (reconcile_recording_inventory source cameras token (upsert_all recordings token rows)).1 in
      All (Indexed token after) recordings
      × All
          (λ x.
            x.source ≡ source
            → contains cameras x.camera_id ≡ true
            → reported recordings x.source x.storage_key ≡ true)
          after
unfolding reconcile_recording_inventory
inventory_lem source cameras token recordings rows ne fresh =
    let after = upsert_all recordings token rows in
    let honest : All (Honest (reported recordings) token) after =
      Honest-upsert_all (reported recordings) token recordings rows (reported-All recordings) (
        All-weaken (λ x. token_differs x.inventory_token token ≡ true)
          (Honest (reported recordings) token) rows (λ x h d. cc) fresh) in
    elim (Bool-cases (is_empty cameras || token == "")) [
      | inl e ↦ rw e (
        upsert_all-Indexed recordings token rows,
        All-weaken (Honest (reported recordings) token) _ after
            (λ x h s c. ground (arith, e, c, no_cameras cameras x.camera_id, ne, eq_iff token ""))
            honest,
      )
      | inr e ↦ rw e (
        All-weaken (Indexed token after) _ recordings
            (λ r.
              any-delete_where (is_orphan source cameras token)
                (seen_file r.source r.storage_key token) after (λ x h. ground (arith, h)))
            (upsert_all-Indexed recordings token rows),
        All-delete_where (is_orphan source cameras token) (Honest (reported recordings) token) _
            after (λ x h p s c. h (ground (arith, p, c, eq_iff x.source source))) honest,
      )
    ]
