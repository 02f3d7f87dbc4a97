-- ===== src/Store/Recordings/Inventory.antt =====
-- The recordings that are indexed after a synchronization: internal/store/store.go.
use cloud_nvr.Base.{
  ◌≡◌, refl, inl, inr, String, Bool, true, false, not, ◌&&◌, some, List, [], ◌∷◌, ◌++◌, arith,
  eq_iff, if◌then◌else◌, nat_eq, string_eq, Bool-cases, ==_refl, All, In, here, there,
}
use cloud_nvr.Store.Recordings.{
  Recording, Row, row_of, same_file, any, update_where, upsert_recording, refreshed,
  upsert_recording_inventory, token_differs,
}

any_of_In :
    (p : Row → Bool) (x : Row) {rows : List Row} → In x rows → p x ≡ true → any p rows ≡ true
unfolding any
any_of_In p x here h = ground arith
any_of_In p x (there i) h = ground (arith, any_of_In p x i h)

-- UpsertRecording never changes the table when a row has the file already: a new size, end or
-- checksum of an indexed recording is not stored.
pub upsert_recording_known :
    (r : Recording) (x : Row) (rows : List Row)
    → In x rows
    → x.source ≡ r.source
    → x.storage_key ≡ r.storage_key
    → upsert_recording r rows ≡ rows
unfolding upsert_recording
upsert_recording_known r x rows i s k =
    let hit : same_file r.source r.storage_key x ≡ true =
      ground (arith, eq_iff x.source r.source, eq_iff x.storage_key r.storage_key) in
    rw (any_of_In (same_file r.source r.storage_key) x i hit)

-- The rows that an inventory with this token has seen.
abbrev pub seen_file : String → String → String → Row → Bool
seen_file source key token x = same_file source key x && not (token_differs x.inventory_token token)

-- What a row is after it was refreshed from a recording.
abbrev pub Refreshed : Recording → String → Row → Type 0
Refreshed r token x =
    (x.inventory_token ≡ some token) × (x.size_bytes ≡ r.size_bytes) × (x.ended_at ≡ r.ended_at)

pub All-update_where :
    (p : Row → Bool) (f : Row → Row) (P : Row → Type 0) (Q : Row → Type 0) (rows : List Row)
    → ((x : Row) → P x → p x ≡ true → Q (f x))
    → ((x : Row) → P x → p x ≡ false → Q x)
    → All P rows
    → All Q (update_where p f rows)
unfolding update_where
All-update_where p f P Q [] yes' no' h = tt
All-update_where p f P Q (x ∷ rows) yes' no' h = elim (Bool-cases (p x)) [
  | inl e ↦ rw e (yes' x h.0 e, All-update_where p f P Q rows yes' no' h.1)
  | inr e ↦ rw e (no' x h.0 e, All-update_where p f P Q rows yes' no' h.1)
]

All-any_row : (P : Row → Type 0) (rows : List Row) → ((x : Row) → P x) → All P rows
All-any_row P [] h = tt
All-any_row P (x ∷ rows) h = (h x, All-any_row P rows h)

any-append_self :
    (p : Row → Bool) (x : Row) (rows : List Row) → p x ≡ true → any p (rows ++ x ∷ []) ≡ true
unfolding any
any-append_self p x [] h = ground (arith, h)
any-append_self p x (y ∷ rows) h = ground (arith, any-append_self p x rows h)

any-append :
    (p : Row → Bool) (x : Row) (rows : List Row) → any p rows ≡ true → any p (rows ++ x ∷ []) ≡ true
unfolding any
any-append p x [] h = cc
any-append p x (y ∷ rows) h = ground (arith, any-append p x rows)

-- A row that some test finds is found after an update that keeps the test.
any-update_where :
    (p : Row → Bool) (f : Row → Row) (q q' : Row → Bool) (rows : List Row)
    → ((x : Row) → q x ≡ true → p x ≡ true → q' (f x) ≡ true)
    → ((x : Row) → q x ≡ true → p x ≡ false → q' x ≡ true)
    → any q rows ≡ true
    → any q' (update_where p f rows) ≡ true
unfolding any update_where
any-update_where p f q q' [] hit miss h = cc
any-update_where p f q q' (x ∷ rows) hit miss h = elim (Bool-cases (p x)) [
  | inl e ↦ rw e (ground (arith, hit x, any-update_where p f q q' rows hit miss, e))
  | inr e ↦ rw e (ground (arith, miss x, any-update_where p f q q' rows hit miss, e))
]

module _ (r : Recording) (token : String) where
  abbrev inserted : List Row → List Row
  inserted rows =
      if any (same_file r.source r.storage_key) rows
      then rows
      else rows ++ row_of r (some token) ∷ []

  any-inserted : (rows : List Row) → any (same_file r.source r.storage_key) (inserted rows) ≡ true
  any-inserted rows = elim (Bool-cases (any (same_file r.source r.storage_key) rows)) [
    | inl e ↦ rw (e, e) refl
    | inr e ↦ rw e (
        any-append_self (same_file r.source r.storage_key) (row_of r (some token)) rows
          (ground (arith, ==_refl r.source, ==_refl r.storage_key)))
  ]

  -- Once the inventory has seen a file, every row of the file has the token and the size and the
  -- end that were reported, and there is such a row.
  pub upsert_recording_inventory_lem :
      (rows : List Row)
      → let after = upsert_recording_inventory r token rows in
        All (λ x. same_file r.source r.storage_key x ≡ true → Refreshed r token x) after
        × (any (seen_file r.source r.storage_key token) after ≡ true)
  unfolding upsert_recording_inventory
  upsert_recording_inventory_lem rows = (
    All-update_where (same_file r.source r.storage_key) (refreshed r token) (λ _. Unit {0}) _
        (inserted rows) (λ x _ e _. (refl, refl, refl)) (λ x _ e h. cc)
        (All-any_row (λ _. Unit {0}) (inserted rows) (λ _. tt)),
    any-update_where (same_file r.source r.storage_key) (refreshed r token)
        (same_file r.source r.storage_key) (seen_file r.source r.storage_key token) (inserted rows)
        (λ x e _. ground (arith, e, ==_refl token)) (λ x e e'. cc) (any-inserted rows),
  )

  -- Another file that a row of this inventory shows stays shown.
  upsert_keeps_seen :
      (source key : String) (rows : List Row)
      → any (seen_file source key token) rows ≡ true
      → any (seen_file source key token) (upsert_recording_inventory r token rows) ≡ true
  unfolding upsert_recording_inventory
  upsert_keeps_seen source key rows h =
      any-update_where (same_file r.source r.storage_key) (refreshed r token)
        (seen_file source key token) (seen_file source key token) (inserted rows)
        (λ x e _. ground (arith, e, ==_refl token)) (λ x e e'. e)
        (elim (Bool-cases (any (same_file r.source r.storage_key) rows)) [
          | inl e ↦ rw e h
          | inr e ↦ rw e (any-append (seen_file source key token) (row_of r (some token)) rows h)
        ])

-- All pages of one full inventory, in the order in which they arrive.
unfoldable pub upsert_all : List Recording → String → List Row → List Row
upsert_all [] token rows = rows
upsert_all (r ∷ rs) token rows = upsert_all rs token (upsert_recording_inventory r token rows)

upsert_all_keeps_seen :
    (rs : List Recording) (token source key : String) (rows : List Row)
    → any (seen_file source key token) rows ≡ true
    → any (seen_file source key token) (upsert_all rs token rows) ≡ true
unfolding upsert_all
upsert_all_keeps_seen [] token source key rows h = h
upsert_all_keeps_seen (r ∷ rs) token source key rows h =
    upsert_all_keeps_seen rs token source key (upsert_recording_inventory r token rows)
      (upsert_keeps_seen r token source key rows h)

abbrev pub Indexed : String → List Row → Recording → Type 0
Indexed token rows r = any (seen_file r.source r.storage_key token) rows ≡ true

pub upsert_all-Indexed :
    (rs : List Recording) (token : String) (rows : List Row)
    → All (Indexed token (upsert_all rs token rows)) rs
unfolding upsert_all
upsert_all-Indexed [] token rows = tt
upsert_all-Indexed (r ∷ rs) token rows = (
  upsert_all_keeps_seen rs token r.source r.storage_key (upsert_recording_inventory r token rows)
      (upsert_recording_inventory_lem r token rows).1,
  upsert_all-Indexed rs token (upsert_recording_inventory r token rows),
)
