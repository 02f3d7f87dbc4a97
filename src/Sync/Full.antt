-- ===== src/Sync/Full.antt =====
-- A full synchronization, from the agent to the table: cmd/agent/main.go and
-- internal/cloud/recording_handlers.go.
use cloud_nvr.Base.{
  ℕ, zero, suc, ◌-◌, ◌≤◌, ◌≡◌, refl, sym, ap, ◌∙◌, subst, ◌≢◌, String, true, false, List, [], ◌∷◌,
  ◌++◌, map, arith, eq_iff, ltb, ◌==◌, nat_eq, string_eq, length, drop, All, take-append-drop,
}
use Prim.Native.String.{len}
use cloud_nvr.Store.Cameras.{Camera}
use cloud_nvr.Store.Recordings.{
  Recording, Row, contains, token_differs, upsert_recording_inventory,
  reconcile_recording_inventory,
}
use cloud_nvr.Store.Recordings.Inventory.{upsert_all, Indexed}
use cloud_nvr.Store.Recordings.Reconciled.{reported, inventory_lem}
use cloud_nvr.Sync.{
  Report, acceptable, stamped, store_one, store_recordings, delete_recordings, prune_cameras,
  ids_of, sync_agent_recordings,
}
use cloud_nvr.Sync.Agent.{page_size, pages, page_report, last_report, page_reports, full_reports}

-- The reports of an agent, one after the other.
unfoldable pub sync_all : ℕ → List Camera → List Report → List Row → List Row
sync_all now cameras [] rows = rows
sync_all now cameras (r ∷ rs) rows =
    sync_all now cameras rs (sync_agent_recordings now cameras r rows).1

abbrev pub join : List (List Recording) → List Recording
join [] = []
join (p ∷ ps) = p ++ join ps

abbrev pub KeepsForever : Camera → Type 0
KeepsForever c = c.local_days ≡ 0

pub length-drop : (n : ℕ) (rs : List Recording) → length (drop n rs) ≡ length rs - n
length-drop zero rs = omega arith
length-drop (suc n) [] = omega arith
length-drop (suc n) (r ∷ rs) = omega (arith, length-drop n rs)

join-pages : (n : ℕ) (rs : List Recording) → length rs ≤ n → join (pages n rs) ≡ rs
unfolding pages
join-pages zero [] h = refl
join-pages zero (r ∷ rs) h = elim h [ ]
join-pages (suc n) [] h = refl
join-pages (suc n) (r ∷ rs) h =
    rw (join-pages n (drop page_size (r ∷ rs)) (omega (arith, h, length-drop page_size (r ∷ rs))))
      (take-append-drop page_size (r ∷ rs))

prune_none :
    (now : ℕ) (cameras : List Camera) (rows : List Row)
    → All KeepsForever cameras
    → prune_cameras now cameras rows ≡ rows
unfolding prune_cameras
prune_none now [] rows h = refl
prune_none now (c ∷ cs) rows h =
    let forever : ltb 0 c.local_days ≡ false = simp h.0 in rw forever (prune_none now cs rows h.1)

store_one-token :
    (token : String) (r : Recording) (rows : List Row)
    → token ≢ ""
    → store_one token r rows ≡ upsert_recording_inventory r token rows
unfolding store_one
store_one-token token r rows ne =
    let full : (token == "") ≡ false = ground (arith, ne, eq_iff token "") in rw full refl

store_recordings-upsert_all :
    (allowed : List String) (token : String) (rs : List Recording) (rows : List Row)
    → token ≢ ""
    → All (λ r. acceptable allowed r ≡ true) rs
    → store_recordings allowed token rs rows ≡ (true, upsert_all (map stamped rs) token rows)
unfolding store_recordings upsert_all
store_recordings-upsert_all allowed token [] rows ne h = refl
store_recordings-upsert_all allowed token (r ∷ rs) rows ne h =
    rw (h.0, store_one-token token (stamped r) rows ne)
      (store_recordings-upsert_all allowed token rs
        (upsert_recording_inventory (stamped r) token rows) ne h.1)

upsert_all-append :
    (xs ys : List Recording) (token : String) (rows : List Row)
    → upsert_all (xs ++ ys) token rows ≡ upsert_all ys token (upsert_all xs token rows)
unfolding upsert_all
upsert_all-append [] ys token rows = refl
upsert_all-append (x ∷ xs) ys token rows =
    upsert_all-append xs ys token (upsert_recording_inventory x token rows)

map_append : (xs ys : List Recording) → map stamped (xs ++ ys) ≡ map stamped xs ++ map stamped ys
map_append [] ys = refl
map_append (x ∷ xs) ys = rw (map_append xs ys)

All-split :
    (P : Recording → Type 0) (xs ys : List Recording) → All P (xs ++ ys) → All P xs × All P ys
All-split P [] ys h = (tt, h)
All-split P (x ∷ xs) ys h = let (a, b) = All-split P xs ys h.1 in ((h.0, a), b)

module _ (now : ℕ) (cameras : List Camera) (token : String) where
  page_step :
      (p : List Recording) (rows : List Row)
      → All KeepsForever cameras
      → token ≢ ""
      → All (λ r. acceptable (ids_of cameras) r ≡ true) p
      → (sync_agent_recordings now cameras (page_report token p) rows).1
        ≡ upsert_all (map stamped p) token rows
  unfolding sync_agent_recordings delete_recordings
  page_step p rows forever ne h =
      rw (store_recordings-upsert_all (ids_of cameras) token p rows ne h)
        (prune_none now cameras (upsert_all (map stamped p) token rows) forever)

  last_step :
      (rows : List Row)
      → All KeepsForever cameras
      → len token ≡ 36
      → (sync_agent_recordings now cameras (last_report token) rows).1
        ≡ (reconcile_recording_inventory "agent" (ids_of cameras) token rows).1
  unfolding sync_agent_recordings store_recordings delete_recordings
  last_step rows forever h =
      let right : (len token == 36) ≡ true = ground (arith, h) in
      rw right (prune_none now cameras _ forever)

  sync_all-pages :
      (ps : List (List Recording)) (rows : List Row)
      → All KeepsForever cameras
      → token ≢ ""
      → len token ≡ 36
      → All (λ r. acceptable (ids_of cameras) r ≡ true) (join ps)
      → sync_all now cameras (page_reports token ps ++ last_report token ∷ []) rows
        ≡ (reconcile_recording_inventory "agent"
            (ids_of cameras)
            token
            (upsert_all (map stamped (join ps)) token rows)).1
  unfolding sync_all upsert_all
  sync_all-pages [] rows forever ne h a = last_step rows forever h
  sync_all-pages (p ∷ ps) rows forever ne h a =
      let (first, rest) = All-split (λ r. acceptable (ids_of cameras) r ≡ true) p (join ps) a in
      let joined : upsert_all (map stamped (join (p ∷ ps))) token rows
          ≡ upsert_all (map stamped (join ps)) token (upsert_all (map stamped p) token rows) =
        rw (map_append p (join ps))
          (upsert_all-append (map stamped p) (map stamped (join ps)) token rows) in
      ap (λ t. sync_all now cameras (page_reports token ps ++ last_report token ∷ []) t)
        (page_step p rows forever ne first)
      ∙ sync_all-pages ps (upsert_all (map stamped p) token rows) forever ne h rest
      ∙ ap (λ t. (reconcile_recording_inventory "agent" (ids_of cameras) token t).1) (sym joined)

  -- A full synchronization of an agent in pages of two hundred, none of which is refused, with a
  -- token of thirty-six bytes that no row had before, for cameras that keep their recordings
  -- forever: afterwards each recording of the agent is indexed with this token, and each row of an
  -- agent's recording for these cameras is one that the agent has.
  pub full_lem :
      (recordings : List Recording) (rows : List Row)
      → All KeepsForever cameras
      → token ≢ ""
      → len token ≡ 36
      → All (λ r. acceptable (ids_of cameras) r ≡ true) recordings
      → All (λ x. token_differs x.inventory_token token ≡ true) rows
      → let after = sync_all now cameras (full_reports token recordings) rows in
        All (Indexed token after) (map stamped recordings)
        × All
            (λ x.
              x.source ≡ "agent"
              → contains (ids_of cameras) x.camera_id ≡ true
              → reported (map stamped recordings) x.source x.storage_key ≡ true)
            after
  unfolding full_reports
  full_lem recordings rows forever ne h a fresh =
      let whole = join-pages (length recordings) recordings (omega arith) in
      let accepted = subst (λ l. All (λ r. acceptable (ids_of cameras) r ≡ true) l) (sym whole) a in
      rw (sync_all-pages (pages (length recordings) recordings) rows forever ne h accepted, whole)
        (inventory_lem "agent" (ids_of cameras) token (map stamped recordings) rows ne fresh)
