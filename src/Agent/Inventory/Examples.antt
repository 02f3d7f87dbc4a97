-- ===== src/Agent/Inventory/Examples.antt =====
-- Passes of an agent that finds one recording.
use cloud_nvr.Base.{
  ℕ, String, Bool, true, false, ◌&&◌, Option, ap, arith, eq_iff, ◌==◌, if◌then◌else◌, Bool-cases,
  inl, inr, none, some, [], ◌∷◌, ◌≡◌, refl, leb, nat_eq, string_eq,
}
use cloud_nvr.Store.Recordings.{Recording}
use cloud_nvr.Sync.Agent.{snapshot_from, full_reports, pages}
use cloud_nvr.Base.Dict.{Dict, lookup, insert, NodupKeys}
use cloud_nvr.Agent.Inventory.{Codec, Memory, Pass, start, deliver, inventory_pass}
use cloud_nvr.Agent.Inventory.Advanced.{Advanced}
use cloud_nvr.Agent.Inventory.Restart.{IsFaithful, begins, passes, Reachable-loaded}

abbrev night : Recording
night = record {
  id = "";
  camera_id = "cam";
  source = "";
  storage_key = "door-cam/2026/01/02/03/04-05.mp4";
  checksum = "";
  started_at = 7;
  ended_at = some 9;
  size_bytes = 100;
  event_type = "continuous";
}

-- The cloud takes what it is told before the report of a number.
abbrev pass_at : ℕ → (ℕ → Bool) → Pass
pass_at now accepts = record {
  has_cameras = true;
  reconciled = true;
  scanned = some (night ∷ []);
  started = now;
  sync_id = some "s";
  accepts = accepts;
  saves = true;
  finished = now;
}

abbrev is_nine : Option ℕ → Bool
is_nine none = false
is_nine (some n) = n == 9

nine : (o : Option ℕ) → is_nine o ≡ true → o ≡ some 9
nine none h = cc
nine (some n) h = let same : n ≡ 9 = ground (arith, h) in ap some same

abbrev is_night : Recording → Bool
is_night r =
    r.id == ""
    && r.camera_id == "cam"
    && r.source == ""
    && r.storage_key == night.storage_key
    && r.checksum == ""
    && r.started_at == 7
    && is_nine r.ended_at
    && r.size_bytes == 100
    && r.event_type == "continuous"

night_same : (r : Recording) → is_night r ≡ true → r ≡ night
night_same r h =
    let a : r.id ≡ "" = ground (arith, h, eq_iff r.id "") in
    let b : r.camera_id ≡ "cam" = ground (arith, h, eq_iff r.camera_id "cam") in
    let c : r.source ≡ "" = ground (arith, h, eq_iff r.source "") in
    let d : r.storage_key ≡ night.storage_key =
      ground (arith, h, eq_iff r.storage_key night.storage_key) in
    let e : r.checksum ≡ "" = ground (arith, h, eq_iff r.checksum "") in
    let f : r.started_at ≡ 7 = ground (arith, h) in
    let g : r.ended_at ≡ some 9 = nine r.ended_at (ground (arith, h)) in
    let k : r.size_bytes ≡ 100 = ground (arith, h) in
    let l : r.event_type ≡ "continuous" = ground (arith, h, eq_iff r.event_type "continuous") in
    λ i. record {
      id = a i;
      camera_id = b i;
      source = c i;
      storage_key = d i;
      checksum = e i;
      started_at = f i;
      ended_at = g i;
      size_bytes = k i;
      event_type = l i;
    }

-- A codec for the inventories that are empty or hold `night` only, by the fields that differ.
abbrev encoded : Dict String Recording → Option String
encoded [] = some "{}"
encoded ((k, r) ∷ []) = if k == night.storage_key && is_night r then some "night" else none
encoded (_ ∷ _ ∷ _) = none

abbrev decoded : String → Dict String Recording
decoded text = if text == "night" then (night.storage_key, night) ∷ [] else []

encoded_night :
    (j : String) (r : Recording) (text : String)
    → encoded ((j, r) ∷ []) ≡ some text
    → decoded text ≡ (j, r) ∷ []
encoded_night j r text h = elim (Bool-cases (j == night.storage_key && is_night r)) [
  | inl e ↦
      let key : j ≡ night.storage_key = ground (arith, e, eq_iff j night.storage_key) in
      let same : r ≡ night = night_same r (ground (arith, e)) in
      let is : text ≡ "night" = ground (arith, h, e) in rw (is, key, same) refl
  | inr e ↦ absurd (ground (arith, h, e))
]

decode-encode :
    (d : Dict String Recording) (text k : String)
    → NodupKeys d
    → encoded d ≡ some text
    → lookup k (decoded text) ≡ lookup k d
decode-encode [] text k u h = let is : text ≡ "{}" = ground (arith, h) in rw is refl
decode-encode ((j, r) ∷ []) text k u h = ap (λ d. lookup k d) (encoded_night j r text h)
decode-encode (x ∷ y ∷ d) text k u h = absurd (ground (arith, h))

abbrev codec : Codec
codec = record { encode = encoded; decode = decoded }

codec-IsFaithful : IsFaithful codec
codec-IsFaithful = record { decode-encode = decode-encode }

-- The first pass reports the whole inventory; the cloud takes both reports.
first_pass :
    (inventory_pass codec 60 (pass_at 10 (λ _. true)) (start codec none)).memory.previous
    ≡ (night.storage_key, night) ∷ []
unfolding inventory_pass deliver full_reports pages snapshot_from insert
first_pass = refl

-- If the cloud refuses the end of the synchronization, the memory stays.
refused_end :
    (inventory_pass codec 60 (pass_at 10 (λ n. leb n 0)) (start codec none)).memory
    ≡ start codec none
unfolding inventory_pass deliver full_reports pages snapshot_from
refused_end = refl

abbrev second : Memory
second =
    (inventory_pass codec 60 (pass_at 20 (λ _. true))
      (inventory_pass codec 60 (pass_at 10 (λ _. true)) (start codec none)).memory).memory

Reachable-loaded_example :
    lookup night.storage_key (start codec second.file).previous
    ≡ lookup night.storage_key second.previous
Reachable-loaded_example =
    Reachable-loaded codec 60 second night.storage_key codec-IsFaithful
      (passes (passes (begins none) (pass_at 10 (λ _. true))) (pass_at 20 (λ _. true)))
