-- ===== src/Agent/Inventory/Restart.antt =====
-- What an agent remembers of its inventory when it starts again: cmd/agent/main.go.
use cloud_nvr.Base.{ℕ, String, Option, some, List, [], ◌∷◌, ◌≡◌, refl, string_eq}
use cloud_nvr.Base.Dict.{Dict, lookup, insert, NodupKeys, insert-NodupKeys}
use cloud_nvr.Store.Recordings.{Recording}
use cloud_nvr.Sync.Agent.{inventory_snapshot, snapshot_from}
use cloud_nvr.Agent.Inventory.{Codec, Memory, Pass, Passed, loaded, start, inventory_pass}
use cloud_nvr.Agent.Inventory.Advanced.{Advanced, kept, whole, changes, inventory_pass-Advanced}

-- What the loop can come to, from a file.
pub data Reachable (codec : Codec) (interval : ℕ) : Memory → Type 0 where
  begins : (file : Option String) → Reachable codec interval (start codec file)
  passes :
      {m : Memory}
      → Reachable codec interval m
      → (p : Pass) → Reachable codec interval (inventory_pass codec interval p m).memory

-- What the model relies on: an inventory that was written as JSON is read again, recording by
-- recording. The order of the entries of a map is not kept.
pub record IsFaithful (codec : Codec) : Type 0 where
  pub decode-encode :
      (d : Dict String Recording) (text : String) (k : String)
      → NodupKeys d
      → codec.encode d ≡ some text
      → lookup k (codec.decode text) ≡ lookup k d

snapshot_from-NodupKeys :
    (d : Dict String Recording) (rs : List Recording) → NodupKeys d → NodupKeys (snapshot_from d rs)
unfolding snapshot_from
snapshot_from-NodupKeys d [] h = h
snapshot_from-NodupKeys d (r ∷ rs) h =
    snapshot_from-NodupKeys (insert r.storage_key r d) rs (insert-NodupKeys r.storage_key r d h)

still_loaded :
    (codec : Codec) (interval : ℕ) (p : Pass) (m : Memory) (q : Passed) (k : String)
    → IsFaithful codec
    → Advanced codec interval p m q
    → lookup k (loaded codec m.file) ≡ lookup k m.previous
    → lookup k (loaded codec q.memory.file) ≡ lookup k q.memory.previous
still_loaded codec interval p m _ k ok (kept reports _) h = h
still_loaded codec interval p m _ k ok (whole rs id text s due i t) h =
    ok.decode-encode (inventory_snapshot rs) text k (snapshot_from-NodupKeys [] rs tt) t
still_loaded codec interval p m _ k ok (changes rs text reports s due t a b) h =
    ok.decode-encode (inventory_snapshot rs) text k (snapshot_from-NodupKeys [] rs tt) t

-- An agent that starts again from its file has the inventory that it remembered before, recording by
-- recording. It relies on JSON to give back what was written.
pub Reachable-loaded :
    (codec : Codec) (interval : ℕ) (m : Memory) (k : String)
    → IsFaithful codec
    → Reachable codec interval m
    → lookup k (start codec m.file).previous ≡ lookup k m.previous
Reachable-loaded codec interval _ k ok (begins file) = refl
Reachable-loaded codec interval _ k ok (passes {m = m} r p) =
    still_loaded codec interval p m _ k ok (inventory_pass-Advanced codec interval p m)
      (Reachable-loaded codec interval m k ok r)
