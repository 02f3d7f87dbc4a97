-- ===== src/Store/Devices/Pairing.antt =====
-- Pairing is one-time and a revoked session stays out: internal/store/store.go.
use cloud_nvr.Base.{
  ℕ, ◌≤◌, ◌<◌, ◌≡◌, refl, ◌≢◌, inl, inr, String, Bool, true, false, ◌&&◌, ◌||◌, none, some, List,
  [], ◌∷◌, arith, eq_iff, if◌then◌else◌, ◌==◌, nat_eq, string_eq, Bool-cases, ==_refl, filter, All,
}
use cloud_nvr.Store.Enrollment.{ok, not_found, failed, Faults, is_unused}
use cloud_nvr.Store.Devices.{
  PairingToken, DeviceSession, Devices, pairs, use_pairing, claim_mobile_pairing, is_valid,
  find_session, update_sessions, noted, device_session_by_token_hash, list_device_sessions,
  has_unrevoked, revoke_device_session, revoke_device_session_by_token_hash,
}

use_pairing_again :
    (now later : ℕ) (hash : String) (ps : List PairingToken)
    → now ≤ later
    → (use_pairing later hash (use_pairing now hash ps).1).0 ≡ false
unfolding use_pairing
use_pairing_again now later hash [] le = refl
use_pairing_again now later hash (p ∷ ps) le = elim (Bool-cases (pairs now hash p)) [
  | inl e ↦ rw e (ground (arith, use_pairing_again now later hash ps le))
  | inr e ↦
      let e' : pairs later hash p ≡ false = ground (arith, e, le) in
      rw (e, e') (use_pairing_again now later hash ps le)
]

-- A claim that does not succeed, for whatever reason, changes no table: a pairing code is not used
-- up without a session for it.
pub claim_atomic :
    (f : Faults) (now : ℕ) (hash id name : String) (expires : ℕ) (session_hash : String)
    (d : Devices)
    → (claim_mobile_pairing f now hash id name expires session_hash d).0 ≢ ok
    → (claim_mobile_pairing f now hash id name expires session_hash d).1 ≡ d
unfolding claim_mobile_pairing
claim_atomic f now hash id name expires session_hash d h = ground arith

-- A pairing code that was claimed is claimed by no later call, and the call changes nothing.
pub claim_once :
    (f f' : Faults) (now later : ℕ) (hash id id' name name' : String) (expires expires' : ℕ)
    (session_hash session_hash' : String) (d : Devices)
    → now ≤ later
    → (claim_mobile_pairing f now hash id name expires session_hash d).0 ≡ ok
    → let after = (claim_mobile_pairing f now hash id name expires session_hash d).1 in
      claim_mobile_pairing f' later hash id' name' expires' session_hash' after
      ≡ (if f'.begin || f'.first then failed else not_found, after)
unfolding claim_mobile_pairing
claim_once f f' now later hash id id' name name' expires expires' session_hash session_hash' d le
      h =
    ground (arith, use_pairing_again now later hash d.pairings le)

device_session_found :
    (now : ℕ) (hash : String) (d : Devices) (s : DeviceSession)
    → find_session now hash d.sessions ≡ some s
    → (device_session_by_token_hash now hash d).0 ≡ some s
unfolding device_session_by_token_hash noted
device_session_found now hash d s e = rw e refl

-- The session of a claimed pairing authenticates its device until it expires.
pub claim_authenticates :
    (f : Faults) (now later : ℕ) (hash id name : String) (expires : ℕ) (session_hash : String)
    (d : Devices)
    → (claim_mobile_pairing f now hash id name expires session_hash d).0 ≡ ok
    → later < expires
    → let after = (claim_mobile_pairing f now hash id name expires session_hash d).1 in
      (s : DeviceSession) × ((device_session_by_token_hash later session_hash after).0 ≡ some s)
      × (s.id ≡ id)
      × (s.name ≡ name)
unfolding claim_mobile_pairing find_session
claim_authenticates f now later hash id name expires session_hash d h lt =
    let session : DeviceSession = record {
      id = id;
      name = name;
      token_hash = session_hash;
      expires_at = expires;
      last_seen_at = now;
      revoked_at = none;
    } in
    let after = (claim_mobile_pairing f now hash id name expires session_hash d).1 in
    let sessions : after.sessions ≡ session ∷ d.sessions = ground (arith, h) in
    let found : find_session later session_hash (session ∷ d.sessions) ≡ some session =
      ground (arith, ==_refl session_hash, lt) in
    (
      session,
      (device_session_found later session_hash after session (rw (sessions, found))),
      refl,
      refl,
    )

find-revoked :
    (now later : ℕ) (hash : String) (ss : List DeviceSession)
    → find_session later hash
        (update_sessions (λ s. s.token_hash == hash) (λ s. record s { revoked_at = some now }) ss)
      ≡ none
unfolding find_session update_sessions
find-revoked now later hash [] = refl
find-revoked now later hash (s ∷ ss) = ground (arith, find-revoked now later hash ss)

device_session_missing :
    (now : ℕ) (hash : String) (d : Devices)
    → find_session now hash d.sessions ≡ none
    → (device_session_by_token_hash now hash d).0 ≡ none
unfolding device_session_by_token_hash noted
device_session_missing now hash d e = rw e refl

-- Signing out revokes the token at once and for good: no later request is authenticated by it.
pub revoke_lem :
    (now later : ℕ) (hash : String) (d : Devices)
    → (device_session_by_token_hash later hash (revoke_device_session_by_token_hash now hash d)).0
      ≡ none
unfolding revoke_device_session_by_token_hash
revoke_lem now later hash d =
    device_session_missing later hash (revoke_device_session_by_token_hash now hash d)
      (find-revoked now later hash d.sessions)

All-cons_if :
    (P : DeviceSession → Type 0) (b : Bool) (x : DeviceSession) (xs : List DeviceSession)
    → (b ≡ true → P x)
    → All P xs
    → All P (if b then x ∷ xs else xs)
All-cons_if P true x xs f h = (f refl, h)
All-cons_if P false x xs f h = h

revoked-unlisted :
    (now later : ℕ) (id : String) (ss : List DeviceSession)
    → All
        (λ s. s.id ≢ id)
        (filter (is_valid later) (
          update_sessions
            (λ s. s.id == id && is_unused s.revoked_at)
            (λ s. record s { revoked_at = some now })
            ss))
unfolding update_sessions
revoked-unlisted now later id [] = tt
revoked-unlisted now later id (s ∷ ss) =
    All-cons_if (λ x. x.id ≢ id) _ _ _ (ground (arith, eq_iff s.id id))
      (revoked-unlisted now later id ss)

no-unrevoked :
    (later : ℕ) (id : String) (ss : List DeviceSession)
    → has_unrevoked id ss ≡ false
    → All (λ s. s.id ≢ id) (filter (is_valid later) ss)
unfolding has_unrevoked
no-unrevoked later id [] h = tt
no-unrevoked later id (s ∷ ss) h =
    All-cons_if (λ x. x.id ≢ id) (is_valid later s) s (filter (is_valid later) ss)
      (ground (arith, h, eq_iff s.id id)) (no-unrevoked later id ss (ground (arith, h)))

-- After RevokeDeviceSession, whether it found the device or not, no valid session of the device is
-- listed, at any time.
pub revoke_device_session_lem :
    (now later : ℕ) (id : String) (d : Devices)
    → All (λ s. s.id ≢ id) (list_device_sessions later (revoke_device_session now id d).1)
unfolding revoke_device_session list_device_sessions
revoke_device_session_lem now later id d = elim (Bool-cases (has_unrevoked id d.sessions)) [
  | inl e ↦ rw e (revoked-unlisted now later id d.sessions)
  | inr e ↦ rw e (no-unrevoked later id d.sessions e)
]
