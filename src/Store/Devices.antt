-- ===== src/Store/Devices.antt =====
-- The tables `mobile_pairing_tokens` and `device_sessions`: internal/store/store.go.
pub mod Pairing
use cloud_nvr.Base.{
  ℕ, ◌+◌, ◌*◌, String, Bool, true, false, not, ◌&&◌, ◌||◌, Option, none, some, List, [], ◌∷◌, ltb,
  ◌==◌, string_eq, if◌then◌else◌, filter,
}
use cloud_nvr.Base.Time.{minute}
use cloud_nvr.Store.Enrollment.{Outcome, ok, not_found, failed, Faults, is_unused}

pub record PairingToken : Type 0 where
  pub token_hash : String
  pub expires_at : ℕ
  pub used_at : Option ℕ

-- domain.DeviceSession with the columns that it leaves out.
pub record DeviceSession : Type 0 where
  pub id : String
  pub name : String
  pub token_hash : String
  pub expires_at : ℕ
  pub last_seen_at : ℕ
  pub revoked_at : Option ℕ

pub record Devices : Type 0 where
  pub pairings : List PairingToken
  pub sessions : List DeviceSession

-- The primary key of the pairing tokens is the hash.
unfoldable pub has_pairing : String → List PairingToken → Bool
has_pairing hash [] = false
has_pairing hash (p ∷ ps) = let rest = has_pairing hash ps in p.token_hash == hash || rest

-- CreateMobilePairing
unfoldable pub create_mobile_pairing : String → ℕ → Devices → Outcome × Devices
create_mobile_pairing hash expires d = if has_pairing hash d.pairings then (failed, d) else (
  ok,
  record d {
    pairings = record { token_hash = hash; expires_at = expires; used_at = none } ∷ d.pairings;
  },
)

abbrev pub pairs : ℕ → String → PairingToken → Bool
pairs now hash p = p.token_hash == hash && is_unused p.used_at && ltb now p.expires_at

-- The UPDATE of ClaimMobilePairing: did a row change, and the table.
unfoldable pub use_pairing : ℕ → String → List PairingToken → Bool × List PairingToken
use_pairing now hash [] = (false, [])
use_pairing now hash (p ∷ ps) =
    let (hit, rest) = use_pairing now hash ps in
    if pairs now hash p then (true, record p { used_at = some now } ∷ rest) else (hit, p ∷ rest)

-- A session clashes with a row that has its id or its token: each column is unique.
unfoldable pub has_session : String → String → List DeviceSession → Bool
has_session id hash [] = false
has_session id hash (s ∷ ss) =
    let rest = has_session id hash ss in s.id == id || s.token_hash == hash || rest

-- ClaimMobilePairing
unfoldable pub claim_mobile_pairing :
    Faults → ℕ → String → String → String → ℕ → String → Devices → Outcome × Devices
claim_mobile_pairing f now hash id name expires session_hash d =
    if f.begin || f.first
    then (failed, d)
    else (let (hit, pairings) = use_pairing now hash d.pairings in
        if not hit
        then (not_found, d)
        else if f.second_one || has_session id session_hash d.sessions || f.commit
        then (failed, d)
        else (
          ok,
          record {
            pairings = pairings;
            sessions =
                record {
                  id = id;
                  name = name;
                  token_hash = session_hash;
                  expires_at = expires;
                  last_seen_at = now;
                  revoked_at = none;
                }
                ∷ d.sessions;
          },
        ))

abbrev pub is_valid : ℕ → DeviceSession → Bool
is_valid now s = is_unused s.revoked_at && ltb now s.expires_at

-- The SELECT of DeviceSessionByTokenHash.
unfoldable pub find_session : ℕ → String → List DeviceSession → Option DeviceSession
find_session now hash [] = none
find_session now hash (s ∷ ss) =
    let rest = find_session now hash ss in
    if s.token_hash == hash && is_valid now s then some s else rest

unfoldable pub update_sessions :
    (DeviceSession → Bool)
    → (DeviceSession → DeviceSession)
    → List DeviceSession
    → List DeviceSession
update_sessions p f [] = []
update_sessions p f (s ∷ ss) = (if p s then f s else s) ∷ update_sessions p f ss

-- The UPDATE of `last_seen_at` that follows the SELECT, at most every five minutes.
unfoldable pub noted : ℕ → Devices → Option DeviceSession → Option DeviceSession × Devices
unfolding update_sessions
noted now d none = (none, d)
noted now d (some s) = (
  some s,
  record d {
    sessions =
        update_sessions (λ x. x.id == s.id && ltb (x.last_seen_at + 5 * minute) now)
          (λ x. record x { last_seen_at = now }) d.sessions;
  },
)

-- DeviceSessionByTokenHash
unfoldable pub device_session_by_token_hash : ℕ → String → Devices → Option DeviceSession × Devices
device_session_by_token_hash now hash d = noted now d (find_session now hash d.sessions)

-- ListDeviceSessions, in the order of the table.
unfoldable pub list_device_sessions : ℕ → Devices → List DeviceSession
list_device_sessions now d = filter (is_valid now) d.sessions

unfoldable pub has_unrevoked : String → List DeviceSession → Bool
has_unrevoked id [] = false
has_unrevoked id (s ∷ ss) =
    let rest = has_unrevoked id ss in s.id == id && is_unused s.revoked_at || rest

-- RevokeDeviceSession
unfoldable pub revoke_device_session : ℕ → String → Devices → Outcome × Devices
unfolding update_sessions
revoke_device_session now id d =
    if has_unrevoked id d.sessions
    then (
      ok,
      record d {
        sessions =
            update_sessions (λ s. s.id == id && is_unused s.revoked_at)
              (λ s. record s { revoked_at = some now }) d.sessions;
      },
    )
    else (not_found, d)

-- RevokeDeviceSessionByTokenHash
unfoldable pub revoke_device_session_by_token_hash : ℕ → String → Devices → Devices
unfolding update_sessions
revoke_device_session_by_token_hash now hash d = record d {
  sessions =
      update_sessions (λ s. s.token_hash == hash) (λ s. record s { revoked_at = some now })
        d.sessions;
}
