-- ===== src/Server/Pairing.antt =====
-- internal/cloud/mobile_handlers.go: a device is paired by a code, and leaves again. What strings,
-- net/url, crypto/rand and the hash of a token make of a value is a parameter.
pub mod Paired
mod Examples
use cloud_nvr.Base.{
  ℕ, ◌+◌, ◌*◌, String, ◌<>◌, Bool, Option, none, some, ltb, if◌then◌else◌, ◌==◌, string_eq,
}
use cloud_nvr.Base.Time.{minute, day}
use cloud_nvr.Store.Enrollment.{Outcome, ok, not_found, failed, Faults}
use cloud_nvr.Store.Devices.{
  Devices, create_mobile_pairing, claim_mobile_pairing, revoke_device_session,
  revoke_device_session_by_token_hash,
}

-- TrimSpace, the length in bytes, QueryEscape and TokenHash.
pub record Words : Type 0 where
  pub trim : String → String
  pub len : String → ℕ
  pub escape : String → String
  pub hash : String → String

-- The answers: 500; 400 without a code or with a long name; 401; 404; 204; and 201 with the address of
-- a pairing and its end, or with a device: its id, its name, its end, and the token in its cookie.
pub data Reply : Type 0 where
  internal_error code_required name_too_long invalid_code unknown_device no_content : Reply
  pairing_created : String → ℕ → Reply
  paired : String → String → ℕ → String → Reply

abbrev pub created : Words → String → String → ℕ → Outcome × Devices → Reply × Devices
created w public_url token expires (ok, d) =
    (pairing_created ((public_url <> "/?pair=") <> w.escape token) expires, d)
created w public_url token expires (_, d) = (internal_error, d)

-- createMobilePairing; `token` is what RandomToken gives, and `fault` an error of the database.
unfoldable pub create_pairing :
    Words → String → Option String → Bool → ℕ → Devices → Reply × Devices
create_pairing w public_url none fault now d = (internal_error, d)
create_pairing w public_url (some token) fault now d =
    if fault
    then (internal_error, d)
    else created w public_url token (now + 10 * minute)
        (create_mobile_pairing (w.hash token) (now + 10 * minute) d)

abbrev pub name_of : Words → String → String
name_of w name = if w.trim name == "" then "iPhone" else w.trim name

abbrev pub claimed : String → String → ℕ → String → Outcome × Devices → Reply × Devices
claimed id name expires token (ok, d) = (paired id name expires token, d)
claimed id name expires token (not_found, d) = (invalid_code, d)
claimed id name expires token (failed, d) = (internal_error, d)

-- The part of claimMobilePairing after its checks. The database reads the clock at `at`.
abbrev pub claim_with :
    Words
    → Faults
    → ℕ
    → ℕ
    → String
    → String
    → Option String
    → Option String
    → Devices
    → Reply × Devices
claim_with w f now at code name none token d = (internal_error, d)
claim_with w f now at code name (some id) none d = (internal_error, d)
claim_with w f now at code name (some id) (some token) d =
    claimed id name (now + 180 * day) token
      (claim_mobile_pairing f at (w.hash code) id name (now + 180 * day) (w.hash token) d)

-- claimMobilePairing
unfoldable pub claim_pairing :
    Words
    → Faults
    → ℕ
    → ℕ
    → String
    → String
    → Option String
    → Option String
    → Devices
    → Reply × Devices
claim_pairing w f now at code name id token d =
    if w.trim code == ""
    then (code_required, d)
    else if ltb 100 (w.len (name_of w name))
    then (name_too_long, d)
    else claim_with w f now at (w.trim code) (name_of w name) id token d

abbrev pub revoked : Outcome × Devices → Reply × Devices
revoked (ok, d) = (no_content, d)
revoked (not_found, d) = (unknown_device, d)
revoked (failed, d) = (internal_error, d)

-- revokeMobileDevice
unfoldable pub revoke_mobile_device : Bool → ℕ → String → Devices → Reply × Devices
revoke_mobile_device fault now id d =
    if fault then (internal_error, d) else revoked (revoke_device_session now id d)

-- sessionLogout, for the cookie of the device. It takes the cookie back.
unfoldable pub session_logout : Words → Bool → ℕ → Option String → Devices → Reply × Devices
session_logout w fault now none d = (no_content, d)
session_logout w fault now (some token) d =
    if token == ""
    then (no_content, d)
    else if fault
    then (internal_error, d)
    else (no_content, revoke_device_session_by_token_hash now (w.hash token) d)
