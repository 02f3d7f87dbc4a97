-- ===== src/Server/Pairing/Paired.antt =====
-- A device that claimed its pairing is let in by the middleware.
use cloud_nvr.Base.{
  ℕ, ◌+◌, ◌*◌, ◌<◌, String, false, Option, none, some, ltb, ◌==◌, string_eq, eq_iff, arith,
  Bool-cases, subst, ◌≡◌, ◌≢◌, refl, sym, ◌∙◌, ap, inl, inr,
}
use cloud_nvr.Base.Time.{day}
use cloud_nvr.Store.Enrollment.{Outcome, ok, not_found, failed, Faults}
use cloud_nvr.Store.Devices.{
  DeviceSession, Devices, claim_mobile_pairing, device_session_by_token_hash,
}
use cloud_nvr.Store.Devices.Pairing.{claim_authenticates}
use cloud_nvr.Server.Access.{paired_device, admitted, Credentials, bearer, by_cookie, admin}
use cloud_nvr.Server.Pairing.{Words, paired, name_of, claimed, claim_with, claim_pairing}

-- What a claim that was granted says of its parts.
claimed-paired :
    (id name : String) (expires : ℕ) (token : String) (o : Outcome × Devices) (i n : String) (e : ℕ)
    (t : String)
    → (claimed id name expires token o).0 ≡ paired i n e t
    → (o.0 ≡ ok)
      × (i ≡ id)
      × (e ≡ expires)
      × (t ≡ token)
      × ((claimed id name expires token o).1 ≡ o.1)
claimed-paired id name expires token (ok, d) i n e t h =
    (refl, ground (arith, h), ground (arith, h), ground (arith, h), refl)
claimed-paired id name expires token (not_found, d) i n e t h = absurd (ground (arith, h))
claimed-paired id name expires token (failed, d) i n e t h = absurd (ground (arith, h))

abbrev Found : Words → String → String → ℕ → Devices → Type 0
Found w i t later d =
    (s : DeviceSession) × ((device_session_by_token_hash later (w.hash t) d).0 ≡ some s)
    × (s.id ≡ i)

module _ (w : Words) (f : Faults) (now at : ℕ) (code name : String) (d : Devices) (i n : String)
    (e : ℕ) (t : String) (later : ℕ) (before : later < e) where
  granted :
      (code' name' : String) (id token : Option String)
      → (claim_with w f now at code' name' id token d).0 ≡ paired i n e t
      → Found w i t later (claim_with w f now at code' name' id token d).1
  granted code' name' none token h = absurd (ground (arith, h))
  granted code' name' (some id) none h = absurd (ground (arith, h))
  granted code' name' (some id) (some token) h =
      let expires : ℕ = now + 180 * day in
      let o = claim_mobile_pairing f at (w.hash code') id name' expires (w.hash token) d in
      let (done, ids, ends, tokens, left) = claimed-paired id name' expires token o i n e t h in
      let lt : later < expires = subst (λ x. later < x) ends before in
      let (s, found, same, _) =
        claim_authenticates f at later (w.hash code') id name' expires (w.hash token) d done lt in
      (s, rw (left, tokens) found, same ∙ sym ids)

  claim_pairing-Found :
      (id token : Option String)
      → (claim_pairing w f now at code name id token d).0 ≡ paired i n e t
      → Found w i t later (claim_pairing w f now at code name id token d).1
  unfolding claim_pairing
  claim_pairing-Found id token h = elim (Bool-cases (w.trim code == "")) [
    | inl a ↦ absurd (ground (arith, h, a))
    | inr a ↦ elim (Bool-cases (ltb 100 (w.len (name_of w name)))) [
      | inl b ↦ absurd (ground (arith, h, a, b))
      | inr b ↦
          let ran : claim_pairing w f now at code name id token d
              ≡ claim_with w f now at (w.trim code) (name_of w name) id token d =
            rw (a, b) refl in
          subst (λ q. Found w i t later q.1) (sym ran)
            (granted (w.trim code) (name_of w name) id token (ap (λ q. q.0) (sym ran) ∙ h))
    ]
  ]

  -- When claimMobilePairing answers that a device is paired, the middleware lets in a request with
  -- the token of its cookie, as that device, until the end that the answer names. The token is not
  -- empty, the request does not have the key of the administrator, and the database answers.
  pub claim_pairing-admitted :
      (id token : Option String) (key : String) (c : Credentials)
      → (claim_pairing w f now at code name id token d).0 ≡ paired i n e t
      → t ≢ ""
      → bearer c ≢ key
      → c.device_cookie ≡ some t
      → (admin w.hash key false later c (claim_pairing w f now at code name id token d).1).0
        ≡ admitted (paired_device i)
  unfolding admin by_cookie
  claim_pairing-admitted id token key c h ne nk cookie =
      let (s, found, same) = claim_pairing-Found id token h in
      let other : (bearer c == key) ≡ false = ground (arith, nk, eq_iff (bearer c) key) in
      let full : (t == "") ≡ false = ground (arith, ne, eq_iff t "") in
      rw (other, cookie, full, found, same) refl
