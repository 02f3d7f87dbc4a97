-- ===== src/Server/Access/Entry.antt =====
-- Who gets in: the middleware of internal/cloud/server.go with the sessions and the agents of
-- internal/store/store.go.
use cloud_nvr.Base.{
  In-filter, ℕ, ◌<◌, ◌≡◌, refl, ◌≢◌, inl, inr, String, Bool, true, ◌&&◌, Option, none, some, List,
  [], ◌∷◌, arith, eq_iff, lt→ltb, ◌==◌, string_eq, Bool-cases, Option-cases, All, In, here, there,
  filter, All_of_In,
}
use cloud_nvr.Store.Enrollment.{is_unused}
use cloud_nvr.Store.Devices.{
  DeviceSession, Devices, is_valid, find_session, noted, device_session_by_token_hash,
  list_device_sessions, revoke_device_session,
}
use cloud_nvr.Store.Devices.Pairing.{revoke_device_session_lem}
use cloud_nvr.Server.Access.{
  AdminIdentity, admin_key, paired_device, admitted, Credentials, bearer, as_device, by_cookie,
  admin,
}

-- A live session that the token of the cookie opens.
abbrev pub Opens : (String → String) → ℕ → String → DeviceSession → Type 0
Opens hash now token s = (s.token_hash ≡ hash token) × (s.revoked_at ≡ none) × (now < s.expires_at)

-- What a request must show to be let in as an administrator.
abbrev pub Entitled :
    (String → String) → String → ℕ → Credentials → Devices → AdminIdentity → Type 0
Entitled hash key now c d admin_key = bearer c ≡ key
Entitled hash key now c d (paired_device id) =
    (token : String) × (s : DeviceSession) × (c.device_cookie ≡ some token)
    × (token ≢ "")
    × In s d.sessions
    × Opens hash now token s
    × (s.id ≡ id)

unused_none : (o : Option ℕ) → is_unused o ≡ true → o ≡ none
unused_none none h = refl
unused_none (some _) h = cc

-- What holds of a value, if there is one.
abbrev Holds : (DeviceSession → Type 0) → Option DeviceSession → Type 0
Holds P none = Unit
Holds P (some s) = P s

mono-Holds :
    (P Q : DeviceSession → Type 0) (o : Option DeviceSession)
    → ((s : DeviceSession) → P s → Q s)
    → Holds P o
    → Holds Q o
mono-Holds P Q none f h = tt
mono-Holds P Q (some s) f h = f s h

abbrev Live : String → ℕ → List DeviceSession → DeviceSession → Type 0
Live h now ss s = In s ss × (s.token_hash ≡ h) × (s.revoked_at ≡ none) × (now < s.expires_at)

find_session-Live :
    (now : ℕ) (h : String) (ss : List DeviceSession) → Holds (Live h now ss) (find_session now h ss)
unfolding find_session
find_session-Live now h [] = tt
find_session-Live now h (x ∷ ss) = elim (Bool-cases (x.token_hash == h && is_valid now x)) [
  | inl t ↦ rw t (
    here,
    ground (arith, t, eq_iff x.token_hash h),
    unused_none x.revoked_at (ground (arith, t)),
    ground (arith, t),
  )
  | inr t ↦ rw t (
      mono-Holds (Live h now ss) (Live h now (x ∷ ss)) (find_session now h ss)
        (λ s (i, l, r, n). (there i, l, r, n)) (find_session-Live now h ss))
]

session_found :
    (now : ℕ) (h : String) (d : Devices)
    → (device_session_by_token_hash now h d).0 ≡ find_session now h d.sessions
unfolding device_session_by_token_hash noted
session_found now h d = elim (Option-cases (find_session now h d.sessions)) [
  | inl e ↦ rw e refl
  | inr (s, e) ↦ rw e refl
]

-- A request with a cookie is let in as the device of the session that was found.
by_cookie-inv :
    (hash : String → String) (fault : Bool) (now : ℕ) (cookie : Option String) (d : Devices)
    (who : AdminIdentity)
    → (by_cookie hash fault now cookie d).0 ≡ admitted who
    → (token : String) × (cookie ≡ some token)
      × (token ≢ "")
      × (as_device (find_session now (hash token) d.sessions) ≡ admitted who)
unfolding by_cookie
by_cookie-inv hash fault now none d who h = cc
by_cookie-inv hash fault now (some token) d who h = (
  token,
  refl,
  ground (arith, h, eq_iff token ""),
  ground (arith, h, session_found now (hash token) d),
)

as_device-inv :
    (P : DeviceSession → Type 0) (o : Option DeviceSession) (who : AdminIdentity)
    → as_device o ≡ admitted who
    → Holds P o
    → (s : DeviceSession) × P s × (who ≡ paired_device s.id)
as_device-inv P none who e h = cc
as_device-inv P (some s) who e h = (s, h, ground (arith, e))

-- Whoever the middleware lets in as an administrator showed the key of the server, or a cookie
-- whose token opens a live session of the device it is let in as.
pub admin-Entitled :
    (hash : String → String) (key : String) (fault : Bool) (now : ℕ) (c : Credentials) (d : Devices)
    (who : AdminIdentity)
    → (admin hash key fault now c d).0 ≡ admitted who
    → Entitled hash key now c d who
unfolding admin
admin-Entitled hash key fault now c d who h = elim (Bool-cases (bearer c == key)) [
  | inl e ↦
      let who_eq : who ≡ admin_key = ground (arith, e, h) in rw who_eq ((eq_iff (bearer c) key).0 e)
  | inr e ↦
      let (token, has, given, found) =
        by_cookie-inv hash fault now c.device_cookie d who (ground (arith, e, h)) in
      let (s, (member, opens, unrevoked, unexpired), who_eq) =
        as_device-inv (Live (hash token) now d.sessions) (find_session now (hash token) d.sessions)
          who found (find_session-Live now (hash token) d.sessions) in
      rw who_eq (token, s, has, given, member, (opens, unrevoked, unexpired), refl)
]

unlisted :
    (now later : ℕ) (id : String) (d : Devices)
    → All (λ s. s.id ≢ id) (filter (is_valid later) (revoke_device_session now id d).1.sessions)
unfolding list_device_sessions
unlisted = revoke_device_session_lem

-- Once a device is revoked, no request is let in as that device, whatever cookie it shows and
-- whether the revocation found the device or not.
pub revoked_refused :
    (hash : String → String) (key : String) (fault : Bool) (now later : ℕ) (c : Credentials)
    (id : String) (d : Devices)
    → (admin hash key fault later c (revoke_device_session now id d).1).0
      ≢ admitted (paired_device id)
revoked_refused hash key fault now later c id d h =
    let after = (revoke_device_session now id d).1 in
    let (token, s, has, given, member, (opens, unrevoked, unexpired), same) =
      admin-Entitled hash key fault later c after (paired_device id) h in
    let valid : is_valid later s ≡ true = rw unrevoked (lt→ltb later s.expires_at unexpired) in
    All_of_In (λ x. x.id ≢ id) (In-filter (is_valid later) member valid) (unlisted now later id d)
      same
