-- ===== src/Media/Storage/Identity/Binding.antt =====
-- What EnsureRecordingStorage of internal/media/storage.go keeps safe, and what it promises.
use cloud_nvr.Base.{
  ℕ, ◌≡◌, refl, subst, ◌↔◌, inl, inr, true, List, [], ◌∷◌, ◌++◌, arith, nat_eq, string_eq,
  Bool-cases,
}
use cloud_nvr.Base.Text.{trim_space, byte_len, NoSpace, trim_space-newline, trim_space-NoSpace}
use cloud_nvr.Media.Storage.Identity.{
  File, absent, unreadable, holds, Identity, known, missing, invalid, identity_of, read_identity,
  written, ok, Storage, Outcome, list_beq, ensure_with, ensure_recording_storage,
}

list_beq_sound : (as' bs : List ℕ) → list_beq as' bs ≡ true → as' ≡ bs
unfolding list_beq
list_beq_sound [] [] h = refl
list_beq_sound [] (b ∷ bs) h = cc
list_beq_sound (a ∷ as') [] h = cc
list_beq_sound (a ∷ as') (b ∷ bs) h = ground (arith, list_beq_sound as' bs)

list_beq_refl : (as' : List ℕ) → list_beq as' as' ≡ true
unfolding list_beq
list_beq_refl [] = refl
list_beq_refl (a ∷ as') = ground (arith, list_beq_refl as')

-- A value that was read comes back when it is written and read again.
read-written :
    (f : File) (value : List ℕ)
    → read_identity f ≡ known value
    → read_identity (written value) ≡ known value
unfolding read_identity written identity_of
read-written absent value h = cc
read-written unreadable value h = cc
read-written (holds text) value h = ground (arith, trim_space-newline text)

-- 32 hexadecimal digits, as hex.EncodeToString makes them of 16 random bytes.
abbrev pub IsHexIdentity : List ℕ → Type 0
IsHexIdentity value = NoSpace value × (byte_len value ≡ 32)

read-written_hex :
    (value : List ℕ) → IsHexIdentity value → read_identity (written value) ≡ known value
unfolding read_identity written identity_of
read-written_hex value h =
    let back : trim_space (value ++ 0x0a ∷ []) ≡ value =
      subst (λ v. trim_space (v ++ 0x0a ∷ []) ≡ v) (trim_space-NoSpace value h.0)
        (trim_space-newline value) in
    ground (arith, back, h.1)

-- Both files hold the same identity.
abbrev pub IsBound : Storage → Type 0
IsBound s =
    (value : List ℕ) × (read_identity s.identity_file ≡ known value)
    × (read_identity s.marker ≡ known value)

module _ (o : Outcome) (s : Storage) where
  ensure_with-IsBound :
      (i m : Identity)
      → IsHexIdentity o.random
      → read_identity s.identity_file ≡ i
      → read_identity s.marker ≡ m
      → (ensure_with o i m s).0 ≡ ok
      → IsBound (ensure_with o i m s).1
  unfolding ensure_with
  ensure_with-IsBound (known i) (known m) hex hi hm h =
      (i, ground arith, ground (arith, list_beq_sound i m))
  ensure_with-IsBound missing (known m) hex hi hm h =
      (m, ground (arith, read-written s.marker m), ground arith)
  ensure_with-IsBound missing missing hex hi hm h = (
    o.random,
    ground (arith, read-written_hex o.random hex),
    ground (arith, read-written_hex o.random hex),
  )
  ensure_with-IsBound missing invalid hex hi hm h = cc
  ensure_with-IsBound invalid m hex hi hm h = cc
  ensure_with-IsBound (known i) missing hex hi hm h = cc
  ensure_with-IsBound (known i) invalid hex hi hm h = cc

  -- When the check succeeds, the machine and the directory hold the same identity, whether they
  -- did before, the directory's was adopted, or a new one was written to both.
  pub ensure-IsBound :
      IsHexIdentity o.random
      → (ensure_recording_storage o s).0 ≡ ok
      → IsBound (ensure_recording_storage o s).1
  unfolding ensure_recording_storage
  ensure-IsBound hex h = elim (Bool-cases o.parent_made) [
    | inl e ↦ simp e (
        ensure_with-IsBound (read_identity s.identity_file) (read_identity s.marker) hex refl refl
          (ground arith))
    | inr e ↦ ground arith
  ]

  known_with :
      (value : List ℕ) (m : Identity)
      → ((ensure_with o (known value) m s).0 ≡ ok) ↔ (m ≡ known value)
  unfolding ensure_with
  known_with value (known m) =
      (λ e. ground (arith, list_beq_sound value m), λ e. ground (arith, list_beq_refl value))
  known_with value missing = (λ e. cc, λ e. cc)
  known_with value invalid = (λ e. cc, λ e. cc)

  -- On a machine that has an identity, the check writes nothing, and it succeeds exactly when the
  -- directory shows the same identity: a missing, unreadable or foreign marker is refused.
  pub ensure_known :
      (value : List ℕ)
      → read_identity s.identity_file ≡ known value
      → ((ensure_recording_storage o s).1 ≡ s)
        × ((ensure_recording_storage o s).0 ≡ ok
            ↔ (o.parent_made ≡ true) × (read_identity s.marker ≡ known value))
  unfolding ensure_recording_storage ensure_with
  ensure_known value h =
      let same = known_with value (read_identity s.marker) in
      (ground arith, (λ e. ground (arith, same.0), λ p. ground (arith, same.1)))

  -- A marker that can be read is never overwritten.
  pub ensure_marker :
      (value : List ℕ)
      → read_identity s.marker ≡ known value
      → (ensure_recording_storage o s).1.marker ≡ s.marker
  unfolding ensure_recording_storage ensure_with
  ensure_marker value h = ground arith
