-- ===== src/Store/Cameras/Updates.antt =====
-- What the UPDATEs of the cameras change and answer: internal/store/store.go.
use cloud_nvr.Base.{
  ◌≡◌, refl, sym, ◌≢◌, ◌⊎◌, inl, inr, String, Bool, true, false, ◌&&◌, List, [], ◌∷◌, arith, eq_iff,
  ◌==◌, nat_eq, string_eq, Bool-cases, All, In, here, there, All-weaken,
}
use cloud_nvr.Store.Enrollment.{not_found}
use cloud_nvr.Domain.{
  RecordingMode, mode_manual, mode_local, mode_cloud, mode_hybrid, mode_disabled, mode_beq,
  bool_beq,
}
use cloud_nvr.Store.Cameras.{Camera, update_cameras, answer, same_manual, set_manual_recording}

bool_beq_refl : (b : Bool) → bool_beq b b ≡ true
bool_beq_refl true = refl
bool_beq_refl false = refl

mode_beq_manual : (m : RecordingMode) → mode_beq m mode_manual ≡ true → m ≡ mode_manual
mode_beq_manual mode_manual e = refl
mode_beq_manual mode_local e = cc
mode_beq_manual mode_cloud e = cc
mode_beq_manual mode_hybrid e = cc
mode_beq_manual mode_disabled e = cc

module _ (p : Camera → Bool) (f : Camera → Camera) (same : Camera → Camera → Bool) where
  update_cameras_unchanged :
      (cs : List Camera)
      → All (λ x. p x ≡ true → (f x ≡ x) × (same x (f x) ≡ true)) cs
      → update_cameras p f same cs ≡ (false, cs)
  unfolding update_cameras
  update_cameras_unchanged [] h = refl
  update_cameras_unchanged (c ∷ cs) h = elim (Bool-cases (p c)) [
    | inl e ↦ let (fx, sx) = h.0 e in rw (e, update_cameras_unchanged cs h.1, sx, fx) refl
    | inr e ↦ rw (e, update_cameras_unchanged cs h.1) refl
  ]

  update_cameras_keeps :
      (x : Camera) (cs : List Camera) → In x cs → p x ≡ false → In x (update_cameras p f same cs).1
  unfolding update_cameras
  update_cameras_keeps x [] i e = elim i [ ]
  update_cameras_keeps x (_ ∷ cs) here e = rw e here
  update_cameras_keeps x (c ∷ cs) (there i) e = elim (Bool-cases (p c)) [
    | inl e' ↦ rw e' (there (update_cameras_keeps x cs i e))
    | inr e' ↦ rw e' (there (update_cameras_keeps x cs i e))
  ]

  update_cameras-All :
      (Q : Camera → Type 0) (cs : List Camera)
      → ((x : Camera) → p x ≡ true → Q (f x))
      → ((x : Camera) → p x ≡ false → Q x)
      → All Q (update_cameras p f same cs).1
  unfolding update_cameras
  update_cameras-All Q [] hit miss = tt
  update_cameras-All Q (c ∷ cs) hit miss = elim (Bool-cases (p c)) [
    | inl e ↦ rw e (hit c e, update_cameras-All Q cs hit miss)
    | inr e ↦ rw e (miss c e, update_cameras-All Q cs hit miss)
  ]

answer_table : (r : Bool × List Camera) → (answer r).1 ≡ r.1
answer_table (true, cs) = refl
answer_table (false, cs) = refl

-- SetManualRecording answers that no camera was found whenever it changes no value, also when the
-- camera is there, in manual mode, and already records as asked; the table stays as it was.
pub set_manual_unchanged :
    (id : String) (active : Bool) (cs : List Camera)
    → All (λ x. x.id ≡ id → x.recording_mode ≡ mode_manual → x.manual_recording ≡ active) cs
    → set_manual_recording id active cs ≡ (not_found, cs)
unfolding set_manual_recording
set_manual_unchanged id active cs h =
    let unchanged =
      update_cameras_unchanged (λ c. c.id == id && mode_beq c.recording_mode mode_manual)
        (λ c. record c { manual_recording = active }) same_manual cs
        (All-weaken _ _ cs (λ x hx e. same_after x hx e) h) in
    rw unchanged refl
  where
    same_after :
        (x : Camera)
        → (x.id ≡ id → x.recording_mode ≡ mode_manual → x.manual_recording ≡ active)
        → (x.id == id && mode_beq x.recording_mode mode_manual) ≡ true
        → ((record x { manual_recording = active }) ≡ x)
          × (bool_beq x.manual_recording active ≡ true)
    same_after x hx e =
        let i : x.id ≡ id = ground (arith, e, eq_iff x.id id) in
        let m : x.recording_mode ≡ mode_manual =
          mode_beq_manual x.recording_mode (ground (arith, e)) in
        rw (sym (hx i m)) (refl, bool_beq_refl x.manual_recording)

-- SetManualRecording reaches only the camera with the id, and it only in manual mode: every other
-- row stays, and each row with the id in manual mode records as asked afterwards.
pub set_manual_scope :
    (id : String) (active : Bool) (cs : List Camera)
    → let after = (set_manual_recording id active cs).1 in
      All (λ x. x.id ≡ id → x.recording_mode ≡ mode_manual → x.manual_recording ≡ active) after
      × ((x : Camera) → In x cs → (x.id ≢ id) ⊎ (x.recording_mode ≢ mode_manual) → In x after)
unfolding set_manual_recording
set_manual_scope id active cs =
    rw
      (answer_table (
        update_cameras (λ c. c.id == id && mode_beq c.recording_mode mode_manual)
          (λ c. record c { manual_recording = active }) same_manual cs))
      (
        update_cameras-All _ _ _ _ cs (λ x e _ _. refl) (λ x e i m. matched x e i m),
        (λ x i h. update_cameras_keeps _ _ _ x cs i (missed x h)),
      )
  where
    matched :
        (x : Camera)
        → (x.id == id && mode_beq x.recording_mode mode_manual) ≡ false
        → x.id ≡ id
        → x.recording_mode ≡ mode_manual
        → x.manual_recording ≡ active
    matched x e i m =
        let i' : (x.id == id) ≡ true = ground (arith, i, eq_iff x.id id) in
        let m' : mode_beq x.recording_mode mode_manual ≡ true = simp m in cc

    missed :
        (x : Camera)
        → (x.id ≢ id) ⊎ (x.recording_mode ≢ mode_manual)
        → (x.id == id && mode_beq x.recording_mode mode_manual) ≡ false
    missed x (inl n) = ground (arith, n, eq_iff x.id id)
    missed x (inr n) = let m' = mode_beq_manual x.recording_mode in ground (arith, n, m')
