-- ===== src/Agent/Onvif/Home/Fallback.antt =====
-- SetHome and GotoHome of internal/onvif/ptz.go for a camera without the home operations: a preset by
-- the name of the program takes their place.
use cloud_nvr.Base.{
  String, true, false, not, ◌&&◌, ◌||◌, none, some, List, ◌==◌, string_eq, arith, eq_iff, subst,
  Bool-cases, ◌≡◌, refl, ◌∙◌, ap, inl, inr,
}
use cloud_nvr.Agent.Onvif.Calls.{Keeps, call-Keeps, After, bind-After, call-After, or_fail-After}
use cloud_nvr.Agent.Onvif.{
  Request, get_capabilities, get_profiles, set_home_position, goto_home_position, get_presets,
  set_preset, goto_preset, received, Preset, Camera, Reader, Failure, no_discovery,
  bad_capabilities, no_services, no_profiles, no_usable_profile, services, first_profile,
  set_home_failed, go_home_failed, home_not_configured, Result, done, failed, Action, pure, ◌>>=◌,
  call, Service, discover, named_preset_token, set_named_home_preset, goto_named_home_preset,
  goto_token, list_presets, or_else, set_home, goto_home,
}
use cloud_nvr.Agent.Onvif.Home.{View, asks, HasTokens, Saved, Serves, Remembers, Saved-Remembers}

-- The errors other than that no home was stored.
abbrev pub Configured : Failure → Type 0
Configured home_not_configured = ⊥
Configured e = Unit

module _ {S F P : Type 0} (x : Reader F) (c : Camera S) (view : S → View P)
    (serves : Serves x c view) (v : View P) (W : Failure → Type 0)
    (w : (e : Failure) → Configured e → W e) where
  Seen : S → Type 0
  Seen s = view s ≡ v

  services-After :
      (u : String × String) (s : S)
      → Seen s
      → After (λ _. Seen) W (services x c u s).0 (services x c u s).1
  services-After u s h = elim (Bool-cases (x.trim u.0 == "" || x.trim u.1 == "")) [
    | inl d ↦ rw d (w no_services tt)
    | inr d ↦ rw d h
  ]

  asked-After :
      (url : String) (r : Request) (e : Failure) (s : S)
      → asks r ≡ true
      → Configured e
      → Seen s
      → After (λ _. Seen) W (call c url r e s).0 (call c url r e s).1
  unfolding Seen
  asked-After url r e s a k h =
      call-After c url r e s (λ _. Seen) W (w e k) (λ b g. serves.keeps url r s a ∙ h)

  discover-After : (s : S) → Seen s → After (λ _. Seen) W (discover x c s).0 (discover x c s).1
  unfolding discover asks
  discover-After s h =
      bind-After (λ _. Seen) (λ _. Seen) W _
        (λ body t k.
          bind-After (λ _. Seen) (λ _. Seen) W _
            (λ found t k.
              bind-After (λ _. Seen) (λ _. Seen) W _
                (λ urls t k.
                  bind-After (λ _. Seen) (λ _. Seen) W _
                    (λ listed t k.
                      bind-After (λ _. Seen) (λ _. Seen) W _ (λ token t k. k) _ _
                        (or_fail-After (first_profile (x.profiles listed)) _ t _ W
                          (w no_usable_profile tt) (λ _ _. k)))
                    _ _ (asked-After urls.0 get_profiles no_profiles t refl tt k))
                _ _ (services-After found t k))
            _ _ (or_fail-After (x.capabilities body) _ t _ W (w bad_capabilities tt) (λ _ _. k)))
        _ _ (asked-After c.endpoint get_capabilities no_discovery s refl tt h)

  listed-After :
      {B : Type 0} (E : B → S → Type 0) (service : Service) (e : Failure)
      (f : List Preset → Action S B) (s : S)
      → Configured e
      → ((t : S) → Seen t → After E W (f v.presets t).0 (f v.presets t).1)
      → Seen s
      → After E W ((list_presets x c service e >>= f) s).0 ((list_presets x c service e >>= f) s).1
  unfolding Seen asks
  listed-After E service e f s k l h =
      bind-After (λ ps t. (ps ≡ v.presets) × Seen t) E W f (λ ps t q. rw q.0 (l t q.1)) _ _
        (bind-After (λ b t. (x.presets b ≡ some v.presets) × Seen t) _ W _
          (λ b t q. rw q.0 (refl, q.1)) _ _
          (call-After c service.url (get_presets service.profile) e s _ W (w e k) (λ b g. (
            rw (serves.lists service.url service.profile s b g, h) refl,
            serves.keeps service.url _ s refl ∙ h,
          ))))

  fallback-After :
      (E : Unit → S → Type 0) (m : Action S String) (k : Action S Unit) (s : S) (e : Failure)
      → (m s).0 ≡ failed e
      → Seen (m s).1
      → ((t : S) → Seen t → After E W (k t).0 (k t).1)
      → After E W (or_else m k s).0 (or_else m k s).1
  fallback-After E m k s e r h l = rw r (l (m s).1 h)

  refused :
      (url : String) (r : Request) (e : Failure) (s : S)
      → received (c.post url r s).1 ≡ none
      → (call c url r e s).0 ≡ failed e
  unfolding call
  refused url r e s n = elim (Bool-cases (not (c.username == "") && not (c.has_nonce s))) [
    | inl d ↦ rw d refl
    | inr d ↦ rw (d, n) refl
  ]

  kept : (url : String) (r : Request) (e : Failure) → asks r ≡ true → Keeps Seen (call c url r e)
  unfolding Seen
  kept url r e a = call-Keeps c Seen url r e λ s h. serves.keeps url r s a ∙ h

  set_named-After :
      (service : Service) (s : S)
      → HasTokens x v.presets
      → Seen s
      → After
          (λ _ t. Remembers x v.position (view t))
          W
          (set_named_home_preset x c service s).0
          (set_named_home_preset x c service s).1
  unfolding set_named_home_preset Seen
  set_named-After service s k h =
      let E : Unit → S → Type 0 = λ _ t. Remembers x v.position (view t) in
      let token : String = named_preset_token x v.presets in
      listed-After E service set_home_failed _ s tt
        (λ t i.
          bind-After (λ _ u. Remembers x v.position (view u)) E W (λ _. pure tt) (λ _ _ r. r) _ _
            (call-After c service.url (set_preset service.profile token) set_home_failed t
              (λ _ u. Remembers x v.position (view u)) W (w set_home_failed tt)
              (λ b n.
                Saved-Remembers x v
                  (view (c.post service.url (set_preset service.profile token) t).0) token
                  serves.reads_name k refl
                  (subst
                    (λ y.
                      Saved x y token
                        (view (c.post service.url (set_preset service.profile token) t).0))
                    i (serves.saves service.url service.profile token t b n)))))
        h

  goto_named-After :
      (service : Service) (s : S) (p : P)
      → Remembers x p v
      → Seen s
      → After
          (λ _ t. (view t).position ≡ p)
          W
          (goto_named_home_preset x c service s).0
          (goto_named_home_preset x c service s).1
  unfolding goto_named_home_preset Seen
  goto_named-After service s p m h =
      let token : String = named_preset_token x v.presets in
      let set : (token == "") ≡ false = ground (arith, m, eq_iff token "") in
      let E : Unit → S → Type 0 = λ _ t. (view t).position ≡ p in
      listed-After E service go_home_failed (λ ps. goto_token x c service (named_preset_token x ps))
        s tt
        (λ t i. rw set (
          bind-After (λ _ u. (view u).position ≡ p) E W (λ _. pure tt) (λ _ _ r. r) _ _
            (call-After c service.url (goto_preset service.profile token) go_home_failed t
              (λ _ u. (view u).position ≡ p) W (w go_home_failed tt)
              (λ b n.
                serves.goes service.url service.profile token t b n
                ∙ ap (λ y. y.target token) i
                ∙ m.1))))
        h

  set_home-After :
      (s : S)
      → HasTokens x v.presets
      → Seen s
      → After (λ _ t. Remembers x v.position (view t)) W (set_home x c s).0 (set_home x c s).1
  unfolding set_home Seen Keeps asks
  set_home-After s k h =
      let E : Unit → S → Type 0 = λ _ t. Remembers x v.position (view t) in
      bind-After (λ _. Seen) E W _
        (λ service t q.
          fallback-After E (call c service.url (set_home_position service.profile) set_home_failed)
            (set_named_home_preset x c service) t set_home_failed
            (refused service.url (set_home_position service.profile) set_home_failed t
              (serves.no_set service.url service.profile t))
            (kept service.url (set_home_position service.profile) set_home_failed refl t q)
            (λ u g. set_named-After service u k g))
        _ _ (discover-After s h)

  goto_home-After :
      (s : S) (p : P)
      → Remembers x p v
      → Seen s
      → After (λ _ t. (view t).position ≡ p) W (goto_home x c s).0 (goto_home x c s).1
  unfolding goto_home Seen Keeps asks
  goto_home-After s p m h =
      let E : Unit → S → Type 0 = λ _ t. (view t).position ≡ p in
      bind-After (λ _. Seen) E W _
        (λ service t q.
          fallback-After E (call c service.url (goto_home_position service.profile) go_home_failed)
            (goto_named_home_preset x c service) t go_home_failed
            (refused service.url (goto_home_position service.profile) go_home_failed t
              (serves.no_goto service.url service.profile t))
            (kept service.url (goto_home_position service.profile) go_home_failed refl t q)
            (λ u g. goto_named-After service u p m g))
        _ _ (discover-After s h)

-- Where GotoHome ends: at the position, or with an error other than that no home was stored.
abbrev pub Returns : {S P : Type 0} → (S → View P) → P → Result Unit × S → Type 0
Returns view p q = After (λ _ t. (view t).position ≡ p) Configured q.0 q.1

module _ {S F P : Type 0} (x : Reader F) (c : Camera S) (view : S → View P)
    (serves : Serves x c view) where
  ended :
      (Q : S → Type 0) (r : Result Unit) (s : S)
      → After (λ _. Q) (λ _. Unit) r s
      → r ≡ done tt
      → Q s
  ended Q (done tt) s h e = h
  ended Q (failed f) s h e = absurd (subst (λ r. After {S = S} (λ _ _. ⊥) (λ _. Unit) r s) e tt)

  -- When SetHome succeeds, a later GotoHome that succeeds takes the camera back to where it was, and
  -- one that fails does not say that no home is stored. Between the two the camera may have moved
  -- but its presets have not changed. The camera has no home operations, and stores presets under
  -- tokens that are not blank; the others that it has do not have blank tokens either.
  pub goto_home-set_home :
      (s t : S)
      → HasTokens x (view s).presets
      → (set_home x c s).0 ≡ done tt
      → (view t).presets ≡ (view (set_home x c s).1).presets
      → (view t).target ≡ (view (set_home x c s).1).target
      → Returns view (view s).position (goto_home x c t)
  unfolding Seen
  goto_home-set_home s t k e ps tg =
      let m : Remembers x (view s).position (view (set_home x c s).1) =
        ended _ _ _ (set_home-After x c view serves (view s) (λ _. Unit) (λ _ _. tt) s k refl) e in
      goto_home-After x c view serves (view t) Configured (λ _ d. d) t (view s).position
        (rw (ps, tg) m) refl
