-- ===== src/Agent/Onvif/Home.antt =====
-- A camera as SetHome and GotoHome of internal/onvif/ptz.go find it, without the optional home
-- operations: it stores presets.
pub mod Fallback
use cloud_nvr.Base.{
  ℕ, String, Bool, true, false, not, ◌&&◌, ◌||◌, Option, none, some, List, [], ◌∷◌, ◌++◌,
  if◌then◌else◌, ◌==◌, string_eq, arith, eq_iff, subst, Bool-cases, Option-cases, ◌≡◌, ◌≢◌, refl,
  sym, ◌∙◌, ap, inl, inr,
}
use cloud_nvr.Agent.Onvif.Calls.{Called, broke, gave, call-Called, Keeps, call-Keeps}
use cloud_nvr.Agent.Onvif.{
  Request, get_capabilities, get_profiles, set_home_position, goto_home_position, get_presets,
  set_preset, goto_preset, Exchange, received, Preset, Camera, Reader, Failure, no_discovery,
  bad_capabilities, no_services, no_profiles, no_usable_profile, services, first_profile,
  set_home_failed, go_home_failed, home_not_configured, Result, done, failed, Action, pure, fail,
  or_fail, ◌>>=◌, ◌>>◌, continued, call, Service, discover, named_preset_token,
  set_named_home_preset, goto_named_home_preset, goto_token, list_presets, otherwise, or_else,
  set_home, goto_home,
}

-- What a camera stores, and where it looks.
pub record View (P : Type 0) : Type 0 where
  pub position : P
  pub presets : List Preset
  pub target : String → P

-- Requests that do not touch the presets or the position.
unfoldable pub asks : Request → Bool
asks get_capabilities = true
asks get_profiles = true
asks (set_home_position p) = true
asks (goto_home_position p) = true
asks (get_presets p) = true
asks r = false

abbrev pub HasTokens : {F : Type 0} → Reader F → List Preset → Type 0
HasTokens x [] = Unit
HasTokens x (p ∷ ps) = (x.trim p.token ≢ "") × HasTokens x ps

-- What SetPreset makes of the view: a preset of an empty token is new, under a token that the camera
-- chooses, and another is moved to the position.
pub data Saved {P F : Type 0} (x : Reader F) (v : View P) : String → View P → Type 0 where
  added :
      {w : View P} (t : String)
      → t ≢ ""
      → x.trim t ≡ t
      → w.presets ≡ v.presets ++ record { token = t; name = "CloudNVR Home" } ∷ []
      → w.target t ≡ v.position
      → Saved x v "" w
  replaced :
      {t : String} {w : View P}
      → t ≢ ""
      → w.presets ≡ v.presets
      → w.target t ≡ v.position
      → Saved x v t w

-- The camera serves presets and has no home operations.
pub record Serves {S F P : Type 0} (x : Reader F) (c : Camera S) (view : S → View P) : Type 0 where
  pub reads_name : x.equal_fold (x.trim "CloudNVR Home") "CloudNVR Home" ≡ true
  pub keeps :
      (url : String) (r : Request) (s : S) → asks r ≡ true → view (c.post url r s).0 ≡ view s
  pub no_set : (url p : String) (s : S) → received (c.post url (set_home_position p) s).1 ≡ none
  pub no_goto : (url p : String) (s : S) → received (c.post url (goto_home_position p) s).1 ≡ none
  pub lists :
      (url p : String) (s : S) (b : String)
      → received (c.post url (get_presets p) s).1 ≡ some b
      → x.presets b ≡ some (view s).presets
  pub saves :
      (url p t : String) (s : S) (b : String)
      → received (c.post url (set_preset p t) s).1 ≡ some b
      → Saved x (view s) t (view (c.post url (set_preset p t) s).0)
  pub goes :
      (url p t : String) (s : S) (b : String)
      → received (c.post url (goto_preset p t) s).1 ≡ some b
      → (view (c.post url (goto_preset p t) s).0).position ≡ (view s).target t

-- The token of the first preset by the name, if one has it.
named_preset_token-append :
    {F : Type 0} (x : Reader F) (ps : List Preset) (q : Preset)
    → x.equal_fold (x.trim q.name) "CloudNVR Home" ≡ true
    → HasTokens x ps
    → named_preset_token x ps ≡ ""
    → named_preset_token x (ps ++ q ∷ []) ≡ x.trim q.token
unfolding named_preset_token
named_preset_token-append x [] q h k e = rw h refl
named_preset_token-append x (p ∷ ps) q h k e =
    elim (Bool-cases (x.equal_fold (x.trim p.name) "CloudNVR Home")) [
      | inl d ↦ absurd (k.0 ground (arith, e, d))
      | inr d ↦ rw d (named_preset_token-append x ps q h k.1 (ground (arith, e, d)))
    ]

module _ {P F : Type 0} (x : Reader F) where
  -- A preset by the name stands among those of a view, with a position.
  abbrev pub Remembers : P → View P → Type 0
  Remembers p v =
      (named_preset_token x v.presets ≢ "") × (v.target (named_preset_token x v.presets) ≡ p)

  pub Saved-Remembers :
      (v w : View P) (t : String)
      → x.equal_fold (x.trim "CloudNVR Home") "CloudNVR Home" ≡ true
      → HasTokens x v.presets
      → named_preset_token x v.presets ≡ t
      → Saved x v t w
      → Remembers v.position w
  Saved-Remembers v w _ n h e (added t k tr ps tg) =
      let found : named_preset_token x w.presets ≡ t =
        ap (named_preset_token x) ps
        ∙ named_preset_token-append x v.presets (record { token = t; name = "CloudNVR Home" }) n h e
        ∙ tr in
      rw found (k, tg)
  Saved-Remembers v w t n h e (replaced k ps tg) =
      let found : named_preset_token x w.presets ≡ t = ap (named_preset_token x) ps ∙ e in
      rw found (k, tg)
