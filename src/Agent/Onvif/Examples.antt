-- ===== src/Agent/Onvif/Examples.antt =====
-- A camera with one preset, and a camera whose motors can be watched.
use cloud_nvr.Base.{
  ℕ, String, Bool, true, false, Option, none, some, List, [], ◌∷◌, ltb, if◌then◌else◌, ◌==◌,
  string_eq, nat_eq, eq_iff, arith, Bool-cases, subst, ◌≡◌, refl, ◌⊎◌, inl, inr,
}
use cloud_nvr.Base.Prefix.{without_prefix}
use cloud_nvr.Server.Commands.{Velocity}
use cloud_nvr.Agent.Onvif.{
  Request, get_capabilities, get_profiles, continuous_move, stop, set_home_position,
  goto_home_position, get_presets, set_preset, goto_preset, Exchange, answered, received, contains,
  Preset, Camera, Reader, call, discover, named_preset_token, set_named_home_preset, set_home,
  goto_home, move,
}
use cloud_nvr.Agent.Onvif.Still.{pan_tilt_axis, starts, stops, Obeys, Unstopped, move-Unstopped}
use cloud_nvr.Agent.Onvif.Home.{View, asks, Saved, added, replaced, Serves}
use cloud_nvr.Agent.Onvif.Home.Fallback.{Returns, goto_home-set_home}

-- Speeds of 0 and 1, and envelopes that name one profile and one preset.
abbrev speeds : Velocity ℕ
speeds = record { is_out = λ n. ltb 1 n; is_zero = λ n. n == 0 }

abbrev home_preset : Preset
home_preset = record { token = "1"; name = "CloudNVR Home" }

abbrev reader : Reader ℕ
reader = record {
  capabilities = λ _. some ("http://door/media", "http://door/ptz");
  profiles = λ _. some ("main" ∷ []);
  presets = λ b. some (if b == "one" then home_preset ∷ [] else []);
  trim = λ s. s;
  equal_fold = λ s t. s == t;
  decimals = λ n. if n == 0 then "0.000" else "1.000";
}

abbrev watched : Request → Bool → Bool
watched (continuous_move p (some v) z) s = true
watched (stop p true z) s = false
watched r s = s

abbrev watched_camera : Camera Bool
watched_camera = record {
  endpoint = "http://door";
  username = "admin";
  has_nonce = λ _. true;
  post = λ _ r s. (watched r s, answered 200 "ok");
  is_cancelled = λ _. false;
}

watched-rests :
    (r : Request) (s : Bool) → starts pan_tilt_axis r ≡ false → s ≡ false → watched r s ≡ false
unfolding starts
watched-rests get_capabilities s n h = h
watched-rests get_profiles s n h = h
watched-rests (continuous_move p none z) s n h = h
watched-rests (continuous_move p (some v) z) s n h = n
watched-rests (stop p true z) s n h = refl
watched-rests (stop p false z) s n h = h
watched-rests (set_home_position p) s n h = h
watched-rests (goto_home_position p) s n h = h
watched-rests (get_presets p) s n h = h
watched-rests (set_preset p t) s n h = h
watched-rests (goto_preset p t) s n h = h

watched-halts : (r : Request) (s : Bool) → stops pan_tilt_axis r ≡ true → watched r s ≡ false
unfolding stops
watched-halts (stop p true z) s h = refl
watched-halts r s h = absurd (ground (arith, h))

watched-Obeys : Obeys watched_camera pan_tilt_axis (λ s. s)
watched-Obeys = record {
  rests = λ url r s. watched-rests r s;
  halts = λ url r s b h _. watched-halts r s h;
}

move-Unstopped_example :
    ((move reader watched_camera speeds 1 0 0 false).1 ≡ false)
    ⊎ Unstopped (move reader watched_camera speeds 1 0 0 false).0
move-Unstopped_example =
    move-Unstopped reader watched_camera pan_tilt_axis (λ s. s) watched-Obeys speeds 1 0 0 false
      refl

-- Where the camera looks, and the position of its preset.
record Memory : Type 0 where
  looks : ℕ
  kept : Option ℕ

abbrev with_kept : Memory → ℕ → Memory
with_kept m n = record { looks = m.looks; kept = some n }

abbrev presets_of : Option ℕ → List Preset
presets_of none = []
presets_of (some n) = home_preset ∷ []

abbrev recalled : Option ℕ → ℕ
recalled none = 0
recalled (some n) = n

abbrev view_of : Memory → View ℕ
view_of m = record {
  position = m.looks;
  presets = presets_of m.kept;
  target = λ _. recalled m.kept;
}

abbrev listing : Option ℕ → String
listing none = "none"
listing (some n) = "one"

abbrev accepts : Option ℕ → String → Bool
accepts none t = t == ""
accepts (some n) t = t == "1"

abbrev served : Request → Memory → Memory × Exchange
served get_capabilities m = (m, answered 200 "ok")
served get_profiles m = (m, answered 200 "ok")
served (get_presets p) m = (m, answered 200 (listing m.kept))
served (set_preset p t) m =
    if accepts m.kept t then (with_kept m m.looks, answered 200 "ok") else (m, answered 400 "")
served (goto_preset p t) m = (record { looks = recalled m.kept; kept = m.kept }, answered 200 "ok")
served r m = (m, answered 400 "")

abbrev one_preset : Camera Memory
one_preset = record {
  endpoint = "http://door";
  username = "";
  has_nonce = λ _. true;
  post = λ _ r m. served r m;
  is_cancelled = λ _. false;
}

served-keeps : (r : Request) (m : Memory) → asks r ≡ true → view_of (served r m).0 ≡ view_of m
unfolding asks
served-keeps get_capabilities m h = refl
served-keeps get_profiles m h = refl
served-keeps (set_home_position p) m h = refl
served-keeps (goto_home_position p) m h = refl
served-keeps (get_presets p) m h = refl
served-keeps r m h = absurd (ground (arith, h))

-- The value of an option that has one.
abbrev body_of : Option String → String
body_of none = ""
body_of (some b) = b

-- The memory with a position and a preset.
abbrev memory : ℕ → Option ℕ → Memory
memory l k = record { looks = l; kept = k }

served-lists :
    (p b : String) (l : ℕ) (k : Option ℕ)
    → received (served (get_presets p) (memory l k)).1 ≡ some b
    → reader.presets b ≡ some (presets_of k)
unfolding received contains without_prefix
served-lists p b l none h = subst (λ o. reader.presets (body_of o) ≡ some []) h refl
served-lists p b l (some n) h =
    subst (λ o. reader.presets (body_of o) ≡ some (home_preset ∷ [])) h refl

served-saves :
    (p t b : String) (l : ℕ) (k : Option ℕ)
    → received (served (set_preset p t) (memory l k)).1 ≡ some b
    → Saved reader (view_of (memory l k)) t (view_of (served (set_preset p t) (memory l k)).0)
unfolding received
served-saves p t b l none h = elim (Bool-cases (t == "")) [
  | inl e ↦
      let blank : t ≡ "" = ground (arith, e, eq_iff t "") in
      rw blank (added "1" (ground (arith, eq_iff "1" "")) refl refl refl)
  | inr e ↦ absurd (ground (arith, h, e))
]
served-saves p t b l (some n) h = elim (Bool-cases (t == "1")) [
  | inl e ↦
      let one : t ≡ "1" = ground (arith, e, eq_iff t "1") in
      rw one (replaced (ground (arith, eq_iff "1" "")) refl refl)
  | inr e ↦ absurd (ground (arith, h, e))
]

one_preset-Serves : Serves reader one_preset view_of
unfolding received
one_preset-Serves = record {
  reads_name = refl;
  keeps = λ url r m. served-keeps r m;
  no_set = λ url p m. refl;
  no_goto = λ url p m. refl;
  lists = λ url p m b. served-lists p b m.looks m.kept;
  saves = λ url p t m b. served-saves p t b m.looks m.kept;
  goes = λ url p t m b h. refl;
}

-- The camera looks at 3 when its home is stored, and at 8 when it is sent back.
goto_home-set_home_example : Returns view_of 3 (goto_home reader one_preset (memory 8 (some 3)))
unfolding set_home set_named_home_preset discover call received contains named_preset_token
    without_prefix
goto_home-set_home_example =
    goto_home-set_home reader one_preset view_of one_preset-Serves (memory 3 none)
      (memory 8 (some 3)) tt refl refl refl
