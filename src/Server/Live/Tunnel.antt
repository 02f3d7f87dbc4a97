-- ===== src/Server/Live/Tunnel.antt =====
-- The tunnel from a viewer to the local media server of a site: agentWebRTC of
-- internal/cloud/media_handlers.go with proxyLocalWebRTC of cmd/agent/main.go.
use cloud_nvr.Base.{
  ◌≡◌, refl, sym, ◌∙◌, ap, ◌≢◌, ◌↔◌, inl, inr, String, ◌<>◌, true, false, ◌||◌, some, arith, eq_iff,
  ◌==◌, string_eq, Bool-cases, Option-cases,
}
use cloud_nvr.Base.Prefix.{has_prefix, without_prefix, without_prefix-append, without_prefix-eq}
use cloud_nvr.Agent.Proxy.{accepts_path}
use cloud_nvr.Server.Live.{local_path}
use text.Mathlib.TextLemmas.{append_assoc}

abbrev pub root : String → String
root camera = "/camera-" <> camera

not_whep :
    (resource word : String)
    → has_prefix word "whep/" ≡ false
    → has_prefix resource "whep/" ≡ true
    → (resource == word) ≡ false
not_whep resource word n h = elim (Bool-cases (resource == word)) [
  | inl e ↦ let same : has_prefix word "whep/" ≡ true = rw (← (eq_iff resource word).0 e) h in cc
  | inr e ↦ e
]

pub whep_path :
    (camera resource : String)
    → has_prefix resource "whep/" ≡ true
    → local_path camera resource ≡ some (root camera <> ("/" <> resource))
unfolding local_path
whep_path camera resource h =
    let view = not_whep resource "view" (unfold without_prefix in refl) h in
    let nothing = not_whep resource "" (unfold without_prefix in refl) h in
    let reader = not_whep resource "reader.js" (unfold without_prefix in refl) h in
    ground (arith, view, nothing, reader, h)

-- The parts of a path below `whep/`, grouped in two ways.
whep_assoc :
    (camera t : String) → root camera <> ("/" <> ("whep/" <> t)) ≡ (root camera <> "/whep/") <> t
whep_assoc camera t =
    ap (λ x. root camera <> x) (sym (append_assoc "/" "whep/" t))
    ∙ sym (append_assoc (root camera) "/whep/" t)

-- What the local media server serves for a camera: its player, the script of the player, and the
-- endpoint of WHEP with the sessions below it.
pub data Served (camera path : String) : Type 0 where
  page : path ≡ root camera → Served camera path
  script : path ≡ "/reader.js" → Served camera path
  endpoint : path ≡ root camera <> "/whep" → Served camera path
  session : (t : String) → path ≡ (root camera <> "/whep/") <> t → Served camera path

accepted-Served : (camera path : String) → accepts_path camera path ≡ true → Served camera path
unfolding accepts_path
accepted-Served camera path h = elim (Bool-cases (path == "/reader.js")) [
  | inl e ↦ script ((eq_iff path "/reader.js").0 e)
  | inr n1 ↦ elim (Bool-cases (path == root camera)) [
    | inl e ↦ page ((eq_iff path (root camera)).0 e)
    | inr n2 ↦ elim (Bool-cases (path == (root camera <> "/whep"))) [
      | inl e ↦ endpoint ((eq_iff path (root camera <> "/whep")).0 e)
      | inr n3 ↦ elim (Option-cases (without_prefix path (root camera <> "/whep/"))) [
        | inl e ↦ absurd (ground (arith, h, n1, n2, n3, e))
        | inr (t, e) ↦ session t (without_prefix-eq path (root camera <> "/whep/") e)
      ]
    ]
  ]
]

Served-accepted :
    (camera path : String) → camera ≢ "" → Served camera path → accepts_path camera path ≡ true
unfolding accepts_path
Served-accepted camera path n (page e) =
    ground (arith, n, eq_iff camera "", eq_iff path (root camera), e)
Served-accepted camera path n (script e) =
    ground (arith, n, eq_iff camera "", eq_iff path "/reader.js", e)
Served-accepted camera path n (endpoint e) =
    ground (arith, n, eq_iff camera "", eq_iff path (root camera <> "/whep"), e)
Served-accepted camera path n (session t e) =
    let below : without_prefix path (root camera <> "/whep/") ≡ some t =
      rw e (without_prefix-append (root camera <> "/whep/") t) in
    ground (arith, n, eq_iff camera "", below)

made-Served :
    (camera resource path : String) → local_path camera resource ≡ some path → Served camera path
unfolding local_path
made-Served camera resource path h = elim (Option-cases (without_prefix resource "whep/")) [
  | inl e ↦ elim (Bool-cases (resource == "view" || resource == "")) [
    | inl v ↦ page (ground (arith, h, v))
    | inr v ↦ elim (Bool-cases (resource == "reader.js")) [
      | inl r ↦ script (ground (arith, h, v, r))
      | inr r ↦ elim (Bool-cases (resource == "whep")) [
        | inl w ↦
            let word = (eq_iff resource "whep").0 w in
            let path_eq : path ≡ root camera <> ("/" <> resource) = ground (arith, h, v, r, w) in
            endpoint (path_eq ∙ ap (λ x. root camera <> ("/" <> x)) word)
        | inr w ↦ absurd (ground (arith, h, v, r, w, e))
      ]
    ]
  ]
  | inr (t, e) ↦
      let below = without_prefix-eq resource "whep/" e in
      let made = whep_path camera resource (rw e refl) in
      let path_eq : path ≡ root camera <> ("/" <> resource) = ground (arith, h, made) in
      session t (path_eq ∙ ap (λ x. root camera <> ("/" <> x)) below ∙ whep_assoc camera t)
]

Served-made :
    (camera path : String)
    → Served camera path
    → (resource : String) × (local_path camera resource ≡ some path)
unfolding local_path
Served-made camera path (page e) = ("view", rw e refl)
Served-made camera path (script e) = ("reader.js", rw e refl)
Served-made camera path (endpoint e) = ("whep", rw e refl)
Served-made camera path (session t e) = (
  "whep/" <> t,
  whep_path camera ("whep/" <> t) (rw (without_prefix-append "whep/" t) refl)
      ∙ ap some (whep_assoc camera t ∙ sym e),
)

-- For a camera with an id, the agent accepts a path exactly when the server makes that path of some
-- resource that a viewer can ask for.
pub accepts_path_lem :
    (camera path : String)
    → camera ≢ ""
    → (accepts_path camera path ≡ true)
      ↔ ((resource : String) × (local_path camera resource ≡ some path))
accepts_path_lem camera path named = (
  λ h. Served-made camera path (accepted-Served camera path h),
  λ (resource, e). Served-accepted camera path named (made-Served camera resource path e),
)
