-- ===== src/Server/Live/Routes.antt =====
-- The way of a session from the local media server to a viewer and back: the Location header of
-- internal/cloud/media_handlers.go, and the route of server.go that the viewer's next request takes.
use Prim.Native.Char.{char, code}
use text.Mathlib.TextLemmas.{append_assoc, append-nil, cons-append}
use cloud_nvr.Base.{
  ℕ, ◌≡◌, ◌≢◌, refl, sym, ap, ◌∙◌, inl, inr, String, ◌<>◌, Bool, true, false, ◌&&◌, ◌||◌, Option,
  some, none, List, [], ◌∷◌, arith, eq_iff, leb, ◌==◌, string_eq, nat_eq, Bool-cases, All,
}
use cloud_nvr.Base.Prefix.{has_prefix, trim_prefix, without_prefix, without_prefix-append}
use cloud_nvr.Server.Live.{local_path, Urls, rewrite_agent_webrtc_location}
use cloud_nvr.Server.Live.Tunnel.{whep_path}

-- A letter or a digit of ASCII, a dash or an underscore.
unfoldable pub is_plain : ℕ → Bool
is_plain c =
    leb 48 c && leb c 57 || leb 65 c && leb c 90 || leb 97 c && leb c 122 || c == 45 || c == 95

unfoldable pub all_plain : String → Bool
all_plain String.[] = true
all_plain (String.◌∷◌ c s) = let rest = all_plain s in is_plain (code c) && rest

-- A segment of a path that no URL escapes, and that names no other directory.
abbrev pub IsSegment : String → Type 0
IsSegment s = (s ≢ "") × (all_plain s ≡ true)

abbrev pub path_of : List String → String
path_of [] = ""
path_of (w ∷ ws) = "/" <> (w <> path_of ws)

-- What the model relies on. url.Parse leaves a path of such segments as it is, and http.ServeMux finds
-- for it the camera and the resource of "/media/agent-webrtc/{cameraID}/{resource...}", where the
-- resource is all that follows.
pub record IsRouted (u : Urls) (route : String → Option (String × String)) : Type 0 where
  pub parse-path :
      (w : String) (ws : List String)
      → All IsSegment (w ∷ ws)
      → u.parse_location (path_of (w ∷ ws)) ≡ some (path_of (w ∷ ws), "")
  pub route-path :
      (camera w : String) (ws : List String)
      → IsSegment camera
      → All IsSegment (w ∷ ws)
      → route (path_of ("media" ∷ "agent-webrtc" ∷ camera ∷ w ∷ ws))
        ≡ some (camera, w <> path_of ws)

slash_first : (t : String) → without_prefix ("whep/" <> t) "/" ≡ none
unfolding without_prefix
slash_first t = rw (cons-append (char b'w' tt) "hep/" t) refl

slash_root : (camera t : String) → has_prefix ((("/camera-" <> camera) <> "/") <> t) "/" ≡ true
unfolding without_prefix
slash_root camera t =
    rw
      (
        append_assoc "/camera-" camera "/",
        append_assoc "/camera-" (camera <> "/") t,
        cons-append (char b'/' tt) "camera-" ((camera <> "/") <> t),
      )
      refl

not_below :
    (camera t : String)
    → (("whep/" <> t) == ((("/camera-" <> camera) <> "/") <> ("whep/" <> t))) ≡ false
not_below camera t =
    let path = (("/camera-" <> camera) <> "/") <> ("whep/" <> t) in
    elim (Bool-cases (("whep/" <> t) == path)) [
      | inl e ↦
          let rooted : has_prefix ("whep/" <> t) "/" ≡ true =
            rw ((eq_iff ("whep/" <> t) path).0 e) (slash_root camera ("whep/" <> t)) in
          let same = slash_first t in absurd (ground (arith, rooted, same))
      | inr e ↦ e
    ]

-- The text of the URL that the viewer gets.
location_rewritten :
    (u : Urls) (location camera session : String)
    → u.parse_location location ≡ some (("/camera-" <> camera) <> ("/" <> ("whep/" <> session)), "")
    → rewrite_agent_webrtc_location u location camera
      ≡ (("/media/agent-webrtc/" <> camera) <> "/") <> ("whep/" <> session)
unfolding rewrite_agent_webrtc_location
location_rewritten u location camera session e =
    let resource = "whep/" <> session in
    let prefix = ("/camera-" <> camera) <> "/" in
    let path_eq = append_assoc ("/camera-" <> camera) "/" resource in
    let trimmed = without_prefix-append prefix resource in
    let tunnel = ("/media/agent-webrtc/" <> camera) <> "/" in
    rw e (rw (← path_eq, trimmed, not_below camera session) (append-nil (tunnel <> resource)))

pub five_parts :
    (a b c d e x : String) → a <> (b <> (c <> (d <> (e <> x)))) ≡ (a <> (b <> (c <> (d <> e)))) <> x
five_parts a b c d e x =
    rw
      (
        append_assoc a (b <> (c <> (d <> e))) x,
        append_assoc b (c <> (d <> e)) x,
        append_assoc c (d <> e) x,
        append_assoc d e x,
      )
      refl

grouped : (p camera q r : String) → ((p <> camera) <> q) <> r ≡ p <> (camera <> (q <> r))
grouped p camera q r = rw (append_assoc (p <> camera) q r, append_assoc p camera (q <> r)) refl

ended : (a b s : String) → a <> (b <> (s <> "")) ≡ (a <> b) <> s
ended a b s = rw (append-nil s) (sym (append_assoc a b s))

-- It is the path of its segments.
tunnel_path :
    (camera session : String)
    → (("/media/agent-webrtc/" <> camera) <> "/") <> ("whep/" <> session)
      ≡ path_of ("media" ∷ "agent-webrtc" ∷ camera ∷ "whep" ∷ session ∷ [])
tunnel_path camera session =
    let resource_eq : "whep" <> ("/" <> (session <> "")) ≡ "whep/" <> session =
      ended "whep" "/" session in
    grouped "/media/agent-webrtc/" camera "/" ("whep/" <> session)
    ∙ ap (λ r. "/media/agent-webrtc/" <> (camera <> ("/" <> r))) (sym resource_eq)
    ∙ sym (
        five_parts "/" "media" "/" "agent-webrtc" "/"
          (camera <> ("/" <> ("whep" <> ("/" <> (session <> ""))))))

whep-IsSegment : IsSegment "whep"
unfolding is_plain all_plain
whep-IsSegment = (ground (arith, eq_iff "whep" ""), refl)

media-IsSegment : IsSegment "media"
unfolding is_plain all_plain
media-IsSegment = (ground (arith, eq_iff "media" ""), refl)

tunnel-IsSegment : IsSegment "agent-webrtc"
unfolding is_plain all_plain
tunnel-IsSegment = (ground (arith, eq_iff "agent-webrtc" ""), refl)

-- The session that the local media server names in its answer, by a path without a query: the viewer
-- gets the URL of the tunnel for it. That URL is parsed as it is, a request for it takes the route of
-- the tunnel for the same camera, and the path at the agent for the resource of this route is the one
-- that the media server named. The camera and the session are segments of letters, digits, dashes and
-- underscores, for which it relies on url.Parse and on the patterns of http.ServeMux.
pub location_lem :
    (u : Urls) (route : String → Option (String × String)) (location camera session : String)
    → IsRouted u route
    → IsSegment camera
    → IsSegment session
    → let path = ("/camera-" <> camera) <> ("/" <> ("whep/" <> session)) in
      u.parse_location location ≡ some (path, "")
      → (asked : String) × (resource : String) × (u.parse_location
            (rewrite_agent_webrtc_location u location camera)
          ≡ some (asked, ""))
        × (route asked ≡ some (camera, resource))
        × (local_path camera (trim_prefix resource "/") ≡ some path)
location_lem u route location camera session ok c s e =
    let asked = path_of ("media" ∷ "agent-webrtc" ∷ camera ∷ "whep" ∷ session ∷ []) in
    let resource = "whep/" <> session in
    let url = location_rewritten u location camera session e ∙ tunnel_path camera session in
    let resource_eq : "whep" <> ("/" <> (session <> "")) ≡ resource = ended "whep" "/" session in
    (
      asked,
      resource,
      rw url (
          ok.parse-path "media" ("agent-webrtc" ∷ camera ∷ "whep" ∷ session ∷ [])
            (media-IsSegment, (tunnel-IsSegment, (c, (whep-IsSegment, (s, tt)))))),
      ok.route-path camera "whep" (session ∷ []) c (whep-IsSegment, (s, tt))
          ∙ ap (λ r. some (camera, r)) resource_eq,
      rw (slash_first session)
          (whep_path camera resource (rw (without_prefix-append "whep/" session) refl)),
    )
