-- ===== src/Server/Commands/Accepted.antt =====
-- What the decisions of controlPTZ of internal/cloud/ptz_handlers.go say.
use cloud_nvr.Base.{
  ◌≡◌, ◌≢◌, ◌⊎◌, refl, ap, subst, inl, inr, String, Bool, true, false, ◌&&◌, Option, none, some,
  List, [], ◌∷◌, arith, eq_iff, ◌==◌, string_eq, nat_eq, Bool-cases, All,
}
use cloud_nvr.Domain.{access_agent, access_beq}
use cloud_nvr.Store.Cameras.{Camera, find_camera, with_secret, or_old, camera_ptz}
use cloud_nvr.Ptz.{PtzCommand}
use cloud_nvr.Server.Cameras.{Env, valid_http_url}
use cloud_nvr.Server.Commands.{
  Velocity, Wish, Decision, conflict, missing, bad_action, bad_movement, internal_error, enqueues,
  executes, action_of, is_action, is_bad_move, password_of, command_of,
}

-- The result of a search is a row of the table.
pub find_camera-All :
    (P : Camera → Type 0) (id : String) (cs : List Camera) {c : Camera}
    → All P cs
    → find_camera id cs ≡ some c
    → P c
unfolding find_camera
find_camera-All P id [] h e = cc
find_camera-All P id (x ∷ cs) {c} h e = elim (Bool-cases (x.id == id)) [
  | inl t ↦ let same : x ≡ c = ground (arith, e, t) in subst (P) same h.0
  | inr t ↦ find_camera-All P id cs {c = c} h.1 (ground (arith, e, t))
]

pub camera_ptz-none :
    (id : String) (cs : List Camera) → find_camera id cs ≡ none → camera_ptz id cs ≡ none
unfolding camera_ptz
camera_ptz-none id cs e = ap with_secret e

pub camera_ptz-some :
    (id : String) (cs : List Camera) (c : Camera)
    → find_camera id cs ≡ some c
    → camera_ptz id cs ≡ some (c, or_old c.ptz_password "")
unfolding camera_ptz
camera_ptz-some id cs c e = ap with_secret e

-- Every field of the command that is sent on: the id that was drawn, the camera with its credentials,
-- and the viewer's wish, where no action stands for a movement.
pub record Carries {F : Type 0} (decrypt : String → Option String) (new_id : Option String)
    (w : Wish F) (c : Camera) (cmd : PtzCommand F) : Type 0 where
  pub id : new_id ≡ some cmd.id
  pub camera_id : cmd.camera_id ≡ c.id
  pub endpoint : cmd.endpoint ≡ c.ptz_endpoint
  pub username : cmd.username ≡ c.ptz_username
  pub password : password_of decrypt (or_old c.ptz_password "") ≡ some cmd.password
  pub action : (w.action ≡ "") × (cmd.action ≡ "move") ⊎ (w.action ≢ "") × (cmd.action ≡ w.action)
  pub pan : cmd.pan ≡ w.pan
  pub tilt : cmd.tilt ≡ w.tilt
  pub zoom : cmd.zoom ≡ w.zoom

-- An action that the agents know; a movement has every part in its bounds, and one that is not zero.
pub record IsLegal {F : Type 0} (v : Velocity F) (cmd : PtzCommand F) : Type 0 where
  pub known : (cmd.action ≡ "move") ⊎ (cmd.action ≡ "set_home") ⊎ (cmd.action ≡ "goto_home")
  pub in_bounds :
      cmd.action ≡ "move"
      → (v.is_out cmd.pan ≡ false) × (v.is_out cmd.tilt ≡ false) × (v.is_out cmd.zoom ≡ false)
  pub moves :
      cmd.action ≡ "move" → (v.is_zero cmd.pan && v.is_zero cmd.tilt && v.is_zero cmd.zoom) ≡ false

-- What stands behind a command that is sent on for a camera.
pub record Sent {F : Type 0} (v : Velocity F) (env : Env) (decrypt : String → Option String)
    (new_id : Option String) (id : String) (w : Wish F) (cs : List Camera) (cmd : PtzCommand F)
    (c : Camera) : Type 0 where
  pub found : find_camera id cs ≡ some c
  pub enabled : c.enabled ≡ true
  pub movable : c.ptz_enabled ≡ true
  pub reachable : valid_http_url env c.ptz_endpoint ≡ true
  pub legal : IsLegal v cmd
  pub carries : Carries decrypt new_id w c cmd

-- What a decision says: a command carries the wish to the camera, by the agent of its site exactly when
-- an agent has it; a conflict is a camera that is off or cannot be moved.
abbrev pub Says :
    {F : Type 0}
    → Velocity F
    → Env
    → (String → Option String)
    → Bool
    → Option String
    → String
    → Wish F
    → List Camera
    → Decision F
    → Type 0
Says v env decrypt fault new_id id w cs (enqueues site cmd) =
    (c : Camera) × Sent v env decrypt new_id id w cs cmd c
    × (site ≡ c.site_id)
    × (access_beq c.access_mode access_agent ≡ true)
Says v env decrypt fault new_id id w cs (executes cmd) =
    (c : Camera) × Sent v env decrypt new_id id w cs cmd c
    × (access_beq c.access_mode access_agent ≡ false)
Says v env decrypt fault new_id id w cs conflict =
    (c : Camera) × (find_camera id cs ≡ some c) × ((c.enabled && c.ptz_enabled) ≡ false)
Says v env decrypt fault new_id id w cs missing = find_camera id cs ≡ none
Says v env decrypt fault new_id id w cs bad_action =
    (w.action ≢ "") × (w.action ≢ "move") × (w.action ≢ "set_home") × (w.action ≢ "goto_home")
Says v env decrypt fault new_id id w cs bad_movement =
    ((w.action ≡ "") ⊎ (w.action ≡ "move")) × (is_bad_move v w ≡ true)
Says v env decrypt fault new_id id w cs internal_error =
    (fault ≡ true)
    ⊎ (new_id ≡ none)
    ⊎ ((c : Camera) × (find_camera id cs ≡ some c)
        × (password_of decrypt (or_old c.ptz_password "") ≡ none))

-- The action of a wish.
pub action_of-wish :
    {F : Type 0} (w : Wish F)
    → (w.action ≡ "") × (action_of w ≡ "move") ⊎ (w.action ≢ "") × (action_of w ≡ w.action)
action_of-wish w = elim (Bool-cases (w.action == "")) [
  | inl e ↦ inl ((eq_iff w.action "").0 e, rw e refl)
  | inr e ↦ inr ((ground (arith, e, eq_iff w.action "")), rw e refl)
]

known-action :
    (a : String) → is_action a ≡ true → (a ≡ "move") ⊎ (a ≡ "set_home") ⊎ (a ≡ "goto_home")
known-action a h = ground (arith, h, eq_iff a "move", eq_iff a "set_home", eq_iff a "goto_home")

pub unknown-action :
    {F : Type 0} (w : Wish F)
    → is_action (action_of w) ≡ false
    → (w.action ≢ "") × (w.action ≢ "move") × (w.action ≢ "set_home") × (w.action ≢ "goto_home")
unknown-action w h = elim (action_of-wish w) [
  | inl (_, e) ↦
      let bad : is_action "move" ≡ false = subst (λ a. is_action a ≡ false) e h in
      absurd (ground (arith, bad))
  | inr (named, e) ↦
      let bad : is_action w.action ≡ false = subst (λ a. is_action a ≡ false) e h in
      (
        named,
        ground (arith, bad, eq_iff w.action "move"),
        ground (arith, bad, eq_iff w.action "set_home"),
        ground (arith, bad, eq_iff w.action "goto_home"),
      )
]

pub command-IsLegal :
    {F : Type 0} (v : Velocity F) (n : String) (c : Camera) (password : String) (w : Wish F)
    → is_action (action_of w) ≡ true
    → (action_of w == "move" && is_bad_move v w) ≡ false
    → IsLegal v (command_of n c password w)
command-IsLegal v n c password w known moves = record {
  known = known-action (action_of w) known;
  in_bounds = λ e.
      let fits : is_bad_move v w ≡ false = ground (arith, moves, e, eq_iff (action_of w) "move") in
      (ground (arith, fits), ground (arith, fits), ground (arith, fits));
  moves = λ e.
      let fits : is_bad_move v w ≡ false = ground (arith, moves, e, eq_iff (action_of w) "move") in
      ground (arith, fits);
}

-- The camera and the checks behind a command that is sent on.
pub record Accepted {F : Type 0} (v : Velocity F) (env : Env) (id : String) (w : Wish F)
    (cs : List Camera) (c : Camera) : Type 0 where
  pub found : find_camera id cs ≡ some c
  pub ready : (c.enabled && c.ptz_enabled && valid_http_url env c.ptz_endpoint) ≡ true
  pub known : is_action (action_of w) ≡ true
  pub moves : (action_of w == "move" && is_bad_move v w) ≡ false

pub asked-move :
    {F : Type 0} (w : Wish F)
    → (action_of w == "move") ≡ true
    → (w.action ≡ "") ⊎ (w.action ≡ "move")
asked-move w h = ground (arith, h, eq_iff w.action "", eq_iff w.action "move")
