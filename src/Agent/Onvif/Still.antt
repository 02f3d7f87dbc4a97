-- ===== src/Agent/Onvif/Still.antt =====
-- Which calls of internal/onvif/ptz.go leave a camera at rest.
use cloud_nvr.Base.{
  String, Bool, true, false, not, ◌&&◌, ◌||◌, none, some, if◌then◌else◌, ◌==◌, string_eq,
  Bool-cases, ◌≡◌, refl, ◌⊎◌, inl, inr,
}
use cloud_nvr.Server.Commands.{Velocity}
use cloud_nvr.Agent.Onvif.Calls.{Called, broke, gave, call-Called, Keeps, discover-Keeps}
use cloud_nvr.Agent.Onvif.{
  Request, get_capabilities, get_profiles, continuous_move, stop, received, Camera, Reader,
  move_failed, cancelled, stop_failed, Result, done, failed, pure, ◌>>◌, continued, call, Service,
  discover, run_move, wait_to_stop, uses_pan_tilt, move,
}

-- The motors of a camera.
pub data Axis : Type 0 where
  pan_tilt_axis zoom_axis : Axis

-- Does a request set the motor going, or stop it?
unfoldable pub starts : Axis → Request → Bool
starts pan_tilt_axis (continuous_move p none z) = false
starts pan_tilt_axis (continuous_move p (some v) z) = true
starts zoom_axis (continuous_move p v none) = false
starts zoom_axis (continuous_move p v (some z)) = true
starts a r = false

unfoldable pub stops : Axis → Request → Bool
stops pan_tilt_axis (stop p pan_tilt zoom) = pan_tilt
stops zoom_axis (stop p pan_tilt zoom) = zoom
stops a r = false

-- How a camera is to treat requests for the sake of one motor, where `moving` tells whether it goes:
-- nothing but a movement of its axis sets it going, and a stop that is answered leaves it at rest.
pub record Obeys {S : Type 0} (c : Camera S) (a : Axis) (moving : S → Bool) : Type 0 where
  pub rests :
      (url : String) (r : Request) (s : S)
      → starts a r ≡ false
      → moving s ≡ false
      → moving (c.post url r s).0 ≡ false
  pub halts :
      (url : String) (r : Request) (s : S) (b : String)
      → stops a r ≡ true
      → received (c.post url r s).1 ≡ some b
      → moving (c.post url r s).0 ≡ false

-- The errors after which a camera may still be moving.
pub data Unstopped : Result Unit → Type 0 where
  unanswered : Unstopped (failed move_failed)
  interrupted : Unstopped (failed cancelled)
  not_stopped : Unstopped (failed stop_failed)

starts-capabilities : (a : Axis) → starts a get_capabilities ≡ false
unfolding starts
starts-capabilities pan_tilt_axis = refl
starts-capabilities zoom_axis = refl

starts-profiles : (a : Axis) → starts a get_profiles ≡ false
unfolding starts
starts-profiles pan_tilt_axis = refl
starts-profiles zoom_axis = refl

starts-stop : (a : Axis) (p : String) (u z : Bool) → starts a (stop p u z) ≡ false
unfolding starts
starts-stop pan_tilt_axis p u z = refl
starts-stop zoom_axis p u z = refl

-- A motor that the movement sets going is one that the request after it stops.
stops-moved :
    (a : Axis) (p : String) (u w : Bool) (v : String × String) (d : String)
    → (stops a (stop p u w) ≡ true)
      ⊎ (starts a (continuous_move p (if u then some v else none) (if w then some d else none))
          ≡ false)
unfolding starts stops
stops-moved pan_tilt_axis p true w v d = inl refl
stops-moved pan_tilt_axis p false w v d = inr refl
stops-moved zoom_axis p u true v d = inl refl
stops-moved zoom_axis p u false v d = inr refl

module _ {S F : Type 0} (x : Reader F) (c : Camera S) (a : Axis) (moving : S → Bool)
    (o : Obeys c a moving) where
  -- How an action may end: at rest, or with one of the errors.
  Ends : Result Unit × S → Type 0
  Ends q = (moving q.1 ≡ false) ⊎ Unstopped q.0

  stopped :
      (url p : String) (u z : Bool) (s : S)
      → (stops a (stop p u z) ≡ true) ⊎ (moving s ≡ false)
      → (q : _) → Called c url (stop p u z) stop_failed s q
      → Ends (continued (λ _. pure tt) q.0 q.1)
  unfolding Ends
  stopped url p u z s h _ broke = inr not_stopped
  stopped url p u z s (inl h) _ (gave g) = inl (o.halts url (stop p u z) s _ h g)
  stopped url p u z s (inr h) _ (gave g) = inl (o.rests url (stop p u z) s (starts-stop a p u z) h)

  waited :
      (url p : String) (u w : Bool) (s : S)
      → (stops a (stop p u w) ≡ true) ⊎ (moving s ≡ false)
      → Ends ((wait_to_stop c >> (call c url (stop p u w) stop_failed >> pure tt)) s)
  unfolding Ends
  waited url p u w s h = elim (Bool-cases (c.is_cancelled s)) [
    | inl d ↦ rw d (inr interrupted)
    | inr d ↦ rw d (stopped url p u w s h _ (call-Called c url (stop p u w) stop_failed s))
  ]

  moved :
      (url p : String) (u w : Bool) (v : String × String) (d : String) (s : S)
      → moving s ≡ false
      → (q : _)
      → Called c url
          (continuous_move p (if u then some v else none) (if w then some d else none))
          move_failed
          s
          q
      → Ends (
          continued
            (λ _. wait_to_stop c >> (call c url (stop p u w) stop_failed >> pure tt))
            q.0
            q.1)
  unfolding Ends
  moved url p u w v d s h _ broke = inr unanswered
  moved url p u w v d s h _ (gave g) =
      waited url p u w _
        (elim (stops-moved a p u w v d) [ inl k ↦ inl k | inr k ↦ inr (o.rests url _ s k h) ])

  began :
      (v : Velocity F) (pan tilt zoom : F) (r : Result Service) (s : S)
      → moving s ≡ false
      → Ends (continued (run_move x c v pan tilt zoom) r s)
  unfolding Ends
  began v pan tilt zoom (failed e) s h = inl h
  began v pan tilt zoom (done service) s h =
      moved service.url service.profile (uses_pan_tilt v pan tilt) (not (v.is_zero zoom)) _ _ s h _
        (call-Called c service.url _ move_failed s)

  -- A motor that is at rest before Move is at rest after it, whatever the camera and the network
  -- answer, unless Move ends with the error of the movement or of the stop, or its context ended in
  -- the wait between them. The camera is one that sets the motor going for a movement of its axis
  -- only, and whose motor is at rest after a stop of its axis that was answered.
  pub move-Unstopped :
      (v : Velocity F) (pan tilt zoom : F) (s : S)
      → moving s ≡ false
      → (moving (move x c v pan tilt zoom s).1 ≡ false) ⊎ Unstopped (move x c v pan tilt zoom s).0
  unfolding move Ends Keeps
  move-Unstopped v pan tilt zoom s h = elim (Bool-cases (x.trim c.endpoint == "")) [
    | inl d ↦ rw d (inl h)
    | inr d ↦ elim (Bool-cases (v.is_out pan || v.is_out tilt || v.is_out zoom)) [
      | inl e ↦ rw (d, e) (inl h)
      | inr e ↦ elim (Bool-cases (v.is_zero pan && v.is_zero tilt && v.is_zero zoom)) [
        | inl k ↦ rw (d, e, k) (inl h)
        | inr k ↦
            rw (d, e, k)
              (began v pan tilt zoom (discover x c s).0 (discover x c s).1 (
                discover-Keeps x c (λ s. moving s ≡ false)
                  (λ url s. o.rests url get_capabilities s (starts-capabilities a))
                  (λ url s. o.rests url get_profiles s (starts-profiles a)) s h))
      ]
    ]
  ]
