-- ===== src/Ptz/Examples.antt =====
-- A broker with one command: internal/cloud/ptz_broker.go.
use cloud_nvr.Base.{ℕ, ◌≡◌, refl, sym, ◌∙◌, subst, true, some, List, [], ◌∷◌, nat_eq, string_eq}
use cloud_nvr.Base.Dict.{lookup, insert}
use cloud_nvr.Ptz.{
  PtzCommand, PtzResult, PtzBroker, empty, new_ptz_broker, enqueue, make_room, set_at,
}
use cloud_nvr.Ptz.Delivery.{IsSound, new_ptz_broker-IsSound, enqueue-IsSound}
use cloud_nvr.Ptz.Runs.{Call, enqueues, polls, resolves, perform_all, runs-IsSound}

abbrev left : PtzCommand ℕ
left = record {
  id = "c1";
  camera_id = "cam";
  action = "move";
  endpoint = "";
  username = "";
  password = "";
  pan = 1;
  tilt = 0;
  zoom = 0;
}

abbrev done : PtzResult
done = record { id = "c1"; success = true; message = "" }

abbrev script : List (Call ℕ)
script = enqueues "north" left ∷ polls "north" ∷ resolves "north" done ∷ resolves "north" done ∷ []

runs-IsSound_example :
    (b : PtzBroker ℕ) × (perform_all script (some new_ptz_broker) ≡ some b) × IsSound b
runs-IsSound_example = runs-IsSound script

abbrev waiting : PtzBroker ℕ
waiting = record {
  queues = ("north", left ∷ []) ∷ [];
  notices = ("north", true) ∷ [];
  pending = ("c1", record { site_id = "north"; channel = 0 }) ∷ [];
  channels = set_at (λ _. empty) 0 empty;
  made = 1;
}

waiting_run : enqueue "north" left new_ptz_broker ≡ some (0, waiting)
unfolding enqueue new_ptz_broker make_room lookup insert
waiting_run = refl

waiting-IsSound : IsSound waiting
waiting-IsSound =
    let (b, e, v) = enqueue-IsSound "north" left new_ptz_broker new_ptz_broker-IsSound in
    let same : b ≡ waiting = (let h = sym e ∙ waiting_run in cc) in subst (λ x. IsSound x) same v
