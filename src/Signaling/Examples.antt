-- ===== src/Signaling/Examples.antt =====
-- A broker with one request: internal/cloud/webrtc_broker.go.
use cloud_nvr.Base.{◌≡◌, refl, some, [], ◌∷◌, nat_eq, string_eq}
use cloud_nvr.Base.Dict.{lookup, insert}
use cloud_nvr.Signaling.{
  WebRtcRequest, WebRtcResponse, Exchange, WebRtcBroker, new_webrtc_broker, drop_expired,
  open_exchange, skip, found_or_wait, next,
}
use cloud_nvr.Signaling.Exchanges.{IsSound}
use cloud_nvr.Signaling.Runs.{opens, perform, perform_all, signaling-IsSound}

abbrev offer : WebRtcRequest
offer = record {
  id = "o1";
  camera_id = "cam";
  method = "POST";
  path = "";
  query = "";
  headers = [];
  body = [];
}

abbrev answer : WebRtcResponse
answer = record { id = "o1"; status = 201; headers = []; body = [] }

abbrev asked : Exchange
asked = record { number = 0; request = offer; site_id = "north"; created = 5 }

abbrev open_one : WebRtcBroker
unfolding perform_all perform new_webrtc_broker open_exchange
open_one = perform_all (opens 5 "north" offer ∷ []) new_webrtc_broker

signaling-IsSound_example : IsSound (perform_all (opens 5 "north" offer ∷ []) new_webrtc_broker)
signaling-IsSound_example = signaling-IsSound (opens 5 "north" offer ∷ [])

open_one-IsSound : IsSound open_one
unfolding open_one
open_one-IsSound = signaling-IsSound (opens 5 "north" offer ∷ [])

next_run : (next 6 "north" open_one).0 ≡ some asked
unfolding open_one next perform_all perform new_webrtc_broker open_exchange drop_expired skip
    found_or_wait lookup insert
next_run = refl

pending_run : lookup "o1" open_one.pending ≡ some asked
unfolding open_one perform_all perform new_webrtc_broker open_exchange drop_expired lookup insert
pending_run = refl
