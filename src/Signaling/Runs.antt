-- ===== src/Signaling/Runs.antt =====
-- All runs of the broker of internal/cloud/webrtc_broker.go.
use cloud_nvr.Base.{
  ℕ, inl, inr, String, List, [], ◌∷◌, arith, eq_iff, ◌==◌, nat_eq, string_eq, Bool-cases,
  Option-cases,
}
use cloud_nvr.Base.Dict.{lookup, lookup-erase, erase-NodupKeys}
use cloud_nvr.Signaling.{
  WebRtcRequest, WebRtcResponse, Exchange, WebRtcBroker, new_webrtc_broker, open_exchange, give_up,
  next, resolve,
}
use cloud_nvr.Signaling.Exchanges.{
  IsSound, new_webrtc_broker-IsSound, open_exchange-IsSound, give_up-IsSound, next-IsSound,
}

resolve-IsSound :
    (site : String) (r : WebRtcResponse) (b : WebRtcBroker)
    → IsSound b
    → IsSound (resolve site r b).1
unfolding resolve
resolve-IsSound site r b v = elim (Option-cases (lookup r.id b.pending)) [
  | inl e ↦ rw (resolve, e) v
  | inr (x, e) ↦ elim (Bool-cases (x.site_id == site)) [
    | inl s ↦
        let empty = (v.room r.id x e).2 in
        rw (resolve, e, s, empty)
          (record {
            nodup = erase-NodupKeys r.id b.pending v.nodup;
            room = λ i f h.
                ground (
                  arith,
                  lookup-erase r.id i b.pending,
                  v.room i f,
                  v.own i r.id f x,
                  eq_iff i r.id,
                );
            own = λ i j f g h k p. ground (
              arith,
              lookup-erase r.id i b.pending,
              lookup-erase r.id j b.pending,
              v.own i j f g,
            );
          })
    | inr s ↦ rw (resolve, e, s) v
  ]
]

-- A step of an exchange, of an agent that polls, or of one that answers.
pub data Call : Type 0 where
  opens : ℕ → String → WebRtcRequest → Call
  gives_up : Exchange → Call
  polls : ℕ → String → Call
  resolves : String → WebRtcResponse → Call

unfoldable pub perform : Call → WebRtcBroker → WebRtcBroker
perform (opens now site r) b = (open_exchange now site r b).1
perform (gives_up e) b = give_up e b
perform (polls now site) b = (next now site b).1
perform (resolves site r) b = (resolve site r b).1

unfoldable pub perform_all : List Call → WebRtcBroker → WebRtcBroker
perform_all [] b = b
perform_all (c ∷ cs) b = perform_all cs (perform c b)

perform_all-IsSound : (cs : List Call) (b : WebRtcBroker) → IsSound b → IsSound (perform_all cs b)
unfolding perform perform_all
perform_all-IsSound [] b v = v
perform_all-IsSound (opens now site r ∷ cs) b v =
    perform_all-IsSound cs _ (open_exchange-IsSound now site r b v)
perform_all-IsSound (gives_up e ∷ cs) b v = perform_all-IsSound cs _ (give_up-IsSound e b v)
perform_all-IsSound (polls now site ∷ cs) b v = perform_all-IsSound cs _ (next-IsSound now site b v)
perform_all-IsSound (resolves site r ∷ cs) b v =
    perform_all-IsSound cs _ (resolve-IsSound site r b v)

-- After any sequence of steps on a new broker every exchange that is waited for sits once under
-- its own id and has a channel of its own that is still empty, so that the answer to it never
-- blocks.
pub signaling-IsSound : (cs : List Call) → IsSound (perform_all cs new_webrtc_broker)
signaling-IsSound cs = perform_all-IsSound cs new_webrtc_broker new_webrtc_broker-IsSound
