-- ===== src/Signaling.antt =====
-- WHEP signaling: internal/cloud/webrtc_broker.go, the reverse tunnel for the requests that a
-- viewer makes of an agent. Each stretch under the mutex is one step. An exchange is a pointer in
-- the source; here it carries a number that tells it from every other one. Result channels have
-- room for one response, and `results` says what the channel of each exchange holds.
pub mod Exchanges
pub mod Runs
mod Examples
use cloud_nvr.Base.{
  ℕ, suc, ◌+◌, ◌*◌, String, Bool, true, false, not, Option, none, some, List, [], ◌∷◌, ◌++◌, ltb,
  ◌==◌, string_eq, nat_eq, if◌then◌else◌,
}
use cloud_nvr.Base.Dict.{Dict, lookup, insert, erase}
use cloud_nvr.Base.Time.{second}

-- domain.WebRTCRequest
pub record WebRtcRequest : Type 0 where
  pub id : String
  pub camera_id : String
  pub method : String
  pub path : String
  pub query : String
  pub headers : Dict String String
  pub body : List ℕ

-- domain.WebRTCResponse
pub record WebRtcResponse : Type 0 where
  pub id : String
  pub status : ℕ
  pub headers : Dict String String
  pub body : List ℕ

pub record Exchange : Type 0 where
  pub number : ℕ
  pub request : WebRtcRequest
  pub site_id : String
  pub created : ℕ

pub record WebRtcBroker : Type 0 where
  pub queues : Dict String (List Exchange)
  pub pending : Dict String Exchange
  pub notices : Dict String Bool
  pub results : ℕ → Option WebRtcResponse
  pub made : ℕ

abbrev pub webrtc_request_ttl : ℕ
webrtc_request_ttl = 30 * second

unfoldable pub new_webrtc_broker : WebRtcBroker
new_webrtc_broker = record {
  queues = [];
  pending = [];
  notices = [];
  results = λ _. none;
  made = 0;
}

abbrev pub expired : ℕ → Exchange → Bool
expired now e = ltb (e.created + webrtc_request_ttl) now

unfoldable pub drop_expired : ℕ → Dict String Exchange → Dict String Exchange
drop_expired now [] = []
drop_expired now ((k, e) ∷ d) =
    let rest = drop_expired now d in if expired now e then rest else (k, e) ∷ rest

-- cleanupLocked
abbrev pub cleanup : ℕ → WebRtcBroker → WebRtcBroker
cleanup now b = record b { pending = drop_expired now b.pending }

abbrev pub queue_of : String → WebRtcBroker → List Exchange
queue_of site b = elim (lookup site b.queues) [ none ↦ [] | some q ↦ q ]

abbrev pub set_at :
    (ℕ → Option WebRtcResponse) → ℕ → Option WebRtcResponse → ℕ → Option WebRtcResponse
set_at f n r k = if n == k then r else f k

-- `exchange` up to its wait: the request joins the queue of the site.
unfoldable pub open_exchange : ℕ → String → WebRtcRequest → WebRtcBroker → Exchange × WebRtcBroker
open_exchange now site request b =
    let b' = cleanup now b in
    let e : Exchange = record {
      number = b'.made;
      request = request;
      site_id = site;
      created = now;
    } in
    (
      e,
      record {
        queues = insert site (queue_of site b' ++ e ∷ []) b'.queues;
        pending = insert request.id e b'.pending;
        notices = insert site true b'.notices;
        results = set_at b'.results b'.made none;
        made = suc b'.made;
      },
    )

-- `exchange` when the context of the viewer is done first.
unfoldable pub give_up : Exchange → WebRtcBroker → WebRtcBroker
give_up e b = record b { pending = erase e.request.id b.pending }

abbrev pub is_pending : Dict String Exchange → Exchange → Bool
is_pending d e = elim (lookup e.request.id d) [ none ↦ false | some f ↦ f.number == e.number ]

-- The inner loop of `next`: skip what is no longer pending.
unfoldable pub skip : Dict String Exchange → List Exchange → Option Exchange × List Exchange
skip d [] = (none, [])
skip d (e ∷ rest) = elim (is_pending d e) [ true ↦ (some e, rest) | false ↦ skip d rest ]

-- noticeLocked
abbrev pub noticed : String → Dict String Bool → Dict String Bool
noticed site n = elim (lookup site n) [ none ↦ insert site false n | some _ ↦ n ]

abbrev pub notice_of : String → WebRtcBroker → WebRtcBroker
notice_of site b = record b { notices = noticed site b.notices }

unfoldable pub found_or_wait :
    String → Option Exchange → WebRtcBroker → Option Exchange × WebRtcBroker
found_or_wait site none b = (none, notice_of site b)
found_or_wait site (some e) b = (some e, b)

-- One round of `next` under the mutex; `none` goes on to wait for the notice.
unfoldable pub next : ℕ → String → WebRtcBroker → Option Exchange × WebRtcBroker
next now site b =
    let b' = cleanup now b in
    let (found, rest) = skip b'.pending (queue_of site b') in
    found_or_wait site found (record b' { queues = insert site rest b'.queues })

-- resolve: was the response accepted? The send does not wait when the channel is full.
unfoldable pub resolve : String → WebRtcResponse → WebRtcBroker → Bool × WebRtcBroker
resolve site r b = elim (lookup r.id b.pending) [
  | none ↦ (false, b)
  | some e ↦
      if not (e.site_id == site)
      then (false, b)
      else (let b' : WebRtcBroker = record b { pending = erase r.id b.pending } in
          elim (b.results e.number) [
            | none ↦ (true, record b' { results = set_at b.results e.number (some r) })
            | some _ ↦ (false, b')
          ])
]
