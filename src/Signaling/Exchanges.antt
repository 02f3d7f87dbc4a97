-- ===== src/Signaling/Exchanges.antt =====
-- Which exchanges internal/cloud/webrtc_broker.go gives to an agent, and which answers it takes.
use cloud_nvr.Base.{
  ℕ, suc, ◌+◌, ◌≤◌, ◌<◌, ◌≡◌, refl, sym, ◌∙◌, ◌≢◌, ◌↔◌, inl, inr, String, Bool, true, false, Option,
  none, some, List, [], ◌∷◌, arith, eq_iff, if◌then◌else◌, ◌==◌, nat_eq, string_eq, Bool-cases,
  Option-cases, ==_refl,
}
use cloud_nvr.Base.Dict.{
  Dict, lookup, insert, lookup-insert, lookup-erase, NodupKeys, insert-NodupKeys, erase-NodupKeys,
}
use cloud_nvr.Signaling.{
  WebRtcRequest, WebRtcResponse, Exchange, WebRtcBroker, webrtc_request_ttl, new_webrtc_broker,
  expired, drop_expired, cleanup, queue_of, set_at, open_exchange, give_up, skip, found_or_wait,
  next, resolve,
}

drop_expired-none :
    (now : ℕ) (k : String) (d : Dict String Exchange)
    → lookup k d ≡ none
    → lookup k (drop_expired now d) ≡ none
unfolding lookup drop_expired
drop_expired-none now k [] h = refl
drop_expired-none now k ((j, e) ∷ d) h = ground (arith, drop_expired-none now k d, eq_iff j k)

drop_expired-NodupKeys :
    (now : ℕ) (d : Dict String Exchange) → NodupKeys d → NodupKeys (drop_expired now d)
unfolding drop_expired
drop_expired-NodupKeys now [] u = tt
drop_expired-NodupKeys now ((j, e) ∷ d) u =
    ground (arith, drop_expired-NodupKeys now d u.1, drop_expired-none now j d u.0)

abbrev unless_expired : ℕ → Option Exchange → Option Exchange
unless_expired now none = none
unless_expired now (some e) = if expired now e then none else some e

lookup-drop_expired :
    (now : ℕ) (k : String) (d : Dict String Exchange)
    → NodupKeys d
    → lookup k (drop_expired now d) ≡ unless_expired now (lookup k d)
unfolding lookup drop_expired
lookup-drop_expired now k [] u = refl
lookup-drop_expired now k ((j, e) ∷ d) u =
    ground (arith, lookup-drop_expired now k d u.1, drop_expired-none now k d, eq_iff j k)

-- Every exchange that is waited for has a channel of its own, with room for the response.
pub record IsSound (b : WebRtcBroker) : Type 0 where
  pub nodup : NodupKeys b.pending
  pub room :
      (i : String) (e : Exchange)
      → lookup i b.pending ≡ some e
      → (e.request.id ≡ i) × (e.number < b.made) × (b.results e.number ≡ none)
  pub own :
      (i j : String) (e f : Exchange)
      → lookup i b.pending ≡ some e
      → lookup j b.pending ≡ some f
      → e.number ≡ f.number
      → i ≡ j

pub new_webrtc_broker-IsSound : IsSound new_webrtc_broker
unfolding new_webrtc_broker lookup
new_webrtc_broker-IsSound = record { nodup = tt; room = λ i e h. cc; own = λ i j e f h k p. cc }

cleanup-IsSound : (now : ℕ) (b : WebRtcBroker) → IsSound b → IsSound (cleanup now b)
cleanup-IsSound now b v = record {
  nodup = drop_expired-NodupKeys now b.pending v.nodup;
  room = λ i e h. ground (arith, lookup-drop_expired now i b.pending v.nodup, v.room i e);
  own = λ i j e f h k p. ground (
    arith,
    lookup-drop_expired now i b.pending v.nodup,
    lookup-drop_expired now j b.pending v.nodup,
    v.own i j e f,
  );
}

pub give_up-IsSound : (e : Exchange) (b : WebRtcBroker) → IsSound b → IsSound (give_up e b)
unfolding give_up
give_up-IsSound e b v = record {
  nodup = erase-NodupKeys e.request.id b.pending v.nodup;
  room = λ i f h. ground (arith, lookup-erase e.request.id i b.pending, v.room i f);
  own = λ i j f g h k p. ground (
    arith,
    lookup-erase e.request.id i b.pending,
    lookup-erase e.request.id j b.pending,
    v.own i j f g,
  );
}

opened-IsSound :
    (now : ℕ) (site : String) (r : WebRtcRequest) (q : Dict String (List Exchange))
    (n : Dict String Bool) (b : WebRtcBroker)
    → IsSound b
    → IsSound (record {
      queues = q;
      pending =
          insert r.id
            (record { number = b.made; request = r; site_id = site; created = now })
            b.pending;
      notices = n;
      results = set_at b.results b.made none;
      made = suc b.made;
    })
opened-IsSound now site r q n b v =
    let e : Exchange = record { number = b.made; request = r; site_id = site; created = now } in
    record {
      nodup = insert-NodupKeys r.id e b.pending v.nodup;
      room = λ i f h. ground (arith, lookup-insert r.id i e b.pending, eq_iff r.id i, v.room i f);
      own = λ i j f g h k p. ground (
        arith,
        lookup-insert r.id i e b.pending,
        lookup-insert r.id j e b.pending,
        eq_iff r.id i,
        eq_iff r.id j,
        v.own i j f g,
        v.room i f,
        v.room j g,
      );
    }

pub open_exchange-IsSound :
    (now : ℕ) (site : String) (r : WebRtcRequest) (b : WebRtcBroker)
    → IsSound b
    → IsSound (open_exchange now site r b).1
unfolding open_exchange
open_exchange-IsSound now site r b v =
    opened-IsSound now site r _ _ (cleanup now b) (cleanup-IsSound now b v)

requeued-IsSound :
    (q : Dict String (List Exchange)) (n : Dict String Bool) (b : WebRtcBroker)
    → IsSound b
    → IsSound (record b { queues = q; notices = n })
requeued-IsSound q n b v = record { nodup = v.nodup; room = v.room; own = v.own }

found-IsSound :
    (site : String) (o : Option Exchange) (b : WebRtcBroker)
    → IsSound b
    → IsSound (found_or_wait site o b).1
unfolding found_or_wait
found-IsSound site none b v = requeued-IsSound b.queues _ b v
found-IsSound site (some e) b v = v

found_or_wait_fst :
    (site : String) (o : Option Exchange) (b : WebRtcBroker) → (found_or_wait site o b).0 ≡ o
unfolding found_or_wait
found_or_wait_fst site none b = refl
found_or_wait_fst site (some e) b = refl

pub next-IsSound :
    (now : ℕ) (site : String) (b : WebRtcBroker) → IsSound b → IsSound (next now site b).1
unfolding next
next-IsSound now site b v =
    found-IsSound site (skip (cleanup now b).pending (queue_of site (cleanup now b))).0 _
      (requeued-IsSound _ b.notices (cleanup now b) (cleanup-IsSound now b v))

skip_pending :
    (d : Dict String Exchange) (q : List Exchange) (e : Exchange)
    → (skip d q).0 ≡ some e
    → (f : Exchange) × (lookup e.request.id d ≡ some f) × (f.number ≡ e.number)
unfolding skip
skip_pending d [] e h = cc
skip_pending d (x ∷ q) e h = elim (Option-cases (lookup x.request.id d)) [
  | inl l ↦ skip_pending d q e (ground (arith, l))
  | inr (f, l) ↦ elim (Bool-cases (f.number == x.number)) [
    | inl p ↦ (f, ground (arith, l, p), ground (arith, l, p))
    | inr p ↦ skip_pending d q e (ground (arith, l, p))
  ]
]

-- What `next` gives to an agent is still waited for: it was not given up, not answered, and is not
-- older than thirty seconds.
pub next_live :
    (now : ℕ) (site : String) (b : WebRtcBroker) (e : Exchange)
    → IsSound b
    → (next now site b).0 ≡ some e
    → (f : Exchange) × (lookup e.request.id b.pending ≡ some f)
      × (f.number ≡ e.number)
      × (b.results f.number ≡ none)
      × (now ≤ f.created + webrtc_request_ttl)
unfolding next
next_live now site b e v h =
    let (f, l, same) =
      skip_pending (cleanup now b).pending (queue_of site (cleanup now b)) e
        (sym (found_or_wait_fst site _ _) ∙ h) in
    let at_id = lookup-drop_expired now e.request.id b.pending v.nodup in
    let here_before : lookup e.request.id b.pending ≡ some f = ground (arith, at_id, l) in
    (f, here_before, same, (v.room e.request.id f here_before).2, ground (arith, at_id, l))

-- A response to an exchange that is waited for is taken exactly when it comes from the exchange's
-- site; then it stands in the exchange's channel, and a second response to the exchange is refused
-- and changes nothing. A response from another site changes nothing.
pub resolve_once :
    (site : String) (r r' : WebRtcResponse) (b : WebRtcBroker) (e : Exchange)
    → IsSound b
    → lookup r.id b.pending ≡ some e
    → r'.id ≡ r.id
    → ((resolve site r b).0 ≡ true ↔ e.site_id ≡ site)
      × (e.site_id ≡ site
          → ((resolve site r b).1.results e.number ≡ some r)
            × (resolve site r' (resolve site r b).1 ≡ (false, (resolve site r b).1)))
      × (e.site_id ≢ site → (resolve site r b).1 ≡ b)
unfolding resolve
resolve_once site r r' b e v h same = ground (
  arith,
  v.room r.id e h,
  eq_iff e.site_id site,
  lookup-erase r.id r.id b.pending,
  lookup-erase r.id r'.id b.pending,
  ==_refl r.id,
  eq_iff r.id r'.id,
)
