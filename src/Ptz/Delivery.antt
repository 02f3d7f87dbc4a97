-- ===== src/Ptz/Delivery.antt =====
-- What internal/cloud/ptz_broker.go keeps: bounded queues, and one answer for each command.
use cloud_nvr.Base.{
  suc, ◌≤◌, ◌<◌, ◌≡◌, refl, ◌↔◌, inl, inr, String, Bool, true, false, Option, none, some, List, [],
  ◌∷◌, ◌++◌, arith, eq_iff, leb, ◌==◌, nat_eq, string_eq, Bool-cases, Option-cases, ==_refl, length,
  length-append,
}
use cloud_nvr.Base.Dict.{lookup, insert, erase, lookup-insert, lookup-erase}
use cloud_nvr.Ptz.{
  PtzCommand, PtzResult, Channel, empty, closed, PtzPending, PtzBroker, queue_limit, set_at,
  send_and_close, new_ptz_broker, queue_of, queue_full, drop_command, make_room, enqueue, resolve,
  abandon,
}

module _ {F : Type 0} where
  -- No queue is longer than its limit, and every waiting handler has an open, empty channel of its
  -- own.
  pub record IsSound (b : PtzBroker F) : Type 0 where
    pub bounded : (site : String) → length (queue_of site b) ≤ queue_limit
    pub open_channel :
        (i : String) (p : PtzPending)
        → lookup i b.pending ≡ some p
        → (p.channel < b.made) × (b.channels p.channel ≡ empty)
    pub own_channel :
        (i j : String) (p q : PtzPending)
        → lookup i b.pending ≡ some p
        → lookup j b.pending ≡ some q
        → p.channel ≡ q.channel
        → i ≡ j

  pub new_ptz_broker-IsSound : IsSound new_ptz_broker
  unfolding new_ptz_broker lookup
  new_ptz_broker-IsSound = record {
    bounded = λ site. omega arith;
    open_channel = λ i p h. cc;
    own_channel = λ i j p q h k e. cc;
  }

  pub abandon-IsSound : (i : String) (b : PtzBroker F) → IsSound b → IsSound (abandon i b)
  unfolding abandon
  abandon-IsSound i b v = record {
    bounded = v.bounded;
    open_channel = λ j p h. ground (arith, lookup-erase i j b.pending, v.open_channel j p);
    own_channel = λ j k p q h h' e.
        ground
          (arith, lookup-erase i j b.pending, lookup-erase i k b.pending, v.own_channel j k p q);
  }

  -- To answer a waiting handler neither blocks nor panics.
  answer :
      (i : String) (p : PtzPending) (r : PtzResult) (b : PtzBroker F)
      → IsSound b
      → lookup i b.pending ≡ some p
      → send_and_close b.channels p.channel r ≡ some (set_at b.channels p.channel (closed (some r)))
  unfolding send_and_close
  answer i p r b v h = ground (arith, v.open_channel i p h)

  answered-IsSound :
      (i : String) (p : PtzPending) (c : Channel) (b : PtzBroker F)
      → IsSound b
      → lookup i b.pending ≡ some p
      → IsSound (record b { pending = erase i b.pending; channels = set_at b.channels p.channel c })
  answered-IsSound i p c b v h = record {
    bounded = v.bounded;
    open_channel = λ j q k. ground (
      arith,
      lookup-erase i j b.pending,
      v.open_channel j q,
      v.own_channel i j p q h,
      eq_iff i j,
    );
    own_channel = λ j k q s hj hk e.
        ground
          (arith, lookup-erase i j b.pending, lookup-erase i k b.pending, v.own_channel j k q s);
  }

  abbrev Registered : String → PtzCommand F → PtzBroker F → PtzBroker F
  Registered site c b = record b {
    pending = insert c.id (record { site_id = site; channel = b.made }) b.pending;
    channels = set_at b.channels b.made empty;
    made = suc b.made;
  }

  register-IsSound :
      (site : String) (c : PtzCommand F) (b : PtzBroker F)
      → IsSound b
      → IsSound (Registered site c b)
  register-IsSound site c b v = record {
    bounded = v.bounded;
    open_channel = λ j q h. ground (
      arith,
      lookup-insert c.id j (record { site_id = site; channel = b.made }) b.pending,
      v.open_channel j q,
    );
    own_channel = λ j k q s hj hk e. ground (
      arith,
      lookup-insert c.id j (record { site_id = site; channel = b.made }) b.pending,
      lookup-insert c.id k (record { site_id = site; channel = b.made }) b.pending,
      eq_iff c.id j,
      eq_iff c.id k,
      v.own_channel j k q s,
      v.open_channel j q,
      v.open_channel k s,
    );
  }

  -- The broker after a command was dropped.
  abbrev Dropped : PtzCommand F → Option PtzPending → PtzBroker F → PtzBroker F
  Dropped c none b = b
  Dropped c (some p) b = record b {
    pending = erase c.id b.pending;
    channels = set_at b.channels p.channel (closed (some (queue_full c.id)));
  }

  drop_command-eq :
      (c : PtzCommand F) (b : PtzBroker F)
      → IsSound b
      → drop_command c b ≡ some (Dropped c (lookup c.id b.pending) b)
  unfolding drop_command
  drop_command-eq c b v = elim (Option-cases (lookup c.id b.pending)) [
    | inl e ↦ ground (arith, e)
    | inr (p, e) ↦ ground (arith, e, answer c.id p (queue_full c.id) b v e)
  ]

  Dropped-IsSound :
      (c : PtzCommand F) (b : PtzBroker F)
      → IsSound b
      → IsSound (Dropped c (lookup c.id b.pending) b)
  Dropped-IsSound c b v = elim (Option-cases (lookup c.id b.pending)) [
    | inl e ↦ rw e v
    | inr (p, e) ↦ rw e (answered-IsSound c.id p (closed (some (queue_full c.id))) b v e)
  ]

  make_room-IsSound :
      (l : List (PtzCommand F)) (b : PtzBroker F)
      → IsSound b
      → length l ≤ queue_limit
      → (q : List (PtzCommand F)) × (b' : PtzBroker F) × (make_room l b ≡ some (q, b'))
        × IsSound b'
        × (length q < queue_limit)
  unfolding make_room
  make_room-IsSound [] b v h = ([], b, refl, v, omega arith)
  make_room-IsSound (c ∷ rest) b v h = elim (Bool-cases (leb queue_limit (length (c ∷ rest)))) [
    | inl e ↦ (
      rest,
      Dropped c (lookup c.id b.pending) b,
      ground (arith, e, drop_command-eq c b v),
      Dropped-IsSound c b v,
      omega arith,
    )
    | inr e ↦ (c ∷ rest, b, ground (arith, e), v, ground (arith, e))
  ]

  join-IsSound :
      (site : String) (q : List (PtzCommand F)) (c : PtzCommand F) (b : PtzBroker F)
      → IsSound b
      → length q < queue_limit
      → IsSound (record b {
        queues = insert site (q ++ c ∷ []) b.queues;
        notices = insert site true b.notices;
      })
  join-IsSound site q c b v h = record {
    bounded = λ other. ground (
      arith,
      lookup-insert site other (q ++ c ∷ []) b.queues,
      length-append {0} q (c ∷ []),
      v.bounded other,
    );
    open_channel = v.open_channel;
    own_channel = v.own_channel;
  }

  -- To enqueue a command never blocks under the mutex and never panics. The handler gets a channel
  -- of its own, and every queue stays within its fifty commands.
  pub enqueue-IsSound :
      (site : String) (c : PtzCommand F) (b : PtzBroker F)
      → IsSound b
      → (b' : PtzBroker F) × (enqueue site c b ≡ some (b.made, b')) × IsSound b'
  unfolding enqueue
  enqueue-IsSound site c b v =
      let (q, b'', e, v'', short) =
        make_room-IsSound (queue_of site b) (Registered site c b) (register-IsSound site c b v)
          (v.bounded site) in
      (
        record b'' {
          queues = insert site (q ++ c ∷ []) b''.queues;
          notices = insert site true b''.notices;
        },
        ground (arith, e),
        join-IsSound site q c b'' v'' short,
      )

  -- To resolve a command never blocks under the mutex and never panics. A result for a
  -- pending command is accepted exactly when it comes from the command's site; then the command's
  -- own channel holds it and is closed, and the command is pending no longer. A result that is
  -- refused changes nothing.
  pub resolve_accepts :
      (site : String) (r : PtzResult) (b : PtzBroker F)
      → IsSound b
      → (done : Bool) × (b' : PtzBroker F) × (resolve site r b ≡ some (done, b'))
        × IsSound b'
        × (done ≡ false → b' ≡ b)
        × ((p : PtzPending)
            → lookup r.id b.pending ≡ some p
            → (done ≡ true ↔ p.site_id ≡ site)
              × (p.site_id ≡ site
                  → (b'.channels p.channel ≡ closed (some r)) × (lookup r.id b'.pending ≡ none)))
  unfolding resolve
  resolve_accepts site r b v = elim (Option-cases (lookup r.id b.pending)) [
    | inl e ↦ (false, b, ground (arith, e), v, λ _. refl, λ p h. cc)
    | inr (p, e) ↦ elim (Bool-cases (p.site_id == site)) [
      | inr foreign ↦ (
        false,
        b,
        ground (arith, e, foreign),
        v,
        λ _. refl,
        λ q h. ground (arith, foreign, eq_iff p.site_id site),
      )
      | inl own ↦ (
        true,
        record b {
          pending = erase r.id b.pending;
          channels = set_at b.channels p.channel (closed (some r));
        },
        ground (arith, e, own, answer r.id p r b v e),
        answered-IsSound r.id p (closed (some r)) b v e,
        λ h. cc,
        λ q h.
            ground
              (arith, own, eq_iff p.site_id site, lookup-erase r.id r.id b.pending, ==_refl r.id),
      )
    ]
  ]
