-- ===== src/Ptz/Order.antt =====
-- The order in which internal/cloud/ptz_broker.go hands out commands.
use cloud_nvr.Base.{
  ◌≤◌, ◌≡◌, refl, ap, ◌≢◌, String, Bool, none, some, List, [], ◌∷◌, arith, eq_iff, nat_eq,
  string_eq, ==_refl, length,
}
use cloud_nvr.Base.Dict.{Dict, insert, lookup-insert}
use cloud_nvr.Ptz.{PtzCommand, PtzBroker, queue_limit, queue_of, take_first, next}
use cloud_nvr.Ptz.Delivery.{IsSound}

module _ {F : Type 0} where
  waiting-IsSound :
      (q : Dict String (List (PtzCommand F))) (n : Dict String Bool) (b : PtzBroker F)
      → IsSound b
      → ((site : String)
          → length (queue_of site (record b { queues = q; notices = n })) ≤ queue_limit)
      → IsSound (record b { queues = q; notices = n })
  waiting-IsSound q n b v h = record {
    bounded = h;
    open_channel = v.open_channel;
    own_channel = v.own_channel;
  }

  take_first-IsSound :
      (site other : String) (l : List (PtzCommand F)) (b : PtzBroker F)
      → IsSound b
      → queue_of site b ≡ l
      → IsSound (take_first site l b).1
        × (queue_of site b ≡ (elim (take_first site l b).0 [
          | none ↦ []
          | some c ↦ c ∷ queue_of site (take_first site l b).1
        ]))
        × (other ≢ site → queue_of other (take_first site l b).1 ≡ queue_of other b)
  unfolding take_first
  take_first-IsSound site other [] b v e = (waiting-IsSound b.queues _ b v v.bounded, e, λ _. refl)
  take_first-IsSound site other (c ∷ rest) b v e = (
    waiting-IsSound (insert site rest b.queues) b.notices b v (λ k.
        ground
          (arith, lookup-insert site k rest b.queues, v.bounded k, v.bounded site, ap length e)),
    ground (arith, lookup-insert site site rest b.queues, ==_refl site),
    λ h. ground (arith, lookup-insert site other rest b.queues, eq_iff site other),
  )

  -- `next` takes the oldest command of the site's own queue and leaves the queues of the other sites
  -- alone; it gives nothing exactly when that queue is empty. What it leaves is sound again.
  pub next_own_queue :
      (site other : String) (b : PtzBroker F)
      → IsSound b
      → IsSound (next site b).1
        × (queue_of site b
            ≡ (elim (next site b).0 [ none ↦ [] | some c ↦ c ∷ queue_of site (next site b).1 ]))
        × (other ≢ site → queue_of other (next site b).1 ≡ queue_of other b)
  unfolding next
  next_own_queue site other b v = take_first-IsSound site other (queue_of site b) b v refl
