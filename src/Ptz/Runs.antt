-- ===== src/Ptz/Runs.antt =====
-- All runs of the broker of internal/cloud/ptz_broker.go.
use cloud_nvr.Base.{
  ◌≡◌, refl, inl, inr, String, true, false, Option, none, some, List, [], ◌∷◌, nat_eq, string_eq,
  Option-cases,
}
use cloud_nvr.Base.Dict.{lookup}
use cloud_nvr.Ptz.{
  PtzCommand, PtzResult, PtzBroker, new_ptz_broker, enqueue, resolve, abandon, next, take_notice,
}
use cloud_nvr.Ptz.Delivery.{
  IsSound, new_ptz_broker-IsSound, abandon-IsSound, enqueue-IsSound, resolve_accepts,
}
use cloud_nvr.Ptz.Order.{next_own_queue}

-- A method that is called.
pub data Call (F : Type 0) : Type 0 where
  enqueues : String → PtzCommand F → Call F
  polls : String → Call F
  resolves : String → PtzResult → Call F
  abandons : String → Call F
  wakes : String → Call F

module _ {F : Type 0} where
  -- What the caller's channel is ready for: without a notice it waits, and nothing changes.
  unfoldable pub woken : PtzBroker F → Option (PtzBroker F) → PtzBroker F
  woken b none = b
  woken b (some b') = b'

  abbrev pub second_of {ℓ} : {A : Type ℓ} → Option (A × PtzBroker F) → Option (PtzBroker F)
  second_of none = none
  second_of (some (a, b)) = some b

  -- One call. For `none` the broker blocks under its mutex, or panics.
  unfoldable pub perform : Call F → PtzBroker F → Option (PtzBroker F)
  perform (enqueues site c) b = second_of (enqueue site c b)
  perform (polls site) b = some (next site b).1
  perform (resolves site r) b = second_of (resolve site r b)
  perform (abandons i) b = some (abandon i b)
  perform (wakes site) b = some (woken b (take_notice site b))

  unfoldable pub perform_all : List (Call F) → Option (PtzBroker F) → Option (PtzBroker F)
  perform_all [] b = b
  perform_all (c ∷ cs) none = none
  perform_all (c ∷ cs) (some b) = perform_all cs (perform c b)

  woken-IsSound :
      (site : String) (b : PtzBroker F) → IsSound b → IsSound (woken b (take_notice site b))
  unfolding woken take_notice
  woken-IsSound site b v = elim (Option-cases (lookup site b.notices)) [
    | inl e ↦ rw (take_notice, e) v
    | inr (true, e) ↦
        rw (take_notice, e)
          (record {
            bounded = v.bounded;
            open_channel = v.open_channel;
            own_channel = v.own_channel;
          })
    | inr (false, e) ↦ rw (take_notice, e) v
  ]

  perform-IsSound :
      (c : Call F) (b : PtzBroker F)
      → IsSound b
      → (b' : PtzBroker F) × (perform c b ≡ some b') × IsSound b'
  unfolding perform
  perform-IsSound (enqueues site c) b v =
      let (b', e, v') = enqueue-IsSound site c b v in (b', rw e refl, v')
  perform-IsSound (polls site) b v = ((next site b).1, refl, (next_own_queue site site b v).0)
  perform-IsSound (resolves site r) b v =
      let (done, b', e, v', _, _) = resolve_accepts site r b v in (b', rw e refl, v')
  perform-IsSound (abandons i) b v = (abandon i b, refl, abandon-IsSound i b v)
  perform-IsSound (wakes site) b v = (woken b (take_notice site b), refl, woken-IsSound site b v)

  perform_all-IsSound :
      (cs : List (Call F)) (b : PtzBroker F)
      → IsSound b
      → (b' : PtzBroker F) × (perform_all cs (some b) ≡ some b') × IsSound b'
  unfolding perform_all
  perform_all-IsSound [] b v = (b, refl, v)
  perform_all-IsSound (c ∷ cs) b v =
      let (b', e, v') = perform-IsSound c b v in
      let (b'', e', v'') = perform_all-IsSound cs b' v' in (b'', rw e e', v'')

  -- No sequence of calls on a new broker blocks under the mutex or panics by a send to a full or a
  -- closed channel; afterwards no queue holds more than fifty commands, and every waiting handler
  -- has an open, empty channel of its own.
  pub runs-IsSound :
      (cs : List (Call F))
      → (b : PtzBroker F) × (perform_all cs (some new_ptz_broker) ≡ some b) × IsSound b
  runs-IsSound cs = perform_all-IsSound cs new_ptz_broker new_ptz_broker-IsSound
