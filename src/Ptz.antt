-- ===== src/Ptz.antt =====
-- Pan, tilt and zoom: internal/cloud/ptz_broker.go, the queue of commands between the HTTP handlers
-- and the agents. A method holds the mutex from start to end, so it is one step on the broker.
-- Result channels are numbers in the order of their making, and `channels` says what each holds. A
-- step is `none` where Go would block under the mutex or panic: a send to a full or a closed channel.
pub mod Delivery
pub mod Order
pub mod Runs
mod Examples
use cloud_nvr.Base.{
  ℕ, suc, String, Bool, true, false, not, Option, none, some, List, [], ◌∷◌, ◌++◌, leb, length,
  ◌==◌, string_eq, nat_eq, if◌then◌else◌,
}
use cloud_nvr.Base.Dict.{Dict, lookup, insert, erase}

-- domain.PTZCommand, over the type of its three velocities.
pub record PtzCommand (F : Type 0) : Type 0 where
  pub id : String
  pub camera_id : String
  pub action : String
  pub endpoint : String
  pub username : String
  pub password : String
  pub pan : F
  pub tilt : F
  pub zoom : F

-- domain.PTZResult
pub record PtzResult : Type 0 where
  pub id : String
  pub success : Bool
  pub message : String

-- A channel with room for one value.
pub data Channel : Type 0 where
  empty : Channel
  holds : PtzResult → Channel
  closed : Option PtzResult → Channel

pub record PtzPending : Type 0 where
  pub site_id : String
  pub channel : ℕ

pub record PtzBroker (F : Type 0) : Type 0 where
  pub queues : Dict String (List (PtzCommand F))
  pub notices : Dict String Bool
  pub pending : Dict String PtzPending
  pub channels : ℕ → Channel
  pub made : ℕ

abbrev pub queue_limit : ℕ
queue_limit = 50

-- Write one value of a function on numbers.
abbrev pub set_at : (ℕ → Channel) → ℕ → Channel → ℕ → Channel
set_at f n c k = if n == k then c else f k

-- `pending.result <- result; close(pending.result)`
send_and_close_to : Channel → (ℕ → Channel) → ℕ → PtzResult → Option (ℕ → Channel)
send_and_close_to empty f n r = some (set_at f n (closed (some r)))
send_and_close_to (holds _) f n r = none
send_and_close_to (closed _) f n r = none

unfoldable pub send_and_close : (ℕ → Channel) → ℕ → PtzResult → Option (ℕ → Channel)
unfolding send_and_close_to
send_and_close f n r = send_and_close_to (f n) f n r

abbrev pub queue_full : String → PtzResult
queue_full i = record { id = i; success = false; message = "PTZ queue is full" }

abbrev pub noticed : String → Dict String Bool → Dict String Bool
noticed site n = elim (lookup site n) [ none ↦ insert site false n | some _ ↦ n ]

module _ {F : Type 0} where
  unfoldable pub new_ptz_broker : PtzBroker F
  new_ptz_broker = record {
    queues = [];
    notices = [];
    pending = [];
    channels = λ _. empty;
    made = 0;
  }

  abbrev pub queue_of : String → PtzBroker F → List (PtzCommand F)
  queue_of site b = elim (lookup site b.queues) [ none ↦ [] | some q ↦ q ]

  -- The oldest command of a full queue is answered, if someone still waits for it.
  unfoldable pub drop_command : PtzCommand F → PtzBroker F → Option (PtzBroker F)
  drop_command c b = elim (lookup c.id b.pending) [
    | none ↦ some b
    | some p ↦ elim (send_and_close b.channels p.channel (queue_full c.id)) [
      | none ↦ none
      | some f ↦ some (record b { pending = erase c.id b.pending; channels = f })
    ]
  ]

  -- The queue that the new command joins, and the broker once an old one was dropped.
  unfoldable pub make_room :
      List (PtzCommand F) → PtzBroker F → Option (List (PtzCommand F) × PtzBroker F)
  make_room [] b = some ([], b)
  make_room (c ∷ rest) b =
      if leb queue_limit (length (c ∷ rest))
      then (elim (drop_command c b) [ none ↦ none | some b' ↦ some (rest, b') ])
      else some (c ∷ rest, b)

  -- enqueue: the channel of the result, and the broker.
  unfoldable pub enqueue : String → PtzCommand F → PtzBroker F → Option (ℕ × PtzBroker F)
  enqueue site c b =
      let n = b.made in
      let b' : PtzBroker F = record b {
        pending = insert c.id (record { site_id = site; channel = n }) b.pending;
        channels = set_at b.channels n empty;
        made = suc n;
      } in
      elim (make_room (queue_of site b) b') [
        | none ↦ none
        | some (q, b'') ↦ some (
          n,
          record b'' {
            queues = insert site (q ++ c ∷ []) b''.queues;
            notices = insert site true b''.notices;
          },
        )
      ]

  -- resolve: was the result accepted?
  unfoldable pub resolve : String → PtzResult → PtzBroker F → Option (Bool × PtzBroker F)
  resolve site r b = elim (lookup r.id b.pending) [
    | none ↦ some (false, b)
    | some p ↦
        if not (p.site_id == site)
        then some (false, b)
        else (elim (send_and_close b.channels p.channel r) [
          | none ↦ none
          | some f ↦ some (true, record b { pending = erase r.id b.pending; channels = f })
        ])
  ]

  unfoldable pub abandon : String → PtzBroker F → PtzBroker F
  abandon i b = record b { pending = erase i b.pending }

  -- noticeLocked
  abbrev pub notice_of : String → PtzBroker F → PtzBroker F
  notice_of site b = record b { notices = noticed site b.notices }

  unfoldable pub take_first :
      String → List (PtzCommand F) → PtzBroker F → Option (PtzCommand F) × PtzBroker F
  take_first site [] b = (none, notice_of site b)
  take_first site (c ∷ rest) b = (some c, record b { queues = insert site rest b.queues })

  -- One round of `next` under the mutex; `none` goes on to wait for the notice.
  unfoldable pub next : String → PtzBroker F → Option (PtzCommand F) × PtzBroker F
  unfolding take_first
  next site b = take_first site (queue_of site b) b

  -- The wait of `next` ends by the notice: the token is taken, and the next round begins.
  unfoldable pub take_notice : String → PtzBroker F → Option (PtzBroker F)
  take_notice site b = elim (lookup site b.notices) [
    | none ↦ none
    | some false ↦ none
    | some true ↦ some (record b { notices = insert site false b.notices })
  ]
