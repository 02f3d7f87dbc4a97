-- ===== src/Agent/Client.antt =====
-- internal/agent/client.go: the attempts of UploadPlayback, and the delays of the loops in
-- cmd/agent/main.go that ask the cloud for work.
pub mod Attempts
use cloud_nvr.Base.{
  ℕ, zero, suc, ◌+◌, ◌-◌, ◌*◌, ◌^◌, min, Bool, true, false, not, ◌&&◌, List, [], ◌∷◌, leb, ltb,
  ◌==◌, nat_eq, if◌then◌else◌,
}
use cloud_nvr.Base.Time.{second}
use cloud_nvr.Config.{ℤ, pos, negsuc}

-- What one attempt meets: the file cannot be rewound, the request cannot be made, there is no
-- response or its body breaks off, or the cloud answers with a status.
pub data Try : Type 0 where
  seek_failed bad_request no_response broken_body : Try
  status : ℕ → Try

-- The outcome of UploadPlayback; an error is the one of an attempt.
pub data Uploaded : Type 0 where
  uploaded stopped : Uploaded
  failed : Try → Uploaded

-- What happens after an attempt.
pub data Next : Type 0 where
  finish again : Next
  give_up : Next

-- One round of the loop.
unfoldable pub judged : Try → Next
judged seek_failed = give_up
judged bad_request = give_up
judged no_response = again
judged broken_body = again
judged (status s) =
    if leb 200 s && ltb s 300
    then finish
    else if leb 400 s && ltb s 500 && not (s == 409)
    then give_up
    else again

-- The run of the loop: its outcome, how many attempts it made, and the delays between them.
pub record Run : Type 0 where
  pub outcome : Uploaded
  pub tries : ℕ
  pub delays : List ℕ

abbrev pub retry_delay : ℕ → ℕ
retry_delay attempt = 2 ^ (attempt - 1) * second

abbrev pub delayed : ℕ → Run → Run
delayed d r = record r { delays = d ∷ r.delays }

abbrev pub ended : Uploaded → ℕ → Run
ended o n = record { outcome = o; tries = n; delays = [] }

abbrev pub after : Next → Try → ℕ → ℕ → Bool → Run → Run
after finish t left attempt stops rest = ended uploaded attempt
after give_up t left attempt stops rest = ended (failed t) attempt
after again t zero attempt stops rest = ended (failed t) attempt
after again t (suc left) attempt stops rest =
    if stops then ended stopped attempt else delayed (retry_delay attempt) rest

-- The attempts from a number on, `left` of them after it. `tried n` is what attempt `n` meets, and
-- `stops n` is whether the context ends in the delay after it.
unfoldable pub attempts_from : (ℕ → Try) → (ℕ → Bool) → ℕ → ℕ → Run
attempts_from tried stops zero attempt =
    after (judged (tried attempt)) (tried attempt) zero attempt (stops attempt)
      (ended stopped attempt)
attempts_from tried stops (suc left) attempt =
    let rest = attempts_from tried stops left (suc attempt) in
    after (judged (tried attempt)) (tried attempt) (suc left) attempt (stops attempt) rest

-- `attempts` is at least one.
abbrev pub further : ℤ → ℕ
further (pos n) = n - 1
further (negsuc n) = 0

-- UploadPlayback
unfoldable pub upload_playback : (ℕ → Try) → (ℕ → Bool) → ℤ → Run
upload_playback tried stops attempts = attempts_from tried stops (further attempts) 1

-- The delay of runPlaybackRequests before its next request, after an error or not.
abbrev pub playback_delay : Bool → ℕ → ℕ
playback_delay broke delay = if broke then min (delay * 2) (30 * second) else second

-- The delay of runWebRTCRequests. It waits only for a delay of more than a second.
abbrev pub webrtc_delay : Bool → ℕ → ℕ
webrtc_delay broke delay = if broke then min (delay * 2) (15 * second) else second
