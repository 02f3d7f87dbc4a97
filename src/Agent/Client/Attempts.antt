-- ===== src/Agent/Client/Attempts.antt =====
-- How UploadPlayback of internal/agent/client.go ends.
use cloud_nvr.Base.{
  ℕ, zero, suc, ◌+◌, ◌-◌, ◌*◌, ◌^◌, ◌≤◌, ◌<◌, ◌≡◌, refl, ap, ◌⊎◌, ◌≢◌, inl, inr, Bool, true, false,
  List, [], ◌∷◌, arith, ltb, Bool-cases, ◌==◌, nat_eq, ltb→lt,
}
use cloud_nvr.Base.Time.{second}
use cloud_nvr.Config.{ℤ}
use cloud_nvr.Agent.Client.{
  Try, seek_failed, bad_request, no_response, broken_body, status, Uploaded, uploaded, stopped,
  failed, Next, finish, again, give_up, judged, Run, after, attempts_from, further, upload_playback,
  ended, delayed, retry_delay,
}

-- The cloud accepts the upload.
abbrev pub Accepts : Try → Type 0
Accepts (status s) = (200 ≤ s) × (s < 300)
Accepts _ = ⊥

-- Another attempt would not help: the request itself cannot be made, or the cloud finds fault with
-- it. A conflict is none: the request may be free again later.
abbrev pub Refuses : Try → Type 0
Refuses seek_failed = Unit
Refuses bad_request = Unit
Refuses (status s) = (400 ≤ s) × (s < 500) × (s ≢ 409)
Refuses _ = ⊥

abbrev pub Retries : Try → Type 0
Retries t = (Accepts t → ⊥) × (Refuses t → ⊥)

finish-Accepts : (t : Try) → judged t ≡ finish → Accepts t
unfolding judged
finish-Accepts seek_failed h = cc
finish-Accepts bad_request h = cc
finish-Accepts no_response h = cc
finish-Accepts broken_body h = cc
finish-Accepts (status s) h = (ground (arith, h), ground (arith, h))

give_up-Refuses : (t : Try) → judged t ≡ give_up → Refuses t
unfolding judged
give_up-Refuses seek_failed h = tt
give_up-Refuses bad_request h = tt
give_up-Refuses no_response h = cc
give_up-Refuses broken_body h = cc
give_up-Refuses (status s) h = (ground (arith, h), ground (arith, h), λ e. ground (arith, h, e))

again-Retries : (t : Try) → judged t ≡ again → Retries t
unfolding judged
again-Retries seek_failed h = cc
again-Retries bad_request h = cc
again-Retries no_response h = ((λ a. a), (λ a. a))
again-Retries broken_body h = ((λ a. a), (λ a. a))
again-Retries (status s) h =
    ((λ (a, b). ground (arith, h, a, b)), (λ (a, b, n). ground (arith, h, a, b, n)))

-- The attempts from one number to before another are all worth another one, with time to wait.
abbrev pub Persists : (ℕ → Try) → (ℕ → Bool) → ℕ → ℕ → Type 0
Persists tried stops from end = (j : ℕ) → from ≤ j → j < end → Retries (tried j) × (stops j ≡ false)

-- How a run ends at an attempt, of which `left` more would be allowed.
abbrev pub EndsBy : (ℕ → Try) → (ℕ → Bool) → ℕ → ℕ → Uploaded → Type 0
EndsBy tried stops last n uploaded = Accepts (tried n)
EndsBy tried stops last n stopped = Retries (tried n) × (n < last) × (stops n ≡ true)
EndsBy tried stops last n (failed t) =
    (t ≡ tried n) × (Refuses (tried n) ⊎ Retries (tried n) × (n ≡ last))

-- The delays after so many attempts, each twice the one before.
abbrev pub delays_from : ℕ → ℕ → List ℕ
delays_from zero attempt = []
delays_from (suc n) attempt = 2 ^ (attempt - 1) * second ∷ delays_from n (suc attempt)

pub record Ends (tried : ℕ → Try) (stops : ℕ → Bool) (from last : ℕ) (r : Run) : Type 0 where
  pub first : from ≤ r.tries
  pub within : r.tries ≤ last
  pub before : Persists tried stops from r.tries
  pub why : EndsBy tried stops last r.tries r.outcome
  pub paced : r.delays ≡ delays_from (r.tries - from) from

module _ (tried : ℕ → Try) (stops : ℕ → Bool) where
  stops_at :
      (last n : ℕ) (o : Uploaded)
      → n ≤ last
      → EndsBy tried stops last n o
      → Ends tried stops n last (ended o n)
  stops_at last n o le why = record {
    first = omega arith;
    within = le;
    before = λ j ge lt. absurd (omega (arith, ge, lt));
    why = why;
    paced = let none_left : n - n ≡ 0 = omega arith in rw none_left refl;
  }

  goes_on :
      (last n : ℕ) (r : Run)
      → Retries (tried n)
      → stops n ≡ false
      → Ends tried stops (suc n) last r
      → Ends tried stops n last (delayed (retry_delay n) r)
  goes_on last n r e s h = record {
    first = omega (arith, h.first);
    within = h.within;
    before = λ j ge lt. elim (Bool-cases (j == n)) [
      | inl q ↦ let same = (nat_eq.beq_iff j n).0 q in rw same (e, s)
      | inr q ↦ h.before j (ground (arith, q, ge)) lt
    ];
    why = h.why;
    paced =
        let one_more : r.tries - n ≡ suc (r.tries - suc n) = omega (arith, h.first) in
        rw one_more (ap (λ l. retry_delay n ∷ l) h.paced);
  }

  after-Ends :
      (x : Next) (left n last : ℕ) (b : Bool) (rest : Run)
      → judged (tried n) ≡ x
      → stops n ≡ b
      → n + left ≡ last
      → (0 < left → Ends tried stops (suc n) last rest)
      → Ends tried stops n last (after x (tried n) left n b rest)
  after-Ends finish left n last b rest e s l h =
      stops_at last n uploaded (omega (arith, l)) (finish-Accepts (tried n) e)
  after-Ends give_up left n last b rest e s l h =
      stops_at last n (failed (tried n)) (omega (arith, l))
        (refl, inl (give_up-Refuses (tried n) e))
  after-Ends again zero n last b rest e s l h =
      stops_at last n (failed (tried n)) (omega (arith, l))
        (refl, inr (again-Retries (tried n) e, omega (arith, l)))
  after-Ends again (suc left) n last true rest e s l h =
      stops_at last n stopped (omega (arith, l)) (again-Retries (tried n) e, omega (arith, l), s)
  after-Ends again (suc left) n last false rest e s l h =
      goes_on last n rest (again-Retries (tried n) e) s (h (omega arith))

  attempts-Ends :
      (left n last : ℕ)
      → n + left ≡ last
      → Ends tried stops n last (attempts_from tried stops left n)
  unfolding attempts_from
  attempts-Ends zero n last e =
      after-Ends (judged (tried n)) zero n last (stops n) _ refl refl e
        (λ p. absurd (omega (arith, p)))
  attempts-Ends (suc left) n last e =
      after-Ends (judged (tried n)) (suc left) n last (stops n) _ refl refl e
        (λ _. attempts-Ends left (suc n) last (omega (arith, e)))

-- UploadPlayback always ends, after at most as many attempts as it may make and at least one. Each
-- attempt before the last met no answer or one worth another attempt, and was followed by its
-- delay; the last one was accepted by the cloud, or could not be repaired by another one, or was
-- the last that it may make, or was the one in whose delay the context ended. The delays double
-- from one second on.
pub upload_playback-Ends :
    (tried : ℕ → Try) (stops : ℕ → Bool) (attempts : ℤ)
    → Ends tried stops 1 (1 + further attempts) (upload_playback tried stops attempts)
unfolding upload_playback
upload_playback-Ends tried stops attempts =
    attempts-Ends tried stops (further attempts) 1 (1 + further attempts) refl

not_both : (t : Try) → Accepts t → Refuses t → ⊥
not_both seek_failed a r = a
not_both bad_request a r = a
not_both no_response a r = a
not_both broken_body a r = a
not_both (status s) (a, b) (c, d, e) = omega (arith, a, b, c)

ends_good :
    (tried : ℕ → Try) (stops : ℕ → Bool) (last n : ℕ) (o : Uploaded)
    → Accepts (tried n)
    → EndsBy tried stops last n o
    → o ≡ uploaded
ends_good tried stops last n uploaded g h = refl
ends_good tried stops last n stopped g (e, _, _) = absurd (e.0 g)
ends_good tried stops last n (failed t) g (_, inl e) = absurd (not_both (tried n) g e)
ends_good tried stops last n (failed t) g (_, inr (e, _)) = absurd (e.0 g)

ends_early :
    (tried : ℕ → Try) (stops : ℕ → Bool) (last n : ℕ) (o : Uploaded)
    → Retries (tried n)
    → stops n ≡ false
    → n < last
    → EndsBy tried stops last n o
    → ⊥
ends_early tried stops last n uploaded e s l h = e.0 h
ends_early tried stops last n stopped e s l (_, _, h) = cc
ends_early tried stops last n (failed t) e s l (_, inl h) = e.1 h
ends_early tried stops last n (failed t) e s l (_, inr (_, h)) = omega (arith, h, l)

-- The upload succeeds at the first attempt that the cloud accepts, if each attempt before it is
-- worth another one and the context lasts.
pub upload_playback-succeeds :
    (tried : ℕ → Try) (stops : ℕ → Bool) (attempts : ℤ) (k : ℕ)
    → 1 ≤ k
    → k ≤ 1 + further attempts
    → Persists tried stops 1 k
    → Accepts (tried k)
    → ((upload_playback tried stops attempts).outcome ≡ uploaded)
      × ((upload_playback tried stops attempts).tries ≡ k)
upload_playback-succeeds tried stops attempts k ge le persists good =
    let r = upload_playback tried stops attempts in
    let h = upload_playback-Ends tried stops attempts in
    let not_before : k ≤ r.tries = elim (Bool-cases (ltb r.tries k)) [
      | inl early ↦
          let lt = ltb→lt r.tries k early in
          let (e, s) = persists r.tries h.first lt in
          absurd (
            ends_early tried stops (1 + further attempts) r.tries r.outcome e s
              (omega (arith, lt, le)) h.why)
      | inr late ↦ ground (arith, late)
    ] in
    let not_after : r.tries ≤ k = elim (Bool-cases (ltb k r.tries)) [
      | inl late ↦ let (e, s) = h.before k ge (ltb→lt k r.tries late) in absurd (e.0 good)
      | inr early ↦ ground (arith, early)
    ] in
    let same : r.tries ≡ k = omega (arith, not_before, not_after) in
    (ends_good tried stops (1 + further attempts) r.tries r.outcome (rw same good) h.why, same)
