-- ===== src/Store/Enrollment/OneTime.antt =====
-- One-time enrollment: internal/store/store.go.
use cloud_nvr.Base.{
  ℕ, ◌≡◌, refl, ◌≢◌, inl, inr, String, true, false, ◌||◌, some, List, [], ◌∷◌, arith, if◌then◌else◌,
  ◌==◌, nat_eq, string_eq, Bool-cases, ==_refl,
}
use cloud_nvr.Store.Enrollment.{
  Site, Agent, Tables, ok, not_found, failed, Faults, admits, use_token, clashes, insert_agent,
  new_agent, enroll_agent, has_site, set_token, reset_enrollment_token, agent_by_token_hash,
}

use_token_again :
    (now later : ℕ) (site hash : String) (sites : List Site)
    → (use_token later site hash (use_token now site hash sites).1).0 ≡ false
unfolding use_token
use_token_again now later site hash [] = refl
use_token_again now later site hash (s ∷ ss) = elim (Bool-cases (admits site hash s)) [
  | inl e ↦ rw e (ground (arith, use_token_again now later site hash ss))
  | inr e ↦ rw (e, e) (use_token_again now later site hash ss)
]

-- An enrollment that does not succeed, for whatever reason, leaves the tables as they were: the
-- one-time token is not used up by a failure of a later statement.
pub enroll_atomic :
    (f : Faults) (now : ℕ) (id site name agent_hash hash : String) (t : Tables)
    → (enroll_agent f now id site name agent_hash hash t).0 ≢ ok
    → (enroll_agent f now id site name agent_hash hash t).1 ≡ t
unfolding enroll_agent
enroll_atomic f now id site name agent_hash hash t h = ground arith

-- The token of a site that enrolled an agent enrolls no other one there, whatever it is called and whenever it
-- comes: the second call answers that nothing was found, or the error of the database, and
-- changes nothing.
pub enroll_once :
    (f f' : Faults) (now later : ℕ) (id id' site name name' agent_hash agent_hash' hash : String)
    (t : Tables)
    → (enroll_agent f now id site name agent_hash hash t).0 ≡ ok
    → let after = (enroll_agent f now id site name agent_hash hash t).1 in
      enroll_agent f' later id' site name' agent_hash' hash after
      ≡ (if f'.begin || f'.first then failed else not_found, after)
unfolding enroll_agent
enroll_once f f' now later id id' site name name' agent_hash agent_hash' hash t h =
    ground (arith, use_token_again now later site hash t.sites)

insert_agent_found :
    (new : Agent) (agents : List Agent)
    → (site : String) × (agent_by_token_hash new.token_hash (insert_agent new agents)
        ≡ some (new.id, site))
unfolding insert_agent agent_by_token_hash
insert_agent_found new [] = (new.site_id, ground (arith, ==_refl new.token_hash))
insert_agent_found new (a ∷ as') = elim (Bool-cases (clashes new a)) [
  | inl e ↦ rw e (a.site_id, ground (arith, ==_refl new.token_hash))
  | inr e ↦
      let (s, found) = insert_agent_found new as' in
      let other : (a.token_hash == new.token_hash) ≡ false = ground (arith, e) in
      rw e (s, rw (other, found))
]

-- The token of a newly enrolled agent authenticates it, under the identity of the enrollment,
-- also when the site or the identity had an agent before.
pub enroll_authenticates :
    (f : Faults) (now : ℕ) (id site name agent_hash hash : String) (t : Tables)
    → (enroll_agent f now id site name agent_hash hash t).0 ≡ ok
    → let after = (enroll_agent f now id site name agent_hash hash t).1 in
      (found : String) × (agent_by_token_hash agent_hash after.agents ≡ some (id, found))
unfolding enroll_agent
enroll_authenticates f now id site name agent_hash hash t h =
    let (s, found) = insert_agent_found (new_agent now id site name agent_hash) t.agents in
    (s, ground (arith, h, found))

use_token-set_token :
    (now : ℕ) (site hash : String) (sites : List Site)
    → has_site site sites ≡ true
    → (use_token now site hash (set_token site hash sites)).0 ≡ true
unfolding use_token set_token
use_token-set_token now site hash [] h = cc
use_token-set_token now site hash (s ∷ ss) h = elim (Bool-cases (s.id == site)) [
  | inl e ↦ rw e (ground (arith, e, ==_refl hash))
  | inr e ↦ rw (e, e) (use_token-set_token now site hash ss (ground arith))
]

-- A new token for a site that exists is accepted and, when the database fails no statement,
-- enrolls an agent, also on a site whose earlier token was used.
pub reset_reopens :
    (now : ℕ) (id site name agent_hash hash : String) (t : Tables)
    → has_site site t.sites ≡ true
    → let reset = reset_enrollment_token site hash t in
      let no_faults : Faults = record {
        begin = false;
        first = false;
        second_one = false;
        commit = false;
      } in
      (reset.0 ≡ ok) × ((enroll_agent no_faults now id site name agent_hash hash reset.1).0 ≡ ok)
unfolding enroll_agent reset_enrollment_token
reset_reopens now id site name agent_hash hash t h =
    rw h (refl, ground (arith, use_token-set_token now site hash t.sites h))
