-- ===== src/Store/Enrollment.antt =====
-- The tables `sites` and `agents` of internal/store/store.go: enrollment, presence and health.
pub mod OneTime
use cloud_nvr.Base.{
  ℕ, ◌+◌, ◌*◌, String, Bool, true, false, not, ◌&&◌, ◌||◌, Option, none, some, List, [], ◌∷◌, ltb,
  ◌==◌, string_eq, if◌then◌else◌,
}
use cloud_nvr.Base.Time.{second}

pub record Site : Type 0 where
  pub id : String
  pub name : String
  pub location : String
  pub default_recording_mode : String
  pub enrollment_token_hash : String
  pub enrollment_used_at : Option ℕ

-- domain.AgentHealth
pub record AgentHealth : Type 0 where
  pub storage_ok : Bool
  pub storage_total_bytes : ℕ
  pub storage_free_bytes : ℕ
  pub recording_workers : ℕ
  pub relay_workers : ℕ
  pub message : String

-- `online` is whether the column `status` holds 'online'.
pub record Agent : Type 0 where
  pub id : String
  pub site_id : String
  pub name : String
  pub token_hash : String
  pub online : Bool
  pub version : String
  pub webrtc_enabled : Bool
  pub health : AgentHealth
  pub last_seen_at : ℕ

pub record Tables : Type 0 where
  pub sites : List Site
  pub agents : List Agent

-- nil, ErrNotFound, or an error of the database.
pub data Outcome : Type 0 where
  ok not_found failed : Outcome

-- Which statements of a transaction the database fails.
pub record Faults : Type 0 where
  pub begin : Bool
  pub first : Bool
  pub second_one : Bool
  pub commit : Bool

-- CreateSite
unfoldable pub create_site : Site → Tables → Tables
create_site s t = record t { sites = s ∷ t.sites }

abbrev pub is_unused : Option ℕ → Bool
is_unused none = true
is_unused (some _) = false

abbrev pub admits : String → String → Site → Bool
admits site hash s =
    s.id == site && s.enrollment_token_hash == hash && is_unused s.enrollment_used_at

-- The UPDATE of EnrollAgent: did a row change, and the table.
unfoldable pub use_token : ℕ → String → String → List Site → Bool × List Site
use_token now site hash [] = (false, [])
use_token now site hash (s ∷ ss) =
    let (hit, rest) = use_token now site hash ss in
    if admits site hash s
    then (true, record s { enrollment_used_at = some now } ∷ rest)
    else (hit, s ∷ rest)

-- A new row clashes with one that has its id, its site or its token: each column is unique.
abbrev pub clashes : Agent → Agent → Bool
clashes new a = a.id == new.id || a.site_id == new.site_id || a.token_hash == new.token_hash

-- The columns that ON DUPLICATE KEY UPDATE sets.
abbrev pub reenrolled : Agent → Agent → Agent
reenrolled new a = record a {
  id = new.id;
  name = new.name;
  token_hash = new.token_hash;
  online = true;
  version = "";
  webrtc_enabled = false;
  last_seen_at = new.last_seen_at;
}

unfoldable pub insert_agent : Agent → List Agent → List Agent
insert_agent new [] = new ∷ []
insert_agent new (a ∷ as') =
    if clashes new a then reenrolled new a ∷ as' else a ∷ insert_agent new as'

abbrev pub no_health : AgentHealth
no_health = record {
  storage_ok = false;
  storage_total_bytes = 0;
  storage_free_bytes = 0;
  recording_workers = 0;
  relay_workers = 0;
  message = "";
}

abbrev pub new_agent : ℕ → String → String → String → String → Agent
new_agent now id site name hash = record {
  id = id;
  site_id = site;
  name = name;
  token_hash = hash;
  online = true;
  version = "";
  webrtc_enabled = false;
  health = no_health;
  last_seen_at = now;
}

-- EnrollAgent(id, siteID, name, agentTokenHash, enrollmentTokenHash). What is not committed is
-- rolled back.
unfoldable pub enroll_agent :
    Faults → ℕ → String → String → String → String → String → Tables → Outcome × Tables
enroll_agent f now id site name agent_hash hash t =
    if f.begin || f.first
    then (failed, t)
    else (let (hit, sites) = use_token now site hash t.sites in
        if not hit then (not_found, t) else if f.second_one || f.commit then (failed, t) else (
          ok,
          record {
            sites = sites;
            agents = insert_agent (new_agent now id site name agent_hash) t.agents;
          },
        ))

abbrev pub has_site : String → List Site → Bool
has_site site [] = false
has_site site (s ∷ ss) = let rest = has_site site ss in s.id == site || rest

unfoldable pub set_token : String → String → List Site → List Site
set_token site hash [] = []
set_token site hash (s ∷ ss) =
    (if s.id == site
      then record s { enrollment_token_hash = hash; enrollment_used_at = none }
      else s)
    ∷ set_token site hash ss

-- ResetEnrollmentToken
unfoldable pub reset_enrollment_token : String → String → Tables → Outcome × Tables
reset_enrollment_token site hash t =
    if has_site site t.sites
    then (ok, record t { sites = set_token site hash t.sites })
    else (not_found, t)

-- AgentByTokenHash: the agent and its site.
unfoldable pub agent_by_token_hash : String → List Agent → Option (String × String)
agent_by_token_hash hash [] = none
agent_by_token_hash hash (a ∷ as') =
    let rest = agent_by_token_hash hash as' in
    if a.token_hash == hash then some (a.id, a.site_id) else rest

unfoldable pub update_agents : (Agent → Bool) → (Agent → Agent) → List Agent → List Agent
update_agents p f [] = []
update_agents p f (a ∷ as') = (if p a then f a else a) ∷ update_agents p f as'

abbrev pub has_agent : String → List Agent → Bool
has_agent id [] = false
has_agent id (a ∷ as') = let rest = has_agent id as' in a.id == id || rest

-- Heartbeat. NOW(6) makes every matched row a changed one.
unfoldable pub heartbeat : ℕ → String → String → Bool → AgentHealth → Tables → Outcome × Tables
unfolding update_agents
heartbeat now id version webrtc h t =
    if has_agent id t.agents
    then (
      ok,
      record t {
        agents =
            update_agents (λ a. a.id == id)
              (λ a. record a {
                online = true;
                version = version;
                webrtc_enabled = webrtc;
                health = h;
                last_seen_at = now;
              })
              t.agents;
      },
    )
    else (not_found, t)

-- TouchAgentPresence: `last_seen_at < NOW - 30 s`, or not online.
unfoldable pub touch_agent_presence : ℕ → String → List Agent → List Agent
touch_agent_presence now id =
    update_agents (λ a. a.id == id && (not a.online || ltb (a.last_seen_at + 30 * second) now))
      (λ a. record a { online = true; last_seen_at = now })

-- MarkStaleAgentsOffline: `last_seen_at < NOW - 90 s`.
unfoldable pub mark_stale_agents_offline : ℕ → List Agent → List Agent
mark_stale_agents_offline now =
    update_agents (λ a. ltb (a.last_seen_at + 90 * second) now) (λ a. record a { online = false })
