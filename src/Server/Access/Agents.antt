-- ===== src/Server/Access/Agents.antt =====
-- Who gets in as an agent, and that a request keeps its agent online: the middleware of
-- internal/cloud/agent_handlers.go with the table of agents in internal/store/store.go.
use cloud_nvr.Base.{
  ℕ, ◌≤◌, ◌+◌, ◌*◌, ◌≡◌, ◌≢◌, inl, inr, String, true, Option, none, some, List, [], ◌∷◌, arith,
  eq_iff, ◌==◌, string_eq, Bool-cases, All, In, here, there,
}
use cloud_nvr.Base.Time.{second}
use cloud_nvr.Store.Enrollment.{
  Agent, Tables, agent_by_token_hash, update_agents, touch_agent_presence,
  mark_stale_agents_offline,
}
use cloud_nvr.Server.Access.{AgentIdentity, admitted, Credentials, bearer, Failures, touched, agent}

abbrev pub Shown : (String → String) → Credentials → AgentIdentity → Agent → Type 0
Shown hash c who a =
    (a.token_hash ≡ hash (bearer c)) × (a.id ≡ who.agent_id) × (a.site_id ≡ who.site_id)

agent_found :
    (h : String) (as' : List Agent) {id site : String}
    → agent_by_token_hash h as' ≡ some (id, site)
    → (a : Agent) × In a as' × (a.token_hash ≡ h) × (a.id ≡ id) × (a.site_id ≡ site)
unfolding agent_by_token_hash
agent_found h [] e = cc
agent_found h (a ∷ as') {id} {site} e = elim (Bool-cases (a.token_hash == h)) [
  | inl t ↦
      let same : ◌≡◌ {A = Option (String × String)} (some (a.id, a.site_id)) (some (id, site)) =
        ground (arith, e, t) in
      (a, here, (eq_iff a.token_hash h).0 t, ground (arith, same), ground (arith, same))
  | inr t ↦
      let (b, i, l, n, m) = agent_found h as' {id = id} {site = site} (ground (arith, e, t)) in
      (b, there i, l, n, m)
]

abbrev Recent : ℕ → String → Agent → Type 0
Recent now id a = a.id ≡ id → (a.online ≡ true) × (now ≤ a.last_seen_at + 30 * second)

touch-Recent :
    (now : ℕ) (id : String) (as' : List Agent)
    → All (Recent now id) (touch_agent_presence now id as')
unfolding touch_agent_presence update_agents
touch-Recent now id [] = tt
touch-Recent now id (a ∷ as') = (λ e. ground (arith, e, eq_iff a.id id), touch-Recent now id as')

stale-online :
    (now later : ℕ) (id : String) (as' : List Agent)
    → later ≤ now + 60 * second
    → All (Recent now id) as'
    → All (λ a. a.id ≡ id → a.online ≡ true) (mark_stale_agents_offline later as')
unfolding mark_stale_agents_offline update_agents
stale-online now later id [] le h = tt
stale-online now later id (a ∷ as') le h =
    (λ e. ground (arith, e, le, h.0), stale-online now later id as' le h.1)

-- What the middleware knows of a request that it lets in as an agent.
pub record Passed (hash : String → String) (now : ℕ) (c : Credentials) (t : Tables)
    (who : AgentIdentity) (after : Tables) : Type 0 where
  pub token : bearer c ≢ ""
  pub row : agent_by_token_hash (hash (bearer c)) t.agents ≡ some (who.agent_id, who.site_id)
  pub tables : after ≡ record t { agents = touch_agent_presence now who.agent_id t.agents }

touched-inv :
    (f : Failures) (now : ℕ) (o : Option (String × String)) (t : Tables) (who : AgentIdentity)
    → (touched f now o t).0 ≡ admitted who
    → (o ≡ some (who.agent_id, who.site_id))
      × ((touched f now o t).1
          ≡ record t { agents = touch_agent_presence now who.agent_id t.agents })
touched-inv f now none t who h = cc
touched-inv f now (some (a, s)) t who h = (ground (arith, h), ground (arith, h))

agent-Passed :
    (hash : String → String) (f : Failures) (now : ℕ) (c : Credentials) (t : Tables)
    (who : AgentIdentity)
    → (agent hash f now c t).0 ≡ admitted who
    → Passed hash now c t who (agent hash f now c t).1
unfolding agent
agent-Passed hash f now c t who h =
    let found = agent_by_token_hash (hash (bearer c)) t.agents in
    let inv = touched-inv f now found t who (ground (arith, h)) in
    record {
      token = ground (arith, h, eq_iff (bearer c) "");
      row = inv.0;
      tables = ground (arith, h, inv.1);
    }

-- The middleware lets a request in as an agent only with the token of a row of that agent.
pub agent-Shown :
    (hash : String → String) (f : Failures) (now : ℕ) (c : Credentials) (t : Tables)
    (who : AgentIdentity)
    → (agent hash f now c t).0 ≡ admitted who
    → (bearer c ≢ "") × (a : Agent) × In a t.agents × Shown hash c who a
unfolding agent
agent-Shown hash f now c t who h =
    let p = agent-Passed hash f now c t who h in
    let (a, i, l, n, m) =
      agent_found (hash (bearer c)) t.agents {id = who.agent_id} {site = who.site_id} p.row in
    (p.token, a, i, (l, n, m))

-- A request that is let in as an agent keeps the agent online: when the stale agents are looked for
-- at any time of the minute after it, each row of the agent stays online.
pub agent_stays_online :
    (hash : String → String) (f : Failures) (now later : ℕ) (c : Credentials) (t : Tables)
    (who : AgentIdentity)
    → (agent hash f now c t).0 ≡ admitted who
    → later ≤ now + 60 * second
    → All
        (λ a. a.id ≡ who.agent_id → a.online ≡ true)
        (mark_stale_agents_offline later (agent hash f now c t).1.agents)
agent_stays_online hash f now later c t who h le =
    let p = agent-Passed hash f now c t who h in
    rw p.tables (
      stale-online now later who.agent_id (touch_agent_presence now who.agent_id t.agents) le
        (touch-Recent now who.agent_id t.agents))
