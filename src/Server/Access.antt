-- ===== src/Server/Access.antt =====
-- internal/cloud/server.go and agent_handlers.go: the middleware that says who makes a request, over
-- the tables of the sessions and of the agents. The hash of a token is a parameter.
pub mod Entry
pub mod Agents
use cloud_nvr.Base.{
  ℕ, String, Bool, true, false, Option, none, some, List, ◌==◌, string_eq, if◌then◌else◌,
}
use cloud_nvr.Base.Prefix.{trim_prefix}
use cloud_nvr.Store.Enrollment.{Agent, Tables, agent_by_token_hash, touch_agent_presence}
use cloud_nvr.Store.Devices.{DeviceSession, Devices, device_session_by_token_hash}

-- adminIdentity
pub data AdminIdentity : Type 0 where
  admin_key : AdminIdentity
  paired_device : String → AdminIdentity

-- agentIdentity
pub record AgentIdentity : Type 0 where
  pub agent_id : String
  pub site_id : String

-- What the middleware makes of a request: it goes on, or is answered with 401 or 500.
pub data Access (I : Type 0) : Type 0 where
  admitted : I → Access I
  unauthorized server_error : Access I

-- The two headers that count: Authorization ("" without one) and the cookie of a device.
pub record Credentials : Type 0 where
  pub authorization : String
  pub device_cookie : Option String

abbrev pub bearer : Credentials → String
bearer c = trim_prefix c.authorization "Bearer "

abbrev pub as_device : Option DeviceSession → Access AdminIdentity
as_device none = unauthorized
as_device (some s) = admitted (paired_device s.id)

-- Who asks the database for an agent, and whether the UPDATE of its presence fails.
pub record Failures : Type 0 where
  pub reading : Bool
  pub touching : Bool

abbrev pub touched :
    Failures → ℕ → Option (String × String) → Tables → Access AgentIdentity × Tables
touched f now none t = (unauthorized, t)
touched f now (some (agent, site)) t = if f.touching then (server_error, t) else (
  admitted (record { agent_id = agent; site_id = site }),
  record t { agents = touch_agent_presence now agent t.agents },
)

module _ (hash : String → String) where
  -- The second half of `admin`: a request without the key. `fault` is an error of the database.
  unfoldable pub by_cookie : Bool → ℕ → Option String → Devices → Access AdminIdentity × Devices
  by_cookie fault now none d = (unauthorized, d)
  by_cookie fault now (some token) d =
      if token == ""
      then (unauthorized, d)
      else if fault
      then (server_error, d)
      else (let (found, d') = device_session_by_token_hash now (hash token) d in
          (as_device found, d'))

  -- admin
  unfoldable pub admin : String → Bool → ℕ → Credentials → Devices → Access AdminIdentity × Devices
  admin key fault now c d =
      if bearer c == key then (admitted admin_key, d) else by_cookie fault now c.device_cookie d

  -- agent
  unfoldable pub agent : Failures → ℕ → Credentials → Tables → Access AgentIdentity × Tables
  agent f now c t =
      if bearer c == ""
      then (unauthorized, t)
      else if f.reading
      then (server_error, t)
      else touched f now (agent_by_token_hash (hash (bearer c)) t.agents) t
