-- ===== src/Server/Examples.antt =====
-- Concrete runs of the middleware and of the tunnel.
use cloud_nvr.Base.{
  ◌*◌, ◌≡◌, refl, ◌≢◌, ◌↔◌, String, ◌<>◌, true, false, none, some, [], ◌∷◌, arith, All,
}
use cloud_nvr.Base.Strokes.{format, parse, parse-format, parse-Int64, format-Without}
use cloud_nvr.Base.Time.{second}
use cloud_nvr.Base.Prefix.{without_prefix}
use cloud_nvr.Store.Enrollment.{
  Agent, no_health, Tables, agent_by_token_hash, mark_stale_agents_offline,
}
use cloud_nvr.Store.Devices.{
  Devices, find_session, noted, device_session_by_token_hash, revoke_device_session,
}
use cloud_nvr.Server.Cookie.{
  Signing, IsFaithful, IsSigned, valid_stream_cookie, valid_stream_cookie_lem, MediaRequest,
  media_auth,
}
use cloud_nvr.Server.Access.{
  Credentials, paired_device, AgentIdentity, admitted, Failures, by_cookie, admin, agent,
}
use cloud_nvr.Server.Access.Entry.{Entitled, admin-Entitled, revoked_refused}
use cloud_nvr.Server.Access.Agents.{agent_stays_online}

abbrev signing : Signing
signing = record { format_int = format; parse_int = parse; mac = λ key payload. "m" }

signing-IsFaithful : IsFaithful signing
signing-IsFaithful = record {
  parse-format = parse-format;
  parse-Int64 = parse-Int64;
  format-Without = λ z _. format-Without b'.' z (omega arith);
  mac-Without = λ key payload. ((λ e. omega (arith, e)), tt);
}

valid_stream_cookie_lem_example :
    (valid_stream_cookie signing "key" 3 (some "piiii.m") ≡ true)
    ↔ IsSigned signing "key" 3 "piiii.m"
valid_stream_cookie_lem_example =
    valid_stream_cookie_lem signing "key" signing-IsFaithful 3 "piiii.m"

abbrev reading : MediaRequest
reading = record { user = ""; password = ""; action = "read"; protocol = "hls"; path = "camera-1" }

reading_allowed : media_auth "u" "p" reading ≡ true
unfolding media_auth without_prefix
reading_allowed = refl

abbrev devices : Devices
devices = record {
  pairings = [];
  sessions =
      record {
        id = "d1";
        name = "iPhone";
        token_hash = "#t";
        expires_at = 1000;
        last_seen_at = 5;
        revoked_at = none;
      }
      ∷ [];
}

abbrev hash : String → String
hash s = "#" <> s

abbrev phone : Credentials
phone = record { authorization = ""; device_cookie = some "t" }

phone_admitted : (admin hash "secret" false 9 phone devices).0 ≡ admitted (paired_device "d1")
unfolding admin by_cookie device_session_by_token_hash find_session noted without_prefix
phone_admitted = refl

admin-Entitled_example : Entitled hash "secret" 9 phone devices (paired_device "d1")
admin-Entitled_example =
    admin-Entitled hash "secret" false 9 phone devices (paired_device "d1") phone_admitted

revoked_refused_example :
    (admin hash "secret" false 9 phone (revoke_device_session 8 "d1" devices).1).0
    ≢ admitted (paired_device "d1")
revoked_refused_example = revoked_refused hash "secret" false 8 9 phone "d1" devices

abbrev row : Agent
row = record {
  id = "a1";
  site_id = "north";
  name = "site-agent";
  token_hash = "#t";
  online = false;
  version = "";
  webrtc_enabled = true;
  health = no_health;
  last_seen_at = 0;
}

abbrev tables : Tables
tables = record { sites = []; agents = row ∷ [] }

abbrev calls : Credentials
calls = record { authorization = "Bearer t"; device_cookie = none }

abbrev no_failures : Failures
no_failures = record { reading = false; touching = false }

abbrev known_agent : AgentIdentity
known_agent = record { agent_id = "a1"; site_id = "north" }

agent_admitted : (agent hash no_failures 7 calls tables).0 ≡ admitted known_agent
unfolding agent agent_by_token_hash without_prefix
agent_admitted = refl

agent_stays_online_example :
    All
      (λ a. a.id ≡ "a1" → a.online ≡ true)
      (mark_stale_agents_offline (50 * second) (agent hash no_failures 7 calls tables).1.agents)
agent_stays_online_example =
    agent_stays_online hash no_failures 7 (50 * second) calls tables known_agent agent_admitted
      (omega arith)
