-- ===== src/Server/Sites.antt =====
-- createSite and resetEnrollmentToken of internal/cloud/server.go, enrollAgent and heartbeat of
-- internal/cloud/agent_handlers.go. Ids and tokens come as what crypto/rand gives.
use cloud_nvr.Base.{ℕ, String, Bool, not, ◌||◌, Option, none, some, if◌then◌else◌, ◌==◌, string_eq}
use cloud_nvr.Domain.{mode_valid}
use cloud_nvr.Store.Enrollment.{
  Site, AgentHealth, Tables, Outcome, ok, not_found, failed, Faults, create_site, enroll_agent,
  reset_enrollment_token,
}
use cloud_nvr.Store.Enrollment

-- TrimSpace, TokenHash, and the first thousand bytes of a text.
pub record Texts : Type 0 where
  pub trim : String → String
  pub hash : String → String
  pub cut : String → String

-- The answers: 500, 400, 401, 404, 200; 201 with a site and the token for its agent; 200 with a new
-- token for a site; 201 with the id and the token of an agent.
pub data SiteReply : Type 0 where
  internal_error bad_request bad_credentials no_site fine : SiteReply
  site_created : Site → String → SiteReply
  token_reset : String → String → SiteReply
  enrolled : String → String → SiteReply

abbrev pub created_site :
    Texts
    → Bool
    → String
    → String
    → String
    → Option String
    → Option String
    → Tables
    → SiteReply × Tables
created_site x fault name location mode none token t = (internal_error, t)
created_site x fault name location mode (some id) none t = (internal_error, t)
created_site x fault name location mode (some id) (some token) t =
    let site : Site = record {
      id = id;
      name = name;
      location = location;
      default_recording_mode = mode;
      enrollment_token_hash = x.hash token;
      enrollment_used_at = none;
    } in
    if fault then (internal_error, t) else (site_created site token, create_site site t)

abbrev pub mode_or_hybrid : String → String
mode_or_hybrid mode = if mode == "" then "hybrid" else mode

-- createSite; `fault` is an error of the database.
unfoldable pub create_site_handler :
    Texts
    → Bool
    → String
    → String
    → String
    → Option String
    → Option String
    → Tables
    → SiteReply × Tables
create_site_handler x fault name location mode id token t =
    if x.trim name == "" || not (mode_valid (mode_or_hybrid mode))
    then (bad_request, t)
    else created_site x fault (x.trim name) location (mode_or_hybrid mode) id token t

abbrev pub reset_reply : String → String → Outcome × Tables → SiteReply × Tables
reset_reply site token (ok, t) = (token_reset site token, t)
reset_reply site token (not_found, t) = (no_site, t)
reset_reply site token (failed, t) = (internal_error, t)

-- resetEnrollmentToken
unfoldable pub reset_token : Texts → Bool → String → Option String → Tables → SiteReply × Tables
reset_token x fault site none t = (internal_error, t)
reset_token x fault site (some token) t =
    if fault
    then (internal_error, t)
    else reset_reply site token (reset_enrollment_token site (x.hash token) t)

abbrev pub agent_name : Texts → String → String
agent_name x name = if x.trim name == "" then "site-agent" else name

abbrev pub enrolled_reply : String → String → Outcome × Tables → SiteReply × Tables
enrolled_reply id token (ok, t) = (enrolled id token, t)
enrolled_reply id token (not_found, t) = (bad_credentials, t)
enrolled_reply id token (failed, t) = (internal_error, t)

-- enrollAgent
unfoldable pub enroll :
    Texts
    → Faults
    → ℕ
    → String
    → String
    → String
    → Option String
    → Option String
    → Tables
    → SiteReply × Tables
enroll x f now site credential name none token t = (internal_error, t)
enroll x f now site credential name (some id) none t = (internal_error, t)
enroll x f now site credential name (some id) (some token) t =
    enrolled_reply id token
      (enroll_agent f now id site (agent_name x name) (x.hash token) (x.hash credential) t)

abbrev pub heartbeat_reply : Outcome × Tables → SiteReply × Tables
heartbeat_reply (ok, t) = (fine, t)
heartbeat_reply (_, t) = (internal_error, t)

-- heartbeat, of an agent that the middleware let in.
unfoldable pub report_heartbeat :
    Texts → Bool → ℕ → String → String → Bool → AgentHealth → Tables → SiteReply × Tables
report_heartbeat x fault now agent version webrtc h t =
    if fault
    then (internal_error, t)
    else heartbeat_reply
        (Enrollment.heartbeat now agent version webrtc (record h { message = x.cut h.message }) t)
