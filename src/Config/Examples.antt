-- ===== src/Config/Examples.antt =====
-- The settings of an environment with what is required: internal/config/config.go.
use cloud_nvr.Base.{ℕ, String, false, Option, none, some, ◌==◌, string_eq, if◌then◌else◌, ◌≡◌, refl}
use cloud_nvr.Config.{
  ℤ, pos, Environment, Ensures, ok, ◌>>=◌, at_least, check, value, byte_size_from_env,
  non_negative_byte_size_from_env,
}
use cloud_nvr.Config.Cloud.{cloud_settings, cloud_from_env}
use cloud_nvr.Config.Bounds.{IsAcceptedCloud, cloud_bounds}

abbrev getenv : String → String
getenv name =
    if name == "DATABASE_DSN"
    then "nvr@tcp(db)/nvr"
    else if name == "ADMIN_API_KEY"
    then "key"
    else if name == "CAMERA_ENCRYPTION_KEY"
    then "secret"
    else ""

abbrev durations : String → Option ℤ
durations s =
    if s == "1m"
    then some (pos 60_000_000_000)
    else if s == "6h"
    then some (pos 21_600_000_000_000)
    else none

abbrev env : Environment ℕ
env = record {
  getenv = getenv;
  parse_duration = durations;
  parse_int = λ _. none;
  parse_uint = λ _. none;
  parse_bool = λ _. some false;
  parse_float = λ _. some 8;
  is_negative = λ _. false;
  parse_url =
      λ _. some (record { scheme = "https"; host = "nvr.example"; hostname = "nvr.example" });
  contains_colon = λ _. false;
  is_localhost = λ _. false;
  parse_ip = λ _. none;
}

cloud_run :
    cloud_from_env env
    ≡ ok (
        cloud_settings env 60_000_000_000 21_600_000_000_000 10_737_418_240 2_147_483_648
          5_368_709_120)
unfolding cloud_from_env ◌>>=◌ at_least check value byte_size_from_env
    non_negative_byte_size_from_env
cloud_run = refl

cloud_bounds_example : Ensures (IsAcceptedCloud env) (cloud_from_env env)
cloud_bounds_example = cloud_bounds env
