-- ===== src/Store/Examples.antt =====
-- Small tables, and what the theorems say of them: internal/store/store.go.
use cloud_nvr.Base.{◌≡◌, refl, true, false, none, some, List, [], ◌∷◌, arith, nat_eq, string_eq}
use cloud_nvr.Store.Recordings.{Recording, Row, row_of}
use cloud_nvr.Store.Enrollment.{Tables, ok, not_found, failed, Faults, use_token, enroll_agent}
use cloud_nvr.Store.Enrollment.OneTime.{enroll_once}
use cloud_nvr.Store.Devices.{Devices, use_pairing, has_session, claim_mobile_pairing}
use cloud_nvr.Store.Devices.Pairing.{claim_once}
use cloud_nvr.Domain.{access_agent, mode_manual, transfer_none}
use cloud_nvr.Store.Cameras.{Camera, set_manual_recording}
use cloud_nvr.Store.Cameras.Updates.{set_manual_unchanged}

abbrev clip : Recording
clip = record {
  id = "r1";
  camera_id = "cam";
  source = "agent";
  storage_key = "a.mp4";
  checksum = "";
  started_at = 1;
  ended_at = some 2;
  size_bytes = 10;
  event_type = "";
}

abbrev grown : Recording
grown = record clip { id = "r2"; size_bytes = 20 }

abbrev indexed : List Row
indexed = row_of clip none ∷ []

abbrev no_faults : Faults
no_faults = record { begin = false; first = false; second_one = false; commit = false }

abbrev broken : Faults
broken = record no_faults { second_one = true }

abbrev sites : Tables
sites = record {
  sites =
      record {
        id = "north";
        name = "North";
        location = "";
        default_recording_mode = "continuous";
        enrollment_token_hash = "h";
        enrollment_used_at = none;
      }
      ∷ [];
  agents = [];
}

broken_run : (enroll_agent broken 5 "a1" "north" "Agent" "t1" "h" sites).0 ≡ failed
unfolding enroll_agent use_token
broken_run = refl

enroll_run : (enroll_agent no_faults 5 "a1" "north" "Agent" "t1" "h" sites).0 ≡ ok
unfolding enroll_agent use_token
enroll_run = refl

enroll_once_example :
    let after = (enroll_agent no_faults 5 "a1" "north" "Agent" "t1" "h" sites).1 in
    enroll_agent no_faults 9 "a2" "north" "Other" "t2" "h" after ≡ (not_found, after)
enroll_once_example =
    enroll_once no_faults no_faults 5 9 "a1" "a2" "north" "Agent" "Other" "t1" "t2" "h" sites
      enroll_run

abbrev devices : Devices
devices = record {
  pairings = record { token_hash = "code"; expires_at = 100; used_at = none } ∷ [];
  sessions = [];
}

claim_run : (claim_mobile_pairing no_faults 5 "code" "d1" "iPhone" 1000 "s1" devices).0 ≡ ok
unfolding claim_mobile_pairing use_pairing has_session
claim_run = refl

broken_claim_run : (claim_mobile_pairing broken 5 "code" "d1" "iPhone" 1000 "s1" devices).0 ≡ failed
unfolding claim_mobile_pairing use_pairing has_session
broken_claim_run = refl

claim_once_example :
    let after = (claim_mobile_pairing no_faults 5 "code" "d1" "iPhone" 1000 "s1" devices).1 in
    claim_mobile_pairing no_faults 9 "code" "d2" "iPad" 1000 "s2" after ≡ (not_found, after)
claim_once_example =
    claim_once no_faults no_faults 5 9 "code" "d1" "d2" "iPhone" "iPad" 1000 1000 "s1" "s2" devices
      (omega arith) claim_run

abbrev signed_in : Devices
signed_in = record devices {
  sessions =
      record {
        id = "d1";
        name = "iPhone";
        token_hash = "s1";
        expires_at = 1000;
        last_seen_at = 5;
        revoked_at = none;
      }
      ∷ [];
}

abbrev camera : Camera
camera = record {
  id = "cam";
  site_id = "north";
  name = "Door";
  stream_url = "";
  access_mode = access_agent;
  recording_mode = mode_manual;
  local_days = 7;
  cloud_days = 30;
  transfer_policy = transfer_none;
  enabled = true;
  manual_recording = true;
  ptz_enabled = false;
  ptz_endpoint = "";
  ptz_username = "";
  ptz_password = none;
}

set_manual_unchanged_example :
    set_manual_recording "cam" true (camera ∷ []) ≡ (not_found, camera ∷ [])
set_manual_unchanged_example = set_manual_unchanged "cam" true (camera ∷ []) ((λ _ _. refl), tt)
