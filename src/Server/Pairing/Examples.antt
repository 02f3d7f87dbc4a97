-- ===== src/Server/Pairing/Examples.antt =====
-- A telephone is paired with a code.
use cloud_nvr.Base.{◌+◌, ◌*◌, ◌<>◌, false, none, some, [], ◌∷◌, ◌≡◌, refl, arith, eq_iff, string_eq}
use cloud_nvr.Base.Time.{day}
use cloud_nvr.Base.Prefix.{without_prefix}
use cloud_nvr.Store.Enrollment.{Faults}
use cloud_nvr.Store.Devices.{Devices, use_pairing, has_session, claim_mobile_pairing}
use cloud_nvr.Server.Access.{Credentials, paired_device, admitted, admin}
use cloud_nvr.Server.Pairing.{Words, claim_pairing}
use cloud_nvr.Server.Pairing.Paired.{claim_pairing-admitted}

abbrev words : Words
words = record { trim = λ s. s; len = λ s. 5; escape = λ s. s; hash = λ s. "#" <> s }

abbrev fine : Faults
fine = record { begin = false; first = false; second_one = false; commit = false }

abbrev waiting : Devices
waiting = record {
  pairings = record { token_hash = "#code"; expires_at = 50; used_at = none } ∷ [];
  sessions = [];
}

abbrev holder : Credentials
holder = record { authorization = ""; device_cookie = some "t" }

claim_pairing-admitted_example :
    (admin words.hash "secret" false 30 holder
      (claim_pairing words fine 7 8 "code" "" (some "d1") (some "t") waiting).1).0
    ≡ admitted (paired_device "d1")
unfolding claim_pairing claim_mobile_pairing use_pairing has_session without_prefix
claim_pairing-admitted_example =
    claim_pairing-admitted words fine 7 8 "code" "" waiting "d1" "iPhone" (7 + 180 * day) "t" 30
      (omega arith) (some "d1") (some "t") "secret" holder refl (ground (arith, eq_iff "t" ""))
      (ground (arith, eq_iff "" "secret")) refl
