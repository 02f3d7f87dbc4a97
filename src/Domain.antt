-- ===== src/Domain.antt =====
-- internal/domain/domain.go: the values of the modes of a camera. In Go they are texts that are
-- checked on their way in; here each is a data type with the text of each value.
use cloud_nvr.Base.{String, Bool, true, false, not, ◌||◌, ◌==◌, string_eq}

-- RecordingMode
pub data RecordingMode : Type 0 where
  mode_local mode_cloud mode_hybrid mode_manual mode_disabled : RecordingMode

-- TransferPolicy
pub data TransferPolicy : Type 0 where
  transfer_all transfer_events transfer_manual transfer_events_and_manual transfer_none :
      TransferPolicy

-- AccessMode
pub data AccessMode : Type 0 where
  access_agent access_direct : AccessMode

abbrev pub mode_text : RecordingMode → String
mode_text mode_local = "local"
mode_text mode_cloud = "cloud"
mode_text mode_hybrid = "hybrid"
mode_text mode_manual = "manual"
mode_text mode_disabled = "disabled"

abbrev pub transfer_text : TransferPolicy → String
transfer_text transfer_all = "all"
transfer_text transfer_events = "events"
transfer_text transfer_manual = "manual"
transfer_text transfer_events_and_manual = "events_and_manual"
transfer_text transfer_none = "none"

abbrev pub access_text : AccessMode → String
access_text access_agent = "agent"
access_text access_direct = "direct"

-- RecordingMode.Valid
unfoldable pub mode_valid : String → Bool
mode_valid m = m == "local" || m == "cloud" || m == "hybrid" || m == "manual" || m == "disabled"

-- TransferPolicy.Valid
unfoldable pub transfer_valid : String → Bool
transfer_valid p =
    p == "all" || p == "events" || p == "manual" || p == "events_and_manual" || p == "none"

-- AccessMode.Valid
unfoldable pub access_valid : String → Bool
access_valid m = m == "agent" || m == "direct"

-- The equality of Go on the texts.
abbrev pub mode_beq : RecordingMode → RecordingMode → Bool
mode_beq a b = mode_text a == mode_text b

abbrev pub policy_beq : TransferPolicy → TransferPolicy → Bool
policy_beq a b = transfer_text a == transfer_text b

abbrev pub access_beq : AccessMode → AccessMode → Bool
access_beq a b = access_text a == access_text b

abbrev pub bool_beq : Bool → Bool → Bool
bool_beq true b = b
bool_beq false b = not b
