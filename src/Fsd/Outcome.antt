-- ===== src/Fsd/Outcome.antt =====
-- internal/interfaces/fsd/error.go and result.go. The text of `Err`, which only the log shows, is
-- left out.
use netwingfs.Prelude.{ℕ, Bool, true, false}
use netwingfs.Prelude.Bytes.{Bytes, codes}

pub data ClientError : Type 0 where
  command_ok callsign_in_use callsign_invalid syntax source_callsign_invalid auth_fail
        no_callsign_found no_flight_plan invalid_protocol_vision request_level_too_high user_baned :
      ClientError

-- `Index`.
abbrev pub errno_index : ClientError → ℕ
errno_index command_ok = 0
errno_index callsign_in_use = 1
errno_index callsign_invalid = 2
errno_index syntax = 3
errno_index source_callsign_invalid = 4
errno_index auth_fail = 5
errno_index no_callsign_found = 6
errno_index no_flight_plan = 7
errno_index invalid_protocol_vision = 8
errno_index request_level_too_high = 9
errno_index user_baned = 10

-- `String`.
abbrev pub errno_string : ClientError → Bytes
errno_string command_ok = codes "No error"
errno_string callsign_in_use = codes "callsign in use"
errno_string callsign_invalid = codes "Invalid callsign"
errno_string syntax = codes "Syntax error"
errno_string source_callsign_invalid = codes "Invalid source callsign"
errno_string auth_fail = codes "Invalid CID/password"
errno_string no_callsign_found = codes "No such callsign"
errno_string no_flight_plan = codes "No flightplan"
errno_string invalid_protocol_vision = codes "Invalid protocol revision"
errno_string request_level_too_high = codes "Requested level too high"
errno_string user_baned = codes "CID/PID was suspended"

pub record Outcome : Type 0 where
  pub success : Bool
  pub errno : ClientError
  pub fatal : Bool
  pub env : Bytes

-- `ResultSuccess`.
abbrev pub result_success : Outcome
result_success = record { success = true; errno = command_ok; fatal = false; env = codes "" }

-- `ResultError`.
abbrev pub result_error : ClientError → Bool → Bytes → Outcome
result_error errno fatal env = record { success = false; errno = errno; fatal = fatal; env = env }
