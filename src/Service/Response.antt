-- ===== src/Service/Response.antt =====
-- internal/interfaces/service/struct.go: what the web services answer. The descriptions, which are
-- only shown, are left out.
use netwingfs.Prelude.{ℕ, ◌+◌, Bool, Option, ◌==◌, if◌then◌else◌}
use netwingfs.Prelude.Bytes.{Bytes, codes}
use netwingfs.Prelude.Int.{ℤ}
use netwingfs.Database.Model.{User}
use netwingfs.Database.Accounts.{
  OpError, user_not_found, identifier_taken, identifier_check, activity_not_found,
  facility_not_found,
}

-- `HttpCode`.
abbrev pub unsatisfied : ℕ
unsatisfied = 0

abbrev pub ok_code : ℕ
ok_code = 200

abbrev pub bad_request : ℕ
bad_request = 400

abbrev pub unauthorized : ℕ
unauthorized = 401

abbrev pub permission_denied : ℕ
permission_denied = 403

abbrev pub not_found : ℕ
not_found = 404

abbrev pub conflict : ℕ
conflict = 409

abbrev pub server_internal_error : ℕ
server_internal_error = 500

pub record ApiStatus : Type 0 where
  pub status_name : Bytes
  pub http_code : ℕ

pub record ApiResponse (A : Type 0) : Type 0 where
  pub http_code : ℕ
  pub code : Bytes
  pub data_field : Option A

abbrev pub status : ℕ → Bytes → ApiStatus
status code name = record { status_name = name; http_code = code }

-- The statuses that several services share.
abbrev pub err_illegal_param : ApiStatus
err_illegal_param = status bad_request (codes "PARAM_ERROR")

abbrev pub err_no_permission : ApiStatus
err_no_permission = status permission_denied (codes "NO_PERMISSION")

abbrev pub err_database_fail : ApiStatus
err_database_fail = status server_internal_error (codes "DATABASE_ERROR")

abbrev pub err_user_not_found : ApiStatus
err_user_not_found = status not_found (codes "USER_NOT_FOUND")

abbrev pub err_activity_not_found : ApiStatus
err_activity_not_found = status not_found (codes "ACTIVITY_NOT_FOUND")

abbrev pub err_facility_not_found : ApiStatus
err_facility_not_found = status not_found (codes "FACILITY_NOT_FOUND")

abbrev pub err_register_fail : ApiStatus
err_register_fail = status server_internal_error (codes "REGISTER_FAIL")

abbrev pub err_identifier_taken : ApiStatus
err_identifier_taken = status bad_request (codes "USER_EXISTS")

-- `NewApiResponse`.
unfoldable pub new_api_response : {A : Type 0} → ApiStatus → ℕ → Option A → ApiResponse A
new_api_response code_status http_code data_field =
    let asked = if http_code == unsatisfied then code_status.http_code else http_code in
    record {
      http_code = if asked == unsatisfied then ok_code else asked;
      code = code_status.status_name;
      data_field = data_field;
    }

-- The status of an error in `CallDBFuncAndCheckError`.
unfoldable pub error_status : OpError → ApiStatus
error_status identifier_check = err_register_fail
error_status identifier_taken = err_identifier_taken
error_status user_not_found = err_user_not_found
error_status activity_not_found = err_activity_not_found
error_status facility_not_found = err_facility_not_found
error_status _ = err_database_fail

-- The configuration of the tokens; `sign` is the signature and the encoding of the claims.
pub record Claims : Type 0 where
  pub uid : ℕ
  pub cid : ℤ
  pub username : Bytes
  pub permission : ℤ
  pub rating : ℤ
  pub flush_token : Bool
  pub issued_at : ℕ
  pub not_before : ℕ
  pub expires_at : ℕ

pub record JwtConfig : Type 0 where
  pub expires_duration : ℕ
  pub refresh_duration : ℕ
  pub sign : Claims → Bytes

-- `NewClaims`, at the time it reads.
unfoldable pub new_claims : JwtConfig → ℕ → User → Bool → Claims
new_claims config now user flush_token = record {
  uid = user.uid;
  cid = user.cid;
  username = user.username;
  permission = user.permission;
  rating = user.rating;
  flush_token = flush_token;
  issued_at = now;
  not_before = now;
  expires_at =
      now
      + (if flush_token
          then config.expires_duration + config.refresh_duration
          else config.expires_duration);
}
