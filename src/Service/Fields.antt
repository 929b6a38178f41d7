-- ===== src/Service/Fields.antt =====
-- internal/http_server/service/field.go: the limits on the length of a text and on a number.
pub mod Admits
use netwingfs.Prelude.{Option, none, some, length, if◌then◌else◌}
use netwingfs.Prelude.Bytes.{Bytes, codes}
use netwingfs.Prelude.Int.{ℤ, pos, ltb_ℤ}
use netwingfs.Config.Limits.{HttpServerLimit}
use netwingfs.Service.Response.{ApiStatus, status, bad_request}

pub record FieldValidator : Type 0 where
  pub min : ℤ
  pub max : ℤ
  pub err_short : ApiStatus
  pub err_long : ApiStatus

-- `CheckInt`.
unfoldable pub check_int : FieldValidator → ℤ → Option ApiStatus
check_int v value =
    if ltb_ℤ v.max value
    then some v.err_long
    else if ltb_ℤ value v.min
    then some v.err_short
    else none

-- `CheckString`.
unfoldable pub check_string : FieldValidator → Bytes → Option ApiStatus
check_string v value =
    let size = pos (length value) in
    if ltb_ℤ v.max size
    then some v.err_long
    else if ltb_ℤ size v.min
    then some v.err_short
    else none

pub record Validators : Type 0 where
  pub username_validator : FieldValidator
  pub password_validator : FieldValidator
  pub email_validator : FieldValidator
  pub cid_validator : FieldValidator

-- `InitValidator`.
unfoldable pub init_validator : HttpServerLimit → Validators
init_validator config = record {
  username_validator = record {
    min = config.username_length_min;
    max = config.username_length_max;
    err_short = status bad_request (codes "USERNAME_TOO_SHORT");
    err_long = status bad_request (codes "USERNAME_TOO_LONG");
  };
  password_validator = record {
    min = config.password_length_min;
    max = config.password_length_max;
    err_short = status bad_request (codes "PASSWORD_TOO_SHORT");
    err_long = status bad_request (codes "PASSWORD_TOO_LONG");
  };
  email_validator = record {
    min = config.email_length_min;
    max = config.email_length_max;
    err_short = status bad_request (codes "EMAIL_TOO_SHORT");
    err_long = status bad_request (codes "EMAIL_TOO_LONG");
  };
  cid_validator = record {
    min = config.cid_min;
    max = config.cid_max;
    err_short = status bad_request (codes "CID_TOO_SHORT");
    err_long = status bad_request (codes "CID_TOO_LONG");
  };
}
