-- ===== src/Service/Users.antt =====
-- internal/http_server/service/user.go: what its handlers share, registration, login and tokens.
pub mod Profile
pub mod Admin
pub mod Authority
pub mod Escalation
pub mod Admission
pub mod Registration
pub mod Drafts
pub mod Passwords
pub mod Owners
pub mod Login
use netwingfs.Prelude.{
  ℕ, ◌+◌, ◌-◌, ◌*◌, Bool, true, false, not, ◌&&◌, ◌||◌, Option, none, some, [], ◌∷◌, ltb, ◌==◌,
  if◌then◌else◌,
}
use netwingfs.Prelude.Bytes.{Bytes, codes}
use netwingfs.Prelude.Int.{ℤ, pos, leb_ℤ, ltb_ℤ}
use netwingfs.Utils.Cast.{str_to_int}
use netwingfs.Database.Model.{User}
use netwingfs.Database.Accounts.{
  Op, ok, err, Accounts, get_user_by_ident, get_user_by_uid, new_user, add_user,
  verify_user_password, is_user_identifier_taken,
}
use netwingfs.Service.Email.{
  EmailConfig, EmailError, email_code_not_found, email_code_expired, invalid_email_code,
  cid_mismatch, verify_code,
}
use netwingfs.Service.Fields.{Validators, check_string, check_int}
use netwingfs.Service.Response.{
  ApiStatus, ApiResponse, status, bad_request, ok_code, err_illegal_param, err_register_fail,
  JwtConfig, new_claims, new_api_response, unsatisfied,
}
use netwingfs.Service.Web.{
  W, Web, Step, ◌>>=◌, ◌>>◌, pure, gets, with_db, respond, check_error, refuse_if, refuse_some,
  refuse,
}

abbrev pub is_empty : Bytes → Bool
is_empty [] = true
is_empty (_ ∷ _) = false

-- What the service is made with; `to_json` is `json.Marshal` of a user, and `blank_user` is
-- `&User{}`.
pub record UserConfig (D : Type 0) : Type 0 where
  pub accounts : Accounts D
  pub jwt : JwtConfig
  pub email : EmailConfig
  pub validators : Validators
  pub enable_permission_change_email : Bool
  pub enable_rating_change_email : Bool
  pub to_json : User → Bytes
  pub blank_user : User

pub record RequestUserRegister : Type 0 where
  pub username : Bytes
  pub email : Bytes
  pub password : Bytes
  pub cid : ℤ
  pub email_code : ℤ

-- `ResponseUserRegister`, `ResponseUserLogin` and `ResponseGetToken`.
pub record ResponseToken : Type 0 where
  pub user : User
  pub token : Bytes
  pub flush_token : Bytes

abbrev pub success_register : ApiStatus
success_register = status ok_code (codes "REGISTER_SUCCESS")

abbrev pub success_login : ApiStatus
success_login = status ok_code (codes "LOGIN_SUCCESS")

abbrev pub err_username_or_password : ApiStatus
err_username_or_password = status bad_request (codes "WRONG_USERNAME_OR_PASSWORD")

-- The cases of `verifyEmailCode`.
unfoldable pub email_status : Option EmailError → Option ApiStatus
email_status (some email_code_not_found) = some (status bad_request (codes "EMAIL_CODE_NOT_FOUND"))
email_status (some email_code_expired) = some (status bad_request (codes "EMAIL_CODE_EXPIRED"))
email_status (some invalid_email_code) = some (status bad_request (codes "EMAIL_CODE_INVALID"))
email_status (some cid_mismatch) = some (status bad_request (codes "CID_NOT_MATCH"))
email_status _ = none

-- `exist, _ := …`.
abbrev pub is_exist : Op Bool → Bool
is_exist (ok b) = b
is_exist (err e) = false

module _ {D : Type 0} (config : UserConfig D) where
  -- `verifyEmailCode`.
  unfoldable pub verify_email_code : Bytes → ℤ → ℤ → W D (Option ApiStatus)
  unfolding email_status verify_code
  verify_email_code email email_code cid w =
      let (answer, codes') = verify_code config.email w.email email email_code cid w.now in
      Step.done (email_status answer) (record w { email = codes' })

  -- The token and the flush token of a user.
  unfoldable pub sign_token : User → Bool → W D Bytes
  unfolding new_claims
  sign_token user flush w = Step.done (config.jwt.sign (new_claims config.jwt w.now user flush)) w

  -- A user that `NewUser` made.
  abbrev pub check_new : Op User → W D User
  check_new (ok user) = pure user
  check_new (err e) = refuse err_register_fail

  -- `UserRegister`, over the salt of the password.
  unfoldable pub user_register : ℕ → RequestUserRegister → W D ResponseToken
  unfolding verify_email_code check_string check_int new_user add_user sign_token
  user_register salt req = do
    refuse_if
        (is_empty req.username
          || (is_empty req.email
              || (is_empty req.password
                  || (leb_ℤ req.cid (pos 0) || ltb_ℤ req.email_code (pos 100000)))))
        err_illegal_param
    verified ← verify_email_code req.email req.email_code req.cid
    refuse_some verified
    refuse_some (check_string config.validators.username_validator req.username)
    refuse_some (check_string config.validators.email_validator req.email)
    refuse_some (check_string config.validators.password_validator req.password)
    refuse_some (check_int config.validators.cid_validator req.cid)
    user ← check_new (new_user config.accounts salt req.username req.email req.cid req.password)
    added ← with_db (add_user config.accounts user)
    user' ← check_error added
    token ← sign_token user' false
    flush_token ← sign_token user' true
    pure (record { user = user'; token = token; flush_token = flush_token })

  -- `UserLogin`.
  unfoldable pub user_login : Bytes → Bytes → W D ResponseToken
  unfolding get_user_by_ident verify_user_password sign_token
  user_login username password = do
    refuse_if (is_empty username || is_empty password) err_illegal_param
    answer ← gets (λ w. get_user_by_ident config.accounts config.blank_user username w.db)
    user ← check_error answer
    refuse_if (not (verify_user_password config.accounts user password)) err_username_or_password
    token ← sign_token user false
    flush_token ← sign_token user true
    pure (record { user = user; token = token; flush_token = flush_token })

  -- `CheckAvailability`: its two successes differ in their name.
  unfoldable pub check_availability : Bytes → Bytes → Bytes → Web D → ApiResponse Bool
  unfolding is_user_identifier_taken str_to_int new_api_response
  check_availability username email cid w =
      let exist =
        is_exist
          (is_user_identifier_taken config.accounts (str_to_int cid (pos 0)) username email w.db) in
      if is_empty username && (is_empty email && is_empty cid)
      then new_api_response err_illegal_param unsatisfied none
      else if exist
      then new_api_response (status ok_code (codes "INFO_NOT_AVAILABILITY")) unsatisfied
          (some (not exist))
      else new_api_response (status ok_code (codes "INFO_AVAILABILITY")) unsatisfied
          (some (not exist))

  -- `GetTokenWithFlushToken`, of a token that carries these claims.
  unfoldable pub get_token_with_flush_token : ℕ → Bool → ℕ → W D ResponseToken
  unfolding get_user_by_uid sign_token
  get_token_with_flush_token uid flush_token expires_at = do
    refuse_if (not flush_token) err_illegal_param
    answer ← gets (λ w. get_user_by_uid config.accounts uid w.db)
    user ← check_error answer
    now ← gets (λ w. w.now)
    flush ←
        if ltb now (expires_at - 2 * config.jwt.expires_duration)
        then pure []
        else sign_token user true
    token ← sign_token user false
    pure (record { user = user; token = token; flush_token = flush })

  -- `GetCurrentProfile`.
  unfoldable pub get_current_profile : ℕ → W D User
  unfolding get_user_by_uid
  get_current_profile uid = do
    answer ← gets (λ w. get_user_by_uid config.accounts uid w.db)
    check_error answer
