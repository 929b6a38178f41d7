-- ===== src/Service/Users/Profile.antt =====
-- internal/http_server/service/user.go: how a profile is edited, by its user or by another.
use netwingfs.Prelude.{
  ℕ, Bool, true, false, not, ◌&&◌, ◌||◌, Option, none, some, [], ◌∷◌, ◌++◌, ◌==◌, if◌then◌else◌,
}
use netwingfs.Prelude.Bytes.{Bytes, codes, bytes_eq, has_prefix}
use netwingfs.Prelude.Int.{ℤ, pos, leb_ℤ, ltb_ℤ, eq_ℤ}
use netwingfs.Utils.Format.{show_int, show_padded}
use netwingfs.Database.Model.{User}
use netwingfs.Database.Permission.{
  user_edit_base_info, user_set_password, user_get_profile, has_permission, node,
}
use netwingfs.Database.Accounts.{
  Op, ok, err, OpError, old_password, user_not_found, UpdateInfo, get_user_by_uid,
  is_user_identifier_taken, update_user_password, update_user_info,
}
use netwingfs.Service.Fields.{check_string}
use netwingfs.Service.Response.{
  ApiStatus, status, bad_request, err_illegal_param, err_user_not_found, err_database_fail,
  err_identifier_taken, err_no_permission,
}
use netwingfs.Service.Web.{
  W, Step, ◌>>=◌, ◌>>◌, pure, gets, with_db, check_error, refuse_if, refuse_some, refuse, start,
  when, lacks, save_audit_logs, delete_image_file,
}
use netwingfs.Service.Users.{UserConfig, is_empty, verify_email_code, is_exist}

pub record RequestUserEditProfile : Type 0 where
  pub id : ℕ
  pub cid : ℤ
  pub username : Bytes
  pub email : Bytes
  pub email_code : ℤ
  pub avatar_url : Bytes
  pub qq : ℤ
  pub origin_password : Bytes
  pub new_password : Bytes

abbrev pub err_origin_password : ApiStatus
err_origin_password = status bad_request (codes "ORIGIN_PASSWORD_ERROR")

abbrev pub positive : ℤ → Bool
positive n = not (leb_ℤ n (pos 0))

-- `checkQQ`.
unfoldable pub check_qq : ℤ → Option ApiStatus
check_qq qq =
    if leb_ℤ (pos 10000) qq && ltb_ℤ qq (pos 100000000000)
    then none
    else some (status bad_request (codes "QQ_INVALID"))

-- Whether a request asks for no change.
unfoldable pub asks_nothing : RequestUserEditProfile → Bool
asks_nothing req =
    is_empty req.username
    && (is_empty req.email
        && (leb_ℤ req.qq (pos 0)
            && (is_empty req.origin_password
                && (is_empty req.new_password && is_empty req.avatar_url))))

-- A user with the columns that are to be updated.
abbrev pub Draft : Type 0
Draft = User × UpdateInfo

abbrev pub no_update : UpdateInfo
no_update = record { username = none; email = none; qq = none; avatar_url = none; password = none }

abbrev pub set_username : RequestUserEditProfile → Draft → Draft
set_username req (user, info) =
    if not (is_empty req.username) && not (bytes_eq req.username user.username)
    then (record user { username = req.username }, record info { username = some req.username })
    else (user, info)

abbrev pub set_email : RequestUserEditProfile → Draft → Draft
set_email req (user, info) =
    if not (is_empty req.email) && not (bytes_eq req.email user.email)
    then (record user { email = req.email }, record info { email = some req.email })
    else (user, info)

abbrev pub qq_avatars : Bytes
qq_avatars = codes "https://q2.qlogo.cn/"

unfoldable pub qq_avatar : ℤ → Bytes
qq_avatar qq = codes "https://q2.qlogo.cn/headimg_dl?dst_uin=" ++ (show_int qq ++ codes "&spec=100")

unfoldable pub set_qq : RequestUserEditProfile → Draft → Draft
unfolding bytes_eq qq_avatar has_prefix
set_qq req (user, info) =
    if positive req.qq && not (eq_ℤ req.qq user.qq)
    then (if is_empty req.avatar_url
          && (is_empty user.avatar_url || has_prefix user.avatar_url qq_avatars)
        then (
          record user { qq = req.qq; avatar_url = qq_avatar req.qq },
          record info { qq = some req.qq; avatar_url = some (qq_avatar req.qq) },
        )
        else (record user { qq = req.qq }, record info { qq = some req.qq }))
    else (user, info)

-- The status of an error of `UpdateUserPassword`, and of one of the other operations.
unfoldable pub password_error : OpError → ApiStatus
password_error user_not_found = err_user_not_found
password_error old_password = err_origin_password
password_error _ = err_database_fail

unfoldable pub user_error : OpError → ApiStatus
user_error user_not_found = err_user_not_found
user_error _ = err_database_fail

module _ {D : Type 0} (config : UserConfig D) where
  -- The checks of the passwords that a request carries.
  unfoldable pub check_passwords : RequestUserEditProfile → Bool → Option ApiStatus
  unfolding check_string
  check_passwords req skip_password_verify =
      if not (is_empty req.origin_password) && not (is_empty req.new_password)
      then check_string config.validators.password_validator req.new_password
      else if not (is_empty req.origin_password) && is_empty req.new_password
      then some (status bad_request (codes "NEW_PASSWORD_REQUIRED"))
      else if is_empty req.origin_password
          && (not (is_empty req.new_password) && not skip_password_verify)
      then some (status bad_request (codes "ORIGIN_PASSWORD_REQUIRED"))
      else none

  -- The checks of the address that a request carries, with the code mailed to it.
  unfoldable pub check_email : RequestUserEditProfile → Bool → W D (Unit {0})
  unfolding check_string verify_email_code
  check_email req skip_email_verify = if is_empty req.email then pure tt else do
    refuse_some (check_string config.validators.email_validator req.email)
    if skip_email_verify then pure tt else do
      refuse_if (leb_ℤ req.email_code (pos 0)) err_illegal_param
      verified ← verify_email_code config req.email req.email_code req.cid
      refuse_some verified

  -- The new avatar; an old one of the site's own is deleted.
  unfoldable pub set_avatar : RequestUserEditProfile → Draft → W D Draft
  unfolding has_prefix
  set_avatar req (user, info) = if is_empty req.avatar_url then pure (user, info) else do
    when (not (is_empty user.avatar_url) && not (has_prefix user.avatar_url qq_avatars))
        (start (delete_image_file user.avatar_url))
    pure (
      record user { avatar_url = req.avatar_url },
      record info { avatar_url = some req.avatar_url },
    )

  unfoldable pub password_set : Draft → Op Bytes → W D Draft
  unfolding password_error
  password_set (user, info) (ok hash) =
      pure (record user { password = hash }, record info { password = some hash })
  password_set draft (err e) = refuse (password_error e)

  unfoldable pub set_password : ℕ → RequestUserEditProfile → Bool → Draft → W D Draft
  unfolding update_user_password password_set
  set_password salt req skip_password_verify (user, info) =
      if not (is_empty req.origin_password) || skip_password_verify
      then password_set (user, info)
          (update_user_password config.accounts salt user req.origin_password req.new_password
            skip_password_verify)
      else pure (user, info)

  -- What an operation answers, where every error but one is the database's.
  unfoldable pub check_edit : {A : Type 0} → Op A → W D A
  unfolding user_error
  check_edit (ok a) w = Step.done a w
  check_edit (err e) w = Step.refused (user_error e) w

  -- `editUserProfile`: the user after the change, and the text of the user before it.
  unfoldable pub edit_user_profile : ℕ → RequestUserEditProfile → Bool → Bool → W D (User × Bytes)
  unfolding asks_nothing check_passwords check_email check_qq check_string check_edit
      get_user_by_uid is_user_identifier_taken set_qq set_avatar set_password update_user_info
  edit_user_profile salt req skip_email_verify skip_password_verify = do
    refuse_if (asks_nothing req) err_illegal_param
    refuse_some (check_passwords req skip_password_verify)
    refuse_some (
        if is_empty req.username
        then none
        else check_string config.validators.username_validator req.username)
    check_email req skip_email_verify
    refuse_some (if positive req.qq then check_qq req.qq else none)
    answer ← gets (λ w. get_user_by_uid config.accounts req.id w.db)
    user ← check_edit answer
    exist ← gets (λ w.
        is_exist (is_user_identifier_taken config.accounts (pos 0) req.username req.email w.db))
    refuse_if ((not (is_empty req.username) || not (is_empty req.email)) && exist)
        err_identifier_taken
    draft ← set_avatar req (set_qq req (set_email req (set_username req (user, no_update))))
    changed ← set_password salt req skip_password_verify draft
    let (user', info) = changed
    updated ← with_db (update_user_info config.accounts user' info)
    _ ← check_edit updated
    pure (user', config.to_json user)

  -- `EditCurrentProfile`.
  unfoldable pub edit_current_profile : ℕ → RequestUserEditProfile → W D User
  unfolding edit_user_profile
  edit_current_profile salt req = do
    result ← edit_user_profile salt req false false
    pure (result.0)

  -- `GetUserProfile`.
  unfoldable pub get_user_profile : ℕ → ℤ → W D User
  unfolding lacks get_user_by_uid
  get_user_profile target_uid permission = do
    refuse_if (target_uid == 0) err_illegal_param
    refuse_if (lacks permission user_get_profile) err_no_permission
    answer ← gets (λ w. get_user_by_uid config.accounts target_uid w.db)
    check_error answer

  -- `EditUserProfile`, by the account `cid` with these permissions in its token. The code reads no
  -- permission of the database.
  unfoldable pub edit_user_profile_of :
      ℕ → ℤ → ℤ → ℕ → Bytes → Bytes → RequestUserEditProfile → W D User
  unfolding lacks edit_user_profile has_permission node
  edit_user_profile_of salt permission cid target_uid ip user_agent req = do
    refuse_if (lacks permission user_edit_base_info) err_no_permission
    result ←
        edit_user_profile salt (record req { id = target_uid }) true
          (has_permission permission (node user_set_password))
    let user = result.0
    let number = show_padded 4 user.cid
    start (
        save_audit_logs (
          record {
            event_type = codes "UserInformationEdit";
            subject = cid;
            object =
                if is_empty req.new_password
                then number
                else number ++ (codes "(" ++ (req.new_password ++ codes ")"));
            ip = ip;
            user_agent = user_agent;
            change_details = some (result.1, config.to_json user);
          }
          ∷ []))
    pure user
