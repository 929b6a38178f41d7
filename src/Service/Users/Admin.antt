-- ===== src/Service/Users/Admin.antt =====
-- internal/http_server/service/user.go: the lists of users, and the changes of a user's permissions
-- and rating by another user.
use netwingfs.Prelude.{
  ℕ, Bool, true, false, not, ◌||◌, Option, none, some, List, [], ◌∷◌, ◌++◌, ◌==◌, ◌⊎◌, inl, inr,
  if◌then◌else◌,
}
use netwingfs.Prelude.Bytes.{Bytes, codes}
use netwingfs.Prelude.Int.{ℤ, pos, leb_ℤ, ltb_ℤ, eq_ℤ, pos_part, negsuc}
use netwingfs.Utils.Format.{show_int, show_padded}
use netwingfs.Database.Model.{User}
use netwingfs.Database.Permission.{
  user_show_list, user_edit_permission, user_edit_rating, has_permission, node, permission_map,
  grant, revoke,
}
use netwingfs.Database.Accounts.{
  get_users, get_controllers, update_user_permission, update_user_rating, Op,
}
use netwingfs.Service.Response.{
  ApiStatus, status, bad_request, err_illegal_param, err_no_permission, err_database_fail,
}
use netwingfs.Service.Web.{
  W, AuditLog, ◌>>=◌, ◌>>◌, pure, gets, with_db, check_error, refuse_if, refuse, start, when, lacks,
  get_users_and_check_permission, save_audit_logs, permission_change_email, rating_change_email,
}
use netwingfs.Service.Users.{UserConfig}

-- The head of a request that is logged.
pub record Request : Type 0 where
  pub uid : ℕ
  pub cid : ℤ
  pub ip : Bytes
  pub user_agent : Bytes

-- A value of the JSON object of a request.
pub data JsonValue : Type 0 where
  json_bool : Bool → JsonValue
  json_other : JsonValue

abbrev pub err_permission_node_not_exists : ApiStatus
err_permission_node_not_exists = status bad_request (codes "PERMISSION_NODE_NOT_EXISTS")

abbrev pub err_same_rating : ApiStatus
err_same_rating = status bad_request (codes "SAME_RATING")

-- The target's permissions and the logs so far.
abbrev pub Changes : Type 0
Changes = ℤ × List AuditLog

abbrev pub change_log : Request → User → Bytes → Bool → AuditLog
change_log req target key value = record {
  event_type = if value then codes "UserPermissionGrant" else codes "UserPermissionRevoke";
  subject = req.cid;
  object = show_padded 4 target.cid ++ (codes "(" ++ (key ++ codes ")"));
  ip = req.ip;
  user_agent = req.user_agent;
  change_details = none;
}

abbrev pub set_node : Bool → ℤ → ℕ → ℤ
set_node true p k = grant p (node k)
set_node false p k = revoke p (node k)

-- One entry of `req.Permissions`, whose name has this place in the map.
unfoldable pub change_node :
    Request → ℤ → User → Bytes → Option ℕ → JsonValue → Changes → Changes ⊎ ApiStatus
unfolding has_permission node grant revoke
change_node req permission target key none value changes = inr err_permission_node_not_exists
change_node req permission target key (some k) (json_bool value) (p, logs) =
    if not (has_permission permission (node k))
    then inr err_no_permission
    else inl (set_node value p k, logs ++ change_log req target key value ∷ [])
change_node req permission target key (some k) json_other (p, logs) =
    if not (has_permission permission (node k))
    then inr err_no_permission
    else inr err_illegal_param

-- The loop over `req.Permissions`, in the order in which the map is walked.
unfoldable pub change_nodes :
    Request → ℤ → User → List (Bytes × JsonValue) → Changes → Changes ⊎ ApiStatus
unfolding change_node permission_map
change_nodes req permission target [] changes = inl changes
change_nodes req permission target ((key, value) ∷ rest) changes =
    elim (change_node req permission target key (permission_map key) value changes) [
      | inl changes' ↦ change_nodes req permission target rest changes'
      | inr e ↦ inr e
    ]

abbrev pub check_changes : {D : Type 0} → Changes ⊎ ApiStatus → W D Changes
check_changes (inl changes) = pure changes
check_changes (inr e) = refuse e

-- A page of users, as it was asked for.
pub record ResponseUserList : Type 0 where
  pub items : List User
  pub page : ℤ
  pub page_size : ℤ
  pub total : ℕ

abbrev pub check_page : {D : Type 0} → Op (List User × ℕ) → W D (List User × ℕ)
check_page (Op.ok page) = pure page
check_page (Op.err e) = refuse err_database_fail

module _ {D : Type 0} (config : UserConfig D) where
  -- `GetUserList` and `GetControllerList` differ in the query.
  abbrev list_with : (ℕ → ℕ → D → Op (List User × ℕ)) → ℤ → ℤ → ℤ → W D ResponseUserList
  list_with query permission page page_size = do
    refuse_if (leb_ℤ page (pos 0) || leb_ℤ page_size (pos 0)) err_illegal_param
    refuse_if (lacks permission user_show_list) err_no_permission
    answer ← gets (λ w. query (pos_part page) (pos_part page_size) w.db)
    found ← check_page answer
    pure (record { items = found.0; page = page; page_size = page_size; total = found.1 })

  -- `GetUserList`.
  unfoldable pub get_user_list : ℤ → ℤ → ℤ → W D ResponseUserList
  unfolding lacks get_users
  get_user_list = list_with (get_users config.accounts)

  -- `GetControllerList`.
  unfoldable pub get_controller_list : ℤ → ℤ → ℤ → W D ResponseUserList
  unfolding lacks get_controllers
  get_controller_list = list_with (get_controllers config.accounts)

  -- `EditUserPermission`.
  unfoldable pub edit_user_permission : Request → ℕ → List (Bytes × JsonValue) → W D User
  unfolding get_users_and_check_permission change_nodes update_user_permission
  edit_user_permission req target_uid permissions = do
    refuse_if (req.uid == 0) err_illegal_param
    both ← get_users_and_check_permission config.accounts req.uid target_uid user_edit_permission
    let (user, target) = both
    changes ←
        check_changes (change_nodes req user.permission target permissions (target.permission, []))
    let (permission, logs) = changes
    updated ← with_db (λ d. update_user_permission config.accounts target permission d)
    target' ← check_error updated
    when config.enable_permission_change_email (start (permission_change_email target' user))
    start (save_audit_logs logs)
    pure target'

  -- `EditUserRating`, for a rating from `Ban` to `Administrator`.
  unfoldable pub edit_user_rating : (ℤ → Bytes) → Request → ℕ → ℤ → W D User
  unfolding get_users_and_check_permission update_user_rating
  edit_user_rating rating_string req target_uid rating = do
    refuse_if (req.uid == 0 || (ltb_ℤ rating (negsuc 0) || ltb_ℤ (pos 12) rating)) err_illegal_param
    both ← get_users_and_check_permission config.accounts req.uid target_uid user_edit_rating
    let (user, target) = both
    let old_rating = target.rating
    refuse_if (eq_ℤ old_rating rating) err_same_rating
    updated ← with_db (λ d. update_user_rating config.accounts target rating d)
    target' ← check_error updated
    start (
        save_audit_logs (
          record {
            event_type = codes "UserRatingChange";
            subject = req.cid;
            object = show_int target'.cid;
            ip = req.ip;
            user_agent = req.user_agent;
            change_details = some (rating_string old_rating, rating_string rating);
          }
          ∷ []))
    when config.enable_rating_change_email
        (start (rating_change_email target' user old_rating rating))
    pure target'
