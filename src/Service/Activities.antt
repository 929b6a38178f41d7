-- ===== src/Service/Activities.antt =====
-- internal/http_server/service/activity.go, and audit.go's list of logs.
pub mod Guards
use netwingfs.Prelude.{
  ℕ, Bool, true, false, not, ◌&&◌, ◌||◌, Option, none, some, List, [], ◌∷◌, ◌==◌, if◌then◌else◌,
}
use netwingfs.Prelude.Bytes.{Bytes, codes, bytes_eq}
use netwingfs.Prelude.Int.{ℤ, pos, leb_ℤ, ltb_ℤ, pos_part}
use netwingfs.Utils.Format.{show_int}
use netwingfs.Database.Model.{User}
use netwingfs.Database.Permission.{
  activity_show_list, activity_publish, activity_delete, activity_edit, activity_edit_state,
  audit_log_show,
}
use netwingfs.Database.Accounts.{
  Op, ok, err, OpError, Accounts, get_user_by_uid, activity_not_found, rating_not_allowed,
  facility_already_exists, facility_signed, facility_not_signed, activity_already_signed,
  callsign_already_used, activity_unsigned, no_error,
}
use netwingfs.Database.Signups.{
  Activity, ActivityPilot, Signups, StaffedFacility, get_activities, get_activities_page,
  get_activity_by_id, get_facility_by_id, get_activity_pilot_by_id, sign_facility_controller,
  unsign_facility_controller, sign_activity_pilot, unsign_activity_pilot,
}
use netwingfs.Database.Signups.Editing.{
  activity_diff, with_diff, update_activity_info, save_activity, delete_activity,
}
use netwingfs.Service.Response.{
  ApiStatus, status, permission_denied, conflict, err_illegal_param, err_no_permission,
  err_database_fail, err_activity_not_found,
}
use netwingfs.Service.Web.{
  W, Web, Step, AuditLog, ◌>>=◌, ◌>>◌, pure, gets, with_db, check_error, refuse_if, refuse_some,
  refuse, start, when, lacks, save_audit_logs, delete_image_file,
}
use netwingfs.Service.Users.{is_empty}
use netwingfs.Service.Users.Admin.{Request}

-- The statuses of the errors that the handlers tell apart; every other error is the database's.
unfoldable pub join_error : OpError → ApiStatus
join_error rating_not_allowed = status permission_denied (codes "RATING_TOO_LOW")
join_error facility_already_exists = status conflict (codes "FACILITY_ALREADY_EXIST")
join_error facility_signed = status conflict (codes "FACILITY_ALREADY_SIGNED")
join_error _ = err_database_fail

unfoldable pub leave_error : OpError → ApiStatus
leave_error facility_not_signed = status conflict (codes "FACILITY_UNSIGNED")
leave_error _ = err_database_fail

unfoldable pub pilot_join_error : OpError → ApiStatus
pilot_join_error activity_already_signed = status conflict (codes "ALREADY_SIGNED")
pilot_join_error callsign_already_used = status conflict (codes "CALLSIGN_USED")
pilot_join_error _ = err_database_fail

unfoldable pub pilot_leave_error : OpError → ApiStatus
pilot_leave_error activity_unsigned = status conflict (codes "NO_SIGNED")
pilot_leave_error _ = err_database_fail

unfoldable pub delete_error : OpError → ApiStatus
delete_error activity_not_found = err_activity_not_found
delete_error _ = err_database_fail

-- An answer of the database under such a reading of its errors.
unfoldable pub check_with : {D A : Type 0} → (OpError → ApiStatus) → Op A → W D A
check_with reading (ok a) w = Step.done a w
check_with reading (err e) w = Step.refused (reading e) w

pub record ResponseGetActivitiesPage : Type 0 where
  pub items : List Activity
  pub page : ℤ
  pub page_size : ℤ
  pub total : ℕ

pub record ResponseGetAuditLog : Type 0 where
  pub items : List AuditLog
  pub page : ℤ
  pub page_size : ℤ
  pub total : ℕ

abbrev pub activity_log : Request → Bytes → ℕ → Option (Bytes × Bytes) → AuditLog
activity_log req event id details = record {
  event_type = event;
  subject = req.cid;
  object = show_int (pos id);
  ip = req.ip;
  user_agent = req.user_agent;
  change_details = details;
}

-- What the service is made with; `to_json` is `json.Marshal` of an activity.
pub record ActivityConfig (D : Type 0) : Type 0 where
  pub accounts : Accounts D
  pub signups : Signups D
  pub to_json : Activity → Bytes

module _ {D : Type 0} (config : ActivityConfig D) where
  open config use {accounts, signups}

  -- `GetActivities`, over the days before and after the month.
  unfoldable pub get_activities_of : ℕ → ℕ → W D (List Activity)
  unfolding get_activities check_with
  get_activities_of first_day last_day = do
    answer ← gets (λ w. get_activities signups first_day last_day w.db)
    check_with (λ _. err_database_fail) answer

  -- `GetActivitiesPage`.
  unfoldable pub get_page : ℤ → ℤ → ℤ → W D ResponseGetActivitiesPage
  unfolding get_activities_page check_with lacks
  get_page permission page page_size = do
    refuse_if (leb_ℤ page (pos 0) || leb_ℤ page_size (pos 0)) err_illegal_param
    refuse_if (lacks permission activity_show_list) err_no_permission
    answer ← gets (λ w. get_activities_page signups (pos_part page) (pos_part page_size) w.db)
    total ← gets (λ w. signups.count_activities w.db)
    items ← check_with (λ _. err_database_fail) answer
    pure (record { items = items; page = page; page_size = page_size; total = total })

  -- `GetActivityInfo`.
  unfoldable pub get_activity_info : ℕ → W D Activity
  unfolding get_activity_by_id
  get_activity_info id = do
    refuse_if (id == 0) err_illegal_param
    answer ← gets (λ w. get_activity_by_id signups id w.db)
    check_error answer

  -- `AddActivity`.
  unfoldable pub add_activity : Request → ℤ → Activity → W D Activity
  unfolding lacks save_activity check_with
  add_activity req permission activity = do
    refuse_if (lacks permission activity_publish) err_no_permission
    answer ← with_db (save_activity signups (record activity { publisher = req.cid }))
    activity' ← check_with (λ _. err_database_fail) answer
    start (
        save_audit_logs (
          activity_log req (codes "ActivityCreated") activity'.id
            (some ([], config.to_json activity'))
          ∷ []))
    pure activity'

  -- `DeleteActivity`.
  unfoldable pub delete_activity_of : Request → ℤ → ℕ → W D Bool
  unfolding lacks get_activity_by_id delete_activity check_with delete_error
  delete_activity_of req permission id = do
    refuse_if (lacks permission activity_delete) err_no_permission
    answer ← gets (λ w. get_activity_by_id signups id w.db)
    activity ← check_with delete_error answer
    deleted ← with_db (delete_activity signups activity)
    _ ← check_with (λ _. err_database_fail) deleted
    start (save_audit_logs (activity_log req (codes "ActivityDeleted") activity.id none ∷ []))
    pure true

  -- `ControllerJoin`, by an account with this rating in its token.
  unfoldable pub controller_join : ℤ → ℕ → ℕ → W D Bool
  unfolding get_user_by_uid get_facility_by_id sign_facility_controller check_with join_error
  controller_join rating uid facility_id = do
    refuse_if (leb_ℤ rating (pos 1)) (status permission_denied (codes "RATING_TOO_LOW"))
    answer ← gets (λ w. get_user_by_uid accounts uid w.db)
    user ← check_error answer
    fetched ← gets (λ w. get_facility_by_id signups facility_id w.db)
    facility ← check_error fetched
    signed ← with_db (sign_facility_controller signups facility.0 user)
    _ ← check_with join_error signed
    pure true

  -- `ControllerLeave`.
  unfoldable pub controller_leave : ℤ → ℕ → W D Bool
  unfolding get_facility_by_id unsign_facility_controller check_with leave_error
  controller_leave cid facility_id = do
    fetched ← gets (λ w. get_facility_by_id signups facility_id w.db)
    facility ← check_error fetched
    unsigned ← with_db (unsign_facility_controller signups facility cid)
    _ ← check_with leave_error unsigned
    pure true

  -- `PilotJoin`.
  unfoldable pub pilot_join : ℕ → ℤ → Bytes → Bytes → W D Bool
  unfolding sign_activity_pilot check_with pilot_join_error
  pilot_join id cid callsign aircraft_type = do
    signed ← with_db (sign_activity_pilot signups id cid callsign aircraft_type)
    _ ← check_with pilot_join_error signed
    pure true

  -- `PilotLeave`.
  unfoldable pub pilot_leave : ℕ → ℤ → W D Bool
  unfolding unsign_activity_pilot check_with pilot_leave_error
  pilot_leave id cid = do
    unsigned ← with_db (unsign_activity_pilot signups id cid)
    _ ← check_with pilot_leave_error unsigned
    pure true

  -- `EditActivity`, of a request that carries an activity.
  unfoldable pub edit_activity_to : Request → ℤ → Activity → W D Bool
  unfolding lacks get_activity_by_id activity_diff with_diff update_activity_info check_with
      bytes_eq
  edit_activity_to req permission new = do
    refuse_if (lacks permission activity_edit) err_no_permission
    answer ← gets (λ w. get_activity_by_id signups new.id w.db)
    old ← check_error answer
    when
        (not (is_empty new.image_url)
          && (not (bytes_eq new.image_url old.image_url) && not (is_empty old.image_url)))
        (start (delete_image_file old.image_url))
    let info = activity_diff new old
    updated ← with_db (update_activity_info signups (with_diff info old) new info)
    _ ← check_with (λ _. err_database_fail) updated
    start (
        save_audit_logs (
          activity_log req (codes "ActivityUpdated") new.id
            (some (config.to_json old, config.to_json new))
          ∷ []))
    pure true

  -- `EditActivity`.
  unfoldable pub edit_activity_of : Request → ℤ → Option Activity → W D Bool
  unfolding edit_activity_to
  edit_activity_of req permission none = refuse err_illegal_param
  edit_activity_of req permission (some new) = edit_activity_to req permission new

  -- `EditActivityStatus`, to a status from `Open` to `Closed`.
  unfoldable pub edit_activity_status : ℤ → ℕ → ℤ → W D Bool
  unfolding lacks check_with
  edit_activity_status permission id new_status = do
    refuse_if (ltb_ℤ new_status (pos 0) || ltb_ℤ (pos 2) new_status) err_illegal_param
    refuse_if (lacks permission activity_edit_state) err_no_permission
    fine ← with_db (signups.set_activity_status id new_status)
    _ ← check_with (λ _. err_database_fail) (no_error tt fine)
    pure true

  -- `EditPilotStatus`, to a status from `Signed` to `Landing`. It asks for the permission to edit
  -- the status of activities.
  unfoldable pub edit_pilot_status : ℤ → ℕ → ℤ → ℤ → W D Bool
  unfolding lacks get_activity_pilot_by_id check_with
  edit_pilot_status permission id cid new_status = do
    refuse_if (ltb_ℤ new_status (pos 0) || ltb_ℤ (pos 3) new_status) err_illegal_param
    refuse_if (lacks permission activity_edit_state) err_no_permission
    answer ← gets (λ w. get_activity_pilot_by_id signups id cid w.db)
    pilot ← check_error answer
    fine ← with_db (signups.set_pilot_status pilot new_status)
    _ ← check_with (λ _. err_database_fail) (no_error tt fine)
    pure true

-- `GetAuditLogPage`, over what the query of the logs answers.
unfoldable pub get_audit_log_page :
    {D : Type 0} → (ℕ → ℕ → D → Op (List AuditLog × ℕ)) → ℤ → ℤ → ℤ → W D ResponseGetAuditLog
unfolding lacks check_with
get_audit_log_page get_audit_logs permission page page_size = do
  refuse_if (leb_ℤ page (pos 0) || leb_ℤ page_size (pos 0)) err_illegal_param
  refuse_if (lacks permission audit_log_show) err_no_permission
  answer ← gets (λ w. get_audit_logs (pos_part page) (pos_part page_size) w.db)
  found ← check_with (λ _. err_database_fail) answer
  pure (record { items = found.0; page = page; page_size = page_size; total = found.1 })
