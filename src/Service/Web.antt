-- ===== src/Service/Web.antt =====
-- Code of the web services: from a state to a value and a state, or to an early return of an error
-- response, which has no data.
use netwingfs.Prelude.{ℕ, Bool, true, false, Option, none, some, List, [], ◌∷◌, ◌++◌, not, ◌||◌}
use netwingfs.Prelude.Bytes.{Bytes}
use netwingfs.Prelude.Int.{ℤ, pos, leb_ℤ}
use netwingfs.Database.Model.{User}
use netwingfs.Database.Permission.{node, has_permission}
use netwingfs.Database.Accounts.{Op, ok, err, Accounts, get_user_by_uid}
use netwingfs.Service.Email.{EmailService}
use netwingfs.Service.Response.{
  ApiStatus, ApiResponse, new_api_response, error_status, unsatisfied, err_no_permission,
}

-- `AuditLog`; `old_value` and `new_value` are the change's details.
pub record AuditLog : Type 0 where
  pub event_type : Bytes
  pub subject : ℤ
  pub object : Bytes
  pub ip : Bytes
  pub user_agent : Bytes
  pub change_details : Option (Bytes × Bytes)

-- What a handler leaves to a goroutine or to the mail server, whose errors are only logged.
pub data Job : Type 0 where
  save_audit_logs : List AuditLog → Job
  permission_change_email : User → User → Job
  rating_change_email : User → User → ℤ → ℤ → Job
  delete_image_file : Bytes → Job

pub record Web (D : Type 0) : Type 0 where
  pub db : D
  pub email : EmailService
  pub jobs : List Job
  pub now : ℕ

pub data Step (D A : Type 0) : Type 0 where
  done : A → Web D → Step D A
  refused : ApiStatus → Web D → Step D A

abbrev pub W : Type 0 → Type 0 → Type 0
W D A = Web D → Step D A

-- The test of the permissions that a token carries, at the head of many handlers.
unfoldable pub lacks : ℤ → ℕ → Bool
unfolding node has_permission
lacks permission k = leb_ℤ permission (pos 0) || not (has_permission permission (node k))

module _ {D A B : Type 0} where
  abbrev pub continue : Step D A → (A → W D B) → Step D B
  continue (done a w) f = f a w
  continue (refused e w) f = refused e w

  infixl 5 ◌>>=◌
  unfoldable pub ◌>>=◌ : W D A → (A → W D B) → W D B
  ◌>>=◌ m f w = continue (m w) f

module _ {D B : Type 0} where
  infixl 5 ◌>>◌
  abbrev pub ◌>>◌ : W D (Unit {0}) → W D B → W D B
  m >> k = m >>= λ _. k

module _ {D A : Type 0} where
  unfoldable pub pure : A → W D A
  pure a w = done a w

  -- `return NewApiResponse(&e, Unsatisfied, nil)`.
  unfoldable pub refuse : ApiStatus → W D A
  refuse e w = refused e w

  unfoldable pub gets : (Web D → A) → W D A
  gets f w = done (f w) w

  -- An operation that writes to the database.
  unfoldable pub with_db : (D → A × D) → W D A
  with_db f w = let (a, d) = f w.db in done a (record w { db = d })

  -- The response of a handler, with the status of its last return.
  unfoldable pub respond : ApiStatus → Step D A → ApiResponse A × Web D
  unfolding new_api_response
  respond success (done a w) = (new_api_response success unsatisfied (some a), w)
  respond success (refused e w) = (new_api_response e unsatisfied none, w)

  -- `CallDBFuncAndCheckError`, of what the operation answers.
  unfoldable pub check_error : Op A → W D A
  unfolding error_status
  check_error (ok a) w = done a w
  check_error (err e) w = refused (error_status e) w

module _ {D : Type 0} where
  unfoldable pub start : Job → W D (Unit {0})
  start job w = done tt (record w { jobs = w.jobs ++ job ∷ [] })

  -- `if b { … }` with no value.
  unfoldable pub when : Bool → W D (Unit {0}) → W D (Unit {0})
  when true m w = m w
  when false m w = done tt w

  -- `if b { return NewApiResponse(&e, Unsatisfied, nil) }`.
  unfoldable pub refuse_if : Bool → ApiStatus → W D (Unit {0})
  refuse_if true e w = refused e w
  refuse_if false e w = done tt w

  -- The same for a check that answers an error or nil.
  unfoldable pub refuse_some : Option ApiStatus → W D (Unit {0})
  refuse_some none w = done tt w
  refuse_some (some e) w = refused e w

module _ {D : Type 0} (accounts : Accounts D) where
  -- `GetUsersAndCheckPermission`: the user and the target.
  unfoldable pub get_users_and_check_permission : ℕ → ℕ → ℕ → W D (User × User)
  unfolding check_error get_user_by_uid has_permission node refuse_if
  get_users_and_check_permission uid target_uid k = do
    first ← gets (λ w. get_user_by_uid accounts uid w.db)
    user ← check_error first
    refuse_if (not (has_permission user.permission (node k))) err_no_permission
    second ← gets (λ w. get_user_by_uid accounts target_uid w.db)
    target ← check_error second
    pure (user, target)
