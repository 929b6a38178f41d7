-- ===== src/Service/Users/Escalation.antt =====
-- The changes of permissions and ratings, from the request to the database.
use mathlib.Core.Path.{subst}
use netwingfs.Prelude.{ℕ, sym, ◌≡◌, refl, true, not, List, arith}
use netwingfs.Prelude.Bytes.{Bytes}
use netwingfs.Database.Model.{User}
use netwingfs.Database.Permission.{node, has_permission, user_edit_permission}
use netwingfs.Database.Permission.Nodes.{held}
use netwingfs.Database.Accounts.{ok, get_user_by_uid, Accounts}
use netwingfs.Service.Response.{ApiStatus, err_no_permission, error_status}
use netwingfs.Service.Web.{Web, W, get_users_and_check_permission, ◌>>=◌, pure, gets}
use netwingfs.Service.Outcome.{Yields, after-refuse_if, after-check_error, after-bind}
use netwingfs.Service.Users.{UserConfig}
use netwingfs.Service.Users.Admin.{Request, JsonValue}
use netwingfs.Service.Users.Authority.{Followed, Within}

module _ {D : Type 0} where
  -- What a pair of accounts that passes the check is.
  abbrev pub Authorised : Accounts D → D → ℕ → ℕ → ℕ → User → User → Type 0
  Authorised accounts d uid target_uid k user target =
      (get_user_by_uid accounts uid d ≡ ok user)
      × (get_user_by_uid accounts target_uid d ≡ ok target)
      × (held user.permission k ≡ true)

module _ {D A : Type 0} (accounts : Accounts D) (uid target_uid k : ℕ) (w : Web D)
    (Q : A → Web D → Type 0) (R : ApiStatus → Web D → Type 0) where
  pub after-get_users_and_check_permission :
      (f : User × User → W D A)
      → ((e : ApiStatus) → R e w)
      → ((user target : User)
          → Authorised accounts w.db uid target_uid k user target
          → Yields Q R (f (user, target) w))
      → Yields Q R ((get_users_and_check_permission accounts uid target_uid k >>= f) w)
  unfolding get_users_and_check_permission ◌>>=◌ gets pure
  after-get_users_and_check_permission f h g =
      after-bind Q R (λ both w'. (w' ≡ w) × Authorised accounts w.db uid target_uid k both.0 both.1)
        _ f
        (after-check_error _ R (get_user_by_uid accounts uid w.db) w _ (λ e _. h (error_status e))
          (λ user e.
            after-refuse_if _ R (not (has_permission user.permission (node k))) err_no_permission w
              _ (λ _. h err_no_permission)
              (λ b.
                after-check_error _ R (get_user_by_uid accounts target_uid w.db) w _
                  (λ e _. h (error_status e)) (λ target e'. (refl, (e, e', ground (arith, b)))))))
        (λ both w' (same, fine).
          subst (λ v. Yields Q R (f both v)) (sym same) (g both.0 both.1 fine))

module _ {D : Type 0} (config : UserConfig D) where
  abbrev pub Promoted : Web D → Request → ℕ → List (Bytes × JsonValue) → User → Web D → Type 0
  Promoted w req target_uid permissions target' w' =
      (user : User) × (target : User) × Authorised config.accounts w.db req.uid target_uid
        user_edit_permission user target
      × Followed user.permission permissions target.permission target'.permission
      × Within user.permission target.permission target'.permission
      × (config.accounts.update_permission target' target'.permission w.db ≡ (true, w'.db))
