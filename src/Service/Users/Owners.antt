-- ===== src/Service/Users/Owners.antt =====
-- What a user may change of the own account, and what one who may set passwords changes of another.
use netwingfs.Prelude.{ℕ, ◌≡◌, Bool, true, none, some, inl, inr, ◌⊎◌, arith}
use netwingfs.Prelude.Bytes.{Bytes}
use netwingfs.Prelude.Int.{ℤ}
use netwingfs.Database.Model.{User}
use netwingfs.Database.Permission.{has_permission, node, user_set_password, user_edit_base_info}
use netwingfs.Database.Accounts.{ok, get_user_by_uid, UpdateInfo}
use netwingfs.Service.Response.{err_no_permission}
use netwingfs.Service.Web.{Web, ◌>>=◌, pure, start, lacks}
use netwingfs.Service.Outcome.{Yields, Anything, after-bind, after-refuse_if}
use netwingfs.Service.Users.{UserConfig}
use netwingfs.Service.Users.Profile.{RequestUserEditProfile, edit_user_profile_of}
use netwingfs.Service.Users.Drafts.{Kept}
use netwingfs.Service.Users.Passwords.{PasswordRule, Edited, edit_user_profile-Edited}

module _ {D : Type 0} (config : UserConfig D) where
  -- How the own password may change.
  abbrev pub OwnPassword : RequestUserEditProfile → User → User → UpdateInfo → Type 0
  OwnPassword req old user info =
      ((user.password ≡ old.password) × (info.password ≡ none))
      ⊎ ((config.accounts.compare_password old.password req.origin_password ≡ true)
          × (info.password ≡ some user.password))

  -- The own account after an edit, and what is stored: the column of the password is only set with
  -- the old password.
  abbrev pub OwnEdit : Web D → RequestUserEditProfile → User → Web D → Type 0
  OwnEdit w req user w' =
      (old : User) × (get_user_by_uid config.accounts req.id w.db ≡ ok old)
      × Kept old user
      × (info : UpdateInfo) × OwnPassword req old user info
      × (config.accounts.update_info user info w.db ≡ (true, w'.db))

  set_rule :
      (salt : ℕ) (req : RequestUserEditProfile) (skip : Bool) (old new : User) (info : UpdateInfo)
      → skip ≡ true
      → PasswordRule config salt req skip old (new, info)
      → config.accounts.generate salt req.new_password ≡ some new.password
  set_rule salt req skip old new info on (inl (_, off, _, _)) = ground (arith, on, off)
  set_rule salt req skip old new info on (inr (made, _, _)) = made

  -- Where the editor holds the permission to set passwords, every edit of another profile that
  -- succeeds leaves the hash of the new password of the request, also where that is empty.
  pub edit_user_profile_of-sets_password :
      (salt : ℕ) (permission cid : ℤ) (target_uid : ℕ) (ip user_agent : Bytes)
      (req : RequestUserEditProfile) (w : Web D)
      → has_permission permission (node user_set_password) ≡ true
      → Yields
          (λ user w'. config.accounts.generate salt req.new_password ≡ some user.password)
          Anything
          (edit_user_profile_of config salt permission cid target_uid ip user_agent req w)
  unfolding edit_user_profile_of ◌>>=◌ pure start
  edit_user_profile_of-sets_password salt permission cid target_uid ip user_agent req w on =
      let Q : User → Web D → Type 0 =
        λ user w'. config.accounts.generate salt req.new_password ≡ some user.password in
      let skip = has_permission permission (node user_set_password) in
      let req' = record req { id = target_uid } in
      after-refuse_if Q Anything (lacks permission user_edit_base_info) err_no_permission w _
        (λ _. tt)
        (λ _.
          after-bind Q Anything (Edited config w salt req' skip) _ _
            (edit_user_profile-Edited config salt req' true skip w)
            (λ result w' (old, found, kept, (info, rule, saved)).
              set_rule salt req' skip old result.0 info on rule))
