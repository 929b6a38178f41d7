-- ===== src/Service/Users/Login.antt =====
-- A login after a registration.
use netwingfs.Prelude.{ℕ, ◌≡◌, refl, sym, ap, ◌∙◌, true, false, not, ◌||◌, some, arith}
use netwingfs.Prelude.Bytes.{Bytes}
use netwingfs.Prelude.Int.{negsuc}
use netwingfs.Utils.Cast.{str_to_int}
use netwingfs.Database.Model.{User, found, missing}
use netwingfs.Database.Accounts.{
  Accounts, Op, ok, err, by_username_or_email, get_user_by_ident, get_user_by_username_or_email,
  verify_user_password,
}
use netwingfs.Service.Response.{ApiStatus, err_illegal_param}
use netwingfs.Service.Web.{Web, done, ◌>>=◌, gets, pure}
use netwingfs.Service.Outcome.{Yields, Unchanged, after-refuse_if, after-check_error}
use netwingfs.Service.Users.{
  UserConfig, RequestUserRegister, ResponseToken, user_login, user_register, sign_token, is_empty,
  err_username_or_password,
}
use netwingfs.Service.Users.Registration.{Registered, user_register-Registered, from-done}

-- What the code relies on: bcrypt accepts the text that it hashed, and a row that was created where
-- no row had its identifiers, and none answered to its name, is found by its name.
pub record IsLawful {D : Type 0} (accounts : Accounts D) : Type 0 where
  pub compare-generate :
      (salt : ℕ) (password hash : Bytes)
      → accounts.generate salt password ≡ some hash
      → accounts.compare_password hash password ≡ true
  pub first_user-create_user :
      (user : User) (d d' : D) (id : ℕ)
      → accounts.count_identifiers user.cid user.username user.email d ≡ some 0
      → accounts.first_user (by_username_or_email user.username) d ≡ missing
      → accounts.create_user user d ≡ (some id, d')
      → accounts.first_user (by_username_or_email user.username) d'
        ≡ found (record user { uid = id })

one_answer : {A : Type 0} {o : Op A} {a b : A} → o ≡ ok a → o ≡ ok b → a ≡ b
one_answer {b = b} h k = ap (λ o. elim o [ ok x ↦ x | err e ↦ b ]) (sym h ∙ k)

module _ {D : Type 0} (config : UserConfig D) where
  same_password :
      (user user' : User) (password : Bytes)
      → config.accounts.compare_password user.password password ≡ true
      → user' ≡ user
      → config.accounts.compare_password user'.password password ≡ true
  same_password user user' password right e =
      ap (λ u. config.accounts.compare_password u.password password) e ∙ right

  -- The response is for this user.
  abbrev pub LoggedIn : User → Web D → ResponseToken → Web D → Type 0
  LoggedIn user w response w' = (response.user ≡ user) × (w' ≡ w)

  -- No request is refused.
  abbrev pub Never : ApiStatus → Web D → Type 0
  Never e w = ⊥

  get_user_by_ident-found :
      (username : Bytes) (d : D) (user : User)
      → str_to_int username (negsuc 0) ≡ negsuc 0
      → config.accounts.first_user (by_username_or_email username) d ≡ found user
      → get_user_by_ident config.accounts config.blank_user username d ≡ ok user
  unfolding get_user_by_ident get_user_by_username_or_email
  get_user_by_ident-found username d user named h = rw (named, h) refl

  user_login-LoggedIn :
      (username password : Bytes) (user : User) (v : Web D)
      → is_empty username ≡ false
      → is_empty password ≡ false
      → get_user_by_ident config.accounts config.blank_user username v.db ≡ ok user
      → config.accounts.compare_password user.password password ≡ true
      → Yields (LoggedIn user v) Never (user_login config username password v)
  unfolding user_login ◌>>=◌ gets verify_user_password sign_token pure
  user_login-LoggedIn username password user v named given known right =
      after-refuse_if (LoggedIn user v) Never (is_empty username || is_empty password)
        err_illegal_param v _ (λ h. ground (arith, h, named, given))
        (λ _.
          after-check_error (LoggedIn user v) Never
            (get_user_by_ident config.accounts config.blank_user username v.db) v _
            (λ e h. ground (arith, sym h ∙ known))
            (λ user' h.
              after-refuse_if (LoggedIn user v) Never
                (not (config.accounts.compare_password user'.password password))
                err_username_or_password v _
                (λ b.
                  ground (arith, b, same_password user user' password right (one_answer h known)))
                (λ _. (one_answer h known, refl))))

  -- Over accounts that keep these laws, a user whose registration succeeded under a name that is not a
  -- number, and that is no account's name or address before, is logged in by that name and password as long as the database stays as it is.
  pub user_login-user_register :
      (salt : ℕ) (req : RequestUserRegister) (w w' v : Web D) (response : ResponseToken)
      → IsLawful config.accounts
      → user_register config salt req w ≡ done response w'
      → str_to_int req.username (negsuc 0) ≡ negsuc 0
      → config.accounts.first_user (by_username_or_email req.username) w.db ≡ missing
      → v.db ≡ w'.db
      → Yields (LoggedIn response.user v) Never (user_login config req.username req.password v)
  user_login-user_register salt req w w' v response law run named free same =
      let r =
        from-done config (Registered config w salt req) (Unchanged w) _ response w' run
          (user_register-Registered config salt req w) in
      let (made, fresh, added) = r.10 in
      let stored =
        law.first_user-create_user made w.db w'.db response.user.uid added.2
          (ap (λ u. config.accounts.first_user (by_username_or_email u) w.db) fresh.0 ∙ free)
          added.1 in
      let found_name =
        ap (λ u. config.accounts.first_user (by_username_or_email u) w'.db) (sym fresh.0)
        ∙ (stored ∙ ap found (sym added.0)) in
      user_login-LoggedIn req.username req.password response.user v r.8 r.9
        (get_user_by_ident-found req.username v.db response.user named
          (ap (config.accounts.first_user (by_username_or_email req.username)) same ∙ found_name))
        (law.compare-generate salt req.password response.user.password r.7.5)
