-- ===== src/Service/Users/Registration.antt =====
-- Who is registered, and with what.
use mathlib.Core.Path.{subst}
use netwingfs.Prelude.{ℕ, ◌≡◌, refl, sym, ap, ◌∙◌, true, false, none, some, length, arith, ◌⊎◌}
use netwingfs.Prelude.Int.{pos}
use netwingfs.Database.Model.{User}
use netwingfs.Database.Accounts.{Op, ok, err, new_user, add_user}
use netwingfs.Service.Email.{EmailError, verify_code, find_key}
use netwingfs.Service.Email.Codes.{verify_code-once, verify_code-used}
use netwingfs.Service.Fields.{check_int, check_string}
use netwingfs.Service.Response.{ApiStatus, err_register_fail}
use netwingfs.Service.Web.{Web, W, Step, done, ◌>>=◌, pure, with_db, check_error, refuse}
use netwingfs.Service.Outcome.{
  Yields, Unchanged, after-refuse_if, after-refuse_some, after-check_error,
}
use netwingfs.Service.Users.Admission.{
  InLimits, check_int-InLimits, check_string-InLimits, email_status-verify_code, Fresh, Added,
  new_user-Fresh, add_user-Added, add_user-refused,
}
use netwingfs.Service.Users.{
  UserConfig, RequestUserRegister, ResponseToken, email_status, verify_email_code, user_register,
  sign_token, check_new, is_empty,
}

module _ {D : Type 0} (config : UserConfig D) where
  -- What a registration that succeeds has passed, and what it has made.
  abbrev pub Registered : Web D → ℕ → RequestUserRegister → ResponseToken → Web D → Type 0
  Registered w salt req response w' =
      let verified = verify_code config.email w.email req.email req.email_code req.cid w.now in
      (verified.0 ≡ none)
      × (w'.email ≡ verified.1)
      × ((config.email.has_server ≡ false)
          ⊎ (find_key (config.email.to_lower req.email) w'.email.email_codes ≡ none))
      × InLimits config.validators.username_validator (pos (length req.username))
      × InLimits config.validators.email_validator (pos (length req.email))
      × InLimits config.validators.password_validator (pos (length req.password))
      × InLimits config.validators.cid_validator req.cid
      × Fresh config salt req response.user
      × (is_empty req.username ≡ false)
      × (is_empty req.password ≡ false)
      × ((made : User) × Fresh config salt req made × Added config made w.db response.user w'.db)

  -- What the checks of a request that is accepted say.
  abbrev Facts : Web D → RequestUserRegister → Type 0
  Facts w req =
      ((verify_code config.email w.email req.email req.email_code req.cid w.now).0 ≡ none)
      × InLimits config.validators.username_validator (pos (length req.username))
      × InLimits config.validators.email_validator (pos (length req.email))
      × InLimits config.validators.password_validator (pos (length req.password))
      × InLimits config.validators.cid_validator req.cid
      × (is_empty req.username ≡ false)
      × (is_empty req.password ≡ false)

  after-check_new :
      {A : Type 0} (Q : A → Web D → Type 0) (R : ApiStatus → Web D → Type 0) (o : Op User)
      (w : Web D) (k : User → W D A)
      → R err_register_fail w
      → ((user : User) → o ≡ ok user → Yields Q R (k user w))
      → Yields Q R ((check_new config o >>= k) w)
  unfolding ◌>>=◌ pure refuse
  after-check_new Q R (ok user) w k h g = g user refl
  after-check_new Q R (err e) w k h g = h

  -- The request's world once its code has been accepted.
  abbrev verified_web : Web D → RequestUserRegister → Web D
  verified_web w req = record w {
    email = (verify_code config.email w.email req.email req.email_code req.cid w.now).1;
  }

  Fresh-uid :
      (salt : ℕ) (req : RequestUserRegister) (user user' : User)
      → user' ≡ record user { uid = user'.uid }
      → Fresh config salt req user
      → Fresh config salt req user'
  Fresh-uid salt req user user' e h = subst (Fresh config salt req) (sym e) h

  used_up :
      (req : RequestUserRegister) (w : Web D)
      → (verify_code config.email w.email req.email req.email_code req.cid w.now).0 ≡ none
      → (config.email.has_server ≡ false)
        ⊎ (find_key (config.email.to_lower req.email) (verified_web w req).email.email_codes ≡ none)
  used_up req w accepted =
      verify_code-used config.email w.email req.email req.email_code req.cid w.now accepted

  after-added :
      (salt : ℕ) (req : RequestUserRegister) (w : Web D) (user : User)
      → Facts w req
      → Fresh config salt req user
      → Yields (Registered w salt req) (Unchanged w) (
          (with_db (add_user config.accounts user) >>= λ added. check_error added >>= λ user'.
          sign_token config user' false >>= λ token. sign_token config user' true >>= λ flush_token.
          pure (record { user = user'; token = token; flush_token = flush_token }))
            (verified_web w req))
  unfolding with_db ◌>>=◌ sign_token pure
  after-added salt req w user facts fresh =
      after-check_error (Registered w salt req) (Unchanged w)
        ((add_user config.accounts user w.db).0)
        (record (verified_web w req) { db = (add_user config.accounts user w.db).1 }) _
        (λ e h. add_user-refused config user w.db e h)
        (λ user' h.
          let added = add_user-Added config user user' w.db h in
          (
            facts.0,
            refl,
            used_up req w facts.0,
            facts.1,
            facts.2,
            facts.3,
            facts.4,
            Fresh-uid salt req user user' added.0 fresh,
            facts.5,
            facts.6,
            (user, fresh, added),
          ))

  -- A registration that succeeds has had its code accepted for its address and cid, and with a mail
  -- server no code of the address is left; its texts and its cid are within their limits; its account is as it asks, with the hash
  -- of its password, the rating 0 and no permission; and it is stored in a new row, where no row had
  -- its identifiers. One that is refused leaves the database as it was.
  pub user_register-Registered :
      (salt : ℕ) (req : RequestUserRegister) (w : Web D)
      → Yields (Registered w salt req) (Unchanged w) (user_register config salt req w)
  unfolding user_register verify_email_code with_db ◌>>=◌ sign_token pure
  user_register-Registered salt req w =
      let Q = Registered w salt req in
      let R = Unchanged w in
      let verified = verify_code config.email w.email req.email req.email_code req.cid w.now in
      let w1 : Web D = record w { email = verified.1 } in
      after-refuse_if Q R _ _ w _ (λ _. refl)
        (λ given.
          after-refuse_some Q R (email_status verified.0) w1 _ (λ _ _. refl)
            (λ accepted.
              after-refuse_some Q R (check_string config.validators.username_validator req.username)
                w1 _ (λ _ _. refl)
                (λ username.
                  after-refuse_some Q R (check_string config.validators.email_validator req.email)
                    w1 _ (λ _ _. refl)
                    (λ email.
                      after-refuse_some Q R
                        (check_string config.validators.password_validator req.password) w1 _
                        (λ _ _. refl)
                        (λ password.
                          after-refuse_some Q R (check_int config.validators.cid_validator req.cid)
                            w1 _ (λ _ _. refl)
                            (λ cid.
                              let facts : Facts w req = (
                                email_status-verify_code config.email w.email req.email
                                    req.email_code req.cid w.now accepted,
                                check_string-InLimits _ _ username,
                                check_string-InLimits _ _ email,
                                check_string-InLimits _ _ password,
                                check_int-InLimits config.validators.cid_validator req.cid cid,
                                ground (arith, given),
                                ground (arith, given),
                              ) in
                              after-check_new Q R
                                (new_user config.accounts salt req.username req.email req.cid
                                  req.password)
                                w1 _ refl
                                (λ user made.
                                  after-added salt req w user facts
                                    (new_user-Fresh config salt req user made))))))))

  pub from-done :
      {A : Type 0} (Q : A → Web D → Type 0) (R : ApiStatus → Web D → Type 0) (step : Step D A)
      (a : A) (w : Web D)
      → step ≡ done a w
      → Yields Q R step
      → Q a w
  from-done Q R step a w e h = subst (Yields Q R) e h

  not_both : (e : EmailError) → ¬ (some e ≡ none)
  not_both e h = cc

  -- A code registers one account at most: once it has, no request with that address, whatever its
  -- code, registers another until the next code is mailed.
  pub user_register-once :
      (salt salt' : ℕ) (req req' : RequestUserRegister) (w w' v v' : Web D)
      (response response' : ResponseToken)
      → config.email.has_server ≡ true
      → user_register config salt req w ≡ done response w'
      → v.email ≡ w'.email
      → req'.email ≡ req.email
      → ¬ (user_register config salt' req' v ≡ done response' v')
  user_register-once salt salt' req req' w w' v v' response response' on first codes address
        second =
      let one =
        from-done (Registered w salt req) (Unchanged w) _ response w' first
          (user_register-Registered salt req w) in
      let two =
        from-done (Registered v salt' req') (Unchanged v) _ response' v' second
          (user_register-Registered salt' req' v) in
      let gone =
        verify_code-once config.email w.email req.email req.email_code req.cid req'.email_code
          req'.cid w.now v.now on (one.0) in
      not_both _ (
        sym gone
        ∙ ap (λ s. (verify_code config.email s req.email req'.email_code req'.cid v.now).0)
            (sym (codes ∙ one.1))
        ∙ ap (λ a. (verify_code config.email v.email a req'.email_code req'.cid v.now).0)
            (sym address)
        ∙ two.0)
