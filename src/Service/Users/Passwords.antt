-- ===== src/Service/Users/Passwords.antt =====
-- What an edit of a profile may change of the account.
use netwingfs.Prelude.{
  ℕ, ◌≡◌, refl, sym, ap, ◌∙◌, Bool, true, false, not, ◌||◌, Option, none, some, inl, inr, ◌⊎◌,
  arith, Option-cases, Bool-cases,
}
use netwingfs.Prelude.Bytes.{Bytes}
use netwingfs.Prelude.Int.{pos, leb_ℤ}
use netwingfs.Database.Model.{User}
use netwingfs.Database.Accounts.{
  Op, ok, err, UpdateInfo, get_user_by_uid, update_user_password, verify_user_password,
  update_user_info,
}
use netwingfs.Service.Response.{ApiStatus, err_illegal_param}
use netwingfs.Service.Web.{
  Web, W, ◌>>=◌, pure, with_db, refuse, gets, delete_image_file, refuse_some,
}
use netwingfs.Service.Fields.{check_string}
use netwingfs.Service.Outcome.{
  Yields, Anything, after-refuse_if, after-refuse_some, after-bind, after-start, Yields-if,
}
use netwingfs.Service.Users.{UserConfig, is_empty, verify_email_code}
use netwingfs.Service.Users.Drafts.{
  Kept, KeptAll, Kept-trans, KeptAll-trans, KeptAll-refl, drafted, drafted-Kept, NoPassword,
  drafted-NoPassword,
}
use netwingfs.Service.Users.Profile.{
  RequestUserEditProfile, Draft, set_avatar, set_password, password_set, check_email, check_edit,
  edit_user_profile,
}

module _ {D : Type 0} (config : UserConfig D) where
  -- How the password of an account may have changed, and the column of the update that sets it.
  abbrev pub PasswordRule : ℕ → RequestUserEditProfile → Bool → User → Draft → Type 0
  PasswordRule salt req skip old (new, info) =
      ((is_empty req.origin_password ≡ true)
        × (skip ≡ false)
        × (new.password ≡ old.password)
        × (info.password ≡ none))
      ⊎ ((config.accounts.generate salt req.new_password ≡ some new.password)
          × (info.password ≡ some new.password)
          × ((skip ≡ true)
              ⊎ (config.accounts.compare_password old.password req.origin_password ≡ true)))

  -- What the database stores.
  abbrev pub Stored : Web D → ℕ → RequestUserEditProfile → Bool → User → User → Web D → Type 0
  Stored w salt req skip old new w' =
      (info : UpdateInfo) × PasswordRule salt req skip old (new, info)
      × (config.accounts.update_info new info w.db ≡ (true, w'.db))

  -- The result of an edit, of an account that the database holds.
  abbrev pub Edited : Web D → ℕ → RequestUserEditProfile → Bool → User × Bytes → Web D → Type 0
  Edited w salt req skip result w' =
      (old : User) × (get_user_by_uid config.accounts req.id w.db ≡ ok old)
      × Kept old result.0
      × Stored w salt req skip old result.0 w'

  at-refuse_some :
      (Q : Unit {0} → Web D → Type 0) (o : Option ApiStatus) (w : Web D)
      → Q tt w
      → Yields Q Anything (refuse_some o w)
  unfolding refuse_some
  at-refuse_some Q none w h = h
  at-refuse_some Q (some e) w h = tt

  -- The check of the address leaves the database as it is.
  abbrev SameDb : Web D → Unit {0} → Web D → Type 0
  SameDb w _ w' = w'.db ≡ w.db

  check_email-db :
      (req : RequestUserEditProfile) (skip : Bool) (w : Web D)
      → Yields (SameDb w) Anything (check_email config req skip w)
  unfolding check_email pure verify_email_code ◌>>=◌
  check_email-db req skip w =
      Yields-if (SameDb w) Anything (is_empty req.email) _ _ w (λ _. refl)
        (λ _.
          after-refuse_some (SameDb w) Anything
            (check_string config.validators.email_validator req.email) w _ (λ _ _. tt)
            (λ _.
              Yields-if (SameDb w) Anything skip _ _ w (λ _. refl)
                (λ _.
                  after-refuse_if (SameDb w) Anything (leb_ℤ req.email_code (pos 0))
                    err_illegal_param w _ (λ _. tt) (λ _. at-refuse_some (SameDb w) _ _ refl))))

  set_avatar-Kept :
      (req : RequestUserEditProfile) (draft : Draft) (w : Web D)
      → Yields
          (λ draft' w'.
            (w'.db ≡ w.db) × KeptAll draft.0 draft'.0 × (draft'.1.password ≡ draft.1.password))
          Anything
          (set_avatar config req draft w)
  unfolding set_avatar pure ◌>>=◌
  set_avatar-Kept req (user, info) w =
      Yields-if _ Anything (is_empty req.avatar_url) _ _ w (λ _. (refl, KeptAll-refl user, refl))
        (λ _.
          after-start _ Anything _ (delete_image_file user.avatar_url) w _
            (λ w' same. (same, KeptAll-refl user, refl)))

  at-password_set :
      (Q : Draft → Web D → Type 0) (user : User) (info : UpdateInfo) (o : Op Bytes) (w : Web D)
      → ((hash : Bytes)
          → o ≡ ok hash
          → Q (record user { password = hash }, record info { password = some hash }) w)
      → Yields Q Anything (password_set config (user, info) o w)
  unfolding password_set pure refuse
  at-password_set Q user info (ok hash) w h = h hash refl
  at-password_set Q user info (err e) w h = tt

  update_user_password-ok :
      (salt : ℕ) (user : User) (original new hash : Bytes) (skip : Bool)
      → update_user_password config.accounts salt user original new skip ≡ ok hash
      → (config.accounts.generate salt new ≡ some hash)
        × ((skip ≡ true) ⊎ (config.accounts.compare_password user.password original ≡ true))
  unfolding update_user_password verify_user_password
  update_user_password-ok salt user original new hash skip h =
      elim (Option-cases (config.accounts.generate salt new)) [
        | inl e ↦ ground (arith, e, h)
        | inr (hash', e) ↦ (ground (arith, e, h), ground (arith, e, h))
      ]

  -- What `setPassword` makes of a draft.
  abbrev Ruled : ℕ → RequestUserEditProfile → Bool → User → Web D → Draft → Web D → Type 0
  Ruled salt req skip user w draft' w' =
      (w'.db ≡ w.db) × Kept user draft'.0 × PasswordRule salt req skip user draft'

  set_password-PasswordRule :
      (salt : ℕ) (req : RequestUserEditProfile) (skip : Bool) (draft : Draft) (w : Web D)
      → NoPassword draft
      → Yields (Ruled salt req skip draft.0 w) Anything (set_password config salt req skip draft w)
  unfolding set_password pure
  set_password-PasswordRule salt req skip (user, info) w unset =
      Yields-if (Ruled salt req skip user w) Anything (not (is_empty req.origin_password) || skip) _
        _ w
        (λ _.
          at-password_set (Ruled salt req skip user w) user info
            (update_user_password config.accounts salt user req.origin_password req.new_password
              skip)
            w
            (λ hash e.
              let (made, may) =
                update_user_password-ok salt user req.origin_password req.new_password hash skip
                  e in
              (refl, (KeptAll-refl user).0, inr (made, refl, may))))
        (λ h.
          (refl, (KeptAll-refl user).0, inl (ground (arith, h), ground (arith, h), refl, unset)))

  PasswordRule-after :
      (salt : ℕ) (req : RequestUserEditProfile) (skip : Bool) (old mid : User) (new : Draft)
      → mid.password ≡ old.password
      → PasswordRule salt req skip mid new
      → PasswordRule salt req skip old new
  PasswordRule-after salt req skip old mid new same (inl (a, b, e, unset)) =
      inl (a, b, e ∙ same, unset)
  PasswordRule-after salt req skip old mid new same (inr (made, set, inl s)) =
      inr (made, set, inl s)
  PasswordRule-after salt req skip old mid new same (inr (made, set, inr verified)) = inr (
    made,
    set,
    inr (ap (λ h. config.accounts.compare_password h req.origin_password) (sym same) ∙ verified),
  )

  after-check_edit :
      {A B : Type 0} (Q : A → Web D → Type 0) (o : Op B) (w : Web D) (k : B → W D A)
      → ((b : B) → o ≡ ok b → Yields Q Anything (k b w))
      → Yields Q Anything ((check_edit config o >>= k) w)
  unfolding ◌>>=◌ check_edit
  after-check_edit Q (ok b) w k g = g b refl
  after-check_edit Q (err e) w k g = tt

  stored :
      (draft : Draft) (w w3 : Web D)
      → w3.db ≡ w.db
      → (update_user_info config.accounts draft.0 draft.1 w3.db).0 ≡ ok tt
      → config.accounts.update_info draft.0 draft.1 w.db
        ≡ (true, (update_user_info config.accounts draft.0 draft.1 w3.db).1)
  unfolding update_user_info
  stored draft w w3 same fine =
      let answer = config.accounts.update_info draft.0 draft.1 w3.db in
      ap (config.accounts.update_info draft.0 draft.1) (sym same) ∙ (elim (Bool-cases answer.0) [
        | inl e ↦ ap (λ b. (b, answer.1)) e
        | inr e ↦ absurd (ground (arith, e, fine))
      ])

  after-draft :
      (salt : ℕ) (req : RequestUserEditProfile) (skip : Bool) (w w1 : Web D) (old : User)
      → get_user_by_uid config.accounts req.id w.db ≡ ok old
      → w1.db ≡ w.db
      → Yields (Edited w salt req skip) Anything (
          (set_avatar config req (drafted req old) >>= λ draft.
          set_password config salt req skip draft >>= λ changed.
          with_db (update_user_info config.accounts changed.0 changed.1) >>= λ updated.
          check_edit config updated >>= λ _. pure (changed.0, config.to_json old))
            w1)
  unfolding with_db ◌>>=◌ pure
  after-draft salt req skip w w1 old found same_db =
      let Q = Edited w salt req skip in
      after-bind Q Anything
        (λ draft' w'.
          (w'.db ≡ w1.db)
          × KeptAll (drafted req old).0 draft'.0
          × (draft'.1.password ≡ (drafted req old).1.password))
        _ _ (set_avatar-Kept req (drafted req old) w1)
        (λ draft w2 (same2, avatar, unset).
          after-bind Q Anything (Ruled salt req skip draft.0 w2) _ _
            (set_password-PasswordRule salt req skip draft w2 (unset ∙ drafted-NoPassword req old))
            (λ changed w3 (same3, kept, rule).
              let (whole, same) =
                KeptAll-trans old (drafted req old).0 draft.0 (drafted-Kept req old) avatar in
              let mine = Kept-trans old draft.0 changed.0 whole kept in
              let whole_rule = PasswordRule-after salt req skip old draft.0 changed same rule in
              after-check_edit Q _ _ _ (λ _ fine. (
                old,
                found,
                mine,
                (changed.1, whole_rule, stored changed w w3 (same3 ∙ same2 ∙ same_db) fine),
              ))))

  pub edit_user_profile-Edited :
      (salt : ℕ) (req : RequestUserEditProfile) (skip_email skip : Bool) (w : Web D)
      → Yields
          (Edited w salt req skip)
          Anything
          (edit_user_profile config salt req skip_email skip w)
  unfolding edit_user_profile ◌>>=◌ gets with_db pure
  edit_user_profile-Edited salt req skip_email skip w =
      let Q = Edited w salt req skip in
      after-refuse_if Q Anything _ _ w _ (λ _. tt)
        (λ _.
          after-refuse_some Q Anything _ w _ (λ _ _. tt)
            (λ _.
              after-refuse_some Q Anything _ w _ (λ _ _. tt)
                (λ _.
                  after-bind Q Anything (SameDb w) _ _ (check_email-db req skip_email w)
                    (λ _ w1 same.
                      after-refuse_some Q Anything _ w1 _ (λ _ _. tt)
                        (λ _.
                          after-check_edit Q (get_user_by_uid config.accounts req.id w1.db) w1 _
                            (λ old found.
                              after-refuse_if Q Anything _ _ w1 _ (λ _. tt)
                                (λ _.
                                  after-draft salt req skip w w1 old
                                    (ap (get_user_by_uid config.accounts req.id) (sym same) ∙ found)
                                    same)))))))
