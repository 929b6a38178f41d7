-- ===== src/Service/Users/Admission.antt =====
-- The checks of a registration, and the row that it stores.
use mathlib.Core.Path.{subst}
use netwingfs.Prelude.{
  Option, zero, suc, Option-cases, inl, inr, ℕ, ◌≡◌, refl, ap, none, some, length, arith,
}
use netwingfs.Prelude.Bytes.{Bytes}
use netwingfs.Prelude.Int.{ℤ, pos, ◌≤ℤ◌}
use netwingfs.Database.Model.{User}
use netwingfs.Database.Accounts.{
  ok, err, OpError, new_user, add_user, add_checked, created_row, is_taken,
  is_user_identifier_taken,
}
use netwingfs.Service.Email.{EmailConfig, EmailService, verify_code, use_code, check_code}
use netwingfs.Service.Fields.{FieldValidator, check_int, check_string}
use netwingfs.Service.Users.{UserConfig, RequestUserRegister, email_status}

-- A number within the limits.
abbrev pub InLimits : FieldValidator → ℤ → Type 0
InLimits v n = (v.min ≤ℤ n) × (n ≤ℤ v.max)

pub check_int-InLimits : (v : FieldValidator) (n : ℤ) → check_int v n ≡ none → InLimits v n
unfolding check_int
check_int-InLimits v n h = (ground arith, ground arith)

pub check_string-InLimits :
    (v : FieldValidator) (s : Bytes) → check_string v s ≡ none → InLimits v (pos (length s))
unfolding check_string
check_string-InLimits v s h = (ground arith, ground arith)

-- Every error of a code refuses the request.
pub email_status-verify_code :
    (config : EmailConfig) (service : EmailService) (email : Bytes) (code cid : ℤ) (now : ℕ)
    → email_status ((verify_code config service email code cid now).0) ≡ none
    → (verify_code config service email code cid now).0 ≡ none
unfolding verify_code use_code check_code email_status
email_status-verify_code config service email code cid now h = ground arith

ok-injective : {A : Type 0} {a b : A} → ok a ≡ ok b → a ≡ b
ok-injective {a} h = ap (λ o. elim o [ ok x ↦ x | err e ↦ a ]) h

module _ {D : Type 0} where
  -- The user of a new row, and what `Create` answered.
  abbrev Stored : User → Option ℕ × D → D → User → Type 0
  Stored user answer d' user' =
      let expected : Option ℕ × D = (some user'.uid, d') in
      (user' ≡ record user { uid = user'.uid }) × (answer ≡ expected)

  same_row :
      (user user' : User) (id : ℕ) (d' : D)
      → record user { uid = id } ≡ user'
      → Stored user (some id, d') d' user'
  same_row user user' id d' e = subst (Stored user (some id, d') d') e (refl, refl)

module _ {D : Type 0} (config : UserConfig D) where
  -- A user as the request describes it, with no right, whose password is the hash of the request's.
  abbrev pub Fresh : ℕ → RequestUserRegister → User → Type 0
  Fresh salt req user =
      (user.username ≡ req.username)
      × (user.email ≡ req.email)
      × (user.cid ≡ req.cid)
      × (user.rating ≡ pos 0)
      × (user.permission ≡ pos 0)
      × (config.accounts.generate salt req.password ≡ some user.password)

  pub new_user-Fresh :
      (salt : ℕ) (req : RequestUserRegister) (user : User)
      → new_user config.accounts salt req.username req.email req.cid req.password ≡ ok user
      → Fresh salt req user
  unfolding new_user
  new_user-Fresh salt req user h =
      elim (Option-cases (config.accounts.generate salt req.password)) [
        | inl e ↦ ground (arith, e, h)
        | inr (hash, e) ↦ ground (arith, e, h)
      ]

  -- A user that is stored in a new row, where no row had its identifiers.
  abbrev pub Added : User → D → User → D → Type 0
  Added user d user' d' =
      (user' ≡ record user { uid = user'.uid })
      × (config.accounts.create_user user d ≡ (some user'.uid, d'))
      × (config.accounts.count_identifiers user.cid user.username user.email d ≡ some 0)

  created_row-ok :
      (user user' : User) (answer : Option ℕ × D) (d : D)
      → (created_row config.accounts user answer.0 answer.1 d).0 ≡ ok user'
      → (user' ≡ record user { uid = user'.uid })
        × (answer ≡ (some user'.uid, (created_row config.accounts user answer.0 answer.1 d).1))
  created_row-ok user user' (none, d') d h = ground arith
  created_row-ok user user' (some id, d') d h = same_row user user' id d' (ok-injective h)

  add_checked-Added :
      (user user' : User) (count : Option ℕ) (d : D)
      → (add_checked config.accounts user (is_taken config.accounts count) d).0 ≡ ok user'
      → (count ≡ some 0)
        × (user' ≡ record user { uid = user'.uid })
        × (config.accounts.create_user user d ≡ (
          some user'.uid,
          (add_checked config.accounts user (is_taken config.accounts count) d).1,
        ))
  unfolding add_checked
  add_checked-Added user user' none d h = ground arith
  add_checked-Added user user' (some zero) d h = (
    refl,
    (created_row-ok user user' (config.accounts.create_user user d) d h).0,
    (created_row-ok user user' (config.accounts.create_user user d) d h).1,
  )
  add_checked-Added user user' (some (suc n)) d h = ground arith

  pub add_user-Added :
      (user user' : User) (d : D)
      → (add_user config.accounts user d).0 ≡ ok user'
      → Added user d user' (add_user config.accounts user d).1
  unfolding add_user is_user_identifier_taken
  add_user-Added user user' d h =
      let (free, same, stored) =
        add_checked-Added user user'
          (config.accounts.count_identifiers user.cid user.username user.email d) d h in
      (same, stored, free)

  pub add_user-refused :
      (user : User) (d : D) (e : OpError)
      → (add_user config.accounts user d).0 ≡ err e
      → (add_user config.accounts user d).1 ≡ d
  unfolding add_user add_checked
  add_user-refused user d e h = ground arith
