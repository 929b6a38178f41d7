-- ===== src/Database/Accounts.antt =====
-- internal/database/user_operation.go, over the answers of gorm and bcrypt. A query only reads the
-- database.
use netwingfs.Prelude.{
  ℕ, ◌-◌, ◌*◌, Bool, true, false, not, ◌&&◌, Option, none, some, List, [], ltb, if◌then◌else◌,
}
use netwingfs.Prelude.Bytes.{Bytes}
use netwingfs.Prelude.Int.{ℤ, pos, eq_ℤ}
use netwingfs.Utils.Cast.{str_to_int}
use netwingfs.Database.Model.{User, Fetch, found, missing, failed}

-- The errors of internal/interfaces/operation, and any other.
pub data OpError : Type 0 where
  user_not_found identifier_taken identifier_check password_encode old_password activity_not_found
        facility_not_found rating_not_allowed facility_signed facility_already_exists
        facility_not_signed facility_not_your_sign activity_already_signed callsign_already_used
        activity_unsigned inconsistent_data other_error :
      OpError

-- What an operation answers: a value, or an error that is not nil.
pub data Op (A : Type 0) : Type 0 where
  ok : A → Op A
  err : OpError → Op A

-- The condition of a query for one user.
pub data UserQuery : Type 0 where
  by_id : ℕ → UserQuery
  by_number : ℤ → UserQuery
  by_username : Bytes → UserQuery
  by_email : Bytes → UserQuery
  by_username_or_email : Bytes → UserQuery

-- The columns that an update of the profile sets.
pub record UpdateInfo : Type 0 where
  pub username : Option Bytes
  pub email : Option Bytes
  pub qq : Option ℤ
  pub avatar_url : Option Bytes
  pub password : Option Bytes

-- What gorm and bcrypt answer; `Create` gives the new row's id, and a Boolean says whether there was no error. The page of users is
-- asked for by its offset and limit, and for controllers only or not; `generate` takes the salt.
pub record Accounts (D : Type 0) : Type 0 where
  pub first_user : UserQuery → D → Fetch User
  pub count_identifiers : ℤ → Bytes → Bytes → D → Option ℕ
  pub count_users : Bool → D → ℕ
  pub find_users : Bool → ℕ → ℕ → D → Option (List User)
  pub create_user : User → D → Option ℕ × D
  pub update_rating : User → ℤ → D → Bool × D
  pub update_permission : User → ℤ → D → Bool × D
  pub update_info : User → UpdateInfo → D → Bool × D
  pub generate : ℕ → Bytes → Option Bytes
  pub compare_password : Bytes → Bytes → Bool

-- A value, where there was no error.
abbrev pub no_error : {A : Type 0} → A → Bool → Op A
no_error a true = ok a
no_error a false = err other_error

module _ {D : Type 0} (accounts : Accounts D) where
  abbrev user_of : Fetch User → Op User
  user_of (found user) = ok user
  user_of missing = err user_not_found
  user_of failed = err other_error

  -- The queries that answer no error return a blank user in place of one.
  abbrev user_or : User → Fetch User → Op User
  user_or blank (found user) = ok user
  user_or blank missing = ok blank
  user_or blank failed = ok blank

  -- `GetUserByUid`.
  unfoldable pub get_user_by_uid : ℕ → D → Op User
  get_user_by_uid uid d = user_of (accounts.first_user (by_id uid) d)

  -- `GetUserByCid`.
  unfoldable pub get_user_by_cid : ℤ → D → Op User
  get_user_by_cid cid d = user_of (accounts.first_user (by_number cid) d)

  -- `GetUserByUsername`.
  unfoldable pub get_user_by_username : Bytes → D → Op User
  get_user_by_username username d = user_of (accounts.first_user (by_username username) d)

  -- `GetUserByEmail`, over the blank user.
  unfoldable pub get_user_by_email : User → Bytes → D → Op User
  get_user_by_email blank email d = user_or blank (accounts.first_user (by_email email) d)

  -- `GetUserByUsernameOrEmail`, over the blank user.
  unfoldable pub get_user_by_username_or_email : User → Bytes → D → Op User
  get_user_by_username_or_email blank ident d =
      user_or blank (accounts.first_user (by_username_or_email ident) d)

  -- `GetUserId` and the `GetUser` of what it makes of the text.
  unfoldable pub get_user_by_ident : User → Bytes → D → Op User
  unfolding get_user_by_cid get_user_by_username_or_email
  get_user_by_ident blank text d =
      let id = str_to_int text (ℤ.negsuc 0) in
      if eq_ℤ id (ℤ.negsuc 0)
      then get_user_by_username_or_email blank text d
      else get_user_by_cid id d

  abbrev page_of : ℕ → Option (List User) → Op (List User × ℕ)
  page_of total none = err other_error
  page_of total (some users) = ok (users, total)

  -- `GetUsers`, for a page from 1.
  unfoldable pub get_users : ℕ → ℕ → D → Op (List User × ℕ)
  get_users page page_size d =
      page_of (accounts.count_users false d)
        (accounts.find_users false ((page - 1) * page_size) page_size d)

  -- `GetControllers`, for a page from 1.
  unfoldable pub get_controllers : ℕ → ℕ → D → Op (List User × ℕ)
  get_controllers page page_size d =
      page_of (accounts.count_users true d)
        (accounts.find_users true ((page - 1) * page_size) page_size d)

  abbrev made : Bytes → Bytes → ℤ → Option Bytes → Op User
  made username email cid none = err password_encode
  made username email cid (some hash) = ok (record {
    uid = 0;
    username = username;
    email = email;
    cid = cid;
    password = hash;
    avatar_url = [];
    qq = pos 0;
    rating = pos 0;
    permission = pos 0;
    total_pilot_time = pos 0;
    total_atc_time = pos 0;
  })

  -- `NewUser`.
  unfoldable pub new_user : ℕ → Bytes → Bytes → ℤ → Bytes → Op User
  new_user salt username email cid password =
      made username email cid (accounts.generate salt password)

  abbrev pub is_taken : Option ℕ → Op Bool
  is_taken none = err other_error
  is_taken (some count) = ok (ltb 0 count)

  -- `IsUserIdentifierTaken`.
  unfoldable pub is_user_identifier_taken : ℤ → Bytes → Bytes → D → Op Bool
  is_user_identifier_taken cid username email d =
      is_taken (accounts.count_identifiers cid username email d)

  -- A transaction that fails leaves the database as it was.

  -- What `Create` answers: gorm writes the id into the user.
  abbrev pub created_row : User → Option ℕ → D → D → Op User × D
  created_row user (some id) d' d = (ok (record user { uid = id }), d')
  created_row user none d' d = (err other_error, d)

  -- The rest of the transaction of `AddUser`.
  unfoldable pub add_checked : User → Op Bool → D → Op User × D
  add_checked user (err e) d = (err identifier_check, d)
  add_checked user (ok true) d = (err identifier_taken, d)
  add_checked user (ok false) d =
      let (created, d') = accounts.create_user user d in created_row user created d' d

  -- `AddUser`, with the user as it is after it.
  unfoldable pub add_user : User → D → Op User × D
  unfolding add_checked is_user_identifier_taken
  add_user user d =
      add_checked user (is_user_identifier_taken user.cid user.username user.email d) d

  -- `UpdateUserRating`, with the user as it is after it.
  unfoldable pub update_user_rating : User → ℤ → D → Op User × D
  update_user_rating user rating d =
      let user' = record user { rating = rating } in
      let (fine, d') = accounts.update_rating user' rating d in
      (no_error user' fine, if fine then d' else d)

  -- `UpdateUserPermission`, with the user as it is after it.
  unfoldable pub update_user_permission : User → ℤ → D → Op User × D
  update_user_permission user permission d =
      let user' = record user { permission = permission } in
      let (fine, d') = accounts.update_permission user' permission d in
      (no_error user' fine, if fine then d' else d)

  -- `UpdateUserInfo`.
  unfoldable pub update_user_info : User → UpdateInfo → D → Op (Unit {0}) × D
  update_user_info user info d =
      let (fine, d') = accounts.update_info user info d in (no_error tt fine, d')

  -- `VerifyUserPassword`.
  unfoldable pub verify_user_password : User → Bytes → Bool
  verify_user_password user password = accounts.compare_password user.password password

  abbrev encoded : Option Bytes → Op Bytes
  encoded none = err password_encode
  encoded (some hash) = ok hash

  -- `UpdateUserPassword`: the hash, which is also the user's password then.
  unfoldable pub update_user_password : ℕ → User → Bytes → Bytes → Bool → Op Bytes
  unfolding verify_user_password
  update_user_password salt user original_password new_password skip_verify =
      if not skip_verify && not (verify_user_password user original_password)
      then err old_password
      else encoded (accounts.generate salt new_password)
