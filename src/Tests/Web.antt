-- ===== src/Tests/Web.antt =====
-- The theorems on accounts and permissions, on concrete inputs.
use netwingfs.Prelude.{
  none, ap, sym, ◌∙◌, ◌||◌, arith, ℕ, ◌≡◌, refl, true, some, List, [], ◌∷◌, ◌==◌, if◌then◌else◌,
  inl, inr, ◌⊎◌,
}
use netwingfs.Prelude.Bytes.{Bytes, codes, bytes_eq, bytes_eq_refl, bytes_eq_iff}
use netwingfs.Prelude.Int.{pos, negsuc}
use netwingfs.Examples.{some_user}
use netwingfs.Database.Model.{User, Fetch, found, missing}
use netwingfs.Database.Permission.{node, grant, has_permission, permission_map}
use netwingfs.Database.Accounts.{
  Accounts, UserQuery, by_id, by_username_or_email, new_user, add_user, add_checked,
  is_user_identifier_taken,
}
use netwingfs.Service.Email.{EmailConfig, verify_code, use_code, check_code, find_key}
use netwingfs.Config.Limits.{HttpServerLimit, default_limits}
use netwingfs.Service.Fields.{init_validator, check_int, check_string}
use netwingfs.Service.Response.{ApiStatus}
use netwingfs.Service.Web.{
  Web, Step, done, ◌>>=◌, refuse_if, refuse_some, with_db, check_error, pure,
}
use netwingfs.Service.Outcome.{Yields, Unchanged}
use netwingfs.Service.Users.{
  UserConfig, RequestUserRegister, ResponseToken, user_register, user_login, verify_email_code,
  sign_token, email_status,
}
use netwingfs.Service.Users.Admin.{
  Request, JsonValue, json_bool, change_node, change_nodes, Changes,
}
use netwingfs.Service.Users.Profile.{RequestUserEditProfile}
use netwingfs.Service.Users.Authority.{Followed, change_nodes-Followed}
use netwingfs.Service.Users.Registration.{Registered, user_register-Registered, user_register-once}
use netwingfs.Utils.Cast.{str_to_int}
use netwingfs.Service.Users.Login.{IsLawful, LoggedIn, Never, user_login-user_register}
use netwingfs.Utils.Cache.{Recent, get_value, after_calls, new_cached_value, get_value-Recent}

-- The table of users, with the newest row first.
abbrev Users : Type 0
Users = List User

abbrev find_user : ℕ → Users → Fetch User
find_user uid [] = missing
find_user uid (u ∷ us) = if u.uid == uid then found u else find_user uid us

abbrev find_named : Bytes → Users → Fetch User
find_named ident [] = missing
find_named ident (u ∷ us) =
    if bytes_eq u.username ident || bytes_eq u.email ident then found u else find_named ident us

abbrev first_of : UserQuery → Users → Fetch User
first_of (by_id uid) us = find_user uid us
first_of (by_username_or_email ident) us = find_named ident us
first_of _ us = missing

abbrev list_accounts : Accounts Users
list_accounts = record {
  first_user = first_of;
  count_identifiers = λ cid username email us. some 0;
  count_users = λ controllers us. 0;
  find_users = λ controllers offset limit us. some us;
  create_user = λ u us. (some 8, record u { uid = 8 } ∷ us);
  update_rating = λ u rating us. (true, u ∷ us);
  update_permission = λ u permission us. (true, u ∷ us);
  update_info = λ u info us. (true, u ∷ us);
  generate = λ salt password. some password;
  compare_password = λ hash password. bytes_eq hash password;
}

abbrev limits : HttpServerLimit
limits = record default_limits {
  username_length_min = pos 2;
  username_length_max = pos 20;
  password_length_min = pos 2;
  password_length_max = pos 20;
  email_length_min = pos 4;
  email_length_max = pos 40;
  cid_min = pos 1;
  cid_max = pos 9999;
}

abbrev mail_config : EmailConfig
mail_config = record {
  has_server = true;
  verify_expired_duration = 300;
  send_duration = 60;
  to_lower = λ s. s;
}

abbrev some_config : UserConfig Users
some_config = record {
  accounts = list_accounts;
  jwt = record { expires_duration = 10; refresh_duration = 100; sign = λ c. c.username };
  email = mail_config;
  validators = record {
    username_validator = (init_validator limits).username_validator;
    password_validator = (init_validator limits).password_validator;
    email_validator = (init_validator limits).email_validator;
    cid_validator = (init_validator limits).cid_validator;
  };
  enable_permission_change_email = true;
  enable_rating_change_email = true;
  to_json = λ u. u.username;
  blank_user = some_user;
}

-- An operator who may edit permissions and show the list of users, and another user.
abbrev operator : User
operator = record some_user { uid = 7; permission = pos 34 }

abbrev some_web : Web Users
some_web = record {
  db = operator ∷ some_user ∷ [];
  email = record {
    email_codes =
        (codes "bob@example.org", record { code = pos 123456; cid = pos 2; send_time = 5 }) ∷ [];
    last_send_time = [];
  };
  jobs = [];
  now = 9;
}

abbrev some_request : Request
some_request = record { uid = 7; cid = pos 1; ip = []; user_agent = [] }

abbrev some_changes : List (Bytes × JsonValue)
some_changes = (codes "UserShowList", json_bool true) ∷ []

abbrev changes_of : Changes ⊎ ApiStatus → Changes
changes_of (inl c) = c
changes_of (inr e) = (pos 0, [])

abbrev made_changes : Changes
made_changes = changes_of (change_nodes some_request (pos 34) some_user some_changes (pos 0, []))

made_changes_lem :
    change_nodes some_request (pos 34) some_user some_changes (pos 0, [])
    ≡ inl (made_changes.0, made_changes.1)
unfolding change_nodes change_node permission_map bytes_eq has_permission node grant
made_changes_lem = refl

change_nodes-Followed_example : Followed (pos 34) some_changes (pos 0) made_changes.0
change_nodes-Followed_example =
    change_nodes-Followed some_request (pos 34) some_user some_changes (pos 0) [] made_changes.0
      made_changes.1 made_changes_lem

abbrev registration : RequestUserRegister
registration = record {
  username = codes "bob";
  email = codes "bob@example.org";
  password = codes "secret";
  cid = pos 2;
  email_code = pos 123456;
}

user_register-Registered_example :
    Yields
      (Registered some_config some_web 0 registration)
      (Unchanged some_web)
      (user_register some_config 0 registration some_web)
user_register-Registered_example = user_register-Registered some_config 0 registration some_web

abbrev response_of : Step Users ResponseToken → ResponseToken
response_of (done a w) = a
response_of (Step.refused e w) = record { user = some_user; token = []; flush_token = [] }

abbrev web_of : Step Users ResponseToken → Web Users
web_of (done a w) = w
web_of (Step.refused e w) = w

abbrev registered : Step Users ResponseToken
registered = user_register some_config 0 registration some_web

registered_lem : registered ≡ done (response_of registered) (web_of registered)
unfolding user_register ◌>>=◌ refuse_if refuse_some verify_email_code verify_code use_code
    check_code find_key bytes_eq check_string check_int new_user add_user with_db check_error
    add_checked is_user_identifier_taken sign_token pure email_status init_validator
registered_lem = refl

user_register-once_example : ¬ (
    user_register some_config 1 registration (web_of registered)
    ≡ done (response_of registered) (web_of registered))
user_register-once_example =
    user_register-once some_config 0 1 registration registration some_web (web_of registered)
      (web_of registered) (web_of registered) (response_of registered) (response_of registered) refl
      registered_lem refl refl

find_named-head :
    (user : User) (us : Users) (id : ℕ)
    → find_named user.username (record user { uid = id } ∷ us) ≡ found (record user { uid = id })
find_named-head user us id = rw (bytes_eq_refl user.username) refl

list_accounts-IsLawful : IsLawful list_accounts
list_accounts-IsLawful = record {
  compare-generate = λ salt password hash h. ground (arith, h, bytes_eq_iff hash password);
  first_user-create_user = λ user d d' id h free made.
      ap (λ x. find_named user.username x.1) (sym made)
      ∙ (find_named-head user d 8
          ∙ ap (λ x. found (record user { uid = elim x.0 [ some n ↦ n | none ↦ 8 ] })) made);
}

not_a_number : str_to_int (codes "bob") (negsuc 0) ≡ negsuc 0
unfolding str_to_int
not_a_number = refl

user_login-user_register_example :
    Yields
      (LoggedIn some_config (response_of registered).user (web_of registered))
      (Never some_config)
      (user_login some_config (codes "bob") (codes "secret") (web_of registered))
unfolding bytes_eq
user_login-user_register_example =
    user_login-user_register some_config 0 registration some_web (web_of registered)
      (web_of registered) (response_of registered) list_accounts-IsLawful registered_lem
      not_a_number refl refl

abbrev edit : RequestUserEditProfile
edit = record {
  id = 1;
  cid = pos 1;
  username = [];
  email = [];
  email_code = pos 0;
  avatar_url = [];
  qq = pos 0;
  origin_password = codes "pw";
  new_password = codes "other";
}

abbrev qq_edit : RequestUserEditProfile
qq_edit = record edit { qq = pos 12345; origin_password = []; new_password = [] }

sets_password_lem : has_permission (pos 24) (node 3) ≡ true
unfolding has_permission node
sets_password_lem = refl

get_value-Recent_example :
    Recent
      (λ t. t)
      (λ t. 2)
      9
      31
      (get_value
        (λ t. t)
        (λ t. 2)
        (after_calls
          (λ t. t)
          (λ t. 2)
          (12 ∷ 25 ∷ [])
          (new_cached_value (λ t. t) (λ t. 2) (pos 10) 1))
        31).0
get_value-Recent_example = get_value-Recent (λ t. t) (λ t. 2) 9 1 31 (12 ∷ 25 ∷ [])
