-- ===== src/Service/Reports.antt =====
-- internal/http_server/service/server.go, which reports on the server, and GetUserHistory of
-- internal/http_server/service/user.go. The tables of ratings and facilities are passed on.
use netwingfs.Prelude.{ℕ, Bool, List, [], map}
use netwingfs.Prelude.Bytes.{codes}
use netwingfs.Prelude.Int.{ℤ, pos, leb_ℤ}
use netwingfs.Config.Limits.{HttpServerLimit}
use netwingfs.Database.Accounts.{Op, Accounts, get_user_by_cid}
use netwingfs.Database.Histories.{
  Records, UserHistory, get_user_history, get_total_users, get_total_controllers,
  get_total_activities, get_time_ratings,
}
use netwingfs.Service.Response.{
  ApiResponse, status, ok_code, unsatisfied, new_api_response, err_illegal_param,
}
use netwingfs.Service.Web.{W, ◌>>=◌, ◌>>◌, pure, gets, check_error, refuse_if}
use netwingfs.Utils.Cache.{CachedValue, get_value}

pub record ServerLimits : Type 0 where
  pub username_length_min : ℤ
  pub username_length_max : ℤ
  pub password_length_min : ℤ
  pub password_length_max : ℤ
  pub email_length_min : ℤ
  pub email_length_max : ℤ
  pub cid_min : ℤ
  pub cid_max : ℤ
  pub simulator_server : Bool

pub record ResponseGetServerInfo : Type 0 where
  pub total_user : ℕ
  pub total_controller : ℕ
  pub total_activity : ℕ

pub record OnlineTime : Type 0 where
  pub cid : ℤ
  pub time : ℤ

pub record ResponseGetTimeRating : Type 0 where
  pub pilots : List OnlineTime
  pub controllers : List OnlineTime

pub record ResponseGetUserHistory : Type 0 where
  pub total_pilot_time : ℤ
  pub total_atc_time : ℤ
  pub user_history : UserHistory

-- The limits in `getServerConfig`.
unfoldable pub get_server_config : HttpServerLimit → Bool → ServerLimits
get_server_config limits simulator_server = record {
  username_length_min = limits.username_length_min;
  username_length_max = limits.username_length_max;
  password_length_min = limits.password_length_min;
  password_length_max = limits.password_length_max;
  email_length_min = limits.email_length_min;
  email_length_max = limits.email_length_max;
  cid_min = limits.cid_min;
  cid_max = limits.cid_max;
  simulator_server = simulator_server;
}

-- A total whose query fails is 0.
abbrev pub or_zero : Op ℕ → ℕ
or_zero (Op.ok n) = n
or_zero (Op.err e) = 0

module _ {D : Type 0} (records : Records D) where
  -- `getServerInfo`.
  unfoldable pub get_server_info : D → ResponseGetServerInfo
  unfolding get_total_users get_total_controllers get_total_activities
  get_server_info d = record {
    total_user = or_zero (get_total_users records d);
    total_controller = or_zero (get_total_controllers records d);
    total_activity = or_zero (get_total_activities records d);
  }

  -- `getTimeRating`.
  unfoldable pub get_time_rating : D → ResponseGetTimeRating
  unfolding get_time_ratings
  get_time_rating d = elim (get_time_ratings records d) [
    | Op.err e ↦ record { pilots = []; controllers = [] }
    | Op.ok (pilots, controllers) ↦ record {
      pilots = map (λ u. record { cid = u.cid; time = u.total_pilot_time }) pilots;
      controllers = map (λ u. record { cid = u.cid; time = u.total_atc_time }) controllers;
    }
  ]

  -- `GetServerInfo` and `GetTimeRating` answer from their caches, which ask the database as it is
  -- at the time of a call, and take some time for it.
  unfoldable pub get_server_info_response :
      (ℕ → D)
      → (ℕ → ℕ)
      → CachedValue ResponseGetServerInfo
      → ℕ
      → ApiResponse ResponseGetServerInfo × CachedValue ResponseGetServerInfo
  unfolding get_server_info get_value new_api_response
  get_server_info_response db took cache now =
      let (value, cache) = get_value (λ t. get_server_info (db t)) took cache now in
      (new_api_response (status ok_code (codes "GET_SERVER_INFO")) unsatisfied value, cache)

  unfoldable pub get_time_rating_response :
      (ℕ → D)
      → (ℕ → ℕ)
      → CachedValue ResponseGetTimeRating
      → ℕ
      → ApiResponse ResponseGetTimeRating × CachedValue ResponseGetTimeRating
  unfolding get_time_rating get_value new_api_response
  get_time_rating_response db took cache now =
      let (value, cache) = get_value (λ t. get_time_rating (db t)) took cache now in
      (new_api_response (status ok_code (codes "GET_TIME_RATING")) unsatisfied value, cache)

  -- `GetUserHistory`.
  unfoldable pub get_user_history_of : Accounts D → ℤ → W D ResponseGetUserHistory
  unfolding get_user_by_cid get_user_history check_error
  get_user_history_of accounts cid = do
    refuse_if (leb_ℤ cid (pos 0)) err_illegal_param
    first ← gets (λ w. get_user_by_cid accounts cid w.db)
    user ← check_error first
    second ← gets (λ w. get_user_history records cid w.db)
    user_history ← check_error second
    pure (record {
      total_pilot_time = user.total_pilot_time;
      total_atc_time = user.total_atc_time;
      user_history = user_history;
    })
