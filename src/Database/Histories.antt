-- ===== src/Database/Histories.antt =====
-- internal/database/history_operation.go, and SaveUser, the totals and the ratings by time
-- of internal/database/user_operation.go and activity_operation.go, over the answers of gorm.
use netwingfs.Prelude.{ℕ, ◌-◌, Bool, true, false, Option, none, some, List}
use netwingfs.Prelude.Bytes.{Bytes}
use netwingfs.Prelude.Int.{ℤ}
use netwingfs.Database.Model.{User, History}
use netwingfs.Database.Accounts.{Op, ok, err, other_error}

-- What gorm answers: whether an account or a connection was saved; the last ten connections of a number, as a controller
-- or as a pilot; the numbers of rows; and the ten users with the most time, as controllers or as
-- pilots.
pub record Records (D : Type 0) : Type 0 where
  pub save_account : User → D → Bool × D
  pub save_row : History → D → Bool × D
  pub last_histories : ℤ → Bool → D → Option (List History)
  pub count_accounts : D → Option ℕ
  pub count_controllers : D → Option ℕ
  pub count_activities : D → Option ℕ
  pub most_time : Bool → D → Option (List User)

pub record UserHistory : Type 0 where
  pub pilots : List History
  pub controllers : List History

abbrev found_or_error : {A : Type 0} → Option A → Op A
found_or_error none = err other_error
found_or_error (some a) = ok a

-- `NewHistory`.
unfoldable pub new_history : ℤ → Bytes → Bool → ℕ → History
new_history cid callsign is_atc now = record {
  cid = cid;
  callsign = callsign;
  start_time = now;
  end_time = now;
  online_time = 0;
  is_atc = is_atc;
}

module _ {D : Type 0} (records : Records D) where
  -- `SaveUser`.
  unfoldable pub save_user : User → D → Bool × D
  save_user user d = records.save_account user d

  -- `SaveHistory`.
  unfoldable pub save_history_row : History → D → Bool × D
  save_history_row history d = records.save_row history d

  -- `EndRecordAndSaveHistory`: whether there was no error, the row as it became, and the database.
  unfoldable pub end_record_and_save_history : History → ℕ → D → Bool × History × D
  unfolding save_history_row
  end_record_and_save_history history now d =
      let ended = record history { end_time = now; online_time = now - history.start_time } in
      let (good, d) = save_history_row ended d in (good, ended, d)

  -- `GetUserHistory`.
  unfoldable pub get_user_history : ℤ → D → Op UserHistory
  get_user_history cid d = elim (records.last_histories cid false d) [
    | none ↦ err other_error
    | some pilots ↦ elim (records.last_histories cid true d) [
      | none ↦ err other_error
      | some controllers ↦ ok (record { pilots = pilots; controllers = controllers })
    ]
  ]

  -- `GetTotalUsers`, `GetTotalControllers` and `GetTotalActivities`.
  unfoldable pub get_total_users : D → Op ℕ
  get_total_users d = found_or_error (records.count_accounts d)

  unfoldable pub get_total_controllers : D → Op ℕ
  get_total_controllers d = found_or_error (records.count_controllers d)

  unfoldable pub get_total_activities : D → Op ℕ
  get_total_activities d = found_or_error (records.count_activities d)

  -- `GetTimeRatings`: the pilots, then the controllers.
  unfoldable pub get_time_ratings : D → Op (List User × List User)
  get_time_ratings d = elim (records.most_time false d) [
    | none ↦ err other_error
    | some pilots ↦ elim (records.most_time true d) [
      | none ↦ err other_error
      | some controllers ↦ ok (pilots, controllers)
    ]
  ]
