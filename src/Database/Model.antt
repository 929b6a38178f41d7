-- ===== src/Database/Model.antt =====
-- internal/interfaces/operation/model.go, and what gorm and bcrypt answer, as parameters over an
-- abstract state of the database.
use netwingfs.Prelude.{ℕ, Bool}
use netwingfs.Prelude.Bytes.{Bytes}
use netwingfs.Prelude.Int.{ℤ}

-- `User`, less the time stamps that gorm keeps and the tables that refer to it; `uid` is `ID`.
pub record User : Type 0 where
  pub uid : ℕ
  pub username : Bytes
  pub email : Bytes
  pub cid : ℤ
  pub password : Bytes
  pub avatar_url : Bytes
  pub qq : ℤ
  pub rating : ℤ
  pub permission : ℤ
  pub total_pilot_time : ℤ
  pub total_atc_time : ℤ

-- `FlightPlan`; `updated_at` is the text of the time stamp that gorm keeps.
pub record FlightPlan : Type 0 where
  pub cid : ℤ
  pub callsign : Bytes
  pub flight_type : Bytes
  pub aircraft_type : Bytes
  pub tas : ℤ
  pub departure_airport : Bytes
  pub departure_time : ℤ
  pub atc_departure_time : ℤ
  pub cruise_altitude : Bytes
  pub arrival_airport : Bytes
  pub route_time_hour : Bytes
  pub route_time_minute : Bytes
  pub fuel_time_hour : Bytes
  pub fuel_time_minute : Bytes
  pub alternate_airport : Bytes
  pub remarks : Bytes
  pub route : Bytes
  pub locked : Bool
  pub from_web : Bool
  pub updated_at : Bytes

-- `History`; times are in seconds.
pub record History : Type 0 where
  pub cid : ℤ
  pub callsign : Bytes
  pub start_time : ℕ
  pub end_time : ℕ
  pub online_time : ℕ
  pub is_atc : Bool

-- What a query for one row answers.
pub data Fetch (A : Type 0) : Type 0 where
  found : A → Fetch A
  missing : Fetch A
  failed : Fetch A

-- What `Save` answers; a saved row has a new time stamp.
pub data Saved : Type 0 where
  stamped : Bytes → Saved
  duplicated : Saved
  save_failed : Saved

-- What `Updates` answers.
pub data Updated : Type 0 where
  rows_affected : ℕ → Updated
  record_not_found : Updated
  update_failed : Updated

-- The queries of this program through gorm, and bcrypt's comparison.
pub record Database (D : Type 0) : Type 0 where
  pub first_plan : ℤ → D → Fetch FlightPlan × D
  pub save_plan : FlightPlan → D → Saved × D
  pub update_altitude : FlightPlan → Bytes → D → Updated × D
  pub first_user_by_cid : ℤ → D → Fetch User × D
  pub first_user_by_ident : Bytes → D → Fetch User × D
  pub compare_password : Bytes → Bytes → Bool
  pub save_history : History → D → Bool × D
  pub add_atc_time : User → ℕ → D → Bool × D
  pub add_pilot_time : User → ℕ → D → Bool × D
