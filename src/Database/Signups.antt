-- ===== src/Database/Signups.antt =====
-- internal/database/activity_operation.go: activities, and who has signed up for them, over the
-- answers of gorm. A transaction that fails leaves the database as it was.
pub mod Pilots
pub mod Editing
use netwingfs.Prelude.{
  ℕ, ◌-◌, ◌*◌, Bool, true, false, not, ◌&&◌, Option, none, some, List, [], ◌∷◌, ◌==◌, if◌then◌else◌,
}
use netwingfs.Prelude.Bytes.{Bytes, bytes_eq}
use netwingfs.Prelude.Int.{ℤ, pos, leb_ℤ, eq_ℤ}
use netwingfs.Database.Model.{User, Fetch, found, missing, failed}
use netwingfs.Database.Accounts.{
  Op, ok, err, OpError, other_error, activity_not_found, facility_not_found, rating_not_allowed,
  facility_signed, facility_already_exists, facility_not_signed, facility_not_your_sign,
  activity_already_signed, callsign_already_used, activity_unsigned, inconsistent_data, no_error,
}
use netwingfs.Database.Activity.{ActivityFacility, Diff, Edits, update_activity_facilities}

-- `Activity`, less its lists of controllers and pilots; `active_time` is in seconds.
pub record Activity : Type 0 where
  pub id : ℕ
  pub publisher : ℤ
  pub title : Bytes
  pub image_url : Bytes
  pub active_time : ℕ
  pub departure_airport : Bytes
  pub arrival_airport : Bytes
  pub route : Bytes
  pub distance : ℤ
  pub status : ℤ
  pub notams : Bytes
  pub activity_facilities : List ActivityFacility

-- `ActivityATC` and `ActivityPilot`.
pub record ActivityAtc : Type 0 where
  pub id : ℕ
  pub activity_id : ℕ
  pub facility_id : ℕ
  pub cid : ℤ

pub record ActivityPilot : Type 0 where
  pub id : ℕ
  pub activity_id : ℕ
  pub cid : ℤ
  pub callsign : Bytes
  pub aircraft_type : Bytes
  pub status : ℤ

-- A station with the controller who has signed up for it.
abbrev pub StaffedFacility : Type 0
StaffedFacility = ActivityFacility × Option ActivityAtc

-- What `Create` answers.
pub data Created : Type 0 where
  created : Created
  duplicated_key : Created
  create_failed : Created

-- An entry of the map that `Diff` of an activity makes; an entry that is not set is `none`.
pub record ActivityDiff : Type 0 where
  pub publisher : Option ℤ
  pub title : Option Bytes
  pub image_url : Option Bytes
  pub active_time : Option ℕ
  pub departure_airport : Option Bytes
  pub arrival_airport : Option Bytes
  pub route : Option Bytes
  pub distance : Option ℤ
  pub status : Option ℤ
  pub notams : Option Bytes

-- A condition of `Where`, in the columns that the code names.
pub data Condition : Type 0 where
  activity_is : ℕ → Condition
  facility_is : ℕ → Condition
  cid_is : ℤ → Condition
  callsign_is : Bytes → Condition
  both either : Condition → Condition → Condition

-- gorm's answers; `First` is asked with a condition.
pub record Signups (D : Type 0) : Type 0 where
  pub first_activity : ℕ → D → Fetch Activity
  pub first_facility : ℕ → D → Fetch StaffedFacility
  pub page_activities : ℕ → ℕ → D → Option (List Activity)
  pub activities_between : ℕ → ℕ → D → Option (List Activity)
  pub count_activities : D → ℕ
  pub save_activity : Activity → D → Option ℕ × D
  pub remove_activity : Activity → D → Bool × D
  pub set_activity_status : ℕ → ℤ → D → Bool × D
  pub set_pilot_status : ActivityPilot → ℤ → D → Bool × D
  pub first_controller : Condition → D → Fetch ActivityAtc
  pub create_controller : ActivityAtc → D → Created × D
  pub delete_controller : ℕ → D → Bool × D
  pub first_pilot : Condition → D → Fetch ActivityPilot
  pub create_pilot : ActivityPilot → D → Created × D
  pub delete_pilot : ActivityPilot → D → Bool × D
  pub update_activity : Activity → ActivityDiff → D → Bool × D
  pub delete_facilities : List ActivityFacility → D → Bool × D
  pub create_facilities : List ActivityFacility → D → Bool × D
  pub update_facility : ℕ → Diff → D → Bool × D

-- The error of `Create`, with the name that the code gives to a duplicate.
unfoldable pub create_error : OpError → Created → Op (Unit {0})
create_error e created = ok tt
create_error e duplicated_key = err e
create_error e create_failed = err other_error

abbrev is_ok : {A : Type 0} → Op A → Bool
is_ok (ok a) = true
is_ok (err e) = false

-- A transaction whose last step answers this.
abbrev pub committed : {A D : Type 0} → Op A × D → D → Op A × D
committed (answer, d') d = (answer, if is_ok answer then d' else d)

-- `NewActivityAtc` and `NewActivityPilot`.
abbrev pub new_activity_atc : ActivityFacility → User → ActivityAtc
new_activity_atc facility user = record {
  id = 0;
  activity_id = facility.activity_id;
  facility_id = facility.id;
  cid = user.cid;
}

abbrev pub new_activity_pilot : ℕ → ℤ → Bytes → Bytes → ActivityPilot
new_activity_pilot activity_id cid callsign aircraft_type = record {
  id = 0;
  activity_id = activity_id;
  cid = cid;
  callsign = callsign;
  aircraft_type = aircraft_type;
  status = pos 0;
}

-- The id of the controller of a query whose error is not read: 0 where there is no row, and where
-- the query fails.
abbrev pub controller_id : Fetch ActivityAtc → ℕ
controller_id (found controller) = controller.id
controller_id missing = 0
controller_id failed = 0

-- The rows that keep an account from signing up under a callsign.
abbrev pub taken_by : ℕ → ℤ → Bytes → Condition
taken_by id cid callsign = both (activity_is id) (either (cid_is cid) (callsign_is callsign))

module _ {D : Type 0} (signups : Signups D) where
  abbrev fetched : {A : Type 0} → OpError → Fetch A → Op A
  fetched e (found a) = ok a
  fetched e missing = err e
  fetched e failed = err other_error

  abbrev listed : {A : Type 0} → Option A → Op A
  listed none = err other_error
  listed (some a) = ok a

  -- `GetActivities`.
  unfoldable pub get_activities : ℕ → ℕ → D → Op (List Activity)
  get_activities start_day end_day d = listed (signups.activities_between start_day end_day d)

  -- `GetActivitiesPage`, for a page from 1.
  unfoldable pub get_activities_page : ℕ → ℕ → D → Op (List Activity)
  get_activities_page page page_size d =
      listed (signups.page_activities ((page - 1) * page_size) page_size d)

  -- `GetActivityById`.
  unfoldable pub get_activity_by_id : ℕ → D → Op Activity
  get_activity_by_id id d = fetched activity_not_found (signups.first_activity id d)

  -- `GetFacilityById`.
  unfoldable pub get_facility_by_id : ℕ → D → Op StaffedFacility
  get_facility_by_id id d = fetched facility_not_found (signups.first_facility id d)

  -- `GetActivityPilotById`.
  unfoldable pub get_activity_pilot_by_id : ℕ → ℤ → D → Op ActivityPilot
  get_activity_pilot_by_id id cid d =
      fetched activity_unsigned (signups.first_pilot (both (activity_is id) (cid_is cid)) d)

  -- The transaction of `SignFacilityController`.
  unfoldable pub sign_facility : ActivityFacility → User → D → Op (Unit {0}) × D
  unfolding create_error
  sign_facility facility user d =
      let (answer, d') = signups.create_controller (new_activity_atc facility user) d in
      let held =
        signups.first_controller (both (activity_is facility.activity_id) (cid_is user.cid)) d in
      if not (controller_id held == 0)
      then (err facility_already_exists, d)
      else committed (create_error facility_signed answer, d') d

  -- `SignFacilityController`.
  unfoldable pub sign_facility_controller : ActivityFacility → User → D → Op (Unit {0}) × D
  unfolding sign_facility
  sign_facility_controller facility user d =
      if leb_ℤ user.rating facility.min_rating
      then (err rating_not_allowed, d)
      else sign_facility facility user d

  -- The transaction of `UnsignFacilityController`.
  unfoldable pub unsign_facility : ActivityFacility → ℤ → D → Op (Unit {0}) × D
  unsign_facility facility cid d =
      let id = controller_id (
        signups.first_controller
          (both (activity_is facility.activity_id) (both (facility_is facility.id) (cid_is cid)))
          d) in
      let (fine, d') = signups.delete_controller id d in
      if id == 0 then (err facility_not_signed, d) else committed (no_error tt fine, d') d

  -- `UnsignFacilityController`.
  unfoldable pub unsign_facility_controller : StaffedFacility → ℤ → D → Op (Unit {0}) × D
  unfolding unsign_facility
  unsign_facility_controller (facility, none) cid d = (err facility_not_signed, d)
  unsign_facility_controller (facility, some controller) cid d =
      if not (eq_ℤ controller.cid cid)
      then (err facility_not_your_sign, d)
      else unsign_facility facility cid d

  abbrev pub is_signed : ActivityPilot → ℤ → OpError
  is_signed pilot cid =
      if eq_ℤ pilot.cid cid then activity_already_signed else callsign_already_used

  -- The rest of `SignActivityPilot`, for the row that was found; the query's error is not read.
  unfoldable pub sign_pilot : Fetch ActivityPilot → ActivityPilot → D → Op (Unit {0}) × D
  unfolding create_error
  sign_pilot (found pilot) new d = (err (is_signed pilot new.cid), d)
  sign_pilot missing new d =
      let (answer, d') = signups.create_pilot new d in
      committed (create_error activity_already_signed answer, d') d
  sign_pilot failed new d =
      let (answer, d') = signups.create_pilot new d in
      committed (create_error activity_already_signed answer, d') d

  -- `SignActivityPilot`.
  unfoldable pub sign_activity_pilot : ℕ → ℤ → Bytes → Bytes → D → Op (Unit {0}) × D
  unfolding sign_pilot
  sign_activity_pilot id cid callsign aircraft_type d =
      sign_pilot (signups.first_pilot (taken_by id cid callsign) d)
        (new_activity_pilot id cid callsign aircraft_type) d

  -- The rest of `UnsignActivityPilot`, whose query's error is not read.
  unfoldable pub unsign_pilot : Fetch ActivityPilot → D → Op (Unit {0}) × D
  unsign_pilot (found pilot) d =
      let (fine, d') = signups.delete_pilot pilot d in committed (no_error tt fine, d') d
  unsign_pilot missing d = (err activity_unsigned, d)
  unsign_pilot failed d = (err activity_unsigned, d)

  -- `UnsignActivityPilot`.
  unfoldable pub unsign_activity_pilot : ℕ → ℤ → D → Op (Unit {0}) × D
  unfolding unsign_pilot
  unsign_activity_pilot id cid d =
      unsign_pilot (signups.first_pilot (both (activity_is id) (cid_is cid)) d) d
