-- ===== src/Database/Plans.antt =====
-- internal/database/flight_plan_operation.go.
pub mod Locking
use netwingfs.Prelude.{
  ℕ, zero, suc, Bool, true, false, not, ◌&&◌, ◌++◌, Option, none, some, List, [], ◌∷◌, length, ltb,
  if◌then◌else◌,
}
use netwingfs.Prelude.Bytes.{Bytes, codes}
use netwingfs.Prelude.Int.{ℤ, pos}
use netwingfs.Utils.Cast.{str_to_int}
use netwingfs.Utils.Format.{show_int}
use netwingfs.Packet.Lines.MakePacket.{join}
use netwingfs.Packet.Lines.{split_sign}
use netwingfs.Fsd.Command.{text, plan}
use netwingfs.Database.Model.{
  User, FlightPlan, Database, Fetch, found, missing, failed, Saved, stamped, duplicated,
  save_failed, Updated, rows_affected, record_not_found, update_failed,
}

pub data PlanError : Type 0 where
  flight_plan_not_found simulator_server data_too_short flight_plan_exists flight_plan_locked
        database_error :
      PlanError

-- `UpdateFlightPlanData`; `none` is the run-time panic of an index out of range.
unfoldable pub update_flight_plan_data : FlightPlan → List Bytes → Option FlightPlan
update_flight_plan_data p
      (_ ∷ _ ∷ d2 ∷ d3 ∷ d4 ∷ d5 ∷ d6 ∷ d7 ∷ d8 ∷ d9 ∷ d10 ∷ d11 ∷ d12 ∷ d13 ∷ d14 ∷ d15 ∷ d16
        ∷ _) =
    some (record p {
      flight_type = d2;
      aircraft_type = d3;
      tas = str_to_int d4 (pos 100);
      departure_airport = d5;
      departure_time = str_to_int d6 (pos 0);
      atc_departure_time = str_to_int d7 (pos 0);
      cruise_altitude = d8;
      arrival_airport = d9;
      route_time_hour = d10;
      route_time_minute = d11;
      fuel_time_hour = d12;
      fuel_time_minute = d13;
      alternate_airport = d14;
      remarks = d15;
      route = d16;
    })
update_flight_plan_data p _ = none

-- `&FlightPlan{Cid: …, Callsign: …}`.
abbrev pub blank_plan : ℤ → Bytes → FlightPlan
blank_plan cid callsign = record {
  cid = cid;
  callsign = callsign;
  flight_type = [];
  aircraft_type = [];
  tas = pos 0;
  departure_airport = [];
  departure_time = pos 0;
  atc_departure_time = pos 0;
  cruise_altitude = [];
  arrival_airport = [];
  route_time_hour = [];
  route_time_minute = [];
  fuel_time_hour = [];
  fuel_time_minute = [];
  alternate_airport = [];
  remarks = [];
  route = [];
  locked = false;
  from_web = false;
  updated_at = [];
}

-- What an operation leaves: the plan in memory, its error, and the database.
pub record PlanReply (D : Type 0) : Type 0 where
  pub flight_plan : FlightPlan
  pub error : Option PlanError
  pub state : D

module _ {D : Type 0} (db : Database D) (simulator : Bool) where
  -- `GetFlightPlanByCid`.
  unfoldable pub get_flight_plan_by_cid : ℤ → D → Fetch FlightPlan × D
  get_flight_plan_by_cid cid d = if simulator then (failed, d) else db.first_plan cid d

  abbrev after_save : FlightPlan → Saved × D → PlanReply D
  after_save p (stamped time, d) = record {
    flight_plan = record p { updated_at = time };
    error = none;
    state = d;
  }
  after_save p (duplicated, d) = record {
    flight_plan = p;
    error = some flight_plan_exists;
    state = d;
  }
  after_save p (save_failed, d) = record { flight_plan = p; error = some database_error; state = d }

  -- `Save` in a transaction of `UpdateFlightPlan`, where a duplicate key is not told apart.
  abbrev pub after_update : FlightPlan → Saved × D → PlanReply D
  after_update p (stamped time, d) = record {
    flight_plan = record p { updated_at = time };
    error = none;
    state = d;
  }
  after_update p (duplicated, d) = record {
    flight_plan = p;
    error = some database_error;
    state = d;
  }
  after_update p (save_failed, d) = record {
    flight_plan = p;
    error = some database_error;
    state = d;
  }

  abbrev known_or_blank : ℤ → Bytes → Fetch FlightPlan → FlightPlan
  known_or_blank cid callsign (found p) = p
  known_or_blank cid callsign missing = blank_plan cid callsign
  known_or_blank cid callsign failed = blank_plan cid callsign

  -- `UpsertFlightPlan`: no plan where the data is too short.
  unfoldable pub upsert_flight_plan :
      User → Bytes → List Bytes → D → Option FlightPlan × Option PlanError × D
  unfolding get_flight_plan_by_cid update_flight_plan_data
  upsert_flight_plan user callsign fields d =
      let (answer, d1) = get_flight_plan_by_cid user.cid d in
      let filled = update_flight_plan_data (known_or_blank user.cid callsign answer) fields in
      if ltb (length fields) 17 then (none, some data_too_short, d) else elim filled [
        | none ↦ (none, some data_too_short, d)
        | some p ↦
            let r = after_save p (db.save_plan p d1) in
            if simulator then (some p, none, d1) else (some r.flight_plan, r.error, r.state)
      ]

  -- `UpdateFlightPlan`. After the test of the length no index of `UpdateFlightPlanData` is out of
  -- range, so its panic, which stands as an error here, does not arise.
  unfoldable pub update_flight_plan : FlightPlan → List Bytes → Bool → D → PlanReply D
  unfolding update_flight_plan_data
  update_flight_plan p fields atc_edit d =
      if ltb (length fields) 17
      then record { flight_plan = p; error = some data_too_short; state = d }
      else if not simulator && (not atc_edit && p.locked)
      then record { flight_plan = p; error = some flight_plan_locked; state = d }
      else elim (update_flight_plan_data p fields) [
        | none ↦ record { flight_plan = p; error = some data_too_short; state = d }
        | some q ↦
            let r = after_update q (db.save_plan q d) in
            if simulator then record { flight_plan = q; error = none; state = d } else r
      ]

  abbrev after_altitude : FlightPlan → Updated × D → PlanReply D
  after_altitude p (rows_affected zero, d) = record {
    flight_plan = p;
    error = some flight_plan_locked;
    state = d;
  }
  after_altitude p (rows_affected (suc n), d) = record { flight_plan = p; error = none; state = d }
  after_altitude p (record_not_found, d) = record {
    flight_plan = p;
    error = some flight_plan_not_found;
    state = d;
  }
  after_altitude p (update_failed, d) = record {
    flight_plan = p;
    error = some database_error;
    state = d;
  }

  -- `UpdateCruiseAltitude`.
  unfoldable pub update_cruise_altitude : FlightPlan → Bytes → D → PlanReply D
  update_cruise_altitude p altitude d =
      let q : FlightPlan = record p { cruise_altitude = altitude } in
      let l : FlightPlan = record p { cruise_altitude = altitude; locked = true } in
      if simulator
      then record { flight_plan = q; error = none; state = d }
      else after_altitude l (db.update_altitude l altitude d)

-- `ToString`: the line that shows a plan to a receiver.
unfoldable pub to_string : FlightPlan → Bytes → Bytes
to_string p receiver =
    text plan
    ++ (join (
          p.callsign
          ∷ receiver
          ∷ p.flight_type
          ∷ p.aircraft_type
          ∷ show_int p.tas
          ∷ p.departure_airport
          ∷ show_int p.departure_time
          ∷ show_int p.atc_departure_time
          ∷ p.cruise_altitude
          ∷ p.arrival_airport
          ∷ p.route_time_hour
          ∷ p.route_time_minute
          ∷ p.fuel_time_hour
          ∷ p.fuel_time_minute
          ∷ p.alternate_airport
          ∷ p.remarks
          ∷ p.route
          ∷ [])
        ++ split_sign)
