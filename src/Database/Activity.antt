-- ===== src/Database/Activity.antt =====
-- internal/database/activity_operation.go: how `UpdateActivityInfo` finds out which stations of an
-- activity to delete, to insert and to update, with interfaces/operation/model.go's `Equal` and
-- `Diff`. The transaction that then writes these to the database is not modelled.
pub mod Stations
use netwingfs.Prelude.{
  ℕ, Bool, true, false, not, ◌&&◌, Option, none, some, List, [], ◌∷◌, ◌++◌, ◌==◌, if◌then◌else◌,
}
use netwingfs.Prelude.Bytes.{Bytes, bytes_eq}
use netwingfs.Prelude.Int.{ℤ, eq_ℤ}

-- `ActivityFacility`, less what the database keeps beside it.
pub record ActivityFacility : Type 0 where
  pub id : ℕ
  pub activity_id : ℕ
  pub min_rating : ℤ
  pub callsign : Bytes
  pub frequency : Bytes

-- `Equal`.
unfoldable pub facility_equal : ActivityFacility → ActivityFacility → Bool
unfolding bytes_eq
facility_equal facility other =
    (facility.id == other.id)
    && ((facility.activity_id == other.activity_id)
        && (eq_ℤ facility.min_rating other.min_rating
            && (bytes_eq facility.callsign other.callsign
                && bytes_eq facility.frequency other.frequency)))

-- An entry of `Diff`'s map.
pub record Diff : Type 0 where
  pub min_rating : Option ℤ
  pub callsign : Option Bytes
  pub frequency : Option Bytes

-- `Diff`.
unfoldable pub facility_diff : ActivityFacility → ActivityFacility → Diff
unfolding bytes_eq
facility_diff facility other = record {
  min_rating =
      if not (eq_ℤ facility.min_rating other.min_rating) then some facility.min_rating else none;
  callsign =
      if not (bytes_eq facility.callsign other.callsign) then some facility.callsign else none;
  frequency =
      if not (bytes_eq facility.frequency other.frequency) then some facility.frequency else none;
}

-- The map of the old stations by their ids.
unfoldable pub find_facility : ℕ → List ActivityFacility → Option ActivityFacility
find_facility i [] = none
find_facility i (f ∷ fs) = let rest = find_facility i fs in if f.id == i then some f else rest

unfoldable pub delete_facility : ℕ → List ActivityFacility → List ActivityFacility
delete_facility i [] = []
delete_facility i (f ∷ fs) = let rest = delete_facility i fs in if f.id == i then rest else f ∷ rest

-- `oldFacilityMap`: a later station of the same id takes the place of an earlier one.
unfoldable pub facility_map : List ActivityFacility → List ActivityFacility → List ActivityFacility
unfolding delete_facility
facility_map known [] = known
facility_map known (f ∷ fs) = facility_map (f ∷ delete_facility f.id known) fs

-- What is to be written.
pub record Edits : Type 0 where
  pub deleted : List ActivityFacility
  pub inserted : List ActivityFacility
  pub updated : List (ℕ × Diff)

abbrev pub insert_edit : ActivityFacility → Option Edits → Option Edits
insert_edit f none = none
insert_edit f (some e) = some (record e { inserted = f ∷ e.inserted })

abbrev pub update_edit : ActivityFacility → ActivityFacility → Option Edits → Option Edits
update_edit f old none = none
update_edit f old (some e) = some (
    if not (facility_equal f old)
    then record e { updated = (f.id, facility_diff f old) ∷ e.updated }
    else e)

-- The loop over the new stations; `none` is `ErrInconsistentData`.
unfoldable pub plan_edits : ℕ → List ActivityFacility → List ActivityFacility → Option Edits
unfolding find_facility delete_facility
plan_edits activity known [] = some (record { deleted = known; inserted = []; updated = [] })
plan_edits activity known (f ∷ fs) =
    let inserting = plan_edits activity known fs in
    let updating = plan_edits activity (delete_facility f.id known) fs in
    if f.id == 0
    then insert_edit (record f { activity_id = activity }) inserting
    else elim (find_facility f.id known) [ none ↦ none | some old ↦ update_edit f old updating ]

-- The stations' part of `UpdateActivityInfo`.
unfoldable pub update_activity_facilities :
    ℕ → List ActivityFacility → List ActivityFacility → Option Edits
unfolding facility_map plan_edits
update_activity_facilities activity olds news = plan_edits activity (facility_map [] olds) news
