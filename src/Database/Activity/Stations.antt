-- ===== src/Database/Activity/Stations.antt =====
-- The stations that are stored, those that are asked for, and what is written.
use netwingfs.Prelude.{
  ℕ, ◌≡◌, refl, sym, Bool, true, false, not, ◌||◌, Option, none, some, List, [], ◌∷◌, ◌==◌,
  if◌then◌else◌, arith, Bool-cases, Option-cases, inl, inr,
}
use netwingfs.Prelude.Bytes.{Bytes, bytes_eq, bytes_eq_iff}
use netwingfs.Prelude.Int.{ℤ, eq_ℤ}
use netwingfs.Database.Activity.{
  ActivityFacility, Diff, facility_diff, find_facility, delete_facility, facility_map, Edits,
  insert_edit, update_edit, plan_edits, update_activity_facilities,
}

abbrev or_else : {A : Type 0} → Option A → A → A
or_else none a = a
or_else (some b) a = b

-- The row of a station after its columns are updated.
abbrev pub apply_diff : Diff → ActivityFacility → ActivityFacility
apply_diff d f = record f {
  min_rating = or_else d.min_rating f.min_rating;
  callsign = or_else d.callsign f.callsign;
  frequency = or_else d.frequency f.frequency;
}

==→≡ : (a b : ℕ) → (a == b) ≡ true → a ≡ b
==→≡ a b h = ground arith

same_station :
    (f g : ActivityFacility)
    → f.id ≡ g.id
    → f.activity_id ≡ g.activity_id
    → f.min_rating ≡ g.min_rating
    → f.callsign ≡ g.callsign
    → f.frequency ≡ g.frequency
    → f ≡ g
same_station f g e1 e2 e3 e4 e5 = cc

eq_ℤ_agree : (a b : ℤ) → or_else (if not (eq_ℤ a b) then some a else none) b ≡ a
eq_ℤ_agree a b = ground arith

bytes_eq_agree : (a b : Bytes) → or_else (if not (bytes_eq a b) then some a else none) b ≡ a
unfolding bytes_eq
bytes_eq_agree a b = ground (arith, bytes_eq_iff a b)

-- The columns that `Diff` finds, written over the old station, give the new one, for two stations of
-- the same activity and id.
pub apply_diff-facility_diff :
    (new old : ActivityFacility)
    → new.id ≡ old.id
    → new.activity_id ≡ old.activity_id
    → apply_diff (facility_diff new old) old ≡ new
unfolding facility_diff
apply_diff-facility_diff new old same activity =
    same_station (apply_diff (facility_diff new old) old) new (sym same) (sym activity)
      (eq_ℤ_agree new.min_rating old.min_rating) (bytes_eq_agree new.callsign old.callsign)
      (bytes_eq_agree new.frequency old.frequency)

find_facility-delete_facility :
    (i j : ℕ) (fs : List ActivityFacility)
    → find_facility i (delete_facility j fs) ≡ (if j == i then none else find_facility i fs)
unfolding find_facility delete_facility
find_facility-delete_facility i j [] = ground arith
find_facility-delete_facility i j (f ∷ fs) = ground (arith, find_facility-delete_facility i j fs)

-- Whether a station of the id is asked for.
unfoldable pub is_asked : ℕ → List ActivityFacility → Bool
is_asked i [] = false
is_asked i (f ∷ fs) = let rest = is_asked i fs in (f.id == i) || rest

insert_edit-deleted :
    (f : ActivityFacility) (o : Option Edits) (e : Edits)
    → insert_edit f o ≡ some e
    → (e' : Edits) × (o ≡ some e') × (e.deleted ≡ e'.deleted)
insert_edit-deleted f none e h = absurd (ground (arith, h))
insert_edit-deleted f (some e') e h = (e', refl, ground (arith, h))

update_edit-deleted :
    (f old : ActivityFacility) (o : Option Edits) (e : Edits)
    → update_edit f old o ≡ some e
    → (e' : Edits) × (o ≡ some e') × (e.deleted ≡ e'.deleted)
update_edit-deleted f old none e h = absurd (ground (arith, h))
update_edit-deleted f old (some e') e h = (e', refl, ground (arith, h))

pub plan_edits-deleted :
    (activity i : ℕ) (known news : List ActivityFacility) (e : Edits)
    → (i == 0) ≡ false
    → plan_edits activity known news ≡ some e
    → find_facility i e.deleted ≡ (if is_asked i news then none else find_facility i known)
unfolding plan_edits is_asked
plan_edits-deleted activity i known [] e stored h = ground arith
plan_edits-deleted activity i known (f ∷ fs) e stored h = elim (Bool-cases (f.id == 0)) [
  | inl new ↦
      let (e', planned, same) =
        insert_edit-deleted (record f { activity_id = activity }) (plan_edits activity known fs) e
          (ground (arith, new, h)) in
      ground (arith, new, same, plan_edits-deleted activity i known fs e' stored planned)
  | inr old ↦ elim (Option-cases (find_facility f.id known)) [
    | inl gone ↦ absurd (ground (arith, old, gone, h))
    | inr (g, there) ↦
        let (e', planned, same) =
          update_edit-deleted f g (plan_edits activity (delete_facility f.id known) fs) e
            (ground (arith, old, there, h)) in
        ground (
          arith,
          same,
          plan_edits-deleted activity i (delete_facility f.id known) fs e' stored planned,
          find_facility-delete_facility i f.id known,
        )
  ]
]

plan_edits-unknown :
    (activity i : ℕ) (known news : List ActivityFacility)
    → (i == 0) ≡ false
    → find_facility i known ≡ none
    → is_asked i news ≡ true
    → plan_edits activity known news ≡ none
unfolding plan_edits is_asked
plan_edits-unknown activity i known [] stored missing asked = absurd (ground arith)
plan_edits-unknown activity i known (f ∷ fs) stored missing asked = elim (Bool-cases (f.id == i)) [
  | inl e ↦
      let gone : find_facility f.id known ≡ none = rw (==→≡ f.id i e) missing in
      ground (arith, e, stored, gone)
  | inr e ↦ ground (
    arith,
    e,
    asked,
    plan_edits-unknown activity i known fs stored missing,
    plan_edits-unknown activity i (delete_facility f.id known) fs stored,
    find_facility-delete_facility i f.id known,
    missing,
  )
]

find_facility-facility_map :
    (i : ℕ) (known olds : List ActivityFacility)
    → is_asked i olds ≡ false
    → find_facility i (facility_map known olds) ≡ find_facility i known
unfolding facility_map find_facility is_asked
find_facility-facility_map i known [] h = refl
find_facility-facility_map i known (f ∷ fs) h = ground (
  arith,
  find_facility-facility_map i (f ∷ delete_facility f.id known) fs (ground (arith, h)),
  find_facility-delete_facility i f.id known,
  h,
)

-- Where the update of an activity's stations is accepted, a stored station is deleted just where
-- its id is not asked for, and no station that is not stored is deleted.
pub update_activity_facilities-deleted :
    (activity i : ℕ) (olds news : List ActivityFacility) (e : Edits)
    → (i == 0) ≡ false
    → update_activity_facilities activity olds news ≡ some e
    → find_facility i e.deleted
      ≡ (if is_asked i news then none else find_facility i (facility_map [] olds))
unfolding update_activity_facilities
update_activity_facilities-deleted activity i olds news e stored h =
    plan_edits-deleted activity i (facility_map [] olds) news e stored h

-- An update that names a station which is not stored, other than a new one, is refused whole.
pub update_activity_facilities-unknown :
    (activity i : ℕ) (olds news : List ActivityFacility)
    → (i == 0) ≡ false
    → is_asked i olds ≡ false
    → is_asked i news ≡ true
    → update_activity_facilities activity olds news ≡ none
unfolding update_activity_facilities
update_activity_facilities-unknown activity i olds news stored missing asked =
    plan_edits-unknown activity i (facility_map [] olds) news stored
      (find_facility-facility_map i [] olds missing) asked
