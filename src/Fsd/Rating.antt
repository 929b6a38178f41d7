-- ===== src/Fsd/Rating.antt =====
-- internal/interfaces/fsd/rating.go, facility.go and the tables of constant.go. A `Facility` is a
-- byte, a `Rating` an `int`.
pub mod Hierarchy
use Prim.Native.Nat.{bit_and}
use netwingfs.Prelude.{
  ℕ, zero, suc, ◌-◌, ◌^◌, ◌%◌, Bool, true, false, not, ◌||◌, Option, none, some, List, [], ◌∷◌,
  get_elem?, ltb, ◌==◌, if◌then◌else◌,
}
use netwingfs.Prelude.Bytes.{Bytes, codes}
use netwingfs.Prelude.Int.{ℤ, pos, negsuc, ltb_ℤ, leb_ℤ, eq_ℤ}
use netwingfs.Utils.Cast.{str_to_int}

abbrev pub ban : ℤ
ban = negsuc 0

abbrev pub normal : ℤ
normal = pos 0

abbrev pub observer : ℤ
observer = pos 1

abbrev pub supervisor : ℤ
supervisor = pos 11

abbrev pub administrator : ℤ
administrator = pos 12

-- The facilities: one bit each.
abbrev pub pilot : ℕ
pilot = 1

abbrev pub obs : ℕ
obs = 2

-- `DEL | GND | TWR | APP | CTR | FSS`
abbrev pub allow_atc_facility : ℕ
allow_atc_facility = 252

abbrev pub allow_kill_rating : List ℤ
allow_kill_rating = supervisor ∷ administrator ∷ []

-- `RatingFacilityMap` as the program starts; a missing key reads as 0.
unfoldable pub rating_facility_map : ℤ → ℕ
rating_facility_map (negsuc n) = 0
rating_facility_map (pos n) =
    if n == 0
    then 1
    else if n == 1
    then 3
    else if n == 2
    then 15
    else if n == 3
    then 31
    else if n == 4
    then 63
    else if n == 5 || n == 6
    then 127
    else if ltb n 13
    then 255
    else 0

-- `Facility.CheckFacility`.
unfoldable pub check_facility : ℕ → ℕ → Bool
check_facility f facility = not (bit_and f facility == 0)

-- `Rating.CheckRatingFacility`, over the map in force.
unfoldable pub check_rating_facility : (ℤ → ℕ) → ℤ → ℕ → Bool
unfolding check_facility
check_rating_facility ratings r facility = check_facility (ratings r) facility

-- The short names of `Facilities`.
abbrev pub facilities : List Bytes
facilities =
    codes "Pilot"
    ∷ codes "OBS"
    ∷ codes "DEL"
    ∷ codes "GND"
    ∷ codes "TWR"
    ∷ codes "APP"
    ∷ codes "CTR"
    ∷ codes "FSS"
    ∷ []

-- `Facility.String`, which indexes the table by the bit itself; `none` is a run-time panic.
unfoldable pub facility_string : ℕ → Option Bytes
facility_string f = get_elem? facilities f

-- `Facility.Index`, whose map answers 0 for a byte that is not a single bit.
unfoldable pub facility_index : ℕ → ℕ
facility_index f =
    if f == 2
    then 1
    else if f == 4
    then 2
    else if f == 8
    then 3
    else if f == 16
    then 4
    else if f == 32
    then 5
    else if f == 64
    then 6
    else if f == 128
    then 7
    else 0

-- `Facility(1 << n)`: a byte that the bit has left is 0, and a negative shift panics.
unfoldable pub facility_bit : ℤ → Option ℕ
facility_bit (pos n) = some (if ltb n 8 then 2 ^ n else 0)
facility_bit (negsuc n) = none

-- `SyncRatingConfig`, over the entries in the order that the map's range gives; `none` is its error.
unfoldable pub sync_rating_config : (ℤ → ℕ) → List (Bytes × ℤ) → Option (ℤ → ℕ)
sync_rating_config ratings [] = some ratings
sync_rating_config ratings ((rating, facility) ∷ entries) =
    let r = str_to_int rating (negsuc 1) in
    let rest = sync_rating_config (λ q. if eq_ℤ q r then to_byte facility else ratings q) entries in
    if ltb_ℤ r ban || ltb_ℤ administrator r then none else rest
  where
    to_byte : ℤ → ℕ
    to_byte (pos n) = n % 256
    to_byte (negsuc n) = 255 - n % 256
