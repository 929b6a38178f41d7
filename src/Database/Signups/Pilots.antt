-- ===== src/Database/Signups/Pilots.antt =====
-- Pilots who sign up for an activity: one row for an account, and one for a callsign.
use netwingfs.Prelude.{ℕ, ◌≡◌, Bool, true, false, ◌&&◌, ◌||◌, ◌==◌}
use netwingfs.Prelude.Bytes.{Bytes, bytes_eq}
use netwingfs.Prelude.Int.{ℤ, eq_ℤ}
use netwingfs.Database.Model.{found}
use netwingfs.Database.Accounts.{err, OpError}
use netwingfs.Database.Signups.{
  Condition, activity_is, facility_is, cid_is, callsign_is, both, either, Signups, ActivityPilot,
  created, sign_activity_pilot,
}

-- Whether a row has what a condition asks for; a row of a pilot has no station.
unfoldable pub holds : Condition → ActivityPilot → Bool
unfolding bytes_eq
holds (activity_is id) row = row.activity_id == id
holds (facility_is id) row = false
holds (cid_is cid) row = eq_ℤ row.cid cid
holds (callsign_is callsign) row = bytes_eq row.callsign callsign
holds (both p q) row = let l = holds p row in let r = holds q row in l && r
holds (either p q) row = let l = holds p row in let r = holds q row in l || r

-- What the code relies on: the database has a table of rows; `Create`, where there was no error, has
-- put the row there with a new id; and `First` finds a row where one meets the condition.
pub record IsTable {D : Type 0} (signups : Signups D) (In : ActivityPilot → D → Type 0)
    : Type 0 where
  pub create_pilot-In :
      (row : ActivityPilot) (d : D)
      → (signups.create_pilot row d).0 ≡ created
      → (id : ℕ) × In (record row { id = id }) ((signups.create_pilot row d).1)
  pub first_pilot-found :
      (condition : Condition) (row : ActivityPilot) (d : D)
      → In row d
      → holds condition row ≡ true
      → (pilot : ActivityPilot) × (signups.first_pilot condition d ≡ found pilot)

module _ {D : Type 0} (signups : Signups D) where
  -- The request is refused, and the database left as it is.
  abbrev pub Refused : ℕ → ℤ → Bytes → Bytes → D → Type 0
  Refused id cid callsign aircraft_type d =
      (e : OpError) × (sign_activity_pilot signups id cid callsign aircraft_type d ≡ (err e, d))
