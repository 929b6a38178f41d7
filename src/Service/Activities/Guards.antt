-- ===== src/Service/Activities/Guards.antt =====
-- Who gets a station of an activity.
use netwingfs.Prelude.{ℕ, ◌≡◌, refl, Bool, false, arith}
use netwingfs.Prelude.Int.{ℤ, pos, leb_ℤ}
use netwingfs.Database.Model.{User}
use netwingfs.Database.Activity.{ActivityFacility}
use netwingfs.Database.Accounts.{Op, ok, err, OpError, get_user_by_uid}
use netwingfs.Database.Signups.{
  StaffedFacility, Signups, activity_is, cid_is, both, controller_id, get_facility_by_id,
  sign_facility_controller, sign_facility, create_error,
}
use netwingfs.Service.Response.{ApiStatus}
use netwingfs.Service.Web.{Web, W, ◌>>=◌, pure, gets, with_db}
use netwingfs.Service.Outcome.{Yields, Unchanged, after-refuse_if, after-check_error}
use netwingfs.Service.Activities.{ActivityConfig, controller_join, check_with, join_error}

module _ {D : Type 0} (signups : Signups D) where
  -- The account may take the station: its rating is above the station's least one, and the query for
  -- its own row among the activity's controllers finds none, or fails.
  abbrev pub MayTake : ActivityFacility → User → D → Type 0
  MayTake facility user d =
      (leb_ℤ user.rating facility.min_rating ≡ false)
      × (controller_id
            (signups.first_controller (both (activity_is facility.activity_id) (cid_is user.cid)) d)
          ≡ 0)

  sign_facility_controller-MayTake :
      (facility : ActivityFacility) (user : User) (d : D)
      → (sign_facility_controller signups facility user d).0 ≡ ok tt
      → MayTake facility user d
  unfolding sign_facility_controller sign_facility create_error
  sign_facility_controller-MayTake facility user d h = (ground arith, ground arith)

  sign_facility_controller-refused :
      (facility : ActivityFacility) (user : User) (d : D) (e : OpError)
      → (sign_facility_controller signups facility user d).0 ≡ err e
      → (sign_facility_controller signups facility user d).1 ≡ d
  unfolding sign_facility_controller sign_facility create_error
  sign_facility_controller-refused facility user d e h = ground arith

module _ {D A B : Type 0} (Q : A → Web D → Type 0) (R : ApiStatus → Web D → Type 0) where
  after-check_with :
      (reading : OpError → ApiStatus) (o : Op B) (w : Web D) (k : B → W D A)
      → ((e : OpError) → o ≡ err e → R (reading e) w)
      → ((b : B) → o ≡ ok b → Yields Q R (k b w))
      → Yields Q R ((check_with reading o >>= k) w)
  unfolding ◌>>=◌ check_with
  after-check_with reading (ok b) w k h g = g b refl
  after-check_with reading (err e) w k h g = h e refl

module _ {D : Type 0} (config : ActivityConfig D) where
  -- A controller who has joined, by the accounts and stations of the database.
  abbrev pub Joined : ℤ → ℕ → ℕ → Web D → Bool → Web D → Type 0
  Joined rating uid facility_id w answer w' =
      (user : User) × (facility : StaffedFacility) × (get_user_by_uid config.accounts uid w.db
        ≡ ok user)
      × (get_facility_by_id config.signups facility_id w.db ≡ ok facility)
      × (leb_ℤ rating (pos 1) ≡ false)
      × MayTake config.signups facility.0 user w.db

  -- A controller who joins has an account and a station of the database, a rating in the token above
  -- that of an observer, a rating in the database above the least one of the station, and the
  -- query for a row of that activity's controllers with its cid found none, or failed. A request that is refused leaves the database as it was.
  pub controller_join-Joined :
      (rating : ℤ) (uid facility_id : ℕ) (w : Web D)
      → Yields
          (Joined rating uid facility_id w)
          (Unchanged w)
          (controller_join config rating uid facility_id w)
  unfolding controller_join ◌>>=◌ gets with_db pure
  controller_join-Joined rating uid facility_id w =
      let Q = Joined rating uid facility_id w in
      let R = Unchanged w in
      after-refuse_if Q R (leb_ℤ rating (pos 1)) _ w _ (λ _. refl)
        (λ high.
          after-check_error Q R (get_user_by_uid config.accounts uid w.db) w _ (λ _ _. refl)
            (λ user known.
              after-check_error Q R (get_facility_by_id config.signups facility_id w.db) w _
                (λ _ _. refl)
                (λ facility found.
                  after-check_with Q R join_error
                    (sign_facility_controller config.signups facility.0 user w.db).0 _ _
                    (λ e h.
                      sign_facility_controller-refused config.signups facility.0 user w.db e h)
                    (λ _ h. (
                      user,
                      facility,
                      known,
                      found,
                      high,
                      sign_facility_controller-MayTake config.signups facility.0 user w.db h,
                    )))))
