-- ===== src/Packet/Updates.antt =====
-- internal/fsd_server/packet/client.go: what packets change in a client.
use netwingfs.Prelude.{
  ℕ, suc, Bool, true, false, not, ◌||◌, Option, none, some, List, [], ◌∷◌, ◌++◌, set, ltb,
  if◌then◌else◌,
}
use netwingfs.Prelude.Bytes.{Bytes, bytes_eq}
use netwingfs.Prelude.Int.{ℤ, pos, negsuc, eq_ℤ}
use netwingfs.Utils.Format.{show_padded}
use netwingfs.Fsd.Rating.{check_facility}
use netwingfs.Database.Model.{FlightPlan}
use netwingfs.Database.Plans.{PlanError, upsert_flight_plan, update_flight_plan}
use netwingfs.Packet.State.{Client, Env, Position, tick_task}
use netwingfs.Packet.Monad.{
  M, ◌>>=◌, if_nil, ◌>>◌, pure, crash, field, get_client, modify_client, start, with_db,
}

-- `slices.Contains(rating, client.rating)`.
abbrev pub contains_rating : List ℤ → ℤ → Bool
contains_rating [] r = false
contains_rating (q ∷ qs) r = eq_ℤ q r || contains_rating qs r

module _ {F D : Type 0} where
  -- `SetPosition`: whether the index is in range; a negative one panics.
  unfoldable pub set_position : ℕ → ℤ → F → F → M F D Bool
  set_position c (negsuc i) lat lon = crash
  set_position c (pos i) lat lon =
      let at : Position F = record { latitude = lat; longitude = lon } in
      if ltb i 4
      then (do modify_client c (λ x. record x { position = set x.position i at }); pure true)
      else pure false

  -- `UpdatePilotPos`.
  unfoldable pub update_pilot_pos : ℕ → ℤ → F → F → ℤ → ℤ → ℕ → M F D (Unit {0})
  unfolding set_position
  update_pilot_pos c transponder lat lon alt ground_speed pbh = do
    _ ← set_position c (pos 0) lat lon
    modify_client c (λ x. record x {
      transponder = show_padded 4 transponder;
      altitude = alt;
      ground_speed = ground_speed;
      pbh = pbh;
    })
    start (tick_task c)

  -- `UpdateAtcPos`.
  unfoldable pub update_atc_pos : ℕ → ℤ → ℕ → F → F → F → M F D (Unit {0})
  unfolding set_position
  update_atc_pos c frequency facility visual_range lat lon = do
    _ ← set_position c (pos 0) lat lon
    modify_client c
        (λ x. record x { frequency = frequency; facility = facility; visual_range = visual_range })

  -- `UpdateAtcVisPoint`: whether the index is in range.
  unfoldable pub update_atc_vis_point : ℕ → ℤ → F → F → M F D Bool
  unfolding set_position
  update_atc_vis_point c (negsuc i) lat lon = pure false
  update_atc_vis_point c (pos i) lat lon =
      if ltb 2 i then pure false else set_position c (pos (suc i)) lat lon

  -- `AddAtcAtisInfo`.
  unfoldable pub add_atc_atis_info : ℕ → Bytes → M F D (Unit {0})
  add_atc_atis_info c info =
      modify_client c (λ x. record x { atis_info = x.atis_info ++ info ∷ [] })

module _ {F : Type 0} where
  -- `CheckFacility` and `CheckRating` of a client.
  unfoldable pub client_check_facility : Client F → ℕ → Bool
  unfolding check_facility
  client_check_facility client facility = check_facility facility client.facility

  unfoldable pub client_check_rating : Client F → List ℤ → Bool
  client_check_rating client ratings = contains_rating ratings client.rating

module _ {F D : Type 0} (env : Env F D) where
  -- `client.flightPlan = flightPlan`, where there was no error.
  unfoldable pub keep_plan : ℕ → Option FlightPlan → Option PlanError → M F D (Option PlanError)
  keep_plan c made (some e) = pure (some e)
  keep_plan c made none = do modify_client c (λ x. record x { flight_plan = made }); pure none

  -- The branch of `UpsertFlightPlan` for a client without a plan.
  unfoldable pub create_plan : ℕ → List Bytes → M F D (Option PlanError)
  unfolding keep_plan
  create_plan c fields = do
    client ← get_client c
    (made, problem) ← with_db (λ d.
        let (p, e, d1) =
          upsert_flight_plan env.database env.simulator_server client.user client.callsign fields
            d in
        ((p, e), d1))
    keep_plan c made problem

  -- `UpdateFlightPlan` on the client's plan, which it changes in place.
  unfoldable pub change_plan : ℕ → FlightPlan → List Bytes → Bool → M F D (Option PlanError)
  change_plan c p fields atc_edit = do
    reply ← with_db (λ d.
        let r = update_flight_plan env.database env.simulator_server p fields atc_edit d in
        (r, r.state))
    modify_client c (λ x. record x { flight_plan = some reply.flight_plan })
    pure reply.error

  abbrev pub unlocked_if : Bool → FlightPlan → FlightPlan
  unlocked_if true p = record p { locked = false }
  unlocked_if false p = p

  -- The unlocking of a locked plan whose departure or arrival changes.
  unfoldable pub unlock_changed : FlightPlan → List Bytes → M F D FlightPlan
  unlock_changed p fields =
      if p.locked
      then (do
        departure ← field fields 5
        arrival ← field fields 9
        pure (
            unlocked_if
              (not (bytes_eq p.departure_airport departure)
                || not (bytes_eq p.arrival_airport arrival))
              p))
      else pure p

  -- The branch for a client with a plan.
  unfoldable pub amend_plan : ℕ → List Bytes → FlightPlan → M F D (Option PlanError)
  unfolding change_plan unlock_changed
  amend_plan c fields p =
      if env.simulator_server
      then pure none
      else do q ← unlock_changed p fields; change_plan c q fields false

  -- `UpsertFlightPlan` of a client.
  unfoldable pub client_upsert_flight_plan : ℕ → List Bytes → M F D (Option PlanError)
  unfolding create_plan amend_plan
  client_upsert_flight_plan c fields = do
    client ← get_client c
    if_nil client.flight_plan (create_plan c fields) (λ p. amend_plan c fields p)
