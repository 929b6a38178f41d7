-- ===== src/Fsd/Distance.antt =====
-- internal/interfaces/fsd/position.go and distance_utils.go.
use netwingfs.Prelude.{Bool, not, ◌&&◌, List, [], ◌∷◌, if◌then◌else◌}
use netwingfs.Packet.State.{Floats, Position}

module _ {F : Type 0} (floats : Floats F) where
  open floats use {of_nat, pi, max_float, add, subtract, multiply, divide, sin, cos, acos, eq, lt}

  -- `PositionValid`.
  unfoldable pub position_valid : Position F → Bool
  position_valid p = not (eq p.latitude (of_nat 0)) && not (eq p.longitude (of_nat 0))

  abbrev radians : F → F
  radians x = divide (multiply x pi) (of_nat 180)

  -- `DistanceInNauticalMiles`.
  unfoldable pub distance_in_nautical_miles : Position F → Position F → F
  distance_in_nautical_miles p1 p2 =
      let lat1 = radians p1.latitude in
      let lon1 = radians p1.longitude in
      let lat2 = radians p2.latitude in
      let lon2 = radians p2.longitude in
      let central_angle = acos (
        add (multiply (sin lat1) (sin lat2))
          (multiply (multiply (cos lat1) (cos lat2)) (cos (subtract lon2 lon1)))) in
      divide (multiply (of_nat 6371000) central_angle) (of_nat 1852)

  -- The inner loop of `FindNearestDistance`.
  unfoldable pub nearest_to : Position F → List (Position F) → F → F
  unfolding position_valid distance_in_nautical_miles
  nearest_to a [] least = least
  nearest_to a (b ∷ bs) least =
      let distance = distance_in_nautical_miles a b in
      nearest_to a bs
        (if position_valid b then (if lt distance least then distance else least) else least)

  -- The outer loop.
  unfoldable pub nearest_from : List (Position F) → List (Position F) → F → F
  unfolding nearest_to
  nearest_from [] bs least = least
  nearest_from (a ∷ as') bs least =
      nearest_from as' bs (if position_valid a then nearest_to a bs least else least)

  -- `FindNearestDistance`.
  unfoldable pub find_nearest_distance : List (Position F) → List (Position F) → F
  unfolding nearest_from
  find_nearest_distance group_a group_b = nearest_from group_a group_b max_float
