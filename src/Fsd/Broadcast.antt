-- ===== src/Fsd/Broadcast.antt =====
-- internal/interfaces/fsd/broadcast.go: which clients a message is for.
use netwingfs.Prelude.{true, false, not, ◌&&◌, Option, none, some, List, [], ◌∷◌, if◌then◌else◌}
use netwingfs.Prelude.Int.{leb_ℤ}
use netwingfs.Fsd.Rating.{supervisor}
use netwingfs.Fsd.Distance.{find_nearest_distance}
use netwingfs.Packet.State.{Floats, Client, BroadcastFilter}

module _ {F : Type 0} where
  -- `BroadcastToAll`.
  unfoldable pub broadcast_to_all : BroadcastFilter F
  broadcast_to_all to_client from_client = true

  -- `BroadcastToAtc`.
  unfoldable pub broadcast_to_atc : BroadcastFilter F
  broadcast_to_atc to_client from_client = to_client.is_atc

  -- `BroadcastToSup`.
  unfoldable pub broadcast_to_sup : BroadcastFilter F
  broadcast_to_sup to_client from_client =
      if not to_client.is_atc then false else leb_ℤ supervisor to_client.rating

  -- `CombineBroadcastFilter`; a nil filter is skipped.
  unfoldable pub combine_broadcast_filter : List (Option (BroadcastFilter F)) → BroadcastFilter F
  combine_broadcast_filter [] to_client from_client = true
  combine_broadcast_filter (none ∷ fs) to_client from_client =
      combine_broadcast_filter fs to_client from_client
  combine_broadcast_filter (some f ∷ fs) to_client from_client =
      let rest = combine_broadcast_filter fs to_client from_client in
      if not (f to_client from_client) then false else rest

module _ {F : Type 0} (floats : Floats F) where
  -- The threshold of `BroadcastToClientInRange`.
  unfoldable pub range_threshold : Client F → Client F → F
  range_threshold to_client from_client =
      if to_client.is_atc && from_client.is_atc
      then floats.larger to_client.visual_range from_client.visual_range
      else if to_client.is_atc
      then to_client.visual_range
      else if from_client.is_atc
      then from_client.visual_range
      else floats.add to_client.visual_range from_client.visual_range

  -- `BroadcastToClientInRange`.
  unfoldable pub broadcast_to_client_in_range : BroadcastFilter F
  unfolding range_threshold
  broadcast_to_client_in_range to_client none = true
  broadcast_to_client_in_range to_client (some from_client) =
      floats.le (find_nearest_distance floats to_client.position from_client.position)
        (range_threshold to_client from_client)
