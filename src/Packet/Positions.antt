-- ===== src/Packet/Positions.antt =====
-- internal/fsd_server/packet/command_handler.go: position updates.
use netwingfs.Prelude.{ℕ, true, false, not, List, if◌then◌else◌}
use netwingfs.Prelude.Bytes.{Bytes, codes}
use netwingfs.Prelude.Int.{pos, to_uint32}
use netwingfs.Utils.Cast.{str_to_int}
use netwingfs.Fsd.Outcome.{Outcome, result_success, result_error, request_level_too_high, syntax}
use netwingfs.Fsd.Rating.{check_rating_facility, facility_bit}
use netwingfs.Packet.State.{Env}
use netwingfs.Packet.Monad.{M, ◌>>=◌, if_nil, ◌>>◌, pure, deref, field, get_session}
use netwingfs.Packet.Updates.{update_atc_pos, update_pilot_pos, update_atc_vis_point}
use netwingfs.Packet.Login.{str_to_float, in_range_task}

-- The answer to a session that has not logged in.
abbrev pub not_registered : Outcome
not_registered = result_error syntax false (codes "")

module _ {F D : Type 0} where
  -- `if session.client == nil { return … }`.
  unfoldable pub with_client : ℕ → (ℕ → M F D Outcome) → M F D Outcome
  with_client i k = do
    session ← get_session i
    if_nil session.client (pure not_registered) (λ c. k c)

module _ {F D : Type 0} (env : Env F D) where
  -- `handleAtcPosUpdate`.
  unfoldable pub handle_atc_pos_update : ℕ → List Bytes → Bytes → M F D Outcome
  unfolding with_client update_atc_pos str_to_float
  handle_atc_pos_update i fields raw_line = do
    callsign ← field fields 0
    facility_text ← field fields 2
    facility ← deref (facility_bit (str_to_int facility_text (pos 0)))
    rating_text ← field fields 4
    if not (check_rating_facility env.ratings (str_to_int rating_text (pos 0)) facility)
        then pure (result_error request_level_too_high true callsign)
        else (do
          frequency ← field fields 1
          visual_range ← field fields 3
          lat ← field fields 5
          lon ← field fields 6
          with_client i (λ c. do
            in_range_task env raw_line c
            update_atc_pos c (str_to_int frequency (pos 0)) facility (str_to_float env visual_range)
                (str_to_float env lat) (str_to_float env lon)
            pure result_success))

  -- `handlePilotPosUpdate`.
  unfoldable pub handle_pilot_pos_update : ℕ → List Bytes → Bytes → M F D Outcome
  unfolding with_client update_pilot_pos str_to_float
  handle_pilot_pos_update i fields raw_line = do
    transponder ← field fields 2
    lat ← field fields 4
    lon ← field fields 5
    altitude ← field fields 6
    ground_speed ← field fields 7
    pbh ← field fields 8
    with_client i (λ c. do
      in_range_task env raw_line c
      update_pilot_pos c (str_to_int transponder (pos 0)) (str_to_float env lat)
          (str_to_float env lon) (str_to_int altitude (pos 0)) (str_to_int ground_speed (pos 0))
          (to_uint32 (str_to_int pbh (pos 0)))
      pure result_success)

  -- `handleAtcVisPointUpdate`.
  unfoldable pub handle_atc_vis_point_update : ℕ → List Bytes → M F D Outcome
  unfolding with_client update_atc_vis_point str_to_float
  handle_atc_vis_point_update i fields = do
    vis_pos ← field fields 1
    lat ← field fields 2
    lon ← field fields 3
    with_client i (λ c. do
      _ ←
          update_atc_vis_point c (str_to_int vis_pos (pos 0)) (str_to_float env lat)
            (str_to_float env lon)
      pure result_success)
