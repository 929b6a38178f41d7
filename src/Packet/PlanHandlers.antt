-- ===== src/Packet/PlanHandlers.antt =====
-- internal/fsd_server/packet/command_handler.go: flight plans, and the removal of clients.
pub mod Authority
use netwingfs.Prelude.{
  ℕ, Bool, true, false, not, ◌&&◌, Option, none, some, List, [], ◌∷◌, drop, if◌then◌else◌,
}
use netwingfs.Prelude.Bytes.{Bytes}
use netwingfs.Fsd.Command.{all_atc}
use netwingfs.Fsd.Outcome.{
  Outcome, result_success, result_error, syntax, source_callsign_invalid, no_callsign_found,
}
use netwingfs.Fsd.Rating.{allow_atc_facility, allow_kill_rating, facility_string}
use netwingfs.Database.Model.{FlightPlan}
use netwingfs.Database.Plans.{PlanError, to_string}
use netwingfs.Packet.State.{Client, Env}
use netwingfs.Packet.Monad.{
  M, ◌>>=◌, if_nil, ◌>>◌, pure, deref, field, get_client, modify_client, get_session, when,
}
use netwingfs.Packet.Registry.{find_client}
use netwingfs.Packet.Client.{marked_disconnect}
use netwingfs.Packet.Updates.{
  client_check_facility, client_check_rating, client_upsert_flight_plan, change_plan,
}
use netwingfs.Packet.Positions.{with_client}
use netwingfs.Packet.Messages.{atc_task}

module _ {F D : Type 0} (env : Env F D) where
  -- `handlePlan`.
  unfoldable pub handle_plan : ℕ → List Bytes → Bytes → M F D Outcome
  unfolding with_client client_upsert_flight_plan
  handle_plan i fields raw_line = with_client i (λ c. do
    client ← get_client c
    if client.is_atc then pure (result_error syntax false client.callsign) else do
      problem ← client_upsert_flight_plan env c fields
      if_nil problem
          (do
            changed ← get_client c
            p ← deref changed.flight_plan
            when (not p.locked) (atc_task env raw_line c)
            pure result_success)
          (λ _. pure (result_error syntax false client.callsign)))

  -- The edit itself. The source's test for a missing plan compares the method `FlightPlan` with
  -- nil, which never holds, so the plan's pointer is used unchecked.
  unfoldable pub edit_plan : ℕ → ℕ → List Bytes → M F D Outcome
  unfolding change_plan
  edit_plan c t fields = do
    client ← get_client c
    target ← get_client t
    p ← deref target.flight_plan
    problem ←
        change_plan env t (record p { locked = not env.simulator_server }) (drop 1 fields) true
    if_nil problem
        (do
          changed ← get_client t
          q ← deref changed.flight_plan
          atc_task env (to_string q all_atc) c
          pure result_success)
        (λ _. pure (result_error syntax false client.callsign))

  -- `handleAtcEditPlan`.
  unfoldable pub handle_atc_edit_plan : ℕ → List Bytes → M F D Outcome
  unfolding with_client client_check_facility edit_plan facility_string
  handle_atc_edit_plan i fields = with_client i (λ c. do
    client ← get_client c
    if not client.is_atc
        then pure (result_error syntax false client.callsign)
        else if not (client_check_facility client allow_atc_facility)
        then (do
          _ ← deref (facility_string client.facility)
          pure (result_error syntax false client.callsign))
        else (do
          name ← field fields 2
          target ← find_client name
          if_nil target (pure (result_error source_callsign_invalid false client.callsign))
              (λ t. edit_plan c t fields)))

  -- `handleKillClient`.
  unfoldable pub handle_kill_client : ℕ → List Bytes → M F D Outcome
  unfolding with_client client_check_rating facility_string marked_disconnect
  handle_kill_client i fields = with_client i (λ c. do
    client ← get_client c
    if not (client.is_atc && client_check_rating client allow_kill_rating)
        then (do
          _ ← deref (facility_string client.facility)
          pure (result_error syntax false client.callsign))
        else (do
          name ← field fields 1
          target ← find_client name
          if_nil target (pure (result_error no_callsign_found false client.callsign))
              (λ t. (do marked_disconnect env t false; pure result_success))))

  -- `removeClient`, whose log line uses the session's client unchecked.
  unfoldable pub remove_client : ℕ → M F D Outcome
  remove_client i = do session ← get_session i; _ ← deref session.client; pure result_success
