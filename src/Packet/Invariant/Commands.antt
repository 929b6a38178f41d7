-- ===== src/Packet/Invariant/Commands.antt =====
-- The invariant under every command, and under lines, tasks, timers and ends of connections.
use netwingfs.Prelude.{ℕ, List, [], ◌∷◌}
use netwingfs.Prelude.Bytes.{Bytes}
use netwingfs.Fsd.Outcome.{Outcome}
use netwingfs.Fsd.Command.{Command, add_atc}
use netwingfs.Packet.State.{
  Env, Task, broadcast_task, tick_task, Timer, reconnect_timer, delete_timer, close_timer,
}
use netwingfs.Packet.Monad.{M}
use netwingfs.Packet.Positions.{
  with_client, handle_atc_pos_update, handle_pilot_pos_update, handle_atc_vis_point_update,
}
use netwingfs.Packet.Messages.{
  after_first, send_frequency_message, pass_on, plan_of, query_plan, change_altitude,
  query_altitude, special_query, server_query, handle_client_query, atis_line, keep_atis,
  handle_client_response, handle_message, handle_request, handle_squawk_box,
}
use netwingfs.Packet.PlanHandlers.{
  handle_plan, edit_plan, handle_atc_edit_plan, handle_kill_client, remove_client,
}
use netwingfs.Packet.Commands.{
  dispatch, handle_command, session_send_error, send_error, handle_line, end_connection, run_task,
  run_timer,
}
use netwingfs.Packet.Invariant.{Keeps}
use netwingfs.Packet.Invariant.Primitives.{keeps_rules}
use netwingfs.Packet.Invariant.Clients.{client_rules}
use netwingfs.Packet.Invariant.Handlers.{manager_rules}

module _ {F D : Type 0} where
  Keeps-with_client :
      (i : ℕ) {k : ℕ → M F D Outcome} → ((c : ℕ) → Keeps (k c)) → Keeps (with_client i k)
  unfolding with_client
  Keeps-with_client i h = search keeps_rules depth 20

module _ {F D : Type 0} (env : Env F D) where
  Keeps-handle_atc_pos_update :
      (i : ℕ) (fs : List Bytes) (line : Bytes) → Keeps (handle_atc_pos_update env i fs line)
  unfolding handle_atc_pos_update
  Keeps-handle_atc_pos_update i fs line = search (client_rules, Keeps-with_client) depth 30

  Keeps-handle_pilot_pos_update :
      (i : ℕ) (fs : List Bytes) (line : Bytes) → Keeps (handle_pilot_pos_update env i fs line)
  unfolding handle_pilot_pos_update
  Keeps-handle_pilot_pos_update i fs line = search (client_rules, Keeps-with_client) depth 30

  Keeps-handle_atc_vis_point_update :
      (i : ℕ) (fs : List Bytes) → Keeps (handle_atc_vis_point_update env i fs)
  unfolding handle_atc_vis_point_update
  Keeps-handle_atc_vis_point_update i fs = search (client_rules, Keeps-with_client) depth 30

  Keeps-after_first : (s : Bytes) → Keeps (after_first env s)
  unfolding after_first
  Keeps-after_first [] = search keeps_rules
  Keeps-after_first (c ∷ s) = search keeps_rules

  Keeps-send_frequency_message :
      (i : ℕ) (k line : Bytes) → Keeps (send_frequency_message env i k line)
  unfolding send_frequency_message
  Keeps-send_frequency_message i k line = search (keeps_rules, Keeps-after_first) depth 20

  Keeps-pass_on : (i : ℕ) (k line : Bytes) → Keeps (pass_on env i k line)
  unfolding pass_on
  Keeps-pass_on i k line = search (manager_rules, Keeps-send_frequency_message) depth 20

  Keeps-plan_of : (k : Bytes) → Keeps (plan_of env k)
  unfolding plan_of
  Keeps-plan_of k = search keeps_rules depth 20

  Keeps-query_plan : (c : ℕ) (fs : List Bytes) → Keeps (query_plan env c fs)
  unfolding query_plan
  Keeps-query_plan c fs = search (client_rules, Keeps-plan_of) depth 20

  Keeps-change_altitude : (c : ℕ) (k : Bytes) → Keeps (change_altitude env c k)
  unfolding change_altitude
  Keeps-change_altitude c k = search keeps_rules depth 20

  Keeps-query_altitude : (c : ℕ) (fs : List Bytes) → Keeps (query_altitude env c fs)
  unfolding query_altitude
  Keeps-query_altitude c fs = search (keeps_rules, Keeps-change_altitude) depth 20

  Keeps-special_query : (c : ℕ) (fs : List Bytes) (k : Bytes) → Keeps (special_query env c fs k)
  unfolding special_query
  Keeps-special_query c fs k = search (keeps_rules, Keeps-query_altitude)

  Keeps-server_query : (c : ℕ) (fs : List Bytes) (k : Bytes) → Keeps (server_query env c fs k)
  unfolding server_query
  Keeps-server_query c fs k = search (keeps_rules, Keeps-query_plan)

  Keeps-handle_client_query :
      (i : ℕ) (fs : List Bytes) (line : Bytes) → Keeps (handle_client_query env i fs line)
  unfolding handle_client_query
  Keeps-handle_client_query i fs line =
      search
        (keeps_rules, Keeps-with_client, Keeps-server_query, Keeps-special_query, Keeps-pass_on)
        depth 20

  Keeps-atis_line : (c : ℕ) (fs : List Bytes) → Keeps (atis_line env c fs)
  unfolding atis_line
  Keeps-atis_line c fs = search client_rules depth 20

  Keeps-keep_atis : (c : ℕ) (fs : List Bytes) (k : Bytes) → Keeps (keep_atis env c fs k)
  unfolding keep_atis
  Keeps-keep_atis c fs k = search (client_rules, Keeps-atis_line) depth 20

  Keeps-handle_client_response :
      (i : ℕ) (fs : List Bytes) (line : Bytes) → Keeps (handle_client_response env i fs line)
  unfolding handle_client_response
  Keeps-handle_client_response i fs line =
      search (keeps_rules, Keeps-with_client, Keeps-keep_atis, Keeps-pass_on) depth 20

  Keeps-handle_message :
      (i : ℕ) (fs : List Bytes) (line : Bytes) → Keeps (handle_message env i fs line)
  unfolding handle_message
  Keeps-handle_message i fs line = search (keeps_rules, Keeps-pass_on) depth 20

  Keeps-handle_request : (fs : List Bytes) (line : Bytes) → Keeps (handle_request env fs line)
  unfolding handle_request
  Keeps-handle_request fs line = search manager_rules depth 20

  Keeps-handle_squawk_box :
      (i : ℕ) (fs : List Bytes) (line : Bytes) → Keeps (handle_squawk_box env i fs line)
  unfolding handle_squawk_box
  Keeps-handle_squawk_box i fs line = search (client_rules, Keeps-with_client) depth 20

  Keeps-handle_plan : (i : ℕ) (fs : List Bytes) (line : Bytes) → Keeps (handle_plan env i fs line)
  unfolding handle_plan
  Keeps-handle_plan i fs line = search (client_rules, Keeps-with_client) depth 20

  Keeps-edit_plan : (c t : ℕ) (fs : List Bytes) → Keeps (edit_plan env c t fs)
  unfolding edit_plan
  Keeps-edit_plan c t fs = search client_rules depth 20

  Keeps-handle_atc_edit_plan : (i : ℕ) (fs : List Bytes) → Keeps (handle_atc_edit_plan env i fs)
  unfolding handle_atc_edit_plan
  Keeps-handle_atc_edit_plan i fs =
      search (keeps_rules, Keeps-with_client, Keeps-edit_plan) depth 20

  Keeps-handle_kill_client : (i : ℕ) (fs : List Bytes) → Keeps (handle_kill_client env i fs)
  unfolding handle_kill_client
  Keeps-handle_kill_client i fs = search (client_rules, Keeps-with_client) depth 20

  Keeps-remove_client : (i : ℕ) → Keeps (remove_client env i)
  unfolding remove_client
  Keeps-remove_client i = search keeps_rules depth 20

ruleset handler_rules = (
  manager_rules, Keeps-handle_atc_pos_update, Keeps-handle_pilot_pos_update,
  Keeps-handle_atc_vis_point_update, Keeps-handle_client_query, Keeps-handle_client_response,
  Keeps-handle_message, Keeps-handle_request, Keeps-handle_squawk_box, Keeps-handle_plan,
  Keeps-handle_atc_edit_plan, Keeps-handle_kill_client, Keeps-remove_client,
)

module _ {F D : Type 0} (env : Env F D) where
  Keeps-dispatch :
      (i : ℕ) (c : Command) (fs : List Bytes) (line : Bytes) → Keeps (dispatch env i c fs line)
  unfolding dispatch
  Keeps-dispatch i add_atc fs line = search handler_rules
  Keeps-dispatch i _ fs line = search handler_rules

  Keeps-handle_command :
      (i : ℕ) (c : Command) (fs : List Bytes) (line : Bytes)
      → Keeps (handle_command env i c fs line)
  unfolding handle_command
  Keeps-handle_command i c fs line = search (keeps_rules, Keeps-dispatch) depth 20

  Keeps-session_send_error : (i : ℕ) (r : Outcome) → Keeps (session_send_error env i r)
  unfolding session_send_error
  Keeps-session_send_error i r = search client_rules depth 20

  Keeps-send_error : (i : ℕ) (r : Outcome) → Keeps (send_error env i r)
  unfolding send_error
  Keeps-send_error i r = search (client_rules, Keeps-session_send_error) depth 20

  -- Whatever line a session receives, handling it keeps the table of clients well formed.
  pub Keeps-handle_line : (i : ℕ) (line : Bytes) → Keeps (handle_line env i line)
  unfolding handle_line
  Keeps-handle_line i line = search (keeps_rules, Keeps-handle_command, Keeps-send_error) depth 20

  pub Keeps-end_connection : (i : ℕ) → Keeps (end_connection env i)
  unfolding end_connection
  Keeps-end_connection i = search manager_rules depth 20

  pub Keeps-run_task : (t : Task F) → Keeps (run_task env t)
  unfolding run_task
  Keeps-run_task (broadcast_task line from_client filter) = search manager_rules
  Keeps-run_task (tick_task c) = search client_rules

  pub Keeps-run_timer : (t : Timer) → Keeps (run_timer env t)
  unfolding run_timer
  Keeps-run_timer (reconnect_timer c) = search client_rules
  Keeps-run_timer (delete_timer k) = search keeps_rules
  Keeps-run_timer (close_timer i) = search keeps_rules
