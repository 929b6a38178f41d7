-- ===== src/Packet/Commands.antt =====
-- internal/fsd_server/packet/command_handler.go and connection_handler.go: from a line to its
-- handler, and the life of a connection.
use netwingfs.Prelude.{
  ℕ, true, false, not, Option, none, some, List, [], ◌∷◌, length, ltb, if◌then◌else◌,
}
use netwingfs.Prelude.Bytes.{Bytes}
use netwingfs.Prelude.Int.{pos}
use netwingfs.Utils.Format.{show_padded}
use netwingfs.Fsd.Command.{
  Command, add_atc, remove_atc, add_pilot, remove_pilot, pro_controller, pilot_position,
  atc_position, atc_sub_vis_point, message, squawk_box, request_handoff, accept_handoff, plan,
  atc_edit_plan, kill_client, error, client_query, client_response, CommandRequirement,
  command_requirements, fsd_server_name,
}
use netwingfs.Fsd.Outcome.{Outcome, result_success, result_error, syntax, errno_index, errno_string}
use netwingfs.Fsd.Broadcast.{broadcast_to_client_in_range}
use netwingfs.Packet.Lines.{parser_command_line}
use netwingfs.Packet.State.{
  Env, Task, broadcast_task, tick_task, Timer, reconnect_timer, delete_timer, close_timer,
}
use netwingfs.Packet.Monad.{
  M, ◌>>=◌, if_nil, ◌>>◌, pure, get_client, get_session, modify_session, after_func, write, when,
}
use netwingfs.Packet.Registry.{delete_client}
use netwingfs.Packet.Client.{packet, tick_path, delete, marked_disconnect}
use netwingfs.Packet.Sending.{client_send_error}
use netwingfs.Packet.Manager.{broadcast_message}
use netwingfs.Packet.Login.{handle_add_atc, handle_add_pilot}
use netwingfs.Packet.Positions.{
  handle_atc_pos_update, handle_pilot_pos_update, handle_atc_vis_point_update,
}
use netwingfs.Packet.Messages.{
  handle_client_query, handle_client_response, handle_message, handle_request, handle_squawk_box,
}
use netwingfs.Packet.PlanHandlers.{
  handle_plan, handle_atc_edit_plan, handle_kill_client, remove_client,
}

-- `checkPacketLength`, with the lookup before it.
unfoldable pub check_packet_length : Bytes → List Bytes → Option CommandRequirement → Option Outcome
check_packet_length callsign fields none = none
check_packet_length callsign fields (some r) =
    if ltb (length fields) r.require_length
    then some (result_error syntax r.fatal callsign)
    else none

module _ {F D : Type 0} (env : Env F D) where
  -- The `switch` of `handleCommand`.
  unfoldable pub dispatch : ℕ → Command → List Bytes → Bytes → M F D Outcome
  dispatch i add_atc fields raw_line = handle_add_atc env i fields raw_line
  dispatch i add_pilot fields raw_line = handle_add_pilot env i fields raw_line
  dispatch i request_handoff fields raw_line = handle_request env fields raw_line
  dispatch i accept_handoff fields raw_line = handle_request env fields raw_line
  dispatch i pro_controller fields raw_line = handle_request env fields raw_line
  dispatch i pilot_position fields raw_line = handle_pilot_pos_update env i fields raw_line
  dispatch i plan fields raw_line = handle_plan env i fields raw_line
  dispatch i atc_edit_plan fields raw_line = handle_atc_edit_plan env i fields
  dispatch i kill_client fields raw_line = handle_kill_client env i fields
  dispatch i atc_position fields raw_line = handle_atc_pos_update env i fields raw_line
  dispatch i atc_sub_vis_point fields raw_line = handle_atc_vis_point_update env i fields
  dispatch i message fields raw_line = handle_message env i fields raw_line
  dispatch i client_query fields raw_line = handle_client_query env i fields raw_line
  dispatch i client_response fields raw_line = handle_client_response env i fields raw_line
  dispatch i remove_atc fields raw_line = remove_client env i
  dispatch i remove_pilot fields raw_line = remove_client env i
  dispatch i squawk_box fields raw_line = handle_squawk_box env i fields raw_line
  dispatch i _ fields raw_line = pure result_success

  -- `handleCommand`.
  unfoldable pub handle_command : ℕ → Command → List Bytes → Bytes → M F D Outcome
  unfolding check_packet_length
  handle_command i command fields raw_line = do
    session ← get_session i
    if_nil (check_packet_length session.callsign fields (command_requirements command))
        (dispatch i command fields raw_line) (λ result. pure result)

  -- `SendError` of a session without a client.
  unfoldable pub session_send_error : ℕ → Outcome → M F D (Unit {0})
  unfolding packet
  session_send_error i result = do
    session ← get_session i
    line ← packet env error (
        fsd_server_name
        ∷ session.callsign
        ∷ show_padded 3 (pos (errno_index result.errno))
        ∷ result.env
        ∷ errno_string result.errno
        ∷ [])
    write i line
    when result.fatal
        (do modify_session i (λ x. record x { disconnected = true }); after_func (close_timer i))

  -- `SendError` of a session.
  unfoldable pub send_error : ℕ → Outcome → M F D (Unit {0})
  unfolding session_send_error client_send_error
  send_error i result = if result.success then pure tt else do
    session ← get_session i
    if_nil session.client (session_send_error i result) (λ c. client_send_error env c result)

  -- `handleLine`.
  unfoldable pub handle_line : ℕ → Bytes → M F D (Unit {0})
  unfolding handle_command send_error
  handle_line i line = do
    session ← get_session i
    if session.disconnected then pure tt else do
      let (command, fields) = parser_command_line line
      result ← handle_command i command fields line
      when (not result.success) (send_error i result)

  -- The end of `HandleConnection`, after the last line.
  unfoldable pub end_connection : ℕ → M F D (Unit {0})
  unfolding broadcast_message marked_disconnect packet
  end_connection i = do
    session ← get_session i
    if_nil session.client (pure tt) (λ c. (do
      client ← get_client c
      line ←
          packet env (if client.is_atc then remove_atc else remove_pilot)
            (client.callsign ∷ fsd_server_name ∷ [])
      broadcast_message env line (some c) (broadcast_to_client_in_range env.floats)
      marked_disconnect env c false))
    modify_session i (λ x. record x { conn_open = false })

  -- A goroutine that was started.
  unfoldable pub run_task : Task F → M F D (Unit {0})
  unfolding broadcast_message tick_path
  run_task (broadcast_task line from_client filter) = broadcast_message env line from_client filter
  run_task (tick_task c) = tick_path env c

  -- A timer that runs out.
  unfoldable pub run_timer : Timer → M F D (Unit {0})
  unfolding delete
  run_timer (reconnect_timer c) = delete env c
  run_timer (delete_timer callsign) = do _ ← delete_client callsign; pure tt
  run_timer (close_timer i) = modify_session i (λ x. record x { conn_open = false })
