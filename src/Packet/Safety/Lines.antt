-- ===== src/Packet/Safety/Lines.antt =====
-- From handlers to whole lines: which commands no packet can make panic, and which ones one can.
use netwingfs.Prelude.{
  ℕ, ◌≡◌, refl, Bool, true, false, none, some, List, [], ◌∷◌, ltb, length, Bool-cases, arith, ◌⊎◌,
  inl, inr,
}
use netwingfs.Prelude.Bytes.{Bytes, codes, bytes_eq}
use netwingfs.Fsd.Command.{
  Command, add_atc, remove_atc, add_pilot, remove_pilot, pro_controller, pilot_position,
  atc_position, atc_sub_vis_point, message, squawk_box, request_handoff, accept_handoff, plan,
  atc_edit_plan, kill_client, error, client_query, client_response, temp_data, CommandRequirement,
  wind_delta, fsd_server_name,
}
use netwingfs.Fsd.Outcome.{Outcome}
use netwingfs.Packet.Lines.{parser_command_line}
use netwingfs.Packet.State.{Server, Env}
use netwingfs.Packet.Monad.{M, panic, ◌>>=◌, if_nil, get_session, deref, field, pure}
use netwingfs.Packet.Ends.{Safe, safe_rules}
use netwingfs.Packet.Safety.{
  Safe-packet, Safe-send_line, Safe-handle_request, Safe-handle_squawk_box,
  Safe-handle_pilot_pos_update, Safe-handle_atc_vis_point_update, Safe-handle_message,
  Safe-handle_client_response,
}
use netwingfs.Packet.Sending.{client_send_error}
use netwingfs.Packet.Positions.{with_client}
use netwingfs.Packet.Messages.{handle_client_query, server_query, query_plan}
use netwingfs.Packet.PlanHandlers.{remove_client}
use netwingfs.Packet.Commands.{
  check_packet_length, dispatch, handle_command, session_send_error, send_error, handle_line,
}

-- The commands whose handlers use nothing that may be missing.
abbrev never_panics : Command → Bool
never_panics add_atc = false
never_panics add_pilot = false
never_panics remove_atc = false
never_panics remove_pilot = false
never_panics atc_position = false
never_panics plan = false
never_panics atc_edit_plan = false
never_panics kill_client = false
never_panics client_query = false
never_panics _ = true

module _ {F D : Type 0} (env : Env F D) where
  Safe-checked :
      (callsign : Bytes) (fs : List Bytes) (r : CommandRequirement) {m : M F D Outcome}
      → (ltb (length fs) r.require_length ≡ false → Safe m)
      → Safe (if_nil (check_packet_length callsign fs (some r)) m (λ result. pure result))
  unfolding check_packet_length if_nil
  Safe-checked callsign fs r h = elim (Bool-cases (ltb (length fs) r.require_length)) [
    | inl e ↦ rw e (search safe_rules)
    | inr e ↦ rw e (h e)
  ]

  Safe-handle_command :
      (i : ℕ) (c : Command) (fs : List Bytes) (line : Bytes)
      → never_panics c ≡ true
      → Safe (handle_command env i c fs line)
  unfolding handle_command dispatch check_packet_length
  Safe-handle_command i pro_controller fs line h =
      search (safe_rules, Safe-checked, Safe-handle_request)
  Safe-handle_command i request_handoff fs line h =
      search (safe_rules, Safe-checked, Safe-handle_request)
  Safe-handle_command i accept_handoff fs line h =
      search (safe_rules, Safe-checked, Safe-handle_request)
  Safe-handle_command i pilot_position fs line h =
      search (safe_rules, Safe-checked, Safe-handle_pilot_pos_update)
  Safe-handle_command i atc_sub_vis_point fs line h =
      search (safe_rules, Safe-checked, Safe-handle_atc_vis_point_update)
  Safe-handle_command i message fs line h = search (safe_rules, Safe-checked, Safe-handle_message)
  Safe-handle_command i client_response fs line h =
      search (safe_rules, Safe-checked, Safe-handle_client_response)
  Safe-handle_command i squawk_box fs line h =
      search (safe_rules, Safe-checked, Safe-handle_squawk_box)
  Safe-handle_command i wind_delta fs line h = search safe_rules
  Safe-handle_command i error fs line h = search safe_rules
  Safe-handle_command i temp_data fs line h = search safe_rules
  Safe-handle_command i _ fs line h = cc

  Safe-client_send_error : (c : ℕ) (r : Outcome) → Safe (client_send_error env c r)
  unfolding client_send_error
  Safe-client_send_error c r = search (safe_rules, Safe-packet, Safe-send_line) depth 20

  Safe-session_send_error : (i : ℕ) (r : Outcome) → Safe (session_send_error env i r)
  unfolding session_send_error
  Safe-session_send_error i r = search (safe_rules, Safe-packet) depth 20

  Safe-send_error : (i : ℕ) (r : Outcome) → Safe (send_error env i r)
  unfolding send_error
  Safe-send_error i r =
      search (safe_rules, Safe-client_send_error, Safe-session_send_error) depth 20

  -- In every state of the server, a line of a pilot's position report, a visibility point, a message, a
  -- response, a handoff or a squawk box, and a line of no command at all, is handled without a panic.
  pub handle_line-Safe :
      (i : ℕ) (line : Bytes)
      → never_panics (parser_command_line line).0 ≡ true
      → Safe (handle_line env i line)
  unfolding handle_line
  handle_line-Safe i line h = search (safe_rules, Safe-handle_command, Safe-send_error) depth 20

  -- A line `#DA` or `#DP` from a session that has not logged in ends the whole server in a panic.
  pub handle_line-remove_panic :
      (s : Server F D) (i : ℕ) (line : Bytes)
      → (s.sessions i).disconnected ≡ false
      → (s.sessions i).client ≡ none
      → ((parser_command_line line).0 ≡ remove_atc) ⊎ ((parser_command_line line).0 ≡ remove_pilot)
      → handle_line env i line s ≡ panic
  unfolding handle_line handle_command check_packet_length dispatch remove_client ◌>>=◌ if_nil
      get_session deref
  handle_line-remove_panic s i line active nobody (inl e) = ground (arith, active, nobody, e)
  handle_line-remove_panic s i line active nobody (inr e) = ground (arith, active, nobody, e)

  handle_command-query_panic :
      (s : Server F D) (i c : ℕ) (line from : Bytes)
      → (s.sessions i).client ≡ some c
      → handle_command env i client_query (from ∷ fsd_server_name ∷ codes "FP" ∷ []) line s ≡ panic
  unfolding handle_command check_packet_length dispatch handle_client_query with_client server_query
      query_plan ◌>>=◌ if_nil get_session field deref bytes_eq
  handle_command-query_panic s i c line from known = rw known refl

  -- A query `$CQ` for the plan "FP" of the server, from a client, with just the three fields that its
  -- length check asks for, ends the whole server in a panic.
  pub handle_line-query_panic :
      (s : Server F D) (i c : ℕ) (line from : Bytes)
      → (s.sessions i).disconnected ≡ false
      → (s.sessions i).client ≡ some c
      → parser_command_line line ≡ (client_query, from ∷ fsd_server_name ∷ codes "FP" ∷ [])
      → handle_line env i line s ≡ panic
  unfolding handle_line ◌>>=◌ get_session
  handle_line-query_panic s i c line from active known e =
      rw (active, e, handle_command-query_panic s i c line from known) refl
