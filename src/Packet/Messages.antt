-- ===== src/Packet/Messages.antt =====
-- internal/fsd_server/packet/command_handler.go: messages, queries, answers and hand-overs.
use netwingfs.Prelude.{
  ℕ, Bool, true, false, not, ◌&&◌, Option, none, some, List, [], ◌∷◌, length, ltb, leb,
  if◌then◌else◌,
}
use netwingfs.Prelude.Bytes.{Bytes, codes, bytes_eq, has_prefix}
use netwingfs.Prelude.Int.{pos, negsuc, eq_ℤ, quotient}
use netwingfs.Utils.Cast.{str_to_int}
use netwingfs.Utils.Format.{show_padded}
use mathlib.Core.List.{◌++◌}
use netwingfs.Fsd.Command.{fsd_server_name, special_frequency, all_sup}
use netwingfs.Fsd.Outcome.{
  Outcome, result_success, result_error, syntax, no_flight_plan, source_callsign_invalid,
}
use netwingfs.Fsd.Rating.{allow_atc_facility}
use netwingfs.Fsd.Broadcast.{
  broadcast_to_atc, broadcast_to_sup, broadcast_to_client_in_range, combine_broadcast_filter,
}
use netwingfs.Database.Model.{FlightPlan}
use netwingfs.Database.Plans.{update_cruise_altitude, to_string}
use netwingfs.Packet.Lines.{frequency_valid}
use netwingfs.Packet.State.{Env, broadcast_task}
use netwingfs.Packet.Monad.{
  M, ◌>>=◌, if_nil, ◌>>◌, pure, crash, deref, field, get_client, modify_client, get_session, start,
  with_db, when,
}
use netwingfs.Packet.Registry.{find_client}
use netwingfs.Packet.Updates.{client_check_facility, add_atc_atis_info}
use netwingfs.Packet.Sending.{send_line}
use netwingfs.Packet.Manager.{send_message_to}
use netwingfs.Packet.Login.{in_range_task}
use netwingfs.Packet.Positions.{with_client, not_registered}

module _ {F D : Type 0} (env : Env F D) where
  -- To the controllers in range.
  abbrev pub atc_task : Bytes → ℕ → M F D (Unit {0})
  atc_task raw_line c = start (
      broadcast_task raw_line (some c) (
        combine_broadcast_filter
          (some broadcast_to_atc ∷ some (broadcast_to_client_in_range env.floats) ∷ [])))

  -- `targetStation[1:]`.
  unfoldable pub after_first : Bytes → M F D Bytes
  after_first [] = crash
  after_first (c ∷ s) = pure s

  -- `sendFrequencyMessage`; `none` is its nil result.
  unfoldable pub send_frequency_message : ℕ → Bytes → Bytes → M F D (Option Outcome)
  unfolding after_first frequency_valid
  send_frequency_message i target raw_line = do
    session ← get_session i
    if_nil session.client (pure (some not_registered)) (λ c. (do
      digits ← after_first target
      let frequency = str_to_int digits (negsuc 0)
      client ← get_client c
      if eq_ℤ frequency (negsuc 0)
          then pure (some (result_error syntax false client.callsign))
          else (do
            if frequency_valid frequency then in_range_task env raw_line c else atc_task raw_line c
            pure none)))

  -- The tail of the handlers that pass a line on: to a frequency, or to one station.
  unfoldable pub pass_on : ℕ → Bytes → Bytes → M F D Outcome
  unfolding send_frequency_message
  pass_on i target raw_line =
      if has_prefix target (codes "@")
      then (do
        refused ← send_frequency_message i target raw_line
        if_nil refused (pure result_success) (λ result. pure result))
      else (do _ ← send_message_to env target raw_line; pure result_success)

  -- The plan of the client of a callsign, if there are both.
  unfoldable pub plan_of : Bytes → M F D (Option FlightPlan)
  plan_of callsign = do
    target ← find_client callsign
    if_nil target (pure none) (λ t. (do client ← get_client t; pure client.flight_plan))

  -- A query "FP" to the server: the plan of the station that the third field names. `some` is the
  -- result with which the handler returns.
  unfoldable pub query_plan : ℕ → List Bytes → M F D (Option Outcome)
  unfolding plan_of
  query_plan c fields = do
    sub_query ← field fields 2
    if bytes_eq sub_query (codes "FP")
        then (do
          target ← field fields 3
          found ← plan_of target
          client ← get_client c
          if_nil found (pure (some (result_error no_flight_plan false client.callsign)))
              (λ p. (do sender ← field fields 0; send_line env c (to_string p sender); pure none)))
        else pure none

  -- `UpdateCruiseAltitude` on the plan of a client, which it changes in place; it uses the plan's
  -- pointer unchecked. Whether there was no error.
  unfoldable pub change_altitude : ℕ → Bytes → M F D Bool
  change_altitude t altitude = do
    client ← get_client t
    p ← deref client.flight_plan
    reply ← with_db (λ d.
        let r = update_cruise_altitude env.database env.simulator_server p altitude d in
        (r, r.state))
    modify_client t (λ x. record x { flight_plan = some reply.flight_plan })
    pure (elim reply.error [ none ↦ true | some _ ↦ false ])

  abbrev flight_level : Bytes → Bytes
  flight_level text = codes "FL" ++ show_padded 3 (quotient (str_to_int text (pos 0)) 100)

  -- A query "FA" on the special frequency, from a client that may edit plans. `some` is the result
  -- with which the handler returns.
  unfoldable pub query_altitude : ℕ → List Bytes → M F D (Option Outcome)
  unfolding client_check_facility change_altitude
  query_altitude c fields = do
    client ← get_client c
    if not (client_check_facility client allow_atc_facility)
        then pure (some result_success)
        else (do
          sub_query ← field fields 2
          if bytes_eq sub_query (codes "FA") && leb 5 (length fields)
              then (do
                callsign ← field fields 3
                target ← find_client callsign
                if_nil target (pure (some result_success)) (λ t. (do
                  text ← field fields 4
                  good ← change_altitude t (flight_level text)
                  pure (if good then none else some result_success))))
              else pure none)

  unfoldable pub special_query : ℕ → List Bytes → Bytes → M F D (Option Outcome)
  unfolding query_altitude
  special_query c fields target =
      if has_prefix target (codes "@")
        && (not env.simulator_server && bytes_eq target special_frequency)
      then query_altitude c fields
      else pure none

  unfoldable pub server_query : ℕ → List Bytes → Bytes → M F D (Option Outcome)
  unfolding query_plan
  server_query c fields target =
      if bytes_eq target fsd_server_name then query_plan c fields else pure none

  -- `handleClientQuery`.
  unfoldable pub handle_client_query : ℕ → List Bytes → Bytes → M F D Outcome
  unfolding with_client special_query server_query pass_on
  handle_client_query i fields raw_line = with_client i (λ c. do
    target ← field fields 1
    answered ← server_query c fields target
    if_nil answered
        (do
          stopped ← special_query c fields target
          if_nil stopped (pass_on i target raw_line) (λ result. pure result))
        (λ result. pure result))

  -- The line of an answer "ATIS" that is long enough, where its kind is text.
  unfoldable pub atis_line : ℕ → List Bytes → M F D (Unit {0})
  unfolding add_atc_atis_info
  atis_line c fields = do
    kind ← field fields 3
    if bytes_eq kind (codes "T")
        then (do info ← field fields 4; add_atc_atis_info c info)
        else pure tt

  -- An answer "ATIS" to the server: a line of the controller's information.
  unfoldable pub keep_atis : ℕ → List Bytes → Bytes → M F D (Unit {0})
  unfolding atis_line
  keep_atis c fields target =
      if bytes_eq target fsd_server_name
      then (do
        sub_query ← field fields 2
        if bytes_eq sub_query (codes "ATIS") && not (ltb (length fields) 5)
            then atis_line c fields
            else pure tt)
      else pure tt

  -- `handleClientResponse`.
  unfoldable pub handle_client_response : ℕ → List Bytes → Bytes → M F D Outcome
  unfolding with_client keep_atis pass_on
  handle_client_response i fields raw_line =
      with_client i
        (λ c. do target ← field fields 1; keep_atis c fields target; pass_on i target raw_line)

  -- `handleMessage`.
  unfoldable pub handle_message : ℕ → List Bytes → Bytes → M F D Outcome
  unfolding pass_on
  handle_message i fields raw_line = do
    target ← field fields 1
    if has_prefix target (codes "*")
        then (do
          session ← get_session i
          when (bytes_eq target all_sup)
              (start (broadcast_task raw_line session.client broadcast_to_sup))
          pure result_success)
        else pass_on i target raw_line

  -- `handleRequest`.
  unfoldable pub handle_request : List Bytes → Bytes → M F D Outcome
  handle_request fields raw_line = do
    target ← field fields 1
    _ ← send_message_to env target raw_line
    pure result_success

  -- `handleSquawkBox`.
  unfoldable pub handle_squawk_box : ℕ → List Bytes → Bytes → M F D Outcome
  unfolding with_client
  handle_squawk_box i fields raw_line = with_client i (λ c. do
    name ← field fields 1
    target ← find_client name
    client ← get_client c
    if_nil target (pure (result_error source_callsign_invalid false client.callsign))
        (λ t. (do send_line env t raw_line; pure result_success)))
