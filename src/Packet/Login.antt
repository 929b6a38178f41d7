-- ===== src/Packet/Login.antt =====
-- internal/fsd_server/packet/command_handler.go: the login of controllers and pilots.
pub mod Verify
pub mod Takeover
use netwingfs.Prelude.{
  ℕ, Bool, true, false, not, ◌&&◌, ◌||◌, Option, none, some, List, [], ◌∷◌, ◌++◌, ◌==◌,
  if◌then◌else◌,
}
use netwingfs.Prelude.Bytes.{Bytes, codes, bytes_eq}
use netwingfs.Prelude.Int.{ℤ, pos, negsuc, ltb_ℤ, eq_ℤ, decrement}
use netwingfs.Utils.Cast.{str_to_int}
use netwingfs.Fsd.Command.{message, client_query, fsd_server_name}
use netwingfs.Fsd.Outcome.{
  Outcome, result_success, result_error, callsign_invalid, invalid_protocol_vision, callsign_in_use,
  auth_fail, user_baned, request_level_too_high, syntax,
}
use netwingfs.Fsd.Rating.{ban, normal, pilot, check_facility}
use netwingfs.Fsd.Broadcast.{broadcast_to_client_in_range}
use netwingfs.Database.Model.{User, FlightPlan, Fetch, found, missing, failed}
use netwingfs.Packet.Lines.{callsign_valid}
use netwingfs.Packet.State.{Client, Session, Env, broadcast_task}
use netwingfs.Packet.Monad.{
  M, ◌>>=◌, if_nil, ◌>>◌, pure, deref, field, get_client, modify_client, get_session,
  modify_session, start, with_db, when,
}
use netwingfs.Packet.Registry.{find_client, add_client}
use netwingfs.Packet.Client.{packet, new_client, reconnect}
use netwingfs.Packet.Updates.{set_position}
use netwingfs.Packet.Sending.{send_line, send_motd}

-- `&User{}`.
abbrev pub zero_user : User
zero_user = record {
  uid = 0;
  username = [];
  email = [];
  cid = pos 0;
  password = [];
  avatar_url = [];
  qq = pos 0;
  rating = pos 0;
  permission = pos 0;
  total_pilot_time = pos 0;
  total_atc_time = pos 0;
}

abbrev by_cid : Fetch User → Option User
by_cid (found u) = some u
by_cid missing = none
by_cid failed = none

-- `GetUserByUsernameOrEmail` returns a nil error whatever the query answers.
abbrev by_ident : Fetch User → Option User
by_ident (found u) = some u
by_ident missing = some zero_user
by_ident failed = some zero_user

module _ {F D : Type 0} (env : Env F D) where
  -- `StrToFloat` with default 0.
  unfoldable pub str_to_float : Bytes → F
  str_to_float str = elim (env.floats.parse_float str) [ none ↦ env.floats.of_nat 0 | some x ↦ x ]

  -- `GetUserId(…).GetUser(…)`; `none` is an error.
  unfoldable pub get_user : Bytes → M F D (Option User)
  get_user ident =
      let cid = str_to_int ident (negsuc 0) in
      if eq_ℤ cid (negsuc 0)
      then (do answer ← with_db (env.database.first_user_by_ident ident); pure (by_ident answer))
      else (do answer ← with_db (env.database.first_user_by_cid cid); pure (by_cid answer))

  -- The end of `verifyUserInfo`: the password, and who the session belongs to.
  unfoldable pub check_user : ℕ → Bytes → Option ℕ → Bytes → Option User → M F D (Option Outcome)
  check_user i callsign client password none = pure (some (result_error auth_fail true callsign))
  check_user i callsign client password (some user) =
      if eq_ℤ user.rating ban
      then pure (some (result_error user_baned true callsign))
      else if not (env.database.compare_password user.password password)
      then pure (some (result_error auth_fail true callsign))
      else (do
        if_nil client (pure tt) (λ c. modify_client c (λ x. record x { user = user }))
        modify_session i (λ x. record x { user = some user })
        pure none)

  -- The middle of `verifyUserInfo`, once the client of the callsign is found and reattached.
  unfoldable pub identify : ℕ → Bytes → Option ℕ → Bytes → Bytes → M F D (Option Outcome)
  unfolding get_user check_user
  identify i callsign client ident password = do
    user ← get_user ident
    check_user i callsign client password user

  -- What follows `Reconnect` of the callsign's client.
  unfoldable pub resume : ℕ → Bytes → Bytes → Bytes → ℕ → Bool → M F D (Option Outcome)
  unfolding identify
  resume i callsign ident password c back =
      if back
      then (do
        modify_session i (λ x. record x { client = some c })
        identify i callsign (some c) ident password)
      else pure (some (result_error callsign_in_use true callsign))

  -- The branches on the client that has the callsign.
  unfoldable pub take_over : ℕ → Bytes → Bytes → Bytes → Option ℕ → M F D (Option Outcome)
  unfolding reconnect resume identify
  take_over i callsign ident password client =
      if_nil client (identify i callsign none ident password)
        (λ c. (do back ← reconnect env c i; resume i callsign ident password c back))

  -- `verifyUserInfo`: `none` where the login may go on.
  unfoldable pub verify_user_info : ℕ → Bytes → ℤ → Bytes → Bytes → M F D (Option Outcome)
  unfolding take_over callsign_valid
  verify_user_info i callsign protocol ident password =
      if not (callsign_valid callsign)
      then pure (some (result_error callsign_invalid true callsign))
      else if not (eq_ℤ protocol (pos 9))
      then pure (some (result_error invalid_protocol_vision true callsign))
      else (do client ← find_client callsign; take_over i callsign ident password client)

  abbrev pub in_range_task : Bytes → ℕ → M F D (Unit {0})
  in_range_task raw_line c =
      start (broadcast_task raw_line (some c) (broadcast_to_client_in_range env.floats))

  -- The client of the session, or a new one for a controller.
  unfoldable pub attach_atc : ℕ → Bytes → ℤ → ℤ → Bytes → F → F → Option ℕ → M F D ℕ
  unfolding new_client set_position
  attach_atc i callsign rating protocol real_name lat lon (some c) = pure c
  attach_atc i callsign rating protocol real_name lat lon none = do
    c ← new_client env callsign rating protocol real_name i true
    modify_session i (λ x. record x { client = some c })
    _ ← set_position c (pos 0) lat lon
    _ ← add_client c
    pure c

  -- `handleAddAtc` after `verifyUserInfo`.
  unfoldable pub finish_add_atc : ℕ → List Bytes → Bytes → Bytes → ℤ → M F D Outcome
  unfolding attach_atc send_line send_motd packet
  finish_add_atc i fields raw_line callsign protocol = do
    rating_text ← field fields 5
    let req_rating = str_to_int rating_text (pos 0)
    session ← get_session i
    user ← deref session.user
    if ltb_ℤ user.rating req_rating
        then pure (result_error request_level_too_high true callsign)
        else (do
          real_name ← field fields 2
          lat ← field fields 9
          lon ← field fields 10
          c ←
              attach_atc i callsign req_rating protocol real_name (str_to_float lat)
                (str_to_float lon) session.client
          line ← packet env client_query (fsd_server_name ∷ callsign ∷ codes "ATIS" ∷ [])
          send_line env c line
          in_range_task raw_line c
          send_motd env c
          pure result_success)

  -- `handleAddAtc`.
  unfoldable pub handle_add_atc : ℕ → List Bytes → Bytes → M F D Outcome
  unfolding verify_user_info finish_add_atc
  handle_add_atc i fields raw_line = do
    callsign ← field fields 0
    ident ← field fields 3
    password ← field fields 4
    protocol_text ← field fields 6
    let protocol = str_to_int protocol_text (pos 0)
    refused ← verify_user_info i callsign protocol ident password
    if_nil refused (finish_add_atc i fields raw_line callsign protocol) (λ result. pure result)

  -- The client of the session, or a new one for a pilot.
  unfoldable pub attach_pilot : ℕ → Bytes → ℤ → ℤ → Bytes → ℤ → Option ℕ → M F D ℕ
  unfolding new_client
  attach_pilot i callsign rating protocol real_name sim_type (some c) = pure c
  attach_pilot i callsign rating protocol real_name sim_type none = do
    c ← new_client env callsign rating protocol real_name i false
    modify_session i (λ x. record x { client = some c })
    modify_client c (λ x. record x { sim_type = sim_type })
    _ ← add_client c
    pure c

  -- The text of the warning about a plan that was filed under another callsign.
  abbrev plan_warning : Bytes → FlightPlan → Bytes
  plan_warning callsign p =
      codes "Seems you are connect with callsign("
      ++ (p.updated_at
          ++ (codes "), but we found a flightplan submit by web at "
              ++ (callsign
                  ++ (codes " which has callsign("
                      ++ (p.callsign ++ codes "), please check it.")))))

  unfoldable pub warn_plan : ℕ → Bytes → Option FlightPlan → M F D (Unit {0})
  unfolding send_line packet
  warn_plan c callsign none = pure tt
  warn_plan c callsign (some p) =
      if p.from_web && not (bytes_eq callsign p.callsign)
      then (do
        line ← packet env message (codes "FPlanManager" ∷ callsign ∷ plan_warning callsign p ∷ [])
        send_line env c line)
      else pure tt

  -- `handleAddPilot` after `verifyUserInfo`.
  unfoldable pub finish_add_pilot : ℕ → List Bytes → Bytes → Bytes → ℤ → M F D Outcome
  unfolding attach_pilot send_motd warn_plan
  finish_add_pilot i fields raw_line callsign protocol = do
    rating_text ← field fields 4
    let req_rating = decrement (str_to_int rating_text (pos 0))
    if not (eq_ℤ req_rating normal) || not (check_facility (env.ratings req_rating) pilot)
        then pure (result_error request_level_too_high true callsign)
        else (do
          sim_text ← field fields 6
          real_name ← field fields 7
          session ← get_session i
          c ←
              attach_pilot i callsign req_rating protocol real_name (str_to_int sim_text (pos 0))
                session.client
          in_range_task raw_line c
          send_motd env c
          client ← get_client c
          when (not env.simulator_server) (warn_plan c callsign client.flight_plan)
          pure result_success)

  -- `handleAddPilot`.
  unfoldable pub handle_add_pilot : ℕ → List Bytes → Bytes → M F D Outcome
  unfolding verify_user_info finish_add_pilot
  handle_add_pilot i fields raw_line = do
    callsign ← field fields 0
    ident ← field fields 2
    password ← field fields 3
    protocol_text ← field fields 5
    let protocol = str_to_int protocol_text (pos 0)
    refused ← verify_user_info i callsign protocol ident password
    if_nil refused (finish_add_pilot i fields raw_line callsign protocol) (λ result. pure result)
