-- ===== src/Tests/Server.antt =====
-- The theorems on packets, logins and connections, on the server of Examples.
use netwingfs.Prelude.{ℕ, ◌≡◌, refl, true, false, none, [], ◌∷◌, ◌++◌}
use netwingfs.Prelude.Bytes.{Bytes, codes, bytes_eq}
use netwingfs.Prelude.Int.{pos, decrement}
use netwingfs.Database.Plans.{get_flight_plan_by_cid}
use netwingfs.Fsd.Broadcast.{broadcast_to_all}
use netwingfs.Examples.{
  some_env, fresh_session, known_session, some_pilot, waiting_pilot, server_of, one_pilot,
}
use netwingfs.Packet.Lines.{parser_command_line, split_sign, callsign_valid}
use netwingfs.Fsd.Rating.{check_facility, rating_facility_map}
use netwingfs.Utils.Cast.{str_to_int}
use netwingfs.Packet.Registry.{lookup, find_client, add_client}
use netwingfs.Packet.State.{Server, Client, update}
use netwingfs.Packet.Monad.{
  Run, done, panic, blocked, ◌>>=◌, get_session, if_nil, field, with_db, pure, modify_session, gets,
  modify_client, start, deref, when, write, get_client,
}
use netwingfs.Packet.Ends.{Ends, Safe}
use netwingfs.Packet.Commands.{handle_line, dispatch}
use netwingfs.Packet.Client.{marked_disconnect, reconnect, delete}
use netwingfs.Packet.Client.Removal.{delete-frees}
use netwingfs.Packet.Login.{verify_user_info, handle_add_pilot}
use netwingfs.Packet.Manager.{broadcast_message}
use netwingfs.Packet.PlanHandlers.{handle_kill_client, handle_atc_edit_plan}
use netwingfs.Packet.Client.Lifecycle.{Attached, Kept, reconnect-marked_disconnect}
use netwingfs.Packet.Invariant.{WellFormed}
use netwingfs.Packet.Invariant.Reachable.{Reach, Step, Reach-WellFormed, new_session}
use netwingfs.Packet.Login.Takeover.{Taken, verify_user_info-Taken}
use netwingfs.Packet.Login.Verify.{Verified, verify_user_info-GoesOn}
use netwingfs.Packet.Manager.Recipients.{deliveries, broadcast_message-deliveries}
use netwingfs.Packet.PlanHandlers.Authority.{
  KilledOrNot, handle_kill_client-Killed, handle_atc_edit_plan_panic,
}
use netwingfs.Packet.Invariant.{After}
use netwingfs.Packet.Updates.{client_check_facility}
use netwingfs.Packet.Safety.Lines.{handle_line-Safe}

abbrev empty_server : Server ℕ (Unit {0})
empty_server = server_of some_pilot fresh_session []

abbrev after_accept : Server ℕ (Unit {0})
after_accept = record empty_server { sessions = update empty_server.sessions 3 new_session }

abbrev state_of : Run ℕ (Unit {0}) (Unit {0}) → Server ℕ (Unit {0})
state_of (done a s) = s
state_of panic = empty_server
state_of blocked = empty_server

abbrev login_line : Bytes
login_line = codes "#APCES2:SERVER:1:pw:1:9:16:Ann"

abbrev after_login : Server ℕ (Unit {0})
after_login = state_of (handle_line some_env 3 login_line after_accept)

after_login_lem : handle_line some_env 3 login_line after_accept ≡ done tt after_login
unfolding handle_line ◌>>=◌ get_session if_nil parser_command_line dispatch handle_add_pilot field
    str_to_int find_client lookup with_db pure modify_session decrement check_facility
    rating_facility_map gets modify_client start deref when write get_client add_client
    get_flight_plan_by_cid
after_login_lem = refl

Reach-WellFormed_example : WellFormed after_login
Reach-WellFormed_example =
    Reach-WellFormed some_env empty_server after_login refl (
      Reach.next (Reach.next Reach.here (Step.accept 3))
        (Step.receive 3 login_line after_login_lem))

verify_user_info-GoesOn_example :
    Ends
      (Verified some_env 1 (codes "CES2") (pos 9) (codes "pw"))
      (verify_user_info some_env 1 (codes "CES2") (pos 9) (codes "1") (codes "pw") empty_server)
verify_user_info-GoesOn_example =
    verify_user_info-GoesOn some_env 1 (codes "CES2") (pos 9) (codes "1") (codes "pw") empty_server

verify_user_info-Taken_example :
    Ends
      (λ _. Taken some_env 0 7)
      (verify_user_info some_env 7
        (codes "CES1")
        (pos 9)
        (codes "1")
        (codes "wrong")
        (server_of waiting_pilot fresh_session one_pilot))
unfolding callsign_valid lookup
verify_user_info-Taken_example =
    verify_user_info-Taken some_env 7 0 (codes "CES1") (codes "1") (codes "wrong")
      (server_of waiting_pilot fresh_session one_pilot) refl refl refl refl refl

handle_line-Safe_example : Safe (handle_line some_env 0 (codes "#TMCES1:@18000:hi"))
unfolding parser_command_line
handle_line-Safe_example = handle_line-Safe some_env 0 (codes "#TMCES1:@18000:hi") refl

broadcast_message-deliveries_example :
    broadcast_message some_env
      (codes "#hi")
      none
      broadcast_to_all
      (server_of some_pilot known_session one_pilot)
    ≡ done tt (record (server_of some_pilot known_session one_pilot) {
      sent =
          []
          ++ deliveries some_env
              (codes "#hi" ++ split_sign)
              none
              broadcast_to_all
              (0 ∷ [])
              (server_of some_pilot known_session one_pilot);
    })
broadcast_message-deliveries_example =
    broadcast_message-deliveries some_env b'#' (codes "hi") none broadcast_to_all
      (server_of some_pilot known_session one_pilot) refl refl

reconnect-marked_disconnect_example :
    Ends
      (λ back t. (back ≡ true) × Attached some_env 0 7 t × Kept some_env some_pilot (t.clients 0))
      ((marked_disconnect some_env 0 false >>= λ _. reconnect some_env 0 7)
        (server_of some_pilot known_session one_pilot))
reconnect-marked_disconnect_example =
    reconnect-marked_disconnect some_env (server_of some_pilot known_session one_pilot) 0 7 refl

abbrev some_controller : Client ℕ
some_controller = record some_pilot { is_atc = true; facility = 4 }

abbrev supervisor : Client ℕ
supervisor = record some_controller { rating = pos 11 }

handle_kill_client-Killed_example :
    After
      (KilledOrNot some_env 2
        (codes "CES1" ∷ codes "CES1" ∷ [])
        (server_of supervisor known_session one_pilot))
      (handle_kill_client some_env 2
        (codes "CES1" ∷ codes "CES1" ∷ [])
        (server_of supervisor known_session one_pilot))
handle_kill_client-Killed_example =
    handle_kill_client-Killed some_env 2 (codes "CES1" ∷ codes "CES1" ∷ [])
      (server_of supervisor known_session one_pilot)

handle_atc_edit_plan_panic_example :
    handle_atc_edit_plan some_env 2
      (codes "CES1" ∷ codes "SERVER" ∷ codes "CES1" ∷ codes "I" ∷ [])
      (server_of some_controller known_session one_pilot)
    ≡ panic
unfolding lookup client_check_facility
handle_atc_edit_plan_panic_example =
    handle_atc_edit_plan_panic some_env 2 0 0 (codes "CES1") (codes "SERVER") (codes "CES1")
      (codes "I" ∷ []) (server_of some_controller known_session one_pilot) refl refl refl refl refl
      refl

delete-frees_example :
    Ends
      (λ _ t. lookup (codes "CES1") t.registry ≡ none)
      (delete some_env 0 (server_of waiting_pilot known_session one_pilot))
unfolding bytes_eq
delete-frees_example =
    delete-frees some_env 0 (codes "CES1") (server_of waiting_pilot known_session one_pilot) refl
