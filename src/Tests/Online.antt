-- ===== src/Tests/Online.antt =====
-- The theorems on the web's view of the FSD server and on sign-ups, on concrete inputs.
use netwingfs.Prelude.{
  ℕ, ◌≡◌, refl, Bool, true, none, some, List, [], ◌∷◌, ◌⊎◌, if◌then◌else◌, arith,
}
use netwingfs.Prelude.Bytes.{codes, bytes_eq}
use netwingfs.Prelude.Int.{pos}
use netwingfs.Examples.{some_user, some_env, some_pilot, known_session, server_of, one_pilot}
use netwingfs.Database.Model.{User, Fetch, found, missing}
use netwingfs.Database.Permission.{node, has_permission}
use netwingfs.Database.Accounts.{Accounts, get_user_by_uid}
use netwingfs.Database.Activity.{ActivityFacility}
use netwingfs.Database.Signups.{Condition, ActivityPilot, Signups, created}
use netwingfs.Database.Signups.Pilots.{holds}
use netwingfs.Packet.State.{Server}
use netwingfs.Packet.Monad.{
  Run, done, panic, blocked, ◌>>=◌, gets, pure, modify_client, modify_session, get_client, when,
  if_nil, after_func,
}
use netwingfs.Packet.Ends.{Ends}
use netwingfs.Packet.Registry.{lookup, find_client}
use netwingfs.Packet.Client.{mark, marked_disconnect, stop_timer}
use netwingfs.Packet.Ends.{Ends}
use netwingfs.Packet.Manager.{shutdown}
use netwingfs.Packet.Manager.Shutdown.{shutdown-empties}
use netwingfs.Packet.Invariant.{WellFormed}
use netwingfs.Service.Outcome.{Yields, Unchanged}
use netwingfs.Service.Web.{Web}
use netwingfs.Service.Users.Admin.{Request}
use netwingfs.Service.Activities.{ActivityConfig, controller_join}
use netwingfs.Service.Activities.Guards.{Joined, controller_join-Joined}
use netwingfs.Service.Clients.{
  Answer, kill_client, kill_client_with, kill_client_as, get_online_client,
}
use netwingfs.Service.Clients.Online.{Lists, get_online_client-Consistent}
use netwingfs.Packet.Client.Cut.{Cut}
use netwingfs.Service.Clients.Kick.{KickedOrNot, kill_client-Kicked}
use netwingfs.Service.Clients.Release.{Freed, kill_client-Freed}

-- The only account, which may kick.
abbrev kicking_account : User
kicking_account = record some_user { permission = pos 32768 }

abbrev one_account : Accounts (Unit {0})
one_account = record {
  first_user = λ q d. found kicking_account;
  count_identifiers = λ cid username email d. some 1;
  count_users = λ controllers d. 1;
  find_users = λ controllers offset limit d. some (kicking_account ∷ []);
  create_user = λ u d. (none, d);
  update_rating = λ u rating d. (true, d);
  update_permission = λ u permission d. (true, d);
  update_info = λ u info d. (true, d);
  generate = λ salt password. some password;
  compare_password = λ hash password. bytes_eq hash password;
}

abbrev request : Request
request = record { uid = 1; cid = pos 1; ip = []; user_agent = [] }

abbrev online_server : Server ℕ (Unit {0})
online_server = server_of some_pilot known_session one_pilot

get_online_client-Consistent_example :
    Ends (Lists some_env online_server) (get_online_client some_env online_server)
get_online_client-Consistent_example =
    get_online_client-Consistent some_env online_server (λ c. omega arith)

kill_client-Kicked_example :
    Ends
      (KickedOrNot some_env one_account true online_server request (codes "CES1"))
      (kill_client some_env one_account true request (codes "CES1") [] online_server)
kill_client-Kicked_example =
    kill_client-Kicked some_env one_account true request (codes "CES1") [] online_server

abbrev no_answer : Answer Bool
no_answer = record {
  response = record { http_code = 0; code = []; data_field = none };
  audit_logs = [];
  kicked_mails = [];
}

abbrev answer_of : Run ℕ (Unit {0}) (Answer Bool) → Answer Bool
answer_of (done a s) = a
answer_of panic = no_answer
answer_of blocked = no_answer

abbrev state_of : Run ℕ (Unit {0}) (Answer Bool) → Server ℕ (Unit {0})
state_of (done a s) = s
state_of panic = online_server
state_of blocked = online_server

abbrev kick : Run ℕ (Unit {0}) (Answer Bool)
kick = kill_client some_env one_account true request (codes "CES1") [] online_server

kick_lem : kick ≡ done (answer_of kick) (state_of kick)
unfolding kill_client kill_client_with kill_client_as get_user_by_uid has_permission node
    find_client lookup bytes_eq marked_disconnect mark stop_timer ◌>>=◌ gets pure get_client
    modify_client modify_session when if_nil after_func
kick_lem = refl

kick_good : (answer_of kick).response.data_field ≡ some true
unfolding kill_client kill_client_with kill_client_as get_user_by_uid has_permission node
    find_client lookup bytes_eq marked_disconnect mark stop_timer ◌>>=◌ gets pure get_client
    modify_client modify_session when if_nil after_func
kick_good = refl

online_server-WellFormed : WellFormed online_server
unfolding lookup
online_server-WellFormed = record { distinct = (refl, tt); entries = (omega arith, refl, tt) }

kill_client-Freed_example :
    (c : ℕ) × (lookup (codes "CES1") online_server.registry ≡ some c)
    × Cut some_env online_server c (state_of kick)
    × Freed some_env one_account true (codes "CES1") (state_of kick) c
kill_client-Freed_example =
    kill_client-Freed some_env one_account true request (codes "CES1") [] online_server
      (state_of kick) (answer_of kick) online_server-WellFormed kick_lem kick_good

shutdown-empties_example :
    Ends (λ good t. (good ≡ true) × (t.registry ≡ [])) (shutdown some_env online_server)
shutdown-empties_example =
    shutdown-empties some_env online_server refl online_server-WellFormed refl

-- The table of the pilots who have signed up.
abbrev find_row : Condition → List ActivityPilot → Fetch ActivityPilot
find_row condition [] = missing
find_row condition (row ∷ rows) = if holds condition row then found row else find_row condition rows

-- The row is one of the table's.
abbrev InTable : ActivityPilot → List ActivityPilot → Type 0
InTable row [] = ⊥
InTable row (r ∷ rows) = (row ≡ r) ⊎ InTable row rows

abbrev tower : ActivityFacility
tower = record {
  id = 4;
  activity_id = 1;
  min_rating = pos 3;
  callsign = codes "ZBAA_TWR";
  frequency = codes "118.500";
}

abbrev pilot_table : Signups (List ActivityPilot)
pilot_table = record {
  first_activity = λ id d. missing;
  first_facility = λ id d. found (tower, none);
  page_activities = λ offset limit d. some [];
  activities_between = λ start end d. some [];
  count_activities = λ d. 0;
  save_activity = λ activity d. (none, d);
  remove_activity = λ activity d. (true, d);
  set_activity_status = λ id status d. (true, d);
  set_pilot_status = λ pilot status d. (true, d);
  first_controller = λ condition d. missing;
  create_controller = λ controller d. (created, d);
  delete_controller = λ id d. (true, d);
  first_pilot = find_row;
  create_pilot = λ pilot d. (created, pilot ∷ d);
  delete_pilot = λ pilot d. (true, d);
  update_activity = λ activity info d. (true, d);
  delete_facilities = λ facilities d. (true, d);
  create_facilities = λ facilities d. (true, d);
  update_facility = λ id diff d. (true, d);
}

abbrev pilot_accounts : Accounts (List ActivityPilot)
pilot_accounts = record {
  first_user = λ q d. found kicking_account;
  count_identifiers = λ cid username email d. some 1;
  count_users = λ controllers d. 1;
  find_users = λ controllers offset limit d. some (kicking_account ∷ []);
  create_user = λ u d. (none, d);
  update_rating = λ u rating d. (true, d);
  update_permission = λ u permission d. (true, d);
  update_info = λ u info d. (true, d);
  generate = λ salt password. some password;
  compare_password = λ hash password. bytes_eq hash password;
}

abbrev activity_config : ActivityConfig (List ActivityPilot)
activity_config = record {
  accounts = pilot_accounts;
  signups = pilot_table;
  to_json = λ a. a.title;
}

abbrev empty_web : Web (List ActivityPilot)
empty_web = record {
  db = [];
  email = record { email_codes = []; last_send_time = [] };
  jobs = [];
  now = 0;
}

controller_join-Joined_example :
    Yields
      (Joined activity_config (pos 5) 1 4 empty_web)
      (Unchanged empty_web)
      (controller_join activity_config (pos 5) 1 4 empty_web)
controller_join-Joined_example = controller_join-Joined activity_config (pos 5) 1 4 empty_web
