-- ===== src/Service/Clients.antt =====
-- internal/http_server/service/client.go: the web's view of the FSD server, and what it may do to
-- its clients. The services run in the process of the FSD server, on its state.
pub mod Online
pub mod Kick
pub mod Release
use netwingfs.Prelude.{
  ℕ, ◌+◌, ◌*◌, ◌/◌, ◌%◌, Bool, true, false, not, ◌||◌, Option, none, some, List, [], ◌∷◌, ◌++◌,
  ◌==◌, get_elem?, if◌then◌else◌,
}
use netwingfs.Prelude.Bytes.{Bytes, codes}
use netwingfs.Prelude.Int.{ℤ, pos, negsuc, sub_ℕ}
use netwingfs.Database.Model.{User, FlightPlan}
use netwingfs.Database.Permission.{client_kill, client_send_message, has_permission, node}
use netwingfs.Database.Accounts.{Op, ok, err, Accounts, get_user_by_uid}
use netwingfs.Fsd.Rating.{facility_index}
use netwingfs.Packet.State.{Client, Server, Env, Position, PilotPath}
use netwingfs.Packet.Monad.{M, ◌>>=◌, ◌>>◌, pure, gets, get_client, if_nil, deref}
use netwingfs.Packet.Registry.{find_client}
use netwingfs.Packet.Client.{marked_disconnect}
use netwingfs.Packet.Manager.{send_raw_message_to, get_client_snapshot}
use netwingfs.Service.Response.{
  ApiStatus, ApiResponse, status, not_found, ok_code, unsatisfied, new_api_response, error_status,
  err_illegal_param, err_no_permission,
}
use netwingfs.Service.Web.{AuditLog, lacks}
use netwingfs.Service.Users.{is_empty}
use netwingfs.Service.Users.Admin.{Request}

abbrev pub err_callsign_not_found : ApiStatus
err_callsign_not_found = status not_found (codes "CALLSIGN_NOT_FOUND")

abbrev pub success_send_message : ApiStatus
success_send_message = status ok_code (codes "SEND_MESSAGE")

abbrev pub success_kill_client : ApiStatus
success_kill_client = status ok_code (codes "KILL_CLIENT")

-- What a handler answers, with the logs and the mail that it leaves to goroutines; a mail says who
-- was kicked, by whom and why.
pub record Answer (A : Type 0) : Type 0 where
  pub response : ApiResponse A
  pub audit_logs : List AuditLog
  pub kicked_mails : List (User × User × Bytes)

abbrev pub only : {A : Type 0} → ApiStatus → Answer A
only e = record {
  response = new_api_response e unsatisfied none;
  audit_logs = [];
  kicked_mails = [];
}

abbrev pub client_log : Request → Bytes → Bytes → Bytes → AuditLog
client_log req event callsign text = record {
  event_type = event;
  subject = req.cid;
  object = callsign ++ (codes "(" ++ (text ++ codes ")"));
  ip = req.ip;
  user_agent = req.user_agent;
  change_details = none;
}

pub record OnlinePilot (F : Type 0) : Type 0 where
  pub cid : ℤ
  pub callsign : Bytes
  pub real_name : Bytes
  pub latitude : F
  pub longitude : F
  pub transponder : Bytes
  pub heading : ℕ
  pub altitude : ℤ
  pub ground_speed : ℤ
  pub flight_plan : Option FlightPlan
  pub logon_time : ℕ

pub record OnlineController (F : Type 0) : Type 0 where
  pub cid : ℤ
  pub callsign : Bytes
  pub real_name : Bytes
  pub latitude : F
  pub longitude : F
  pub rating : ℤ
  pub facility : ℕ
  pub frequency : ℤ
  pub atc_info : List Bytes
  pub logon_time : ℕ

pub record OnlineClients (F : Type 0) : Type 0 where
  pub connected_clients : ℕ
  pub online_pilot : ℕ
  pub online_controller : ℕ
  pub generate_time : ℕ
  pub pilots : List (OnlinePilot F)
  pub controllers : List (OnlineController F)

-- `Heading`: the heading of `UnpackPBH`, whose product is exact, cut to an integer.
unfoldable pub heading : ℕ → ℕ
heading pbh = pbh % 4096 / 4 * 360 / 1024

-- The frequency as it is shown; `int` of a sum that does not wrap.
abbrev pub shown_frequency : ℤ → ℤ
shown_frequency (pos n) = pos (n + 100000)
shown_frequency (negsuc n) = sub_ℕ 99999 n

module _ {F : Type 0} where
  abbrev pub online_pilot : Client F → Position F → OnlinePilot F
  online_pilot client at = record {
    cid = client.user.cid;
    callsign = client.callsign;
    real_name = client.real_name;
    latitude = at.latitude;
    longitude = at.longitude;
    transponder = client.transponder;
    heading = heading client.pbh;
    altitude = client.altitude;
    ground_speed = client.ground_speed;
    flight_plan = client.flight_plan;
    logon_time = client.history.start_time;
  }

  abbrev pub online_controller : Client F → Position F → OnlineController F
  online_controller client at = record {
    cid = client.user.cid;
    callsign = client.callsign;
    real_name = client.real_name;
    latitude = at.latitude;
    longitude = at.longitude;
    rating = client.rating;
    facility = facility_index client.facility;
    frequency = shown_frequency client.frequency;
    atc_info = client.atis_info;
    logon_time = client.history.start_time;
  }

  -- One more client of the loop of `getOnlineClient`.
  unfoldable pub add_online : Client F → Position F → OnlineClients F → OnlineClients F
  unfolding heading
  add_online client at online =
      if client.is_atc
      then record online {
        connected_clients = online.connected_clients + 1;
        online_controller = online.online_controller + 1;
        controllers = online.controllers ++ online_controller client at ∷ [];
      }
      else record online {
        connected_clients = online.connected_clients + 1;
        online_pilot = online.online_pilot + 1;
        pilots = online.pilots ++ online_pilot client at ∷ [];
      }

  abbrev pub no_clients : ℕ → OnlineClients F
  no_clients now = record {
    connected_clients = 0;
    online_pilot = 0;
    online_controller = 0;
    generate_time = now;
    pilots = [];
    controllers = [];
  }

module _ {F D : Type 0} (env : Env F D) where
  -- The loop of `getOnlineClient`.
  unfoldable pub online_loop : List ℕ → OnlineClients F → M F D (OnlineClients F)
  unfolding add_online
  online_loop [] online = pure online
  online_loop (c ∷ cs) online = do
    client ← get_client c
    if client.disconnect then online_loop cs online else do
      at ← deref (get_elem? client.position 0)
      online_loop cs (add_online client at online)

  -- `getOnlineClient`; the time it is generated at is the server's.
  unfoldable pub get_online_client : M F D (OnlineClients F)
  unfolding online_loop get_client_snapshot
  get_online_client = do
    clients ← get_client_snapshot env
    now ← gets (λ s. s.now)
    online_loop clients (no_clients now)

  -- `SendMessageToClient`. Its other error is that of a packet that cannot be made, which panics.
  unfoldable pub send_message_to_client : Request → ℤ → Bytes → Bytes → M F D (Answer Bool)
  unfolding lacks new_api_response send_raw_message_to
  send_message_to_client req permission send_to text =
      if (req.uid == 0) || (is_empty send_to || is_empty text)
      then pure (only err_illegal_param)
      else if lacks permission client_send_message
      then pure (only err_no_permission)
      else do
        fine ← send_raw_message_to env req.cid send_to text
        if not fine then pure (only err_callsign_not_found) else do
          pure (record {
            response = new_api_response success_send_message unsatisfied (some true);
            audit_logs = client_log req (codes "ClientMessage") send_to text ∷ [];
            kicked_mails = [];
          })

module _ {F D : Type 0} (env : Env F D) (accounts : Accounts D) (mails : Bool) where
  -- `KillClient` for a user of the database; `mails` is `EnableKickedFromServerEmail`.
  unfoldable pub kill_client_as : Request → Bytes → Bytes → User → M F D (Answer Bool)
  unfolding has_permission node new_api_response find_client marked_disconnect
  kill_client_as req callsign reason user =
      if not (has_permission user.permission (node client_kill))
      then pure (only err_no_permission)
      else do
        target ← find_client callsign
        if_nil target (pure (only err_callsign_not_found)) (λ c. (do
          marked_disconnect env c false
          client ← get_client c
          pure (record {
            response = new_api_response success_kill_client unsatisfied (some true);
            audit_logs = client_log req (codes "ClientKicked") callsign reason ∷ [];
            kicked_mails = if mails then (client.user, user, reason) ∷ [] else [];
          })))

  -- `KillClient` with what `GetUserByUid` answers.
  unfoldable pub kill_client_with : Request → Bytes → Bytes → Op User → M F D (Answer Bool)
  unfolding kill_client_as new_api_response error_status
  kill_client_with req callsign reason (ok user) = kill_client_as req callsign reason user
  kill_client_with req callsign reason (err e) = pure (only (error_status e))

  -- `KillClient`.
  unfoldable pub kill_client : Request → Bytes → Bytes → M F D (Answer Bool)
  unfolding kill_client_with get_user_by_uid new_api_response
  kill_client req callsign reason =
      if (req.uid == 0) || is_empty callsign then pure (only err_illegal_param) else do
        answer ← gets (λ s. get_user_by_uid accounts req.uid s.db)
        kill_client_with req callsign reason answer

  -- `GetClientPath`.
  unfoldable pub get_client_path : Bytes → M F D (ApiResponse (List (PilotPath F)))
  unfolding find_client new_api_response
  get_client_path callsign =
      if is_empty callsign then pure (new_api_response err_illegal_param unsatisfied none) else do
        target ← find_client callsign
        if_nil target
            (pure (new_api_response (status not_found (codes "CLIENT_NOT_FOUND")) unsatisfied none))
            (λ c. (do
              client ← get_client c
              pure (
                  new_api_response (status ok_code (codes "GET_CLIENT_PATH")) unsatisfied
                    (some client.paths))))
