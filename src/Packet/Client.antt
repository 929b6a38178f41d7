-- ===== src/Packet/Client.antt =====
-- internal/fsd_server/packet/client.go: the operations of a client, by its number.
pub mod Lifecycle
pub mod Cut
pub mod Removal
use netwingfs.Prelude.{
  ℕ, zero, suc, ◌+◌, ◌-◌, Bool, true, false, not, ◌&&◌, ◌||◌, Option, none, some, List, [], ◌∷◌,
  ◌++◌, set, get_elem?, ltb, leb, ◌==◌, if◌then◌else◌,
}
use mathlib.Core.Option
use netwingfs.Prelude.Bytes.{Bytes, codes, bytes_eq}
use netwingfs.Prelude.Int.{ℤ, pos, negsuc, leb_ℤ, ltb_ℤ, eq_ℤ}
use netwingfs.Utils.Format.{show_padded}
use netwingfs.Utils.Trigger.{tick}
use netwingfs.Fsd.Command.{Command, message, error, fsd_server_name}
use netwingfs.Fsd.Outcome.{Outcome, errno_index, errno_string}
use netwingfs.Fsd.Rating.{check_facility}
use netwingfs.Database.Model.{User, FlightPlan, History, Fetch, found, missing, failed}
use netwingfs.Database.Plans.{
  PlanError, get_flight_plan_by_cid, upsert_flight_plan, update_flight_plan,
}
use netwingfs.Packet.Lines.{split_sign, make_packet}
use netwingfs.Packet.State.{
  Server, Client, Session, Env, Position, PilotPath, Timer, reconnect_timer, delete_timer,
  tick_task, update,
}
use netwingfs.Packet.Monad.{
  M, ◌>>=◌, ◌>>◌, pure, deref, field, gets, modify, get_client, modify_client, get_session, Run,
  modify_session, start, after_func, write, with_db, when,
}
use netwingfs.Packet.Registry.{delete_client}

abbrev pub ends_with_sign : Bytes → Bool
ends_with_sign [] = false
ends_with_sign (a ∷ []) = false
ends_with_sign (a ∷ b ∷ []) = (a == 13) && (b == 10)
ends_with_sign (a ∷ b ∷ c ∷ s) = ends_with_sign (b ∷ c ∷ s)

-- A line with the line end that `SendLine` appends where it is missing.
unfoldable pub with_sign : Bytes → Bytes
with_sign line = if ends_with_sign line then line else line ++ split_sign

abbrev pub is_reconnect : ℕ → Timer → Bool
is_reconnect c (reconnect_timer d) = d == c
is_reconnect c _ = false

abbrev pub remove_reconnect : ℕ → List Timer → List Timer
remove_reconnect c [] = []
remove_reconnect c (t ∷ ts) =
    if is_reconnect c t then remove_reconnect c ts else t ∷ remove_reconnect c ts

abbrev fetched : Fetch FlightPlan → Option FlightPlan
fetched (found p) = some p
fetched missing = none
fetched failed = none

module _ {F D : Type 0} (env : Env F D) where
  open env.floats use {of_nat}

  -- `makePacket`, whose panic would end the process.
  unfoldable pub packet : Command → List Bytes → M F D Bytes
  packet command parts = deref (make_packet command parts)

  -- `client.reconnectTimer.Stop()`, where one is set.
  unfoldable pub stop_timer : ℕ → M F D (Unit {0})
  stop_timer c = modify (λ s. record s { timers = remove_reconnect c s.timers })

  -- The plan that `NewClient` loads for a pilot.
  unfoldable pub load_plan : Bool → ℤ → M F D (Option FlightPlan)
  load_plan is_atc cid =
      if not is_atc && not env.simulator_server
      then (do
        answer ← with_db (get_flight_plan_by_cid env.database env.simulator_server cid)
        pure (fetched answer))
      else pure none

  abbrev pub new_record : Bytes → ℤ → ℤ → Bytes → ℕ → Bool → User → Option FlightPlan → ℕ → Client F
  new_record callsign rating protocol real_name session is_atc user flight_plan now =
      let origin : Position F = record { latitude = of_nat 0; longitude = of_nat 0 } in
      record {
        socket = session;
        is_atc = is_atc;
        callsign = callsign;
        rating = rating;
        facility = 0;
        user = user;
        protocol = protocol;
        real_name = real_name;
        position = origin ∷ origin ∷ origin ∷ origin ∷ [];
        sim_type = pos 0;
        transponder = codes "2000";
        altitude = pos 0;
        ground_speed = pos 0;
        frequency = pos 99998;
        pbh = 0;
        visual_range = of_nat 40;
        flight_plan = flight_plan;
        atis_info = [];
        paths = [];
        history = record {
          cid = user.cid;
          callsign = callsign;
          start_time = now;
          end_time = now;
          online_time = 0;
          is_atc = is_atc;
        };
        disconnect = false;
        motd_bytes = none;
        reconnect_timer = false;
        trigger_count = 0;
      }

  -- A new object in the store.
  unfoldable pub allocate : Client F → M F D ℕ
  allocate client s = Run.done s.next_client (record s {
    clients = update s.clients s.next_client client;
    next_client = suc s.next_client;
  })

  -- `NewClient`.
  unfoldable pub new_client : Bytes → ℤ → ℤ → Bytes → ℕ → Bool → M F D ℕ
  unfolding allocate load_plan
  new_client callsign rating protocol real_name session is_atc = do
    modify_session session (λ x. record x { callsign = callsign })
    current ← get_session session
    user ← deref current.user
    flight_plan ← load_plan is_atc user.cid
    now ← gets (λ s. s.now)
    allocate (new_record callsign rating protocol real_name session is_atc user flight_plan now)

  -- `recordPathPoint`.
  unfoldable pub record_path_point : ℕ → M F D (Unit {0})
  record_path_point c = do
    client ← get_client c
    at ← deref (get_elem? client.position 0)
    let point : PilotPath F = record {
      latitude = at.latitude;
      longitude = at.longitude;
      altitude = client.altitude;
    }
    modify_client c (λ x. record x { paths = x.paths ++ point ∷ [] })

  -- The goroutine `client.pathTrigger.Tick()`.
  unfoldable pub tick_path : ℕ → M F D (Unit {0})
  unfolding record_path_point
  tick_path c = do
    client ← get_client c
    let (count, fired) = tick env.pos_update_points client.trigger_count
    when fired (record_path_point c)
    modify_client c (λ x. record x { trigger_count = count })

  -- `EndRecordAndSaveHistory`.
  unfoldable pub end_history : ℕ → M F D (Unit {0})
  end_history c = do
    now ← gets (λ s. s.now)
    modify_client c (λ x. record x {
      history = record (x.history) { end_time = now; online_time = now - x.history.start_time };
    })
    client ← get_client c
    _ ← with_db (env.database.save_history client.history)
    pure tt

  -- The hours of a client that leaves.
  unfoldable pub add_time : ℕ → M F D (Unit {0})
  add_time c = do
    client ← get_client c
    _ ←
        if client.is_atc
        then with_db (env.database.add_atc_time client.user client.history.online_time)
        else if not env.simulator_server
        then with_db (env.database.add_pilot_time client.user client.history.online_time)
        else pure true
    pure tt

  -- `Delete` before it calls `DeleteClient`.
  unfoldable pub write_off : ℕ → Client F → M F D (Unit {0})
  unfolding stop_timer end_history add_time
  write_off c client = do
    when client.reconnect_timer (stop_timer c)
    modify_client c (λ x. record x { reconnect_timer = false })
    when (client.is_atc || not env.simulator_server) (end_history c)
    add_time c

  -- `Delete`.
  unfoldable pub delete : ℕ → M F D (Unit {0})
  unfolding write_off
  delete c = do
    client ← get_client c
    when client.disconnect (do write_off c client; _ ← delete_client client.callsign; pure tt)

  -- `Reconnect`: whether the client was waiting for it.
  unfoldable pub reconnect : ℕ → ℕ → M F D Bool
  unfolding stop_timer
  reconnect c session = do
    client ← get_client c
    if not client.disconnect then pure false else do
      when client.reconnect_timer (stop_timer c)
      modify_client c (λ x. record x {
        socket = session;
        reconnect_timer = false;
        atis_info = [];
        disconnect = false;
      })
      modify_session session (λ x. record x { callsign = client.callsign })
      pure true

  -- The body of `MarkedDisconnect` before its deferred call.
  unfoldable pub mark : ℕ → Bool → M F D (Unit {0})
  unfolding stop_timer
  mark c immediate = do
    client ← get_client c
    when (not client.disconnect) (do
      modify_client c (λ x. record x { disconnect = true })
      modify_session client.socket (λ x. record x { conn_open = false })
      when client.reconnect_timer (stop_timer c)
      when (not immediate) (do
        modify_client c (λ x. record x {
          motd_bytes = Option.map (λ _. []) x.motd_bytes;
          reconnect_timer = true;
        })
        after_func (reconnect_timer c)))

  -- `MarkedDisconnect`.
  unfoldable pub marked_disconnect : ℕ → Bool → M F D (Unit {0})
  unfolding mark delete
  marked_disconnect c immediate = do mark c immediate; when immediate (delete c)
