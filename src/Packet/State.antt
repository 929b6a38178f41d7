-- ===== src/Packet/State.antt =====
-- The state of the server: clients and sessions by number (their pointers), the client manager's
-- table, timers, started goroutines, and what was written to the connections. Floats are a
-- parameter, since they are neither read nor computed with here but through their operations.
use netwingfs.Prelude.{ℕ, Bool, Option, List, ◌==◌, if◌then◌else◌}
use netwingfs.Prelude.Bytes.{Bytes}
use netwingfs.Prelude.Int.{ℤ}
use netwingfs.Database.Model.{User, FlightPlan, History, Database}

-- The `float64` operations and literals that the source uses.
pub record Floats (F : Type 0) : Type 0 where
  pub parse_float : Bytes → Option F
  pub of_nat : ℕ → F
  pub pi : F
  pub max_float : F
  pub add : F → F → F
  pub subtract : F → F → F
  pub multiply : F → F → F
  pub divide : F → F → F
  pub sin : F → F
  pub cos : F → F
  pub acos : F → F
  pub larger : F → F → F
  pub eq : F → F → Bool
  pub lt : F → F → Bool
  pub le : F → F → Bool

-- interfaces/fsd/position.go
pub record Position (F : Type 0) : Type 0 where
  pub latitude : F
  pub longitude : F

pub record PilotPath (F : Type 0) : Type 0 where
  pub latitude : F
  pub longitude : F
  pub altitude : ℤ

-- `Client`. The reconnect timer is `true` while one is armed; `trigger_count` is the count of
-- `pathTrigger`. `motd_bytes` keeps a nil slice apart from an empty one.
pub record Client (F : Type 0) : Type 0 where
  pub socket : ℕ
  pub is_atc : Bool
  pub callsign : Bytes
  pub rating : ℤ
  pub facility : ℕ
  pub user : User
  pub protocol : ℤ
  pub real_name : Bytes
  pub position : List (Position F)
  pub sim_type : ℤ
  pub transponder : Bytes
  pub altitude : ℤ
  pub ground_speed : ℤ
  pub frequency : ℤ
  pub pbh : ℕ
  pub visual_range : F
  pub flight_plan : Option FlightPlan
  pub atis_info : List Bytes
  pub paths : List (PilotPath F)
  pub history : History
  pub disconnect : Bool
  pub motd_bytes : Option Bytes
  pub reconnect_timer : Bool
  pub trigger_count : ℕ

-- `Session`.
pub record Session : Type 0 where
  pub callsign : Bytes
  pub client : Option ℕ
  pub user : Option User
  pub disconnected : Bool
  pub conn_open : Bool

-- `BroadcastFilter`: the receiver, and the sender if there is one.
abbrev pub BroadcastFilter : Type 0 → Type 0
BroadcastFilter F = Client F → Option (Client F) → Bool

-- A goroutine that was started and has not run.
pub data Task (F : Type 0) : Type 0 where
  broadcast_task : Bytes → Option ℕ → BroadcastFilter F → Task F
  tick_task : ℕ → Task F

-- A timer that runs: `client.Delete` of a client, the deletion of a callsign after a fatal error,
-- and the closing of a session's connection after one.
pub data Timer : Type 0 where
  reconnect_timer : ℕ → Timer
  delete_timer : Bytes → Timer
  close_timer : ℕ → Timer

pub record Server (F D : Type 0) : Type 0 where
  pub clients : ℕ → Client F
  pub next_client : ℕ
  pub sessions : ℕ → Session
  pub registry : List (Bytes × ℕ)
  pub shutting_down : Bool
  pub tasks : List (Task F)
  pub timers : List Timer
  pub sent : List (ℕ × Bytes)
  pub db : D
  pub now : ℕ

-- What is fixed while the server runs: the parameters and the configuration.
pub record Env (F D : Type 0) : Type 0 where
  pub floats : Floats F
  pub database : Database D
  pub ratings : ℤ → ℕ
  pub simulator_server : Bool
  pub motd : List Bytes
  pub pos_update_points : ℤ
  pub max_broadcast_workers : ℤ

-- A store of objects by number.
abbrev pub update : {A : Type 0} → (ℕ → A) → ℕ → A → ℕ → A
update store i a j = if j == i then a else store j
