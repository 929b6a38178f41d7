-- ===== src/Examples.antt =====
-- A small configuration, database and server on which the code can be run: one user, with the
-- password "pw", and distances that are natural numbers.
use netwingfs.Prelude.{
  ℕ, ◌+◌, ◌-◌, ◌*◌, ◌/◌, true, false, none, some, List, [], ◌∷◌, ltb, leb, ◌==◌,
}
use netwingfs.Prelude.Bytes.{Bytes, codes, bytes_eq}
use netwingfs.Prelude.Int.{ℤ}
use netwingfs.Fsd.Rating.{rating_facility_map}
use netwingfs.Database.Model.{User, FlightPlan, Database, found, missing, stamped, rows_affected}
use netwingfs.Database.Plans.{blank_plan}
use netwingfs.Packet.State.{Floats, Client, Session, Server, Env}
use netwingfs.Packet.Client.{new_record}

abbrev pub number_floats : Floats ℕ
number_floats = record {
  parse_float = λ s. none;
  of_nat = λ n. n;
  pi = 3;
  max_float = 1000000;
  add = λ a b. a + b;
  subtract = λ a b. a - b;
  multiply = λ a b. a * b;
  divide = λ a b. a / b;
  sin = λ a. a;
  cos = λ a. a;
  acos = λ a. a;
  larger = λ a b. a + b;
  eq = λ a b. a == b;
  lt = λ a b. ltb a b;
  le = λ a b. leb a b;
}

abbrev pub some_user : User
some_user = record {
  uid = 1;
  username = codes "ann";
  email = codes "ann@example.org";
  cid = ℤ.pos 1;
  password = codes "pw";
  avatar_url = [];
  qq = ℤ.pos 0;
  rating = ℤ.pos 12;
  permission = ℤ.pos 0;
  total_pilot_time = ℤ.pos 0;
  total_atc_time = ℤ.pos 0;
}

abbrev pub one_user_database : Database (Unit {0})
one_user_database = record {
  first_plan = λ cid d. (missing, d);
  save_plan = λ p d. (stamped (codes "now"), d);
  update_altitude = λ p altitude d. (rows_affected 1, d);
  first_user_by_cid = λ cid d. (found some_user, d);
  first_user_by_ident = λ ident d. (missing, d);
  compare_password = λ hash password. bytes_eq hash password;
  save_history = λ h d. (true, d);
  add_atc_time = λ u n d. (true, d);
  add_pilot_time = λ u n d. (true, d);
}

abbrev pub some_env : Env ℕ (Unit {0})
some_env = record {
  floats = number_floats;
  database = one_user_database;
  ratings = rating_facility_map;
  simulator_server = false;
  motd = [];
  pos_update_points = ℤ.pos 2;
  max_broadcast_workers = ℤ.pos 4;
}

abbrev pub fresh_session : Session
fresh_session = record {
  callsign = [];
  client = none;
  user = none;
  disconnected = false;
  conn_open = true;
}

-- The session of client 0.
abbrev pub known_session : Session
known_session = record {
  callsign = codes "CES1";
  client = some 0;
  user = some some_user;
  disconnected = false;
  conn_open = true;
}

-- A pilot with the callsign CES1, connected by session 0.
abbrev pub some_pilot : Client ℕ
some_pilot =
    new_record some_env (codes "CES1") (ℤ.pos 0) (ℤ.pos 9) (codes "Ann") 0 false some_user none 0

-- The same pilot after the connection is lost.
abbrev pub waiting_pilot : Client ℕ
waiting_pilot = record some_pilot { disconnect = true; reconnect_timer = true }

abbrev pub server_of : Client ℕ → Session → List (Bytes × ℕ) → Server ℕ (Unit {0})
server_of client session registry = record {
  clients = λ c. client;
  next_client = 1;
  sessions = λ i. session;
  registry = registry;
  shutting_down = false;
  tasks = [];
  timers = [];
  sent = [];
  db = tt;
  now = 0;
}

abbrev pub one_pilot : List (Bytes × ℕ)
one_pilot = (codes "CES1", 0) ∷ []

-- A plan that a controller has locked.
abbrev pub locked_plan : FlightPlan
locked_plan = record (blank_plan (ℤ.pos 1) (codes "CES1")) { locked = true }
