-- ===== src/Packet/Invariant/Reachable.antt =====
-- Every state that the server can come to, in any order of lines, goroutines, timers, closed
-- connections, heartbeats, messages and kicks from the web interface, and the shutdown.
use mathlib.Core.Path.{subst}
use netwingfs.Prelude.{ℕ, ◌+◌, ◌≡◌, Bool, Option, List, [], ◌∷◌, ◌++◌}
use netwingfs.Prelude.Bytes.{Bytes}
use netwingfs.Prelude.Int.{ℤ}
use netwingfs.Packet.State.{Server, Session, Env, Task, Timer, update}
use netwingfs.Packet.Monad.{M, done}
use netwingfs.Packet.Client.{marked_disconnect}
use netwingfs.Packet.Manager.{send_raw_message_to, send_heart_beat, shutdown}
use netwingfs.Packet.Commands.{handle_line, end_connection, run_task, run_timer}
use netwingfs.Packet.Invariant.{WellFormed, Keeps, After}
use netwingfs.Packet.Invariant.Clients.{Keeps-marked_disconnect}
use netwingfs.Packet.Invariant.Handlers.{
  Keeps-send_raw_message_to, Keeps-send_heart_beat, Keeps-shutdown,
}
use netwingfs.Packet.Invariant.Commands.{
  Keeps-handle_line, Keeps-end_connection, Keeps-run_task, Keeps-run_timer,
}

-- `NewSession`.
abbrev pub new_session : Session
new_session = record {
  callsign = [];
  client = Option.none;
  user = Option.none;
  disconnected = Bool.false;
  conn_open = Bool.true;
}

module _ {F D : Type 0} (env : Env F D) where
  -- One step, by whoever moves next. A run that panics leads to no state.
  pub data Step (s : Server F D) : Server F D → Type 0 where
    accept : (i : ℕ) → Step s (record s { sessions = update s.sessions i new_session })
    receive :
        (i : ℕ) (line : Bytes) {t : Server F D} → handle_line env i line s ≡ done tt t → Step s t
    close : (i : ℕ) {t : Server F D} → end_connection env i s ≡ done tt t → Step s t
    task :
        (before after : List (Task F)) (x : Task F) {t : Server F D}
        → s.tasks ≡ before ++ x ∷ after
        → run_task env x (record s { tasks = before ++ after }) ≡ done tt t
        → Step s t
    timer :
        (before after : List Timer) (x : Timer) {t : Server F D}
        → s.timers ≡ before ++ x ∷ after
        → run_timer env x (record s { timers = before ++ after }) ≡ done tt t
        → Step s t
    heartbeat : (random : ℕ) {t : Server F D} → send_heart_beat env random s ≡ done tt t → Step s t
    web_message :
        (cid : ℤ) (to text : Bytes) (good : Bool) {t : Server F D}
        → send_raw_message_to env cid to text s ≡ done good t
        → Step s t
    web_kick :
        (c : ℕ) {t : Server F D} → marked_disconnect env c Bool.false s ≡ done tt t → Step s t
    stop : (good : Bool) {t : Server F D} → shutdown env s ≡ done good t → Step s t
    time : (n : ℕ) → Step s (record s { now = s.now + n })

  pub data Reach (s : Server F D) : Server F D → Type 0 where
    here : Reach s s
    next : {t u : Server F D} → Reach s t → Step t u → Reach s u

module _ {F D A : Type 0} where
  after_done :
      (m : M F D A) (s : Server F D) {a : A} {t : Server F D}
      → Keeps m
      → WellFormed s
      → m s ≡ done a t
      → WellFormed t
  after_done m s k v e = subst (After _) e (k.at s v)

module _ {F D : Type 0} (env : Env F D) where
  Step-WellFormed : {s t : Server F D} → Step env s t → WellFormed s → WellFormed t
  Step-WellFormed {s} (accept i) v = record { distinct = v.distinct; entries = v.entries }
  Step-WellFormed {s} (receive i line e) v =
      after_done (handle_line env i line) s (Keeps-handle_line env i line) v e
  Step-WellFormed {s} (close i e) v =
      after_done (end_connection env i) s (Keeps-end_connection env i) v e
  Step-WellFormed {s} (task before after x p e) v =
      after_done (run_task env x) (record s { tasks = before ++ after }) (Keeps-run_task env x)
        (record { distinct = v.distinct; entries = v.entries }) e
  Step-WellFormed {s} (timer before after x p e) v =
      after_done (run_timer env x) (record s { timers = before ++ after }) (Keeps-run_timer env x)
        (record { distinct = v.distinct; entries = v.entries }) e
  Step-WellFormed {s} (heartbeat random e) v =
      after_done (send_heart_beat env random) s (Keeps-send_heart_beat env random) v e
  Step-WellFormed {s} (web_message cid to text good e) v =
      after_done (send_raw_message_to env cid to text) s (Keeps-send_raw_message_to env cid to text)
        v e
  Step-WellFormed {s} (web_kick c e) v =
      after_done (marked_disconnect env c Bool.false) s (Keeps-marked_disconnect env c Bool.false) v
        e
  Step-WellFormed {s} (stop good e) v = after_done (shutdown env) s (Keeps-shutdown env) v e
  Step-WellFormed {s} (time n) v = record { distinct = v.distinct; entries = v.entries }

  -- From a server without clients, whatever is received and in whatever order goroutines and timers
  -- run, no callsign has two entries in the client manager's table, and each entry leads to an
  -- allocated client of just that callsign.
  pub Reach-WellFormed : (s t : Server F D) → s.registry ≡ [] → Reach env s t → WellFormed t
  Reach-WellFormed s t empty here = record { distinct = rw empty tt; entries = rw empty tt }
  Reach-WellFormed s t empty (next {t = u} r st) = Step-WellFormed st (Reach-WellFormed s u empty r)
