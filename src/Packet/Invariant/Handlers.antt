-- ===== src/Packet/Invariant/Handlers.antt =====
-- The invariant under the client manager and the command handlers.
use netwingfs.Prelude.{ℕ, Bool, true, false, refl, List, Option, none, some, [], ◌∷◌}
use netwingfs.Prelude.Bytes.{Bytes}
use netwingfs.Prelude.Int.{ℤ}
use netwingfs.Database.Model.{User, FlightPlan}
use netwingfs.Packet.State.{Env, Server, BroadcastFilter}
use netwingfs.Packet.Monad.{M, Run, done, panic, blocked, modify, pure}
use netwingfs.Packet.Manager.{
  get_client_snapshot, broadcast_loop, broadcast_message, send_message_to, send_raw_message_to,
  send_heart_beat, disconnect_clients, disconnect_loop, shutdown, make_workers, acquire_worker,
  within_limit,
}
use netwingfs.Packet.Login.{
  get_user, check_user, identify, verify_user_info, attach_atc, finish_add_atc, handle_add_atc,
  attach_pilot, warn_plan, finish_add_pilot, handle_add_pilot,
}
use netwingfs.Packet.Invariant.{Keeps, Triple-bind, After, WellFormed}
use netwingfs.Packet.Invariant.Primitives.{
  keeps_rules, Allocated-modify_session, Allocated-modify_client, Allocated-set_position,
  Allocated-add_client,
}
use netwingfs.Packet.Invariant.Clients.{client_rules, new_client-Allocated}

module _ {F D : Type 0} (env : Env F D) where
  Keeps-get_client_snapshot : Keeps (get_client_snapshot env)
  unfolding get_client_snapshot
  Keeps-get_client_snapshot = search keeps_rules

  Keeps-make_workers : (cs : List ℕ) → Keeps (make_workers env cs)
  unfolding make_workers
  Keeps-make_workers [] = search keeps_rules
  Keeps-make_workers (c ∷ cs) = search keeps_rules

  Keeps-acquire_worker : Keeps (acquire_worker env)
  unfolding acquire_worker
  Keeps-acquire_worker = search keeps_rules

  Keeps-broadcast_loop :
      (line : Bytes) (from_client : Option ℕ) (filter : BroadcastFilter F) (cs : List ℕ)
      → Keeps (broadcast_loop env line from_client filter cs)
  unfolding broadcast_loop
  Keeps-broadcast_loop line from_client filter [] = search keeps_rules
  Keeps-broadcast_loop line from_client filter (c ∷ cs) =
      let rest = Keeps-broadcast_loop line from_client filter cs in
      search (client_rules, Keeps-acquire_worker) depth 20

  pub Keeps-broadcast_message :
      (line : Bytes) (from_client : Option ℕ) (filter : BroadcastFilter F)
      → Keeps (broadcast_message env line from_client filter)
  unfolding broadcast_message
  Keeps-broadcast_message line from_client filter =
      search (client_rules, Keeps-broadcast_loop, Keeps-make_workers) depth 20

  pub Keeps-send_message_to : (k line : Bytes) → Keeps (send_message_to env k line)
  unfolding send_message_to
  Keeps-send_message_to k line = search client_rules depth 20

  pub Keeps-send_raw_message_to :
      (cid : ℤ) (k text : Bytes) → Keeps (send_raw_message_to env cid k text)
  unfolding send_raw_message_to
  Keeps-send_raw_message_to cid k text = search client_rules depth 20

  pub Keeps-send_heart_beat : (random : ℕ) → Keeps (send_heart_beat env random)
  unfolding send_heart_beat
  Keeps-send_heart_beat random = search (client_rules, Keeps-broadcast_message) depth 20

  Keeps-disconnect_loop : (cs : List ℕ) → Keeps (disconnect_loop env cs)
  unfolding disconnect_loop
  Keeps-disconnect_loop [] = search keeps_rules
  Keeps-disconnect_loop (c ∷ cs) =
      let rest = Keeps-disconnect_loop cs in search (client_rules, Keeps-acquire_worker) depth 20

  Keeps-disconnect_clients : (cs : List ℕ) → Keeps (disconnect_clients env cs)
  unfolding disconnect_clients
  Keeps-disconnect_clients cs =
      search (client_rules, Keeps-make_workers, Keeps-disconnect_loop) depth 20

  After-within_limit :
      (r : Run F D (Unit {0})) (s : Server F D)
      → WellFormed s
      → After (λ _. WellFormed) r
      → After (λ _. WellFormed) (within_limit env r s)
  unfolding within_limit
  After-within_limit (done a t) s v h = h
  After-within_limit panic s v h = h
  After-within_limit blocked s v h = v

  Keeps-within_limit : (m : M F D (Unit {0})) → Keeps m → Keeps (λ s. within_limit env (m s) s)
  Keeps-within_limit m h = record { at = λ s v. After-within_limit (m s) s v (h.at s v) }

  Keeps-shut : Keeps {F = F} {D = D} (modify (λ s. record s { shutting_down = Bool.true }))
  unfolding modify
  Keeps-shut = record { at = λ s v. record { distinct = v.distinct; entries = v.entries } }

  pub Keeps-shutdown : Keeps (shutdown env)
  unfolding shutdown
  Keeps-shutdown =
      search (client_rules, Keeps-shut, Keeps-disconnect_clients, Keeps-within_limit) depth 20

  Keeps-get_user : (ident : Bytes) → Keeps (get_user env ident)
  unfolding get_user
  Keeps-get_user ident = search keeps_rules depth 20

  Keeps-check_user :
      (i : ℕ) (k : Bytes) (c : Option ℕ) (password : Bytes) (u : Option User)
      → Keeps (check_user env i k c password u)
  unfolding check_user
  Keeps-check_user i k c password none = search keeps_rules
  Keeps-check_user i k c password (some u) = search keeps_rules depth 20

  Keeps-identify :
      (i : ℕ) (k : Bytes) (c : Option ℕ) (ident password : Bytes)
      → Keeps (identify env i k c ident password)
  unfolding identify
  Keeps-identify i k c ident password =
      search (keeps_rules, Keeps-get_user, Keeps-check_user) depth 20

  Keeps-verify_user_info :
      (i : ℕ) (k : Bytes) (protocol : ℤ) (ident password : Bytes)
      → Keeps (verify_user_info env i k protocol ident password)
  unfolding verify_user_info
  Keeps-verify_user_info i k protocol ident password =
      search (client_rules, Keeps-identify) depth 20

  Keeps-attach_atc :
      (i : ℕ) (k : Bytes) (rating protocol : ℤ) (name : Bytes) (lat lon : F) (c : Option ℕ)
      → Keeps (attach_atc env i k rating protocol name lat lon c)
  unfolding attach_atc pure
  Keeps-attach_atc i k rating protocol name lat lon none =
      Triple-bind (new_client-Allocated env k rating protocol name i true) λ c.
        Triple-bind (Allocated-modify_session c i _) λ _.
          Triple-bind (Allocated-set_position c lat lon)
            λ _. Triple-bind (Allocated-add_client c) λ _. record { at = λ s v. v.0 }
  Keeps-attach_atc i k rating protocol name lat lon (some c) = search keeps_rules

  Keeps-attach_pilot :
      (i : ℕ) (k : Bytes) (rating protocol : ℤ) (name : Bytes) (sim : ℤ) (c : Option ℕ)
      → Keeps (attach_pilot env i k rating protocol name sim c)
  unfolding attach_pilot pure
  Keeps-attach_pilot i k rating protocol name sim none =
      Triple-bind (new_client-Allocated env k rating protocol name i false) λ c.
        Triple-bind (Allocated-modify_session c i _) λ _.
          Triple-bind (Allocated-modify_client c c _ (λ x. refl))
            λ _. Triple-bind (Allocated-add_client c) λ _. record { at = λ s v. v.0 }
  Keeps-attach_pilot i k rating protocol name sim (some c) = search keeps_rules

  Keeps-finish_add_atc :
      (i : ℕ) (fields : List Bytes) (line k : Bytes) (protocol : ℤ)
      → Keeps (finish_add_atc env i fields line k protocol)
  unfolding finish_add_atc
  Keeps-finish_add_atc i fields line k protocol = search (client_rules, Keeps-attach_atc) depth 30

  pub Keeps-handle_add_atc :
      (i : ℕ) (fields : List Bytes) (line : Bytes) → Keeps (handle_add_atc env i fields line)
  unfolding handle_add_atc
  Keeps-handle_add_atc i fields line =
      search (keeps_rules, Keeps-verify_user_info, Keeps-finish_add_atc) depth 20

  Keeps-warn_plan : (c : ℕ) (k : Bytes) (p : Option FlightPlan) → Keeps (warn_plan env c k p)
  unfolding warn_plan
  Keeps-warn_plan c k none = search keeps_rules
  Keeps-warn_plan c k (some p) = search client_rules depth 20

  Keeps-finish_add_pilot :
      (i : ℕ) (fields : List Bytes) (line k : Bytes) (protocol : ℤ)
      → Keeps (finish_add_pilot env i fields line k protocol)
  unfolding finish_add_pilot
  Keeps-finish_add_pilot i fields line k protocol =
      search (client_rules, Keeps-attach_pilot, Keeps-warn_plan) depth 30

  pub Keeps-handle_add_pilot :
      (i : ℕ) (fields : List Bytes) (line : Bytes) → Keeps (handle_add_pilot env i fields line)
  unfolding handle_add_pilot
  Keeps-handle_add_pilot i fields line =
      search (keeps_rules, Keeps-verify_user_info, Keeps-finish_add_pilot) depth 20

pub ruleset manager_rules = (
  client_rules, Keeps-broadcast_message, Keeps-send_message_to, Keeps-handle_add_atc,
  Keeps-handle_add_pilot,
)
