-- ===== src/Packet/Manager.antt =====
-- internal/fsd_server/packet/client_manager.go: messages to one client and to many, heartbeats and
-- the shutdown. The goroutines of one broadcast are taken in the order of the table.
pub mod Recipients
pub mod Shutdown
pub mod Workers
use netwingfs.Prelude.{
  ℕ, zero, suc, ◌+◌, ◌-◌, ◌%◌, Bool, true, false, not, ◌&&◌, ◌||◌, Option, none, some, List, [],
  ◌∷◌, ◌++◌, map, ◌==◌, if◌then◌else◌,
}
use mathlib.Core.Option
use netwingfs.Prelude.Bytes.{Bytes, codes}
use netwingfs.Prelude.Int.{ℤ, pos, negsuc, sub_ℕ, ltb_ℤ, eq_ℤ}
use netwingfs.Utils.Format.{show_int, show_padded}
use netwingfs.Fsd.Command.{message, wind_delta, all_client}
use netwingfs.Fsd.Broadcast.{broadcast_to_all}
use netwingfs.Packet.Lines.{split_sign}
use netwingfs.Packet.State.{Server, Client, Env, BroadcastFilter}
use netwingfs.Packet.Monad.{
  M, Run, done, panic, blocked, crash, block, ◌>>=◌, if_nil, ◌>>◌, pure, gets, modify, get_client,
  when,
}
use netwingfs.Packet.Registry.{Registry, find_client, is_some}
use netwingfs.Packet.Client.{packet, marked_disconnect}
use netwingfs.Packet.Sending.{send_line}

abbrev pub same_client : ℕ → Option ℕ → Bool
same_client c none = false
same_client c (some d) = c == d

abbrev is_empty : Bytes → Bool
is_empty [] = true
is_empty (x ∷ xs) = false

module _ {F D : Type 0} (env : Env F D) where
  -- `GetClientSnapshot`.
  unfoldable pub get_client_snapshot : M F D (List ℕ)
  get_client_snapshot = gets (λ s. map (λ (k, c). c) s.registry)

  -- Whether a broadcast goes to the client.
  unfoldable pub is_addressed : Option ℕ → BroadcastFilter F → ℕ → Server F D → Bool
  is_addressed from_client filter c s =
      if same_client c from_client || (s.clients c).disconnect
      then false
      else filter (s.clients c) (Option.map s.clients from_client)

  -- `make(chan struct{}, MaxBroadcastWorkers)`, which panics for a negative size. It is only made
  -- where there are clients.
  unfoldable pub make_workers : List ℕ → M F D (Unit {0})
  make_workers [] = pure tt
  make_workers (c ∷ cs) = if ltb_ℤ env.max_broadcast_workers (pos 0) then crash else pure tt

  -- `sem <- struct{}{}`, which blocks for ever without a place in the channel; with one, the
  -- goroutines that were started free it.
  unfoldable pub acquire_worker : M F D (Unit {0})
  acquire_worker = if eq_ℤ env.max_broadcast_workers (pos 0) then block else pure tt

  -- The loop of `BroadcastMessage` over the snapshot.
  unfoldable pub broadcast_loop : Bytes → Option ℕ → BroadcastFilter F → List ℕ → M F D (Unit {0})
  unfolding is_addressed acquire_worker
  broadcast_loop full_msg from_client filter [] = pure tt
  broadcast_loop full_msg from_client filter (c ∷ cs) = do
    addressed ← gets (is_addressed from_client filter c)
    when addressed (do acquire_worker; send_line env c full_msg)
    broadcast_loop full_msg from_client filter cs

  -- `BroadcastMessage`.
  unfoldable pub broadcast_message : Bytes → Option ℕ → BroadcastFilter F → M F D (Unit {0})
  unfolding broadcast_loop get_client_snapshot make_workers
  broadcast_message line from_client filter = do
    shutting_down ← gets (λ s. s.shutting_down)
    if shutting_down || is_empty line then pure tt else do
      clients ← get_client_snapshot
      make_workers clients
      broadcast_loop (line ++ split_sign) from_client filter clients

  -- `SendMessageTo`: whether there was no error.
  unfoldable pub send_message_to : Bytes → Bytes → M F D Bool
  send_message_to callsign line = do
    target ← find_client callsign
    if_nil target (pure false) (λ c. (do send_line env c line; pure true))

  -- `SendRawMessageTo`: whether there was no error.
  unfoldable pub send_raw_message_to : ℤ → Bytes → Bytes → M F D Bool
  send_raw_message_to from_cid to text = do
    target ← find_client to
    if_nil target (pure false) (λ c. (do
      line ←
          packet env message ((codes "(" ++ (show_padded 4 from_cid ++ codes ")")) ∷ to ∷ text ∷ [])
      send_line env c line
      pure true))

  -- `SendHeartBeat`, over the random number that it draws.
  unfoldable pub send_heart_beat : ℕ → M F D (Unit {0})
  unfolding broadcast_message
  send_heart_beat random = do
    shutting_down ← gets (λ s. s.shutting_down)
    if shutting_down then pure tt else do
      line ← packet env wind_delta (
          codes "global.FSDServerName"
          ∷ all_client
          ∷ show_int (sub_ℕ (random % 11) 5)
          ∷ show_int (sub_ℕ (random % 21) 10)
          ∷ [])
      broadcast_message line none broadcast_to_all

  -- The loop of `disconnectClients`.
  unfoldable pub disconnect_loop : List ℕ → M F D (Unit {0})
  unfolding acquire_worker
  disconnect_loop [] = pure tt
  disconnect_loop (c ∷ cs) = do acquire_worker; marked_disconnect env c true; disconnect_loop cs

  -- `disconnectClients`.
  unfoldable pub disconnect_clients : List ℕ → M F D (Unit {0})
  unfolding make_workers disconnect_loop
  disconnect_clients clients = do make_workers clients; disconnect_loop clients

  -- The `select` of `Shutdown`: the end of the goroutine, or the time limit where it blocks, which it
  -- does before its first client. A goroutine that goes on but takes longer is not modelled.
  unfoldable pub within_limit : Run F D (Unit {0}) → Server F D → Run F D Bool
  within_limit (done a t) s = done true t
  within_limit panic s = panic
  within_limit blocked s = done false s

  -- `Shutdown`: whether there was no error.
  unfoldable pub shutdown : M F D Bool
  unfolding disconnect_clients get_client_snapshot within_limit
  shutdown = do
    already ← gets (λ s. s.shutting_down)
    if already then pure false else do
      modify (λ s. record s { shutting_down = true })
      clients ← get_client_snapshot
      (λ s. within_limit (disconnect_clients clients s) s)
