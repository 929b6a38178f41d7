-- ===== src/Service/Clients/Online.antt =====
-- The list of the clients that are online, against the table of clients.
use netwingfs.Prelude.{
  ℕ, suc, ◌+◌, ◌<◌, ◌≡◌, refl, true, false, Bool-cases, List, [], ◌∷◌, map, inl, inr, length,
  length-append, get_elem?-some, if◌then◌else◌, arith,
}
use netwingfs.Packet.State.{Server, Client, Env, Position}
use netwingfs.Packet.Monad.{◌>>=◌, pure, gets, get_client, deref}
use netwingfs.Packet.Ends.{Ends, Ends-map}
use netwingfs.Packet.Manager.{get_client_snapshot}
use netwingfs.Service.Clients.{
  OnlineClients, add_online, no_clients, online_loop, get_online_client, heading, online_pilot,
  online_controller,
}

-- The clients of a list that are connected.
unfoldable pub count_connected : {F : Type 0} → (ℕ → Client F) → List ℕ → ℕ
count_connected clients [] = 0
count_connected clients (c ∷ cs) =
    let rest = count_connected clients cs in if (clients c).disconnect then rest else suc rest

module _ {F : Type 0} (clients : ℕ → Client F) where
  count-nil : count_connected clients [] ≡ 0
  unfolding count_connected
  count-nil = refl

  count-gone :
      (c : ℕ) (cs : List ℕ)
      → (clients c).disconnect ≡ true
      → count_connected clients (c ∷ cs) ≡ count_connected clients cs
  unfolding count_connected
  count-gone c cs h = rw h refl

  count-connected :
      (c : ℕ) (cs : List ℕ)
      → (clients c).disconnect ≡ false
      → count_connected clients (c ∷ cs) ≡ suc (count_connected clients cs)
  unfolding count_connected
  count-connected c cs h = rw h refl

module _ {F : Type 0} where
  -- The three numbers are those of the two lists.
  abbrev pub Consistent : OnlineClients F → Type 0
  Consistent online =
      (online.online_pilot ≡ length online.pilots)
      × (online.online_controller ≡ length online.controllers)
      × (online.connected_clients ≡ online.online_pilot + online.online_controller)

  add_online-Consistent :
      (client : Client F) (at : Position F) (online : OnlineClients F)
      → Consistent online
      → Consistent (add_online client at online)
        × ((add_online client at online).connected_clients ≡ suc online.connected_clients)
        × ((add_online client at online).generate_time ≡ online.generate_time)
  unfolding add_online
  add_online-Consistent client at online (p, c, n) = elim (Bool-cases client.is_atc) [
    | inl e ↦ rw e (
      (
        p,
        omega (arith, c, length-append online.controllers (online_controller client at ∷ [])),
        omega (arith, n),
      ),
      omega arith,
      refl,
    )
    | inr e ↦ rw e (
      (
        omega (arith, p, length-append online.pilots (online_pilot client at ∷ [])),
        c,
        omega (arith, n),
      ),
      omega arith,
      refl,
    )
  ]

module _ {F D : Type 0} (env : Env F D) where
  -- Every client has a position, as the objects that `NewClient` makes have.
  abbrev pub Placed : Server F D → Type 0
  Placed s = (c : ℕ) → 0 < length (s.clients c).position

  -- What the loop makes of the numbers so far.
  abbrev Counted : Server F D → List ℕ → OnlineClients F → OnlineClients F → Server F D → Type 0
  Counted s cs online online' t =
      (t ≡ s)
      × Consistent online'
      × (online'.connected_clients ≡ online.connected_clients + count_connected s.clients cs)

  online_loop-Counted :
      (cs : List ℕ) (online : OnlineClients F) (s : Server F D)
      → Placed s
      → Consistent online
      → Ends (Counted s cs online) (online_loop env cs online s)
  unfolding online_loop ◌>>=◌ get_client pure deref
  online_loop-Counted [] online s placed good = (refl, good, omega (arith, count-nil s.clients))
  online_loop-Counted (c ∷ cs) online s placed good = elim (Bool-cases (s.clients c).disconnect) [
    | inl e ↦ rw e (
        Ends-map _ (Counted s (c ∷ cs) online) (online_loop env cs online s)
          (λ online' t (same, good', n).
            (same, good', omega (arith, n, count-gone s.clients c cs e)))
          (online_loop-Counted cs online s placed good))
    | inr e ↦
        let (at, found) = get_elem?-some (s.clients c).position 0 (placed c) in
        let (fine, more, _) = add_online-Consistent (s.clients c) at online good in
        rw (e, found)
          (Ends-map _ (Counted s (c ∷ cs) online)
            (online_loop env cs (add_online (s.clients c) at online) s)
            (λ online' t (same, good', n).
              (same, good', omega (arith, n, more, count-connected s.clients c cs e)))
            (online_loop-Counted cs (add_online (s.clients c) at online) s placed fine))
  ]

  -- The clients of the table.
  abbrev pub listed : Server F D → List ℕ
  listed s = map (λ (k, c). c) s.registry

  -- What the list says of the table, which it leaves alone.
  abbrev pub Lists : Server F D → OnlineClients F → Server F D → Type 0
  Lists s online t =
      (t ≡ s)
      × Consistent online
      × (online.connected_clients ≡ count_connected s.clients (listed s))

  -- Where every client has a position, the list of the clients that are online is made without a
  -- panic and leaves the server as it was; its numbers are the lengths of its two lists, and their
  -- sum the number of the table's clients that are connected.
  pub get_online_client-Consistent :
      (s : Server F D) → Placed s → Ends (Lists s) (get_online_client env s)
  unfolding get_online_client get_client_snapshot ◌>>=◌ gets
  get_online_client-Consistent s placed =
      Ends-map (Counted s (listed s) (no_clients s.now)) (Lists s) (get_online_client env s)
        (λ online t (same, good, n). (same, good, omega (arith, n)))
        (online_loop-Counted (listed s) (no_clients s.now) s placed (refl, refl, refl))

-- A heading is shown in whole degrees of the circle.
pub heading-bound : (pbh : ℕ) → heading pbh < 360
unfolding heading
heading-bound pbh = omega arith
