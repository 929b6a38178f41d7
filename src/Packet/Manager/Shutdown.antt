-- ===== src/Packet/Manager/Shutdown.antt =====
-- The table of clients during a shutdown.
use netwingfs.Prelude.{
  ==_refl, ℕ, ◌≡◌, refl, sym, ap, ◌∙◌, true, false, Bool-cases, none, some, List, [], ◌∷◌, map, inl,
  inr, ◌⊎◌, if◌then◌else◌, arith,
}
use netwingfs.Prelude.Bytes.{Bytes, bytes_eq, bytes_eq_iff}
use netwingfs.Prelude.Int.{pos, ltb_ℤ}
use netwingfs.Packet.State.{Server, Env}
use netwingfs.Packet.Monad.{
  Run, done, panic, blocked, ◌>>=◌, pure, gets, get_client, modify, modify_client, modify_session,
  when,
}
use netwingfs.Packet.Registry.{Registry, lookup}
use netwingfs.Packet.Ends.{Ends, Ends-continue, Ends-map}
use netwingfs.Packet.Client.{mark, stop_timer, marked_disconnect}
use netwingfs.Packet.Client.Removal.{delete-frees}
use netwingfs.Packet.Invariant.{WellFormed, After}
use netwingfs.Packet.Invariant.Clients.{Keeps-marked_disconnect}
use netwingfs.Packet.Invariant.Lookup.{lookup-Entries}
use netwingfs.Packet.Manager.Workers.{make_workers_lem, acquire_worker_lem}
use netwingfs.Packet.Manager.{
  get_client_snapshot, disconnect_loop, disconnect_clients, within_limit, shutdown,
}

-- A run ends once, so it has all the properties that it has one by one.
Ends-all :
    {F D A I : Type 0} (Q : I → A → Server F D → Type 0) (r : Run F D A)
    → I
    → ((i : I) → Ends (Q i) r)
    → Ends (λ a s. (i : I) → Q i a s) r
Ends-all Q (done a s) i h = h
Ends-all Q panic i h = h i
Ends-all Q blocked i h = h i

Ends-and :
    {F D A : Type 0} (P Q : A → Server F D → Type 0) (r : Run F D A)
    → Ends P r
    → After Q r
    → Ends (λ a s. P a s × Q a s) r
Ends-and P Q (done a s) p q = (p, q)
Ends-and P Q panic p q = elim p [ ]
Ends-and P Q blocked p q = elim p [ ]

abbrev In : ℕ → List ℕ → Type 0
In c [] = ⊥
In c (d ∷ cs) = (c ≡ d) ⊎ In c cs

-- Among the clients still to be disconnected are all that are in the table.
abbrev Among : {F D : Type 0} → List ℕ → Server F D → Type 0
Among cs s = (j : Bytes) (c : ℕ) → lookup j s.registry ≡ some c → In c cs

module _ {F D : Type 0} (env : Env F D) where
  abbrev Marked : Server F D → ℕ → Server F D → Type 0
  Marked s c t =
      ((t.clients c).disconnect ≡ true)
      × ((t.clients c).callsign ≡ (s.clients c).callsign)
      × (t.registry ≡ s.registry)

  mark-Marked : (s : Server F D) (c : ℕ) → Ends (λ _ t. Marked s c t) (mark env c true s)
  unfolding mark stop_timer ◌>>=◌ modify get_client modify_client modify_session when
  mark-Marked s c = elim (Bool-cases (s.clients c).disconnect) [
    | inl h ↦ rw h (h, refl, refl)
    | inr h ↦ elim (Bool-cases (s.clients c).reconnect_timer) [
      | inl e ↦ rw (h, e, ==_refl c) (refl, refl, refl)
      | inr e ↦ rw (h, e, ==_refl c) (refl, refl, refl)
    ]
  ]

  -- After an immediate disconnection the client's callsign is free, and the others lead where they
  -- led.
  abbrev Only : Server F D → ℕ → Bytes → Server F D → Type 0
  Only s c j t =
      lookup j t.registry
      ≡ (if bytes_eq (s.clients c).callsign j then none else lookup j s.registry)

  marked_disconnect-Only :
      (s : Server F D) (c : ℕ) (j : Bytes)
      → Ends (λ _ t. Only s c j t) (marked_disconnect env c true s)
  unfolding marked_disconnect ◌>>=◌ when
  marked_disconnect-Only s c j =
      Ends-continue (λ _ t. Marked s c t) (λ _ t. Only s c j t) (mark env c true s) _
        (mark-Marked s c)
        (λ _ t (gone, named, kept). rw (← named, ← kept) (delete-frees env c j t gone))

  freed :
      (k j : Bytes) (r t : Registry) (d : ℕ)
      → lookup j t ≡ (if bytes_eq k j then none else lookup j r)
      → lookup j t ≡ some d
      → (bytes_eq k j ≡ false) × (lookup j r ≡ some d)
  freed k j r t d e h = ground (arith, e, h)

  Among-tail :
      (s t : Server F D) (c : ℕ) (cs : List ℕ)
      → WellFormed s
      → Among (c ∷ cs) s
      → ((j : Bytes) → Only s c j t)
      → Among cs t
  Among-tail s t c cs v among only j d h =
      let (other, led) = freed (s.clients c).callsign j s.registry t.registry d (only j) h in
      elim (among j d led) [
        | inl is_c ↦
            let named = lookup-Entries s.clients s.next_client s.registry j d v.entries led in
            let of_c : (s.clients c).callsign ≡ j =
              ap (λ x. (s.clients x).callsign) (sym is_c) ∙ named in
            absurd (ground (arith, other, of_c, bytes_eq_iff (s.clients c).callsign j))
        | inr later ↦ later
      ]

  disconnect_loop-empties :
      (cs : List ℕ) (s : Server F D)
      → ltb_ℤ (pos 0) env.max_broadcast_workers ≡ true
      → WellFormed s
      → Among cs s
      → Ends (λ _ t. Among [] t) (disconnect_loop env cs s)
  unfolding disconnect_loop ◌>>=◌ pure
  disconnect_loop-empties [] s h v among = among
  disconnect_loop-empties (c ∷ cs) s h v among = rw (acquire_worker_lem env h) (
      Ends-continue (λ _ t. ((j : Bytes) → Only s c j t) × WellFormed t) (λ _ t. Among [] t)
        (marked_disconnect env c true s) _
        (Ends-and _ (λ _ t. WellFormed t) (marked_disconnect env c true s)
          (Ends-all (λ j _ t. Only s c j t) (marked_disconnect env c true s) []
            (marked_disconnect-Only s c))
          ((Keeps-marked_disconnect env c true).at s v))
        (λ _ t (only, kept).
          disconnect_loop-empties cs t h kept (Among-tail s t c cs v among only)))

  In-snapshot :
      (j : Bytes) (c : ℕ) (r : Registry) → lookup j r ≡ some c → In c (map (λ (k, d). d) r)
  unfolding lookup
  In-snapshot j c [] h = cc
  In-snapshot j c ((k, d) ∷ r) h = elim (Bool-cases (bytes_eq k j)) [
    | inl e ↦ inl (ground (arith, e, h))
    | inr e ↦ inr (In-snapshot j c r (ground (arith, e, h)))
  ]

  no_entry : (r : Registry) → ((j : Bytes) (c : ℕ) → lookup j r ≡ some c → ⊥) → r ≡ []
  unfolding lookup
  no_entry [] h = refl
  no_entry ((k, c) ∷ r) h = absurd (h k c (ground (arith, bytes_eq_iff k k)))

  Ends-within_limit :
      (Q : Server F D → Type 0) (r : Run F D (Unit {0})) (s : Server F D)
      → Ends (λ _ t. Q t) r
      → Ends (λ good t. (good ≡ true) × Q t) (within_limit env r s)
  unfolding within_limit
  Ends-within_limit Q (done a t) s h = (refl, h)
  Ends-within_limit Q panic s h = elim h [ ]
  Ends-within_limit Q blocked s h = elim h [ ]

  disconnect_clients-empties :
      (cs : List ℕ) (s : Server F D)
      → ltb_ℤ (pos 0) env.max_broadcast_workers ≡ true
      → WellFormed s
      → Among cs s
      → Ends (λ _ t. t.registry ≡ []) (disconnect_clients env cs s)
  unfolding disconnect_clients ◌>>=◌ pure
  disconnect_clients-empties cs s h v among = rw (make_workers_lem env cs h) (
      Ends-map (λ _ t. Among [] t) (λ _ t. t.registry ≡ []) (disconnect_loop env cs s)
        (λ _ t none_left. no_entry t.registry none_left) (disconnect_loop-empties cs s h v among))

  -- With a positive number of workers, the shutdown of a well-formed server that is not yet shutting
  -- down ends without a panic and without an error, and the table of clients is then empty, where it
  -- does not reach its time limit.
  pub shutdown-empties :
      (s : Server F D)
      → ltb_ℤ (pos 0) env.max_broadcast_workers ≡ true
      → WellFormed s
      → s.shutting_down ≡ false
      → Ends (λ good t. (good ≡ true) × (t.registry ≡ [])) (shutdown env s)
  unfolding shutdown ◌>>=◌ gets modify pure get_client_snapshot
  shutdown-empties s workers v running =
      let stopping = record s { shutting_down = true } in
      let clients = map (λ (k, c). c) s.registry in
      rw running (
        Ends-within_limit (λ t. t.registry ≡ []) (disconnect_clients env clients stopping) stopping
          (disconnect_clients-empties clients stopping workers
            (record { distinct = v.distinct; entries = v.entries })
            (λ j c h. In-snapshot j c s.registry h)))
