-- ===== src/Packet/Client/Cut.antt =====
-- What a client that is kicked loses.
use netwingfs.Prelude.{==_refl, ℕ, ◌≡◌, refl, true, false, Bool-cases, inl, inr, ◌⊎◌}
use netwingfs.Packet.State.{Server, Env}
use netwingfs.Packet.Monad.{
  ◌>>=◌, get_client, modify, modify_client, modify_session, after_func, when,
}
use netwingfs.Packet.Ends.{Ends, Ends-continue}
use netwingfs.Packet.Client.{mark, marked_disconnect, stop_timer}
use netwingfs.Packet.Client.Lifecycle.{has_timer}

module _ {F D : Type 0} (env : Env F D) where
  -- A kick closes the connection of a connected client and arms the timer that deletes it; it does
  -- nothing to one that is disconnected already.
  abbrev pub Cut : Server F D → ℕ → Server F D → Type 0
  Cut s c t =
      (((s.clients c).disconnect ≡ true) × (t ≡ s))
      ⊎ (((t.sessions (s.clients c).socket).conn_open ≡ false) × (has_timer c t.timers ≡ true))

  -- The client `c` has lost its connection, and is still in the table as it was.
  abbrev pub Gone : Server F D → ℕ → Server F D → Type 0
  Gone s c t =
      ((t.clients c).disconnect ≡ true)
      × ((t.clients c).callsign ≡ (s.clients c).callsign)
      × (t.registry ≡ s.registry)
      × Cut s c t

  mark-Gone : (s : Server F D) (c : ℕ) → Ends (λ _ t. Gone s c t) (mark env c false s)
  unfolding mark stop_timer ◌>>=◌ modify get_client modify_client modify_session after_func when
  mark-Gone s c = elim (Bool-cases (s.clients c).disconnect) [
    | inl h ↦ rw h (h, refl, refl, inl (refl, refl))
    | inr h ↦ elim (Bool-cases (s.clients c).reconnect_timer) [
      | inl e ↦
          rw (h, e, ==_refl c, ==_refl (s.clients c).socket) (refl, refl, refl, inr (refl, refl))
      | inr e ↦
          rw (h, e, ==_refl c, ==_refl (s.clients c).socket) (refl, refl, refl, inr (refl, refl))
    ]
  ]

  pub marked_disconnect-Gone :
      (s : Server F D) (c : ℕ) → Ends (λ _ t. Gone s c t) (marked_disconnect env c false s)
  unfolding marked_disconnect ◌>>=◌ when
  marked_disconnect-Gone s c =
      Ends-continue (λ _ t. Gone s c t) (λ _ t. Gone s c t) (mark env c false s) _ (mark-Gone s c)
        (λ _ t h. h)
