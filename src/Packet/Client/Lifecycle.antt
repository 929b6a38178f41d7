-- ===== src/Packet/Client/Lifecycle.antt =====
-- A client that loses its connection, and comes back or is deleted.
use netwingfs.Prelude.{
  ==_refl, ℕ, ◌≡◌, refl, Bool, true, false, List, [], ◌∷◌, arith, if◌then◌else◌, Bool-cases, inl,
  inr, ◌∙◌,
}
use netwingfs.Packet.State.{Server, Client, Env, Timer}
use netwingfs.Packet.Monad.{
  ◌>>=◌, pure, modify, get_client, modify_client, modify_session, after_func, when,
}
use netwingfs.Packet.Ends.{Ends, Ends-continue, Ends-map}
use netwingfs.Packet.Client.{
  remove_reconnect, is_reconnect, stop_timer, reconnect, mark, marked_disconnect,
}

-- Whether the timer of a lost connection, which deletes the client, is armed.
abbrev pub has_timer : ℕ → List Timer → Bool
has_timer c [] = false
has_timer c (t ∷ ts) = if is_reconnect c t then true else has_timer c ts

has_timer-remove_reconnect : (c : ℕ) (ts : List Timer) → has_timer c (remove_reconnect c ts) ≡ false
has_timer-remove_reconnect c [] = refl
has_timer-remove_reconnect c (t ∷ ts) = ground (arith, has_timer-remove_reconnect c ts)

module _ {F D : Type 0} (env : Env F D) where
  -- What a client keeps over a lost connection: who it is, where it is, its plan and its hours.
  abbrev pub Kept : Client F → Client F → Type 0
  Kept x y =
      (y.callsign ≡ x.callsign)
      × (y.user ≡ x.user)
      × (y.is_atc ≡ x.is_atc)
      × (y.position ≡ x.position)
      × (y.flight_plan ≡ x.flight_plan)
      × (y.history ≡ x.history)

  -- The client is connected by the session, and the timer of its lost connection is not armed.
  abbrev pub Attached : ℕ → ℕ → Server F D → Type 0
  Attached c i t =
      ((t.clients c).disconnect ≡ false)
      × ((t.clients c).socket ≡ i)
      × (has_timer c t.timers ≡ false)

  Kept-trans : (x y z : Client F) → Kept x y → Kept y z → Kept x z
  Kept-trans x y z (a0, a1, a2, a3, a4, a5) (b0, b1, b2, b3, b4, b5) =
      (b0 ∙ a0, b1 ∙ a1, b2 ∙ a2, b3 ∙ a3, b4 ∙ a4, b5 ∙ a5)

  -- The client waits for its session with a timer.
  abbrev pub Waits : ℕ → Server F D → Type 0
  Waits c t = ((t.clients c).disconnect ≡ true) × ((t.clients c).reconnect_timer ≡ true)

  mark-Waits :
      (s : Server F D) (c : ℕ)
      → (s.clients c).disconnect ≡ false
      → Ends (λ _ t. Waits c t × Kept (s.clients c) (t.clients c)) (mark env c false s)
  unfolding mark stop_timer ◌>>=◌ modify get_client modify_client modify_session after_func when
  mark-Waits s c h = elim (Bool-cases (s.clients c).reconnect_timer) [
    | inl e ↦ rw (h, e, ==_refl c) ((refl, refl), (refl, refl, refl, refl, refl, refl))
    | inr e ↦ rw (h, e, ==_refl c) ((refl, refl), (refl, refl, refl, refl, refl, refl))
  ]

  pub reconnect-Attached :
      (s : Server F D) (c i : ℕ)
      → Waits c s
      → Ends
          (λ back t. (back ≡ true) × Attached c i t × Kept (s.clients c) (t.clients c))
          (reconnect env c i s)
  unfolding reconnect stop_timer ◌>>=◌ pure modify get_client modify_client modify_session when
  reconnect-Attached s c i (h, e) =
      rw (h, e, ==_refl c)
        (
          refl,
          (refl, refl, has_timer-remove_reconnect c s.timers),
          (refl, refl, refl, refl, refl, refl),
        )

  -- A connected client whose connection is lost waits with a timer; when a session takes it over
  -- before that runs out, the run succeeds, the client is attached to that session, the timer of
  -- the lost connection is gone, and it keeps its callsign, user, position, plan and history.
  pub reconnect-marked_disconnect :
      (s : Server F D) (c i : ℕ)
      → (s.clients c).disconnect ≡ false
      → Ends
          (λ back t. (back ≡ true) × Attached c i t × Kept (s.clients c) (t.clients c))
          ((marked_disconnect env c false >>= λ _. reconnect env c i) s)
  unfolding marked_disconnect ◌>>=◌ when
  reconnect-marked_disconnect s c i h =
      Ends-continue (λ _ t. Waits c t × Kept (s.clients c) (t.clients c)) _ _ _
        (Ends-continue (λ _ t. Waits c t × Kept (s.clients c) (t.clients c)) _ _ _
          (mark-Waits s c h) (λ _ t w. w))
        (λ _ t (w, k).
          Ends-map (λ back u. (back ≡ true) × Attached c i u × Kept (t.clients c) (u.clients c)) _ _
            (λ back u (b, a, l). (b, a, Kept-trans (s.clients c) (t.clients c) (u.clients c) k l))
            (reconnect-Attached t c i w))
