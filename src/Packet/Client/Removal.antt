-- ===== src/Packet/Client/Removal.antt =====
-- What the deletion of a client does to the table of clients.
use mathlib.Core.Path.{subst}
use netwingfs.Prelude.{
  ℕ, ◌≡◌, refl, sym, ap, ◌∙◌, Bool-cases, inl, inr, Bool, true, false, none, arith, if◌then◌else◌,
}
use netwingfs.Prelude.Bytes.{Bytes, bytes_eq, bytes_eq_iff}
use netwingfs.Packet.State.{Server, Client, Env}
use netwingfs.Packet.Monad.{
  M, ◌>>=◌, ◌>>◌, pure, gets, modify, get_client, modify_client, with_db, when,
}
use netwingfs.Packet.Ends.{Ends, Ends-continue}
use netwingfs.Packet.Registry.{Registry, lookup, is_some, delete_client}
use netwingfs.Packet.Registry.Laws.{lookup-remove}
use netwingfs.Packet.Client.{stop_timer, end_history, add_time, write_off, delete}

-- Code that ends and leaves the table as it is.
record Leaves {F D A : Type 0} (r : Registry) (m : M F D A) : Type 0 where
  at : (s : Server F D) → s.registry ≡ r → Ends (λ _ t. t.registry ≡ r) (m s)

module _ {F D A B : Type 0} (r : Registry) where
  Leaves-bind :
      {m : M F D A} {f : A → M F D B} → Leaves r m → ((a : A) → Leaves r (f a)) → Leaves r (m >>= f)
  unfolding ◌>>=◌
  Leaves-bind {m} {f} h k = record {
    at = λ s e.
        Ends-continue (λ _ t. t.registry ≡ r) (λ _ t. t.registry ≡ r) (m s) f (h.at s e)
          (λ a t e'. (k a).at t e');
  }

module _ {F D A : Type 0} (r : Registry) where
  Leaves-if : (b : Bool) {m n : M F D A} → Leaves r m → Leaves r n → Leaves r (if b then m else n)
  Leaves-if true h k = h
  Leaves-if false h k = k

  Leaves-pure : (a : A) → Leaves {F = F} {D = D} r (pure a)
  unfolding pure
  Leaves-pure a = record { at = λ s e. e }

  Leaves-gets : (f : Server F D → A) → Leaves r (gets f)
  unfolding gets
  Leaves-gets f = record { at = λ s e. e }

  Leaves-with_db : (f : D → A × D) → Leaves {F = F} r (with_db f)
  unfolding with_db
  Leaves-with_db f = record { at = λ s e. e }

module _ {F D : Type 0} (r : Registry) where
  Leaves-get_client : (c : ℕ) → Leaves {F = F} {D = D} r (get_client c)
  unfolding get_client
  Leaves-get_client c = record { at = λ s e. e }

  Leaves-modify_client : (c : ℕ) (f : Client F → Client F) → Leaves {D = D} r (modify_client c f)
  unfolding modify_client
  Leaves-modify_client c f = record { at = λ s e. e }

  Leaves-stop_timer : (env : Env F D) (c : ℕ) → Leaves r (stop_timer env c)
  unfolding stop_timer modify
  Leaves-stop_timer env c = record { at = λ s e. e }

  Leaves-when : (b : Bool) {m : M F D (Unit {0})} → Leaves r m → Leaves r (when b m)
  unfolding when
  Leaves-when true h = record { at = λ s e. h.at s e }
  Leaves-when false h = record { at = λ s e. e }

ruleset leaves_rules = (
  Leaves-bind, Leaves-if, Leaves-pure, Leaves-gets, Leaves-with_db, Leaves-get_client,
  Leaves-modify_client, Leaves-stop_timer, Leaves-when,
)

module _ {F D : Type 0} (env : Env F D) where
  Leaves-end_history : (r : Registry) (c : ℕ) → Leaves r (end_history env c)
  unfolding end_history
  Leaves-end_history r c = search leaves_rules depth 20

  Leaves-add_time : (r : Registry) (c : ℕ) → Leaves r (add_time env c)
  unfolding add_time
  Leaves-add_time r c = search leaves_rules depth 20

  Leaves-write_off : (r : Registry) (c : ℕ) (client : Client F) → Leaves r (write_off env c client)
  unfolding write_off
  Leaves-write_off r c client = search (leaves_rules, Leaves-end_history, Leaves-add_time) depth 20

  delete_client-frees :
      (k j : Bytes) (r : Registry) (s : Server F D)
      → s.registry ≡ r
      → Ends
          (λ _ t. lookup j t.registry ≡ (if bytes_eq k j then none else lookup j r))
          (delete_client k s)
  unfolding delete_client
  delete_client-frees k j r s e = elim (Bool-cases (is_some (lookup k s.registry))) [
    | inl h ↦
        rw h (lookup-remove k j s.registry ∙ ap (λ x. if bytes_eq k j then none else lookup j x) e)
    | inr h ↦ rw h (ground (arith, h, e, bytes_eq_iff k j))
  ]

  -- The deletion of a waiting client ends without a panic; after it the client's callsign is free,
  -- and every other callsign leads where it led.
  pub delete-frees :
      (c : ℕ) (j : Bytes) (s : Server F D)
      → (s.clients c).disconnect ≡ true
      → Ends
          (λ _ t.
            lookup j t.registry
            ≡ (if bytes_eq (s.clients c).callsign j then none else lookup j s.registry))
          (delete env c s)
  unfolding delete ◌>>=◌ get_client when pure
  delete-frees c j s gone =
      let k = (s.clients c).callsign in
      let Q : Unit {0} → Server F D → Type 0 =
        λ _ t. lookup j t.registry ≡ (if bytes_eq k j then none else lookup j s.registry) in
      subst
        (λ b.
          Ends Q (when b (write_off env c (s.clients c) >> (delete_client k >>= λ _. pure tt)) s))
        (sym gone)
        (Ends-continue (λ _ t. t.registry ≡ s.registry) Q (write_off env c (s.clients c) s) _
          ((Leaves-write_off s.registry c (s.clients c)).at s refl)
          (λ _ t e.
            Ends-continue (λ _ u. Q tt u) Q (delete_client k t) _
              (delete_client-frees k j s.registry t e) (λ _ u q. q)))
