-- ===== src/Packet/Manager/Recipients.antt =====
-- Exactly who receives a broadcast, and what.
use netwingfs.Prelude.{
  ℕ, ◌≡◌, refl, Bool, true, false, ◌||◌, Option, List, [], ◌∷◌, ◌++◌, map, arith, if◌then◌else◌,
  Bool-cases, inl, inr, ap, ◌∙◌,
}
use mathlib.Core.List.{append-nil, append_assoc}
use netwingfs.Prelude.Bytes.{Bytes}
use netwingfs.Packet.Lines.{split_sign}
use netwingfs.Packet.State.{Server, Env, BroadcastFilter}
use netwingfs.Packet.Monad.{M, Run, done, ◌>>=◌, pure, gets, get_client, write, when}
use netwingfs.Packet.Client.{with_sign, ends_with_sign}
use netwingfs.Packet.Sending.{send_line}
use netwingfs.Prelude.Int.{pos, ltb_ℤ}
use netwingfs.Packet.Manager.Workers.{make_workers_lem, acquire_worker_lem}
use netwingfs.Packet.Manager.{is_addressed, broadcast_loop, broadcast_message, get_client_snapshot}

ends_with_sign-append : (line : Bytes) → ends_with_sign (line ++ split_sign) ≡ true
ends_with_sign-append [] = refl
ends_with_sign-append (a ∷ []) = refl
ends_with_sign-append (a ∷ b ∷ []) = refl
ends_with_sign-append (a ∷ b ∷ c ∷ line) = ends_with_sign-append (b ∷ c ∷ line)

if_neither : {A : Type 0} (b : Bool) (x y : A) → b ≡ false → (if b || false then x else y) ≡ y
if_neither true x y h = cc
if_neither false x y h = refl

module _ {F D : Type 0} (env : Env F D) where
  -- What a broadcast puts on the connections, in the order of the table.
  pub deliveries : Bytes → Option ℕ → BroadcastFilter F → List ℕ → Server F D → List (ℕ × Bytes)
  unfolding is_addressed
  deliveries line from_client wanted [] s = []
  deliveries line from_client wanted (c ∷ cs) s =
      let rest = deliveries line from_client wanted cs s in
      if is_addressed env from_client wanted c s then ((s.clients c).socket, line) ∷ rest else rest

  is_addressed-connected :
      (from_client : Option ℕ) (wanted : BroadcastFilter F) (c : ℕ) (s : Server F D)
      → is_addressed env from_client wanted c s ≡ true
      → (s.clients c).disconnect ≡ false
  unfolding is_addressed
  is_addressed-connected from_client wanted c s h = ground arith

  deliveries-sent :
      (line : Bytes) (from_client : Option ℕ) (wanted : BroadcastFilter F) (cs : List ℕ)
      (s : Server F D) (sent : List (ℕ × Bytes))
      → deliveries line from_client wanted cs (record s { sent = sent })
        ≡ deliveries line from_client wanted cs s
  unfolding deliveries is_addressed
  deliveries-sent line from_client wanted [] s sent = refl
  deliveries-sent line from_client wanted (c ∷ cs) s sent =
      rw (deliveries-sent line from_client wanted cs s sent) refl

  broadcast_loop-sent :
      (line : Bytes) (from_client : Option ℕ) (wanted : BroadcastFilter F) (cs : List ℕ)
      (s : Server F D) (one : List (ℕ × Bytes)) {r : Run F D (Unit {0})}
      → r
        ≡ done tt (record s {
          sent =
              (s.sent ++ one)
              ++ deliveries line from_client wanted cs (record s { sent = s.sent ++ one });
        })
      → r ≡ done tt (record s { sent = s.sent ++ (one ++ deliveries line from_client wanted cs s) })
  broadcast_loop-sent line from_client wanted cs s one h =
      h
      ∙ ap (λ x. done tt (record s { sent = (s.sent ++ one) ++ x }))
          (deliveries-sent line from_client wanted cs s (s.sent ++ one))
      ∙ ap (λ x. done tt (record s { sent = x }))
          (append_assoc s.sent one (deliveries line from_client wanted cs s))

  broadcast_loop-deliveries :
      (line : Bytes) (from_client : Option ℕ) (wanted : BroadcastFilter F) (cs : List ℕ)
      (s : Server F D)
      → ltb_ℤ (pos 0) env.max_broadcast_workers ≡ true
      → broadcast_loop env (line ++ split_sign) from_client wanted cs s
        ≡ done tt
            (record s { sent = s.sent ++ deliveries (line ++ split_sign) from_client wanted cs s })
  unfolding broadcast_loop deliveries send_line with_sign ◌>>=◌ pure gets get_client write when
  broadcast_loop-deliveries line from_client wanted [] s h = rw (append-nil s.sent) refl
  broadcast_loop-deliveries line from_client wanted (c ∷ cs) s h =
      elim (Bool-cases (is_addressed env from_client wanted c s)) [
        | inl e ↦
            rw
              (
                e,
                acquire_worker_lem env h,
                is_addressed-connected from_client wanted c s e,
                ends_with_sign-append line,
              )
              (broadcast_loop-sent (line ++ split_sign) from_client wanted cs s
                (((s.clients c).socket, line ++ split_sign) ∷ [])
                (broadcast_loop-deliveries line from_client wanted cs
                  (record s { sent = s.sent ++ ((s.clients c).socket, line ++ split_sign) ∷ [] })
                  h))
        | inr e ↦ rw e (broadcast_loop-deliveries line from_client wanted cs s h)
      ]

  -- With a positive number of workers, a broadcast of a line that is not empty, while the server
  -- runs, ends, and adds to what was
  -- sent just the line with its line end, once for each client of the table that the filter wants,
  -- that is connected and that is not the sender; nothing else changes.
  pub broadcast_message-deliveries :
      (x : ℕ) (line : Bytes) (from_client : Option ℕ) (wanted : BroadcastFilter F) (s : Server F D)
      → ltb_ℤ (pos 0) env.max_broadcast_workers ≡ true
      → s.shutting_down ≡ false
      → broadcast_message env (x ∷ line) from_client wanted s
        ≡ done tt (record s {
          sent =
              s.sent
              ++ deliveries
                  ((x ∷ line) ++ split_sign)
                  from_client
                  wanted
                  (map (λ (k, c). c) s.registry)
                  s;
        })
  unfolding broadcast_message get_client_snapshot ◌>>=◌ gets pure
  broadcast_message-deliveries x line from_client wanted s workers running =
      let clients = map (λ (k, c). c) s.registry in
      ap (λ (m : M F D (Unit {0})). m s) (if_neither s.shutting_down _ _ running)
      ∙ rw (make_workers_lem env clients workers)
          (broadcast_loop-deliveries (x ∷ line) from_client wanted clients s workers)
