-- ===== src/Service/Clients/Release.antt =====
-- What follows when a kicked client does not come back.
use mathlib.Core.Path.{subst}
use netwingfs.Prelude.{ℕ, ◌≡◌, refl, ◌∙◌, Bool, true, none, some, inl, inr, if◌then◌else◌, arith}
use netwingfs.Prelude.Bytes.{Bytes, bytes_eq, bytes_eq_refl}
use netwingfs.Database.Accounts.{Accounts}
use netwingfs.Packet.State.{Server, Env, reconnect_timer}
use netwingfs.Packet.Monad.{done}
use netwingfs.Packet.Registry.{Registry, lookup}
use netwingfs.Packet.Ends.{Ends, Ends-map}
use netwingfs.Packet.Client.{delete, remove_reconnect}
use netwingfs.Packet.Commands.{run_timer}
use netwingfs.Packet.Client.Removal.{delete-frees}
use netwingfs.Packet.Invariant.{WellFormed}
use netwingfs.Packet.Invariant.Lookup.{lookup-Entries}
use netwingfs.Service.Users.Admin.{Request}
use netwingfs.Service.Clients.{Answer, kill_client}
use netwingfs.Service.Clients.Kick.{KickedOrNot, Kicked, kill_client-Kicked}
use netwingfs.Packet.Client.Cut.{Cut}

freed : (j k : Bytes) → j ≡ k → (r : Registry) → (if bytes_eq j k then none else lookup k r) ≡ none
freed j k e r = rw e (rw (bytes_eq_refl k) refl)

module _ {F D : Type 0} (env : Env F D) (accounts : Accounts D) (mails : Bool) where
  -- When the timer of the kick runs out, the callsign becomes free.
  abbrev pub Freed : Bytes → Server F D → ℕ → Type 0
  Freed callsign t c =
      Ends (λ _ u. lookup callsign u.registry ≡ none)
        (run_timer env (reconnect_timer c) (record t { timers = remove_reconnect c t.timers }))

  kicked :
      (s t : Server F D) (req : Request) (callsign : Bytes) (answer : Answer Bool)
      → answer.response.data_field ≡ some true
      → KickedOrNot env accounts mails s req callsign answer t
      → Kicked env accounts mails s req callsign t
  kicked s t req callsign answer h (inl (no_data, _)) = ground (arith, h, no_data)
  kicked s t req callsign answer h (inr k) = k

  -- In a well-formed server, where a kick succeeds, the callsign led to a client. If it was connected,
  -- its session's connection is closed and its timer is armed; else nothing has changed. When that
  -- timer runs out in the state that the kick leaves, it ends without a panic and frees the callsign.
  pub kill_client-Freed :
      (req : Request) (callsign reason : Bytes) (s t : Server F D) (answer : Answer Bool)
      → WellFormed s
      → kill_client env accounts mails req callsign reason s ≡ done answer t
      → answer.response.data_field ≡ some true
      → (c : ℕ) × (lookup callsign s.registry ≡ some c) × Cut env s c t × Freed callsign t c
  unfolding run_timer
  kill_client-Freed req callsign reason s t answer v run good =
      let (operator, c, _, _, entry, gone) = kicked s t req callsign answer good (
        subst (Ends (KickedOrNot env accounts mails s req callsign)) run
          (kill_client-Kicked env accounts mails req callsign reason s)) in
      let named : (t.clients c).callsign ≡ callsign =
        gone.1 ∙ lookup-Entries s.clients s.next_client s.registry callsign c v.entries entry in
      (
        c,
        entry,
        gone.3,
        Ends-map _ (λ _ u. lookup callsign u.registry ≡ none)
            (delete env c (record t { timers = remove_reconnect c t.timers }))
            (λ _ u e. e ∙ freed (t.clients c).callsign callsign named t.registry)
            (delete-frees env c callsign (record t { timers = remove_reconnect c t.timers })
              gone.0),
      )
