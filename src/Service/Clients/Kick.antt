-- ===== src/Service/Clients/Kick.antt =====
-- Who may kick a client, and what becomes of it.
use netwingfs.Prelude.{
  ℕ, ◌≡◌, refl, Bool, true, not, ◌==◌, ◌||◌, Option, none, some, inl, inr, ◌⊎◌, if◌then◌else◌,
  arith,
}
use netwingfs.Prelude.Bytes.{Bytes}
use netwingfs.Database.Model.{User}
use netwingfs.Database.Permission.{client_kill, has_permission, node}
use netwingfs.Database.Permission.Nodes.{held}
use netwingfs.Database.Accounts.{Op, ok, err, Accounts, get_user_by_uid}
use netwingfs.Packet.State.{Server, Env}
use netwingfs.Packet.Monad.{M, ◌>>=◌, pure, gets, get_client, if_nil}
use netwingfs.Packet.Registry.{lookup, find_client}
use netwingfs.Packet.Ends.{Ends, Ends-continue, Ends-if}
use netwingfs.Packet.Client.Cut.{Gone, marked_disconnect-Gone}
use netwingfs.Service.Users.{is_empty}
use netwingfs.Service.Users.Admin.{Request}
use netwingfs.Service.Clients.{Answer, kill_client, kill_client_with, kill_client_as}

after-if_nil :
    {F D A B : Type 0} (Q : B → Server F D → Type 0) (o : Option A) (m : M F D B) (f : A → M F D B)
    (s : Server F D)
    → (o ≡ none → Ends Q (m s))
    → ((a : A) → o ≡ some a → Ends Q (f a s))
    → Ends Q (if_nil o m f s)
unfolding if_nil
after-if_nil Q none m f s h k = h refl
after-if_nil Q (some a) m f s h k = k a refl

module _ {F D : Type 0} (env : Env F D) (accounts : Accounts D) (mails : Bool) where
  -- An account of the database that may kick has kicked the client of that callsign.
  abbrev pub Kicked : Server F D → Request → Bytes → Server F D → Type 0
  Kicked s req callsign t =
      (operator : User) × (c : ℕ) × (get_user_by_uid accounts req.uid s.db ≡ ok operator)
      × (held operator.permission client_kill ≡ true)
      × (lookup callsign s.registry ≡ some c)
      × Gone env s c t

  -- An answer without data leaves the server as it is.
  abbrev pub KickedOrNot : Server F D → Request → Bytes → Answer Bool → Server F D → Type 0
  KickedOrNot s req callsign answer t =
      ((answer.response.data_field ≡ none) × (t ≡ s)) ⊎ Kicked s req callsign t

  found_client :
      (s : Server F D) (k : Bytes) (c : ℕ)
      → (if s.shutting_down then none else lookup k s.registry) ≡ some c
      → lookup k s.registry ≡ some c
  found_client s k c h = ground (arith, h)

  kill_client_as-Kicked :
      (req : Request) (callsign reason : Bytes) (operator : User) (s : Server F D)
      → get_user_by_uid accounts req.uid s.db ≡ ok operator
      → Ends
          (KickedOrNot s req callsign)
          (kill_client_as env accounts mails req callsign reason operator s)
  unfolding kill_client_as ◌>>=◌ pure find_client get_client
  kill_client_as-Kicked req callsign reason operator s known =
      Ends-if (KickedOrNot s req callsign)
        (not (has_permission operator.permission (node client_kill))) _ _ s (λ _. inl (refl, refl))
        (λ may.
          after-if_nil (KickedOrNot s req callsign)
            (if s.shutting_down then none else lookup callsign s.registry) _ _ s
            (λ _. inl (refl, refl))
            (λ c e.
              Ends-continue (λ _ t. Gone env s c t) (KickedOrNot s req callsign) _ _
                (marked_disconnect-Gone env s c)
                (λ _ t gone.
                  inr
                    (operator, c, known, ground (arith, may), found_client s callsign c e, gone))))

  kill_client_with-Kicked :
      (req : Request) (callsign reason : Bytes) (o : Op User) (s : Server F D)
      → get_user_by_uid accounts req.uid s.db ≡ o
      → Ends
          (KickedOrNot s req callsign)
          (kill_client_with env accounts mails req callsign reason o s)
  unfolding kill_client_with pure
  kill_client_with-Kicked req callsign reason (ok operator) s known =
      kill_client_as-Kicked req callsign reason operator s known
  kill_client_with-Kicked req callsign reason (err e) s known = inl (refl, refl)

  -- The request to kick a client ends without a panic. It answers without data and leaves the server
  -- as it was, or the account of the database may kick, and the client of that callsign is
  -- disconnected and still in the table: it was so before and nothing has changed, or its session's
  -- connection is closed and the timer that deletes it is armed.
  pub kill_client-Kicked :
      (req : Request) (callsign reason : Bytes) (s : Server F D)
      → Ends (KickedOrNot s req callsign) (kill_client env accounts mails req callsign reason s)
  unfolding kill_client ◌>>=◌ pure gets
  kill_client-Kicked req callsign reason s =
      Ends-if (KickedOrNot s req callsign) ((req.uid == 0) || is_empty callsign) _ _ s
        (λ _. inl (refl, refl))
        (λ _.
          kill_client_with-Kicked req callsign reason (get_user_by_uid accounts req.uid s.db) s
            refl)
