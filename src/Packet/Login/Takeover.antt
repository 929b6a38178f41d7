-- ===== src/Packet/Login/Takeover.antt =====
-- When `verifyUserInfo` reattaches a waiting client.
use netwingfs.Prelude.{
  ℕ, ◌≡◌, sym, Bool, true, false, not, Option, none, some, arith, if◌then◌else◌,
}
use mathlib.Core.Path.{subst}
use netwingfs.Prelude.Bytes.{Bytes}
use netwingfs.Prelude.Int.{pos, eq_ℤ}
use netwingfs.Fsd.Rating.{ban}
use netwingfs.Database.Model.{User, Fetch}
use netwingfs.Packet.Lines.{callsign_valid}
use netwingfs.Packet.State.{Server, Env}
use netwingfs.Packet.Monad.{◌>>=◌, if_nil, pure, modify_client, modify_session, with_db}
use netwingfs.Packet.Ends.{Ends, Ends-if, Ends-continue}
use netwingfs.Packet.Registry.{find_client, lookup}
use netwingfs.Packet.Client.{reconnect}
use netwingfs.Packet.Client.Lifecycle.{Waits, Attached, Kept, reconnect-Attached}
use netwingfs.Packet.Login.{check_user, identify, get_user, verify_user_info, resume, take_over}

module _ {F D : Type 0} (env : Env F D) where
  -- The client is connected by the session.
  abbrev pub Taken : ℕ → ℕ → Server F D → Type 0
  Taken c i t = ((t.clients c).disconnect ≡ false) × ((t.clients c).socket ≡ i)

  check_user-Taken :
      (i c : ℕ) (callsign password : Bytes) (user : Option User) (s : Server F D)
      → Taken c i s
      → Ends (λ _. Taken c i) (check_user env i callsign (some c) password user s)
  unfolding check_user pure modify_client modify_session ◌>>=◌ if_nil
  check_user-Taken i c callsign password none s h = h
  check_user-Taken i c callsign password (some user) s (h, k) =
      Ends-if (λ _. Taken c i) (eq_ℤ user.rating ban) _ _ s (λ _. (h, k))
        (λ _.
          Ends-if (λ _. Taken c i) (not (env.database.compare_password user.password password)) _ _
            s (λ _. (h, k)) (λ _. (ground (arith, h), ground (arith, k))))

  by_query-Taken :
      (i c : ℕ) (b : Bool) (f g : D → Fetch User × D) (h k : Fetch User → Option User)
      (s : Server F D)
      → Taken c i s
      → Ends
          (λ _. Taken c i)
          ((if b
              then (with_db f >>= λ answer. pure (h answer))
              else (with_db g >>= λ answer. pure (k answer)))
            s)
  unfolding ◌>>=◌ with_db pure
  by_query-Taken i c true f g h k s t = t
  by_query-Taken i c false f g h k s t = t

  identify-Taken :
      (i c : ℕ) (callsign ident password : Bytes) (s : Server F D)
      → Taken c i s
      → Ends (λ _. Taken c i) (identify env i callsign (some c) ident password s)
  unfolding identify get_user ◌>>=◌
  identify-Taken i c callsign ident password s h =
      Ends-continue (λ _. Taken c i) (λ _. Taken c i) (get_user env ident s) _
        (by_query-Taken i c _ _ _ _ _ s h)
        (λ user t k. check_user-Taken i c callsign password user t k)

  resume-Taken :
      (i c : ℕ) (callsign ident password : Bytes) (back : Bool) (s : Server F D)
      → Taken c i s
      → Ends (λ _. Taken c i) (resume env i callsign ident password c back s)
  unfolding resume ◌>>=◌ modify_session pure
  resume-Taken i c callsign ident password true s h = identify-Taken i c callsign ident password _ h
  resume-Taken i c callsign ident password false s h = h

  take_over-Taken :
      (i c : ℕ) (callsign ident password : Bytes) (s : Server F D)
      → Waits env c s
      → Ends (λ _. Taken c i) (take_over env i callsign ident password (some c) s)
  unfolding take_over ◌>>=◌ if_nil
  take_over-Taken i c callsign ident password s w =
      Ends-continue
        (λ back t. (back ≡ true) × Attached env c i t × Kept env (s.clients c) (t.clients c))
        (λ _. Taken c i) (reconnect env c i s) _ (reconnect-Attached env s c i w)
        (λ back t (_, a, _). resume-Taken i c callsign ident password back t (a.0, a.1))

  -- Whoever names the callsign of a client that waits for its session becomes that client's
  -- connection, whatever identity and password they give: after `verifyUserInfo` the client is
  -- connected by their session, even where the login is then refused.
  pub verify_user_info-Taken :
      (i c : ℕ) (callsign ident password : Bytes) (s : Server F D)
      → callsign_valid callsign ≡ true
      → s.shutting_down ≡ false
      → lookup callsign s.registry ≡ some c
      → (s.clients c).disconnect ≡ true
      → (s.clients c).reconnect_timer ≡ true
      → Ends (λ _. Taken c i) (verify_user_info env i callsign (pos 9) ident password s)
  unfolding verify_user_info ◌>>=◌ find_client
  verify_user_info-Taken i c callsign ident password s valid running found gone armed =
      let at : (if s.shutting_down then none else lookup callsign s.registry) ≡ some c =
        ground arith in
      Ends-if (λ _. Taken c i) (not (callsign_valid callsign)) _ _ s (λ e. absurd (ground arith))
        (λ _.
          subst (λ o. Ends (λ _. Taken c i) (take_over env i callsign ident password o s)) (sym at)
            (take_over-Taken i c callsign ident password s (gone, armed)))
