-- ===== src/Packet/Login/Verify.antt =====
-- What a session has shown when `verifyUserInfo` lets it go on, and what the takeover of a waiting
-- client asks of it.
use netwingfs.Prelude.{ℕ, ◌≡◌, refl, Bool, true, false, not, Option, none, some, arith}
use netwingfs.Prelude.Bytes.{Bytes}
use netwingfs.Prelude.Int.{ℤ, pos, eq_ℤ}
use netwingfs.Fsd.Rating.{ban}
use netwingfs.Fsd.Outcome.{Outcome}
use netwingfs.Database.Model.{User}
use netwingfs.Packet.Lines.{callsign_valid}
use netwingfs.Packet.State.{Server, Env}
use netwingfs.Packet.Monad.{◌>>=◌, if_nil, pure, modify_client, modify_session}
use netwingfs.Packet.Ends.{Ends, Ends-if, Ends-continue, Ends-map, Safe, safe_rules}
use netwingfs.Packet.Registry.{find_client}
use netwingfs.Packet.Client.{reconnect, stop_timer}
use netwingfs.Packet.Login.{check_user, identify, resume, take_over, get_user, verify_user_info}

eq_ℤ→≡ : (a b : ℤ) → eq_ℤ a b ≡ true → a ≡ b
eq_ℤ→≡ a b h = ground arith

module _ {F D : Type 0} (env : Env F D) where
  Safe-get_user : (ident : Bytes) → Safe (get_user env ident)
  unfolding get_user
  Safe-get_user ident = search safe_rules depth 20

  -- The session belongs to a user that is not banned and whose password is this one.
  abbrev pub Authenticated : ℕ → Bytes → Server F D → Type 0
  Authenticated i password s =
      (user : User) × ((s.sessions i).user ≡ some user)
      × (eq_ℤ user.rating ban ≡ false)
      × (env.database.compare_password user.password password ≡ true)

  -- Where the login goes on, the session is authenticated.
  abbrev pub GoesOn : ℕ → Bytes → Option Outcome → Server F D → Type 0
  GoesOn i password none s = Authenticated i password s
  GoesOn i password (some r) s = (r.success ≡ false) × (r.fatal ≡ true)

  check_user-GoesOn :
      (i : ℕ) (callsign : Bytes) (client : Option ℕ) (password : Bytes) (user : Option User)
      (s : Server F D)
      → Ends (GoesOn i password) (check_user env i callsign client password user s)
  unfolding check_user pure modify_client modify_session ◌>>=◌ if_nil
  check_user-GoesOn i callsign client password none s = (refl, refl)
  check_user-GoesOn i callsign none password (some user) s =
      Ends-if (GoesOn i password) (eq_ℤ user.rating ban) _ _ s (λ banned. (refl, refl))
        (λ allowed.
          Ends-if (GoesOn i password) (not (env.database.compare_password user.password password)) _
            _ s (λ wrong. (refl, refl)) (λ right. (user, ground arith, allowed, ground arith)))
  check_user-GoesOn i callsign (some c) password (some user) s =
      Ends-if (GoesOn i password) (eq_ℤ user.rating ban) _ _ s (λ banned. (refl, refl))
        (λ allowed.
          Ends-if (GoesOn i password) (not (env.database.compare_password user.password password)) _
            _ s (λ wrong. (refl, refl)) (λ right. (user, ground arith, allowed, ground arith)))

  identify-GoesOn :
      (i : ℕ) (callsign : Bytes) (client : Option ℕ) (ident password : Bytes) (s : Server F D)
      → Ends (GoesOn i password) (identify env i callsign client ident password s)
  unfolding identify ◌>>=◌
  identify-GoesOn i callsign client ident password s =
      Ends-continue (λ _ _. Unit {0}) (GoesOn i password) (get_user env ident s) _
        ((Safe-get_user ident).at s)
        (λ user t _. check_user-GoesOn i callsign client password user t)

  Safe-reconnect : (c i : ℕ) → Safe (reconnect env c i)
  unfolding reconnect stop_timer
  Safe-reconnect c i = search safe_rules depth 20

  resume-GoesOn :
      (i c : ℕ) (callsign ident password : Bytes) (back : Bool) (s : Server F D)
      → Ends (GoesOn i password) (resume env i callsign ident password c back s)
  unfolding resume pure ◌>>=◌ modify_session
  resume-GoesOn i c callsign ident password true s =
      identify-GoesOn i callsign (some c) ident password _
  resume-GoesOn i c callsign ident password false s = (refl, refl)

  take_over-GoesOn :
      (i : ℕ) (callsign ident password : Bytes) (client : Option ℕ) (s : Server F D)
      → Ends (GoesOn i password) (take_over env i callsign ident password client s)
  unfolding take_over ◌>>=◌ if_nil
  take_over-GoesOn i callsign ident password none s =
      Ends-map (GoesOn i password) (GoesOn i password) _ (λ r t h. h)
        (identify-GoesOn i callsign none ident password s)
  take_over-GoesOn i callsign ident password (some c) s =
      Ends-continue (λ _ _. Unit {0}) (GoesOn i password) (reconnect env c i s) _
        ((Safe-reconnect c i).at s) (λ back t _. resume-GoesOn i c callsign ident password back t)

  -- The result of `verifyUserInfo` and what it has checked.
  abbrev pub Verified : ℕ → Bytes → ℤ → Bytes → Option Outcome → Server F D → Type 0
  Verified i callsign protocol password none t =
      Authenticated i password t × (callsign_valid callsign ≡ true) × (protocol ≡ pos 9)
  Verified i callsign protocol password (some r) t = (r.success ≡ false) × (r.fatal ≡ true)

  GoesOn-Verified :
      (i : ℕ) (callsign : Bytes) (protocol : ℤ) (password : Bytes)
      → callsign_valid callsign ≡ true
      → protocol ≡ pos 9
      → (r : Option Outcome) (t : Server F D) → GoesOn i password r t
      → Verified i callsign protocol password r t
  GoesOn-Verified i callsign protocol password valid good none t h = (h, valid, good)
  GoesOn-Verified i callsign protocol password valid good (some r) t h = h

  -- `verifyUserInfo` never panics. Where it lets a login go on, the callsign is valid, the protocol
  -- is 9, and the session belongs to a user that is not banned and whose password was given; any
  -- other result is a fatal error.
  pub verify_user_info-GoesOn :
      (i : ℕ) (callsign : Bytes) (protocol : ℤ) (ident password : Bytes) (s : Server F D)
      → Ends
          (Verified i callsign protocol password)
          (verify_user_info env i callsign protocol ident password s)
  unfolding verify_user_info pure ◌>>=◌ find_client
  verify_user_info-GoesOn i callsign protocol ident password s =
      let Q = Verified i callsign protocol password in
      Ends-if Q (not (callsign_valid callsign)) _ _ s (λ _. (refl, refl))
        (λ valid.
          Ends-if Q (not (eq_ℤ protocol (pos 9))) _ _ s (λ _. (refl, refl))
            (λ good.
              Ends-map (GoesOn i password) Q _
                (GoesOn-Verified i callsign protocol password (ground arith)
                  (eq_ℤ→≡ protocol (pos 9) (ground arith)))
                (take_over-GoesOn i callsign ident password _ s)))
