-- ===== src/Service/Email/Codes.antt =====
-- The life of a code: mailed, accepted or refused, and used up.
use netwingfs.Prelude.{
  ℕ, suc, ◌+◌, ◌%◌, ◌≤◌, ◌≡◌, refl, Bool, true, false, Bool-cases, inl, inr, ◌⊎◌, not, none, some,
  List, [], ◌∷◌, if◌then◌else◌, arith,
}
use netwingfs.Prelude.Bytes.{Bytes, bytes_eq_iff}
use netwingfs.Prelude.Int.{ℤ, eq_ℤ}
use netwingfs.Service.Email.{
  EmailService, EmailConfig, EmailError, email_code_not_found, email_send_interval, find_key,
  delete_key, check_code, use_code, verify_code, send_email_code,
}

module _ {A : Type 0} where
  find_key-delete_key : (k : Bytes) (r : List (Bytes × A)) → find_key k (delete_key k r) ≡ none
  unfolding find_key delete_key
  find_key-delete_key k [] = refl
  find_key-delete_key k ((j, a) ∷ r) = ground (arith, find_key-delete_key k r)

-- An accepted code is deleted, with a mail server.
pub verify_code-used :
    (config : EmailConfig) (service : EmailService) (email : Bytes) (code cid : ℤ) (now : ℕ)
    → (verify_code config service email code cid now).0 ≡ none
    → (config.has_server ≡ false)
      ⊎ (find_key
            (config.to_lower email)
            (verify_code config service email code cid now).1.email_codes
          ≡ none)
unfolding verify_code use_code
verify_code-used config service email code cid now h = elim (Bool-cases config.has_server) [
  | inl on ↦
      inr (ground (arith, on, h, find_key-delete_key (config.to_lower email) service.email_codes))
  | inr off ↦ inl off
]

-- Where a code has been accepted, no code is accepted for that address again before another is
-- sent, whatever the code, the account and the time.
pub verify_code-once :
    (config : EmailConfig) (service : EmailService) (email : Bytes) (code cid code' cid' : ℤ)
    (now now' : ℕ)
    → config.has_server ≡ true
    → (verify_code config service email code cid now).0 ≡ none
    → (verify_code config (verify_code config service email code cid now).1 email code' cid' now').0
      ≡ some email_code_not_found
unfolding verify_code use_code
verify_code-once config service email code cid code' cid' now now' on h =
    ground (arith, on, h, find_key-delete_key (config.to_lower email) service.email_codes)

-- The code that was mailed is accepted for its address and account until it expires, and only the
-- mailed code for that account is.
pub verify_code-send_email_code :
    (config : EmailConfig) (service : EmailService) (email : Bytes) (cid : ℤ) (now random wait : ℕ)
    (code cid' : ℤ)
    → config.has_server ≡ true
    → (send_email_code config service email cid now random true true).0 ≡ none
    → wait ≤ config.verify_expired_duration
    → (verify_code config
        (send_email_code config service email cid now random true true).1
        email
        code
        cid'
        (now + wait)).0
      ≡ (if not (eq_ℤ (ℤ.pos (random % 900000 + 100000)) code)
          then some EmailError.invalid_email_code
          else if not (eq_ℤ cid cid')
          then some EmailError.cid_mismatch
          else none)
unfolding verify_code use_code send_email_code check_code find_key
verify_code-send_email_code config service email cid now random wait code cid' on h le =
    ground (arith, on, h, le, bytes_eq_iff (config.to_lower email) (config.to_lower email))

-- Once a code has been mailed, no other is before the interval is over: the service answers with an
-- error, and keeps its codes and the times of sending as they were.
pub send_email_code-interval :
    (config : EmailConfig) (service : EmailService) (email : Bytes) (cid cid' : ℤ)
    (now random random' wait : ℕ) (renders dials : Bool)
    → config.has_server ≡ true
    → (send_email_code config service email cid now random true true).0 ≡ none
    → suc wait ≤ config.send_duration
    → (send_email_code config
        (send_email_code config service email cid now random true true).1
        email
        cid'
        (now + wait)
        random'
        renders
        dials)
      ≡ (
        some email_send_interval,
        (send_email_code config service email cid now random true true).1,
      )
unfolding send_email_code find_key
send_email_code-interval config service email cid cid' now random random' wait renders dials on h
      le =
    ground (arith, on, h, le, bytes_eq_iff (config.to_lower email) (config.to_lower email))
