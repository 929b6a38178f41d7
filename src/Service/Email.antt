-- ===== src/Service/Email.antt =====
-- internal/http_server/service/email.go: the codes that verify an address. Times are in nanoseconds.
pub mod Codes
pub mod Notices
use netwingfs.Prelude.{
  ℕ, ◌+◌, ◌-◌, ◌%◌, Bool, true, false, not, Option, none, some, List, [], ◌∷◌, ◌==◌, ltb,
  if◌then◌else◌,
}
use netwingfs.Prelude.Bytes.{Bytes, bytes_eq}
use netwingfs.Prelude.Int.{ℤ, eq_ℤ}

pub record EmailCode : Type 0 where
  pub code : ℤ
  pub cid : ℤ
  pub send_time : ℕ

pub record EmailService : Type 0 where
  pub email_codes : List (Bytes × EmailCode)
  pub last_send_time : List (Bytes × ℕ)

-- The configuration, and what of the language is used on texts. `has_server` is
-- `config.EmailServer != nil`.
pub record EmailConfig : Type 0 where
  pub has_server : Bool
  pub verify_expired_duration : ℕ
  pub send_duration : ℕ
  pub to_lower : Bytes → Bytes

pub data EmailError : Type 0 where
  email_send_interval rendering_template email_code_not_found email_code_expired invalid_email_code
        cid_mismatch dial_failed :
      EmailError

module _ {A : Type 0} where
  unfoldable pub find_key : Bytes → List (Bytes × A) → Option A
  unfolding bytes_eq
  find_key k [] = none
  find_key k ((j, a) ∷ r) = if bytes_eq j k then some a else find_key k r

  unfoldable pub delete_key : Bytes → List (Bytes × A) → List (Bytes × A)
  delete_key k [] = []
  delete_key k ((j, a) ∷ r) =
      let rest = delete_key k r in if bytes_eq j k then rest else (j, a) ∷ rest

-- The checks of a code that was found.
unfoldable pub check_code : EmailConfig → EmailCode → ℤ → ℤ → ℕ → Option EmailError
check_code config found code cid now =
    if ltb config.verify_expired_duration (now - found.send_time)
    then some email_code_expired
    else if not (eq_ℤ found.code code)
    then some invalid_email_code
    else if not (eq_ℤ found.cid cid)
    then some cid_mismatch
    else none

unfoldable pub use_code :
    EmailConfig
    → EmailService
    → Bytes
    → Option EmailCode
    → ℤ
    → ℤ
    → ℕ
    → Option EmailError × EmailService
unfolding check_code delete_key
use_code config service email none code cid now = (some email_code_not_found, service)
use_code config service email (some found) code cid now =
    elim (check_code config found code cid now) [
      | none ↦ (none, record service { email_codes = delete_key email service.email_codes })
      | some e ↦ (some e, service)
    ]

-- `VerifyCode`.
unfoldable pub verify_code :
    EmailConfig → EmailService → Bytes → ℤ → ℤ → ℕ → Option EmailError × EmailService
unfolding use_code find_key
verify_code config service email code cid now =
    let key = config.to_lower email in
    if not config.has_server
    then (none, service)
    else use_code config service key (find_key key service.email_codes) code cid now

-- Whether the last code was sent too short a time ago.
abbrev pub too_soon : EmailConfig → Option ℕ → ℕ → Bool
too_soon config none now = false
too_soon config (some last) now = ltb (now - last) config.send_duration

-- `SendEmailCode`, over the random number, whether the template renders and whether the mail server
-- takes the mail.
unfoldable pub send_email_code :
    EmailConfig → EmailService → Bytes → ℤ → ℕ → ℕ → Bool → Bool → Option EmailError × EmailService
unfolding find_key delete_key
send_email_code config service email cid now random renders dials =
    let key = config.to_lower email in
    let code : EmailCode = record {
      code = ℤ.pos (random % 900000 + 100000);
      cid = cid;
      send_time = now;
    } in
    let sent = record service {
      email_codes = (key, code) ∷ delete_key key service.email_codes;
      last_send_time = (key, now) ∷ delete_key key service.last_send_time;
    } in
    if not config.has_server
    then (none, service)
    else if too_soon config (find_key key service.last_send_time) now
    then (some email_send_interval, service)
    else if not renders
    then (some rendering_template, service)
    else (if dials then none else some dial_failed, sent)
