-- ===== src/Service/Email/Notices.antt =====
-- internal/http_server/service/email.go: the notices to an account, and the service that mails a code.
use netwingfs.Prelude.{
  ℕ, zero, suc, ◌≡◌, ◌≤◌, ◌+◌, ◌%◌, Bool, true, not, ◌||◌, Option, none, some, List, [], ◌∷◌,
  get_elem?, if◌then◌else◌, arith,
}
use netwingfs.Prelude.Bytes.{Bytes, codes, bytes_eq}
use netwingfs.Prelude.Int.{ℤ, pos, negsuc, leb_ℤ, eq_ℤ_iff}
use netwingfs.Utils.Format.{show_int, show_padded}
use netwingfs.Database.Model.{User}
use netwingfs.Service.Email.{
  EmailConfig, EmailService, EmailError, email_send_interval, rendering_template, dial_failed,
  send_email_code, verify_code,
}
use netwingfs.Service.Email.Codes.{verify_code-send_email_code}
use netwingfs.Service.Response.{
  ApiStatus, ApiResponse, status, ok_code, bad_request, server_internal_error, unsatisfied,
  err_illegal_param, new_api_response,
}

-- The short names of the ratings, from -1 on.
abbrev ratings : List Bytes
ratings =
    codes "Baned"
    ∷ codes "Normal"
    ∷ codes "OBS"
    ∷ codes "S1"
    ∷ codes "S2"
    ∷ codes "S3"
    ∷ codes "C1"
    ∷ codes "C2"
    ∷ codes "C3"
    ∷ codes "I1"
    ∷ codes "I2"
    ∷ codes "I3"
    ∷ codes "SUP"
    ∷ codes "ADM"
    ∷ []

-- `String` of a rating, or none where the index is out of range, which panics.
unfoldable pub short_name : ℤ → Option Bytes
short_name (pos n) = get_elem? ratings (suc n)
short_name (negsuc zero) = get_elem? ratings 0
short_name (negsuc (suc n)) = none

-- The values of the three structures that the templates of the notices are filled with.
pub data TemplateData : Type 0 where
  permission_change_data : (cid operator contact : Bytes) → TemplateData
  rating_change_data : (cid new_value old_value operator contact : Bytes) → TemplateData
  kicked_from_server_data : (cid time reason operator contact : Bytes) → TemplateData

-- The subjects of the notices, which are constant texts.
pub data Subject : Type 0 where
  permission_change rating_change kicked_from_server : Subject

-- `gomail.Message`.
pub record Message : Type 0 where
  pub from : Bytes
  pub to : Bytes
  pub subject : Subject
  pub body : Bytes

-- What of the settings a notice needs, with `Execute` of html/template, which is none where it fails,
-- and `DialAndSend` of the mail server, which says whether there was no error.
pub record Notifier (T E : Type 0) : Type 0 where
  pub config : EmailConfig
  pub username : Bytes
  pub permission_change_template : Option T
  pub atc_rating_change_template : Option T
  pub kicked_from_server_template : Option T
  pub execute : T → TemplateData → Option Bytes
  pub dial_and_send : Message → E → Bool × E

module _ {T E : Type 0} (n : Notifier T E) where
  -- `RenderTemplate`; none stands for its errors, which its callers do not tell apart.
  unfoldable pub render_template : Option T → TemplateData → Option Bytes
  render_template none values = none
  render_template (some template) values = n.execute template values

  -- What the three notices have in common, from the nil test of the mail server on.
  unfoldable pub send_notice : Option T → TemplateData → Subject → Bytes → E → Option EmailError × E
  unfolding render_template
  send_notice template values subject email e = elim (render_template template values) [
    | none ↦ (some rendering_template, e)
    | some message ↦
        let mail : Message = record {
          from = n.username;
          to = n.config.to_lower email;
          subject = subject;
          body = message;
        } in
        let (good, e) = n.dial_and_send mail e in (if good then none else some dial_failed, e)
  ]

  -- `SendPermissionChangeEmail`.
  unfoldable pub send_permission_change_email : User → User → E → Option EmailError × E
  unfolding send_notice
  send_permission_change_email user operator e =
      if not n.config.has_server
      then (none, e)
      else send_notice n.permission_change_template
          (permission_change_data (show_padded 4 user.cid) (show_padded 4 operator.cid)
            operator.email)
          permission_change user.email e

  -- `SendRatingChangeEmail`; none where the name of a rating panics.
  unfoldable pub send_rating_change_email : User → User → ℤ → ℤ → E → Option (Option EmailError × E)
  unfolding send_notice short_name
  send_rating_change_email user operator old_rating new_rating e =
      if not n.config.has_server then some (none, e) else elim (short_name old_rating) [
        | none ↦ none
        | some old_value ↦ elim (short_name new_rating) [
          | none ↦ none
          | some new_value ↦ some (
              send_notice n.atc_rating_change_template
                (rating_change_data (show_int user.cid) new_value old_value
                  (show_padded 4 operator.cid) operator.email)
                rating_change user.email e)
        ]
      ]

  -- `SendKickedFromServerEmail`, at the text of a time.
  unfoldable pub send_kicked_from_server_email :
      User → User → Bytes → Bytes → E → Option EmailError × E
  unfolding send_notice
  send_kicked_from_server_email user operator reason time e =
      if not n.config.has_server
      then (none, e)
      else send_notice n.kicked_from_server_template
          (kicked_from_server_data (show_int user.cid) time reason (show_padded 4 operator.cid)
            operator.email)
          kicked_from_server user.email e

pub record RequestEmailVerifyCode : Type 0 where
  pub email : Bytes
  pub cid : ℤ

abbrev pub send_email_success : ApiStatus
send_email_success = status ok_code (codes "SEND_EMAIL_SUCCESS")

-- The answer to an error of `SendEmailCode`.
abbrev pub send_error : EmailError → ApiStatus
send_error email_send_interval = status bad_request (codes "EMAIL_SEND_INTERVAL")
send_error rendering_template = status server_internal_error (codes "RENDER_TEMPLATE_ERROR")
send_error _ = status server_internal_error (codes "EMAIL_SEND_ERROR")

-- The answer of `SendEmailVerifyCode`, whose data is the address that was asked for.
unfoldable pub code_answer : Bytes → Option EmailError → ApiResponse Bytes
unfolding new_api_response
code_answer email none = new_api_response send_email_success unsatisfied (some email)
code_answer email (some err) = new_api_response (send_error err) unsatisfied none

-- `SendEmailVerifyCode`, over the random number, whether the template renders and whether the mail
-- server takes the mail.
unfoldable pub send_email_verify_code :
    EmailConfig
    → EmailService
    → RequestEmailVerifyCode
    → ℕ
    → ℕ
    → Bool
    → Bool
    → ApiResponse Bytes × EmailService
unfolding new_api_response code_answer bytes_eq
send_email_verify_code config service req now random renders dials =
    if not config.has_server
    then (new_api_response send_email_success unsatisfied (some req.email), service)
    else if bytes_eq req.email [] || leb_ℤ req.cid (pos 0)
    then (new_api_response err_illegal_param unsatisfied none, service)
    else let (err, service) =
        send_email_code config service req.email req.cid now random renders dials in
      (code_answer req.email err, service)

-- A sending that succeeds was by a template that renders and a mail server that takes the mail.
send_email_code_sent :
    (config : EmailConfig) (service : EmailService) (email : Bytes) (cid : ℤ) (now random : ℕ)
    (renders dials : Bool)
    → config.has_server ≡ true
    → (send_email_code config service email cid now random renders dials).0 ≡ none
    → (renders ≡ true) × (dials ≡ true)
unfolding send_email_code
send_email_code_sent config service email cid now random renders dials on h = ground (arith, on, h)

-- A code that was sent verifies its address for its account until it expires.
send_email_code-accepted :
    (config : EmailConfig) (service : EmailService) (email : Bytes) (cid : ℤ) (now random wait : ℕ)
    (renders dials : Bool)
    → config.has_server ≡ true
    → (send_email_code config service email cid now random renders dials).0 ≡ none
    → wait ≤ config.verify_expired_duration
    → (verify_code config
        (send_email_code config service email cid now random renders dials).1
        email
        (pos (random % 900000 + 100000))
        cid
        (now + wait)).0
      ≡ none
send_email_code-accepted config service email cid now random wait renders dials on sent le =
    let (rendered, dialed) =
      send_email_code_sent config service email cid now random renders dials on sent in
    let code = pos (random % 900000 + 100000) in
    ground (
      arith,
      rendered,
      dialed,
      sent,
      verify_code-send_email_code config service email cid now random wait code cid on,
      eq_ℤ_iff code code,
      eq_ℤ_iff cid cid,
      le,
    )

-- A service that answers with data has sent the code.
send_email_verify_code-sent :
    (config : EmailConfig) (service : EmailService) (req : RequestEmailVerifyCode) (now random : ℕ)
    (renders dials : Bool) (answered : Bytes)
    → config.has_server ≡ true
    → (send_email_verify_code config service req now random renders dials).0.data_field
      ≡ some answered
    → ((send_email_code config service req.email req.cid now random renders dials).0 ≡ none)
      × ((send_email_verify_code config service req now random renders dials).1
          ≡ (send_email_code config service req.email req.cid now random renders dials).1)
unfolding send_email_verify_code
send_email_verify_code-sent config service req now random renders dials answered on h =
    ground (arith, on, h)

-- With a mail server, where the service answers with data, the code that it mailed verifies the
-- address for the account until the code expires.
pub send_email_verify_code-verify_code :
    (config : EmailConfig) (service : EmailService) (req : RequestEmailVerifyCode)
    (now random wait : ℕ) (renders dials : Bool) (answered : Bytes)
    → config.has_server ≡ true
    → (send_email_verify_code config service req now random renders dials).0.data_field
      ≡ some answered
    → wait ≤ config.verify_expired_duration
    → (verify_code config
        (send_email_verify_code config service req now random renders dials).1
        req.email
        (pos (random % 900000 + 100000))
        req.cid
        (now + wait)).0
      ≡ none
send_email_verify_code-verify_code config service req now random wait renders dials answered on h
      le =
    let (sent, kept) =
      send_email_verify_code-sent config service req now random renders dials answered on h in
    rw (kept) (
      send_email_code-accepted config service req.email req.cid now random wait renders dials on
        sent le)
