-- ===== src/Config/Mail.antt =====
-- internal/interfaces/config/email.go and email_template.go: the settings of the mail server.
use netwingfs.Prelude.{Bool, true, Option, none, some, ◌++◌, if◌then◌else◌}
use netwingfs.Prelude.Bytes.{Bytes, codes}
use netwingfs.Prelude.Int.{ℤ, pos}
use netwingfs.Config.{Check, Outside, Dialer, attempt, perform, fail_some, ◌>>=◌, ◌>>◌, pure}
use netwingfs.Config.Files.{cached_content}

pub record EmailTemplateConfig (T : Type 0) : Type 0 where
  pub email_verify_template_file : Bytes
  pub email_verify_template : Option T
  pub atc_rating_change_template_file : Bytes
  pub atc_rating_change_template : Option T
  pub enable_rating_change_email : Bool
  pub permission_change_template_file : Bytes
  pub permission_change_template : Option T
  pub enable_permission_change_email : Bool
  pub kicked_from_server_template_file : Bytes
  pub kicked_from_server_template : Option T
  pub enable_kicked_from_server_email : Bool

pub record EmailConfig (T : Type 0) : Type 0 where
  pub host : Bytes
  pub port : ℤ
  pub email_server : Option Dialer
  pub username : Bytes
  pub password : Bytes
  pub verify_expired_time : Bytes
  pub verify_expired_duration : ℤ
  pub send_interval : Bytes
  pub send_duration : ℤ
  pub template : EmailTemplateConfig T

abbrev pub default_email_template_config : {T : Type 0} → EmailTemplateConfig T
default_email_template_config = record {
  email_verify_template_file = codes "template/email_verify.template";
  email_verify_template = none;
  atc_rating_change_template_file = codes "template/atc_rating_change.template";
  atc_rating_change_template = none;
  enable_rating_change_email = true;
  permission_change_template_file = codes "template/permission_change.template";
  permission_change_template = none;
  enable_permission_change_email = true;
  kicked_from_server_template_file = codes "template/kicked_from_server.template";
  kicked_from_server_template = none;
  enable_kicked_from_server_email = true;
}

abbrev pub default_email_config : {T : Type 0} → EmailConfig T
default_email_config = record {
  host = codes "smtp.qq.com";
  port = pos 465;
  email_server = none;
  username = codes "example@qq.com";
  password = codes "123456";
  verify_expired_time = codes "5m";
  verify_expired_duration = pos 0;
  send_interval = codes "1m";
  send_duration = pos 0;
  template = default_email_template_config;
}

-- The directory of the repository's files for downloads.
abbrev pub repository_url : Bytes
repository_url =
    codes "https://raw.githubusercontent.com/Flyleague-Collection/SimpleFSD/refs/heads/main/"

module _ {E T A : Type 0} (out : Outside E T A) where
  -- One template: its file is read or downloaded, then parsed. The two messages are of an error
  -- while loading and while parsing.
  unfoldable pub load_template : Bytes → Bytes → Bytes → Bytes → Bytes → Check E T
  unfolding cached_content
  load_template file url name load_error parse_error = do
    answer ← perform (cached_content out file (repository_url ++ url))
    bytes ← attempt load_error answer
    attempt parse_error (out.parse_template name bytes)

  -- A template that is only loaded where its emails are enabled.
  unfoldable pub load_enabled : Bool → Option T → Check E T → Check E (Option T)
  load_enabled enabled old load = if enabled then (do t ← load; pure (some t)) else pure old

  unfoldable pub check_templates : EmailTemplateConfig T → Check E (EmailTemplateConfig T)
  unfolding load_template load_enabled
  check_templates config = do
    verify ←
        load_template config.email_verify_template_file (codes "template/email_verify.template")
          (codes "email_verify") (codes "fail to load email_verify_template_file")
          (codes "fail to parse email_verify_template")
    rating ← load_enabled config.enable_rating_change_email config.atc_rating_change_template (
        load_template config.atc_rating_change_template_file
          (codes "template/atc_rating_change.template") (codes "atc_rating_change")
          (codes "fail to load atc_rating_change_template_file")
          (codes "fail to parse atc_rating_change_template"))
    permission ←
        load_enabled config.enable_permission_change_email config.permission_change_template (
          load_template config.permission_change_template_file
            (codes "template/permission_change.template") (codes "permission_change")
            (codes "fail to load permission_change_template_file")
            (codes "fail to parse permission_change_template"))
    kicked ←
        load_enabled config.enable_kicked_from_server_email config.kicked_from_server_template (
          load_template config.kicked_from_server_template_file
            (codes "template/kicked_from_server.template") (codes "kicked_from_server")
            (codes "fail to load permission_change_template_file")
            (codes "fail to parse permission_change_template"))
    pure (record config {
      email_verify_template = some verify;
      atc_rating_change_template = rating;
      permission_change_template = permission;
      kicked_from_server_template = kicked;
    })

  -- The mail server, which answers a connection once.
  unfoldable pub connect : EmailConfig T → Check E (Option Dialer)
  connect config =
      if out.skip_email_verification
      then pure none
      else (let dialer : Dialer = record {
        host = config.host;
        port = config.port;
        username = config.username;
        password = config.password;
      } in
          do
            err ← perform (out.dial dialer)
            fail_some (codes "connecting to smtp server fail") err
            pure (some dialer))

  -- `checkValid`.
  unfoldable pub check_valid : EmailConfig T → Check E (EmailConfig T)
  unfolding check_templates connect
  check_valid config = do
    expired ←
        attempt (codes "invalid json field http_server.email.verify_expired_time")
          (out.parse_duration config.verify_expired_time)
    send ←
        attempt (codes "invalid json field http_server.email.send_interval")
          (out.parse_duration config.send_interval)
    templates ← check_templates config.template
    server ← connect config
    pure (record config {
      verify_expired_duration = expired;
      send_duration = send;
      template = templates;
      email_server = server;
    })
