-- ===== src/Config/Whole.antt =====
-- internal/interfaces/config/server.go and config.go, and readConfig and saveConfig of
-- internal/base/config.go.
pub mod Valid
pub mod FirstStart
use netwingfs.Prelude.{
  ℕ, Bool, true, false, Option, none, some, ◌⊎◌, inl, inr, List, [], ◌∷◌, ◌++◌, if◌then◌else◌,
}
use netwingfs.Prelude.Bytes.{Bytes, codes}
use netwingfs.Prelude.Int.{ℤ, pos}
use netwingfs.Config.{
  Check, Checked, ValidResult, failed, Outside, ReadFile, content, missing, unreadable, valid_fail,
  valid_fail_with, stop, attempt, ◌>>=◌, ◌>>◌, pure,
}
use netwingfs.Config.Version.{
  Version, new_version, check_version, CheckVersionResult, all_match, conf_version, config_version,
}
use netwingfs.Config.Limits.{default_limits}
use netwingfs.Config.Mail.{default_email_config}
use netwingfs.Config.Tokens.{default_jwt_config}
use netwingfs.Config.Ssl.{default_ssl_config}
use netwingfs.Config.Stores.{default_http_server_store}
use netwingfs.Config.Servers.{
  GeneralConfig, FsdServerConfig, HttpServerConfig, GrpcServerConfig, check_general,
  check_fsd_server, check_http_server, check_grpc_server,
}
use netwingfs.Config.Database
use netwingfs.Config.Database.{DatabaseConfig, default_database_config}

pub record ServerConfig (T A : Type 0) : Type 0 where
  pub general : GeneralConfig
  pub fsd_server : FsdServerConfig A
  pub http_server : HttpServerConfig T
  pub grpc_server : GrpcServerConfig

pub record Config (T A : Type 0) : Type 0 where
  pub config_version : Bytes
  pub server : ServerConfig T A
  pub database : DatabaseConfig
  pub rating : List (Bytes × ℤ)

abbrev pub default_other_config : GeneralConfig
default_other_config = record { simulator_server = false; bcrypt_cost = pos 12 }

abbrev pub default_fsd_server_config : {A : Type 0} → FsdServerConfig A
default_fsd_server_config = record {
  fsd_name = codes "Simple-Fsd";
  host = codes "0.0.0.0";
  port = 6809;
  address = [];
  airport_data_file = codes "data/airport.json";
  airport_data = none;
  pos_update_points = pos 1;
  heartbeat_interval = codes "60s";
  heartbeat_duration = pos 0;
  session_clean_time = codes "40s";
  session_clean_duration = pos 0;
  max_workers = pos 128;
  max_broadcast_workers = pos 128;
  first_motd_line = codes "Welcome to use %[1]s v%[2]s";
  motd = [];
}

-- The secret of the tokens is drawn at random.
abbrev pub default_http_server_config : {T : Type 0} → Bytes → HttpServerConfig T
default_http_server_config secret = record {
  enabled = false;
  server_address = codes "http://127.0.0.1:6810";
  host = codes "0.0.0.0";
  port = 6810;
  address = [];
  max_workers = pos 128;
  cache_time = codes "15s";
  cache_duration = pos 0;
  proxy_type = pos 0;
  body_limit = codes "10MB";
  store = default_http_server_store;
  limits = default_limits;
  email = default_email_config;
  jwt = default_jwt_config secret;
  ssl = default_ssl_config;
}

abbrev pub default_grpc_server_config : GrpcServerConfig
default_grpc_server_config = record {
  enabled = false;
  host = codes "0.0.0.0";
  port = 6811;
  address = [];
  cache_time = codes "15s";
  cache_duration = pos 0;
}

-- `DefaultConfig`, over the random secret.
abbrev pub default_config : {T A : Type 0} → Bytes → Config T A
default_config secret = record {
  config_version = config_version;
  server = record {
    general = default_other_config;
    fsd_server = default_fsd_server_config;
    http_server = default_http_server_config secret;
    grpc_server = default_grpc_server_config;
  };
  database = default_database_config;
  rating = [];
}

-- The result of a start that has created the file.
abbrev pub created : ValidResult
created = valid_fail (
    codes "the configuration file does not exist and has been created. "
    ++ codes "Please try again after editing the configuration file")

module _ {E T A : Type 0} (out : Outside E T A) where
  unfoldable pub check_server : ServerConfig T A → Check E (ServerConfig T A)
  unfolding check_general check_fsd_server check_http_server check_grpc_server
  check_server config = do
    general ← check_general out config.general
    fsd_server ← check_fsd_server out config.fsd_server
    http_server ← check_http_server out config.http_server
    grpc_server ← check_grpc_server out config.grpc_server
    pure record {
      general = general;
      fsd_server = fsd_server;
      http_server = http_server;
      grpc_server = grpc_server;
    }

  -- The check of the version at the head of `CheckValid`.
  unfoldable pub accept_version : Version → CheckVersionResult → Check E (Unit {0})
  accept_version version all_match = pure tt
  accept_version version _ = stop (
      valid_fail (
        codes "config version mismatch, expected "
        ++ (conf_version.version ++ (codes ", got " ++ version.version))))

  unfoldable pub check_config_version : Bytes → Check E (Unit {0})
  unfolding new_version check_version accept_version
  check_config_version text = do
    version ← attempt (codes "version string parse fail") (new_version text)
    accept_version version (check_version conf_version version)

  -- `CheckValid`.
  unfoldable pub check_valid : Config T A → Check E (Config T A)
  unfolding check_config_version Database.check_valid check_server
  check_valid config = do
    check_config_version config.config_version
    database ← Database.check_valid out config.database
    server ← check_server config.server
    pure (record config { database = database; server = server })

  -- `write_over` opens a file for writing, which keeps what it has, writes from its start, and
  -- closes it; `marshal` and `unmarshal` are the JSON library's, the second over a configuration
  -- that it fills.
  module _ (path : Bytes) (write_over : Bytes → Bytes → E → Option Bytes × E)
      (marshal : Config T A → Bytes) (unmarshal : Bytes → Config T A → Bytes ⊎ Config T A) where
    -- `saveConfig`: the error, if there is one.
    unfoldable pub save_config : Config T A → E → Option Bytes × E
    save_config config e = write_over path (marshal config) e

    -- The start without a file: the error of saving, or the news that the file was created.
    unfoldable pub first_start : Option Bytes × E → Checked E (Config T A)
    first_start (none, e) = failed created e
    first_start (some err, e) =
        failed
          (valid_fail_with
            (codes "fail to save configuration file while creating configuration file") err)
          e

    unfoldable pub read_with : Bytes × E → Checked E (Config T A)
    unfolding save_config check_valid first_start
    read_with (secret, e) = elim (out.read_file path e) [
      | content bytes ↦
          (attempt (codes "the configuration file does not contain valid JSON")
                (unmarshal bytes (default_config secret))
              >>= check_valid)
            e
      | missing err ↦ first_start (save_config (default_config secret) e)
      | unreadable err ↦ first_start (save_config (default_config secret) e)
    ]

    -- `readConfig`.
    unfoldable pub read_config : Check E (Config T A)
    unfolding read_with
    read_config e = read_with (out.random_string e)
