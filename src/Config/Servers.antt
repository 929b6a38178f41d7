-- ===== src/Config/Servers.antt =====
-- internal/interfaces/config/general.go, fsd_server.go, http_server.go and grpc_server.go.
pub mod Ready
use netwingfs.Prelude.{
  ℕ, ◌*◌, Bool, true, false, ◌||◌, Option, none, some, ◌⊎◌, inl, inr, List, [], ◌∷◌, ◌++◌,
  if◌then◌else◌,
}
use netwingfs.Prelude.Bytes.{Bytes, codes, bytes_eq}
use netwingfs.Prelude.Int.{ℤ, pos, ltb_ℤ}
use netwingfs.Utils.Format.{show_nat}
use netwingfs.Config.{
  Check, Outside, fail_if, valid_fail, stop, attempt, perform, ◌>>=◌, ◌>>◌, pure,
}
use netwingfs.Config.Files.{cached_content}
use netwingfs.Config.Version.{check_port}
use netwingfs.Config.Limits
use netwingfs.Config.Limits.{HttpServerLimit}
use netwingfs.Config.Mail
use netwingfs.Config.Mail.{EmailConfig, repository_url}
use netwingfs.Config.Tokens
use netwingfs.Config.Tokens.{JwtConfig}
use netwingfs.Config.Ssl
use netwingfs.Config.Ssl.{SslConfig}
use netwingfs.Config.Stores
use netwingfs.Config.Stores.{HttpServerStore}

pub record GeneralConfig : Type 0 where
  pub simulator_server : Bool
  pub bcrypt_cost : ℤ

pub record FsdServerConfig (A : Type 0) : Type 0 where
  pub fsd_name : Bytes
  pub host : Bytes
  pub port : ℕ
  pub address : Bytes
  pub airport_data_file : Bytes
  pub airport_data : Option A
  pub pos_update_points : ℤ
  pub heartbeat_interval : Bytes
  pub heartbeat_duration : ℤ
  pub session_clean_time : Bytes
  pub session_clean_duration : ℤ
  pub max_workers : ℤ
  pub max_broadcast_workers : ℤ
  pub first_motd_line : Bytes
  pub motd : List Bytes

pub record HttpServerConfig (T : Type 0) : Type 0 where
  pub enabled : Bool
  pub server_address : Bytes
  pub host : Bytes
  pub port : ℕ
  pub address : Bytes
  pub max_workers : ℤ
  pub cache_time : Bytes
  pub cache_duration : ℤ
  pub proxy_type : ℤ
  pub body_limit : Bytes
  pub store : HttpServerStore
  pub limits : HttpServerLimit
  pub email : EmailConfig T
  pub jwt : JwtConfig
  pub ssl : SslConfig

pub record GrpcServerConfig : Type 0 where
  pub enabled : Bool
  pub host : Bytes
  pub port : ℕ
  pub address : Bytes
  pub cache_time : Bytes
  pub cache_duration : ℤ

-- `fmt.Sprintf("%s:%d", config.Host, config.Port)`.
abbrev pub address_of : Bytes → ℕ → Bytes
address_of host port = host ++ b':' ∷ show_nat port

-- The line with which the message of the day begins.
abbrev pub welcome : Bytes → Bytes
welcome fsd_name = codes "Welcome to use " ++ (fsd_name ++ codes " v0.6.0")

module _ {E T A : Type 0} (out : Outside E T A) where
  unfoldable pub check_general : GeneralConfig → Check E GeneralConfig
  check_general config = do
    fail_if (ltb_ℤ config.bcrypt_cost out.min_cost || ltb_ℤ out.max_cost config.bcrypt_cost)
        (codes "bcrypt_cost out of range, must between 4 and 31")
    pure config

  -- The airports, or none where their file cannot be loaded.
  unfoldable pub load_airports : Bytes → Check E (Option A)
  unfolding cached_content
  load_airports file = do
    answer ← perform (cached_content out file (repository_url ++ codes "data/airport.json"))
    elim answer [
      | inl err ↦ pure none
      | inr bytes ↦ elim (out.unmarshal_airports bytes) [
        | inl err ↦ stop (valid_fail (codes "invalid json file " ++ (file ++ (codes ", " ++ err))))
        | inr airports ↦ pure (some airports)
      ]
    ]

  -- A duration whose error becomes a part of the message.
  unfoldable pub duration_of : Bytes → Bytes → Check E ℤ
  duration_of field text = elim (out.parse_duration text) [
    | inl err ↦ stop (
        valid_fail
          (codes "invalid json field " ++ (field ++ (codes ", duration parse error, " ++ err))))
    | inr duration ↦ pure duration
  ]

  unfoldable pub check_fsd_server : FsdServerConfig A → Check E (FsdServerConfig A)
  unfolding check_port load_airports duration_of
  check_fsd_server config = do
    check_port config.port
    fail_if (ltb_ℤ config.pos_update_points (pos 0))
        (codes "invalid json field pos_update_points, pos_update_points must larger than 0")
    airports ← load_airports config.airport_data_file
    session_clean ← duration_of (codes "session_clean_time") config.session_clean_time
    heartbeat ← duration_of (codes "heartbead_interval") config.heartbeat_interval
    pure (record config {
      max_broadcast_workers =
          if ltb_ℤ (pos (out.num_cpu * 50)) config.max_broadcast_workers
          then pos (out.num_cpu * 50)
          else config.max_broadcast_workers;
      first_motd_line = welcome config.fsd_name;
      motd = welcome config.fsd_name ∷ config.motd;
      address = address_of config.host config.port;
      airport_data = airports;
      session_clean_duration = session_clean;
      heartbeat_duration = heartbeat;
    })

  -- The server is only checked where it is enabled.
  unfoldable pub check_http_server : HttpServerConfig T → Check E (HttpServerConfig T)
  unfolding check_port Limits.check_valid Mail.check_valid Tokens.check_valid Ssl.check_valid
      Stores.check_valid
  check_http_server config =
      if config.enabled
      then (do
        check_port config.port
        duration ←
            attempt (codes "invalid json field http_server.email.cache_time")
              (out.parse_duration config.cache_time)
        let ssl = Ssl.check_valid config.ssl
        limits ← Limits.check_valid out config.limits
        email ← Mail.check_valid out config.email
        jwt ← Tokens.check_valid out config.jwt
        store ← Stores.check_valid out config.store
        pure (record config {
          address = address_of config.host config.port;
          cache_duration = duration;
          ssl = Ssl.check_valid ssl;
          limits = limits;
          email = email;
          jwt = jwt;
          store = store;
        }))
      else pure config

  unfoldable pub check_grpc_server : GrpcServerConfig → Check E GrpcServerConfig
  unfolding check_port
  check_grpc_server config =
      if config.enabled
      then (do
        check_port config.port
        duration ←
            attempt (codes "invalid json field grpc_server.cache_time")
              (out.parse_duration config.cache_time)
        pure (record config {
          address = address_of config.host config.port;
          cache_duration = duration;
        }))
      else pure config
