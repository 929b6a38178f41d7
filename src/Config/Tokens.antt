-- ===== src/Config/Tokens.antt =====
-- internal/interfaces/config/jwt.go: the settings of the web tokens.
use netwingfs.Prelude.{[], if◌then◌else◌}
use netwingfs.Prelude.Bytes.{Bytes, codes, bytes_eq}
use netwingfs.Prelude.Int.{ℤ, pos}
use netwingfs.Config.{Check, Outside, attempt, perform, ◌>>=◌, pure}

pub record JwtConfig : Type 0 where
  pub secret : Bytes
  pub expires_time : Bytes
  pub expires_duration : ℤ
  pub refresh_time : Bytes
  pub refresh_duration : ℤ

-- `defaultJWTConfig`, over the random text that it draws.
abbrev pub default_jwt_config : Bytes → JwtConfig
default_jwt_config secret = record {
  secret = secret;
  expires_time = codes "15m";
  expires_duration = pos 0;
  refresh_time = codes "24h";
  refresh_duration = pos 0;
}

module _ {E T A : Type 0} (out : Outside E T A) where
  -- `checkValid`.
  unfoldable pub check_valid : JwtConfig → Check E JwtConfig
  unfolding bytes_eq
  check_valid config = do
    expires ←
        attempt (codes "invalid json field http_server.email.jwt_expires_time")
          (out.parse_duration config.expires_time)
    refresh ←
        attempt (codes "invalid json field http_server.email.jwt_refresh_time")
          (out.parse_duration config.refresh_time)
    secret ← if bytes_eq config.secret [] then perform out.random_string else pure config.secret
    pure (record config { expires_duration = expires; refresh_duration = refresh; secret = secret })
