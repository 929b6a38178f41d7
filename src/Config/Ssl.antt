-- ===== src/Config/Ssl.antt =====
-- internal/interfaces/config/ssl.go.
pub mod Normal
use netwingfs.Prelude.{Bool, true, false, not, ◌&&◌, ◌||◌, [], if◌then◌else◌}
use netwingfs.Prelude.Bytes.{Bytes, bytes_eq}
use netwingfs.Prelude.Int.{ℤ, pos}

pub record SslConfig : Type 0 where
  pub enable : Bool
  pub enable_hsts : Bool
  pub force_ssl : Bool
  pub hsts_expired_time : ℤ
  pub include_domain : Bool
  pub cert_file : Bytes
  pub key_file : Bytes

abbrev pub default_ssl_config : SslConfig
default_ssl_config = record {
  enable = false;
  enable_hsts = false;
  force_ssl = false;
  hsts_expired_time = pos 5184000;
  include_domain = false;
  cert_file = [];
  key_file = [];
}

-- The three steps of `checkValid`, which always passes: without a certificate and a key the server
-- falls back to HTTP, and then neither HSTS nor SSL can be asked for.
unfoldable pub fall_back : SslConfig → SslConfig
unfolding bytes_eq
fall_back config =
    if config.enable && (bytes_eq config.cert_file [] || bytes_eq config.key_file [])
    then record config { enable = false }
    else config

unfoldable pub drop_hsts : SslConfig → SslConfig
drop_hsts config =
    if not config.enable && config.enable_hsts
    then record config { enable_hsts = false; hsts_expired_time = pos 0; include_domain = false }
    else config

unfoldable pub drop_force : SslConfig → SslConfig
drop_force config =
    if not config.enable && config.force_ssl
    then record config { enable_hsts = false; force_ssl = false }
    else config

-- `checkValid`.
unfoldable pub check_valid : SslConfig → SslConfig
unfolding fall_back drop_hsts drop_force
check_valid config = drop_force (drop_hsts (fall_back config))
