-- ===== src/Config/Ssl/Normal.antt =====
-- The settings of SSL after their check.
use netwingfs.Prelude.{true, false, ◌&&◌, ◌≡◌, ◌⊎◌, [], arith}
use netwingfs.Prelude.Bytes.{bytes_eq}
use netwingfs.Config.Ssl.{SslConfig, fall_back, drop_hsts, drop_force, check_valid}

-- Either SSL is on, with a certificate and a key, or it is off and nothing asks for it.
abbrev pub Normal : SslConfig → Type 0
Normal c =
    ((c.enable ≡ true) × (bytes_eq c.cert_file [] ≡ false) × (bytes_eq c.key_file [] ≡ false))
    ⊎ ((c.enable ≡ false) × (c.enable_hsts ≡ false) × (c.force_ssl ≡ false))

-- After the check SSL is on only where it was asked for, and then with a certificate and a key;
-- where it is off, neither HSTS nor SSL is asked for. Checking again, as the check of the web
-- server does, changes nothing.
pub check_valid-Normal :
    (c : SslConfig)
    → Normal (check_valid c)
      × ((check_valid c).enable ≡ (c.enable && (check_valid c).enable))
      × (check_valid (check_valid c) ≡ check_valid c)
unfolding check_valid fall_back drop_hsts drop_force
check_valid-Normal c = ground arith
