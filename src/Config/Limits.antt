-- ===== src/Config/Limits.antt =====
-- internal/interfaces/config/limit.go: the limits of the web server.
pub mod Bounds
use netwingfs.Prelude.{Bool, ◌⊎◌, ◌++◌}
use netwingfs.Prelude.Bytes.{Bytes, codes}
use netwingfs.Prelude.Int.{ℤ, pos, leb_ℤ, ltb_ℤ}
use netwingfs.Utils.Format.{show_int}
use netwingfs.Config.{Check, Outside, fail_if, attempt, ◌>>=◌, ◌>>◌, pure}

pub record HttpServerLimit : Type 0 where
  pub rate_limit : ℤ
  pub rate_limit_window : Bytes
  pub rate_limit_duration : ℤ
  pub username_length_min : ℤ
  pub username_length_max : ℤ
  pub email_length_min : ℤ
  pub email_length_max : ℤ
  pub password_length_min : ℤ
  pub password_length_max : ℤ
  pub cid_min : ℤ
  pub cid_max : ℤ

abbrev pub default_limits : HttpServerLimit
default_limits = record {
  rate_limit = pos 15;
  rate_limit_window = codes "1m";
  rate_limit_duration = pos 0;
  username_length_min = pos 4;
  username_length_max = pos 16;
  email_length_min = pos 4;
  email_length_max = pos 64;
  password_length_min = pos 6;
  password_length_max = pos 64;
  cid_min = pos 1;
  cid_max = pos 9999;
}

-- The messages differ in the field's name and in what its value must be.
abbrev pub message : Bytes → Bytes → Bytes
message field rule =
    codes "invalid json field http_server.limits." ++ (field ++ (codes ", value must " ++ rule))

module _ {E : Type 0} where
  -- The five checks of a pair of lengths.
  unfoldable pub check_lengths : Bytes → ℤ → ℤ → ℤ → Check E (Unit {0})
  check_lengths name min max most =
      let name_min = name ++ codes "_min" in
      let name_max = name ++ codes "_max" in
      do
        fail_if (leb_ℤ min (pos 0)) (message name_min (codes "larger than 0"))
        fail_if (ltb_ℤ most min) (message name_min (codes "less than " ++ show_int most))
        fail_if (leb_ℤ max (pos 0)) (message name_max (codes "larger than 0"))
        fail_if (ltb_ℤ most max) (message name_max (codes "less than " ++ show_int most))
        fail_if (leb_ℤ max min)
            (message name_min (codes "less than http_server.limits." ++ name_max))

  unfoldable pub check_cids : ℤ → ℤ → Check E (Unit {0})
  check_cids min max = do
    fail_if (leb_ℤ min (pos 0)) (message (codes "cid_min") (codes "larger than 0"))
    fail_if (leb_ℤ max (pos 0)) (message (codes "cid_max") (codes "larger than 0"))
    fail_if (leb_ℤ max min)
        (message (codes "cid_min") (codes "less than http_server.limits.cid_max"))

module _ {E T A : Type 0} (out : Outside E T A) where
  -- `checkValid`.
  unfoldable pub check_valid : HttpServerLimit → Check E HttpServerLimit
  unfolding check_lengths check_cids
  check_valid config = do
    duration ←
        attempt (codes "invalid json field http_server.rate_limit_window, %v")
          (out.parse_duration config.rate_limit_window)
    check_lengths (codes "username_length") config.username_length_min config.username_length_max
        (pos 64)
    check_lengths (codes "email_length") config.email_length_min config.email_length_max (pos 128)
    check_lengths (codes "password_length") config.password_length_min config.password_length_max
        (pos 128)
    check_cids config.cid_min config.cid_max
    pure (record config { rate_limit_duration = duration })
