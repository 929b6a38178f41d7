-- ===== src/Config/Version.antt =====
-- internal/interfaces/config/utils.go: ports, and the version that a configuration is for.
use netwingfs.Prelude.{
  ℕ, not, ◌⊎◌, inl, inr, List, [], ◌∷◌, ◌==◌, leb, ltb, if◌then◌else◌, ◌≡◌, refl,
}
use netwingfs.Prelude.Bytes.{Bytes, codes}
use netwingfs.Prelude.Int.{ℤ, pos, eq_ℤ}
use netwingfs.Utils.Cast.{str_to_int, atoi, digits, digits_from, in_range}
use netwingfs.Packet.Lines.{prepend}
use netwingfs.Config.{Check, fail_if, ◌>>◌}

module _ {E : Type 0} where
  -- `checkPort`.
  unfoldable pub check_port : ℕ → Check E (Unit {0})
  check_port port = do
    fail_if (leb port 0) (codes "port must be greater than zero")
    fail_if (ltb 65535 port) (codes "port must be less than 65535")

pub data CheckVersionResult : Type 0 where
  all_match major_unmatch minor_unmatch patch_unmatch : CheckVersionResult

pub record Version : Type 0 where
  pub major : ℤ
  pub minor : ℤ
  pub patch : ℤ
  pub version : Bytes

-- `strings.Split(version, ".")`.
unfoldable pub split_dot : Bytes → List Bytes
split_dot [] = [] ∷ []
split_dot (x ∷ s) = let rest = split_dot s in if x == b'.' then [] ∷ rest else prepend x rest

-- The numbers of a version with at least three parts.
unfoldable pub version_of : Bytes → List Bytes → Bytes ⊎ Version
unfolding str_to_int
version_of version (a ∷ b ∷ c ∷ rest) = inr record {
  major = str_to_int a (pos 0);
  minor = str_to_int b (pos 0);
  patch = str_to_int c (pos 0);
  version = version;
}
version_of version _ = inl (codes "invalid version String")

-- `newVersion`.
unfoldable pub new_version : Bytes → Bytes ⊎ Version
unfolding split_dot version_of
new_version version = version_of version (split_dot version)

-- `checkVersion`.
unfoldable pub check_version : Version → Version → CheckVersionResult
check_version v version =
    if not (eq_ℤ v.major version.major)
    then major_unmatch
    else if not (eq_ℤ v.minor version.minor)
    then minor_unmatch
    else if not (eq_ℤ v.patch version.patch)
    then patch_unmatch
    else all_match

abbrev pub config_version : Bytes
config_version = codes "0.6.0"

-- `ConfVersion`.
abbrev pub conf_version : Version
conf_version = record { major = pos 0; minor = pos 6; patch = pos 0; version = config_version }

conf_version_lem : new_version config_version ≡ inr conf_version
unfolding new_version version_of split_dot str_to_int atoi digits digits_from in_range
conf_version_lem = refl
