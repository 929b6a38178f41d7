-- ===== src/Config/Stores.antt =====
-- internal/interfaces/config/store.go and store_limit.go: where uploaded files go.
pub mod Usable
use netwingfs.Prelude.{
  ℕ, Bool, true, false, not, ◌||◌, Option, none, some, List, [], ◌∷◌, ◌++◌, if◌then◌else◌,
}
use netwingfs.Prelude.Bytes.{Bytes, codes, bytes_eq}
use netwingfs.Prelude.Int.{ℤ, pos, ltb_ℤ, eq_ℤ}
use netwingfs.Utils.Format.{show_int}
use netwingfs.Config.{
  Check, Outside, fail_if, fail_some, valid_fail, stop, perform, ◌>>=◌, ◌>>◌, pure,
}

pub record HttpServerStoreFileLimit : Type 0 where
  pub max_file_size : ℤ
  pub allowed_file_ext : List Bytes
  pub store_prefix : Bytes
  pub store_in_server : Bool
  pub root_path : Bytes

pub record HttpServerStoreFileLimits : Type 0 where
  pub image_limit : HttpServerStoreFileLimit

pub record HttpServerStore : Type 0 where
  pub store_type : ℤ
  pub region : Bytes
  pub bucket : Bytes
  pub access_id : Bytes
  pub access_key : Bytes
  pub cdn_domain : Bytes
  pub use_internal_url : Bool
  pub local_store_path : Bytes
  pub remote_store_path : Bytes
  pub file_limit : HttpServerStoreFileLimits

abbrev pub default_http_server_store_file_limits : HttpServerStoreFileLimits
default_http_server_store_file_limits = record {
  image_limit = record {
    max_file_size = pos 5242880;
    allowed_file_ext = codes ".jpg" ∷ codes ".png" ∷ codes ".bmp" ∷ codes ".jpeg" ∷ [];
    store_prefix = codes "images";
    store_in_server = true;
    root_path = [];
  };
}

abbrev pub default_http_server_store : HttpServerStore
default_http_server_store = record {
  store_type = pos 0;
  region = [];
  bucket = [];
  access_id = [];
  access_key = [];
  cdn_domain = [];
  use_internal_url = false;
  local_store_path = codes "uploads";
  remote_store_path = [];
  file_limit = default_http_server_store_file_limits;
}

module _ {E : Type 0} where
  -- `checkValid` of the limits and of the limit on images.
  unfoldable pub check_file_limits : HttpServerStoreFileLimits → Check E (Unit {0})
  check_file_limits config =
      fail_if (ltb_ℤ config.image_limit.max_file_size (pos 0))
        (codes "invalid json field http_server.store.max_file_size, cannot be negative")

  -- `CheckLocalStore`.
  unfoldable pub check_local_store : HttpServerStoreFileLimits → Bool → Check E (Unit {0})
  check_local_store config local_store =
      if not local_store
      then pure tt
      else fail_if (not config.image_limit.store_in_server)
          (codes "when you use local store, store_in_server must be true")

  -- A setting that a store in the cloud cannot do without.
  unfoldable pub require : Bytes → Bytes → Check E (Unit {0})
  unfolding bytes_eq
  require name value = fail_if (bytes_eq value []) (
      codes "invalid json field http_server.store."
      ++ (name ++ (codes ", " ++ (name ++ codes " cannot be empty"))))

  -- The cases of the two stores in the cloud.
  unfoldable pub check_cloud : HttpServerStore → Check E (Unit {0})
  unfolding check_local_store require
  check_cloud config = do
    check_local_store config.file_limit false
    require (codes "region") config.region
    require (codes "bucket") config.bucket
    require (codes "access_id") config.access_id
    require (codes "access_key") config.access_key

  -- The `switch` on the type of the store.
  unfoldable pub check_store_type : HttpServerStore → Check E (Unit {0})
  unfolding check_local_store check_cloud
  check_store_type config =
      if eq_ℤ config.store_type (pos 0)
      then check_local_store config.file_limit true
      else if eq_ℤ config.store_type (pos 1) || eq_ℤ config.store_type (pos 2)
      then check_cloud config
      else stop (
          valid_fail (
            codes "invalid json field http_server.store_type "
            ++ (show_int config.store_type ++ codes ", only support 0, 1, 2")))

module _ {E T A : Type 0} (out : Outside E T A) where
  -- `CreateDir`.
  unfoldable pub create_dir : HttpServerStoreFileLimits → Bytes → Check E HttpServerStoreFileLimits
  create_dir config root = do
    err ←
        if config.image_limit.store_in_server
        then perform (out.mkdir_all (out.join root config.image_limit.store_prefix))
        else pure none
    fail_some (codes "error creating the image directory") err
    pure (record config { image_limit = record config.image_limit { root_path = root } })

  -- `checkValid`.
  unfoldable pub check_valid : HttpServerStore → Check E HttpServerStore
  unfolding check_file_limits create_dir check_store_type bytes_eq
  check_valid config = do
    check_file_limits config.file_limit
    fail_if (bytes_eq config.local_store_path [])
        (codes "invalid json field http_server.store.local_store_path, path cannot be empty")
    err ← perform (out.mkdir_all (out.clean config.local_store_path))
    fail_some
        (codes "error while creating local store path(" ++ (config.local_store_path ++ codes ")"))
        err
    limits ← create_dir config.file_limit config.local_store_path
    check_store_type (record config { file_limit = limits })
    pure (record config { file_limit = limits })
