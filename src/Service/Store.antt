-- ===== src/Service/Store.antt =====
-- internal/interfaces/service/store.go and internal/http_server/service/store/local.go: uploaded
-- images, kept in a directory of the server.
pub mod Uploads
use netwingfs.Prelude.{
  ℕ, Bool, true, false, not, ◌||◌, Option, none, some, List, [], ◌∷◌, ◌++◌, map, ◌==◌, ◌⊎◌, inl,
  inr, if◌then◌else◌,
}
use netwingfs.Prelude.Bytes.{Bytes, codes, bytes_eq}
use netwingfs.Prelude.Int.{ℤ, pos, leb_ℤ, ltb_ℤ}
use netwingfs.Utils.Format.{show_nat}
use netwingfs.Config.Stores.{HttpServerStoreFileLimit, HttpServerStore}
use netwingfs.Database.Permission.{activity_publish, node, has_permission}
use netwingfs.Service.Response.{
  ApiStatus, ApiResponse, status, bad_request, server_internal_error, unsatisfied,
  permission_denied, ok_code, err_no_permission, new_api_response,
}

abbrev pub err_file_save_fail : ApiStatus
err_file_save_fail = status server_internal_error (codes "FILE_SAVE_FAIL")

abbrev pub err_file_over_size : ApiStatus
err_file_over_size = status bad_request (codes "FILE_OVER_SIZE")

abbrev pub err_file_ext_unsupported : ApiStatus
err_file_ext_unsupported = status bad_request (codes "FILE_EXT_UNSUPPORTED")

abbrev pub err_file_name_illegal : ApiStatus
err_file_name_illegal = status bad_request (codes "FILE_NAME_ILLEGAL")

abbrev pub success_upload_file : ApiStatus
success_upload_file = status ok_code (codes "UPLOAD_FILE")

-- `multipart.FileHeader`; `open_file` is the content that `Open` answers with, where it succeeds.
pub record FileHeader : Type 0 where
  pub filename : Bytes
  pub size : ℤ
  pub open_file : Option Bytes

-- `StoreInfo`, less the kind of the file, its limit and its content.
pub record StoreInfo : Type 0 where
  pub root_path : Bytes
  pub file_path : Bytes
  pub remote_path : Bytes
  pub file_name : Bytes
  pub file_ext : Bytes
  pub store_in_server : Bool

-- The functions of path/filepath on the server's system, with its separator, and the file system:
-- `write_file` opens a file for writing and copies what was opened into it, `remove_file` deletes one; the Booleans say
-- whether there was no error.
pub record Disk (E : Type 0) : Type 0 where
  pub separator : ℕ
  pub ext : Bytes → Bytes
  pub base : Bytes → Bytes
  pub join : Bytes → Bytes → Bytes
  pub write_file : Bytes → Bytes → E → Bool × E
  pub remove_file : Bytes → E → Bool × E

-- `slices.Contains`.
unfoldable pub contains : List Bytes → Bytes → Bool
unfolding bytes_eq
contains [] x = false
contains (y ∷ ys) x = let rest = contains ys x in if bytes_eq y x then true else rest

-- `strings.Contains` of one byte.
unfoldable pub has_byte : Bytes → ℕ → Bool
has_byte [] c = false
has_byte (x ∷ s) c = let rest = has_byte s c in if x == c then true else rest

-- `strings.Replace(name, "\\", "/", -1)`.
abbrev pub slashes : Bytes → Bytes
slashes = map (λ c. if c == b'\\' then b'/' else c)

unfoldable pub new_store_info : HttpServerStoreFileLimit → StoreInfo
new_store_info limit = record {
  root_path = limit.root_path;
  file_path = [];
  remote_path = [];
  file_name = [];
  file_ext = [];
  store_in_server = limit.store_in_server;
}

-- What an operation on the disk comes to: it may refuse, and a nil file that is closed panics.
pub data Attempt (E A : Type 0) : Type 0 where
  done : A → E → Attempt E A
  refused : ApiStatus → E → Attempt E A
  panicked : Attempt E A

module _ {E : Type 0} where
  -- The end of `SaveUploadImages`: the size and the path, or the status of the refusal.
  unfoldable pub upload_answer :
      FileHeader → Attempt E StoreInfo → Attempt E (ApiResponse (ℤ × Bytes))
  unfolding new_api_response
  upload_answer file (done info e) =
      done (new_api_response success_upload_file unsatisfied (some (file.size, info.remote_path))) e
  upload_answer file (refused refusal e) = done (new_api_response refusal unsatisfied none) e
  upload_answer file panicked = panicked

module _ {E : Type 0} (disk : Disk E) where
  -- The names of a file under the directory of its kind.
  unfoldable pub with_name : StoreInfo → HttpServerStoreFileLimit → Bytes → StoreInfo
  with_name info limit name =
      let file_name = disk.join limit.store_prefix name in
      record info {
        file_name = file_name;
        file_path = disk.join limit.root_path file_name;
        remote_path = slashes file_name;
      }

  -- The tests of `GenerateStoreInfo`: the status of the first that fails.
  unfoldable pub check_file : HttpServerStoreFileLimit → FileHeader → Option ApiStatus
  unfolding contains has_byte
  check_file limit file =
      if has_byte file.filename disk.separator
      then some err_file_name_illegal
      else if not (contains limit.allowed_file_ext (disk.ext file.filename))
      then some err_file_ext_unsupported
      else if ltb_ℤ limit.max_file_size file.size
      then some err_file_over_size
      else none

  -- `GenerateStoreInfo`, at a time in nanoseconds: a refusal, or the names of the new file.
  unfoldable pub generate_store_info : ℕ → HttpServerStoreFileLimit → FileHeader → StoreInfo
  unfolding with_name new_store_info
  generate_store_info now limit file =
      let extension = disk.ext file.filename in
      with_name (record (new_store_info limit) { file_ext = extension }) limit
        (show_nat now ++ extension)

  -- `GetFileStoreInfo`, at a time in nanoseconds: the path and the name of the new file, or a refusal.
  unfoldable pub get_file_store_info :
      HttpServerStore → ℕ → HttpServerStoreFileLimit → FileHeader → (Bytes × Bytes) ⊎ ApiStatus
  unfolding check_file
  get_file_store_info store now limit file = elim (check_file limit file) [
    | some refusal ↦ inr refusal
    | none ↦
        let name = disk.join limit.store_prefix (show_nat now ++ disk.ext file.filename) in
        inl (disk.join store.local_store_path name, name)
  ]

  -- `SaveImageFile`. Where `Open` fails, the deferred function closes a nil file, which panics.
  unfoldable pub save_image_file :
      HttpServerStoreFileLimit → ℕ → FileHeader → E → Attempt E StoreInfo
  unfolding check_file generate_store_info
  save_image_file limit now file e = elim (check_file limit file) [
    | some refusal ↦ refused refusal e
    | none ↦
        let info = generate_store_info now limit file in
        if not info.store_in_server then done info e else elim file.open_file [
          | none ↦ panicked
          | some content ↦
              let (good, e) = disk.write_file info.file_path content e in
              if good then done info e else refused err_file_save_fail e
        ]
  ]

  -- `DeleteImageFile`: the names, where there was no error.
  unfoldable pub delete_image_file : HttpServerStoreFileLimit → Bytes → E → Option StoreInfo × E
  unfolding with_name new_store_info
  delete_image_file limit file e =
      let info = with_name (new_store_info limit) limit (disk.base file) in
      if not info.store_in_server
      then (some info, e)
      else let (good, e) = disk.remove_file info.file_path e in
        (if good then some info else none, e)

  -- `SaveUploadImages`.
  unfoldable pub save_upload_images :
      HttpServerStoreFileLimit → ℕ → ℤ → FileHeader → E → Attempt E (ApiResponse (ℤ × Bytes))
  unfolding save_image_file upload_answer new_api_response has_permission node
  save_upload_images limit now permission file e =
      if leb_ℤ permission (pos 0)
      then done (new_api_response err_no_permission unsatisfied none) e
      else if not (has_permission permission (node activity_publish))
      then done (new_api_response err_no_permission permission_denied none) e
      else upload_answer file (save_image_file limit now file e)
