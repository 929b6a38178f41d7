-- ===== src/Tests/Files.antt =====
-- The cleaner and the store of images on concrete inputs.
use netwingfs.Prelude.{ℕ, ◌≡◌, true, false, none, some, List, [], ◌∷◌, ◌++◌, ◌==◌, if◌then◌else◌}
use mathlib.Core.List.{reverse}
use netwingfs.Prelude.Bytes.{Bytes, codes}
use netwingfs.Prelude.Int.{pos}
use netwingfs.Base.Cleaner.{Callable, add, clean, new_cleaner}
use netwingfs.Base.Cleaner.Order.{run_in_turn, register, clean-register}
use netwingfs.Config.Stores.{HttpServerStoreFileLimit}
use netwingfs.Service.Store.{Disk, FileHeader, save_upload_images}
use netwingfs.Service.Store.Uploads.{Uploaded, save_upload_images-Uploaded}

-- A function that notes its name, and fails where it has the name 2.
abbrev note : ℕ → Callable (List ℕ) Bytes
note n seen = (if n == 2 then some (codes "failed") else none, seen ++ n ∷ [])

abbrev three_notes : List (Callable (List ℕ) Bytes)
three_notes = note 1 ∷ note 2 ∷ note 3 ∷ []

clean-register_example :
    ((clean (register (new_cleaner (note 9)) three_notes) []).errs
      ≡ (run_in_turn (reverse three_notes) ([], [])).0)
    × ((clean (register (new_cleaner (note 9)) three_notes) []).outside
        ≡ (note 9 (run_in_turn (reverse three_notes) ([], [])).1).1)
    × (add (clean (register (new_cleaner (note 9)) three_notes) []).cleaner (note 4)
        ≡ (clean (register (new_cleaner (note 9)) three_notes) []).cleaner)
clean-register_example = clean-register (note 9) (note 4) three_notes []

abbrev one_disk : Disk (List (Bytes × Bytes))
one_disk = record {
  separator = b'/';
  ext = λ name. codes ".png";
  base = λ name. name;
  join = λ a b. a ++ b'/' ∷ b;
  write_file = λ path content files. (true, (path, content) ∷ files);
  remove_file = λ path files. (false, files);
}

abbrev images : HttpServerStoreFileLimit
images = record {
  max_file_size = pos 100;
  allowed_file_ext = codes ".png" ∷ [];
  store_prefix = codes "images";
  store_in_server = true;
  root_path = codes "uploads";
}

abbrev picture : FileHeader
picture = record { filename = codes "a.png"; size = pos 3; open_file = some (codes "png") }

save_upload_images-Uploaded_example :
    Uploaded one_disk images 5
      (pos 128)
      picture
      []
      (save_upload_images one_disk images 5 (pos 128) picture [])
save_upload_images-Uploaded_example =
    save_upload_images-Uploaded one_disk images 5 (pos 128) picture []
