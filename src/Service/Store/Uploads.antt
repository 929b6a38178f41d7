-- ===== src/Service/Store/Uploads.antt =====
-- What an upload leaves on the disk.
use netwingfs.Prelude.{
  ℕ, ◌≡◌, refl, Bool, true, false, none, some, ◌++◌, ◌⊎◌, inl, inr, Bool-cases, Option-cases, arith,
}
use netwingfs.Prelude.Bytes.{Bytes}
use netwingfs.Prelude.Int.{ℤ, pos, ◌≤ℤ◌, leb_ℤ}
use netwingfs.Utils.Format.{show_nat}
use netwingfs.Config.Stores.{HttpServerStoreFileLimit, HttpServerStore}
use netwingfs.Database.Permission.{activity_publish, node, has_permission}
use netwingfs.Service.Response.{ApiResponse, new_api_response}
use netwingfs.Service.Store.{
  FileHeader, StoreInfo, Disk, contains, has_byte, with_name, new_store_info, check_file,
  generate_store_info, get_file_store_info, Attempt, done, refused, panicked, save_image_file,
  save_upload_images, upload_answer,
}

module _ {E : Type 0} (disk : Disk E) (limit : HttpServerStoreFileLimit) where
  -- A file that may be saved: its name has no separator, its extension is allowed, and it is not
  -- larger than the limit.
  abbrev pub Admitted : FileHeader → Type 0
  Admitted file =
      (has_byte file.filename disk.separator ≡ false)
      × (contains limit.allowed_file_ext (disk.ext file.filename) ≡ true)
      × (file.size ≤ℤ limit.max_file_size)

  check_file_iff : (file : FileHeader) → check_file disk limit file ≡ none → Admitted file
  unfolding check_file
  check_file_iff file h = ground (arith, h)

  -- Where the directory of the limit is that of the store, `GetFileStoreInfo` names an admitted file
  -- as `GenerateStoreInfo` does.
  get_file_store_info-generate_store_info :
      (store : HttpServerStore) (now : ℕ) (file : FileHeader)
      → limit.root_path ≡ store.local_store_path
      → check_file disk limit file ≡ none
      → get_file_store_info disk store now limit file
        ≡ inl (
          (generate_store_info disk now limit file).file_path,
          (generate_store_info disk now limit file).file_name,
        )
  unfolding get_file_store_info generate_store_info with_name
  get_file_store_info-generate_store_info store now file same admitted =
      rw (get_file_store_info, admitted, generate_store_info, with_name, same) refl

  -- The path of an image that is saved at a time.
  abbrev pub image_path : ℕ → FileHeader → Bytes
  image_path now file =
      disk.join limit.root_path
        (disk.join limit.store_prefix (show_nat now ++ disk.ext file.filename))

  -- The file was written, or it was not.
  abbrev pub Written : ℕ → FileHeader → Bool → E → E → Type 0
  Written now file good e e' =
      (content : Bytes) × (file.open_file ≡ some content)
      × (disk.write_file (image_path now file) content e ≡ (good, e'))

  abbrev pub Kept : ℕ → FileHeader → E → E → Type 0
  Kept now file e e' =
      Admitted file × (((limit.store_in_server ≡ false) × (e' ≡ e)) ⊎ Written now file true e e')

  abbrev Saved : ℕ → FileHeader → E → Attempt E StoreInfo → Type 0
  Saved now file e panicked = (file.open_file ≡ none) × Admitted file
  Saved now file e (refused r e') = (e' ≡ e) ⊎ (Admitted file × Written now file false e e')
  Saved now file e (done info e') = Kept now file e e'

  abbrev pub Uploaded : ℕ → ℤ → FileHeader → E → Attempt E (ApiResponse (ℤ × Bytes)) → Type 0
  Uploaded now permission file e panicked = (file.open_file ≡ none) × Admitted file
  Uploaded now permission file e (refused r e') = ⊥
  Uploaded now permission file e (done answer e') =
      ((answer.data_field ≡ none) × ((e' ≡ e) ⊎ (Admitted file × Written now file false e e')))
      ⊎ ((has_permission permission (node activity_publish) ≡ true) × Kept now file e e')

  pair_eq : (p : Bool × E) (b : Bool) → p.0 ≡ b → p ≡ (b, p.1)
  pair_eq p b h = rw (← h) refl

  save_image_file-Saved :
      (now : ℕ) (file : FileHeader) (e : E)
      → Saved now file e (save_image_file disk limit now file e)
  unfolding save_image_file generate_store_info with_name new_store_info
  save_image_file-Saved now file e = elim (Option-cases (check_file disk limit file)) [
    | inr (r, h) ↦ rw (save_image_file, h) (inl refl)
    | inl h ↦
        let admitted = check_file_iff file h in
        elim (Bool-cases limit.store_in_server) [
          | inr off ↦ rw (save_image_file, h, off) (admitted, inl (refl, refl))
          | inl on ↦ elim (Option-cases file.open_file) [
            | inl nil ↦ rw (save_image_file, h, on, nil) (refl, admitted)
            | inr (content, opened) ↦
                let answer = disk.write_file (image_path now file) content e in
                elim (Bool-cases answer.0) [
                  | inl good ↦
                      rw (save_image_file, h, on, opened, good)
                        (admitted, inr (content, refl, pair_eq answer true good))
                  | inr bad ↦
                      rw (save_image_file, h, on, opened, bad)
                        (inr (admitted, (content, refl, pair_eq answer false bad)))
                ]
          ]
        ]
  ]

  answered_save :
      (now : ℕ) (permission : ℤ) (file : FileHeader) (e : E) (a : Attempt E StoreInfo)
      → has_permission permission (node activity_publish) ≡ true
      → Saved now file e a
      → Uploaded now permission file e (upload_answer file a)
  unfolding upload_answer new_api_response
  answered_save now permission file e panicked may h = h
  answered_save now permission file e (refused r e') may h = inl (refl, h)
  answered_save now permission file e (done info e') may h = inr (may, h)

  -- An upload panics only where its file is admitted and cannot be opened. Otherwise it is
  -- answered: with data only where the account may publish activities, the file's name has no
  -- separator, its extension is allowed and it is within the size limit, and then its content was
  -- written under the directory of images, by the time and not by its own name, where files are
  -- kept on the server; without data either the disk is as before, or writing an admitted file
  -- failed.
  pub save_upload_images-Uploaded :
      (now : ℕ) (permission : ℤ) (file : FileHeader) (e : E)
      → Uploaded now permission file e (save_upload_images disk limit now permission file e)
  unfolding save_upload_images new_api_response
  save_upload_images-Uploaded now permission file e = elim (Bool-cases (leb_ℤ permission (pos 0))) [
    | inl none_at_all ↦ rw none_at_all (inl (refl, inl refl))
    | inr some_at_all ↦ elim (Bool-cases (has_permission permission (node activity_publish))) [
      | inr without ↦ rw (some_at_all, without) (inl (refl, inl refl))
      | inl may ↦
          rw (some_at_all, may)
            (answered_save now permission file e _ may (save_image_file-Saved now file e))
    ]
  ]
