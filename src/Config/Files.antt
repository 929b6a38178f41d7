-- ===== src/Config/Files.antt =====
-- internal/interfaces/config/utils.go: files that are downloaded where they are missing.
pub mod Cached
use netwingfs.Prelude.{Bool, true, false, Option, none, some, ◌⊎◌, inl, inr, ◌++◌, if◌then◌else◌}
use netwingfs.Prelude.Bytes.{Bytes, codes}
use netwingfs.Config.{Outside, ReadFile, content, missing, unreadable, Reply}

module _ {E T A : Type 0} (out : Outside E T A) where
  -- `createFileWithContent`.
  unfoldable pub create_file_with_content : Bytes → Bytes → E → Option Bytes × E
  create_file_with_content file_path text e =
      let (made, e) = out.mkdir_all (out.dir file_path) e in
      elim made [ none ↦ out.write_file file_path text e | some err ↦ (some err, e) ]

  -- The end of `cachedContent`, from the body of the response on.
  unfoldable pub store_content : Bytes → Bytes ⊎ Bytes → E → (Bytes ⊎ Bytes) × E
  unfolding create_file_with_content
  store_content file_path (inl err) e = (inl (codes "read response error: " ++ err), e)
  store_content file_path (inr text) e =
      let (written, e) = create_file_with_content file_path text e in
      elim written [
        | none ↦ (inr text, e)
        | some err ↦ (inl (codes "file write error: " ++ err), e)
      ]

  unfoldable pub download : Bytes → (Bytes ⊎ Reply) × E → (Bytes ⊎ Bytes) × E
  unfolding store_content
  download file_path (inl err, e) = (inl (codes "HTTP request failed: " ++ err), e)
  download file_path (inr reply, e) =
      if reply.ok
      then store_content file_path reply.body e
      else (inl (codes "HTTP error: " ++ reply.status), e)

  -- `cachedContent`: the content, or an error.
  unfoldable pub cached_content : Bytes → Bytes → E → (Bytes ⊎ Bytes) × E
  unfolding download
  cached_content file_path url e = elim (out.read_file file_path e) [
    | content text ↦ (inr text, e)
    | missing err ↦ download file_path (out.http_get url e)
    | unreadable err ↦ (inl (codes "file read error: " ++ err), e)
  ]
