-- ===== src/Config/Files/Cached.antt =====
-- Reading a file after it was downloaded.
use netwingfs.Prelude.{◌≡◌, refl, ◌⊎◌, inl, inr, none, arith, Bool-cases, Option-cases}
use netwingfs.Prelude.Bytes.{Bytes}
use netwingfs.Config.{Outside, ReadFile, content, missing, unreadable, Reply}
use netwingfs.Config.Files.{create_file_with_content, store_content, download, cached_content}

module _ {E T A : Type 0} (out : Outside E T A) where
  -- Reading a file gives what writing it has put there.
  abbrev pub Persistent : Type 0
  Persistent =
      (path text : Bytes) (e e' : E)
      → out.write_file path text e ≡ (none, e')
      → out.read_file path e' ≡ content text

  module _ (persistent : Persistent) where
    store_content-read :
        (path : Bytes) (body : Bytes ⊎ Bytes) (text : Bytes) (e e' : E)
        → store_content out path body e ≡ (inr text, e')
        → out.read_file path e' ≡ content text
    unfolding store_content create_file_with_content
    store_content-read path (inl err) text e e' h = ground arith
    store_content-read path (inr found) text e e' h =
        elim (Option-cases (out.mkdir_all (out.dir path) e).0) [
          | inl made ↦
              elim (Option-cases (out.write_file path found (out.mkdir_all (out.dir path) e).1).0) [
                | inl written ↦ ground (
                  arith,
                  made,
                  written,
                  h,
                  persistent path found (out.mkdir_all (out.dir path) e).1 e',
                )
                | inr (err, written) ↦ absurd (ground (arith, made, written, h))
              ]
          | inr (err, made) ↦ absurd (ground (arith, made, h))
        ]

    download-read :
        (path : Bytes) (answer : (Bytes ⊎ Reply) × E) (text : Bytes) (e' : E)
        → download out path answer ≡ (inr text, e')
        → out.read_file path e' ≡ content text
    unfolding download
    download-read path (inl err, e) text e' h = ground arith
    download-read path (inr reply, e) text e' h = elim (Bool-cases reply.ok) [
      | inl ok ↦ store_content-read path reply.body text e e' (ground (arith, ok, h))
      | inr bad ↦ absurd (ground (arith, bad, h))
    ]

    -- With files that keep what is written, content that was read or downloaded once is read again
    -- without a change outside, whatever the address.
    pub cached_content-again :
        (path url other : Bytes) (text : Bytes) (e e' : E)
        → cached_content out path url e ≡ (inr text, e')
        → cached_content out path other e' ≡ (inr text, e')
    unfolding cached_content
    cached_content-again path url other text e e' h = go (out.read_file path e) refl
      where
        go :
            (r : ReadFile)
            → out.read_file path e ≡ r
            → cached_content out path other e' ≡ (inr text, e')
        go (content found) r = ground (arith, r, h)
        go (missing err) r =
            rw
              (
                cached_content,
                download-read path (out.http_get url e) text e' (ground (arith, r, h)),
              )
              refl
        go (unreadable err) r = absurd (ground (arith, r, h))
