-- ===== src/Packet/Framing.antt =====
-- internal/fsd_server/packet/net_utils.go: how the byte stream of a connection is cut into lines.
-- The limit of 64 KiB that `bufio.Scanner` sets on a line is not modelled.
pub mod Chunks
use netwingfs.Prelude.{
  ℕ, zero, suc, ◌+◌, Bool, true, false, ◌&&◌, Option, none, some, List, [], ◌∷◌, ◌++◌, length, drop,
  if◌then◌else◌,
}
use netwingfs.Prelude.Bytes.{Bytes, has_prefix}
use netwingfs.Packet.Lines.{split_sign}

abbrev pub bump : Option ℕ → Option ℕ
bump none = none
bump (some i) = some (suc i)

-- `bytes.Index(data, sep)`: where the separator stands first.
unfoldable pub index_of : Bytes → Bytes → Option ℕ
unfolding has_prefix
index_of [] sep = if has_prefix [] sep then some 0 else none
index_of (x ∷ s) sep =
    let later = bump (index_of s sep) in if has_prefix (x ∷ s) sep then some 0 else later

abbrev pub take : ℕ → Bytes → Bytes
take zero xs = []
take (suc n) [] = []
take (suc n) (x ∷ xs) = x ∷ take n xs

abbrev is_empty : Bytes → Bool
is_empty [] = true
is_empty (x ∷ xs) = false

-- The function that `createSplitFunc` returns: how far to advance, and the line, if there is one.
unfoldable pub split_func : Bytes → Bytes → Bool → ℕ × Option Bytes
unfolding index_of
split_func sep bytes at_eof =
    if at_eof && is_empty bytes then (0, none) else elim (index_of bytes sep) [
      | some i ↦ (i + length sep, some (take i bytes))
      | none ↦ if at_eof then (length bytes, some bytes) else (0, none)
    ]

-- `scanner.Scan()` until it stops: the lines of a buffer and of the chunks that reads deliver. On
-- fuel, one unit for each line and each read.
pub scan : ℕ → Bytes → List Bytes → List Bytes
scan zero buf chunks = []
scan (suc fuel) buf [] =
    let (advance, token) = split_func split_sign buf true in
    elim token [ none ↦ [] | some line ↦ line ∷ scan fuel (drop advance buf) [] ]
scan (suc fuel) buf (chunk ∷ chunks) =
    let (advance, token) = split_func split_sign buf false in
    elim token [
      | none ↦ scan fuel (buf ++ chunk) chunks
      | some line ↦ line ∷ scan fuel (drop advance buf) (chunk ∷ chunks)
    ]
