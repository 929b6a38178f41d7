-- ===== src/Packet/Lines.antt =====
-- internal/fsd_server/packet/packet_utils.go: lines into commands with fields, and back.
pub mod MakePacket
pub mod RoundTrip
use netwingfs.Prelude.{
  ℕ, zero, suc, ◌+◌, ◌-◌, ◌≤◌, ◌<◌, Bool, true, false, ◌&&◌, ◌||◌, not, Option, none, some, List,
  [], ◌∷◌, length, set, replicate, ltb, leb, ◌==◌, if◌then◌else◌,
}
use Prim.Native.Nat.{min}
use netwingfs.Prelude.Bytes.{Bytes, codes, strip_prefix}
use netwingfs.Prelude.Int.{ℤ, leb_ℤ}
use netwingfs.Fsd.Command.{Command, text, temp_data, possible_client_commands}

abbrev pub split_sign : Bytes
split_sign = 13 ∷ 10 ∷ []

abbrev pub prepend : ℕ → List Bytes → List Bytes
prepend x [] = (x ∷ []) ∷ []
prepend x (s ∷ rest) = (x ∷ s) ∷ rest

-- `strings.Split(s, ":")`.
pub split_colon : Bytes → List Bytes
split_colon [] = [] ∷ []
split_colon (x ∷ s) = let rest = split_colon s in if x == b':' then [] ∷ rest else prepend x rest

-- The loop of `parserCommandLine` over the commands.
pub find_command : List Command → Bytes → Command × List Bytes
find_command [] line = (temp_data, [])
find_command (c ∷ cs) line = elim (strip_prefix (text c) line) [
  | none ↦ find_command cs line
  | some rest ↦ (c, split_colon rest)
]

-- `parserCommandLine`.
unfoldable pub parser_command_line : Bytes → Command × List Bytes
unfolding find_command split_colon strip_prefix
parser_command_line line = find_command possible_client_commands line

-- `copy(dst, src)`: as many bytes as the shorter has.
pub overwrite : Bytes → Bytes → Bytes
overwrite [] src = []
overwrite (d ∷ dst) [] = d ∷ dst
overwrite (d ∷ dst) (s ∷ src) = s ∷ overwrite dst src

-- The buffer after `copy(result[pos:], src)`.
pub copy_at : Bytes → ℕ → Bytes → Bytes
copy_at [] pos src = []
copy_at (b ∷ buf) zero src = overwrite (b ∷ buf) src
copy_at (b ∷ buf) (suc pos) src = b ∷ copy_at buf pos src

-- The buffer and the write position; `none` is a run-time panic.
abbrev pub Cursor : Type 0
Cursor = Option (Bytes × ℕ)

-- `pos += copy(result[pos:], part)`; the slice panics where `pos` is past the end.
pub copy_part : Bytes → ℕ → Bytes → Cursor
unfolding copy_at
copy_part buf pos part =
    if leb pos (length buf)
    then some (copy_at buf pos part, pos + min (length buf - pos) (length part))
    else none

-- `if i > 0 { result[pos] = ':'; pos++ }`; the write panics out of bounds.
pub put_colon : ℕ → Bytes → ℕ → Cursor
put_colon i buf pos =
    if ltb 0 i
    then (if ltb pos (length buf) then some (set buf pos b':', pos + 1) else none)
    else some (buf, pos)

-- The loop over the parts.
pub write_parts : ℕ → Bytes → ℕ → List Bytes → Cursor
write_parts i buf pos [] = some (buf, pos)
write_parts i buf pos (part ∷ parts) = elim (put_colon i buf pos) [
  | none ↦ none
  | some (buf1, pos1) ↦ elim (copy_part buf1 pos1 part) [
    | none ↦ none
    | some (buf2, pos2) ↦ write_parts (suc i) buf2 pos2 parts
  ]
]

pub sum_lengths : List Bytes → ℕ
sum_lengths [] = 0
sum_lengths (part ∷ parts) = length part + sum_lengths parts

-- `totalLen`.
pub total_length : Bytes → List Bytes → ℕ
unfolding sum_lengths
total_length command parts =
    length command
    + (if ltb 0 (length parts) then sum_lengths parts + (length parts - 1) else 0)
    + length split_sign

-- `makePacket`, which fills a buffer of the computed length.
pub make_packet : Command → List Bytes → Option Bytes
unfolding total_length copy_part
make_packet command parts =
    let result = replicate (total_length (text command) parts) 0 in
    elim (copy_part result 0 (text command)) [
      | none ↦ none
      | some (buf, pos) ↦ elim (write_parts 0 buf pos parts) [
        | none ↦ none
        | some (buf1, pos1) ↦ elim (copy_part buf1 pos1 split_sign) [
          | none ↦ none
          | some (buf2, _) ↦ some buf2
        ]
      ]
    ]

abbrev pub any_byte : (ℕ → Bool) → Bytes → Bool
any_byte p [] = false
any_byte p (c ∷ s) = p c || any_byte p s

abbrev pub contains_byte : Bytes → ℕ → Bool
contains_byte [] c = false
contains_byte (d ∷ s) c = (d == c) || contains_byte s c

-- `ForbiddenChars`.
abbrev pub forbidden_chars : Bytes
forbidden_chars = b'!' ∷ b'@' ∷ b'#' ∷ b'$' ∷ b'%' ∷ b'*' ∷ b':' ∷ b'&' ∷ b' ' ∷ 9 ∷ []

-- `callsignValid`. A text has a rune above 127 exactly where it has a byte above 127.
unfoldable pub callsign_valid : Bytes → Bool
callsign_valid callsign =
    if ltb (length callsign) 3 || leb 12 (length callsign)
    then false
    else if any_byte (contains_byte forbidden_chars) callsign
    then false
    else if any_byte (ltb 127) callsign
    then false
    else true

-- `frequencyValid`.
unfoldable pub frequency_valid : ℤ → Bool
frequency_valid frequency = leb_ℤ (ℤ.pos 18000) frequency && leb_ℤ frequency (ℤ.pos 36975)
