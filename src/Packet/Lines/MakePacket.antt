-- ===== src/Packet/Lines/MakePacket.antt =====
-- `makePacket` never writes out of its buffer, and fills it with the joined fields.
use netwingfs.Prelude.{
  ℕ, zero, suc, ◌+◌, ◌≤◌, ◌≡◌, refl, ap, some, List, [], ◌∷◌, ◌++◌, length, set, replicate,
  length-append, length-replicate, arith,
}
use mathlib.Core.List.{append_assoc, append-nil}
use netwingfs.Prelude.Bytes.{Bytes}
use netwingfs.Fsd.Command.{Command, text}
use netwingfs.Packet.Lines.{
  split_sign, overwrite, copy_at, copy_part, put_colon, write_parts, sum_lengths, total_length,
  make_packet, Cursor,
}

-- The fields joined by colons.
abbrev pub join : List Bytes → Bytes
join [] = []
join (part ∷ []) = part
join (part ∷ next ∷ parts) = part ++ (b':' ∷ join (next ∷ parts))

-- The text of the parts from number `i` on.
from_part : ℕ → List Bytes → Bytes
from_part i [] = []
from_part zero (part ∷ parts) = part ++ from_part 1 parts
from_part (suc i) (part ∷ parts) = b':' ∷ (part ++ from_part (suc (suc i)) parts)

from_part-join :
    (i : ℕ) (part : Bytes) (parts : List Bytes)
    → part ++ from_part (suc i) parts ≡ join (part ∷ parts)
unfolding from_part
from_part-join i part [] = append-nil part
from_part-join i part (next ∷ parts) =
    ap (λ t. part ++ (b':' ∷ t)) (from_part-join (suc i) next parts)

from_part-zero : (parts : List Bytes) → from_part 0 parts ≡ join parts
unfolding from_part
from_part-zero [] = refl
from_part-zero (part ∷ parts) = from_part-join 0 part parts

length-from_part :
    (i : ℕ) (parts : List Bytes)
    → length (from_part (suc i) parts) ≡ sum_lengths parts + length parts
unfolding from_part sum_lengths
length-from_part i [] = omega arith
length-from_part i (part ∷ parts) =
    omega
      (arith, length-append part (from_part (suc (suc i)) parts), length-from_part (suc i) parts)

total_length-from_part :
    (command : Bytes) (parts : List Bytes)
    → total_length command parts ≡ length command + (length (from_part 0 parts) + 2)
unfolding total_length from_part sum_lengths
total_length-from_part command [] = omega arith
total_length-from_part command (part ∷ parts) =
    ground (arith, length-append part (from_part 1 parts), length-from_part 0 parts)

-- The cursor stands behind `w`, and `n` bytes of room are left of those in `r`.
abbrev Wrote : Bytes → Bytes → ℕ → Cursor → Type 0
Wrote w r n c = (r' : Bytes) × (c ≡ some (w ++ r', length w)) × (length r ≡ n + length r')

overwrite-Wrote :
    (src r : Bytes)
    → length src ≤ length r
    → (r' : Bytes) × (overwrite r src ≡ src ++ r') × (length r ≡ length src + length r')
unfolding overwrite
overwrite-Wrote [] [] h = ([], refl, refl)
overwrite-Wrote [] (d ∷ r) h = (d ∷ r, refl, omega arith)
overwrite-Wrote (s ∷ src) [] h = elim h [ ]
overwrite-Wrote (s ∷ src) (d ∷ r) h =
    let (r', e, n) = overwrite-Wrote src r (omega arith) in (r', ap (◌∷◌ s) e, omega arith)

copy_at-append : (w r src : Bytes) → copy_at (w ++ r) (length w) src ≡ w ++ overwrite r src
unfolding copy_at overwrite
copy_at-append [] [] src = refl
copy_at-append [] (b ∷ r) src = refl
copy_at-append (b ∷ w) r src = ap (◌∷◌ b) (copy_at-append w r src)

copy_part-Wrote :
    (w r src : Bytes)
    → length src ≤ length r
    → Wrote (w ++ src) r (length src) (copy_part (w ++ r) (length w) src)
unfolding copy_part
copy_part-Wrote w r src h =
    let (r', e, n) = overwrite-Wrote src r h in
    (
      r',
      ground (
        arith,
        copy_at-append w r src,
        e,
        append_assoc w src r',
        length-append w r,
        length-append w src,
      ),
      n,
    )

set-append : (w r : Bytes) (x v : ℕ) → set (w ++ (x ∷ r)) (length w) v ≡ (w ++ v ∷ []) ++ r
set-append [] r x v = refl
set-append (b ∷ w) r x v = ap (◌∷◌ b) (set-append w r x v)

put_colon-Wrote :
    (i : ℕ) (w r : Bytes)
    → 1 ≤ length r
    → Wrote (w ++ b':' ∷ []) r 1 (put_colon (suc i) (w ++ r) (length w))
unfolding put_colon
put_colon-Wrote i w [] h = elim h [ ]
put_colon-Wrote i w (x ∷ r) h = (
  r,
  ground (arith, set-append w r x b':', length-append w (x ∷ r), length-append {0} w (b':' ∷ [])),
  omega arith,
)

write_parts-Wrote :
    (i : ℕ) (parts : List Bytes) (w r : Bytes)
    → length (from_part i parts) ≤ length r
    → Wrote
        (w ++ from_part i parts)
        r
        (length (from_part i parts))
        (write_parts i (w ++ r) (length w) parts)
unfolding write_parts from_part put_colon
write_parts-Wrote i [] w r h = (r, ground (arith, append-nil w), omega arith)
write_parts-Wrote zero (part ∷ parts) w r h =
    let roomy = length-append part (from_part 1 parts) in
    let (r1, e1, n1) = copy_part-Wrote w r part (omega (arith, roomy)) in
    let (r2, e2, n2) = write_parts-Wrote 1 parts (w ++ part) r1 (omega (arith, roomy)) in
    (r2, ground (arith, e1, e2, append_assoc w part (from_part 1 parts)), omega (arith, roomy))
write_parts-Wrote (suc i) (part ∷ parts) w r h =
    let roomy = length-append part (from_part (suc (suc i)) parts) in
    let (r0, e0, n0) = put_colon-Wrote i w r (omega arith) in
    let (r1, e1, n1) = copy_part-Wrote (w ++ b':' ∷ []) r0 part (omega (arith, roomy)) in
    let (r2, e2, n2) =
      write_parts-Wrote (suc (suc i)) parts ((w ++ b':' ∷ []) ++ part) r1 (omega (arith, roomy)) in
    (
      r2,
      ground (
        arith,
        e0,
        e1,
        e2,
        append_assoc (w ++ b':' ∷ []) part (from_part (suc (suc i)) parts),
        append_assoc w (b':' ∷ []) (part ++ from_part (suc (suc i)) parts),
      ),
      omega (arith, roomy),
    )

no_room_left : (r : Bytes) → length r ≡ 0 → r ≡ []
no_room_left [] h = refl
no_room_left (x ∷ r) h = absurd (omega arith)

-- For every command and every list of fields, `makePacket` does not panic, and its packet is the
-- command, the fields joined by colons and the line end.
pub make_packet-eq :
    (command : Command) (parts : List Bytes)
    → make_packet command parts ≡ some (text command ++ (join parts ++ split_sign))
unfolding make_packet
make_packet-eq command parts =
    let w0 = text command in
    let room = total_length-from_part w0 parts in
    let start : Bytes = replicate (total_length w0 parts) 0 in
    let width = length-replicate {A = ℕ} (total_length w0 parts) 0 in
    let (r1, e1, n1) = copy_part-Wrote [] start w0 (omega (arith, room, width)) in
    let (r2, e2, n2) = write_parts-Wrote 0 parts w0 r1 (omega (arith, room, width)) in
    let (r3, e3, n3) =
      copy_part-Wrote (w0 ++ from_part 0 parts) r2 split_sign (omega (arith, room, width)) in
    ground (
      arith,
      e1,
      e2,
      e3,
      no_room_left r3 (omega (arith, room, width)),
      from_part-zero parts,
      append_assoc w0 (from_part 0 parts) split_sign,
      append-nil ((w0 ++ from_part 0 parts) ++ split_sign),
    )
