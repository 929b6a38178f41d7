-- ===== src/Packet/Invariant/Lookup.antt =====
-- What a well-formed table says of the client that a callsign leads to.
use netwingfs.Prelude.{ℕ, ◌≡◌, sym, ap, ◌∙◌, Bool-cases, some, [], ◌∷◌, inl, inr, arith}
use netwingfs.Prelude.Bytes.{Bytes, bytes_eq, bytes_eq_sound}
use netwingfs.Packet.State.{Client}
use netwingfs.Packet.Registry.{Registry, lookup}
use netwingfs.Packet.Invariant.{Entries}

entry-named :
    {F : Type 0} (clients : ℕ → Client F) (j k : Bytes) (d c : ℕ)
    → (clients d).callsign ≡ j
    → j ≡ k
    → d ≡ c
    → (clients c).callsign ≡ k
entry-named clients j k d c named e f = ap (λ x. (clients x).callsign) (sym f) ∙ (named ∙ e)

pub lookup-Entries :
    {F : Type 0} (clients : ℕ → Client F) (next : ℕ) (r : Registry) (k : Bytes) (c : ℕ)
    → Entries clients next r
    → lookup k r ≡ some c
    → (clients c).callsign ≡ k
unfolding lookup
lookup-Entries clients next [] k c e h = ground arith
lookup-Entries clients next ((j, d) ∷ r) k c (_, named, rest) h = elim (Bool-cases (bytes_eq j k)) [
  | inl b ↦ entry-named clients j k d c named (bytes_eq_sound j k b) (ground (arith, b, h))
  | inr b ↦ lookup-Entries clients next r k c rest (ground (arith, b, h))
]
