-- ===== src/Packet/Registry/Laws.antt =====
-- The table of clients as a finite map.
use netwingfs.Prelude.{◌≡◌, none, [], ◌∷◌, arith, if◌then◌else◌}
use netwingfs.Prelude.Bytes.{Bytes, bytes_eq, bytes_eq_iff}
use netwingfs.Packet.Registry.{Registry, lookup, remove}

pub lookup-remove :
    (k j : Bytes) (r : Registry)
    → lookup j (remove k r) ≡ (if bytes_eq k j then none else lookup j r)
unfolding lookup remove
lookup-remove k j [] = ground arith
lookup-remove k j ((i, c) ∷ r) =
    ground (arith, lookup-remove k j r, bytes_eq_iff i k, bytes_eq_iff i j, bytes_eq_iff k j)
