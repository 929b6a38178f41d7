-- ===== src/Database/Permission/Nodes.antt =====
-- A permission value as the set of the places of its bits.
use mathlib.Core.Path.{fun_ext}
use Prim.Native.Nat.{bit_and}
use netwingfs.Prelude.{ℕ, ◌≡◌, Bool, true, false, not, ◌==◌, if◌then◌else◌, arith, ◌+◌, ◌-◌}
use netwingfs.Prelude.Int.{ℤ, pos, negsuc}
use netwingfs.Database.Permission.{node, has_permission, grant, revoke}
use netwingfs.Database.Permission.Bits.{
  bit, bit_and-node, node-positive, bit-with_bit, bit-without_bit,
}

abbrev pub NodeSet : Type 0
NodeSet = ℕ → Bool

abbrev pub add_node : ℕ → NodeSet → NodeSet
add_node k held j = if k == j then true else held j

abbrev pub drop_node : ℕ → NodeSet → NodeSet
drop_node k held j = if k == j then false else held j

-- The set that a value stands for.
abbrev pub held : ℤ → NodeSet
held p k = has_permission p (node k)

has_permission-bit : (n k : ℕ) → has_permission (pos n) (node k) ≡ bit n k
unfolding has_permission
has_permission-bit n k = ground (arith, bit_and-node n k, node-positive k)

has_permission_negative-bit : (n k : ℕ) → has_permission (negsuc n) (node k) ≡ not (bit n k)
unfolding has_permission
has_permission_negative-bit n k = ground (arith, bit_and-node n k, node-positive k)

pub held-grant_at : (p : ℤ) (k j : ℕ) → held (grant p (node k)) j ≡ add_node k (held p) j
unfolding grant
held-grant_at (pos n) k j = ground (
  arith,
  has_permission-bit (n + node k - bit_and n (node k)) j,
  has_permission-bit n j,
  bit-with_bit n k j,
)
held-grant_at (negsuc n) k j = ground (
  arith,
  has_permission_negative-bit (n - bit_and n (node k)) j,
  has_permission_negative-bit n j,
  bit-without_bit n k j,
)

pub held-revoke_at : (p : ℤ) (k j : ℕ) → held (revoke p (node k)) j ≡ drop_node k (held p) j
unfolding revoke
held-revoke_at (pos n) k j = ground (
  arith,
  has_permission-bit (n - bit_and n (node k)) j,
  has_permission-bit n j,
  bit-without_bit n k j,
)
held-revoke_at (negsuc n) k j = ground (
  arith,
  has_permission_negative-bit (n + node k - bit_and n (node k)) j,
  has_permission_negative-bit n j,
  bit-with_bit n k j,
)

pub held-grant : (p : ℤ) (k : ℕ) → held (grant p (node k)) ≡ add_node k (held p)
held-grant p k = fun_ext (held-grant_at p k)

pub held-revoke : (p : ℤ) (k : ℕ) → held (revoke p (node k)) ≡ drop_node k (held p)
held-revoke p k = fun_ext (held-revoke_at p k)

-- Granting a permission inserts its place into the set that a value stands for, and revoking it
-- deletes its place, for every value of the type, the negative ones included.
pub held-grant-revoke :
    (p : ℤ) (k : ℕ)
    → (held (grant p (node k)) ≡ add_node k (held p))
      × (held (revoke p (node k)) ≡ drop_node k (held p))
held-grant-revoke p k = (held-grant p k, held-revoke p k)
