-- ===== src/Database/Permission/Bits.antt =====
-- The bits of a natural number, and `bit_and` with a single bit.
use Prim.Native.Nat.{min, bit_and, digits, bit_and-bitwise}
use netwingfs.Prelude.{
  ℕ, zero, suc, ◌+◌, ◌-◌, ◌*◌, ◌/◌, ◌%◌, ◌≤◌, ◌≡◌, refl, Bool, true, false, ◌==◌, if◌then◌else◌,
  arith, ap, ◌∙◌,
}
use netwingfs.Database.Permission.{node}

-- Whether bit `k` of `n` is set.
unfoldable pub bit : ℕ → ℕ → Bool
bit n zero = n % 2 == 1
bit n (suc k) = bit (n / 2) k

-- The digits that `n` has in common with `q`, as far as `count` of them reach.
abbrev shared : ℕ → ℕ → ℕ → ℕ
shared count n q = digits (λ _. 0) min count n q

shared-nothing : (count n : ℕ) → shared count n 0 ≡ 0
shared-nothing zero n = refl
shared-nothing (suc count) zero = refl
shared-nothing (suc count) (suc n) = omega (arith, shared-nothing count (suc n / 2))

bit-zero : (k : ℕ) → bit 0 k ≡ false
unfolding bit
bit-zero zero = refl
bit-zero (suc k) = bit-zero k

-- What a number has in common with a single bit.
abbrev picked : ℕ → ℕ → ℕ
picked n k = if bit n k then node k else 0

picked-zero : (k : ℕ) → 0 ≡ picked 0 k
picked-zero k = ground (arith, bit-zero k)

halve-double : (q : ℕ) → 2 * q / 2 ≡ q
halve-double q = omega arith

shared-node : (count n k : ℕ) → n ≤ count → shared count n (node k) ≡ picked n k
unfolding bit node
shared-node zero zero k h = picked-zero k
shared-node zero (suc n) k h = absurd (omega arith)
shared-node (suc count) zero k h = picked-zero k
shared-node (suc count) (suc n) zero h = ground (arith, shared-nothing count (suc n / 2))
shared-node (suc count) (suc n) (suc k) h = ground (
  arith,
  shared-node count (suc n / 2) k (omega arith),
  ap (shared count (suc n / 2)) (halve-double (node k)),
)

-- The value of bit `k` of `n`.
pub bit_and-node : (n k : ℕ) → bit_and n (node k) ≡ (if bit n k then node k else 0)
bit_and-node n k = bit_and-bitwise n (node k) ∙ shared-node n n k (omega arith)

bit_and-one : (n : ℕ) → bit_and n 1 ≡ n % 2
unfolding bit node
bit_and-one n = ground (arith, bit_and-node n 0)

bit_and-double : (n k : ℕ) → bit_and n (2 * node k) ≡ 2 * bit_and (n / 2) (node k)
unfolding bit node
bit_and-double n k = ground (arith, bit_and-node n (suc k), bit_and-node (n / 2) k)

pub node-positive : (k : ℕ) → 1 ≤ node k
unfolding node
node-positive zero = omega arith
node-positive (suc k) = omega (arith, node-positive k)

-- `n` with bit `k` set, and with bit `k` cleared.
abbrev pub with_bit : ℕ → ℕ → ℕ
with_bit n k = n + node k - bit_and n (node k)

abbrev pub without_bit : ℕ → ℕ → ℕ
without_bit n k = n - bit_and n (node k)

bit_and-bound : (n k : ℕ) → bit_and n (node k) ≤ n
unfolding bit node
bit_and-bound n zero = omega (arith, bit_and-one n)
bit_and-bound n (suc k) = omega (arith, bit_and-double n k, bit_and-bound (n / 2) k)

with_bit-halve : (n k : ℕ) → with_bit n (suc k) / 2 ≡ with_bit (n / 2) k
unfolding node
with_bit-halve n k = omega (arith, bit_and-double n k, bit_and-bound (n / 2) k)

with_bit-parity : (n k : ℕ) → with_bit n (suc k) % 2 ≡ n % 2
unfolding node
with_bit-parity n k = omega (arith, bit_and-double n k, bit_and-bound (n / 2) k)

without_bit-halve : (n k : ℕ) → without_bit n (suc k) / 2 ≡ without_bit (n / 2) k
unfolding node
without_bit-halve n k = omega (arith, bit_and-double n k, bit_and-bound (n / 2) k)

without_bit-parity : (n k : ℕ) → without_bit n (suc k) % 2 ≡ n % 2
unfolding node
without_bit-parity n k = omega (arith, bit_and-double n k, bit_and-bound (n / 2) k)

with_bit-zero : (n : ℕ) → with_bit n 0 ≡ n / 2 * 2 + 1
unfolding node
with_bit-zero n = omega (arith, bit_and-one n)

without_bit-zero : (n : ℕ) → without_bit n 0 ≡ n / 2 * 2
unfolding node
without_bit-zero n = omega (arith, bit_and-one n)

with_bit_zero-halve : (n : ℕ) → with_bit n 0 / 2 ≡ n / 2
with_bit_zero-halve n = omega (arith, with_bit-zero n)

without_bit_zero-halve : (n : ℕ) → without_bit n 0 / 2 ≡ n / 2
without_bit_zero-halve n = omega (arith, without_bit-zero n)

pub bit-with_bit : (n k j : ℕ) → bit (with_bit n k) j ≡ (if k == j then true else bit n j)
unfolding bit
bit-with_bit n zero zero = ground (arith, with_bit-zero n)
bit-with_bit n zero (suc j) = ground (arith, ap (λ x. bit x j) (with_bit_zero-halve n))
bit-with_bit n (suc k) zero = ground (arith, with_bit-parity n k)
bit-with_bit n (suc k) (suc j) =
    ap (λ x. bit x j) (with_bit-halve n k) ∙ (bit-with_bit (n / 2) k j ∙ ground arith)

pub bit-without_bit : (n k j : ℕ) → bit (without_bit n k) j ≡ (if k == j then false else bit n j)
unfolding bit
bit-without_bit n zero zero = ground (arith, without_bit-zero n)
bit-without_bit n zero (suc j) = ground (arith, ap (λ x. bit x j) (without_bit_zero-halve n))
bit-without_bit n (suc k) zero = ground (arith, without_bit-parity n k)
bit-without_bit n (suc k) (suc j) =
    ap (λ x. bit x j) (without_bit-halve n k) ∙ (bit-without_bit (n / 2) k j ∙ ground arith)
