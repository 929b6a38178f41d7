-- ===== src/Fsd/Rating/Hierarchy.antt =====
-- The ratings as a hierarchy of what they allow.
use mathlib.Core.Path.{subst}
use netwingfs.Prelude.{
  ℕ, zero, suc, ◌≤◌, ◌<◌, ◌≡◌, refl, Bool, true, not, ◌&&◌, ◌||◌, ◌^◌, arith, leb, Bool-cases, inl,
  inr, ◌==◌,
}
use netwingfs.Prelude.Int.{pos}
use netwingfs.Fsd.Rating.{rating_facility_map, check_rating_facility, check_facility}

==→≡ : (a b : ℕ) → (b == a) ≡ true → a ≡ b
==→≡ a b h = ground arith

-- Whether a test holds of all numbers below a bound.
pub all_below : (ℕ → Bool) → ℕ → Bool
all_below p zero = true
all_below p (suc n) = p n && all_below p n

all_below-at : (p : ℕ → Bool) (n : ℕ) → all_below p n ≡ true → (i : ℕ) → i < n → p i ≡ true
unfolding all_below
all_below-at p zero h i lt = absurd (omega arith)
all_below-at p (suc n) h i lt = elim (Bool-cases (i == n)) [
  | inl e ↦ subst (λ k. p k ≡ true) (==→≡ n i (ground arith)) (ground arith)
  | inr e ↦ all_below-at p n (ground arith) i (ground arith)
]

abbrev implies : Bool → Bool → Bool
implies a b = not a || b

abbrev grows : ℕ → ℕ → ℕ → Bool
grows r q n = implies (leb r q) (
    implies (check_rating_facility rating_facility_map (pos r) (2 ^ n))
      (check_rating_facility rating_facility_map (pos q) (2 ^ n)))

table : all_below (λ r. all_below (λ q. all_below (grows r q) 8) 13) 13 ≡ true
unfolding all_below check_rating_facility check_facility rating_facility_map
table = refl

-- With the map that the program starts with, a rating up to `Administrator` has every facility that
-- a lower rating has.
pub check_rating_facility_monotone :
    (r q n : ℕ)
    → r ≤ q
    → q < 13
    → n < 8
    → check_rating_facility rating_facility_map (pos r) (2 ^ n) ≡ true
    → check_rating_facility rating_facility_map (pos q) (2 ^ n) ≡ true
check_rating_facility_monotone r q n le lt small h =
    let e1 = all_below-at _ 13 table r (omega arith) in
    let e2 = all_below-at _ 13 e1 q lt in
    let e3 = all_below-at (grows r q) 8 e2 n small in ground (arith, e3)
