-- ===== src/Utils/Slices.antt =====
-- internal/utils/slice_utils.go. A slice of pointers is the list of what they point to, and a
-- callback acts on a state.
pub mod Reverse
use netwingfs.Prelude.{
  ℕ, zero, suc, Bool, Option, none, some, List, [], ◌∷◌, ◌++◌, map, length, get_elem?,
  if◌then◌else◌,
}

module _ {A : Type 0} where
  -- `Find`.
  unfoldable pub find : List A → (A → Bool) → Option A
  find [] comparator = none
  find (v ∷ src) comparator =
      let later = find src comparator in if comparator v then some v else later

  -- The loop of `Filter`, from the elements it has kept.
  unfoldable pub filter_from : List A → List A → (A → Bool) → List A
  filter_from result [] test = result
  filter_from result (v ∷ src) test =
      filter_from (if test v then result ++ v ∷ [] else result) src test

  unfoldable pub filter : List A → (A → Bool) → List A
  unfolding filter_from
  filter src test = filter_from [] src test

  -- `Map`, which changes the elements in place.
  unfoldable pub map_each : List A → (A → A) → List A
  map_each [] mapper = []
  map_each (v ∷ src) mapper = mapper v ∷ map_each src mapper

module _ {A S : Type 0} where
  -- `ForEach`.
  unfoldable pub for_each : List A → (A → S → S) → S → S
  for_each [] callback s = s
  for_each (v ∷ src) callback s = for_each src callback (callback v s)

  -- The loop of `ReverseForEach` over the indices below a number, the greatest first. An index out
  -- of range, which the loop has not, would leave the state.
  unfoldable pub reverse_loop : ℕ → List A → (ℕ → A → S → S) → S → S
  reverse_loop zero slice f s = s
  reverse_loop (suc i) slice f s =
      reverse_loop i slice f (elim (get_elem? slice i) [ none ↦ s | some value ↦ f i value s ])

  -- `ReverseForEach`.
  unfoldable pub reverse_for_each : List A → (ℕ → A → S → S) → S → S
  unfolding reverse_loop
  reverse_for_each slice f s = reverse_loop (length slice) slice f s
