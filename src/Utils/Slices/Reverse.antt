-- ===== src/Utils/Slices/Reverse.antt =====
-- `ReverseForEach` against plain recursion.
use netwingfs.Prelude.{
  ℕ, zero, suc, ◌≡◌, refl, ap, ◌∙◌, none, some, List, [], ◌∷◌, length, get_elem?,
}
use netwingfs.Utils.Slices.{reverse_loop, reverse_for_each}

module _ {A S : Type 0} where
  -- The callback on each element with its index, on the last element first.
  unfoldable pub last_first : List A → (ℕ → A → S → S) → S → S
  last_first [] f s = s
  last_first (v ∷ vs) f s = f 0 v (last_first vs (λ i. f (suc i)) s)

  reverse_loop-cons :
      (n : ℕ) (v : A) (vs : List A) (f : ℕ → A → S → S) (s : S)
      → reverse_loop (suc n) (v ∷ vs) f s ≡ f 0 v (reverse_loop n vs (λ i. f (suc i)) s)
  unfolding reverse_loop
  reverse_loop-cons zero v vs f s = refl
  reverse_loop-cons (suc n) v vs f s =
      reverse_loop-cons n v vs f
        (elim (get_elem? vs n) [ none ↦ s | some value ↦ f (suc n) value s ])

  -- The loop over the indices from the last to 0 reads no index out of range: it calls the callback
  -- once on each element, with its index, the last element first.
  pub reverse_for_each_lem :
      (slice : List A) (f : ℕ → A → S → S) (s : S)
      → reverse_for_each slice f s ≡ last_first slice f s
  unfolding reverse_for_each last_first reverse_loop
  reverse_for_each_lem [] f s = refl
  reverse_for_each_lem (v ∷ vs) f s =
      reverse_loop-cons (length vs) v vs f s
      ∙ ap (f 0 v) (reverse_for_each_lem vs (λ i. f (suc i)) s)
