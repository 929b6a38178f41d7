-- ===== src/Base/Cleaner/Order.antt =====
-- The order in which the registered functions run.
use netwingfs.Prelude.{
  ℕ, ◌≡◌, refl, sym, ap, ◌∙◌, false, Option, none, some, Option-cases, inl, inr, List, [], ◌∷◌,
  ◌++◌,
}
use mathlib.Core.List.{reverse, reverse-cons, append-nil, append_assoc}
use netwingfs.Utils.Slices.Reverse.{last_first, reverse_for_each_lem}
use netwingfs.Base.Cleaner.{Callable, Cleaner, add, invoke, clean, new_cleaner}

abbrev error_list : {X : Type 0} → Option X → List X
error_list none = []
error_list (some x) = x ∷ []

module _ {E X : Type 0} where
  -- The functions run one after the other, each in the state that the one before leaves, whether it
  -- failed or not.
  unfoldable pub run_in_turn : List (Callable E X) → List X × E → List X × E
  run_in_turn [] s = s
  run_in_turn (f ∷ fs) (errs, e) = run_in_turn fs (errs ++ error_list (f e).0, (f e).1)

  -- A cleaner with the functions registered one after the other.
  unfoldable pub register : Cleaner E X → List (Callable E X) → Cleaner E X
  unfolding add
  register c [] = c
  register c (f ∷ fs) = register (add c f) fs

  invoke_lem :
      (index : ℕ) (f : Callable E X) (errs : List X) (e : E)
      → invoke index f (errs, e) ≡ (errs ++ error_list (f e).0, (f e).1)
  unfolding invoke
  invoke_lem index f errs e = elim (Option-cases (f e).0) [
    | inl h ↦ rw (invoke, h) (rw (append-nil errs) refl)
    | inr (x, h) ↦ rw (invoke, h) refl
  ]

  run_in_turn-append :
      (fs : List (Callable E X)) (g : Callable E X) (s : List X × E)
      → run_in_turn (fs ++ g ∷ []) s ≡ invoke 0 g (run_in_turn fs s)
  unfolding run_in_turn
  run_in_turn-append [] g (errs, e) = sym (invoke_lem 0 g errs e)
  run_in_turn-append (f ∷ fs) g (errs, e) =
      run_in_turn-append fs g (errs ++ error_list (f e).0, (f e).1)

  last_first-invoke :
      (fs : List (Callable E X)) (s : List X × E)
      → last_first fs invoke s ≡ run_in_turn (reverse fs) s
  unfolding last_first invoke run_in_turn
  last_first-invoke [] s = refl
  last_first-invoke (f ∷ fs) s =
      ap (invoke 0 f) (last_first-invoke fs s)
      ∙ sym (ap (λ l. run_in_turn l s) (reverse-cons f fs) ∙ run_in_turn-append (reverse fs) f s)

  add-open :
      (c : Cleaner E X) (f : Callable E X)
      → c.cleaning ≡ false
      → add c f ≡ record c { cleaners = c.cleaners ++ f ∷ [] }
  unfolding add
  add-open c f h = rw h refl

  register-cleaners :
      (c : Cleaner E X) (fs : List (Callable E X))
      → c.cleaning ≡ false
      → register c fs ≡ record c { cleaners = c.cleaners ++ fs }
  unfolding register
  register-cleaners c [] h = rw (append-nil c.cleaners) refl
  register-cleaners c (f ∷ fs) h = rw (add-open c f h) (
      register-cleaners (record c { cleaners = c.cleaners ++ f ∷ [] }) fs h
      ∙ rw (append_assoc c.cleaners (f ∷ []) fs) refl)

  -- Functions that were registered run when the cleaner cleans: the last one first, each once and in
  -- the state that the one before left, also where that one failed; then the logger's shutdown runs.
  -- The errors are kept in that order, and what is registered from then on is ignored.
  pub clean-register :
      (logger_shutdown g : Callable E X) (fs : List (Callable E X)) (e : E)
      → ((clean (register (new_cleaner logger_shutdown) fs) e).errs
          ≡ (run_in_turn (reverse fs) ([], e)).0)
        × ((clean (register (new_cleaner logger_shutdown) fs) e).outside
            ≡ (logger_shutdown (run_in_turn (reverse fs) ([], e)).1).1)
        × (add (clean (register (new_cleaner logger_shutdown) fs) e).cleaner g
            ≡ (clean (register (new_cleaner logger_shutdown) fs) e).cleaner)
  unfolding clean new_cleaner add
  clean-register logger_shutdown g fs e =
      rw
        (
          register-cleaners (new_cleaner logger_shutdown) fs refl,
          reverse_for_each_lem fs (invoke {E = E} {X = X}) ([], e),
          last_first-invoke fs ([], e),
        )
        (refl, refl, refl)
