-- ===== src/Config/Outcome.antt =====
-- What holds of a configuration that has passed a check.
use mathlib.Core.Path.{subst}
use netwingfs.Prelude.{
  ◌≡◌, refl, sym, Bool, true, false, Option, none, some, ◌⊎◌, inl, inr, if◌then◌else◌,
}
use netwingfs.Prelude.Bytes.{Bytes}
use netwingfs.Config.{
  Check, Checked, ValidResult, passed, failed, proceed, attempt, perform, fail_if, fail_some, stop,
  pure, ◌>>=◌, ◌>>◌,
}

module _ {E : Type 0} where
  abbrev pub Passes : {C : Type 0} → (C → Type 0) → Checked E C → Type 0
  Passes Q (passed c e) = Q c
  Passes Q (failed r e) = Unit

  pub Passes-weaken :
      {C : Type 0} (P Q : C → Type 0) (c : Checked E C)
      → ((c : C) → P c → Q c)
      → Passes P c
      → Passes Q c
  Passes-weaken P Q (passed c e) f h = f c h
  Passes-weaken P Q (failed r e) f h = tt

  pub Passes-any : {C : Type 0} (c : Checked E C) → Passes (λ _. Unit) c
  Passes-any (passed c e) = tt
  Passes-any (failed r e) = tt

  abbrev pub Succeeds : {C : Type 0} → Checked E C → Type 0
  Succeeds (passed c e) = Unit
  Succeeds (failed r e) = ⊥

  pub Succeeds-bind :
      {C D : Type 0} (m : Check E C) (f : C → Check E D) (e : E)
      → Succeeds (m e)
      → ((c : C) (e : E) → Succeeds (f c e))
      → Succeeds ((m >>= f) e)
  unfolding ◌>>=◌
  Succeeds-bind {C = C} m f e h g = go (m e) h
    where
      go : (c : Checked E C) → Succeeds c → Succeeds (proceed c f)
      go (passed c e) h = g c e
      go (failed r e) h = absurd h

  -- A check that passes and does nothing outside.
  abbrev pub Quiet : {C : Type 0} → E → Checked E C → Type 0
  Quiet e (passed c e') = e' ≡ e
  Quiet e (failed r e') = ⊥

  pub Quiet-bind :
      {C D : Type 0} (m : Check E C) (f : C → Check E D) (e : E)
      → Quiet e (m e)
      → ((c : C) → Succeeds (f c e))
      → Succeeds ((m >>= f) e)
  unfolding ◌>>=◌
  Quiet-bind {C = C} m f e h g = go (m e) h
    where
      go : (c : Checked E C) → Quiet e c → Succeeds (proceed c f)
      go (passed c e') h = subst (λ x. Succeeds (f c x)) (sym h) (g c)
      go (failed r e') h = absurd h

module _ {E C : Type 0} (Q : C → Type 0) where
  pub Passes-pure : (c : C) (e : E) → Q c → Passes Q (pure c e)
  unfolding pure
  Passes-pure c e h = h

  pub Passes-if :
      (b : Bool) (m k : Check E C) (e : E)
      → (b ≡ true → Passes Q (m e))
      → (b ≡ false → Passes Q (k e))
      → Passes Q ((if b then m else k) e)
  Passes-if true m k e h g = h refl
  Passes-if false m k e h g = g refl

  pub Passes-stop : (r : ValidResult) (e : E) → Passes Q (stop r e)
  unfolding stop
  Passes-stop r e = tt

module _ {E C D : Type 0} (P : C → Type 0) (Q : D → Type 0) where
  pub Passes-bind :
      (m : Check E C) (f : C → Check E D) (e : E)
      → Passes P (m e)
      → ((c : C) (e : E) → P c → Passes Q (f c e))
      → Passes Q ((m >>= f) e)
  unfolding ◌>>=◌
  Passes-bind m f e h g = go (m e) h
    where
      go : (c : Checked E C) → Passes P c → Passes Q (proceed c f)
      go (passed c e) h = g c e h
      go (failed r e) h = tt

module _ {E D : Type 0} (Q : D → Type 0) where
  pub Passes-fail_if :
      (b : Bool) (message : Bytes) (k : Check E D) (e : E)
      → (b ≡ false → Passes Q (k e))
      → Passes Q ((fail_if b message >> k) e)
  unfolding ◌>>=◌ fail_if stop pure
  Passes-fail_if true message k e h = tt
  Passes-fail_if false message k e h = h refl

  pub Passes-fail_some :
      (o : Option Bytes) (message : Bytes) (k : Check E D) (e : E)
      → Passes Q (k e)
      → Passes Q ((fail_some message o >> k) e)
  unfolding ◌>>=◌ fail_some stop pure
  Passes-fail_some none message k e h = h
  Passes-fail_some (some err) message k e h = tt

  pub Passes-attempt :
      {C : Type 0} (message : Bytes) (answer : Bytes ⊎ C) (f : C → Check E D) (e : E)
      → ((c : C) → answer ≡ inr c → Passes Q (f c e))
      → Passes Q ((attempt message answer >>= f) e)
  unfolding ◌>>=◌ attempt stop pure
  Passes-attempt message (inl err) f e h = tt
  Passes-attempt message (inr c) f e h = h c refl

  pub Passes-perform :
      {C : Type 0} (m : E → C × E) (f : C → Check E D) (e : E)
      → ((c : C) (e : E) → Passes Q (f c e))
      → Passes Q ((perform m >>= f) e)
  unfolding ◌>>=◌ perform
  Passes-perform m f e h = h (m e).0 (m e).1
