-- ===== src/Config/Limits/Bounds.antt =====
-- The limits that pass the check.
use netwingfs.Prelude.{Bool, true, false, ◌≡◌, ◌↔◌, ◌⊎◌, inl, inr, refl, arith}
use netwingfs.Prelude.Bytes.{Bytes, codes}
use netwingfs.Prelude.Int.{ℤ, pos, ◌≤ℤ◌, ◌<ℤ◌, leb_ℤ, ltb_ℤ}
use netwingfs.Config.{
  Check, Outside, passed, failed, ValidResult, fail_if, attempt, ◌>>=◌, ◌>>◌, pure, stop,
}
use netwingfs.Config.Outcome.{Passes}
use netwingfs.Config.Limits.{HttpServerLimit, check_lengths, check_cids, check_valid}

-- 1 ≤ min < max ≤ most.
abbrev pub Lengths : ℤ → ℤ → ℤ → Type 0
Lengths min max most = (pos 1 ≤ℤ min) × (min <ℤ max) × (max ≤ℤ most)

-- The lengths of names, addresses and passwords, and the numbers, that the check admits.
abbrev pub InBounds : HttpServerLimit → Type 0
InBounds c =
    Lengths c.username_length_min c.username_length_max (pos 64)
    × (Lengths c.email_length_min c.email_length_max (pos 128)
        × (Lengths c.password_length_min c.password_length_max (pos 128)
            × ((pos 1 ≤ℤ c.cid_min) × (c.cid_min <ℤ c.cid_max))))

-- A check that changes nothing outside, and passes just where a condition holds.
abbrev pub Decides : {E C : Type 0} → Check E C → C → Type 0 → E → Type 0
Decides m c P e = ((m e ≡ passed c e) × P) ⊎ ((r : ValidResult) × (m e ≡ failed r e) × ¬ P)

module _ {E : Type 0} (e : E) where
  Decides-fail_if : (b : Bool) (message : Bytes) → Decides (fail_if b message) tt (b ≡ false) e
  unfolding fail_if pure stop
  Decides-fail_if true message = inr (_, refl, λ h. cc)
  Decides-fail_if false message = inl (refl, refl)

  Decides-then :
      {P Q C : Type 0} (m : Check E (Unit {0})) (k : Check E C) (c : C)
      → Decides m tt P e
      → Decides k c Q e
      → Decides (m >> k) c (P × Q) e
  unfolding ◌>>=◌
  Decides-then m k c (inl (e1, p)) (inl (e2, q)) = inl (rw e1 e2, (p, q))
  Decides-then m k c (inl (e1, p)) (inr (r, e2, nq)) = inr (r, rw e1 e2, λ h. nq h.1)
  Decides-then m k c (inr (r, e1, np)) _ = inr (r, rw e1 refl, λ h. np h.0)

  Decides-iff :
      {P Q C : Type 0} (m : Check E C) (c : C) → (P ↔ Q) → Decides m c P e → Decides m c Q e
  Decides-iff m c (to, back) (inl (h, p)) = inl (h, to p)
  Decides-iff m c (to, back) (inr (r, h, np)) = inr (r, h, λ q. np (back q))

  Decides-attempt :
      {P C D : Type 0} (message : Bytes) (answer : Bytes ⊎ D) (a : D) (k : D → Check E C) (c : C)
      → answer ≡ inr a
      → Decides (k a) c P e
      → Decides (attempt message answer >>= k) c P e
  unfolding ◌>>=◌ attempt pure
  Decides-attempt message answer a k c h d = rw h d

  Decides-pure :
      {P C : Type 0} (m : Check E (Unit {0})) (c : C)
      → Decides m tt P e
      → Decides (m >> pure c) c P e
  unfolding pure
  Decides-pure m c d =
      Decides-iff (m >> pure c) c (λ p. p.0, λ p. (p, tt))
        (Decides-then m (pure c) c d (inl (refl, tt)))

  check_lengths-Decides :
      (name : Bytes) (min max most : ℤ)
      → Decides (check_lengths name min max most) tt (Lengths min max most) e
  unfolding check_lengths
  check_lengths-Decides name min max most =
      Decides-iff (check_lengths name min max most) tt (ground arith) (
        Decides-then _ _ tt (Decides-fail_if (leb_ℤ min (pos 0)) _) (
          Decides-then _ _ tt (Decides-fail_if (ltb_ℤ most min) _) (
            Decides-then _ _ tt (Decides-fail_if (leb_ℤ max (pos 0)) _) (
              Decides-then _ _ tt (Decides-fail_if (ltb_ℤ most max) _)
                (Decides-fail_if (leb_ℤ max min) _)))))

  check_cids-Decides :
      (min max : ℤ) → Decides (check_cids min max) tt ((pos 1 ≤ℤ min) × (min <ℤ max)) e
  unfolding check_cids
  check_cids-Decides min max = Decides-iff (check_cids min max) tt (ground arith) (
      Decides-then _ _ tt (Decides-fail_if (leb_ℤ min (pos 0)) _) (
        Decides-then _ _ tt (Decides-fail_if (leb_ℤ max (pos 0)) _)
          (Decides-fail_if (leb_ℤ max min) _)))

-- With a window that is a duration, the limits pass their check just where every least length is
-- positive and below the greatest, and no greatest one is above 64 for names and 128 for addresses
-- and passwords; they are then kept, with the duration, and nothing else changes.
pub check_valid-InBounds :
    {E T A : Type 0} (out : Outside E T A) (config : HttpServerLimit) (duration : ℤ) (e : E)
    → out.parse_duration config.rate_limit_window ≡ inr duration
    → Decides
        (check_valid out config)
        (record config { rate_limit_duration = duration })
        (InBounds config)
        e
unfolding check_valid
check_valid-InBounds out config duration e h =
    let done = record config { rate_limit_duration = duration } in
    Decides-attempt e _ _ duration _ done h (
      Decides-then e _ _ done (check_lengths-Decides e (codes "username_length") _ _ (pos 64)) (
        Decides-then e _ _ done (check_lengths-Decides e (codes "email_length") _ _ (pos 128)) (
          Decides-then e _ _ done (check_lengths-Decides e (codes "password_length") _ _ (pos 128))
            (Decides-pure e _ done (check_cids-Decides e _ _)))))

check_valid-undated :
    {E T A : Type 0} (out : Outside E T A) (config : HttpServerLimit) (err : Bytes) (e : E)
    → out.parse_duration config.rate_limit_window ≡ inl err
    → Passes InBounds (check_valid out config e)
unfolding check_valid attempt stop ◌>>=◌
check_valid-undated out config err e h = rw h tt

-- Limits that pass their check are within the bounds.
pub check_valid-Passes :
    {E T A : Type 0} (out : Outside E T A) (config : HttpServerLimit) (e : E)
    → Passes InBounds (check_valid out config e)
check_valid-Passes out config e = go (out.parse_duration config.rate_limit_window) refl
  where
    go :
        (answer : Bytes ⊎ ℤ)
        → out.parse_duration config.rate_limit_window ≡ answer
        → Passes InBounds (check_valid out config e)
    go (inl err) h = check_valid-undated out config err e h
    go (inr d) h = elim (check_valid-InBounds out config d e h) [
      | inl (same, bounds) ↦ rw same bounds
      | inr (r, fails, _) ↦ rw fails tt
    ]
