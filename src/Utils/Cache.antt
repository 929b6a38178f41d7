-- ===== src/Utils/Cache.antt =====
-- internal/utils/cached_value.go: a value that is made again when it is older than a duration. Times
-- are in nanoseconds; `getter` makes the value of the time at which it is called and takes `took` of
-- that time, after which the value is stamped. The time of the tests is that of the call.
use mathlib.Core.Path.{subst}
use netwingfs.Prelude.{
  sym, ℕ, suc, ◌+◌, ◌≤◌, ◌≡◌, refl, Bool, true, false, ◌&&◌, Option, none, some, List, [], ◌∷◌, inl,
  inr, ◌⊎◌, if◌then◌else◌, Bool-cases, arith,
}
use netwingfs.Prelude.Int.{ℤ, pos, leb_ℤ, sub_ℕ}

pub record CachedValue (A : Type 0) : Type 0 where
  pub generate_time : ℕ
  pub cached_data : Option A
  pub cached_time : ℤ

module _ {A : Type 0} (getter : ℕ → A) (took : ℕ → ℕ) where
  -- `NewCachedValue`.
  unfoldable pub new_cached_value : ℤ → ℕ → CachedValue A
  new_cached_value cached_time now = record {
    generate_time = now;
    cached_data = if leb_ℤ cached_time (pos 0) then some (getter now) else none;
    cached_time = cached_time;
  }

  abbrev is_set : Option A → Bool
  is_set none = false
  is_set (some a) = true

  -- Whether the cached value is still good.
  unfoldable pub is_fresh : CachedValue A → ℕ → Bool
  is_fresh value now =
      is_set value.cached_data && leb_ℤ (sub_ℕ now value.generate_time) value.cached_time

  -- `GetValue`: the value, and the cache after it.
  unfoldable pub get_value : CachedValue A → ℕ → Option A × CachedValue A
  unfolding is_fresh
  get_value value now =
      if leb_ℤ value.cached_time (pos 0)
      then (value.cached_data, value)
      else if is_fresh value now
      then (value.cached_data, value)
      else (
        some (getter now),
        record value { cached_data = some (getter now); generate_time = now + took now },
      )

  -- The cache after calls at these times.
  unfoldable pub after_calls : List ℕ → CachedValue A → CachedValue A
  unfolding get_value
  after_calls [] value = value
  after_calls (t ∷ ts) value = after_calls ts (get_value value t).1

  -- A cached value is stamped with the time at which making it was over.
  abbrev Dated : ℕ → CachedValue A → Type 0
  Dated n value =
      (value.cached_time ≡ pos (suc n))
      × ((value.cached_data ≡ none)
          ⊎ ((t : ℕ) × (value.cached_data ≡ some (getter t)) × (value.generate_time ≡ t + took t)))

  -- The answer of a call.
  abbrev pub Recent : ℕ → ℕ → Option A → Type 0
  Recent n now answer = (t : ℕ) × (answer ≡ some (getter t)) × (now ≤ t + took t + suc n)

  -- A call answers with the cached value, which is fresh, or makes a new one.
  get_value-cases :
      (value : CachedValue A) (now : ℕ)
      → leb_ℤ value.cached_time (pos 0) ≡ false
      → ((is_fresh value now ≡ true) × (get_value value now ≡ (value.cached_data, value)))
        ⊎ (get_value value now ≡ (
          some (getter now),
          record value { cached_data = some (getter now); generate_time = now + took now },
        ))
  unfolding get_value
  get_value-cases value now h = elim (Bool-cases (is_fresh value now)) [
    | inl b ↦ inl (b, rw (h, b) refl)
    | inr b ↦ inr (rw (h, b) refl)
  ]

  is_fresh-age :
      (n : ℕ) (value : CachedValue A) (now : ℕ)
      → value.cached_time ≡ pos (suc n)
      → is_fresh value now ≡ true
      → (¬ (value.cached_data ≡ none)) × (now ≤ value.generate_time + suc n)
  unfolding is_fresh
  is_fresh-age n value now h b = (λ e. ground (arith, b, e), ground (arith, b, h))

  -- What a call answers, and leaves.
  abbrev Good : ℕ → ℕ → Option A × CachedValue A → Type 0
  Good n now result = Dated n result.1 × Recent n now result.0

  still-Good :
      (n : ℕ) (value : CachedValue A) (now : ℕ)
      → Dated n value
      → is_fresh value now ≡ true
      → Good n now (value.cached_data, value)
  still-Good n value now (h, inl e) b = elim ((is_fresh-age n value now h b).0 e) [ ]
  still-Good n value now (h, inr (t, e, stamped)) b =
      ((h, inr (t, e, stamped)), (t, e, omega (arith, stamped, (is_fresh-age n value now h b).1)))

  get_value-Good :
      (n : ℕ) (value : CachedValue A) (now : ℕ) → Dated n value → Good n now (get_value value now)
  get_value-Good n value now dated = elim (get_value-cases value now (ground (arith, dated.0))) [
    | inl (b, e) ↦ subst (Good n now) (sym e) (still-Good n value now dated b)
    | inr e ↦
        subst (Good n now) (sym e) ((dated.0, inr (now, refl, refl)), (now, refl, omega arith))
  ]

  after_calls-Dated :
      (n : ℕ) (ts : List ℕ) (value : CachedValue A) → Dated n value → Dated n (after_calls ts value)
  unfolding after_calls
  after_calls-Dated n [] value h = h
  after_calls-Dated n (t ∷ ts) value h =
      after_calls-Dated n ts (get_value value t).1 (get_value-Good n value t h).0

  -- With a positive duration, after any calls at any times, a call answers with a value that was done
  -- being made at a time that lies back by that duration at most; it may show an earlier time, by as
  -- long as making it took.
  pub get_value-Recent :
      (n start now : ℕ) (ts : List ℕ)
      → Recent n now (get_value (after_calls ts (new_cached_value (pos (suc n)) start)) now).0
  unfolding new_cached_value
  get_value-Recent n start now ts =
      (get_value-Good n (after_calls ts (new_cached_value (pos (suc n)) start)) now (
        after_calls-Dated n ts (new_cached_value (pos (suc n)) start) (refl, inl (ground arith)))).1
