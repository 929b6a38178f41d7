-- ===== src/Middleware/Limiter/Runs/Kept.antt =====
-- What the limiter's table knows of the requests that passed.
use netwingfs.Prelude.{
  ℕ, ◌-◌, ◌*◌, ◌≤◌, ◌≡◌, refl, true, false, List, [], ◌∷◌, ◌++◌, length, leb, arith, Bool-cases,
  inl, inr,
}
use netwingfs.Prelude.Bytes.{Bytes, bytes_eq, bytes_eq_iff}
use netwingfs.Middleware.Limiter.{records_of, drop_before, allow, cleanup, is_stale}
use netwingfs.Middleware.Limiter.Window.{
  records_of-put_records, count_from, count_from-drop_before, Sorted,
}
use netwingfs.Middleware.Limiter.Runs.{request, sweep, Served, act, times}
use netwingfs.Middleware.Limiter.Runs.Records.{
  Distinct, Distinct-put_records, Distinct-drop_stale, drop_stale-cases, Sorted-later,
  Sorted-drop_before, Sorted-append, count_from-append, count_from-kept, count_from-stale,
}

-- Each time is at most the allowed one in the window that it ends, the newest first.
abbrev pub Spaced : ℕ → ℕ → List ℕ → Type 0
Spaced size most [] = Unit
Spaced size most (t ∷ ts) = (count_from (t - size) (t ∷ ts) ≤ most) × Spaced size most ts

-- What the limiter knows of a key: its records are in order, they agree with what passed from the
-- window on, and what passed is spaced.
abbrev pub Knows : ℕ → ℕ → ℕ → List ℕ → List ℕ → Type 0
Knows size most now records passed =
    Sorted records now
    × ((start : ℕ) → now - size ≤ start → count_from start records ≡ count_from start passed)
    × Spaced size most passed

abbrev pub Kept : ℕ → Served → Type 0
Kept now s =
    Distinct s.limiter.request_records
    × ((j : Bytes)
        → Knows s.limiter.window_size s.limiter.max_requests now
            (records_of j s.limiter.request_records) (times j s.passed))

pub Knows-later :
    (size most now later : ℕ) (records passed : List ℕ)
    → now ≤ later
    → Knows size most now records passed
    → Knows size most later records passed
Knows-later size most now later records passed le (sorted, agree, spaced) =
    (Sorted-later now later records le sorted, λ start h. agree start (omega arith), spaced)

-- The records that `Allow` keeps of the requested key.
Knows-window :
    (size most now : ℕ) (records passed : List ℕ)
    → Knows size most now records passed
    → Knows size most now (drop_before (now - size) records) passed
Knows-window size most now records passed (sorted, agree, spaced) = (
  Sorted-drop_before (now - size) now records sorted,
  λ start h. rw (count_from-kept (now - size) start records h) (agree start h),
  spaced,
)

-- Records that a cleanup drops.
Knows-stale :
    (size most now threshold : ℕ) (records passed : List ℕ)
    → threshold ≤ now - size
    → is_stale threshold records ≡ true
    → Knows size most now records passed
    → Knows size most now [] passed
unfolding count_from
Knows-stale size most now threshold records passed le stale (sorted, agree, spaced) = (
  tt,
  λ start h.
      let none_left = count_from-stale threshold start now records (omega arith) sorted stale in
      rw (← agree start h, none_left) refl,
  spaced,
)

Knows-passed :
    (size most now : ℕ) (records passed : List ℕ)
    → Knows size most now records passed
    → leb most (length (drop_before (now - size) records)) ≡ false
    → Knows size most now (drop_before (now - size) records ++ now ∷ []) (now ∷ passed)
unfolding count_from
Knows-passed size most now records passed k few =
    let window = drop_before (now - size) records in
    let (sorted, agree, spaced) = Knows-window size most now records passed k in
    (
      Sorted-append now window sorted,
      λ start h. rw (count_from-append start now window) (ground (arith, agree start h)),
      (
        ground (
          arith,
          few,
          k.1 (now - size) (omega arith),
          count_from-drop_before (now - size) now records k.0,
        ),
        spaced,
      ),
    )

times-other :
    (key j : Bytes) (now : ℕ) (passed : List (Bytes × ℕ))
    → bytes_eq key j ≡ false
    → times j ((key, now) ∷ passed) ≡ times j passed
unfolding times
times-other key j now passed ne = rw ne refl

times-same :
    (key : Bytes) (now : ℕ) (passed : List (Bytes × ℕ))
    → times key ((key, now) ∷ passed) ≡ now ∷ times key passed
unfolding times
times-same key now passed = rw ((bytes_eq_iff key key).1 refl) refl

pub Kept-request :
    (now : ℕ) (s : Served) (key : Bytes) → Kept now s → Kept now (act s now (request key))
unfolding act allow
Kept-request now s key (distinct, knows) =
    let old = records_of key s.limiter.request_records in
    let window = drop_before (now - s.limiter.window_size) old in
    let table = s.limiter.request_records in
    elim (Bool-cases (leb s.limiter.max_requests (length window))) [
      | inl e ↦ rw e (
        Distinct-put_records key window table distinct,
        λ j. rw (records_of-put_records key j window table) (elim (Bool-cases (bytes_eq key j)) [
          | inl same ↦
              rw (same, ← (bytes_eq_iff key j).0 same)
                (Knows-window _ _ now old (times key s.passed) (knows key))
          | inr ne ↦ rw ne (knows j)
        ]),
      )
      | inr e ↦ rw e (
        Distinct-put_records key (window ++ now ∷ []) table distinct,
        λ j.
            rw (records_of-put_records key j (window ++ now ∷ []) table)
              (elim (Bool-cases (bytes_eq key j)) [
                | inl same ↦
                    rw (same, ← (bytes_eq_iff key j).0 same, times-same key now s.passed)
                      (Knows-passed _ _ now old (times key s.passed) (knows key) e)
                | inr ne ↦ rw (ne, times-other key j now s.passed ne) (knows j)
              ]),
      )
    ]

pub Kept-sweep : (now : ℕ) (s : Served) → Kept now s → Kept now (act s now sweep)
unfolding act cleanup
Kept-sweep now s (distinct, knows) = (
  Distinct-drop_stale (now - 2 * s.limiter.window_size) s.limiter.request_records distinct,
  λ j.
      elim (drop_stale-cases j (now - 2 * s.limiter.window_size) s.limiter.request_records
        distinct) [
          | inl e ↦ rw e (knows j)
          | inr (stale, e) ↦ rw e (
              Knows-stale _ _ now (now - 2 * s.limiter.window_size) _ _ (omega arith) stale
                (knows j))
        ],
)
