-- ===== src/Middleware/Limiter/Runs/Bound.antt =====
-- How many requests pass in an interval as long as the window.
use netwingfs.Prelude.{
  ℕ, ◌+◌, ◌-◌, ◌≤◌, ◌≡◌, refl, List, [], ◌∷◌, length, leb, arith, Bool-cases, inl, inr,
}
use netwingfs.Prelude.Bytes.{Bytes}
use netwingfs.Middleware.Limiter.{records_of, drop_before, allow, cleanup}
use netwingfs.Middleware.Limiter.Window.{count_from}
use netwingfs.Middleware.Limiter.Runs.{
  Event, request, sweep, Served, act, serve, InOrder, times, count_between, fresh,
}
use netwingfs.Middleware.Limiter.Runs.Kept.{Spaced, Kept, Knows-later, Kept-request, Kept-sweep}

count_between-count_from :
    (start end from : ℕ) (ts : List ℕ)
    → from ≤ start
    → count_between start end ts ≤ count_from from ts
unfolding count_between count_from
count_between-count_from start end from [] h = omega arith
count_between-count_from start end from (t ∷ ts) h =
    ground (arith, count_between-count_from start end from ts h)

Spaced-count_between :
    (size most start : ℕ) (ts : List ℕ)
    → Spaced size most ts
    → count_between start (start + size) ts ≤ most
unfolding count_between
Spaced-count_between size most start [] h = omega arith
Spaced-count_between size most start (t ∷ ts) h = elim (Bool-cases (leb t (start + size))) [
  | inl e ↦
      let all =
        count_between-count_from start (start + size) (t - size) (t ∷ ts) (ground (arith, e)) in
      omega arith
  | inr e ↦ ground (arith, e, Spaced-count_between size most start ts h.1)
]

Kept-later : (now later : ℕ) (s : Served) → now ≤ later → Kept now s → Kept later s
Kept-later now later s le (distinct, knows) =
    (distinct, λ j. Knows-later _ _ now later _ _ le (knows j))

act-limits :
    (now : ℕ) (s : Served) (e : Event)
    → ((act s now e).limiter.window_size ≡ s.limiter.window_size)
      × ((act s now e).limiter.max_requests ≡ s.limiter.max_requests)
unfolding act allow cleanup
act-limits now s (request key) =
    elim (Bool-cases (
      leb s.limiter.max_requests (
        length (
          drop_before (now - s.limiter.window_size) (records_of key s.limiter.request_records))))) [
            | inl e ↦ rw e (refl, refl)
            | inr e ↦ rw e (refl, refl)
          ]
act-limits now s sweep = (refl, refl)

Kept-act : (now : ℕ) (s : Served) (e : Event) → Kept now s → Kept now (act s now e)
Kept-act now s (request key) h = Kept-request now s key h
Kept-act now s sweep h = Kept-sweep now s h

Spaced-limits :
    {size size2 most most2 : ℕ}
    → size ≡ size2
    → most ≡ most2
    → (ts : List ℕ) → Spaced size most ts
    → Spaced size2 most2 ts
Spaced-limits same_size same_most ts h = rw (← same_size, ← same_most) h

Spaced-serve :
    (now : ℕ) (s : Served) (events : List (ℕ × Event))
    → Kept now s
    → InOrder now events
    → (j : Bytes)
    → Spaced s.limiter.window_size s.limiter.max_requests (times j (serve s events).passed)
unfolding serve
Spaced-serve now s [] h order j = (h.1 j).2
Spaced-serve now s ((later, e) ∷ events) h (le, order) j =
    let (size, most) = act-limits later s e in
    let rest =
      Spaced-serve later (act s later e) events (Kept-act later s e (Kept-later now later s le h))
        order j in
    Spaced-limits size most _ rest

-- Over any run of requests and cleanups in the order of time, from a limiter without records, at
-- most the allowed number of requests of a key pass in any interval as long as the window.
pub serve-bounded :
    (size most from : ℕ) (events : List (ℕ × Event))
    → InOrder from events
    → (key : Bytes) (start : ℕ)
    → count_between start (start + size) (times key (serve (fresh size most) events).passed) ≤ most
unfolding records_of times
serve-bounded size most from events order key start =
    Spaced-count_between size most start _
      (Spaced-serve from (fresh size most) events (tt, λ j. (tt, λ i h. refl, tt)) order key)
