-- ===== src/Middleware/Limiter/Window.antt =====
-- The requests of a key that lie in a window, and what the limiter makes of them.
use netwingfs.Prelude.{
  ℕ, suc, ◌-◌, ◌≤◌, ◌≡◌, refl, true, false, List, [], ◌∷◌, ◌++◌, length, length-append, ltb, leb,
  if◌then◌else◌, arith, Bool-cases, inl, inr,
}
use netwingfs.Prelude.Bytes.{Bytes, bytes_eq, bytes_eq_iff}
use netwingfs.Middleware.Limiter.{SlidingWindowLimiter, records_of, put_records, drop_before, allow}

pub records_of-put_records :
    (k j : Bytes) (records : List ℕ) (l : List (Bytes × List ℕ))
    → records_of j (put_records k records l) ≡ (if bytes_eq k j then records else records_of j l)
unfolding records_of put_records
records_of-put_records k j records [] = ground arith
records_of-put_records k j records ((i, old) ∷ l) = ground (
  arith,
  records_of-put_records k j records l,
  bytes_eq_iff i k,
  bytes_eq_iff i j,
  bytes_eq_iff k j,
)

-- The records of a key that are in a window which starts at a time.
unfoldable pub count_from : ℕ → List ℕ → ℕ
count_from start [] = 0
count_from start (t ∷ ts) = let rest = count_from start ts in if leb start t then suc rest else rest

-- Records in the order of time, none after a time.
abbrev pub Sorted : List ℕ → ℕ → Type 0
Sorted [] now = Unit
Sorted (t ∷ []) now = t ≤ now
Sorted (t ∷ u ∷ ts) now = (t ≤ u) × Sorted (u ∷ ts) now

Sorted-tail : (t : ℕ) (ts : List ℕ) (now : ℕ) → Sorted (t ∷ ts) now → Sorted ts now
Sorted-tail t [] now h = tt
Sorted-tail t (u ∷ ts) now h = h.1

count_from-all :
    (start t now : ℕ) (ts : List ℕ)
    → start ≤ t
    → Sorted (t ∷ ts) now
    → count_from start (t ∷ ts) ≡ length (t ∷ ts)
unfolding count_from
count_from-all start t now [] le h = ground arith
count_from-all start t now (u ∷ ts) le (tu, h) =
    ground (arith, count_from-all start u now ts (omega arith) h)

pub count_from-drop_before :
    (start now : ℕ) (ts : List ℕ)
    → Sorted ts now
    → length (drop_before start ts) ≡ count_from start ts
unfolding count_from drop_before
count_from-drop_before start now [] h = refl
count_from-drop_before start now (t ∷ ts) h = elim (Bool-cases (ltb t start)) [
  | inl e ↦ ground (arith, e, count_from-drop_before start now ts (Sorted-tail t ts now h))
  | inr e ↦ ground (arith, e, count_from-all start t now ts (ground (arith, e)) h)
]

-- A request of a key passes just where fewer than the allowed number of its recorded requests are
-- in the window that ends now, for records in the order of time.
allow-count_from :
    (l : SlidingWindowLimiter) (key : Bytes) (now : ℕ)
    → Sorted (records_of key l.request_records) now
    → (allow l key now).0
      ≡ ltb (count_from (now - l.window_size) (records_of key l.request_records)) l.max_requests
unfolding allow
allow-count_from l key now h =
    ground
      (arith, count_from-drop_before (now - l.window_size) now (records_of key l.request_records) h)

count_from-length : (start : ℕ) (ts : List ℕ) → count_from start ts ≤ length ts
unfolding count_from
count_from-length start [] = omega arith
count_from-length start (t ∷ ts) = ground (arith, count_from-length start ts)

-- Where a request of a key passes, the key's records have at most the allowed number of requests
-- from the start of the window on, this request included; the records of other keys are as before.
allow-bounded :
    (l : SlidingWindowLimiter) (key j : Bytes) (now : ℕ)
    → (allow l key now).0 ≡ true
    → bytes_eq key j ≡ false
    → (count_from (now - l.window_size) (records_of key (allow l key now).1.request_records)
        ≤ l.max_requests)
      × (records_of j (allow l key now).1.request_records ≡ records_of j l.request_records)
unfolding allow bytes_eq
allow-bounded l key j now h ne =
    let window = drop_before (now - l.window_size) (records_of key l.request_records) in
    elim (Bool-cases (leb l.max_requests (length window))) [
      | inl e ↦ absurd (ground (arith, e, h))
      | inr e ↦ (
        rw e (
            rw (records_of-put_records key key (window ++ now ∷ []) l.request_records) (
              ground (
                arith,
                e,
                bytes_eq_iff key key,
                length-append window (now ∷ []),
                count_from-length (now - l.window_size) (window ++ now ∷ []),
              ))),
        rw e (rw (records_of-put_records key j (window ++ now ∷ []) l.request_records, ne) refl),
      )
    ]
