-- ===== src/Middleware/Limiter/Runs/Records.antt =====
-- The limiter's table: its keys, and the counts of its records.
use netwingfs.Prelude.{
  ℕ, ◌≤◌, ◌<◌, ◌+◌, ◌≡◌, ◌⊎◌, inl, inr, refl, true, false, List, [], ◌∷◌, ◌++◌, leb, ltb,
  if◌then◌else◌, arith, Bool-cases,
}
use netwingfs.Prelude.Bytes.{Bytes, bytes_eq, bytes_eq_iff}
use netwingfs.Middleware.Limiter.{records_of, put_records, drop_before, is_stale, drop_stale}
use netwingfs.Middleware.Limiter.Window.{count_from, Sorted}

-- No entry has the key.
abbrev Absent : Bytes → List (Bytes × List ℕ) → Type 0
Absent key [] = Unit
Absent key ((k, records) ∷ rest) = (bytes_eq k key ≡ false) × Absent key rest

abbrev pub Distinct : List (Bytes × List ℕ) → Type 0
Distinct [] = Unit
Distinct ((k, records) ∷ rest) = Absent k rest × Distinct rest

Absent-put_records :
    (key k : Bytes) (records : List ℕ) (l : List (Bytes × List ℕ))
    → bytes_eq k key ≡ false
    → Absent key l
    → Absent key (put_records k records l)
unfolding put_records
Absent-put_records key k records [] ne h = (ne, tt)
Absent-put_records key k records ((i, old) ∷ l) ne (hi, h) = elim (Bool-cases (bytes_eq i k)) [
  | inl e ↦ rw e (hi, h)
  | inr e ↦ rw e (hi, Absent-put_records key k records l ne h)
]

pub Distinct-put_records :
    (k : Bytes) (records : List ℕ) (l : List (Bytes × List ℕ))
    → Distinct l
    → Distinct (put_records k records l)
unfolding put_records
Distinct-put_records k records [] h = (tt, tt)
Distinct-put_records k records ((i, old) ∷ l) (absent, h) = elim (Bool-cases (bytes_eq i k)) [
  | inl e ↦ rw e (absent, h)
  | inr e ↦ rw e (
    Absent-put_records i k records l (ground (arith, e, bytes_eq_iff i k, bytes_eq_iff k i)) absent,
    Distinct-put_records k records l h,
  )
]

Absent-drop_stale :
    (key : Bytes) (threshold : ℕ) (l : List (Bytes × List ℕ))
    → Absent key l
    → Absent key (drop_stale threshold l)
unfolding drop_stale
Absent-drop_stale key threshold [] h = tt
Absent-drop_stale key threshold ((k, records) ∷ l) (hk, h) =
    elim (Bool-cases (is_stale threshold records)) [
      | inl e ↦ rw e (Absent-drop_stale key threshold l h)
      | inr e ↦ rw e (hk, Absent-drop_stale key threshold l h)
    ]

pub Distinct-drop_stale :
    (threshold : ℕ) (l : List (Bytes × List ℕ)) → Distinct l → Distinct (drop_stale threshold l)
unfolding drop_stale
Distinct-drop_stale threshold [] h = tt
Distinct-drop_stale threshold ((k, records) ∷ l) (absent, h) =
    elim (Bool-cases (is_stale threshold records)) [
      | inl e ↦ rw e (Distinct-drop_stale threshold l h)
      | inr e ↦ rw e (Absent-drop_stale k threshold l absent, Distinct-drop_stale threshold l h)
    ]

records_of-Absent : (key : Bytes) (l : List (Bytes × List ℕ)) → Absent key l → records_of key l ≡ []
unfolding records_of
records_of-Absent key [] h = refl
records_of-Absent key ((k, records) ∷ l) (hk, h) = rw hk (records_of-Absent key l h)

-- A cleanup keeps the records of a key, or drops them all, where the last one is stale.
pub drop_stale-cases :
    (key : Bytes) (threshold : ℕ) (l : List (Bytes × List ℕ))
    → Distinct l
    → (records_of key (drop_stale threshold l) ≡ records_of key l)
      ⊎ ((is_stale threshold (records_of key l) ≡ true)
          × (records_of key (drop_stale threshold l) ≡ []))
unfolding drop_stale records_of
drop_stale-cases key threshold [] h = inl refl
drop_stale-cases key threshold ((k, records) ∷ l) (absent, h) = elim (Bool-cases (bytes_eq k key)) [
  | inl e ↦ elim (Bool-cases (is_stale threshold records)) [
    | inl s ↦
        let same = (bytes_eq_iff k key).0 e in
        let gone : Absent key l = rw (← same) absent in
        rw e (rw s (inr (refl, records_of-Absent key _ (Absent-drop_stale key threshold l gone))))
    | inr s ↦ rw s (rw e (inl refl))
  ]
  | inr e ↦ elim (Bool-cases (is_stale threshold records)) [
    | inl s ↦ rw s (rw e (drop_stale-cases key threshold l h))
    | inr s ↦ rw s (rw e (drop_stale-cases key threshold l h))
  ]
]

pub Sorted-later : (now later : ℕ) (ts : List ℕ) → now ≤ later → Sorted ts now → Sorted ts later
Sorted-later now later [] le h = tt
Sorted-later now later (t ∷ []) le h = omega arith
Sorted-later now later (t ∷ u ∷ ts) le (tu, h) = (tu, Sorted-later now later (u ∷ ts) le h)

pub Sorted-drop_before :
    (start now : ℕ) (ts : List ℕ) → Sorted ts now → Sorted (drop_before start ts) now
unfolding drop_before
Sorted-drop_before start now [] h = tt
Sorted-drop_before start now (t ∷ []) h = elim (Bool-cases (ltb t start)) [
  | inl e ↦ rw e tt
  | inr e ↦ rw e h
]
Sorted-drop_before start now (t ∷ u ∷ ts) h = elim (Bool-cases (ltb t start)) [
  | inl e ↦ rw e (Sorted-drop_before start now (u ∷ ts) h.1)
  | inr e ↦ rw e h
]

pub Sorted-append : (now : ℕ) (ts : List ℕ) → Sorted ts now → Sorted (ts ++ now ∷ []) now
Sorted-append now [] h = omega arith
Sorted-append now (t ∷ []) h = (h, omega arith)
Sorted-append now (t ∷ u ∷ ts) (tu, h) = (tu, Sorted-append now (u ∷ ts) h)

pub count_from-append :
    (start now : ℕ) (ts : List ℕ)
    → count_from start (ts ++ now ∷ []) ≡ count_from start ts + (if leb start now then 1 else 0)
unfolding count_from
count_from-append start now [] = ground arith
count_from-append start now (t ∷ ts) = ground (arith, count_from-append start now ts)

pub count_from-kept :
    (threshold start : ℕ) (ts : List ℕ)
    → threshold ≤ start
    → count_from start (drop_before threshold ts) ≡ count_from start ts
unfolding count_from drop_before
count_from-kept threshold start [] le = refl
count_from-kept threshold start (t ∷ ts) le = ground (arith, count_from-kept threshold start ts le)

is_stale-first :
    (threshold now t : ℕ) (ts : List ℕ)
    → Sorted (t ∷ ts) now
    → is_stale threshold (t ∷ ts) ≡ true
    → t < threshold
is_stale-first threshold now t [] h s = ground (arith, s)
is_stale-first threshold now t (u ∷ ts) (tu, h) s =
    let later = is_stale-first threshold now u ts h s in omega arith

-- Stale records count nothing from the threshold on.
pub count_from-stale :
    (threshold start now : ℕ) (ts : List ℕ)
    → threshold ≤ start
    → Sorted ts now
    → is_stale threshold ts ≡ true
    → count_from start ts ≡ 0
unfolding count_from
count_from-stale threshold start now [] le h s = refl
count_from-stale threshold start now (t ∷ []) le h s = ground (arith, s)
count_from-stale threshold start now (t ∷ u ∷ ts) le h s = ground (
  arith,
  is_stale-first threshold now t (u ∷ ts) h s,
  count_from-stale threshold start now (u ∷ ts) le h.1 s,
)
