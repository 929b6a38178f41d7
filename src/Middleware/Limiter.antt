-- ===== src/Middleware/Limiter.antt =====
-- internal/http_server/middleware/limiter.go: the sliding window limiter. Times are in nanoseconds
-- since a fixed instant, and a time less a duration stops at that instant.
pub mod Window
pub mod Runs
use netwingfs.Prelude.{
  ℕ, ◌-◌, ◌*◌, Bool, true, false, Option, none, some, List, [], ◌∷◌, ◌++◌, length, ltb, leb,
  if◌then◌else◌,
}
use netwingfs.Prelude.Bytes.{Bytes, bytes_eq}

pub record SlidingWindowLimiter : Type 0 where
  pub window_size : ℕ
  pub max_requests : ℕ
  pub request_records : List (Bytes × List ℕ)

-- `l.requestRecords[key]`; a missing key reads as the empty list, which `Allow` stores.
unfoldable pub records_of : Bytes → List (Bytes × List ℕ) → List ℕ
unfolding bytes_eq
records_of key [] = []
records_of key ((k, records) ∷ rest) = if bytes_eq k key then records else records_of key rest

-- `l.requestRecords[key] = records`.
unfoldable pub put_records : Bytes → List ℕ → List (Bytes × List ℕ) → List (Bytes × List ℕ)
put_records key records [] = (key, records) ∷ []
put_records key records ((k, old) ∷ rest) =
    let later = put_records key records rest in
    if bytes_eq k key then (k, records) ∷ rest else (k, old) ∷ later

-- The loop that drops the records before the window.
unfoldable pub drop_before : ℕ → List ℕ → List ℕ
drop_before start [] = []
drop_before start (t ∷ ts) = let rest = drop_before start ts in if ltb t start then rest else t ∷ ts

-- `Allow`, at the time `now`: whether the request passes.
unfoldable pub allow : SlidingWindowLimiter → Bytes → ℕ → Bool × SlidingWindowLimiter
unfolding records_of put_records drop_before
allow l key now =
    let records = drop_before (now - l.window_size) (records_of key l.request_records) in
    if leb l.max_requests (length records)
    then (false, record l { request_records = put_records key records l.request_records })
    else (
      true,
      record l { request_records = put_records key (records ++ now ∷ []) l.request_records },
    )

-- Whether the last record is before the threshold.
abbrev pub is_stale : ℕ → List ℕ → Bool
is_stale threshold [] = false
is_stale threshold (t ∷ []) = ltb t threshold
is_stale threshold (t ∷ u ∷ ts) = is_stale threshold (u ∷ ts)

unfoldable pub drop_stale : ℕ → List (Bytes × List ℕ) → List (Bytes × List ℕ)
drop_stale threshold [] = []
drop_stale threshold ((k, records) ∷ rest) =
    let later = drop_stale threshold rest in
    if is_stale threshold records then later else (k, records) ∷ later

-- `cleanup`.
unfoldable pub cleanup : SlidingWindowLimiter → ℕ → SlidingWindowLimiter
unfolding drop_stale
cleanup l now = record l {
  request_records = drop_stale (now - 2 * l.window_size) l.request_records;
}
