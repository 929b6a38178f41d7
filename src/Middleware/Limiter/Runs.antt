-- ===== src/Middleware/Limiter/Runs.antt =====
-- What the limiter lets through over a whole run of requests and cleanups.
mod Records
mod Kept
pub mod Bound
use netwingfs.Prelude.{
  ℕ, ◌+◌, ◌-◌, ◌*◌, ◌≤◌, ◌≡◌, refl, Bool, true, false, List, [], ◌∷◌, ◌++◌, length, leb, ◌&&◌,
  if◌then◌else◌, arith, Bool-cases, inl, inr, suc,
}
use netwingfs.Prelude.Bytes.{Bytes, bytes_eq, bytes_eq_iff}
use netwingfs.Middleware.Limiter.{
  SlidingWindowLimiter, records_of, put_records, drop_before, allow, cleanup, is_stale,
}

-- A request of a key, or a cleanup by the ticker.
pub data Event : Type 0 where
  request : Bytes → Event
  sweep : Event

-- The limiter with the requests that passed, the newest first.
pub record Served : Type 0 where
  pub limiter : SlidingWindowLimiter
  pub passed : List (Bytes × ℕ)

unfoldable pub act : Served → ℕ → Event → Served
unfolding allow cleanup
act s now (request key) =
    let answer = allow s.limiter key now in
    record { limiter = answer.1; passed = if answer.0 then (key, now) ∷ s.passed else s.passed }
act s now sweep = record s { limiter = cleanup s.limiter now }

unfoldable pub serve : Served → List (ℕ × Event) → Served
unfolding act
serve s [] = s
serve s ((now, e) ∷ events) = serve (act s now e) events

-- The events come in the order of time, none before a time.
abbrev pub InOrder : ℕ → List (ℕ × Event) → Type 0
InOrder start [] = Unit
InOrder start ((now, e) ∷ events) = (start ≤ now) × InOrder now events

-- The times at which requests of a key passed, the newest first.
unfoldable pub times : Bytes → List (Bytes × ℕ) → List ℕ
times key [] = []
times key ((k, t) ∷ passed) =
    let rest = times key passed in if bytes_eq k key then t ∷ rest else rest

-- How many times lie between two, both included.
unfoldable pub count_between : ℕ → ℕ → List ℕ → ℕ
count_between start end [] = 0
count_between start end (t ∷ ts) =
    let rest = count_between start end ts in if leb start t && leb t end then suc rest else rest

abbrev pub fresh : ℕ → ℕ → Served
fresh size most = record {
  limiter = record { window_size = size; max_requests = most; request_records = [] };
  passed = [];
}
