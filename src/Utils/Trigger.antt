-- ===== src/Utils/Trigger.antt =====
-- internal/utils/overflow_trigger.go. `count` is the trigger's only state; the callback is the
-- caller's, so a tick answers whether it is called.
use netwingfs.Prelude.{
  ℕ, zero, suc, ◌+◌, ◌*◌, ◌<◌, ◌≡◌, Bool, true, false, arith, leb, ◌==◌, if◌then◌else◌,
}
use netwingfs.Prelude.Int.{ℤ, pos, leb_ℤ, pos_part}

-- `Tick`.
unfoldable pub tick : ℤ → ℕ → ℕ × Bool
tick target_value count =
    if leb_ℤ target_value (pos 0)
    then (count, false)
    else if pos_part target_value == 1
    then (count, true)
    else if leb (pos_part target_value) (count + 1)
    then (0, true)
    else (count + 1, false)

abbrev one_if : Bool → ℕ
one_if true = 1
one_if false = 0

-- How often the callback runs over so many ticks, and the count they leave.
pub ticks : ℤ → ℕ → ℕ → ℕ × ℕ
ticks target_value count zero = (count, 0)
ticks target_value count (suc n) =
    let (count1, fired) = tick target_value count in
    let (count2, calls) = ticks target_value count1 n in (count2, one_if fired + calls)

-- From a count below the target, the calls and the count that are left account for every tick: the
-- callback has run once for each full round of `target_value` ticks, and no count reaches it.
pub ticks_account :
    (k count n : ℕ)
    → 1 < k
    → count < k
    → let (count', calls) = ticks (pos k) count n in (calls * k + count' ≡ count + n) × (count' < k)
unfolding ticks tick
ticks_account k count zero h c = omega arith
ticks_account k count (suc n) h c =
    ground (arith, ticks_account k (count + 1) n h, ticks_account k 0 n h (omega arith))
