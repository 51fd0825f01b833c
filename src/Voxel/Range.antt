-- ===== src/Voxel/Range.antt =====
-- The loops of `searchNeighbors` over the neighbouring voxels of one axis:
-- `for (short k = c - n; k < c + n + 1; ++k)`. The bounds are `int`, and the counter is a `short`,
-- so that it wraps around.
use adaptive_lio.Common.{
  ℕ, zero, suc, ◌+◌, ◌*◌, ◌-◌, ◌%◌, ◌^◌, ◌≤◌, ◌<◌, ◌≡◌, refl, true, false, Option, none, some, List,
  [], ◌∷◌, arith, if◌then◌else◌, ltb,
}

-- The values that the counter takes from `k` on while it is below `stop`; `none` when the fuel does
-- not suffice. Both are written with 32768 added.
unfoldable pub short_loop : ℕ → ℕ → ℕ → Option (List ℕ)
short_loop zero k stop = none
short_loop (suc fuel) k stop =
    let rest = short_loop fuel ((k + 1) % 2 ^ 16) stop in
    if ltb k stop then elim rest [ none ↦ none | some ks ↦ some (k ∷ ks) ] else some []

unfoldable pub neighbours : ℕ → ℕ → ℕ → Option (List ℕ)
unfolding short_loop
neighbours fuel c n = short_loop fuel ((c + 2 ^ 16 - n) % 2 ^ 16) (c + n + 1)

-- The `count` numbers from `k` on.
unfoldable pub from : ℕ → ℕ → List ℕ
from zero k = []
from (suc count) k = k ∷ from count (k + 1)

short_loop-from :
    (count fuel k stop : ℕ)
    → k + count ≡ stop
    → stop < 65536
    → count < fuel
    → short_loop fuel k stop ≡ some (from count k)
unfolding short_loop from
short_loop-from count zero k stop e low enough = ground arith
short_loop-from zero (suc fuel) k stop e low enough =
    let ends : ltb k stop ≡ false = ground arith in rw ends refl
short_loop-from (suc count) (suc fuel) k stop e low enough =
    let rest = short_loop-from count fuel (k + 1) stop (omega arith) low (omega arith) in
    let goes_on : ltb k stop ≡ true = ground arith in
    let next : (k + 1) % 65536 ≡ k + 1 = omega arith in rw (goes_on, next, rest) refl

short_loop-forever : (fuel k stop : ℕ) → k < 65536 → 65536 ≤ stop → short_loop fuel k stop ≡ none
unfolding short_loop
short_loop-forever zero k stop low high = refl
short_loop-forever (suc fuel) k stop low high =
    let rest = short_loop-forever fuel ((k + 1) % 2 ^ 16) stop (omega arith) high in
    let goes_on : ltb k stop ≡ true = ground arith in rw (goes_on, rest) refl

-- If the neighbours are within the range of a `short`, less its last value, then 2 n + 2 rounds are
-- enough, and the counter takes exactly the values from c - n to c + n, in order.
pub neighbours_lem :
    (c n : ℕ) → n ≤ c → c + n < 65535 → neighbours (2 * n + 2) c n ≡ some (from (2 * n + 1) (c - n))
unfolding neighbours
neighbours_lem c n low high =
    let start : (c + 65536 - n) % 65536 ≡ c - n = omega arith in
    rw start (
      short_loop-from (2 * n + 1) (2 * n + 2) (c - n) (c + n + 1) (omega arith) (omega arith)
        (omega arith))

-- If c + n is the last value of a `short` or beyond it, no number of rounds is enough: the loop does
-- not end.
pub neighbours-forever : (fuel c n : ℕ) → 65535 ≤ c + n → neighbours fuel c n ≡ none
unfolding neighbours
neighbours-forever fuel c n high =
    short_loop-forever fuel ((c + 65536 - n) % 65536) (c + n + 1) (omega arith) (omega arith)
