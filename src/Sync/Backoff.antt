-- ===== src/Sync/Backoff.antt =====
-- `computeBackoffMs`: the wait before the next attempt. `Math.random()` is `r / 2^53` with
-- `r < 2^53`, and the product is taken exactly before it is rounded down.
use blend_posv.Prelude.{ℕ, ◌+◌, ◌-◌, ◌*◌, ◌/◌, ◌^◌, ◌≤◌, ◌<◌, min, arith}
use native.Mathlib.Nat.{one-le-pow}
use blend_posv.Sync.{min_backoff_ms, max_backoff_ms}

abbrev pub random_scale : ℕ
random_scale = 2 ^ 53

-- `MIN_BACKOFF_MS * 2^max(0, tries - 1)`
unfoldable pub backoff_base : ℕ → ℕ
backoff_base tries = min_backoff_ms * 2 ^ (tries - 1)

-- `1 + jitter` is `(5 * 2^53 + 2 * r) / 2^55`.
unfoldable pub compute_backoff_ms : ℕ → ℕ → ℕ
compute_backoff_ms r tries =
    min max_backoff_ms (backoff_base tries * (5 * random_scale + 2 * r) / (4 * random_scale))

-- The scaled wait, for any base of five seconds or more.
scaled_bounds :
    (b r : ℕ)
    → 5000 ≤ b
    → r < random_scale
    → let wait = b * (5 * random_scale + 2 * r) / (4 * random_scale) in
      (6250 ≤ wait) × (4 * wait ≤ 7 * b)
scaled_bounds b r hb hr =
    let short : b * r ≤ b * random_scale = grind arith in (omega arith, omega arith)

backoff_base-le : (tries : ℕ) → 5000 ≤ backoff_base tries
unfolding backoff_base
backoff_base-le tries = omega (arith, one-le-pow (tries - 1) 2 (omega arith))

-- The wait is at least 6.25 seconds and at most 5 minutes, and at most 7/4 of the doubling base.
pub compute_backoff_ms_bounds :
    (r tries : ℕ)
    → r < random_scale
    → (6250 ≤ compute_backoff_ms r tries)
      × (compute_backoff_ms r tries ≤ 300_000)
      × (4 * compute_backoff_ms r tries ≤ 7 * backoff_base tries)
unfolding compute_backoff_ms
compute_backoff_ms_bounds r tries h =
    let (low, high) = scaled_bounds (backoff_base tries) r (backoff_base-le tries) h in
    (omega arith, omega arith, omega arith)
