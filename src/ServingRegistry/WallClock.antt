-- ===== src/ServingRegistry/WallClock.antt =====
-- serving_registry.py, `derive_wall_clock_s`: the wall clock of a registered turn cap.
use model_eval.Prelude.{ℕ, ◌+◌, ◌*◌, ◌%◌, ◌≤◌, ◌<◌, ◌≡◌, arith, ok}
use model_eval.Prelude.Int.{pos}
use model_eval.ServingRegistry.{derive_wall_clock_s}

-- The wall clock of a turn cap n of at most 10 ^ 12, up to which the code's floats round up as exact
-- numbers do, is a whole number of ten minutes, not below n times 157 seconds with half as much again, and
-- less than ten minutes above that. (Both sides are doubled: 157 * 1.5 is 471 / 2.)
pub derive_wall_clock_s-bounds :
    (n s : ℕ)
    → n ≤ 1000000000000
    → derive_wall_clock_s (pos n) ≡ ok s
    → (s % 600 ≡ 0) × (n * 471 ≤ 2 * s) × (2 * s < n * 471 + 1200)
unfolding derive_wall_clock_s
derive_wall_clock_s-bounds n s l h = ground (arith, h)

-- A larger turn cap never has a shorter wall clock.
pub derive_wall_clock_s-monotone :
    (m n s t : ℕ)
    → m ≤ n
    → derive_wall_clock_s (pos m) ≡ ok s
    → derive_wall_clock_s (pos n) ≡ ok t
    → s ≤ t
unfolding derive_wall_clock_s
derive_wall_clock_s-monotone m n s t l h k = ground (arith, l, h, k)
