-- ===== src/Locate/Windows.antt =====
-- The windows `before` and `after`, in seconds before now.
use plaklet.Base.{ℕ, ◌-◌, ◌*◌, ◌≤◌, ◌<◌, ◌≡◌, pos, neg, u64_mod, mul_i64, neg_i64, arith}
use plaklet.Locate.Options.{window}

-- Up to 9223372036 seconds (292 years) the offset of a window is the exact number of nanoseconds.
pub window_exact : (secs : ℕ) → secs ≤ 9223372036 → window secs ≡ neg (secs * 1000000000)
unfolding window mul_i64 neg_i64
window_exact secs h = ground arith

-- From 9223372037 to 18446744073 seconds the product overflows to the positive offset of
-- 2^64 - secs * 10^9 nanoseconds, so that the cut-off, meant to lie before now, lies after now.
pub window_overflow :
    (secs : ℕ)
    → 9223372036 < secs
    → secs ≤ 18446744073
    → window secs ≡ pos (u64_mod - secs * 1000000000)
unfolding window mul_i64 neg_i64
window_overflow secs h h' = ground arith
