-- ===== src/RateLimiting/Retry.antt =====
-- The `Retry-After` that rate_limiting.py answers.
use Prim.Native.String.{String}
use novaapi.Common.{ℕ, ◌+◌, ◌≤◌, ◌<◌, Option, none, some, arith}
use novaapi.RateLimiting.{Windows, window_start, retry_after, check}

-- A time lies in its window, and within the length of it.
window_start_bounds :
    (now window_seconds : ℕ)
    → 0 < window_seconds
    → (window_start now window_seconds ≤ now)
      × (now < window_start now window_seconds + window_seconds)
unfolding window_start
window_start_bounds now window_seconds h = grind arith

-- Whether Redis answers or not, a caller is told to wait for at least a second and for no longer than
-- a window, which has a positive length.
pub check-retry_after_bounds :
    (redis : Option ℕ) (key : String) (limit window_seconds now : ℕ) (ws : Windows)
    → 0 < window_seconds
    → (1 ≤ (check redis key limit window_seconds now ws).0.1)
      × ((check redis key limit window_seconds now ws).0.1 ≤ window_seconds)
unfolding check retry_after
check-retry_after_bounds none key limit window_seconds now ws h =
    omega (arith, window_start_bounds now window_seconds h)
check-retry_after_bounds (some count) key limit window_seconds now ws h =
    omega (arith, window_start_bounds now window_seconds h)
