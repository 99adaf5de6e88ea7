-- ===== src/RateLimiting.antt =====
-- rate_limiting.py: fixed-window counters, in Redis where it answers, else in the process. Times
-- are whole seconds, as `int(time.time())` has them; Redis is a parameter.
mod Counts
pub mod Window
pub mod Retry
mod Tests
use Prim.Native.Nat.{max}
use Prim.Native.String.{String}
use text.Mathlib.Text.{◌==◌ as str_eq}
use novaapi.Common.{
  ℕ, ◌+◌, ◌-◌, ◌*◌, ◌/◌, Bool, true, false, not, Option, none, some, List, [], ◌∷◌, ◌==◌, leb,
  if◌then◌else◌,
}
use novaapi.Errors.{Result, ok, err, rate_limited}

-- `_windows`: the start of the window and the count, for each key.
abbrev pub Windows : Type 0
Windows = List (String × (ℕ × ℕ))

-- `self._windows.get(key, default)`
unfoldable pub window_of : String → ℕ × ℕ → Windows → ℕ × ℕ
window_of key default [] = default
window_of key default ((k, v) ∷ ws) = if str_eq k key then v else window_of key default ws

-- `self._windows[key] = (start, count)`
unfoldable pub set_window : String → ℕ → ℕ → Windows → Windows
set_window key start count [] = (key, (start, count)) ∷ []
set_window key start count ((k, v) ∷ ws) =
    if str_eq k key then (key, (start, count)) ∷ ws else (k, v) ∷ set_window key start count ws

-- `(now // window_seconds) * window_seconds`. The source divides by zero where the length is 0; the
-- limits of the settings are not.
unfoldable pub window_start : ℕ → ℕ → ℕ
window_start now window_seconds = now / window_seconds * window_seconds

-- The seconds to wait that `hit` and `_check_redis` answer.
unfoldable pub retry_after : ℕ → ℕ → ℕ → ℕ
retry_after start window_seconds now = max (start + window_seconds - now) 1

-- The `get` of `hit` with the reset: what the counter of a key stands at before it counts.
unfoldable pub count_before : String → ℕ → Windows → ℕ
unfolding window_of
count_before key start ws =
    let (current_start, count) = window_of key (start, 0) ws in
    if not (current_start == start) then 0 else count

-- `_InMemoryWindowCounter.hit`
unfoldable pub hit : String → ℕ → ℕ → ℕ → Windows → (Bool × ℕ) × Windows
unfolding set_window window_start retry_after count_before
hit key limit window_seconds now ws =
    let start = window_start now window_seconds in
    let count = count_before key start ws + 1 in
    ((leb count limit, retry_after start window_seconds now), set_window key start count ws)

-- `_check_redis` on what `INCR` of the window's key answers, which is `none` where Redis raises.
unfoldable pub check_redis : ℕ → ℕ → ℕ → ℕ → Bool × ℕ
unfolding window_start retry_after
check_redis count limit window_seconds now =
    (leb count limit, retry_after (window_start now window_seconds) window_seconds now)

-- `RateLimiter._check`
unfoldable pub check : Option ℕ → String → ℕ → ℕ → ℕ → Windows → (Bool × ℕ) × Windows
unfolding hit check_redis
check none key limit window_seconds now ws = hit key limit window_seconds now ws
check (some count) key limit window_seconds now ws =
    (check_redis count limit window_seconds now, ws)

abbrev verdict : Bool × ℕ → Result (Unit {0})
verdict (allowed, retry) = if allowed then ok tt else err (rate_limited retry)

-- `RateLimiter.enforce`
unfoldable pub enforce : Option ℕ → String → ℕ → ℕ → ℕ → Windows → Result (Unit {0}) × Windows
unfolding check
enforce redis key limit window_seconds now ws =
    let (answer, ws') = check redis key limit window_seconds now ws in (verdict answer, ws')
