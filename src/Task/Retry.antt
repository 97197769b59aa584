-- ===== src/Task/Retry.antt =====
-- internal/task/retry.go: the retry budget, the backoff and the classification of a result.
-- Durations and times are counted in nanoseconds, as Go's time package does; `math.Pow(2, n)` and
-- its product with the base are exact in float64 at every n at which the result fits an int64. The
-- conversion of a float64 that does not fit is not fixed by Go: it is a parameter.
pub mod Backoff
use ai_edge.Prelude.{ℕ, zero, suc, ◌*◌, ◌/◌, ◌^◌, String, Bool, false, ◌==◌, ltb, if◌then◌else◌}
use ai_edge.Prelude.Int.{ℤ, pos, negsuc, ◌-ℤ◌, ltb_ℤ}

abbrev pub second : ℕ
second = 1_000_000_000

abbrev pub default_max_retries : ℕ
default_max_retries = 3

abbrev pub base_backoff_interval : ℕ
base_backoff_interval = 2 * second

abbrev pub max_backoff_interval : ℕ
max_backoff_interval = 60 * second

pub record RetryPolicy : Type 0 where
  pub max_retries : ℤ
  pub retry_count : ℤ
  pub timeout_seconds : ℤ

unfoldable pub can_retry : RetryPolicy → Bool
can_retry p = ltb_ℤ p.retry_count p.max_retries

-- time.Duration(x) of a float64 with a natural value: exact below 2 ^ 63.
unfoldable pub to_duration : (ℕ → ℤ) → ℕ → ℤ
to_duration overflow x = if ltb x (2 ^ 63) then pos x else overflow x

-- base * 2 ^ n; for a negative count a fraction of the base, cut to whole nanoseconds.
abbrev pub backoff_float : ℤ → ℕ
backoff_float (pos n) = base_backoff_interval * 2 ^ n
backoff_float (negsuc n) = base_backoff_interval / 2 ^ suc n

unfoldable pub next_backoff : (ℕ → ℤ) → RetryPolicy → ℤ
unfolding to_duration
next_backoff overflow p =
    let d = to_duration overflow (backoff_float p.retry_count) in
    if ltb_ℤ (pos max_backoff_interval) d then pos max_backoff_interval else d

unfoldable pub classify_result_status : String → RetryPolicy → String
classify_result_status err_msg p =
    if err_msg == "" then "Success" else if can_retry p then "Retrying" else "Failed"

-- `now` is the time at which `time.Since` reads the clock.
unfoldable pub timeout_exceeded : ℕ → ℕ → ℤ → Bool
timeout_exceeded now started (negsuc n) = false
timeout_exceeded now started (pos zero) = false
timeout_exceeded now started (pos (suc n)) = ltb_ℤ (pos (suc n * second)) (pos now -ℤ pos started)
