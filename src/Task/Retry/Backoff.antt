-- ===== src/Task/Retry/Backoff.antt =====
-- The backoff, the classification and the time limit of internal/task/retry.go.
use Prim.Native.Nat.{min}
use native.Mathlib.Nat.{pow-le-pow_right}
use ai_edge.Prelude.{
  ℕ, ◌*◌, ◌^◌, ◌≤◌, ◌≡◌, refl, ◌↔◌, ◌⊎◌, inl, inr, String, true, false, arith, ◌==◌, eq_iff,
  Bool-cases,
}
use ai_edge.Prelude.Int.{ℤ, pos}
use ai_edge.Proto.{running}
use ai_edge.Task.Machine.{status_to_proto, validate_transition}
use ai_edge.Task.Retry.{
  base_backoff_interval, max_backoff_interval, RetryPolicy, can_retry, next_backoff,
  classify_result_status,
}

pow_below : (n : ℕ) → n ≤ 32 → 2 ^ n ≤ 2 ^ 32
pow_below n h = pow-le-pow_right (omega arith) h

-- With a retry count from 0 to 32 the backoff is the base doubled once for each retry, and at most
-- the cap, whatever the machine does with a float that does not fit.
pub next_backoff-eq-min :
    (overflow : ℕ → ℤ) (p : RetryPolicy) (n : ℕ)
    → p.retry_count ≡ pos n
    → n ≤ 32
    → next_backoff overflow p ≡ pos (min (base_backoff_interval * 2 ^ n) max_backoff_interval)
unfolding next_backoff
next_backoff-eq-min overflow p n e h = ground (arith, pow_below n h)

-- The status that a result is given is one that a running task may take directly exactly when the
-- result is not an error or the retry budget is spent: the state machine has no way from Running to
-- Retrying.
pub classify-validate_transition :
    (err_msg : String) (p : RetryPolicy)
    → (validate_transition running (status_to_proto (classify_result_status err_msg p)) ≡ true)
      ↔ ((err_msg ≡ "") ⊎ (can_retry p ≡ false))
unfolding validate_transition status_to_proto classify_result_status
classify-validate_transition err_msg p = elim (Bool-cases (err_msg == "")) [
  | inl e ↦ rw e (λ _. inl ((eq_iff err_msg "").0 e), λ _. refl)
  | inr e ↦ rw e (elim (Bool-cases (can_retry p)) [
    | inl c ↦ rw c (λ h. cc, λ h. elim h [ inl q ↦ cc ((eq_iff err_msg "").1 q) | inr q ↦ cc ])
    | inr c ↦ rw c (λ h. inr refl, λ h. refl)
  ])
]
