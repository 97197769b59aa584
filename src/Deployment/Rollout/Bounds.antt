-- ===== src/Deployment/Rollout/Bounds.antt =====
-- The bounds of internal/deployment/rollout.go, for the counts that are not negative.
use ai_edge.Prelude.{
  ℕ, ◌+◌, ◌≤◌, ◌<◌, ◌≡◌, ◌≢◌, ◌↔◌, refl, String, true, some, arith, Bool-cases, inl, inr, ap, ap₂,
  sym, ◌∙◌, if◌then◌else◌, ◌&&◌, leb, ltb,
}
use ai_edge.Prelude.Int.{ℤ, pos, ◌+ℤ◌, leb_ℤ, ltb_ℤ}
use ai_edge.Store.Schema.{DeploymentRow}
use ai_edge.Deployment.Json.{DeploymentStatus, Rollout, JsonTools}
use ai_edge.Deployment.Rollout.{
  at_least_zero, max_or_one, complete, phase_of, proceed_if, proceed, can_proceed, is_complete,
  suggest_phase,
}

abbrev pub counts : String → (desired ready failed : ℕ) → DeploymentStatus
counts phase desired ready failed = record {
  phase = phase;
  desired_nodes = pos desired;
  ready_nodes = pos ready;
  failed_nodes = pos failed;
}

abbrev pub limit : ℕ → Rollout
limit max_unavailable = record { max_unavailable = pos max_unavailable }

abbrev phase_text : (desired ready failed : ℕ) → String
phase_text desired ready failed =
    if leb desired ready
    then "Active"
    else if ltb 0 failed && leb desired (ready + failed)
    then "Failed"
    else "RollingOut"

text_iff :
    (desired ready failed : ℕ)
    → (leb desired (ready + failed) ≡ true) ↔ (phase_text desired ready failed ≢ "RollingOut")
text_iff desired ready failed = elim (Bool-cases (leb desired ready)) [
  | inl e ↦ rw e (λ k r. cc, λ k. ground (arith, e))
  | inr e ↦ elim (Bool-cases (ltb 0 failed && leb desired (ready + failed))) [
    | inl e' ↦ rw (e, e') (λ k r. cc, λ k. ground (arith, e'))
    | inr e' ↦ rw (e, e') (λ k r. ground (arith, k, e, e'), λ k. absurd (k refl))
  ]
]

module _ (phase : String) (desired ready failed : ℕ) where
  sum_eq : pos ready +ℤ pos failed ≡ pos (ready + failed)
  sum_eq = ground arith

  complete_eq : complete (some (counts phase desired ready failed)) ≡ leb desired (ready + failed)
  complete_eq = ap (λ (z : ℤ). leb_ℤ (pos desired) z) sum_eq ∙ ground arith

  phase_eq : phase_of (some (counts phase desired ready failed)) ≡ phase_text desired ready failed
  phase_eq =
      ap
        (λ (z : ℤ).
          if leb_ℤ (pos desired) (pos ready)
          then "Active"
          else if ltb_ℤ (pos 0) (pos failed) && leb_ℤ (pos desired) z
          then "Failed"
          else "RollingOut")
        sum_eq
      ∙ ground arith

  bounds :
      (max_unavailable n : ℕ)
      → 0 < max_unavailable
      → proceed (counts phase desired ready failed) (limit max_unavailable) ≡ (true, pos n)
      → (0 < n) × (desired + n ≤ ready + max_unavailable) × (ready + failed + n ≤ desired)
  unfolding proceed at_least_zero max_or_one
  bounds max_unavailable n l h = ground (arith, l, h)

module _ (tools : JsonTools) (row : DeploymentRow) (phase : String) (desired ready failed : ℕ) where
  -- A batch that CanProceed allows is not empty, keeps the nodes that are not ready within the
  -- limit when it is taken, and has no more nodes than are left.
  pub can_proceed-bounds :
      (max_unavailable n : ℕ)
      → tools.read_status row.status ≡ some (counts phase desired ready failed)
      → tools.read_rollout row.rollout ≡ some (limit max_unavailable)
      → 0 < max_unavailable
      → can_proceed tools row ≡ (true, pos n)
      → (0 < n) × (desired + n ≤ ready + max_unavailable) × (ready + failed + n ≤ desired)
  unfolding can_proceed proceed at_least_zero max_or_one
  can_proceed-bounds max_unavailable n e e' l h =
      bounds phase desired ready failed max_unavailable n l (sym (ap₂ proceed_if e e') ∙ h)

  -- A deployment is complete exactly if the suggested phase is a final one.
  pub suggest_phase-is_complete :
      tools.read_status row.status ≡ some (counts phase desired ready failed)
      → (is_complete tools row ≡ true) ↔ (suggest_phase tools row ≢ "RollingOut")
  unfolding is_complete suggest_phase
  suggest_phase-is_complete e =
      let c : is_complete tools row ≡ leb desired (ready + failed) =
        ap complete e ∙ complete_eq phase desired ready failed in
      let p : suggest_phase tools row ≡ phase_text desired ready failed =
        ap phase_of e ∙ phase_eq phase desired ready failed in
      let (to, from) = text_iff desired ready failed in
      (λ k r. to (sym c ∙ k) (sym p ∙ r), λ k. c ∙ from (λ r. k (p ∙ r)))
