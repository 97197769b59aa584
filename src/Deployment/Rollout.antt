-- ===== src/Deployment/Rollout.antt =====
-- internal/deployment/rollout.go: how many nodes a rollout may update next. json.Unmarshal of the
-- two columns is a parameter, which gives no value where it returns an error. Go's int is an integer
-- here: counts of nodes stay far below its bound.
pub mod Bounds
use ai_edge.Prelude.{ℕ, String, Bool, true, false, ◌&&◌, Option, none, some, if◌then◌else◌}
use ai_edge.Prelude.Int.{ℤ, pos, negsuc, ◌+ℤ◌, ◌-ℤ◌, leb_ℤ, ltb_ℤ}
use ai_edge.Store.Schema.{DeploymentRow}
use ai_edge.Deployment.Json.{DeploymentStatus, Rollout, JsonTools}

-- if n < 0 { n = 0 }
unfoldable pub at_least_zero : ℤ → ℤ
at_least_zero (pos n) = pos n
at_least_zero (negsuc n) = pos 0

unfoldable pub max_or_one : ℤ → ℤ
max_or_one n = if leb_ℤ n (pos 0) then pos 1 else n

abbrev pub smaller : ℤ → ℤ → ℤ
smaller a b = if ltb_ℤ b a then b else a

abbrev pub batch : ℤ → Bool × ℤ
batch n = (ltb_ℤ (pos 0) n, n)

unfoldable pub proceed : DeploymentStatus → Rollout → Bool × ℤ
unfolding at_least_zero max_or_one
proceed st rollout =
    let limit = max_or_one rollout.max_unavailable in
    let unavailable = at_least_zero (st.desired_nodes -ℤ st.ready_nodes) in
    let remaining = at_least_zero (st.desired_nodes -ℤ st.ready_nodes -ℤ st.failed_nodes) in
    if leb_ℤ limit unavailable
    then (false, pos 0)
    else batch (smaller (limit -ℤ unavailable) remaining)

abbrev pub proceed_if : Option DeploymentStatus → Option Rollout → Bool × ℤ
proceed_if none r = (false, pos 0)
proceed_if (some st) none = (false, pos 0)
proceed_if (some st) (some r) = proceed st r

unfoldable pub can_proceed : JsonTools → DeploymentRow → Bool × ℤ
unfolding proceed
can_proceed tools row = proceed_if (tools.read_status row.status) (tools.read_rollout row.rollout)

abbrev pub complete : Option DeploymentStatus → Bool
complete none = false
complete (some st) = leb_ℤ st.desired_nodes (st.ready_nodes +ℤ st.failed_nodes)

unfoldable pub is_complete : JsonTools → DeploymentRow → Bool
is_complete tools row = complete (tools.read_status row.status)

abbrev pub phase_of : Option DeploymentStatus → String
phase_of none = "Failed"
phase_of (some st) =
    if leb_ℤ st.desired_nodes st.ready_nodes
    then "Active"
    else if ltb_ℤ (pos 0) st.failed_nodes
        && leb_ℤ st.desired_nodes (st.ready_nodes +ℤ st.failed_nodes)
    then "Failed"
    else "RollingOut"

unfoldable pub suggest_phase : JsonTools → DeploymentRow → String
suggest_phase tools row = phase_of (tools.read_status row.status)
