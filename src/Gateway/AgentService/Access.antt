-- ===== src/Gateway/AgentService/Access.antt =====
-- What internal/gateway/agent_service.go answers to a caller that names another node.
use ai_edge.Prelude.{◌≡◌, ◌≢◌, refl, String, false, ◌||◌, ◌==◌, arith, eq_iff}
use ai_edge.Proto.{permission_denied}
use ai_edge.Store.Errors.{Error, err, grpc}
use ai_edge.Store.Session.{Env, Session}
use ai_edge.Gateway.AgentService.{
  HeartbeatRequest, report_heartbeat, PullTasksRequest, pull_tasks, TaskResultRequest, TextTools,
  report_task_result, validate_authenticated_node,
}

abbrev pub mismatch : Error
mismatch = grpc permission_denied "node_id mismatch"

differs : (a b : String) → a ≢ b → (a == b) ≡ false
differs a b n = ground (arith, eq_iff a b, n)

module _ (env : Env) (caller : String) (s : Session) where
  refused :
      (node_id : String)
      → caller ≢ ""
      → caller ≢ node_id
      → (caller == "" || caller == node_id) ≡ false
  refused node_id named other =
      ground (arith, differs caller "" named, differs caller node_id other)

  -- An authenticated caller that names another node is refused by each of the three calls, before
  -- any statement is sent.
  pub agent_calls_denied :
      (beat : HeartbeatRequest) (gateway_id : String) (pull : PullTasksRequest) (tools : TextTools)
      (report : TaskResultRequest)
      → caller ≢ ""
      → (beat.node_id ≢ "") × (caller ≢ beat.node_id)
      → (pull.node_id ≢ "") × (caller ≢ pull.node_id)
      → (report.task_id ≢ "") × (report.node_id ≢ "") × (caller ≢ report.node_id)
      → (report_heartbeat env caller beat s ≡ (err mismatch, s))
        × (pull_tasks env gateway_id caller pull s ≡ (err mismatch, s))
        × (report_task_result env tools caller report s ≡ (err mismatch, s))
  unfolding report_heartbeat pull_tasks report_task_result validate_authenticated_node
  agent_calls_denied beat gateway_id pull tools report named (b, b') (p, p') (t, r, r') = (
    rw (differs beat.node_id "" b, refused beat.node_id named b') refl,
    rw (differs pull.node_id "" p, refused pull.node_id named p') refl,
    rw (differs report.task_id "" t, differs report.node_id "" r, refused report.node_id named r')
        refl,
  )
