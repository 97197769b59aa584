-- ===== src/Gateway/AgentService.antt =====
-- internal/gateway/agent_service.go: heartbeats, the delivery of tasks to agents, and their results.
-- `caller` is the node id that the mTLS interceptor left in the context, empty if there is none.
-- strings.ToLower after strings.TrimSpace, json.Valid and the json.Marshal of a raw result are
-- parameters. ReportMetrics and ReportRuntimeState hand over to internal/observability.
pub mod Access
pub mod Pull
pub mod Report
use ai_edge.Prelude.{
  ℕ, zero, suc, ◌+◌, String, concat, Bool, true, false, ◌&&◌, ◌||◌, not, Option, none, some, List,
  [], ◌∷◌, ◌==◌, leb, ltb, if◌then◌else◌, take, find_row, where_rows, update_rows, count_rows,
  order_by,
}
use ai_edge.Prelude.Int.{ℤ, pos, negsuc}
use ai_edge.Proto.{invalid_argument, not_found, permission_denied, internal}
use ai_edge.Store.Errors.{Error, wrap, grpc, grpc_of}
use ai_edge.Store.Schema.{Db, TaskRow, NodeRow}
use ai_edge.Store.Session.{
  Env, Exec, Outcome, done, pure, raise, guard, ◌>>=◌, ◌>>◌, on_error, statement, autocommit,
  select, with_tx,
}
use ai_edge.Task.Store.{
  has_id, update_tasks, get_task_for_update, latest_attempt, create_task_run, update_task_run,
  update_result, create_task_event,
}

-- A call that no certificate was checked for carries no node id, and is let through.
unfoldable pub validate_authenticated_node : String → String → Exec (Unit {0})
validate_authenticated_node caller node_id =
    guard (caller == "" || caller == node_id) (grpc permission_denied "node_id mismatch")

pub record HeartbeatRequest : Type 0 where
  pub node_id : String
  pub agent_version : String
  pub timestamp : Option ℕ

abbrev pub node_has_id : String → NodeRow → Bool
node_has_id id r = r.id == id

abbrev pub seen_at : Env → Option ℕ → ℕ
seen_at env none = env.time_now
seen_at env (some t) = t

abbrev pub seen_row : Env → HeartbeatRequest → NodeRow → NodeRow
seen_row env req r = record r {
  online = true;
  agent_version = req.agent_version;
  last_seen_at = some (seen_at env req.timestamp);
  updated_at = env.now;
}

abbrev update_node : Env → HeartbeatRequest → String → Db → Outcome ℕ
update_node env req id db = done (count_rows (node_has_id req.node_id) db.edge_nodes) (record db {
  edge_nodes = update_rows (node_has_id req.node_id) (seen_row env req) db.edge_nodes;
})

-- The answer is the server's time.
unfoldable pub report_heartbeat : Env → String → HeartbeatRequest → Exec ℕ
report_heartbeat env caller req = do
  guard (not (req.node_id == "")) (grpc invalid_argument "node_id is required")
  validate_authenticated_node caller req.node_id
  rows ← on_error (grpc_of internal "update heartbeat") (autocommit env (update_node env req))
  guard (ltb 0 rows) (grpc not_found "node not found")
  pure env.time_now

pub record PullTasksRequest : Type 0 where
  pub node_id : String
  pub max_tasks : ℤ

pub record NodeTask : Type 0 where
  pub task_id : String
  pub type : String
  pub payload : Option String
  pub timeout_seconds : ℤ

unfoldable pub clamp_max : ℤ → ℕ
clamp_max (negsuc n) = 10
clamp_max (pos zero) = 10
clamp_max (pos (suc n)) = if ltb 100 (suc n) then 100 else suc n

abbrev pub is_text : String → Option String → Bool
is_text s none = false
is_text s (some t) = t == s

abbrev null_or_text : String → Option String → Bool
null_or_text s none = true
null_or_text s (some t) = t == s

-- The WHERE clause: a task of the node, waiting, and bound to no other gateway.
unfoldable pub deliverable : String → String → TaskRow → Bool
deliverable gateway_id node_id r =
    r.scope == "Node"
    && (is_text node_id r.target_node_id
        && ((r.status == "Pending" || r.status == "Retrying")
            && null_or_text gateway_id r.target_gateway_id))

abbrev pub oldest_first : TaskRow → TaskRow → Bool
oldest_first a b = leb a.created_at b.created_at

unfoldable pub waiting_tasks : String → PullTasksRequest → Db → List TaskRow
waiting_tasks gateway_id req db =
    take (clamp_max req.max_tasks)
      (order_by oldest_first (where_rows (deliverable gateway_id req.node_id) db.tasks))

abbrev coalesce {ℓ} : {A : Type ℓ} → Option A → A → A
coalesce none a = a
coalesce (some b) a = b

abbrev pub running_row : Env → String → TaskRow → TaskRow
running_row env actor r = record r {
  status = "Running";
  dispatch_status = "Delivered";
  owner_instance = some (coalesce r.owner_instance actor);
  updated_at = env.now;
}

abbrev pub node_task : TaskRow → NodeTask
node_task r = record {
  task_id = r.id;
  type = r.type;
  payload = r.payload;
  timeout_seconds = r.timeout_seconds;
}

-- One round of the loop over the rows. The event says "Pending" also of a task that was Retrying.
unfoldable pub deliver : Env → String → String → TaskRow → Exec (Unit {0})
deliver env gateway_id node_id row = do
  n ← on_error (wrap "mark task running") (
      statement env (update_tasks (has_id row.id) (running_row env (concat "gateway:" gateway_id))))
  on_error (wrap "create delivery event") (
      create_task_event env row.id "delivered" "Pending" "Running" (concat "gateway:" gateway_id)
        (("node_id", node_id) ∷ ("gateway_id", gateway_id) ∷ []))

unfoldable pub deliver_all : Env → String → String → List TaskRow → Exec (List NodeTask)
deliver_all env gateway_id node_id [] = pure []
deliver_all env gateway_id node_id (row ∷ rows) = do
  deliver env gateway_id node_id row
  rest ← deliver_all env gateway_id node_id rows
  pure (node_task row ∷ rest)

abbrev pub pull_body : Env → String → PullTasksRequest → Exec (List NodeTask)
pull_body env gateway_id req = do
  rows ← on_error (wrap "query node tasks") (select env (waiting_tasks gateway_id req))
  deliver_all env gateway_id req.node_id rows

unfoldable pub pull_tasks : Env → String → String → PullTasksRequest → Exec (List NodeTask)
pull_tasks env gateway_id caller req = do
  guard (not (req.node_id == "")) (grpc invalid_argument "node_id is required")
  validate_authenticated_node caller req.node_id
  tasks ← on_error (grpc_of internal "pull tasks") (with_tx env (pull_body env gateway_id req))
  pure tasks

pub record TaskResultRequest : Type 0 where
  pub task_id : String
  pub node_id : String
  pub status : String
  pub error_message : String
  pub result : String

-- What the handler takes from Go's strings and encoding/json.
pub record TextTools : Type 0 where
  pub lower_trimmed : String → String
  pub json_valid : String → Bool
  pub raw_result : String → String

unfoldable pub normalize_reported_status : TextTools → String → Option String
normalize_reported_status tools raw =
    let s = tools.lower_trimmed raw in
    if s == "success"
    then some "Success"
    else if s == "failed" || s == "failure"
    then some "Failed"
    else if s == "cancelled" || s == "canceled"
    then some "Cancelled"
    else if s == "timeout"
    then some "Timeout"
    else if s == "partiallysucceeded" || (s == "partially_succeeded" || s == "partially-succeeded")
    then some "PartiallySucceeded"
    else none

abbrev supported : Option String → Exec String
supported none = raise (grpc invalid_argument "unsupported task status")
supported (some s) = pure s

unfoldable pub result_json : TextTools → String → String
result_json tools result =
    if result == ""
    then "{}"
    else if tools.json_valid result
    then result
    else tools.raw_result result

abbrev pub report_body : Env → TaskResultRequest → String → String → Exec (Unit {0})
report_body env req new_status json = do
  row ← get_task_for_update env req.task_id
  guard (is_text req.node_id row.target_node_id)
      (grpc permission_denied "task does not belong to node")
  attempt ← latest_attempt env row.id
  run ← create_task_run env row.id req.node_id (attempt + 1)
  update_task_run env run.id new_status req.error_message (some json)
  update_result env row.id new_status (some json) row.retry_count
  create_task_event env row.id "result_reported" row.status new_status (concat "agent:" req.node_id)
      (("node_id", req.node_id) ∷ ("error_message", req.error_message) ∷ [])

-- An error that is a gRPC status already is passed on.
abbrev pub report_error : Error → Error
report_error (grpc c text) = grpc c text
report_error (grpc_of c text e) = grpc_of c text e
report_error e = grpc_of internal "report task result" e

unfoldable pub report_task_result : Env → TextTools → String → TaskResultRequest → Exec (Unit {0})
report_task_result env tools caller req = do
  guard (not (req.task_id == "")) (grpc invalid_argument "task_id is required")
  guard (not (req.node_id == "")) (grpc invalid_argument "node_id is required")
  validate_authenticated_node caller req.node_id
  new_status ← supported (normalize_reported_status tools req.status)
  u ←
      on_error report_error
        (with_tx env (report_body env req new_status (result_json tools req.result)))
  pure u
