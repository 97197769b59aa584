-- ===== src/Gateway/Dispatcher.antt =====
-- internal/gateway/dispatcher.go: a regional task becomes one task for each target node, which the
-- gateway claims for itself.
pub mod Expand
use ai_edge.Prelude.{
  ℕ, suc, ◌+◌, ◌*◌, String, concat, Bool, true, false, not, Option, none, some, List, [], ◌∷◌, ◌==◌,
  eqb, if◌then◌else◌,
}
use ai_edge.Prelude.Int.{pos}
use ai_edge.Proto.{invalid_argument, permission_denied}
use ai_edge.Store.Errors.{Result, ok, err, grpc}
use ai_edge.Store.Schema.{TaskRow}
use ai_edge.Store.Session.{Env, Exec, pure, guard, ◌>>=◌, ◌>>◌, with_tx}
use ai_edge.Task.Retry.{second, default_max_retries}
use ai_edge.Task.Store.{create_task, create_task_event, atomic_claim, mark_delivered}

pub record Dispatcher : Type 0 where
  pub gateway_id : String
  pub claim_duration : ℕ

unfoldable pub new_dispatcher : (gateway_id : String) → (claim_duration : ℕ) → Dispatcher
new_dispatcher gateway_id claim_duration = record {
  gateway_id = gateway_id;
  claim_duration = if eqb claim_duration 0 then 300 * second else claim_duration;
}

pub record PushRequest : Type 0 where
  pub task_id : String
  pub gateway_id : String
  pub type : String
  pub payload : Option String
  pub target_node_ids : List String

pub record PushResponse : Type 0 where
  pub expanded_count : ℕ
  pub claimed_count : ℕ

-- The row that is handed to CreateTask.
abbrev pub node_row : Dispatcher → PushRequest → String → TaskRow
node_row d req node_id = record {
  id = "";
  parent_task_id = some req.task_id;
  scope = "Node";
  type = req.type;
  status = "Pending";
  target_gateway_id = some d.gateway_id;
  target_node_id = some node_id;
  payload = req.payload;
  result = none;
  dispatch_status = "Unclaimed";
  owner_instance = none;
  claim_expire_at = none;
  max_retries = pos default_max_retries;
  retry_count = 0;
  timeout_seconds = pos 600;
  idempotency_key = none;
  created_by = concat "gateway:" d.gateway_id;
  created_at = 0;
  updated_at = 0;
}

abbrev pub delivered_if : Env → String → Bool → Exec Bool
delivered_if env id true = do mark_delivered env id; pure true
delivered_if env id false = pure false

abbrev pub expand_body : Env → Dispatcher → PushRequest → String → Exec Bool
expand_body env d req node_id = do
  row ← create_task env (node_row d req node_id)
  create_task_event env row.id "expanded" "" "Pending" (concat "gateway:" d.gateway_id)
      (("parent_task_id", req.task_id) ∷ ("node_id", node_id) ∷ [])
  won ← atomic_claim env row.id d.gateway_id d.claim_duration
  delivered_if env row.id won

unfoldable pub expand_and_claim : Env → Dispatcher → PushRequest → String → Exec Bool
expand_and_claim env d req node_id = with_tx env (expand_body env d req node_id)

abbrev pub counted : Result Bool → PushResponse → PushResponse
counted (err e) n = n
counted (ok true) n = record {
  expanded_count = suc n.expanded_count;
  claimed_count = suc n.claimed_count;
}
counted (ok false) n = record n { expanded_count = suc n.expanded_count }

-- The loop: a node that fails is logged and left out.
unfoldable pub expand_all :
    Env → Dispatcher → PushRequest → List String → PushResponse → Exec PushResponse
unfolding expand_and_claim
expand_all env d req [] n s = (ok n, s)
expand_all env d req (node_id ∷ rest) n s =
    let (r, s') = expand_and_claim env d req node_id s in expand_all env d req rest (counted r n) s'

unfoldable pub push_regional_task : Env → Dispatcher → PushRequest → Exec PushResponse
unfolding expand_all
push_regional_task env d req = do
  guard (not (req.task_id == "")) (grpc invalid_argument "task_id is required")
  guard (not (req.gateway_id == "")) (grpc invalid_argument "gateway_id is required")
  guard (req.gateway_id == d.gateway_id) (grpc permission_denied "gateway_id mismatch")
  expand_all env d req req.target_node_ids (record { expanded_count = 0; claimed_count = 0 })

-- The node statuses of the request are only logged.
unfoldable pub sync_gateway_status : Dispatcher → (gateway_id : String) → Exec (Unit {0})
sync_gateway_status d gateway_id = do
  guard (not (gateway_id == "")) (grpc invalid_argument "gateway_id is required")
  guard (gateway_id == d.gateway_id) (grpc permission_denied "gateway_id mismatch")
