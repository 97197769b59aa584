-- ===== src/Task/Service.antt =====
-- internal/task/service.go: the gRPC handlers of the task service, over the statements of Store.
-- strconv.Atoi and strconv.Itoa are parameters.
pub mod Cancel
pub mod Listing
use ai_edge.Prelude.{
  ℕ, zero, suc, String, concat, Option, none, some, List, [], ◌∷◌, map, ◌==◌, not, if◌then◌else◌,
}
use ai_edge.Prelude.Int.{ℤ, pos, negsuc, ◌+ℤ◌, ltb_ℤ}
use ai_edge.Proto.{
  TaskStatus, status_unspecified, cancelled, same_status, DispatchStatus, TaskScope,
  invalid_argument, not_found, already_exists, failed_precondition, internal,
}
use ai_edge.Pages.{PageRequest, positive_or, page_size_of, offset_of, next_token}
use ai_edge.Store.Errors.{
  Error, err_not_found, err_conflict, err_already_exists, err_precondition, detailed,
  invalid_transition, grpc, grpc_of, unwrap,
}
use ai_edge.Store.Schema.{TaskRow}
use ai_edge.Store.Session.{Env, Exec, pure, raise, guard, ◌>>=◌, ◌>>◌, on_error, with_tx}
use ai_edge.Task.Machine.{
  status_to_proto, proto_to_status, dispatch_to_proto, scope_to_proto, proto_to_scope, is_terminal,
  validate_transition,
}
use ai_edge.Task.Retry.{default_max_retries}
use ai_edge.Task.Store.{
  ListFilter, create_task, get_task, get_task_for_update, Scan, list_tasks, create_task_event,
  update_status,
}

pub record CreateTaskRequest : Type 0 where
  pub scope : TaskScope
  pub type : String
  pub target_gateway_id : String
  pub target_node_id : String
  pub payload : Option String
  pub max_retries : ℤ
  pub timeout_seconds : ℤ
  pub created_by : String

-- pb.Task. The counters are INT columns, which an int32 holds.
pub record TaskMessage : Type 0 where
  pub id : String
  pub parent_task_id : String
  pub scope : TaskScope
  pub type : String
  pub status : TaskStatus
  pub target_gateway_id : String
  pub target_node_id : String
  pub payload : Option String
  pub result : Option String
  pub dispatch_status : DispatchStatus
  pub max_retries : ℤ
  pub retry_count : ℕ
  pub timeout_seconds : ℤ
  pub created_by : String
  pub created_at : ℕ
  pub updated_at : ℕ

-- x.String of a sql.NullString.
abbrev pub text_or_empty : Option String → String
text_or_empty none = ""
text_or_empty (some s) = s

unfoldable pub row_to_proto : TaskRow → TaskMessage
row_to_proto r = record {
  id = r.id;
  parent_task_id = text_or_empty r.parent_task_id;
  scope = scope_to_proto r.scope;
  type = r.type;
  status = status_to_proto r.status;
  target_gateway_id = text_or_empty r.target_gateway_id;
  target_node_id = text_or_empty r.target_node_id;
  payload = r.payload;
  result = r.result;
  dispatch_status = dispatch_to_proto r.dispatch_status;
  max_retries = r.max_retries;
  retry_count = r.retry_count;
  timeout_seconds = r.timeout_seconds;
  created_by = r.created_by;
  created_at = r.created_at;
  updated_at = r.updated_at;
}

-- The switch on `errors.Is`; an *ErrInvalidTransition is a failed precondition too.
abbrev status_of : Error → Error → Error
status_of e err_not_found = grpc not_found "task not found"
status_of e err_precondition = grpc_of failed_precondition "" e
status_of e err_conflict = grpc_of already_exists "" e
status_of e err_already_exists = grpc_of already_exists "" e
status_of e (invalid_transition from to) = grpc_of failed_precondition "" e
status_of e other = grpc_of internal "" e

unfoldable pub err_to_status : Error → Error
err_to_status e = status_of e (unwrap e)

-- `if s != "" { NullString{s, true} }`
abbrev pub null_if_empty : String → Option String
null_if_empty s = if s == "" then none else some s

abbrev pub payload_or_object : Option String → String
payload_or_object none = "{}"
payload_or_object (some p) = p

abbrev pub or_raise {ℓ} : {A : Type ℓ} → Error → Option A → Exec A
or_raise e none = raise e
or_raise e (some a) = pure a

-- The row that CreateTask hands to the store; the table fills in the rest.
abbrev pub requested_row : CreateTaskRequest → String → TaskRow
requested_row req scope = record {
  id = "";
  parent_task_id = none;
  scope = scope;
  type = req.type;
  status = "Pending";
  target_gateway_id = null_if_empty req.target_gateway_id;
  target_node_id = null_if_empty req.target_node_id;
  payload = some (payload_or_object req.payload);
  result = none;
  dispatch_status = "Unclaimed";
  owner_instance = none;
  claim_expire_at = none;
  max_retries = positive_or default_max_retries req.max_retries;
  retry_count = 0;
  timeout_seconds = positive_or 600 req.timeout_seconds;
  idempotency_key = none;
  created_by = req.created_by;
  created_at = 0;
  updated_at = 0;
}

abbrev pub create_body : Env → TaskRow → Exec TaskRow
create_body env row = do
  created ← create_task env row
  create_task_event env created.id "created" "" "Pending" row.created_by
      (("type", row.type) ∷ ("scope", row.scope) ∷ [])
  pure created

unfoldable pub create_task_handler : Env → CreateTaskRequest → Exec TaskMessage
create_task_handler env req = do
  guard (not (req.type == "")) (grpc invalid_argument "type is required")
  scope ← or_raise (grpc invalid_argument "valid scope is required") (proto_to_scope req.scope)
  created ←
      on_error (grpc_of internal "create task")
        (with_tx env (create_body env (requested_row req scope)))
  pure (row_to_proto created)

unfoldable pub get_task_handler : Env → String → Exec TaskMessage
get_task_handler env id = do
  guard (not (id == "")) (grpc invalid_argument "id is required")
  row ← on_error err_to_status (get_task env id)
  pure (row_to_proto row)

abbrev pub cancel_body : Env → String → String → Exec TaskRow
cancel_body env id reason = do
  row ← get_task_for_update env id
  guard (not (is_terminal (status_to_proto row.status)))
      (detailed err_precondition (concat "task is already in terminal state: " row.status))
  guard (validate_transition (status_to_proto row.status) cancelled)
      (invalid_transition (status_to_proto row.status) cancelled)
  update_status env row.id row.status "Cancelled" "user" (("reason", reason) ∷ [])
  pure (record row { status = "Cancelled" })

unfoldable pub cancel_task_handler : Env → String → String → Exec TaskMessage
cancel_task_handler env id reason = do
  guard (not (id == "")) (grpc invalid_argument "id is required")
  row ← on_error err_to_status (with_tx env (cancel_body env id reason))
  pure (row_to_proto row)

pub record ListTasksRequest : Type 0 where
  pub target_gateway_id : String
  pub target_node_id : String
  pub status : TaskStatus
  pub type : String
  pub page : Option PageRequest

pub record ListTasksResponse : Type 0 where
  pub tasks : List TaskMessage
  pub next_page_token : String
  pub total_count : ℕ

abbrev pub filter_of : (String → Option ℤ) → ListTasksRequest → ListFilter
filter_of atoi req = record {
  target_gateway_id = req.target_gateway_id;
  target_node_id = req.target_node_id;
  status = if same_status req.status status_unspecified then "" else proto_to_status req.status;
  type = req.type;
  limit = page_size_of req.page;
  offset = offset_of atoi req.page;
}

unfoldable pub list_tasks_handler :
    Env → Scan → (String → Option ℤ) → (ℤ → String) → ListTasksRequest → Exec ListTasksResponse
list_tasks_handler env scan atoi itoa req = do
  (rows, total) ←
      on_error (grpc_of internal "list tasks") (list_tasks env scan (filter_of atoi req))
  pure (record {
    tasks = map row_to_proto rows;
    next_page_token = next_token itoa (offset_of atoi req.page +ℤ page_size_of req.page) total;
    total_count = total;
  })
