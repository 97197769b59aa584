-- ===== src/Deployment/Service.antt =====
-- internal/deployment/service.go: the gRPC handlers of deployments, over the statements of Store.
use ai_edge.Prelude.{ℕ, String, Option, none, some, List, [], ◌∷◌, map, ◌==◌, not, if◌then◌else◌}
use ai_edge.Prelude.Int.{ℤ, pos, ◌+ℤ◌, int32_of}
use ai_edge.Proto.{
  DeploymentPhase, phase_unspecified, phase_pending, rolling_out, active, phase_failed, paused,
  unknown_phase, invalid_argument, not_found, already_exists, failed_precondition, internal,
}
use ai_edge.Pages.{PageRequest, positive_or, page_size_of, offset_of, next_token}
use ai_edge.Store.Errors.{
  Error, err_not_found, err_conflict, err_already_exists, err_precondition, grpc, grpc_of,
}
use ai_edge.Store.Schema.{DeploymentRow}
use ai_edge.Store.Session.{Env, Exec, pure, guard, ◌>>=◌, ◌>>◌, on_error, with_tx}
use ai_edge.Deployment.Json.{DeploymentStatus, Rollout, Target, JsonTools}
use ai_edge.Deployment.Store.{
  DeploymentListFilter, create_deployment, get_deployment, get_deployment_for_update,
  list_deployments, update_deployment,
}

-- A phase that the map lacks reads as the empty text.
unfoldable pub phase_to_text : DeploymentPhase → String
phase_to_text phase_unspecified = ""
phase_to_text phase_pending = "Pending"
phase_to_text rolling_out = "RollingOut"
phase_to_text active = "Active"
phase_to_text phase_failed = "Failed"
phase_to_text paused = "Paused"
phase_to_text (unknown_phase n) = ""

unfoldable pub text_to_phase : String → DeploymentPhase
text_to_phase s =
    if s == "Pending"
    then phase_pending
    else if s == "RollingOut"
    then rolling_out
    else if s == "Active"
    then active
    else if s == "Failed"
    then phase_failed
    else if s == "Paused"
    then paused
    else phase_unspecified

pub record TargetMessage : Type 0 where
  pub gateway_ids : List String
  -- match_labels of the label selector, where there is one.
  pub label_selector : Option (List (String × String))

pub record StatusMessage : Type 0 where
  pub desired_nodes : ℤ
  pub ready_nodes : ℤ
  pub failed_nodes : ℤ
  pub phase : DeploymentPhase

-- pb.ModelDeployment; `rollout` is the max_unavailable of its RolloutConfig.
pub record DeploymentMessage : Type 0 where
  pub id : String
  pub model_name : String
  pub model_version : String
  pub runtime : String
  pub target : Option TargetMessage
  pub rollout : Option ℤ
  pub status : Option StatusMessage
  pub created_at : ℕ
  pub updated_at : ℕ

abbrev pub selector_message : List (String × String) → Option (List (String × String))
selector_message [] = none
selector_message (x ∷ xs) = some (x ∷ xs)

abbrev pub target_message : Option Target → Option TargetMessage
target_message none = none
target_message (some t) =
    some
      (record { gateway_ids = t.gateway_ids; label_selector = selector_message t.label_selector })

abbrev pub rollout_message : Option Rollout → Option ℤ
rollout_message none = none
rollout_message (some r) = some (int32_of r.max_unavailable)

abbrev pub status_message : Option DeploymentStatus → Option StatusMessage
status_message none = none
status_message (some st) = some (record {
  desired_nodes = int32_of st.desired_nodes;
  ready_nodes = int32_of st.ready_nodes;
  failed_nodes = int32_of st.failed_nodes;
  phase = text_to_phase st.phase;
})

unfoldable pub deployment_to_proto : JsonTools → DeploymentRow → DeploymentMessage
deployment_to_proto json r = record {
  id = r.id;
  model_name = r.model_name;
  model_version = r.model_version;
  runtime = r.runtime;
  target = target_message (json.read_target r.target);
  rollout = rollout_message (json.read_rollout r.rollout);
  status = status_message (json.read_status r.status);
  created_at = r.created_at;
  updated_at = r.updated_at;
}

-- The switch compares with `==`, so a wrapped sentinel is an internal error.
unfoldable pub deployment_error : Error → Error
deployment_error err_not_found = grpc not_found "deployment not found"
deployment_error err_precondition = grpc_of failed_precondition "" err_precondition
deployment_error err_already_exists = grpc_of already_exists "" err_already_exists
deployment_error err_conflict = grpc_of already_exists "" err_conflict
deployment_error e = grpc_of internal "" e

-- `rollout` is the max_unavailable of the request's RolloutConfig.
pub record CreateDeploymentRequest : Type 0 where
  pub model_name : String
  pub model_version : String
  pub runtime : String
  pub target : Option TargetMessage
  pub rollout : Option ℤ

abbrev pub labels_or_none : Option (List (String × String)) → List (String × String)
labels_or_none none = []
labels_or_none (some ls) = ls

abbrev pub requested_target : Option TargetMessage → Target
requested_target none = record { gateway_ids = []; label_selector = [] }
requested_target (some t) = record {
  gateway_ids = t.gateway_ids;
  label_selector = labels_or_none t.label_selector;
}

abbrev pub requested_rollout : Option ℤ → Rollout
requested_rollout none = record { max_unavailable = pos 1 }
requested_rollout (some n) = record { max_unavailable = positive_or 1 n }

abbrev pub fresh_status : DeploymentStatus
fresh_status = record {
  phase = "Pending";
  desired_nodes = pos 0;
  ready_nodes = pos 0;
  failed_nodes = pos 0;
}

abbrev pub requested_deployment : JsonTools → CreateDeploymentRequest → DeploymentRow
requested_deployment json req = record {
  id = "";
  model_name = req.model_name;
  model_version = req.model_version;
  target = json.write_target (requested_target req.target);
  runtime = if req.runtime == "" then "auto" else req.runtime;
  rollout = json.write_rollout (requested_rollout req.rollout);
  status = json.write_status fresh_status;
  created_at = 0;
  updated_at = 0;
}

unfoldable pub create_deployment_handler :
    Env → JsonTools → CreateDeploymentRequest → Exec DeploymentMessage
create_deployment_handler env json req = do
  guard (not (req.model_name == "")) (grpc invalid_argument "model_name is required")
  guard (not (req.model_version == "")) (grpc invalid_argument "model_version is required")
  row ←
      on_error (grpc_of internal "create deployment")
        (create_deployment env (requested_deployment json req))
  pure (deployment_to_proto json row)

unfoldable pub get_deployment_handler : Env → JsonTools → String → Exec DeploymentMessage
get_deployment_handler env json id = do
  guard (not (id == "")) (grpc invalid_argument "id is required")
  row ← on_error deployment_error (get_deployment env id)
  pure (deployment_to_proto json row)

pub record ListDeploymentsRequest : Type 0 where
  pub model_name : String
  pub phase : DeploymentPhase
  pub page : Option PageRequest

pub record ListDeploymentsResponse : Type 0 where
  pub deployments : List DeploymentMessage
  pub next_page_token : String
  pub total_count : ℕ

abbrev pub deployment_filter : (String → Option ℤ) → ListDeploymentsRequest → DeploymentListFilter
deployment_filter atoi req = record {
  model_name = req.model_name;
  phase = phase_to_text req.phase;
  limit = page_size_of req.page;
  offset = offset_of atoi req.page;
}

unfoldable pub list_deployments_handler :
    Env
    → JsonTools
    → (String → Option ℤ)
    → (ℤ → String)
    → ListDeploymentsRequest
    → Exec ListDeploymentsResponse
list_deployments_handler env json atoi itoa req = do
  (rows, total) ←
      on_error (grpc_of internal "list deployments")
        (list_deployments env json (deployment_filter atoi req))
  pure (record {
    deployments = map (deployment_to_proto json) rows;
    next_page_token = next_token itoa (offset_of atoi req.page +ℤ page_size_of req.page) total;
    total_count = total;
  })

pub record UpdateDeploymentRequest : Type 0 where
  pub id : String
  pub runtime : String
  pub rollout : Option ℤ
  pub phase : DeploymentPhase

abbrev pub updated_rollout : JsonTools → Option ℤ → String → String
updated_rollout json none old = old
updated_rollout json (some n) old = json.write_rollout (record { max_unavailable = n })

-- A phase that the map lacks is written as the empty text.
abbrev pub updated_status : JsonTools → DeploymentPhase → String → String
updated_status json phase_unspecified old = old
updated_status json phase old =
    json.write_status (record (json.left_status old) { phase = phase_to_text phase })

abbrev pub updated_deployment : JsonTools → UpdateDeploymentRequest → DeploymentRow → DeploymentRow
updated_deployment json req row = record row {
  runtime = if req.runtime == "" then row.runtime else req.runtime;
  rollout = updated_rollout json req.rollout row.rollout;
  status = updated_status json req.phase row.status;
}

abbrev pub update_body : Env → JsonTools → UpdateDeploymentRequest → Exec DeploymentRow
update_body env json req = do
  row ← get_deployment_for_update env req.id
  update_deployment env row.id (updated_deployment json req row).runtime
      (updated_deployment json req row).rollout (updated_deployment json req row).status
  pure (updated_deployment json req row)

unfoldable pub update_deployment_handler :
    Env → JsonTools → UpdateDeploymentRequest → Exec DeploymentMessage
update_deployment_handler env json req = do
  guard (not (req.id == "")) (grpc invalid_argument "id is required")
  row ← on_error deployment_error (with_tx env (update_body env json req))
  pure (deployment_to_proto json row)
