-- ===== src/Tests/Deployments.antt =====
-- The theorems on the deployment controller, applied.
use ai_edge.Prelude.{
  ◌≡◌, refl, String, true, false, eqb, if◌then◌else◌, none, some, [], ◌∷◌, find_row, where_rows,
  count_rows,
}
use ai_edge.Prelude.Int.{pos}
use ai_edge.Store.Schema.{NodeRow, DeploymentRow, TaskRow, empty_db}
use ai_edge.Store.Session.{Env, Session, select, select_now, with_tx}
use ai_edge.Gateway.AgentService.{deliverable}
use ai_edge.Deployment.Json.{DeploymentStatus, Target, JsonTools, IsLawful}
use ai_edge.Deployment.Store.{
  get_deployment_for_update, update_deployment_status, count_runtime_states, is_target,
  list_nodes_by_gateway_and_labels,
}
use ai_edge.Deployment.Controller.{
  create_node_tasks, create_deployment_task, deployment_task_creator, resolve_runtime,
  reconcile_one,
}
use ai_edge.Deployment.Controller.Deliver.{reconcile_one-deliverable}
use ai_edge.Deployment.Controller.Once.{passes, reconcile_one-once}
use ai_edge.Deployment.Controller.Refine.{Passed, reconcile_one-effect}

-- The second task is given another id.
abbrev pub fresh_ids : Env
fresh_ids = record {
  now = 100;
  time_now = 100;
  uuid = λ k. if eqb k 3 then "u3" else "u4";
  fault = λ k. none;
}

-- A status is written as its phase.
abbrev status_of : String → DeploymentStatus
status_of phase = record {
  phase = phase;
  desired_nodes = pos 0;
  ready_nodes = pos 0;
  failed_nodes = pos 0;
}

abbrev everywhere : Target
everywhere = record { gateway_ids = []; label_selector = [] }

abbrev json : JsonTools
json = record {
  read_status = λ s. some (status_of s);
  left_status = status_of;
  phase_text = λ s. some s;
  write_status = λ st. st.phase;
  read_rollout = λ s. none;
  write_rollout = λ r. "{}";
  read_target = λ s. some everywhere;
  write_target = λ t. "{}";
  read_object = λ s. none;
  write_object = λ o. "{}";
}

lawful : IsLawful json
lawful = record { phase-write_status = λ st. refl }

abbrev node : NodeRow
node = record {
  id = "n1";
  gateway_id = "g1";
  labels = [];
  hardware_info = [];
  status = "Active";
  agent_version = "";
  online = true;
  last_seen_at = none;
  created_at = 7;
  updated_at = 7;
}

abbrev deployment : DeploymentRow
deployment = record {
  id = "d1";
  model_name = "m";
  model_version = "1";
  target = "{}";
  runtime = "llamacpp";
  rollout = "{}";
  status = "Pending";
  created_at = 7;
  updated_at = 7;
}

abbrev session : Session
session = record {
  db = record empty_db { edge_nodes = node ∷ []; model_deployments = deployment ∷ [] };
  tick = 0;
  aborted = false;
}

reconcile_one-effect_example :
    Passed fresh_ids json deployment session.db
      (reconcile_one fresh_ids json (deployment_task_creator json) deployment session).1.db
unfolding reconcile_one list_nodes_by_gateway_and_labels select_now resolve_runtime with_tx
    get_deployment_for_update select find_row where_rows is_target create_deployment_task
    create_node_tasks count_runtime_states update_deployment_status count_rows
reconcile_one-effect_example = reconcile_one-effect fresh_ids json deployment session tt refl

reconcile_one-once_example :
    (reconcile_one fresh_ids json (deployment_task_creator json) deployment (
      passes json
        ((fresh_ids, deployment ∷ []) ∷ [])
        (reconcile_one fresh_ids json
          (deployment_task_creator json)
          deployment
          session).1)).1.db.tasks
    ≡ (passes json
        ((fresh_ids, deployment ∷ []) ∷ [])
        (reconcile_one fresh_ids json (deployment_task_creator json) deployment session).1).db.tasks
unfolding reconcile_one where_rows is_target list_nodes_by_gateway_and_labels select_now
    resolve_runtime with_tx get_deployment_for_update select find_row create_deployment_task
    create_node_tasks count_runtime_states update_deployment_status count_rows
reconcile_one-once_example =
    reconcile_one-once json lawful fresh_ids deployment everywhere session refl refl refl
      ((fresh_ids, deployment ∷ []) ∷ []) fresh_ids deployment refl

reconcile_one-deliverable_example :
    (task : TaskRow) × (find_row
        (deliverable "g2" "n1")
        (reconcile_one fresh_ids json (deployment_task_creator json) deployment session).1.db.tasks
      ≡ some task)
unfolding reconcile_one list_nodes_by_gateway_and_labels select_now resolve_runtime with_tx
    get_deployment_for_update select find_row where_rows is_target create_deployment_task
    create_node_tasks count_runtime_states update_deployment_status count_rows
reconcile_one-deliverable_example =
    reconcile_one-deliverable fresh_ids json deployment session deployment everywhere "g2" "n1" tt
      refl refl refl refl refl
