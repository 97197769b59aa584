-- ===== src/Deployment/Controller.antt =====
-- internal/deployment/controller.go: one pass of the reconciliation over the pending deployments.
-- The ticker loop is a sequence of passes.
pub mod Dispatch
pub mod Pass
pub mod Once
pub mod Refine
pub mod Deliver
use ai_edge.Prelude.{
  ℕ, String, concat, Bool, true, false, ◌&&◌, ◌||◌, not, Option, none, some, List, [], ◌∷◌, ◌==◌,
  leb, ltb, ◌+◌, if◌then◌else◌, length,
}
use ai_edge.Prelude.Int.{ℤ, pos, ◌+ℤ◌, leb_ℤ, ltb_ℤ}
use ai_edge.Store.Errors.{Error, Result, ok, err, wrap, plain}
use ai_edge.Store.Schema.{Db, DeploymentRow, RuntimeProfileRow, TaskRow}
use ai_edge.Store.Session.{
  Env, Session, Exec, pure, raise, ◌>>=◌, ◌>>◌, on_error, statement, with_tx,
}
use ai_edge.Task.Store.{insert_task}
use ai_edge.Deployment.Json.{DeploymentStatus, Target, JsonTools}
use ai_edge.Deployment.Store.{
  get_deployment_for_update, list_pending_deployments, update_deployment_status,
  list_runtime_profiles, count_runtime_states, list_nodes_by_gateway_and_labels,
}

-- The interface TaskCreator: the tasks of a deployment, in an open transaction.
pub record TaskCreator : Type 0 where
  pub create_deployment_task :
      Env
      → (deployment_id model_name model_version runtime : String) → (node_ids : List String)
      → (payload : String) → Exec (Unit {0})

-- The columns that the INSERT names, and the defaults of the others.
abbrev pub controller_row :
    (scope type : String) → (parent node_id : Option String) → (payload : String) → TaskRow
controller_row scope type parent node_id payload = record {
  id = "";
  parent_task_id = parent;
  scope = scope;
  type = type;
  status = "Pending";
  target_gateway_id = none;
  target_node_id = node_id;
  payload = some payload;
  result = none;
  dispatch_status = "Unclaimed";
  owner_instance = none;
  claim_expire_at = none;
  max_retries = pos 3;
  retry_count = 0;
  timeout_seconds = pos 600;
  idempotency_key = none;
  created_by = "controller";
  created_at = 0;
  updated_at = 0;
}

abbrev pub node_payload :
    JsonTools → (deployment_id model_name model_version runtime : String) → String
node_payload json deployment_id model_name model_version runtime = json.write_object (
    ("deployment_id", deployment_id)
    ∷ ("model_name", model_name)
    ∷ ("model_version", model_version)
    ∷ ("runtime", runtime)
    ∷ ("action", "StartRuntime")
    ∷ [])

unfoldable pub create_node_tasks :
    Env → (parent_id payload : String) → List String → Exec (Unit {0})
create_node_tasks env parent_id payload [] = pure tt
create_node_tasks env parent_id payload (node_id ∷ rest) = do
  row ← on_error (wrap (concat "create node task for " node_id)) (
      statement env (
        insert_task env.now
          (controller_row "Node" "StartRuntime" (some parent_id) (some node_id) payload)))
  create_node_tasks env parent_id payload rest

unfoldable pub create_deployment_task :
    JsonTools
    → Env
    → (deployment_id model_name model_version runtime : String) → List String
    → String
    → Exec (Unit {0})
create_deployment_task json env deployment_id model_name model_version runtime node_ids payload = do
  parent ← on_error (wrap "create parent task") (
      statement env (insert_task env.now (controller_row "Region" "DeployModel" none none payload)))
  create_node_tasks env parent.id (node_payload json deployment_id model_name model_version runtime)
      node_ids

-- DeploymentTaskCreator
abbrev pub deployment_task_creator : JsonTools → TaskCreator
deployment_task_creator json = record { create_deployment_task = create_deployment_task json }

-- The value of a key of a Go map.
abbrev pub entry : String → List (String × String) → Option String
entry key [] = none
entry key ((k, v) ∷ rest) = if k == key then some v else entry key rest

abbrev pub same_name : String → Option String → Bool
same_name name none = true
same_name name (some v) = v == name

-- An empty selector has no entry either.
unfoldable pub matches_selector : List (String × String) → String → Bool
matches_selector selector model_name = same_name model_name (entry "model_name" selector)

-- A selector that is not an object of texts is passed over.
abbrev pub profile_matches : JsonTools → String → RuntimeProfileRow → Bool
profile_matches json model_name p = elim (json.read_object p.selector) [
  | none ↦ false
  | some selector ↦ same_name model_name (entry "model_name" selector)
]

unfoldable pub first_runtime : JsonTools → String → List RuntimeProfileRow → String
first_runtime json model_name [] = "llamacpp"
first_runtime json model_name (p ∷ ps) =
    if profile_matches json model_name p then p.runtime else first_runtime json model_name ps

unfoldable pub resolve_runtime : Env → JsonTools → (runtime model_name : String) → Exec String
resolve_runtime env json runtime model_name =
    if runtime == "auto"
    then (do
      profiles ← on_error (wrap "list runtime profiles") (list_runtime_profiles env)
      pure (first_runtime json model_name profiles))
    else pure runtime

abbrev pub is_empty {ℓ} : {A : Type ℓ} → List A → Bool
is_empty [] = true
is_empty (x ∷ xs) = false

-- Tasks are made for a pending deployment that has target nodes.
abbrev pub due : DeploymentStatus → List String → Bool
due st node_ids = st.phase == "Pending" && not (is_empty node_ids)

abbrev pub dispatch :
    Env
    → JsonTools
    → TaskCreator
    → DeploymentRow
    → (runtime : String) → List String
    → DeploymentStatus
    → Exec DeploymentStatus
dispatch env json creator d runtime node_ids st = do
  on_error (wrap "create deployment task") (
      creator.create_deployment_task env d.id d.model_name d.model_version runtime node_ids (
        json.write_object (
          ("deployment_id", d.id)
          ∷ ("model_name", d.model_name)
          ∷ ("model_version", d.model_version)
          ∷ ("runtime", runtime)
          ∷ [])))
  pure (record st { phase = "RollingOut"; desired_nodes = pos (length node_ids) })

-- The phase after the nodes were counted.
unfoldable pub counted_status : DeploymentStatus → ℕ × ℕ → DeploymentStatus
counted_status st (ready, failed) =
    let st' = record st { ready_nodes = pos ready; failed_nodes = pos failed } in
    if leb_ℤ st.desired_nodes (pos ready)
    then record st' { phase = "Active" }
    else if ltb 0 failed && leb_ℤ st.desired_nodes (pos (ready + failed))
    then record st' { phase = "Failed" }
    else st'

abbrev pub aggregate : Env → DeploymentRow → DeploymentStatus → Exec DeploymentStatus
aggregate env d st =
    if st.phase == "RollingOut"
    then (do
      counts ←
          on_error (wrap "count runtime states")
            (count_runtime_states env d.model_name d.model_version)
      pure (counted_status st counts))
    else pure st

abbrev pub advance :
    Env
    → JsonTools
    → TaskCreator
    → DeploymentRow
    → (runtime : String) → List String
    → DeploymentStatus
    → Exec DeploymentStatus
advance env json creator d runtime node_ids st = do
  st' ← (if due st node_ids then dispatch env json creator d runtime node_ids st else pure st)
  aggregate env d st'

abbrev pub reconcile_body :
    Env
    → JsonTools
    → TaskCreator
    → DeploymentRow
    → (runtime : String) → List String
    → Exec (Unit {0})
reconcile_body env json creator d runtime node_ids = do
  row ← get_deployment_for_update env d.id
  st ← advance env json creator d runtime node_ids (json.left_status row.status)
  update_deployment_status env row.id (json.write_status st)

-- The text of the json error is not kept.
abbrev pub known_target : Option Target → Exec Target
known_target none = raise (wrap "unmarshal target" (plain "json"))
known_target (some t) = pure t

unfoldable pub reconcile_one : Env → JsonTools → TaskCreator → DeploymentRow → Exec (Unit {0})
reconcile_one env json creator d = do
  target ← known_target (json.read_target d.target)
  node_ids ←
      on_error (wrap "list target nodes")
        (list_nodes_by_gateway_and_labels env target.gateway_ids target.label_selector)
  runtime ← on_error (wrap "resolve runtime") (resolve_runtime env json d.runtime d.model_name)
  with_tx env (reconcile_body env json creator d runtime node_ids)

-- A deployment that fails is logged, and the loop goes on.
unfoldable pub reconcile_all : Env → JsonTools → TaskCreator → List DeploymentRow → Exec (Unit {0})
reconcile_all env json creator [] s = (ok tt, s)
reconcile_all env json creator (d ∷ ds) s =
    reconcile_all env json creator ds (reconcile_one env json creator d s).1

unfoldable pub reconcile : Env → JsonTools → TaskCreator → Exec (Unit {0})
reconcile env json creator = do
  deployments ← on_error (wrap "list pending") (list_pending_deployments env json)
  reconcile_all env json creator deployments
