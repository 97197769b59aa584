-- ===== src/Deployment/Controller/Deliver.antt =====
-- The way of a deployment from the controller of internal/deployment/controller.go to the agents, who
-- pull their tasks by internal/gateway/agent_service.go.
use ai_edge.Prelude.{
  ℕ, ◌≡◌, refl, String, true, some, List, [], ◌∷◌, ◌++◌, arith, ◌==◌, any_text, length, eq_refl,
  eq_iff, find_row, find_row-append_later, Bool-cases, inl, inr,
}
use ai_edge.Store.Errors.{ok}
use ai_edge.Store.Schema.{DeploymentRow, TaskRow}
use ai_edge.Store.Session.{Env, Session}
use ai_edge.Gateway.AgentService.{deliverable}
use ai_edge.Deployment.Json.{Target, JsonTools}
use ai_edge.Deployment.Store.{deployment_has_id}
use ai_edge.Deployment.Controller.{due, deployment_task_creator, reconcile_one}
use ai_edge.Deployment.Controller.Dispatch.{
  node_task_row, node_task_rows, region_task_row, deployment_rows,
}
use ai_edge.Deployment.Controller.Refine.{target_nodes, reconcile_one-effect}

module _ (now : ℕ) (parent_id payload gateway_id node_id : String) where
  node_row-deliverable :
      (id : String)
      → deliverable gateway_id node_id (node_task_row now parent_id payload node_id id) ≡ true
  unfolding deliverable
  node_row-deliverable id = ground (arith, eq_refl node_id)

  node_rows-deliverable :
      (nodes ids : List String)
      → length ids ≡ length nodes
      → any_text node_id nodes ≡ true
      → (row : TaskRow) × (find_row
            (deliverable gateway_id node_id)
            (node_task_rows now parent_id payload nodes ids)
          ≡ some row)
  unfolding find_row deliverable
  node_rows-deliverable [] ids l h = absurd (ground (arith, h))
  node_rows-deliverable (n ∷ ns) [] l h = absurd (omega (arith, l))
  node_rows-deliverable (n ∷ ns) (id ∷ ids) l h =
      let row = node_task_row now parent_id payload n id in
      elim (Bool-cases (deliverable gateway_id node_id row)) [
        | inl t ↦ (row, rw t refl)
        | inr f ↦ elim (Bool-cases (n == node_id)) [
          | inl own ↦ (row, ground (arith, own, eq_refl node_id, (eq_iff n node_id).0 own))
          | inr other ↦
              let (r, k) =
                node_rows-deliverable ns ids (omega (arith, l)) (ground (arith, h, other)) in
              (r, rw f k)
        ]
      ]

-- The tasks that a dispatch adds to a table hold one of the node.
dispatched-deliverable :
    (now : ℕ) (region payload gateway_id node_id : String) (tasks : List TaskRow)
    (nodes ids : List String) (id : String) (added : List TaskRow)
    → added ≡ deployment_rows now region payload nodes id ids
    → length ids ≡ length nodes
    → any_text node_id nodes ≡ true
    → (row : TaskRow) × (find_row (deliverable gateway_id node_id) (tasks ++ added) ≡ some row)
dispatched-deliverable now region payload gateway_id node_id tasks nodes ids id added e l h =
    let p = deliverable gateway_id node_id in
    let rows = node_task_rows now id payload nodes ids in
    let (row, k) = node_rows-deliverable now id payload gateway_id node_id nodes ids l h in
    let (row', k') = find_row-append_later p (region_task_row now region id ∷ []) rows row k in
    find_row-append_later p tasks added row' (rw e k')

module _ (env : Env) (json : JsonTools) (d : DeploymentRow) (s : Session) where
  -- A pass over a deployment that returns no error, where the row of the deployment is due for dispatch,
  -- leaves every one of its target nodes a task that the agent's pull of that node finds, at any
  -- gateway.
  pub reconcile_one-deliverable :
      (row : DeploymentRow) (target : Target) (gateway_id node_id : String) (u : Unit {0})
      → find_row (deployment_has_id d.id) s.db.model_deployments ≡ some row
      → json.read_target d.target ≡ some target
      → due (json.left_status row.status) (target_nodes s.db target) ≡ true
      → any_text node_id (target_nodes s.db target) ≡ true
      → (reconcile_one env json (deployment_task_creator json) d s).0 ≡ ok u
      → (task : TaskRow) × (find_row
            (deliverable gateway_id node_id)
            (reconcile_one env json (deployment_task_creator json) d s).1.db.tasks
          ≡ some task)
  reconcile_one-deliverable row target gateway_id node_id u found read is_due aimed h =
      let (target', read', (row', rows, found', what, after)) =
        reconcile_one-effect env json d s u h in
      let same_row : row' ≡ row = cc in
      let same_target : target' ≡ target = cc in
      elim what [
        | inl (off, _) ↦ absurd (ground (arith, is_due, off, same_row, same_target))
        | inr (_, id, ids, l, _, e) ↦
            let aimed' : any_text node_id (target_nodes s.db target') ≡ true =
              rw same_target aimed in
            let (task, k) =
              dispatched-deliverable env.now _ _ gateway_id node_id s.db.tasks
                (target_nodes s.db target') ids id rows e l aimed' in
            (task, rw after k)
      ]
