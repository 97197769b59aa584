-- ===== src/Deployment/Store/Effects.antt =====
-- What the statements of internal/deployment/store.go leave in the tables when they return without an
-- error in an open transaction.
use ai_edge.Prelude.{ℕ, ◌≡◌, String, false, some, arith, find_row, update_rows, count_rows}
use ai_edge.Store.Errors.{ok}
use ai_edge.Store.Schema.{Db, DeploymentRow}
use ai_edge.Store.Session.{Env, Session, statement, autocommit, select, select_now}
use ai_edge.Deployment.Store.{
  deployment_has_id, with_deployment, with_deployment_status, state_counted,
  get_deployment_for_update, update_deployment, update_deployment_status, count_runtime_states,
}

abbrev pub with_deployments : Db → String → (DeploymentRow → DeploymentRow) → Db
with_deployments db id f = record db {
  model_deployments = update_rows (deployment_has_id id) f db.model_deployments;
}

-- The nodes of a model in the state Running, and those in the state Failed.
abbrev pub counted_nodes : Db → (model_name model_version : String) → ℕ × ℕ
counted_nodes db model_name model_version = (
  count_rows (state_counted model_name model_version "Running") db.edge_runtime_states,
  count_rows (state_counted model_name model_version "Failed") db.edge_runtime_states,
)

module _ (env : Env) (s : Session) (open_tx : s.aborted ≡ false) where
  pub get_deployment_for_update-effect :
      (id : String) (row : DeploymentRow)
      → (get_deployment_for_update env id s).0 ≡ ok row
      → (find_row (deployment_has_id id) s.db.model_deployments ≡ some row)
        × ((get_deployment_for_update env id s).1.aborted ≡ false)
        × ((get_deployment_for_update env id s).1.db ≡ s.db)
  unfolding get_deployment_for_update select statement
  get_deployment_for_update-effect id row h = (ground arith, ground arith, ground arith)

  pub update_deployment_status-effect :
      (id status : String) (u : Unit {0})
      → (update_deployment_status env id status s).0 ≡ ok u
      → (update_deployment_status env id status s).1.db
        ≡ with_deployments s.db id (with_deployment_status env.now status)
  unfolding update_deployment_status statement
  update_deployment_status-effect id status u h = ground arith

  pub update_deployment-effect :
      (id runtime rollout status : String) (u : Unit {0})
      → (update_deployment env id runtime rollout status s).0 ≡ ok u
      → (update_deployment env id runtime rollout status s).1.db
        ≡ with_deployments s.db id (with_deployment env.now runtime rollout status)
  unfolding update_deployment statement
  update_deployment-effect id runtime rollout status u h = ground arith

  pub count_runtime_states-effect :
      (model_name model_version : String) (counts : ℕ × ℕ)
      → (count_runtime_states env model_name model_version s).0 ≡ ok counts
      → (counts ≡ counted_nodes s.db model_name model_version)
        × ((count_runtime_states env model_name model_version s).1.aborted ≡ false)
        × ((count_runtime_states env model_name model_version s).1.db ≡ s.db)
  unfolding count_runtime_states select_now autocommit
  count_runtime_states-effect model_name model_version counts h =
      (ground arith, ground arith, ground arith)
