-- ===== src/Deployment/Store.antt =====
-- internal/deployment/store.go: the statements on model_deployments, runtime_profiles and
-- edge_runtime_states, and the query for target nodes.
pub mod Effects
use ai_edge.Prelude.{
  ℕ, String, Bool, true, false, ◌&&◌, ◌||◌, Option, none, some, List, [], ◌∷◌, ◌++◌, map, ◌==◌, leb,
  ltb, if◌then◌else◌, any_text, find_row, where_rows, update_rows, count_rows, order_by,
}
use ai_edge.Prelude.Int.{ℤ, ltb_ℤ, leb_ℤ}
use ai_edge.Pages.{clamp_limit, page_rows}
use ai_edge.Store.Errors.{err_not_found, wrap}
use ai_edge.Store.Schema.{Db, DeploymentRow, RuntimeProfileRow, RuntimeStateRow, NodeRow}
use ai_edge.Store.Session.{
  Env, Exec, Outcome, done, violates, pure, guard, ◌>>=◌, ◌>>◌, on_error, or_not_found, statement,
  autocommit, select, select_now,
}
use ai_edge.Deployment.Json.{JsonTools}

abbrev pub deployment_has_id : String → DeploymentRow → Bool
deployment_has_id id r = r.id == id

abbrev pub new_deployment : ℕ → String → DeploymentRow → DeploymentRow
new_deployment now id row = record row { id = id; created_at = now; updated_at = now }

abbrev pub deployment_key_text : String
deployment_key_text =
    "pq: duplicate key value violates unique constraint \"model_deployments_pkey\""

abbrev pub insert_deployment : ℕ → DeploymentRow → String → Db → Outcome DeploymentRow
insert_deployment now row id db = elim (find_row (deployment_has_id id) db.model_deployments) [
  | some old ↦ violates deployment_key_text
  | none ↦
      done (new_deployment now id row)
        (record db { model_deployments = db.model_deployments ++ new_deployment now id row ∷ [] })
]

unfoldable pub create_deployment : Env → DeploymentRow → Exec DeploymentRow
create_deployment env row = autocommit env (insert_deployment env.now row)

unfoldable pub get_deployment : Env → String → Exec DeploymentRow
get_deployment env id = do
  found ←
      on_error (wrap "deployment: get")
        (select_now env (λ db. find_row (deployment_has_id id) db.model_deployments))
  or_not_found found

unfoldable pub get_deployment_for_update : Env → String → Exec DeploymentRow
get_deployment_for_update env id = do
  found ←
      on_error (wrap "deployment: get for update")
        (select env (λ db. find_row (deployment_has_id id) db.model_deployments))
  or_not_found found

pub record DeploymentListFilter : Type 0 where
  pub model_name : String
  pub phase : String
  pub limit : ℤ
  pub offset : ℤ

abbrev pub is_phase : String → Option String → Bool
is_phase p none = false
is_phase p (some q) = q == p

abbrev pub in_deployment_filter : JsonTools → DeploymentListFilter → DeploymentRow → Bool
in_deployment_filter json f r =
    (f.model_name == "" || r.model_name == f.model_name)
    && (f.phase == "" || is_phase f.phase (json.phase_text r.status))

abbrev pub newest_deployment : DeploymentRow → DeploymentRow → Bool
newest_deployment a b = leb b.created_at a.created_at

unfoldable pub list_deployments :
    Env → JsonTools → DeploymentListFilter → Exec (List DeploymentRow × ℕ)
list_deployments env json f = do
  total ←
      on_error (wrap "deployment: list count")
        (select_now env (λ db. count_rows (in_deployment_filter json f) db.model_deployments))
  rows ← on_error (wrap "deployment: list") (
      autocommit env (λ id db.
        page_rows (clamp_limit f.limit) f.offset
          (order_by newest_deployment
            (where_rows (in_deployment_filter json f) db.model_deployments))
          db))
  pure (rows, total)

abbrev pub pending_phase : Option String → Bool
pending_phase p = is_phase "Pending" p || is_phase "RollingOut" p

abbrev pub oldest_deployment : DeploymentRow → DeploymentRow → Bool
oldest_deployment a b = leb a.created_at b.created_at

unfoldable pub list_pending_deployments : Env → JsonTools → Exec (List DeploymentRow)
list_pending_deployments env json = on_error (wrap "deployment: list pending") (
    select_now env (λ db.
      order_by oldest_deployment
        (where_rows (λ r. pending_phase (json.phase_text r.status)) db.model_deployments)))

-- An UPDATE of the row of an id, with the count of the rows.
abbrev pub update_deployments : String → (DeploymentRow → DeploymentRow) → String → Db → Outcome ℕ
update_deployments id f fresh db =
    done (count_rows (deployment_has_id id) db.model_deployments)
      (record db { model_deployments = update_rows (deployment_has_id id) f db.model_deployments })

abbrev pub with_deployment : ℕ → (runtime rollout status : String) → DeploymentRow → DeploymentRow
with_deployment now runtime rollout status r = record r {
  runtime = runtime;
  rollout = rollout;
  status = status;
  updated_at = now;
}

unfoldable pub update_deployment : Env → (id runtime rollout status : String) → Exec (Unit {0})
update_deployment env id runtime rollout status = do
  n ←
      on_error (wrap "deployment: update")
        (statement env (update_deployments id (with_deployment env.now runtime rollout status)))
  guard (ltb 0 n) err_not_found

abbrev pub with_deployment_status : ℕ → String → DeploymentRow → DeploymentRow
with_deployment_status now status r = record r { status = status; updated_at = now }

unfoldable pub update_deployment_status : Env → String → String → Exec (Unit {0})
update_deployment_status env id status = do
  n ←
      on_error (wrap "deployment: update status")
        (statement env (update_deployments id (with_deployment_status env.now status)))
  guard (ltb 0 n) err_not_found

abbrev pub profile_has_id : String → RuntimeProfileRow → Bool
profile_has_id id r = r.id == id

abbrev pub profile_clash : (id name : String) → RuntimeProfileRow → Bool
profile_clash id name r = r.id == id || r.name == name

-- Only this part of the text is read, whichever constraint it names.
abbrev pub profile_key_text : String
profile_key_text = "pq: duplicate key value violates unique constraint of runtime_profiles"

abbrev pub insert_profile : ℕ → RuntimeProfileRow → String → Db → Outcome RuntimeProfileRow
insert_profile now row id db = elim (find_row (profile_clash id row.name) db.runtime_profiles) [
  | some old ↦ violates profile_key_text
  | none ↦
      let new = record row { id = id; created_at = now } in
      done new (record db { runtime_profiles = db.runtime_profiles ++ new ∷ [] })
]

unfoldable pub create_runtime_profile : Env → RuntimeProfileRow → Exec RuntimeProfileRow
create_runtime_profile env row = autocommit env (insert_profile env.now row)

unfoldable pub get_runtime_profile : Env → String → Exec RuntimeProfileRow
get_runtime_profile env id = do
  found ←
      on_error (wrap "runtime profile: get")
        (select_now env (λ db. find_row (profile_has_id id) db.runtime_profiles))
  or_not_found found

-- ORDER BY priority DESC, created_at ASC
abbrev pub profile_first : RuntimeProfileRow → RuntimeProfileRow → Bool
profile_first a b =
    ltb_ℤ b.priority a.priority || (leb_ℤ b.priority a.priority && leb a.created_at b.created_at)

unfoldable pub list_runtime_profiles : Env → Exec (List RuntimeProfileRow)
list_runtime_profiles env =
    on_error (wrap "runtime profile: list")
      (select_now env (λ db. order_by profile_first db.runtime_profiles))

abbrev pub profile_other : String → RuntimeProfileRow → Bool
profile_other id r = if r.id == id then false else true

unfoldable pub delete_runtime_profile : Env → String → Exec (Unit {0})
delete_runtime_profile env id = do
  n ← on_error (wrap "runtime profile: delete") (
      autocommit env (λ fresh db.
        done (count_rows (profile_has_id id) db.runtime_profiles)
          (record db { runtime_profiles = where_rows (profile_other id) db.runtime_profiles })))
  guard (ltb 0 n) err_not_found

abbrev pub state_of : (node_id model_name model_version : String) → RuntimeStateRow → Bool
state_of node_id model_name model_version r =
    r.node_id == node_id && (r.model_name == model_name && r.model_version == model_version)

abbrev pub new_state :
    ℕ → (node_id model_name model_version runtime status metrics : String) → RuntimeStateRow
new_state now node_id model_name model_version runtime status metrics = record {
  node_id = node_id;
  model_name = model_name;
  model_version = model_version;
  runtime = runtime;
  status = status;
  metrics = metrics;
  updated_at = now;
}

-- INSERT … ON CONFLICT (node_id, model_name, model_version) DO UPDATE
abbrev pub upsert_state : RuntimeStateRow → List RuntimeStateRow → List RuntimeStateRow
upsert_state new rows =
    elim (find_row (state_of new.node_id new.model_name new.model_version) rows) [
      | none ↦ rows ++ new ∷ []
      | some old ↦
          update_rows (state_of new.node_id new.model_name new.model_version)
            (λ r. record r {
              runtime = new.runtime;
              status = new.status;
              metrics = new.metrics;
              updated_at = new.updated_at;
            })
            rows
    ]

unfoldable pub upsert_runtime_state :
    Env → (node_id model_name model_version runtime status metrics : String) → Exec (Unit {0})
upsert_runtime_state env node_id model_name model_version runtime status metrics =
    on_error (wrap "runtime state: upsert") (
      autocommit env (λ id db. done tt (record db {
        edge_runtime_states =
            upsert_state (new_state env.now node_id model_name model_version runtime status metrics)
              db.edge_runtime_states;
      })))

abbrev pub state_counted : (model_name model_version status : String) → RuntimeStateRow → Bool
state_counted model_name model_version status r =
    r.status == status && (r.model_name == model_name && r.model_version == model_version)

-- The ready and the failed nodes. The statement runs on a connection of its own, also where the
-- caller is inside a transaction.
unfoldable pub count_runtime_states : Env → (model_name model_version : String) → Exec (ℕ × ℕ)
count_runtime_states env model_name model_version = on_error (wrap "runtime state: count") (
    select_now env (λ db. (
      count_rows (state_counted model_name model_version "Running") db.edge_runtime_states,
      count_rows (state_counted model_name model_version "Failed") db.edge_runtime_states,
    )))

abbrev pub among : String → List String → Bool
among s [] = true
among s (t ∷ ts) = any_text s (t ∷ ts)

-- labels->>key = value
abbrev pub label_is : String → String → List (String × String) → Bool
label_is key value [] = false
label_is key value ((k, v) ∷ rest) = if k == key then v == value else label_is key value rest

abbrev pub matches_labels : List (String × String) → List (String × String) → Bool
matches_labels [] labels = true
matches_labels ((k, v) ∷ rest) labels = label_is k v labels && matches_labels rest labels

unfoldable pub is_target : List String → List (String × String) → NodeRow → Bool
is_target gateway_ids selector r =
    r.online && (among r.gateway_id gateway_ids && matches_labels selector r.labels)

unfoldable pub list_nodes_by_gateway_and_labels :
    Env → List String → List (String × String) → Exec (List String)
list_nodes_by_gateway_and_labels env gateway_ids selector =
    on_error (wrap "deployment: list target nodes") (
      select_now env (λ db.
        map (λ (r : NodeRow). r.id) (where_rows (is_target gateway_ids selector) db.edge_nodes)))
