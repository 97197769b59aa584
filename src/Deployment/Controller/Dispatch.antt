-- ===== src/Deployment/Controller/Dispatch.antt =====
-- CreateDeploymentTask of internal/deployment/controller.go: the tasks that it adds.
use ai_edge.Prelude.{
  ℕ, suc, ◌≡◌, refl, sym, ap, ◌∙◌, String, concat, false, none, some, List, [], ◌∷◌, ◌++◌,
  append_assoc, append-nil, arith, find_row, length, Option-cases, inl, inr,
}
use ai_edge.Store.Errors.{Error, Result, ok, wrap}
use ai_edge.Store.Schema.{Db, TaskRow}
use ai_edge.Store.Session.{Env, Session, Exec, on_error, statement}
use ai_edge.Store.Transactions.{bind-eq-ok, db_of}
use ai_edge.Task.Store.{has_id, new_task, insert_task}
use ai_edge.Deployment.Json.{JsonTools}
use ai_edge.Deployment.Controller.{
  controller_row, node_payload, create_node_tasks, create_deployment_task,
}

abbrev pub with_tasks : Db → List TaskRow → Db
with_tasks db rows = record db { tasks = db.tasks ++ rows }

abbrev add_task : (Error → Error) → Env → TaskRow → Exec TaskRow
add_task f env row = on_error f (statement env (insert_task env.now row))

add_task-effect :
    (f : Error → Error) (env : Env) (row : TaskRow) (payload : String) (s : Session)
    (created : TaskRow)
    → row.payload ≡ some payload
    → s.aborted ≡ false
    → (add_task f env row s).0 ≡ ok created
    → (find_row (has_id created.id) s.db.tasks ≡ none)
      × ((add_task f env row s).1.aborted ≡ false)
      × ((add_task f env row s).1.db ≡ with_tasks s.db (new_task env.now created.id row ∷ []))
unfolding statement
add_task-effect f env row payload s created p a h =
    elim (Option-cases (find_row (has_id (env.uuid s.tick)) s.db.tasks)) [
      | inr (old, e) ↦ absurd (ground (arith, p, e))
      | inl e ↦ (ground (arith, p, e), ground (arith, p, e), ground (arith, p, e))
    ]

-- The task of one node, and the tasks of the nodes in their order, with their ids.
abbrev pub node_task_row : ℕ → (parent_id payload : String) → (node_id id : String) → TaskRow
node_task_row now parent_id payload node_id id =
    new_task now id (controller_row "Node" "StartRuntime" (some parent_id) (some node_id) payload)

abbrev pub node_task_rows :
    ℕ → (parent_id payload : String) → List String → List String → List TaskRow
node_task_rows now parent_id payload [] ids = []
node_task_rows now parent_id payload (n ∷ ns) [] = []
node_task_rows now parent_id payload (n ∷ ns) (id ∷ ids) =
    node_task_row now parent_id payload n id ∷ node_task_rows now parent_id payload ns ids

abbrev pub region_task_row : ℕ → (payload id : String) → TaskRow
region_task_row now payload id =
    new_task now id (controller_row "Region" "DeployModel" none none payload)

with_tasks-twice :
    (db : Db) (xs ys : List TaskRow) → with_tasks (with_tasks db xs) ys ≡ with_tasks db (xs ++ ys)
with_tasks-twice db xs ys =
    ap (λ (ts : List TaskRow). record db { tasks = ts }) (append_assoc db.tasks xs ys)

with_tasks-none : (db : Db) → with_tasks db [] ≡ db
with_tasks-none db = ap (λ (ts : List TaskRow). record db { tasks = ts }) (append-nil db.tasks)

create_node_tasks-effect :
    (env : Env) (parent_id payload : String) (nodes : List String) (s : Session) (u : Unit {0})
    → s.aborted ≡ false
    → (create_node_tasks env parent_id payload nodes s).0 ≡ ok u
    → (ids : List String) × (length ids ≡ length nodes)
      × ((create_node_tasks env parent_id payload nodes s).1.aborted ≡ false)
      × ((create_node_tasks env parent_id payload nodes s).1.db
          ≡ with_tasks s.db (node_task_rows env.now parent_id payload nodes ids))
unfolding create_node_tasks
create_node_tasks-effect env parent_id payload [] s u a h =
    ([], refl, a, sym (with_tasks-none s.db))
create_node_tasks-effect env parent_id payload (n ∷ ns) s u a h =
    let row = controller_row "Node" "StartRuntime" (some parent_id) (some n) payload in
    let first = add_task (wrap (concat "create node task for " n)) env row in
    let (made, k, p) = bind-eq-ok (λ _. create_node_tasks env parent_id payload ns) first s u h in
    let (_, a₁, d₁) = add_task-effect _ env row payload s made refl a k in
    let (ids, l, a₂, d₂) =
      create_node_tasks-effect env parent_id payload ns (first s).1 u a₁
        (ap (λ (r : Result Unit × Session). r.0) (sym p) ∙ h) in
    (
      made.id ∷ ids,
      ap suc l,
      ap (λ (r : Result Unit × Session). r.1.aborted) p ∙ a₂,
      ap db_of p
          ∙ d₂
          ∙ ap (λ (db : Db). with_tasks db (node_task_rows env.now parent_id payload ns ids)) d₁
          ∙ with_tasks-twice s.db _ _,
    )

-- One task of the region, and one task of each node below it, in the order of the nodes.
abbrev pub deployment_rows :
    ℕ
    → (region_payload payload : String) → List String
    → (parent_id : String) → List String
    → List TaskRow
deployment_rows now region_payload payload nodes parent_id ids =
    region_task_row now region_payload parent_id ∷ node_task_rows now parent_id payload nodes ids

pub create_deployment_task-effect :
    (json : JsonTools) (env : Env) (deployment_id model_name model_version runtime : String)
    (nodes : List String) (payload : String) (s : Session) (u : Unit {0})
    → s.aborted ≡ false
    → (create_deployment_task json env deployment_id model_name model_version runtime nodes payload
        s).0
      ≡ ok u
    → (parent_id : String) × (ids : List String) × (length ids ≡ length nodes)
      × (find_row (has_id parent_id) s.db.tasks ≡ none)
      × ((create_deployment_task json env deployment_id model_name model_version runtime nodes
            payload s).1.aborted
          ≡ false)
      × ((create_deployment_task json env deployment_id model_name model_version runtime nodes
            payload s).1.db
          ≡ with_tasks s.db (
              deployment_rows env.now payload
                (node_payload json deployment_id model_name model_version runtime)
                nodes
                parent_id
                ids))
unfolding create_deployment_task
create_deployment_task-effect json env deployment_id model_name model_version runtime nodes payload
      s u a h =
    let row = controller_row "Region" "DeployModel" none none payload in
    let first = add_task (wrap "create parent task") env row in
    let below = node_payload json deployment_id model_name model_version runtime in
    let (made, k, p) =
      bind-eq-ok (λ (parent : TaskRow). create_node_tasks env parent.id below nodes) first s u h in
    let (free, a₁, d₁) = add_task-effect _ env row payload s made refl a k in
    let (ids, l, a₂, d₂) =
      create_node_tasks-effect env made.id below nodes (first s).1 u a₁
        (ap (λ (r : Result Unit × Session). r.0) (sym p) ∙ h) in
    (
      made.id,
      ids,
      l,
      free,
      ap (λ (r : Result Unit × Session). r.1.aborted) p ∙ a₂,
      ap db_of p
          ∙ d₂
          ∙ ap (λ (db : Db). with_tasks db (node_task_rows env.now made.id below nodes ids)) d₁
          ∙ with_tasks-twice s.db _ _,
    )
