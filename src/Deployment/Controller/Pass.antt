-- ===== src/Deployment/Controller/Pass.antt =====
-- reconcileOne of internal/deployment/controller.go: the tables after a pass over a deployment.
use ai_edge.Prelude.{
  ℕ, ◌≡◌, refl, sym, ap, subst, ◌∙◌, String, true, false, none, some, List, [], ◌∷◌, append-nil,
  arith, ◌==◌, if◌then◌else◌, find_row, length, Bool-cases, ◌⊎◌, inl, inr,
}
use ai_edge.Prelude.Int.{pos}
use ai_edge.Store.Errors.{Result, ok}
use ai_edge.Store.Schema.{Db, DeploymentRow, TaskRow}
use ai_edge.Store.Session.{Env, Session, Exec, pure}
use ai_edge.Store.Transactions.{bind-eq-ok, Result-cases, db_of}
use ai_edge.Task.Store.{has_id}
use ai_edge.Deployment.Json.{DeploymentStatus, JsonTools}
use ai_edge.Deployment.Store.{
  deployment_has_id, with_deployment_status, get_deployment_for_update, update_deployment_status,
  count_runtime_states,
}
use ai_edge.Deployment.Store.Effects.{
  with_deployments, counted_nodes, get_deployment_for_update-effect,
  update_deployment_status-effect, count_runtime_states-effect,
}
use ai_edge.Deployment.Controller.{
  node_payload, create_deployment_task, deployment_task_creator, due, dispatch, counted_status,
  aggregate, advance, reconcile_body,
}
use ai_edge.Deployment.Controller.Dispatch.{
  with_tasks, deployment_rows, create_deployment_task-effect,
}

-- The status after the tasks were made.
abbrev pub started_status : DeploymentStatus → ℕ → DeploymentStatus
started_status st n = record st { phase = "RollingOut"; desired_nodes = pos n }

abbrev pub base_status : DeploymentStatus → List String → DeploymentStatus
base_status st nodes = if due st nodes then started_status st (length nodes) else st

abbrev pub counted_if : DeploymentStatus → ℕ × ℕ → DeploymentStatus
counted_if st counts = if st.phase == "RollingOut" then counted_status st counts else st

-- The status that a pass stores.
abbrev pub next_status : DeploymentStatus → List String → ℕ × ℕ → DeploymentStatus
next_status st nodes counts = counted_if (base_status st nodes) counts

abbrev region_payload : JsonTools → DeploymentRow → (runtime : String) → String
region_payload json d runtime = json.write_object (
    ("deployment_id", d.id)
    ∷ ("model_name", d.model_name)
    ∷ ("model_version", d.model_version)
    ∷ ("runtime", runtime)
    ∷ [])

-- The tasks of a deployment are there once: none where it is not due, one for the region and one for
-- each node where it is.
abbrev pub Dispatched :
    Env
    → JsonTools
    → DeploymentRow
    → (runtime : String) → List String
    → DeploymentStatus
    → Db
    → List TaskRow
    → Type 0
Dispatched env json d runtime nodes st db rows =
    ((due st nodes ≡ false) × (rows ≡ []))
    ⊎ ((due st nodes ≡ true)
        × (parent_id : String) × (ids : List String) × (length ids ≡ length nodes)
        × (find_row (has_id parent_id) db.tasks ≡ none)
        × (rows
            ≡ deployment_rows env.now (region_payload json d runtime)
                (node_payload json d.id d.model_name d.model_version runtime) nodes parent_id ids))

-- What a pass does to the tables.
abbrev pub Reconciled :
    Env → JsonTools → DeploymentRow → (runtime : String) → List String → Db → Db → Type 0
Reconciled env json d runtime nodes db db' =
    (row : DeploymentRow) × (rows : List TaskRow) × (find_row (deployment_has_id d.id)
        db.model_deployments
      ≡ some row)
    × Dispatched env json d runtime nodes (json.left_status row.status) db rows
    × (db'
        ≡ with_deployments (with_tasks db rows) row.id (
            with_deployment_status env.now (
              json.write_status (
                next_status (json.left_status row.status) nodes
                  (counted_nodes db d.model_name d.model_version)))))

module _ (env : Env) (json : JsonTools) (d : DeploymentRow) (runtime : String) (nodes : List String)
    (st : DeploymentStatus) where
  abbrev start : Exec DeploymentStatus
  start =
      if due st nodes
      then dispatch env json (deployment_task_creator json) d runtime nodes st
      else pure st

  dispatch-effect :
      (s : Session) (st' : DeploymentStatus)
      → s.aborted ≡ false
      → (dispatch env json (deployment_task_creator json) d runtime nodes st s).0 ≡ ok st'
      → (parent_id : String) × (ids : List String) × (length ids ≡ length nodes)
        × (find_row (has_id parent_id) s.db.tasks ≡ none)
        × (st' ≡ started_status st (length nodes))
        × ((dispatch env json (deployment_task_creator json) d runtime nodes st s).1.aborted
            ≡ false)
        × ((dispatch env json (deployment_task_creator json) d runtime nodes st s).1.db
            ≡ with_tasks s.db (
                deployment_rows env.now
                  (region_payload json d runtime)
                  (node_payload json d.id d.model_name d.model_version runtime)
                  nodes
                  parent_id
                  ids))
  dispatch-effect s st' a h =
      let make =
        create_deployment_task json env d.id d.model_name d.model_version runtime nodes
          (region_payload json d runtime) in
      elim (Result-cases (make s).0) [
        | inl (e, k) ↦ absurd (ground (arith, k))
        | inr (u, k) ↦
            let (parent_id, ids, l, free, a', d') =
              create_deployment_task-effect json env d.id d.model_name d.model_version runtime nodes
                (region_payload json d runtime) s u a k in
            (
              parent_id,
              ids,
              l,
              free,
              ground (arith, k),
              ground (arith, k, a'),
              ground (arith, k, d'),
            )
      ]

  start-effect :
      (s : Session) (st' : DeploymentStatus)
      → s.aborted ≡ false
      → (start s).0 ≡ ok st'
      → (rows : List TaskRow) × Dispatched env json d runtime nodes st s.db rows
        × (st' ≡ base_status st nodes)
        × ((start s).1.aborted ≡ false)
        × ((start s).1.db ≡ with_tasks s.db rows)
  start-effect s st' a h = elim (Bool-cases (due st nodes)) [
    | inl t ↦
        let e : start ≡ dispatch env json (deployment_task_creator json) d runtime nodes st =
          rw t refl in
        let (parent_id, ids, l, free, p, a', d') =
          dispatch-effect s st' a (ap (λ (m : Exec DeploymentStatus). (m s).0) (sym e) ∙ h) in
        (
          _,
          inr (t, parent_id, ids, l, free, refl),
          p ∙ rw t refl,
          ap (λ (m : Exec DeploymentStatus). (m s).1.aborted) e ∙ a',
          ap (λ (m : Exec DeploymentStatus). (m s).1.db) e ∙ d',
        )
    | inr f ↦
        let e : start ≡ pure st = rw f refl in
        let same = ap (λ (m : Exec DeploymentStatus). (m s).0) (sym e) ∙ h in
        (
          [],
          inl (f, refl),
          rw f (ground (arith, same)),
          ap (λ (m : Exec DeploymentStatus). (m s).1.aborted) e ∙ a,
          ap (λ (m : Exec DeploymentStatus). (m s).1.db) e
              ∙ ap (λ (ts : List TaskRow). record s.db { tasks = ts })
                  (sym (append-nil s.db.tasks)),
        )
  ]

aggregate-effect :
    (env : Env) (d : DeploymentRow) (st st' : DeploymentStatus) (s : Session)
    → s.aborted ≡ false
    → (aggregate env d st s).0 ≡ ok st'
    → (st' ≡ counted_if st (counted_nodes s.db d.model_name d.model_version))
      × ((aggregate env d st s).1.aborted ≡ false)
      × ((aggregate env d st s).1.db ≡ s.db)
aggregate-effect env d st st' s a h = elim (Bool-cases (st.phase == "RollingOut")) [
  | inr f ↦ (rw f (ground (arith, f)), rw f (ground (arith, f)), rw f (ground (arith, f)))
  | inl t ↦ elim (Result-cases (count_runtime_states env d.model_name d.model_version s).0) [
    | inl (e, k) ↦ absurd (ground (arith, t, k))
    | inr (counts, k) ↦
        let (c, a', d') =
          count_runtime_states-effect env s a d.model_name d.model_version counts k in
        (rw t (ground (arith, t, k, c)), ground (arith, t, k, a'), ground (arith, t, k, d'))
  ]
]

advance-effect :
    (env : Env) (json : JsonTools) (d : DeploymentRow) (runtime : String) (nodes : List String)
    (st st' : DeploymentStatus) (s : Session)
    → s.aborted ≡ false
    → (advance env json (deployment_task_creator json) d runtime nodes st s).0 ≡ ok st'
    → (rows : List TaskRow) × Dispatched env json d runtime nodes st s.db rows
      × (st' ≡ next_status st nodes (counted_nodes s.db d.model_name d.model_version))
      × ((advance env json (deployment_task_creator json) d runtime nodes st s).1.aborted ≡ false)
      × ((advance env json (deployment_task_creator json) d runtime nodes st s).1.db
          ≡ with_tasks s.db rows)
advance-effect env json d runtime nodes st st' s a h =
    let (base, k, p) = bind-eq-ok (aggregate env d) (start env json d runtime nodes st) s st' h in
    let (rows, made, b, a₁, d₁) = start-effect env json d runtime nodes st s base a k in
    let s₁ = (start env json d runtime nodes st s).1 in
    let (n, a₂, d₂) =
      aggregate-effect env d base st' s₁ a₁
        (ap (λ (r : Result DeploymentStatus × Session). r.0) (sym p) ∙ h) in
    (
      rows,
      made,
      n
          ∙ ap (λ (db : Db). counted_if base (counted_nodes db d.model_name d.model_version)) d₁
          ∙ ap (λ x. counted_if x (counted_nodes s.db d.model_name d.model_version)) b,
      ap (λ (r : Result DeploymentStatus × Session). r.1.aborted) p ∙ a₂,
      ap db_of p ∙ d₂ ∙ d₁,
    )

pub reconcile_body-effect :
    (env : Env) (json : JsonTools) (d : DeploymentRow) (runtime : String) (nodes : List String)
    (s : Session) (u : Unit {0})
    → s.aborted ≡ false
    → (reconcile_body env json (deployment_task_creator json) d runtime nodes s).0 ≡ ok u
    → Reconciled env json d runtime nodes s.db
        (reconcile_body env json (deployment_task_creator json) d runtime nodes s).1.db
reconcile_body-effect env json d runtime nodes s u a h =
    let (row, k₁, p₁) = bind-eq-ok _ (get_deployment_for_update env d.id) s u h in
    let (found, a₁, d₁) = get_deployment_for_update-effect env s a d.id row k₁ in
    let s₁ = (get_deployment_for_update env d.id s).1 in
    let st = json.left_status row.status in
    let (st', k₂, p₂) =
      bind-eq-ok (λ x. update_deployment_status env row.id (json.write_status x))
        (advance env json (deployment_task_creator json) d runtime nodes st) s₁ u (value p₁ h) in
    let (rows, made, n, a₂, d₂) = advance-effect env json d runtime nodes st st' s₁ a₁ k₂ in
    let d₃ =
      update_deployment_status-effect env
        (advance env json (deployment_task_creator json) d runtime nodes st s₁).1 a₂ row.id
        (json.write_status st') u (value (p₁ ∙ p₂) h) in
    let counted = λ (db : Db). counted_nodes db d.model_name d.model_version in
    let stored : DeploymentStatus → Db → Db =
      λ x db. with_deployments db row.id (with_deployment_status env.now (json.write_status x)) in
    (
      row,
      rows,
      found,
      subst (λ (db : Db). Dispatched env json d runtime nodes st db rows) d₁ made,
      ap db_of (p₁ ∙ p₂)
          ∙ d₃
          ∙ ap (stored st') (d₂ ∙ ap (λ (db : Db). with_tasks db rows) d₁)
          ∙ ap (λ x. stored x (with_tasks s.db rows))
              (n ∙ ap (λ (db : Db). next_status st nodes (counted db)) d₁),
    )
  where
    value : {x y : Result (Unit {0}) × Session} → x ≡ y → x.0 ≡ ok u → y.0 ≡ ok u
    value p h = ap (λ (r : Result (Unit {0}) × Session). r.0) (sym p) ∙ h
