-- ===== src/Deployment/Controller/Refine.antt =====
-- reconcileOne of internal/deployment/controller.go, from the queries before the transaction to its
-- commit.
use ai_edge.Prelude.{
  ◌≡◌, refl, sym, ap, subst, ◌∙◌, String, Option, none, some, List, map, arith, ◌==◌, if◌then◌else◌,
  where_rows, order_by, Bool-cases, inl, inr,
}
use ai_edge.Store.Errors.{Result, ok, wrap}
use ai_edge.Store.Schema.{Db, DeploymentRow, NodeRow}
use ai_edge.Store.Session.{Env, Session, opened, on_error, select_now, autocommit, with_tx}
use ai_edge.Store.Transactions.{bind-eq-ok, with_tx-commits, db_of}
use ai_edge.Store.Atomic.{
  IsReadOnly, IsAtomic, pure-IsReadOnly, raise-IsReadOnly, on_error-IsReadOnly,
  select_now-IsReadOnly, bind-IsReadOnly, bind-IsAtomic, with_tx-IsAtomic,
}
use ai_edge.Deployment.Json.{Target, JsonTools}
use ai_edge.Deployment.Store.{
  is_target, profile_first, list_runtime_profiles, list_nodes_by_gateway_and_labels,
}
use ai_edge.Deployment.Controller.{
  TaskCreator, deployment_task_creator, first_runtime, resolve_runtime, reconcile_body,
  known_target, reconcile_one,
}
use ai_edge.Deployment.Controller.Pass.{Reconciled, reconcile_body-effect}

abbrev pub target_nodes : Db → Target → List String
target_nodes db t =
    map (λ (r : NodeRow). r.id)
      (where_rows (is_target t.gateway_ids t.label_selector) db.edge_nodes)

abbrev pub runtime_of : JsonTools → Db → DeploymentRow → String
runtime_of json db d =
    if d.runtime == "auto"
    then first_runtime json d.model_name (order_by profile_first db.runtime_profiles)
    else d.runtime

known_target-effect :
    (t : Option Target) (s : Session) (target : Target)
    → (known_target t s).0 ≡ ok target
    → (t ≡ some target) × ((known_target t s).1 ≡ s)
known_target-effect none s target h = cc
known_target-effect (some x) s target h = (cc, refl)

list_nodes-effect :
    (env : Env) (t : Target) (s : Session) (nodes : List String)
    → (on_error
        (wrap "list target nodes")
        (list_nodes_by_gateway_and_labels env t.gateway_ids t.label_selector)
        s).0
      ≡ ok nodes
    → nodes ≡ target_nodes s.db t
unfolding list_nodes_by_gateway_and_labels select_now autocommit
list_nodes-effect env t s nodes h = ground arith

list_nodes-db :
    (env : Env) (t : Target) (s : Session)
    → (list_nodes_by_gateway_and_labels env t.gateway_ids t.label_selector s).1.db ≡ s.db
unfolding list_nodes_by_gateway_and_labels select_now autocommit
list_nodes-db env t s = ground arith

resolve_runtime-effect :
    (env : Env) (json : JsonTools) (d : DeploymentRow) (s : Session) (runtime : String)
    → (on_error (wrap "resolve runtime") (resolve_runtime env json d.runtime d.model_name) s).0
      ≡ ok runtime
    → runtime ≡ runtime_of json s.db d
unfolding resolve_runtime list_runtime_profiles select_now autocommit
resolve_runtime-effect env json d s runtime h = elim (Bool-cases (d.runtime == "auto")) [
  | inl t ↦ rw t (ground (arith, t))
  | inr f ↦ rw f (ground (arith, f))
]

resolve_runtime-db :
    (env : Env) (json : JsonTools) (d : DeploymentRow) (s : Session)
    → (resolve_runtime env json d.runtime d.model_name s).1.db ≡ s.db
unfolding resolve_runtime list_runtime_profiles select_now autocommit
resolve_runtime-db env json d s = elim (Bool-cases (d.runtime == "auto")) [
  | inl t ↦ ground (arith, t)
  | inr f ↦ ground (arith, f)
]

-- A pass over a deployment as one change of the tables: its target nodes are the online nodes of the
-- selector, its runtime is resolved, and the change is that of `Reconciled`.
abbrev pub Passed : Env → JsonTools → DeploymentRow → Db → Db → Type 0
Passed env json d db db' =
    (target : Target) × (json.read_target d.target ≡ some target)
    × Reconciled env json d (runtime_of json db d) (target_nodes db target) db db'

module _ (env : Env) (json : JsonTools) (d : DeploymentRow) (s : Session) where
  -- A pass over a deployment that returns no error is one change of the tables: if the deployment was
  -- pending and has target nodes, one task of the region and one of each node in order are added; its
  -- status becomes the counted one; nothing else changes.
  pub reconcile_one-effect :
      (u : Unit {0})
      → (reconcile_one env json (deployment_task_creator json) d s).0 ≡ ok u
      → Passed env json d s.db (reconcile_one env json (deployment_task_creator json) d s).1.db
  unfolding reconcile_one
  reconcile_one-effect u h =
      let (target, k₁, p₁) = bind-eq-ok _ (known_target (json.read_target d.target)) s u h in
      let (e₁, same) = known_target-effect (json.read_target d.target) s target k₁ in
      let s₁ = (known_target (json.read_target d.target) s).1 in
      let list =
        on_error (wrap "list target nodes")
          (list_nodes_by_gateway_and_labels env target.gateway_ids target.label_selector) in
      let (nodes, k₂, p₂) = bind-eq-ok _ list s₁ u (value p₁ h) in
      let s₂ = (list s₁).1 in
      let resolve =
        on_error (wrap "resolve runtime") (resolve_runtime env json d.runtime d.model_name) in
      let (runtime, k₃, p₃) =
        bind-eq-ok
          (λ x. with_tx env (reconcile_body env json (deployment_task_creator json) d x nodes))
          resolve s₂ u (value (p₁ ∙ p₂) h) in
      let s₃ = (resolve s₂).1 in
      let (k₄, _, d₄) =
        with_tx-commits env s₃
          (reconcile_body env json (deployment_task_creator json) d runtime nodes) u
          (value (p₁ ∙ p₂ ∙ p₃) h) in
      let d₁ = ap (λ (t : Session). t.db) same in
      let d₂ = list_nodes-db env target s₁ ∙ d₁ in
      let d₃ = resolve_runtime-db env json d s₂ ∙ d₂ in
      let after =
        (reconcile_body env json (deployment_task_creator json) d runtime nodes (opened s₃)).1.db in
      let done = reconcile_body-effect env json d runtime nodes (opened s₃) u refl k₄ in
      let n = list_nodes-effect env target s₁ nodes k₂ ∙ ap (λ db. target_nodes db target) d₁ in
      let r =
        resolve_runtime-effect env json d s₂ runtime k₃ ∙ ap (λ db. runtime_of json db d) d₂ in
      (
        target,
        e₁,
        subst
            (λ db.
              Reconciled env json d (runtime_of json s.db d) (target_nodes s.db target) s.db db)
            (sym (ap db_of (p₁ ∙ p₂ ∙ p₃) ∙ d₄))
            (subst (λ x. Reconciled env json d x (target_nodes s.db target) s.db after) r
              (subst (λ x. Reconciled env json d runtime x s.db after) n
                (subst (λ db. Reconciled env json d runtime nodes db after) d₃ done))),
      )
    where
      value : {x y : Result (Unit {0}) × Session} → x ≡ y → x.0 ≡ ok u → y.0 ≡ ok u
      value p h = ap (λ (r : Result (Unit {0}) × Session). r.0) (sym p) ∙ h

known_target-IsReadOnly : (t : Option Target) → IsReadOnly (known_target t)
known_target-IsReadOnly none = raise-IsReadOnly _
known_target-IsReadOnly (some t) = pure-IsReadOnly t

resolve_runtime-IsReadOnly :
    (env : Env) (json : JsonTools) (runtime model_name : String)
    → IsReadOnly (resolve_runtime env json runtime model_name)
unfolding resolve_runtime list_runtime_profiles
resolve_runtime-IsReadOnly env json runtime model_name = elim (Bool-cases (runtime == "auto")) [
  | inl t ↦ rw t (
      bind-IsReadOnly _ _
        (on_error-IsReadOnly _ _ (on_error-IsReadOnly _ _ (select_now-IsReadOnly env _)))
        (λ ps. pure-IsReadOnly _))
  | inr f ↦ rw f (pure-IsReadOnly runtime)
]

-- A pass over a deployment that returns an error has changed no table, whichever statement failed.
pub reconcile_one-IsAtomic :
    (env : Env) (json : JsonTools) (creator : TaskCreator) (d : DeploymentRow)
    → IsAtomic (reconcile_one env json creator d)
unfolding reconcile_one list_nodes_by_gateway_and_labels
reconcile_one-IsAtomic env json creator d = bind-IsAtomic _ _ (known_target-IsReadOnly _) (λ target.
    bind-IsAtomic _ _
      (on_error-IsReadOnly _ _ (on_error-IsReadOnly _ _ (select_now-IsReadOnly env _)))
      (λ nodes.
        bind-IsAtomic _ _ (on_error-IsReadOnly _ _ (resolve_runtime-IsReadOnly env json _ _))
          (λ runtime. with_tx-IsAtomic env _)))
