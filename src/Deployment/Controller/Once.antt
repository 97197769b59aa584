-- ===== src/Deployment/Controller/Once.antt =====
-- The controller of internal/deployment/controller.go over many passes: the tasks of a deployment
-- are made once, also where several controllers work from rows that are out of date.
use ai_edge.Prelude.{
  ℕ, ◌≡◌, refl, sym, ap, ◌∙◌, subst, ◌⊎◌, inl, inr, String, Bool, true, false, some, List, [], ◌∷◌,
  ◌++◌, append-nil, arith, ◌==◌, eq_iff, eq_refl, update_rows, ltb, ◌&&◌, ◌+◌, find_row,
  find_row-holds, find_row-update_rows, find_row-update_rows-none, Bool-cases, Option-cases,
}
use ai_edge.Prelude.Int.{pos, leb_ℤ}
use ai_edge.Store.Errors.{ok}
use ai_edge.Store.Schema.{Db, DeploymentRow}
use ai_edge.Store.Session.{Env, Session}
use ai_edge.Store.Keeps.{Keeps}
use ai_edge.Store.Transactions.{Result-cases}
use ai_edge.Deployment.Json.{DeploymentStatus, Target, JsonTools, IsLawful}
use ai_edge.Deployment.Store.{deployment_has_id, with_deployment_status}
use ai_edge.Deployment.Store.Effects.{counted_nodes}
use ai_edge.Deployment.Controller.{
  due, is_empty, counted_status, deployment_task_creator, reconcile_one, reconcile_all,
}
use ai_edge.Deployment.Controller.Pass.{base_status, counted_if, next_status, Reconciled}
use ai_edge.Deployment.Controller.Refine.{
  target_nodes, reconcile_one-effect, reconcile_one-IsAtomic,
}

abbrev pub is_pending : JsonTools → DeploymentRow → Bool
is_pending json r = (json.left_status r.status).phase == "Pending"

-- The stored phase of the deployment is past "Pending".
abbrev pub Started : JsonTools → String → Db → Type 0
Started json id db =
    (r : DeploymentRow)
    → find_row (deployment_has_id id) db.model_deployments ≡ some r
    → is_pending json r ≡ false

counted-phase :
    (st : DeploymentStatus) (counts : ℕ × ℕ)
    → (st.phase == "Pending") ≡ false
    → ((counted_if st counts).phase == "Pending") ≡ false
unfolding counted_status
counted-phase st (ready, failed) h = elim (Bool-cases (st.phase == "RollingOut")) [
  | inr f ↦ rw f h
  | inl t ↦ rw t (elim (Bool-cases (leb_ℤ st.desired_nodes (pos ready))) [
    | inl t' ↦ rw t' refl
    | inr f' ↦
        rw f' (elim (Bool-cases (ltb 0 failed && leb_ℤ st.desired_nodes (pos (ready + failed)))) [
          | inl t'' ↦ rw t'' refl
          | inr f'' ↦ rw f'' h
        ])
  ])
]

base-phase :
    (st : DeploymentStatus) (nodes : List String)
    → (((st.phase == "Pending") ≡ false) ⊎ (due st nodes ≡ true))
    → ((base_status st nodes).phase == "Pending") ≡ false
base-phase st nodes h = elim (Bool-cases (due st nodes)) [
  | inl t ↦ rw t refl
  | inr f ↦ rw f (elim h [ inl n ↦ n | inr t ↦ absurd (ground arith) ])
]

module _ (env : Env) (json : JsonTools) (law : IsLawful json) (d : DeploymentRow) (runtime : String)
    (nodes : List String) (db db' : Db) where
  -- A row after the pass is the row of the deployment with its next status, or a row as it was.
  stored-row :
      (pass : Reconciled env json d runtime nodes db db') (id : String) (r : DeploymentRow)
      → find_row (deployment_has_id id) db'.model_deployments ≡ some r
      → ((id ≡ d.id)
          × ((json.left_status r.status).phase
              ≡ (next_status
                  (json.left_status pass.0.status)
                  nodes
                  (counted_nodes db d.model_name d.model_version)).phase))
        ⊎ (((id == d.id) ≡ false) × (find_row (deployment_has_id id) db.model_deployments ≡ some r))
  stored-row (row, rows, found, made, e) id r h =
      let st =
        next_status (json.left_status row.status) nodes
          (counted_nodes db d.model_name d.model_version) in
      let change = with_deployment_status env.now (json.write_status st) in
      let after : find_row (deployment_has_id id)
            (update_rows (deployment_has_id row.id) change db.model_deployments)
          ≡ some r =
        ap (λ (x : Db). find_row (deployment_has_id id) x.model_deployments) (sym e) ∙ h in
      elim (Option-cases (find_row (deployment_has_id id) db.model_deployments)) [
        | inl n ↦
            let n' =
              find_row-update_rows-none (deployment_has_id id) (deployment_has_id row.id) change
                db.model_deployments (λ x. refl) n in
            absurd (ground (arith, n', after))
        | inr (a, k) ↦
            let k' =
              find_row-update_rows (deployment_has_id id) (deployment_has_id row.id) change
                db.model_deployments a (λ x. refl) k in
            let own = (eq_iff a.id id).0 (find_row-holds (deployment_has_id id) _ a k) in
            let own' =
              (eq_iff row.id d.id).0 (find_row-holds (deployment_has_id d.id) _ row found) in
            elim (Bool-cases (a.id == row.id)) [
              | inr f ↦ inr (
                subst (λ x. (id == x) ≡ false) own' (subst (λ x. (x == row.id) ≡ false) own f),
                k ∙ ground (arith, f, k', after),
              )
              | inl t ↦
                  let same : id ≡ d.id = sym own ∙ (eq_iff a.id row.id).0 t ∙ own' in
                  let p : some (change a) ≡ some r = ground (arith, t, k', after) in
                  let q : change a ≡ r = cc in
                  inl (
                    same,
                    ap (λ (x : DeploymentRow). (json.left_status x.status).phase) (sym q)
                        ∙ law.phase-write_status st,
                  )
            ]
      ]

  pass-Started :
      (id : String)
      → Reconciled env json d runtime nodes db db'
      → Started json id db
      → Started json id db'
  pass-Started id pass before r h = elim (stored-row pass id r h) [
    | inr (other, k) ↦ before r k
    | inl (same, e) ↦
        let row = pass.0 in
        let found : find_row (deployment_has_id id) db.model_deployments ≡ some row =
          ap (λ x. find_row (deployment_has_id x) db.model_deployments) same ∙ pass.2 in
        ap (λ phase. phase == "Pending") e
        ∙ counted-phase (base_status (json.left_status row.status) nodes) _
            (base-phase (json.left_status row.status) nodes (inl (before row found)))
  ]

  pass_starts :
      Reconciled env json d runtime nodes db db' → is_empty nodes ≡ false → Started json d.id db'
  pass_starts pass some_node r h = elim (stored-row pass d.id r h) [
    | inr (other, k) ↦ absurd (ground (arith, other, eq_refl d.id))
    | inl (_, e) ↦
        let st = json.left_status pass.0.status in
        let phase : ((st.phase == "Pending") ≡ false) ⊎ (due st nodes ≡ true) =
          elim (Bool-cases (st.phase == "Pending")) [
            | inl t ↦ inr (ground (arith, t, some_node))
            | inr f ↦ inl f
          ] in
        ap (λ p. p == "Pending") e
        ∙ counted-phase (base_status st nodes) _ (base-phase st nodes phase)
  ]

  pass_idle :
      Reconciled env json d runtime nodes db db' → Started json d.id db → db'.tasks ≡ db.tasks
  pass_idle (row, rows, found, made, e) before =
      let idle : due (json.left_status row.status) nodes ≡ false =
        ground (arith, before row found) in
      let none_made : rows ≡ [] = elim made [
        | inl (_, e) ↦ e
        | inr some_made ↦ absurd (ground (arith, idle, some_made.0))
      ] in
      ap (λ (x : Db). x.tasks) e ∙ ap (λ ts. db.tasks ++ ts) none_made ∙ append-nil db.tasks

-- Passes of the loop, each with what it meets outside itself and the rows that it works from.
abbrev pub passes : JsonTools → List (Env × List DeploymentRow) → Session → Session
passes json [] s = s
passes json ((env, ds) ∷ rest) s =
    passes json rest (reconcile_all env json (deployment_task_creator json) ds s).1

module _ (json : JsonTools) (law : IsLawful json) where
  reconcile_one-Started :
      (env : Env) (d : DeploymentRow) (id : String)
      → Keeps (Started json id) (reconcile_one env json (deployment_task_creator json) d)
  reconcile_one-Started env d id = record {
    at = λ s h. elim (Result-cases (reconcile_one env json (deployment_task_creator json) d s).0) [
      | inl (e, k) ↦
          subst (Started json id)
            (sym ((reconcile_one-IsAtomic env json (deployment_task_creator json) d).reverts s e k))
            h
      | inr (u, k) ↦
          let (target, _, pass) = reconcile_one-effect env json d s u k in
          pass-Started env json law d _ _ s.db _ id pass h
    ];
  }

  reconcile_all-Started :
      (env : Env) (ds : List DeploymentRow) (id : String)
      → Keeps (Started json id) (reconcile_all env json (deployment_task_creator json) ds)
  unfolding reconcile_all
  reconcile_all-Started env [] id = record { at = λ s h. h }
  reconcile_all-Started env (d ∷ ds) id = record {
    at = λ s h. (reconcile_all-Started env ds id).at _ ((reconcile_one-Started env d id).at s h);
  }

  -- A pass over a deployment that has been started adds and changes no task.
  reconcile_one-idle :
      (env : Env) (d : DeploymentRow) (s : Session)
      → Started json d.id s.db
      → (reconcile_one env json (deployment_task_creator json) d s).1.db.tasks ≡ s.db.tasks
  reconcile_one-idle env d s h =
      elim (Result-cases (reconcile_one env json (deployment_task_creator json) d s).0) [
        | inl (e, k) ↦
            ap (λ (x : Db). x.tasks)
              ((reconcile_one-IsAtomic env json (deployment_task_creator json) d).reverts s e k)
        | inr (u, k) ↦
            let (target, _, pass) = reconcile_one-effect env json d s u k in
            pass_idle env json law d _ _ s.db _ pass h
      ]

  passes-Started :
      (rounds : List (Env × List DeploymentRow)) (id : String) (s : Session)
      → Started json id s.db
      → Started json id (passes json rounds s).db
  passes-Started [] id s h = h
  passes-Started ((env, ds) ∷ rest) id s h =
      passes-Started rest id _ ((reconcile_all-Started env ds id).at s h)

  -- Where the phase of a status that is written is read back: once a pass over a deployment with a
  -- target node has succeeded, no later pass over that deployment makes a task, whatever passes over
  -- whichever rows come in between, and however old the row is that it works from.
  pub reconcile_one-once :
      (env : Env) (d : DeploymentRow) (target : Target) (s : Session)
      → json.read_target d.target ≡ some target
      → is_empty (target_nodes s.db target) ≡ false
      → (reconcile_one env json (deployment_task_creator json) d s).0 ≡ ok tt
      → (rounds : List (Env × List DeploymentRow)) (env' : Env) (d' : DeploymentRow) → d'.id ≡ d.id
      → (reconcile_one env' json (deployment_task_creator json) d' (
          passes json rounds
            (reconcile_one env json (deployment_task_creator json) d s).1)).1.db.tasks
        ≡ (passes json rounds
            (reconcile_one env json (deployment_task_creator json) d s).1).db.tasks
  reconcile_one-once env d target s t some_node h rounds env' d' same =
      let s₁ = (reconcile_one env json (deployment_task_creator json) d s).1 in
      let (target', t', pass) = reconcile_one-effect env json d s tt h in
      let p : target ≡ target' = cc in
      let some_node' = subst (λ x. is_empty (target_nodes s.db x) ≡ false) p some_node in
      let start = pass_starts env json law d _ _ s.db _ pass some_node' in
      reconcile_one-idle env' d' _ (
        subst (λ id. Started json id (passes json rounds s₁).db) (sym same)
          (passes-Started rounds d.id s₁ start))
