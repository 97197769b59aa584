-- ===== src/Gateway/AgentService/Pull.antt =====
-- PullTasks of internal/gateway/agent_service.go.
use mathlib.Core.Bool.{false≢true}
use ai_edge.Prelude.{
  order_by, ◌≤◌, ◌≡◌, refl, sym, ap, subst, ◌∙◌, String, concat, true, false, List, [], ◌∷◌, ◌++◌,
  map, arith, ◌||◌, ◌==◌, length, length-take-le, ap₂, All-map, All-imp, where_rows, All, All-take,
  All-order_by, update_rows, Bool-cases, inl, inr, All-update_rows, All-update_rows_split,
}
use ai_edge.Prelude.Int.{ℤ}
use ai_edge.Proto.{internal}
use ai_edge.Store.Errors.{Result, ok, grpc_of, wrap}
use ai_edge.Store.Schema.{Db, TaskRow}
use ai_edge.Store.Session.{Env, Session, Exec, opened, statement, select, with_tx, on_error}
use ai_edge.Store.Transactions.{respond, respond-commits, bind-eq-ok, select-eq-ok}
use ai_edge.Task.Store.{has_id, new_event, create_task_event}
use ai_edge.Gateway.AgentService.{
  PullTasksRequest, NodeTask, node_task, clamp_max, deliverable, oldest_first, waiting_tasks,
  running_row, deliver, deliver_all, pull_body, pull_tasks, validate_authenticated_node,
}

clamp_bound : (m : ℤ) → clamp_max m ≤ 100
unfolding clamp_max
clamp_bound m = ground arith

waiting_bound :
    (gateway_id : String) (req : PullTasksRequest) (db : Db)
    → length (waiting_tasks gateway_id req db) ≤ 100
unfolding waiting_tasks
waiting_bound gateway_id req db = omega (
  arith,
  length-take-le (clamp_max req.max_tasks)
      (order_by oldest_first (where_rows (deliverable gateway_id req.node_id) db.tasks)),
  clamp_bound req.max_tasks,
)

-- The tables after one task is delivered.
abbrev pub delivered_one : Env → String → String → TaskRow → Db → Db
delivered_one env gateway_id node_id row db = record db {
  tasks = update_rows (has_id row.id) (running_row env (concat "gateway:" gateway_id)) db.tasks;
  task_events =
      db.task_events
      ++ new_event env.now row.id "delivered" "Pending" "Running" (concat "gateway:" gateway_id)
          (("node_id", node_id) ∷ ("gateway_id", gateway_id) ∷ [])
        ∷ [];
}

-- And after all of them are.
pub delivered_db : Env → String → String → List TaskRow → Db → Db
delivered_db env gateway_id node_id [] db = db
delivered_db env gateway_id node_id (row ∷ rows) db =
    delivered_db env gateway_id node_id rows (delivered_one env gateway_id node_id row db)

result_unique : {a b : List NodeTask} → ok a ≡ ok b → a ≡ b
result_unique h = cc

module _ (env : Env) (gateway_id node_id : String) where
  deliver-effect :
      (row : TaskRow) (s : Session) (u : Unit {0})
      → (deliver env gateway_id node_id row s).0 ≡ ok u
      → s.aborted ≡ false
      → ((deliver env gateway_id node_id row s).1.aborted ≡ false)
        × ((deliver env gateway_id node_id row s).1.db
            ≡ delivered_one env gateway_id node_id row s.db)
  unfolding deliver statement create_task_event
  deliver-effect row s u h a = (ground arith, ground arith)

  deliver_all-effect :
      (rows : List TaskRow) (s : Session) (ts : List NodeTask)
      → (deliver_all env gateway_id node_id rows s).0 ≡ ok ts
      → s.aborted ≡ false
      → (ts ≡ map node_task rows)
        × ((deliver_all env gateway_id node_id rows s).1.db
            ≡ delivered_db env gateway_id node_id rows s.db)
  unfolding deliver_all delivered_db
  deliver_all-effect [] s ts h a = (cc, refl)
  deliver_all-effect (row ∷ rows) s ts h a =
      let (u, k, p) = bind-eq-ok _ (deliver env gateway_id node_id row) s ts h in
      let t = (deliver env gateway_id node_id row s).1 in
      let (ta, td) = deliver-effect row s u k a in
      let (ts', k', p') =
        bind-eq-ok _ (deliver_all env gateway_id node_id rows) t ts
          (ap (λ (r : Result (List NodeTask) × Session). r.0) (sym p) ∙ h) in
      let (q, d) = deliver_all-effect rows t ts' k' ta in
      let whole = p ∙ p' in
      (
        result_unique (sym h ∙ ap (λ (r : Result (List NodeTask) × Session). r.0) whole)
            ∙ ap (λ (l : List NodeTask). node_task row ∷ l) q,
        ap (λ (r : Result (List NodeTask) × Session). r.1.db) whole
            ∙ d
            ∙ ap (delivered_db env gateway_id node_id rows) td,
      )

-- Every row of the id is running.
abbrev Runs : String → TaskRow → Type 0
Runs id r = (r.id == id) ≡ true → r.status ≡ "Running"

module _ (env : Env) (gateway_id node_id : String) where
  delivered_one-Runs :
      (row : TaskRow) (id : String) (db : Db)
      → All (Runs id) db.tasks
      → All (Runs id) (delivered_one env gateway_id node_id row db).tasks
  delivered_one-Runs row id db h =
      All-update_rows (Runs id) (has_id row.id) (running_row env (concat "gateway:" gateway_id))
        db.tasks (λ x k e m. refl) h

  delivered_one_self :
      (row : TaskRow) (xs : List TaskRow)
      → All
          (Runs row.id)
          (update_rows (has_id row.id) (running_row env (concat "gateway:" gateway_id)) xs)
  delivered_one_self row xs =
      All-update_rows_split (Runs row.id) (has_id row.id)
        (running_row env (concat "gateway:" gateway_id)) xs (λ x k m. refl) (λ x k m. cc (k, m))

  delivered_db-Runs :
      (rows : List TaskRow) (id : String) (db : Db)
      → All (Runs id) db.tasks
      → All (Runs id) (delivered_db env gateway_id node_id rows db).tasks
  unfolding delivered_db
  delivered_db-Runs [] id db h = h
  delivered_db-Runs (row ∷ rows) id db h =
      delivered_db-Runs rows id _ (delivered_one-Runs row id db h)

  delivered_db-All-Runs :
      (rows : List TaskRow) (db : Db)
      → All (λ r. All (Runs r.id) (delivered_db env gateway_id node_id rows db).tasks) rows
  unfolding delivered_db
  delivered_db-All-Runs [] db = tt
  delivered_db-All-Runs (row ∷ rows) db = (
    delivered_db-Runs rows row.id _ (delivered_one_self row db.tasks),
    delivered_db-All-Runs rows _,
  )

abbrev answered : Env → String → PullTasksRequest → Exec (List NodeTask)
answered env gateway_id req =
    respond (grpc_of internal "pull tasks") (λ ts. ts) (with_tx env (pull_body env gateway_id req))

module _ (env : Env) (gateway_id caller : String) (req : PullTasksRequest) (s : Session)
    (ts : List NodeTask) (h : (pull_tasks env gateway_id caller req s).0 ≡ ok ts) where
  -- A pull that answers has passed its guards.
  passed : pull_tasks env gateway_id caller req s ≡ answered env gateway_id req s
  unfolding pull_tasks validate_authenticated_node
  passed = elim (Bool-cases (req.node_id == "")) [
    | inl empty ↦ absurd (ground arith)
    | inr filled ↦ elim (Bool-cases (caller == "" || caller == req.node_id)) [
      | inl same ↦ rw filled (rw same refl)
      | inr other ↦ absurd (ground arith)
    ]
  ]

body_effect :
    (env : Env) (gateway_id : String) (req : PullTasksRequest) (s : Session) (ts : List NodeTask)
    → s.aborted ≡ false
    → (pull_body env gateway_id req s).0 ≡ ok ts
    → (ts ≡ map node_task (waiting_tasks gateway_id req s.db))
      × ((pull_body env gateway_id req s).1.db
          ≡ delivered_db env gateway_id req.node_id (waiting_tasks gateway_id req s.db) s.db)
body_effect env gateway_id req s ts a h =
    let (rows, k, p) =
      bind-eq-ok _ (on_error (wrap "query node tasks") (select env (waiting_tasks gateway_id req)))
        s ts h in
    let (same, ta, td) =
      select-eq-ok (wrap "query node tasks") env (waiting_tasks gateway_id req) s rows a k in
    let (q, d) =
      deliver_all-effect env gateway_id req.node_id rows _ ts
        (ap (λ (r : Result (List NodeTask) × Session). r.0) (sym p) ∙ h) ta in
    (
      q ∙ ap (map node_task) same,
      ap (λ (r : Result (List NodeTask) × Session). r.1.db) p
          ∙ d
          ∙ ap₂ (delivered_db env gateway_id req.node_id) same td,
    )

-- A pull that answers has handed out the tasks that were waiting for the node, oldest first and at
-- most 100, and the tables hold each of them as running, with one event for each.
pub pull_tasks-effect :
    (env : Env) (gateway_id caller : String) (req : PullTasksRequest) (s : Session)
    (ts : List NodeTask)
    → (pull_tasks env gateway_id caller req s).0 ≡ ok ts
    → (ts ≡ map node_task (waiting_tasks gateway_id req s.db))
      × (length (waiting_tasks gateway_id req s.db) ≤ 100)
      × ((pull_tasks env gateway_id caller req s).1.db
          ≡ delivered_db env gateway_id req.node_id (waiting_tasks gateway_id req s.db) s.db)
pull_tasks-effect env gateway_id caller req s ts h =
    let p = passed env gateway_id caller req s ts h in
    let (rows, k, e, d) =
      respond-commits (grpc_of internal "pull tasks") (λ (l : List NodeTask). l) env
        (pull_body env gateway_id req) s ts
        (ap (λ (r : Result (List NodeTask) × Session). r.0) (sym p) ∙ h) in
    let (q, t) = body_effect env gateway_id req (opened s) rows refl k in
    (
      e ∙ q,
      waiting_bound gateway_id req s.db,
      ap (λ (r : Result (List NodeTask) × Session). r.1.db) p ∙ d ∙ t,
    )

running_waits : (st : String) → (st == "Pending" || st == "Retrying") ≡ true → st ≡ "Running" → ⊥
running_waits st h e =
    false≢true (subst (λ (t : String). (t == "Pending" || t == "Retrying") ≡ true) e h)

deliverable_waits :
    (gateway_id node_id : String) (r : TaskRow)
    → deliverable gateway_id node_id r ≡ true
    → r.status ≡ "Running"
    → ⊥
unfolding deliverable
deliverable_waits gateway_id node_id r h e = running_waits r.status (ground arith) e

module _ (gateway_id node_id id : String) where
  none_waiting :
      (xs : List TaskRow)
      → All (Runs id) xs
      → All (λ b. (b.id == id) ≡ false) (where_rows (deliverable gateway_id node_id) xs)
  unfolding where_rows
  none_waiting [] h = tt
  none_waiting (x ∷ xs) h =
      ground (arith, h.0, deliverable_waits gateway_id node_id x, none_waiting xs h.1)

not_waiting :
    (gateway_id id : String) (req : PullTasksRequest) (db : Db)
    → All (Runs id) db.tasks
    → All (λ b. (b.id == id) ≡ false) (waiting_tasks gateway_id req db)
unfolding waiting_tasks
not_waiting gateway_id id req db h =
    All-take _ (clamp_max req.max_tasks) _
      (All-order_by _ _ _ (none_waiting gateway_id req.node_id id db.tasks h))

-- A task that one pull has handed out is handed out by no pull that comes next, of whichever node
-- and gateway.
pub pull_tasks_once :
    (env later : Env) (gateway_id caller other_gateway other_caller : String)
    (req other : PullTasksRequest) (s t : Session) (ts us : List NodeTask)
    → (pull_tasks env gateway_id caller req s).0 ≡ ok ts
    → t.db ≡ (pull_tasks env gateway_id caller req s).1.db
    → (pull_tasks later other_gateway other_caller other t).0 ≡ ok us
    → All (λ a. All (λ b. (b.task_id == a.task_id) ≡ false) us) ts
pull_tasks_once env later gateway_id caller other_gateway other_caller req other s t ts us h e k =
    let (p, _, d) = pull_tasks-effect env gateway_id caller req s ts h in
    let (q, _, _) = pull_tasks-effect later other_gateway other_caller other t us k in
    rw p (
      All-map _ node_task (waiting_tasks gateway_id req s.db) (
        All-imp _
          (λ a runs. rw q (
            All-map _ node_task (waiting_tasks other_gateway other t.db) (
              not_waiting other_gateway a.id other t.db
                (subst (λ (db : Db). All (Runs a.id) db.tasks) (sym (e ∙ d)) runs))))
          (delivered_db-All-Runs env gateway_id req.node_id (waiting_tasks gateway_id req s.db)
            s.db)))
