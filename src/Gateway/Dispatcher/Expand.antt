-- ===== src/Gateway/Dispatcher/Expand.antt =====
-- PushRegionalTask of internal/gateway/dispatcher.go: the tasks that it adds, and its counts.
use ai_edge.Prelude.{
  ℕ, suc, ◌+◌, ◌≤◌, ◌≡◌, refl, sym, ap, ◌∙◌, String, concat, Bool, true, false, none, List, [], ◌∷◌,
  ◌++◌, arith, ◌==◌, eqb, eq_refl, eq_iff, find_row, update_rows, count_rows, update_rows-append,
  count_rows-append, length, Bool-cases, Option-cases, inl, inr,
}
use ai_edge.Store.Errors.{Result, ok, err}
use ai_edge.Store.Schema.{Db, TaskRow}
use ai_edge.Store.Session.{Env, Session, pure, opened, statement}
use ai_edge.Store.Transactions.{with_tx-commits, bind-eq-ok, db_of}
use ai_edge.Task.Store.{
  has_id, new_task, claimable, claim_row, in_dispatch, create_task, create_task_event, atomic_claim,
  mark_delivered,
}
use ai_edge.Task.Store.Effects.{with_event, create_task_event-effect}
use ai_edge.Gateway.Dispatcher.{
  Dispatcher, PushRequest, PushResponse, node_row, delivered_if, expand_body, expand_and_claim,
  counted, expand_all, push_regional_task,
}

abbrev with_task : Db → TaskRow → Db
with_task db row = record db { tasks = db.tasks ++ row ∷ [] }

create_task-effect :
    (env : Env) (row : TaskRow) (s : Session) (created : TaskRow)
    → s.aborted ≡ false
    → (create_task env row s).0 ≡ ok created
    → (find_row (has_id created.id) s.db.tasks ≡ none)
      × ((create_task env row s).1.aborted ≡ false)
      × ((create_task env row s).1.db ≡ with_task s.db (new_task env.now created.id row))
unfolding create_task statement
create_task-effect env row s created a h = elim (Option-cases row.payload) [
  | inl e ↦ absurd (ground (arith, e))
  | inr (payload, e) ↦ elim (Option-cases (find_row (has_id (env.uuid s.tick)) s.db.tasks)) [
    | inr (old, e') ↦ absurd (ground (arith, e, e'))
    | inl e' ↦ (ground (arith, e, e'), ground (arith, e, e'), ground (arith, e, e'))
  ]
]

claim-effect :
    (env : Env) (id owner : String) (duration : ℕ) (s : Session) (b : Bool)
    → s.aborted ≡ false
    → (atomic_claim env id owner duration s).0 ≡ ok b
    → (b ≡ eqb (count_rows (claimable env.now id) s.db.tasks) 1)
      × ((atomic_claim env id owner duration s).1.aborted ≡ false)
      × ((atomic_claim env id owner duration s).1.db ≡ record s.db {
        tasks = update_rows (claimable env.now id) (claim_row env owner duration) s.db.tasks;
      })
unfolding atomic_claim statement
claim-effect env id owner duration s b a h = (ground arith, ground arith, ground arith)

abbrev delivered_row : ℕ → TaskRow → TaskRow
delivered_row now r = record r { dispatch_status = "Delivered"; updated_at = now }

deliver-effect :
    (env : Env) (id : String) (s : Session) (u : Unit {0})
    → s.aborted ≡ false
    → (mark_delivered env id s).0 ≡ ok u
    → ((mark_delivered env id s).1.aborted ≡ false)
      × ((mark_delivered env id s).1.db ≡ record s.db {
        tasks = update_rows (in_dispatch id "Claimed") (delivered_row env.now) s.db.tasks;
      })
unfolding mark_delivered statement
deliver-effect env id s u a h = (ground arith, ground arith)

-- On a database whose last task is the only one of its id and waits for a claim.
module _ (env : Env) (s : Session) (old : Db) (row : TaskRow) where
  atomic_claim-effect :
      (owner : String) (duration : ℕ) (b : Bool)
      → s.aborted ≡ false
      → find_row (has_id row.id) old.tasks ≡ none
      → s.db.tasks ≡ old.tasks ++ row ∷ []
      → (row.dispatch_status == "Unclaimed") ≡ true
      → (atomic_claim env row.id owner duration s).0 ≡ ok b
      → (b ≡ true)
        × ((atomic_claim env row.id owner duration s).1.aborted ≡ false)
        × ((atomic_claim env row.id owner duration s).1.db
            ≡ record s.db { tasks = old.tasks ++ claim_row env owner duration row ∷ [] })
  unfolding claimable
  atomic_claim-effect owner duration b a n e u h =
      let one =
        count_rows-append (has_id row.id) (claimable env.now row.id) old.tasks row
          (λ x. ground arith) n (ground (arith, eq_refl row.id)) in
      let all =
        update_rows-append (has_id row.id) (claimable env.now row.id) (claim_row env owner duration)
          old.tasks row (λ x. ground arith) n (ground (arith, eq_refl row.id)) in
      let (p, a', d) = claim-effect env row.id owner duration s b a h in
      let own =
        p ∙ ap (λ (ts : List TaskRow). eqb (count_rows (claimable env.now row.id) ts) 1) e in
      (
        own ∙ ap (λ (k : ℕ). eqb k 1) one,
        a',
        d
            ∙ ap
                (λ (ts : List TaskRow). record s.db {
                  tasks = update_rows (claimable env.now row.id) (claim_row env owner duration) ts;
                })
                e
            ∙ ap (λ (ts : List TaskRow). record s.db { tasks = ts }) all,
      )

  mark_delivered-effect :
      (u : Unit {0})
      → s.aborted ≡ false
      → find_row (has_id row.id) old.tasks ≡ none
      → s.db.tasks ≡ old.tasks ++ row ∷ []
      → (row.dispatch_status == "Claimed") ≡ true
      → (mark_delivered env row.id s).0 ≡ ok u
      → (mark_delivered env row.id s).1.db
        ≡ record s.db { tasks = old.tasks ++ delivered_row env.now row ∷ [] }
  mark_delivered-effect u a n e c h =
      let (_, d) = deliver-effect env row.id s u a h in
      let all =
        update_rows-append (has_id row.id) (in_dispatch row.id "Claimed") (delivered_row env.now)
          old.tasks row (λ x. ground arith) n (ground (arith, eq_refl row.id, c)) in
      d
      ∙ ap
          (λ (ts : List TaskRow). record s.db {
            tasks = update_rows (in_dispatch row.id "Claimed") (delivered_row env.now) ts;
          })
          e
      ∙ ap (λ (ts : List TaskRow). record s.db { tasks = ts }) all

-- The task of one node, claimed by the gateway and delivered.
abbrev pub expanded_row : Env → Dispatcher → PushRequest → (node_id id : String) → TaskRow
expanded_row env d req node_id id =
    delivered_row env.now
      (claim_row env d.gateway_id d.claim_duration (new_task env.now id (node_row d req node_id)))

abbrev pub expanded_db : Env → Dispatcher → PushRequest → (node_id id : String) → Db → Db
expanded_db env d req node_id id db =
    with_event (with_task db (expanded_row env d req node_id id)) id "expanded" "" "Pending"
      (concat "gateway:" d.gateway_id) (("parent_task_id", req.task_id) ∷ ("node_id", node_id) ∷ [])
      env.now

body_expands :
    (env : Env) (d : Dispatcher) (req : PushRequest) (node_id : String) (s : Session) (b : Bool)
    → s.aborted ≡ false
    → (expand_body env d req node_id s).0 ≡ ok b
    → (b ≡ true)
      × ((id : String) × (find_row (has_id id) s.db.tasks ≡ none)
          × ((expand_body env d req node_id s).1.db ≡ expanded_db env d req node_id id s.db))
body_expands env d req node_id s b a h =
    let (made, k₁, p₁) = bind-eq-ok _ (create_task env (node_row d req node_id)) s b h in
    let (n, a₁, d₁) = create_task-effect env (node_row d req node_id) s made a k₁ in
    let s₁ = (create_task env (node_row d req node_id) s).1 in
    let row = new_task env.now made.id (node_row d req node_id) in
    let event =
      create_task_event env made.id "expanded" "" "Pending" (concat "gateway:" d.gateway_id)
        (("parent_task_id", req.task_id) ∷ ("node_id", node_id) ∷ []) in
    let (_, k₂, p₂) = bind-eq-ok _ event s₁ b (value p₁ h) in
    let (a₂, d₂) =
      create_task_event-effect env s₁ a₁ made.id "expanded" "" "Pending"
        (concat "gateway:" d.gateway_id) _ _ k₂ in
    let s₂ = (event s₁).1 in
    let e₂ : s₂.db.tasks ≡ s.db.tasks ++ row ∷ [] =
      ap (λ (db : Db). db.tasks)
        (d₂
          ∙ ap
              (λ (db : Db).
                with_event db made.id "expanded" "" "Pending" (concat "gateway:" d.gateway_id)
                  (("parent_task_id", req.task_id) ∷ ("node_id", node_id) ∷ []) env.now)
              d₁) in
    let (won, k₃, p₃) =
      bind-eq-ok (delivered_if env made.id) (atomic_claim env made.id d.gateway_id d.claim_duration)
        s₂ b (value (p₁ ∙ p₂) h) in
    let (w, a₃, d₃) =
      atomic_claim-effect env s₂ s.db row d.gateway_id d.claim_duration won a₂ n e₂ refl k₃ in
    let s₃ = (atomic_claim env made.id d.gateway_id d.claim_duration s₂).1 in
    let e₃ = ap (λ (x : Bool). delivered_if env made.id x s₃) w in
    let claimed = claim_row env d.gateway_id d.claim_duration row in
    let (_, k₄, p₄) =
      bind-eq-ok (λ _. pure true) (mark_delivered env made.id) s₃ b (value (p₁ ∙ p₂ ∙ p₃ ∙ e₃) h) in
    let d₄ =
      mark_delivered-effect env s₃ s.db claimed _ a₃ n (ap (λ (db : Db). db.tasks) d₃) refl k₄ in
    let whole = p₁ ∙ p₂ ∙ p₃ ∙ e₃ ∙ p₄ in
    let answer = value whole h in
    let with_tasks : Db → Db =
      λ db. record db { tasks = s.db.tasks ++ delivered_row env.now claimed ∷ [] } in
    let noted =
      d₂
      ∙ ap
          (λ (db : Db).
            with_event db made.id "expanded" "" "Pending" (concat "gateway:" d.gateway_id)
              (("parent_task_id", req.task_id) ∷ ("node_id", node_id) ∷ []) env.now)
          d₁ in
    (
      cc,
      (
        made.id,
        n,
        ap db_of whole
            ∙ d₄
            ∙ ap with_tasks
                (d₃ ∙ ap (λ (db : Db). record db { tasks = s.db.tasks ++ claimed ∷ [] }) noted),
      ),
    )
  where
    value : {x y : Result Bool × Session} → x ≡ y → x.0 ≡ ok b → y.0 ≡ ok b
    value p h = ap (λ (r : Result Bool × Session). r.0) (sym p) ∙ h

-- A node that is expanded is always claimed: one new task of the node, bound to the gateway, owned
-- by it and delivered, is added with one event, and nothing else changes.
pub expand_and_claim-effect :
    (env : Env) (d : Dispatcher) (req : PushRequest) (node_id : String) (s : Session) (b : Bool)
    → (expand_and_claim env d req node_id s).0 ≡ ok b
    → (b ≡ true)
      × ((id : String) × (find_row (has_id id) s.db.tasks ≡ none)
          × ((expand_and_claim env d req node_id s).1.db ≡ expanded_db env d req node_id id s.db))
unfolding expand_and_claim
expand_and_claim-effect env d req node_id s b h =
    let (k, _, e) = with_tx-commits env s (expand_body env d req node_id) b h in
    let (w, (id, n, e')) = body_expands env d req node_id (opened s) b refl k in
    (w, (id, n, e ∙ e'))

counted-one :
    (r : Result Bool) (n : PushResponse)
    → ((b : Bool) → r ≡ ok b → b ≡ true)
    → n.expanded_count ≡ n.claimed_count
    → ((counted r n).expanded_count ≡ (counted r n).claimed_count)
      × ((counted r n).expanded_count ≤ suc n.expanded_count)
counted-one (err e) n w h = (h, omega arith)
counted-one (ok true) n w h = (ap suc h, omega arith)
counted-one (ok false) n w h = absurd (ground (arith, w false refl))

expand_all-counts :
    (env : Env) (d : Dispatcher) (req : PushRequest) (nodes : List String) (n m : PushResponse)
    (s : Session)
    → n.expanded_count ≡ n.claimed_count
    → (expand_all env d req nodes n s).0 ≡ ok m
    → (m.expanded_count ≡ m.claimed_count) × (m.expanded_count ≤ n.expanded_count + length nodes)
unfolding expand_all
expand_all-counts env d req [] n m s h e = (ground arith, ground arith)
expand_all-counts env d req (node_id ∷ rest) n m s h e =
    let r = expand_and_claim env d req node_id s in
    let (same, most) =
      counted-one r.0 n (λ b k. (expand_and_claim-effect env d req node_id s b k).0) h in
    let (same', most') = expand_all-counts env d req rest (counted r.0 n) m r.1 same e in
    (same', omega (arith, most, most'))

-- Whichever transactions fail, the answer to a push counts every expanded node as claimed, and no
-- more nodes than the request names.
pub push_regional_task-counts :
    (env : Env) (d : Dispatcher) (req : PushRequest) (s : Session) (m : PushResponse)
    → (push_regional_task env d req s).0 ≡ ok m
    → (req.gateway_id ≡ d.gateway_id)
      × (m.expanded_count ≡ m.claimed_count)
      × (m.expanded_count ≤ length req.target_node_ids)
unfolding push_regional_task
push_regional_task-counts env d req s m h = elim (Bool-cases (req.task_id == "")) [
  | inl empty ↦ absurd (ground arith)
  | inr task ↦ elim (Bool-cases (req.gateway_id == "")) [
    | inl empty ↦ absurd (ground arith)
    | inr gateway ↦ elim (Bool-cases (req.gateway_id == d.gateway_id)) [
      | inr other ↦ absurd (ground arith)
      | inl own ↦
          let start : PushResponse = record { expanded_count = 0; claimed_count = 0 } in
          let k : (expand_all env d req req.target_node_ids start s).0 ≡ ok m =
            ground (arith, task, gateway, own) in
          let (same, most) = expand_all-counts env d req req.target_node_ids start m s refl k in
          ((eq_iff req.gateway_id d.gateway_id).0 own, same, omega (arith, most))
    ]
  ]
]
