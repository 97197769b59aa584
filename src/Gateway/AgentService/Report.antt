-- ===== src/Gateway/AgentService/Report.antt =====
-- ReportTaskResult of internal/gateway/agent_service.go.
use ai_edge.Prelude.{
  ℕ, ◌+◌, ◌≡◌, refl, sym, ap, subst, ◌∙◌, String, concat, true, false, Option, some, List, [], ◌∷◌,
  ◌++◌, arith, ◌||◌, ◌==◌, eq_iff, eq_refl, find_row, update_rows, max_rows, max, find_row-holds,
  Bool-cases, Option-cases, inl, inr, ◌⊎◌,
}
use ai_edge.Proto.{running, permission_denied}
use ai_edge.Store.Errors.{Result, ok, grpc}
use ai_edge.Store.Schema.{Db, TaskRow, TaskRunRow}
use ai_edge.Store.Session.{Env, Session, Exec, opened, with_tx, guard, ◌>>=◌, ◌>>◌}
use ai_edge.Store.Transactions.{respond, respond-commits, bind-eq-ok, guard-eq-ok, db_of}
use ai_edge.Task.Machine.{status_to_proto, validate_transition}
use ai_edge.Task.Store.{
  run_has_id, has_id, new_run, run_of, get_task_for_update, latest_attempt, create_task_run,
  update_task_run, update_result, create_task_event,
}
use ai_edge.Task.Store.Effects.{
  with_event, with_result, with_run, with_finished_run, create_task_event-effect,
  update_result-effect, create_task_run-effect, update_task_run-effect, latest_attempt-effect,
  get_task_for_update-effect,
}
use ai_edge.Gateway.AgentService.{
  TaskResultRequest, TextTools, normalize_reported_status, result_json, is_text, report_body,
  report_error, report_task_result, validate_authenticated_node,
}

abbrev Final : String → Type 0
Final st =
    (st ≡ "Success")
    ⊎ (st ≡ "Failed")
    ⊎ (st ≡ "Cancelled")
    ⊎ (st ≡ "Timeout")
    ⊎ (st ≡ "PartiallySucceeded")

Final-cases :
    (tools : TextTools) (raw st : String) → normalize_reported_status tools raw ≡ some st → Final st
unfolding normalize_reported_status
Final-cases tools raw st h = ground arith

abbrev Allowed : String → Type 0
Allowed st = validate_transition running (status_to_proto st) ≡ true

allowed : (st : String) → Final st → Allowed st
unfolding validate_transition status_to_proto
allowed st (inl e) = subst Allowed (sym e) refl
allowed st (inr (inl e)) = subst Allowed (sym e) refl
allowed st (inr (inr (inl e))) = subst Allowed (sym e) refl
allowed st (inr (inr (inr (inl e)))) = subst Allowed (sym e) refl
allowed st (inr (inr (inr (inr e)))) = subst Allowed (sym e) refl

-- Every status that a report can give is one that a running task may take, whatever the texts are
-- folded to.
pub normalize-validate_transition :
    (tools : TextTools) (raw st : String)
    → normalize_reported_status tools raw ≡ some st
    → validate_transition running (status_to_proto st) ≡ true
normalize-validate_transition tools raw st h = allowed st (Final-cases tools raw st h)

-- The number of the next run of the task.
abbrev pub next_attempt : Db → String → ℕ
next_attempt db task_id = max_rows (run_of task_id) (λ r. r.attempt) db.task_runs + 1

-- The tables after a report about `row`, whose run got the id `run_id`.
abbrev pub reported_db :
    Env → TaskResultRequest → (new_status json : String) → TaskRow → String → Db → Db
reported_db env req new_status json row run_id db =
    with_event
      (with_result
        (with_finished_run
          (with_run db (new_run env.now run_id row.id req.node_id (next_attempt db row.id))) env.now
          run_id new_status req.error_message (some json))
        env.now row.id new_status (some json) row.retry_count)
      row.id "result_reported" row.status new_status (concat "agent:" req.node_id)
      (("node_id", req.node_id) ∷ ("error_message", req.error_message) ∷ []) env.now

-- The part of the transaction behind its checks.
abbrev writes : Env → TaskResultRequest → (new_status json : String) → TaskRow → Exec (Unit {0})
writes env req new_status json row = do
  attempt ← latest_attempt env row.id
  run ← create_task_run env row.id req.node_id (attempt + 1)
  update_task_run env run.id new_status req.error_message (some json)
  update_result env row.id new_status (some json) row.retry_count
  create_task_event env row.id "result_reported" row.status new_status (concat "agent:" req.node_id)
      (("node_id", req.node_id) ∷ ("error_message", req.error_message) ∷ [])

writes_effect :
    (env : Env) (req : TaskResultRequest) (new_status json : String) (row : TaskRow) (s : Session)
    (u : Unit {0})
    → s.aborted ≡ false
    → (writes env req new_status json row s).0 ≡ ok u
    → (run_id : String) × ((writes env req new_status json row s).1.db
        ≡ reported_db env req new_status json row run_id s.db)
writes_effect env req new_status json row s u a h =
    let (n, k₁, p₁) = bind-eq-ok _ (latest_attempt env row.id) s u h in
    let (e₁, a₁, d₁) = latest_attempt-effect env s a row.id n k₁ in
    let s₁ = (latest_attempt env row.id s).1 in
    let (run, k₂, p₂) =
      bind-eq-ok _ (create_task_run env row.id req.node_id (n + 1)) s₁ u (value p₁ h) in
    let (e₂, a₂, d₂) = create_task_run-effect env s₁ a₁ row.id req.node_id (n + 1) run k₂ in
    let s₂ = (create_task_run env row.id req.node_id (n + 1) s₁).1 in
    let (_, k₃, p₃) =
      bind-eq-ok _ (update_task_run env run.id new_status req.error_message (some json)) s₂ u
        (value (p₁ ∙ p₂) h) in
    let (a₃, d₃) =
      update_task_run-effect env s₂ a₂ run.id new_status req.error_message (some json) _ k₃ in
    let s₃ = (update_task_run env run.id new_status req.error_message (some json) s₂).1 in
    let (_, k₄, p₄) =
      bind-eq-ok _ (update_result env row.id new_status (some json) row.retry_count) s₃ u
        (value (p₁ ∙ p₂ ∙ p₃) h) in
    let (a₄, d₄) =
      update_result-effect env s₃ a₃ row.id new_status (some json) row.retry_count _ k₄ in
    let s₄ = (update_result env row.id new_status (some json) row.retry_count s₃).1 in
    let whole = p₁ ∙ p₂ ∙ p₃ ∙ p₄ in
    let (a₅, d₅) =
      create_task_event-effect env s₄ a₄ row.id "result_reported" row.status new_status _ _ u
        (value whole h) in
    (env.uuid s₁.tick, ap db_of whole ∙ d₅ ∙ cc)
  where
    value : {x y : Result (Unit {0}) × Session} → x ≡ y → x.0 ≡ ok u → y.0 ≡ ok u
    value p h = ap (λ (r : Result (Unit {0}) × Session). r.0) (sym p) ∙ h

body_effect :
    (env : Env) (req : TaskResultRequest) (new_status json : String) (s : Session) (u : Unit {0})
    → s.aborted ≡ false
    → (report_body env req new_status json s).0 ≡ ok u
    → (row : TaskRow) × (run_id : String) × (find_row (has_id req.task_id) s.db.tasks ≡ some row)
      × (is_text req.node_id row.target_node_id ≡ true)
      × ((report_body env req new_status json s).1.db
          ≡ reported_db env req new_status json row run_id s.db)
body_effect env req new_status json s u a h =
    let (row, k₁, p₁) = bind-eq-ok _ (get_task_for_update env req.task_id) s u h in
    let (found, a₁, d₁) = get_task_for_update-effect env s a req.task_id row k₁ in
    let s₁ = (get_task_for_update env req.task_id s).1 in
    let (_, k₂, p₂) =
      bind-eq-ok _
        (guard (is_text req.node_id row.target_node_id)
          (grpc permission_denied "task does not belong to node"))
        s₁ u (value p₁ h) in
    let (own, same) = guard-eq-ok (is_text req.node_id row.target_node_id) _ s₁ _ k₂ in
    let open₂ = ap (λ (t : Session). t.aborted) same ∙ a₁ in
    let d₂ = ap (λ (t : Session). t.db) same ∙ d₁ in
    let (run_id, d) = writes_effect env req new_status json row _ u open₂ (value p₂ (value p₁ h)) in
    (
      row,
      run_id,
      found,
      own,
      ap db_of (p₁ ∙ p₂) ∙ d ∙ ap (reported_db env req new_status json row run_id) d₂,
    )
  where
    value : {x y : Result (Unit {0}) × Session} → x ≡ y → x.0 ≡ ok u → y.0 ≡ ok u
    value p h = ap (λ (r : Result (Unit {0}) × Session). r.0) (sym p) ∙ h

abbrev recorded : Env → TextTools → TaskResultRequest → String → Exec (Unit {0})
recorded env tools req st =
    respond report_error (λ u. u)
      (with_tx env (report_body env req st (result_json tools req.result)))

module _ (env : Env) (tools : TextTools) (caller : String) (req : TaskResultRequest)
    (s : Session) where
  accepted :
      (u : Unit {0})
      → (report_task_result env tools caller req s).0 ≡ ok u
      → (st : String) × (normalize_reported_status tools req.status ≡ some st)
        × (report_task_result env tools caller req s ≡ recorded env tools req st s)
  unfolding report_task_result validate_authenticated_node
  accepted u h = elim (Bool-cases (req.task_id == "")) [
    | inl empty ↦ absurd (ground arith)
    | inr task ↦ elim (Bool-cases (req.node_id == "")) [
      | inl empty ↦ absurd (ground arith)
      | inr node ↦ elim (Bool-cases (caller == "" || caller == req.node_id)) [
        | inr other ↦ absurd (ground arith)
        | inl same ↦ elim (Option-cases (normalize_reported_status tools req.status)) [
          | inl none' ↦ absurd (ground arith)
          | inr (st, e) ↦ (st, e, rw (task, node, same, e) refl)
        ]
      ]
    ]
  ]

  -- A result is accepted only for a task of the reporting node, with a status that the handler
  -- knows. Then, and whatever the task's status was, the task holds the reported status, one run
  -- with the next number is added and finished, one event is recorded, and nothing else changes.
  pub report_task_result-effect :
      (u : Unit {0})
      → (report_task_result env tools caller req s).0 ≡ ok u
      → (st : String) × (row : TaskRow) × (run_id : String) × (normalize_reported_status tools
            req.status
          ≡ some st)
        × (find_row (has_id req.task_id) s.db.tasks ≡ some row)
        × (is_text req.node_id row.target_node_id ≡ true)
        × ((report_task_result env tools caller req s).1.db
            ≡ reported_db env req st (result_json tools req.result) row run_id s.db)
  report_task_result-effect u h =
      let (st, e, p) = accepted u h in
      let (u', k, _, d) =
        respond-commits report_error (λ (x : Unit {0}). x) env
          (report_body env req st (result_json tools req.result)) s u
          (ap (λ (r : Result (Unit {0}) × Session). r.0) (sym p) ∙ h) in
      let (row, run_id, found, own, t) =
        body_effect env req st (result_json tools req.result) (opened s) u' refl k in
      (st, row, run_id, e, found, own, ap db_of p ∙ d ∙ t)

-- The statement writes no other run's number.
max_rows-update :
    (task_id run_id : String) (f : TaskRunRow → TaskRunRow) (xs : List TaskRunRow)
    → ((x : TaskRunRow) → (f x).attempt ≡ x.attempt)
    → ((x : TaskRunRow) → (f x).task_id ≡ x.task_id)
    → max_rows (run_of task_id) (λ r. r.attempt) (update_rows (run_has_id run_id) f xs)
      ≡ max_rows (run_of task_id) (λ r. r.attempt) xs
unfolding max_rows update_rows
max_rows-update task_id run_id f [] ka kt = refl
max_rows-update task_id run_id f (x ∷ xs) ka kt =
    ground (arith, ka x, kt x, max_rows-update task_id run_id f xs ka kt)

max_rows-append :
    (task_id : String) (run : TaskRunRow) (xs : List TaskRunRow)
    → (run.task_id == task_id) ≡ true
    → max_rows (run_of task_id) (λ r. r.attempt) (xs ++ run ∷ [])
      ≡ max (max_rows (run_of task_id) (λ r. r.attempt) xs) run.attempt
unfolding max_rows
max_rows-append task_id run [] t = ground (arith, t)
max_rows-append task_id run (x ∷ xs) t = ground (arith, t, max_rows-append task_id run xs t)

-- A run with the next number becomes the last, and finishing it keeps the numbers.
finished-attempt :
    (env : Env) (task_id node_id run_id st msg : String) (r : Option String) (db : Db)
    → next_attempt
        (with_finished_run
          (with_run db (new_run env.now run_id task_id node_id (next_attempt db task_id)))
          env.now
          run_id
          st
          msg
          r)
        task_id
      ≡ next_attempt db task_id + 1
finished-attempt env task_id node_id run_id st msg r db =
    ap (λ (k : ℕ). k + 1)
      (max_rows-update task_id run_id _ _ (λ x. refl) (λ x. refl)
        ∙ max_rows-append task_id (new_run env.now run_id task_id node_id (next_attempt db task_id))
            db.task_runs (eq_refl task_id)
        ∙ omega arith)

-- Reports about one task are numbered one after the other: an accepted report raises the highest
-- run number of the task by one.
pub report_task_result-attempt :
    (env : Env) (tools : TextTools) (caller : String) (req : TaskResultRequest) (s : Session)
    (u : Unit {0})
    → (report_task_result env tools caller req s).0 ≡ ok u
    → next_attempt (report_task_result env tools caller req s).1.db req.task_id
      ≡ next_attempt s.db req.task_id + 1
report_task_result-attempt env tools caller req s u h =
    let (st, row, run_id, e, found, own, d) =
      report_task_result-effect env tools caller req s u h in
    let same =
      (eq_iff row.id req.task_id).0 (find_row-holds (has_id req.task_id) s.db.tasks row found) in
    subst
      (λ (t : String).
        next_attempt (report_task_result env tools caller req s).1.db t ≡ next_attempt s.db t + 1)
      same
      (ap (λ (db : Db). next_attempt db row.id) d
        ∙ finished-attempt env row.id req.node_id run_id st req.error_message
            (some (result_json tools req.result)) s.db)
