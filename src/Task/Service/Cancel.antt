-- ===== src/Task/Service/Cancel.antt =====
-- CancelTask of internal/task/service.go.
use ai_edge.Prelude.{
  ℕ, suc, ◌≡◌, refl, ◌≢◌, ◌∙◌, String, true, false, some, List, [], ◌∷◌, ◌++◌, arith, ◌==◌, eq_iff,
  find_row, update_rows, count_rows, ◌<◌, find_row-holds, find_row-counted,
  find_row-update_rows_hit, eq_refl, sym, subst, ◌⊎◌, concat, if◌then◌else◌, ap, Option-cases,
  Bool-cases, inl, inr,
}
use ai_edge.Proto.{cancelled, failed_precondition}
use ai_edge.Store.Errors.{
  Error, Result, ok, err, err_precondition, detailed, invalid_transition, unwrap, grpc_of,
}
use ai_edge.Store.Schema.{Db, TaskRow}
use ai_edge.Store.Session.{Env, Session, opened, statement, select}
use ai_edge.Store.Transactions.{
  IsQuiet, respond-atomic, respond-commits, respond_quiet, respond_quiet_error,
}
use ai_edge.Task.Machine.Graph.{IsOpen, can_cancel_iff, open_not_terminal}
use ai_edge.Task.Machine.{status_to_proto, validate_transition, is_terminal}
use ai_edge.Task.Store.{
  has_id, in_status, new_event, get_task_for_update, update_status, create_task_event,
}
use ai_edge.Task.Service.{
  err_to_status, TaskMessage, row_to_proto, cancel_body, cancel_task_handler,
}

-- The tables after the task of `row` is cancelled.
abbrev pub cancelled_db : ℕ → TaskRow → String → Db → Db
cancelled_db now row reason db = record db {
  tasks =
      update_rows (in_status row.id row.status)
        (λ r. record r { status = "Cancelled"; updated_at = now }) db.tasks;
  task_events =
      db.task_events
      ++ new_event now row.id "status_change" row.status "Cancelled" "user"
          (("reason", reason) ∷ [])
        ∷ [];
}

body_effect :
    (env : Env) (id reason : String) (s : Session) (r : TaskRow)
    → s.aborted ≡ false
    → (cancel_body env id reason s).0 ≡ ok r
    → (row : TaskRow) × (find_row (has_id id) s.db.tasks ≡ some row)
      × (validate_transition (status_to_proto row.status) cancelled ≡ true)
      × (r ≡ record row { status = "Cancelled" })
      × ((cancel_body env id reason s).1.db ≡ cancelled_db env.now row reason s.db)
unfolding statement select get_task_for_update update_status create_task_event
body_effect env id reason s r a h = elim (Option-cases (find_row (has_id id) s.db.tasks)) [
  | inl e ↦ absurd (ground arith)
  | inr (row, e) ↦ (row, e, ground arith, ground arith, ground arith)
]

-- A task is cancelled only if its status is one that has not ended; then the answer is the task as
-- cancelled, the table holds the new status for that task and no other change, and one event
-- records it. This holds whichever statements fail.
pub cancel_task-effect :
    (env : Env) (id reason : String) (s : Session) (m : TaskMessage)
    → (cancel_task_handler env id reason s).0 ≡ ok m
    → (row : TaskRow) × (find_row (has_id id) s.db.tasks ≡ some row)
      × IsOpen (status_to_proto row.status)
      × (m ≡ row_to_proto (record row { status = "Cancelled" }))
      × ((cancel_task_handler env id reason s).1.db ≡ cancelled_db env.now row reason s.db)
unfolding cancel_task_handler
cancel_task-effect env id reason s m h = elim (Bool-cases (id == "")) [
  | inl empty ↦ absurd (ground arith)
  | inr filled ↦
      let (r, k, p, d) =
        respond-commits err_to_status row_to_proto env (cancel_body env id reason) s m
          (rw filled at h) in
      let (row, e, v, q, t) = body_effect env id reason (opened s) r refl k in
      (row, e, (can_cancel_iff _).0 v, p ∙ ap row_to_proto q, rw filled (d ∙ t))
]

-- A cancellation that is refused or that fails leaves every table as it was.
pub cancel_task-atomic :
    (env : Env) (id reason : String) (s : Session) (e : Error)
    → (cancel_task_handler env id reason s).0 ≡ err e
    → (cancel_task_handler env id reason s).1.db ≡ s.db
unfolding cancel_task_handler
cancel_task-atomic env id reason s e h = elim (Bool-cases (id == "")) [
  | inl empty ↦ rw empty refl
  | inr filled ↦ rw filled (
      respond-atomic err_to_status row_to_proto env (cancel_body env id reason) s e
        (rw filled at h))
]

module _ (id : String) (now : ℕ) (row : TaskRow) (xs : List TaskRow)
    (e : find_row (has_id id) xs ≡ some row) where
  abbrev cancel_row : TaskRow → TaskRow
  cancel_row r = record r { status = "Cancelled"; updated_at = now }

  own_row : in_status row.id row.status row ≡ true
  own_row = rw (eq_refl row.id, eq_refl row.status)

  counted : 0 < count_rows (in_status row.id row.status) xs
  counted = find_row-counted (has_id id) (in_status row.id row.status) xs row e own_row

  still_there :
      find_row (has_id row.id) (update_rows (in_status row.id row.status) cancel_row xs)
      ≡ some (cancel_row row)
  still_there =
      let same : row.id ≡ id = (eq_iff row.id id).0 (find_row-holds (has_id id) xs row e) in
      find_row-update_rows_hit (has_id row.id) (in_status row.id row.status) cancel_row xs row
        (λ x. refl) (subst (λ (k : String). find_row (has_id k) xs ≡ some row) (sym same) e) own_row

body_quiet :
    (env : Env) (id reason : String) (s : Session) (row : TaskRow)
    → IsQuiet env
    → s.aborted ≡ false
    → find_row (has_id id) s.db.tasks ≡ some row
    → IsOpen (status_to_proto row.status)
    → cancel_body env id reason s ≡ (
      ok (record row { status = "Cancelled" }),
      record {
        db = cancelled_db env.now row reason s.db;
        tick = suc (suc (suc s.tick));
        aborted = false;
      },
    )
unfolding statement select get_task_for_update update_status create_task_event
body_quiet env id reason s row q a e o = ground (
  arith,
  q s.tick,
  q (suc s.tick),
  q (suc (suc s.tick)),
  (can_cancel_iff (status_to_proto row.status)).1 o,
  open_not_terminal o,
  counted id env.now row s.db.tasks e,
  still_there id env.now row s.db.tasks e,
)

-- The answer to a cancellation, when every statement reaches the database: by the row with the id.
abbrev pub CancelAnswer : TaskRow → Result TaskMessage → Type 0
CancelAnswer row r =
    (IsOpen (status_to_proto row.status)
      × (r ≡ ok (row_to_proto (record row { status = "Cancelled" }))))
    ⊎ ((¬ IsOpen (status_to_proto row.status))
        × ((e : Error) × (r ≡ err (grpc_of failed_precondition "" e))))

answer_open :
    (env : Env) (id reason : String) (s : Session) (row : TaskRow)
    → IsQuiet env
    → (id == "") ≡ false
    → find_row (has_id id) s.db.tasks ≡ some row
    → IsOpen (status_to_proto row.status)
    → (cancel_task_handler env id reason s).0
      ≡ ok (row_to_proto (record row { status = "Cancelled" }))
unfolding cancel_task_handler
answer_open env id reason s row q n e o = rw n (
    ap (λ (r : Result TaskMessage × Session). r.0)
      (respond_quiet err_to_status row_to_proto env (cancel_body env id reason) s _ _ q
        (body_quiet env id reason (opened s) row q refl e o) refl))

refused_error : TaskRow → Error
refused_error row =
    if is_terminal (status_to_proto row.status)
    then detailed err_precondition (concat "task is already in terminal state: " row.status)
    else invalid_transition (status_to_proto row.status) cancelled

body_refused :
    (env : Env) (id reason : String) (s : Session) (row : TaskRow)
    → IsQuiet env
    → s.aborted ≡ false
    → find_row (has_id id) s.db.tasks ≡ some row
    → validate_transition (status_to_proto row.status) cancelled ≡ false
    → cancel_body env id reason s ≡ (err (refused_error row), record s { tick = suc s.tick })
unfolding statement select get_task_for_update refused_error
body_refused env id reason s row q a e v = ground (arith, q s.tick)

-- The error of a refused cancellation is a failed precondition.
refused_status :
    (row : TaskRow)
    → err_to_status (refused_error row) ≡ grpc_of failed_precondition "" (refused_error row)
unfolding err_to_status unwrap refused_error
refused_status row = ground arith

answer_refused :
    (env : Env) (id reason : String) (s : Session) (row : TaskRow)
    → IsQuiet env
    → (id == "") ≡ false
    → find_row (has_id id) s.db.tasks ≡ some row
    → validate_transition (status_to_proto row.status) cancelled ≡ false
    → (cancel_task_handler env id reason s).0
      ≡ err (grpc_of failed_precondition "" (refused_error row))
unfolding cancel_task_handler
answer_refused env id reason s row q n e v = rw n (
    ap (λ (r : Result TaskMessage × Session). r.0)
      (respond_quiet_error err_to_status row_to_proto env (cancel_body env id reason) s _ _ q
        (body_refused env id reason (opened s) row q refl e v))
    ∙ ap err (refused_status row))

-- Where every statement reaches the database, a request with the id of a row is answered by that row:
-- the cancelled task if its status has not ended, and a failed precondition if it has.
pub cancel_task_quiet :
    (env : Env) (id reason : String) (s : Session) (row : TaskRow)
    → IsQuiet env
    → id ≢ ""
    → find_row (has_id id) s.db.tasks ≡ some row
    → CancelAnswer row (cancel_task_handler env id reason s).0
cancel_task_quiet env id reason s row q n e =
    elim (Bool-cases (validate_transition (status_to_proto row.status) cancelled)) [
      | inl v ↦
          let o = (can_cancel_iff (status_to_proto row.status)).0 v in
          inl (o, answer_open env id reason s row q filled e o)
      | inr v ↦ inr (
        λ o. cc (v, (can_cancel_iff (status_to_proto row.status)).1 o),
        (refused_error row, answer_refused env id reason s row q filled e v),
      )
    ]
  where
    filled : (id == "") ≡ false
    filled = ground (arith, eq_iff id "")
