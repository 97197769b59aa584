-- ===== src/Task/Idempotency.antt =====
-- internal/task/idempotency.go: the queries that look for an earlier result or an earlier task.
use ai_edge.Prelude.{
  String, Bool, false, ◌&&◌, ◌||◌, Option, none, some, List, [], ◌∷◌, ◌==◌, leb, if◌then◌else◌,
  find_row, where_rows, order_by,
}
use ai_edge.Store.Errors.{wrap}
use ai_edge.Store.Schema.{TaskRow, TaskRunRow}
use ai_edge.Store.Session.{Env, Exec, pure, ◌>>=◌, on_error, select}

abbrev finished_run : String → String → TaskRunRow → Bool
finished_run task_id node_id r =
    r.task_id == task_id
    && (r.node_id == node_id && (r.status == "Success" || r.status == "Failed"))

abbrev latest_first : TaskRunRow → TaskRunRow → Bool
latest_first a b = leb b.attempt a.attempt

abbrev first {ℓ} : {A : Type ℓ} → List A → Option A
first [] = none
first (x ∷ xs) = some x

unfoldable pub check_and_set_task_run : Env → String → String → Exec (Option TaskRunRow)
check_and_set_task_run env task_id node_id = on_error (wrap "idempotency check") (
    select env (λ db.
      first (order_by latest_first (where_rows (finished_run task_id node_id) db.task_runs))))

abbrev has_key : String → TaskRow → Bool
has_key key r = elim r.idempotency_key [ none ↦ false | some k ↦ k == key ]

abbrev id_or_empty : Option TaskRow → String
id_or_empty none = ""
id_or_empty (some r) = r.id

unfoldable pub check_idempotency_key : Env → String → Exec String
check_idempotency_key env key = if key == "" then pure "" else (do
  found ←
      on_error (wrap "idempotency key check") (select env (λ db. find_row (has_key key) db.tasks))
  pure (id_or_empty found))
