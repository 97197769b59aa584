-- ===== src/Task/Store/Effects.antt =====
-- What the statements of internal/task/store.go leave in the tables when they return without an
-- error in an open transaction, and that they do return when every statement reaches the database.
use ai_edge.Prelude.{
  ℕ, ◌≡◌, String, false, Option, some, List, [], ◌∷◌, ◌++◌, arith, find_row, update_rows, max_rows,
}
use ai_edge.Store.Errors.{ok}
use ai_edge.Store.Schema.{Db, TaskRow, TaskRunRow}
use ai_edge.Store.Session.{Env, Session, statement, select}
use ai_edge.Task.Store.{
  has_id, new_event, new_run, run_has_id, run_of, create_task_event, update_result, create_task_run,
  update_task_run, latest_attempt, get_task_for_update,
}

abbrev pub with_event :
    Db → (task_id event_type old_status new_status actor : String) → List (String × String) → ℕ → Db
with_event db task_id event_type old_status new_status actor detail now = record db {
  task_events =
      db.task_events ++ new_event now task_id event_type old_status new_status actor detail ∷ [];
}

abbrev pub with_result : Db → ℕ → (task_id status : String) → Option String → ℕ → Db
with_result db now task_id status result retry_count = record db {
  tasks =
      update_rows (has_id task_id)
        (λ r. record r {
          status = status;
          result = result;
          retry_count = retry_count;
          updated_at = now;
        })
        db.tasks;
}

abbrev pub with_run : Db → TaskRunRow → Db
with_run db run = record db { task_runs = db.task_runs ++ run ∷ [] }

abbrev pub finished_run_row : ℕ → String → String → Option String → TaskRunRow → TaskRunRow
finished_run_row now status err_msg result r = record r {
  status = status;
  error_msg = err_msg;
  result = result;
  finished_at = some now;
}

abbrev pub with_finished_run : Db → ℕ → (run_id status err_msg : String) → Option String → Db
with_finished_run db now run_id status err_msg result = record db {
  task_runs =
      update_rows (run_has_id run_id) (finished_run_row now status err_msg result) db.task_runs;
}

module _ (env : Env) (s : Session) (open_tx : s.aborted ≡ false) where
  pub create_task_event-effect :
      (task_id event_type old_status new_status actor : String) (detail : List (String × String))
      (u : Unit {0})
      → (create_task_event env task_id event_type old_status new_status actor detail s).0 ≡ ok u
      → ((create_task_event env task_id event_type old_status new_status actor detail s).1.aborted
          ≡ false)
        × ((create_task_event env task_id event_type old_status new_status actor detail s).1.db
            ≡ with_event s.db task_id event_type old_status new_status actor detail env.now)
  unfolding create_task_event statement
  create_task_event-effect task_id event_type old_status new_status actor detail u h =
      (ground arith, ground arith)

  pub update_result-effect :
      (task_id status : String) (result : Option String) (retry_count : ℕ) (u : Unit {0})
      → (update_result env task_id status result retry_count s).0 ≡ ok u
      → ((update_result env task_id status result retry_count s).1.aborted ≡ false)
        × ((update_result env task_id status result retry_count s).1.db
            ≡ with_result s.db env.now task_id status result retry_count)
  unfolding update_result statement
  update_result-effect task_id status result retry_count u h = (ground arith, ground arith)

  pub create_task_run-effect :
      (task_id node_id : String) (attempt : ℕ) (run : TaskRunRow)
      → (create_task_run env task_id node_id attempt s).0 ≡ ok run
      → (run ≡ new_run env.now (env.uuid s.tick) task_id node_id attempt)
        × ((create_task_run env task_id node_id attempt s).1.aborted ≡ false)
        × ((create_task_run env task_id node_id attempt s).1.db ≡ with_run s.db run)
  unfolding create_task_run statement
  create_task_run-effect task_id node_id attempt run h = (ground arith, ground arith, ground arith)

  pub update_task_run-effect :
      (run_id status err_msg : String) (result : Option String) (u : Unit {0})
      → (update_task_run env run_id status err_msg result s).0 ≡ ok u
      → ((update_task_run env run_id status err_msg result s).1.aborted ≡ false)
        × ((update_task_run env run_id status err_msg result s).1.db
            ≡ with_finished_run s.db env.now run_id status err_msg result)
  unfolding update_task_run statement
  update_task_run-effect run_id status err_msg result u h = (ground arith, ground arith)

  pub latest_attempt-effect :
      (task_id : String) (n : ℕ)
      → (latest_attempt env task_id s).0 ≡ ok n
      → (n ≡ max_rows (run_of task_id) (λ r. r.attempt) s.db.task_runs)
        × ((latest_attempt env task_id s).1.aborted ≡ false)
        × ((latest_attempt env task_id s).1.db ≡ s.db)
  unfolding latest_attempt select statement
  latest_attempt-effect task_id n h = (ground arith, ground arith, ground arith)

  pub get_task_for_update-effect :
      (id : String) (row : TaskRow)
      → (get_task_for_update env id s).0 ≡ ok row
      → (find_row (has_id id) s.db.tasks ≡ some row)
        × ((get_task_for_update env id s).1.aborted ≡ false)
        × ((get_task_for_update env id s).1.db ≡ s.db)
  unfolding get_task_for_update select statement
  get_task_for_update-effect id row h = (ground arith, ground arith, ground arith)
