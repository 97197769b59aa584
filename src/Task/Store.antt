-- ===== src/Task/Store.antt =====
-- internal/task/store.go: the statements on the tables tasks,
-- task_runs and task_events. A `detail` is the object that the code hands to json.Marshal. Of the
-- constraints of migrations/*.up.sql the ones on a null payload, on a second row of one id and on an
-- event of a task that is not there are written out; every other violation is a fault of `Env`.
pub mod Effects
use ai_edge.Prelude.{
  ℕ, zero, suc, ◌+◌, String, Bool, false, ◌&&◌, ◌||◌, Option, none, some, List, [], ◌∷◌, ◌++◌, ◌==◌,
  ltb, eqb, if◌then◌else◌, take, drop, find_row, where_rows, update_rows, count_rows, max_rows,
  order_by, leb,
}
use ai_edge.Prelude.Int.{ℤ, pos, negsuc}
use ai_edge.Pages.{clamp_limit, page_rows}
use ai_edge.Store.Errors.{err_precondition, wrap}
use ai_edge.Store.Schema.{Db, TaskRow, TaskRunRow, TaskEventRow}
use ai_edge.Store.Session.{
  Env, Exec, Outcome, done, violates, pure, ◌>>=◌, ◌>>◌, guard, on_error, or_not_found, statement,
  autocommit, select, select_now,
}

abbrev pub has_id : String → TaskRow → Bool
has_id id r = r.id == id

abbrev pub null_text : String
null_text =
    "pq: null value in column \"payload\" of relation \"tasks\" violates not-null constraint"

abbrev pub task_key_text : String
task_key_text = "pq: duplicate key value violates unique constraint \"tasks_pkey\""

abbrev pub event_task_text : String
event_task_text =
    "pq: insert or update on table \"task_events\" violates foreign key constraint \"task_events_task_id_fkey\""

-- The columns that the INSERT leaves out take the table's defaults.
abbrev pub new_task : ℕ → String → TaskRow → TaskRow
new_task now id row = record row {
  id = id;
  result = none;
  owner_instance = none;
  claim_expire_at = none;
  retry_count = 0;
  created_at = now;
  updated_at = now;
}

abbrev pub insert_task : ℕ → TaskRow → String → Db → Outcome TaskRow
insert_task now row id db = elim row.payload [
  | none ↦ violates null_text
  | some payload ↦ elim (find_row (has_id id) db.tasks) [
    | some old ↦ violates task_key_text
    | none ↦
        done (record row { id = id; created_at = now; updated_at = now })
          (record db { tasks = db.tasks ++ new_task now id row ∷ [] })
  ]
]

unfoldable pub create_task : Env → TaskRow → Exec TaskRow
create_task env row = statement env (insert_task env.now row)

unfoldable pub get_task : Env → String → Exec TaskRow
get_task env id = do
  found ← on_error (wrap "get task") (select_now env (λ db. find_row (has_id id) db.tasks))
  or_not_found found

unfoldable pub get_task_for_update : Env → String → Exec TaskRow
get_task_for_update env id = do
  found ← on_error (wrap "get task for update") (select env (λ db. find_row (has_id id) db.tasks))
  or_not_found found

pub record ListFilter : Type 0 where
  pub target_gateway_id : String
  pub target_node_id : String
  pub status : String
  pub type : String
  pub limit : ℤ
  pub offset : ℤ

-- `AND column = $n`, added where the filter is not the empty text.
abbrev pub matches : String → Option String → Bool
matches f none = f == ""
matches f (some v) = f == "" || v == f

unfoldable pub in_filter : ListFilter → TaskRow → Bool
in_filter f r =
    matches f.target_gateway_id r.target_gateway_id
    && (matches f.target_node_id r.target_node_id
        && (matches f.status (some r.status) && matches f.type (some r.type)))

abbrev pub newest_first : TaskRow → TaskRow → Bool
newest_first a b = leb b.created_at a.created_at

-- The order in which the rows of a table come to a sort, which PostgreSQL is free to choose anew for
-- each statement: rows of one creation time stay in it.
abbrev pub Scan : Type 0
Scan = List TaskRow → List TaskRow

abbrev pub page_of : Scan → ListFilter → String → Db → Outcome (List TaskRow)
page_of scan f id db =
    page_rows (clamp_limit f.limit) f.offset
      (order_by newest_first (where_rows (in_filter f) (scan db.tasks))) db

unfoldable pub list_tasks : Env → Scan → ListFilter → Exec (List TaskRow × ℕ)
unfolding in_filter clamp_limit
list_tasks env scan f = do
  total ←
      on_error (wrap "list tasks count") (select_now env (λ db. count_rows (in_filter f) db.tasks))
  rows ← on_error (wrap "list tasks") (autocommit env (page_of scan f))
  pure (rows, total)

abbrev pub new_event :
    ℕ → String → String → String → String → String → List (String × String) → TaskEventRow
new_event now task_id event_type old_status new_status actor detail = record {
  task_id = task_id;
  event_type = event_type;
  old_status = old_status;
  new_status = new_status;
  actor = actor;
  detail = detail;
  created_at = now;
}

abbrev pub insert_event : TaskEventRow → String → Db → Outcome (Unit {0})
insert_event row id db = elim (find_row (has_id row.task_id) db.tasks) [
  | none ↦ violates event_task_text
  | some task ↦ done tt (record db { task_events = db.task_events ++ row ∷ [] })
]

unfoldable pub create_task_event :
    Env → String → String → String → String → String → List (String × String) → Exec (Unit {0})
create_task_event env task_id event_type old_status new_status actor detail =
    on_error (wrap "create task event") (
      statement env
        (insert_event (new_event env.now task_id event_type old_status new_status actor detail)))

-- UPDATE tasks SET f WHERE p, with the count of the rows.
abbrev pub update_tasks : (TaskRow → Bool) → (TaskRow → TaskRow) → String → Db → Outcome ℕ
update_tasks p f id db =
    done (count_rows p db.tasks) (record db { tasks = update_rows p f db.tasks })

abbrev pub in_status : String → String → TaskRow → Bool
in_status id status r = r.id == id && r.status == status

unfoldable pub update_status :
    Env → String → String → String → String → List (String × String) → Exec (Unit {0})
update_status env task_id old_status new_status actor detail = do
  n ← on_error (wrap "update task status") (
      statement env (
        update_tasks (in_status task_id old_status)
          (λ r. record r { status = new_status; updated_at = env.now })))
  guard (ltb 0 n) err_precondition
  create_task_event env task_id "status_change" old_status new_status actor detail

-- claim_expire_at < now(); NULL is not before anything.
abbrev pub expired_by : ℕ → Option ℕ → Bool
expired_by now none = false
expired_by now (some t) = ltb t now

unfoldable pub claimable : ℕ → String → TaskRow → Bool
claimable now id r =
    r.id == id && (r.dispatch_status == "Unclaimed" || expired_by now r.claim_expire_at)

abbrev pub claim_row : Env → String → ℕ → TaskRow → TaskRow
claim_row env owner duration r = record r {
  dispatch_status = "Claimed";
  owner_instance = some owner;
  claim_expire_at = some (env.time_now + duration);
  updated_at = env.now;
}

unfoldable pub atomic_claim : Env → String → String → ℕ → Exec Bool
atomic_claim env task_id owner duration = do
  n ←
      on_error (wrap "atomic claim")
        (statement env (update_tasks (claimable env.now task_id) (claim_row env owner duration)))
  pure (eqb n 1)

abbrev pub in_dispatch : String → String → TaskRow → Bool
in_dispatch id dispatch r = r.id == id && r.dispatch_status == dispatch

unfoldable pub mark_delivered : Env → String → Exec (Unit {0})
mark_delivered env task_id = do
  n ← on_error (wrap "mark delivered") (
      statement env (
        update_tasks (in_dispatch task_id "Claimed")
          (λ r. record r { dispatch_status = "Delivered"; updated_at = env.now })))
  guard (ltb 0 n) err_precondition

-- The statement's count of rows is not read.
unfoldable pub update_result : Env → String → String → Option String → ℕ → Exec (Unit {0})
update_result env task_id status result retry_count = do
  n ← on_error (wrap "update result") (
      statement env (
        update_tasks (has_id task_id) (λ r. record r {
          status = status;
          result = result;
          retry_count = retry_count;
          updated_at = env.now;
        })))
  pure tt

abbrev pub new_run : ℕ → String → String → String → ℕ → TaskRunRow
new_run now id task_id node_id attempt = record {
  id = id;
  task_id = task_id;
  node_id = node_id;
  attempt = attempt;
  status = "Running";
  started_at = now;
  finished_at = none;
  error_msg = "";
  result = none;
  created_at = now;
}

unfoldable pub create_task_run : Env → String → String → ℕ → Exec TaskRunRow
create_task_run env task_id node_id attempt = on_error (wrap "create task run") (
    statement env (λ id db.
      let run = new_run env.now id task_id node_id attempt in
      done run (record db { task_runs = db.task_runs ++ run ∷ [] })))

abbrev pub run_has_id : String → TaskRunRow → Bool
run_has_id id r = r.id == id

unfoldable pub update_task_run : Env → String → String → String → Option String → Exec (Unit {0})
update_task_run env run_id status err_msg result = on_error (wrap "update task run") (
    statement env (λ id db. done tt (record db {
      task_runs =
          update_rows (run_has_id run_id)
            (λ r. record r {
              status = status;
              error_msg = err_msg;
              result = result;
              finished_at = some env.now;
            })
            db.task_runs;
    })))

abbrev pub run_of : String → TaskRunRow → Bool
run_of task_id r = r.task_id == task_id

unfoldable pub latest_attempt : Env → String → Exec ℕ
latest_attempt env task_id =
    on_error (wrap "latest attempt")
      (select env (λ db. max_rows (run_of task_id) (λ r. r.attempt) db.task_runs))
