-- ===== src/Agent/TaskRunner.antt =====
-- internal/agent/task_runner.go: the agent's loop over tasks, with the results that it keeps on disk
-- until the gateway has taken them. The executor, the disk and the gateway are met in each step by
-- their answer. A file under pending-results is the result that was written to it, since
-- json.Unmarshal reads back what json.Marshal writes of a pendingResult, and reads nothing of a part of
-- it; a file that holds a part is passed over like one that is not there.
pub mod Steps
pub mod Durable
use ai_edge.Prelude.{
  String, Bool, true, false, Option, none, some, List, [], ◌∷◌, ◌++◌, map, ◌==◌, if◌then◌else◌, eqb,
  any_text, where_rows,
}
use ai_edge.Prelude.Int.{ℤ, pos, negsuc}
use ai_edge.Gateway.AgentService.{NodeTask}

pub record TaskRunnerConfig : Type 0 where
  pub poll_interval : ℤ
  pub max_tasks : ℤ
  pub data_dir : String

-- A value of 0 is replaced by the default; 5 seconds are counted in nanoseconds.
abbrev pub or_default : ℤ → ℤ → ℤ
or_default default (pos n) = if eqb n 0 then default else pos n
or_default default (negsuc n) = negsuc n

unfoldable pub apply_defaults : TaskRunnerConfig → TaskRunnerConfig
apply_defaults c = record c {
  poll_interval = or_default (pos 5000000000) c.poll_interval;
  max_tasks = or_default (pos 10) c.max_tasks;
}

pub record PendingResult : Type 0 where
  pub task_id : String
  pub node_id : String
  pub status : String
  pub error_message : String
  pub result : Option String

-- `running` and `reporting` are the goroutines of executeAndReport, before the executor has returned
-- and after, `draining` the entries that drainPendingResults has not come to, and `files` the
-- directory pending-results. What the runner did is kept too: the tasks that it gave to the executor
-- since the process began, the tasks whose result was last written as a whole, and the results that
-- the gateway ever accepted.
pub record TaskRunner : Type 0 where
  pub node_id : String
  pub processed : List String
  pub running : List NodeTask
  pub reporting : List PendingResult
  pub draining : List PendingResult
  pub files : List PendingResult
  pub executions : List String
  pub saved : List String
  pub accepted : List PendingResult

-- A process begins: it lists the directory, where the disk lets it, and knows nothing else.
unfoldable pub started : (listed : Bool) → TaskRunner → TaskRunner
started listed r = record r {
  processed = [];
  running = [];
  reporting = [];
  draining = if listed then r.files else [];
  executions = [];
}

abbrev pub new_task_runner : String → TaskRunner
new_task_runner node_id = record {
  node_id = node_id;
  processed = [];
  running = [];
  reporting = [];
  draining = [];
  files = [];
  executions = [];
  saved = [];
  accepted = [];
}

unfoldable pub is_duplicate : TaskRunner → String → Bool
is_duplicate r id = any_text id r.processed

unfoldable pub mark_processed : String → TaskRunner → TaskRunner
mark_processed id r = record r { processed = id ∷ r.processed }

-- `go r.executeAndReport(ctx, t)`
abbrev pub spawn : NodeTask → TaskRunner → TaskRunner
spawn t r = record r { running = t ∷ r.running; executions = t.task_id ∷ r.executions }

unfoldable pub take_tasks : List NodeTask → TaskRunner → TaskRunner
take_tasks [] r = r
take_tasks (t ∷ ts) r =
    take_tasks ts (if is_duplicate r t.task_id then r else spawn t (mark_processed t.task_id r))

-- The answer of PullTasks, `none` for an error.
unfoldable pub poll : Option (List NodeTask) → TaskRunner → TaskRunner
poll none r = r
poll (some tasks) r = take_tasks tasks r

-- In seconds.
unfoldable pub execution_timeout : NodeTask → ℤ
execution_timeout t = or_default (pos 600) t.timeout_seconds

-- What an executor returns.
pub record Executed : Type 0 where
  pub result : Option String
  pub err : Option String

abbrev pub result_of : String → NodeTask → Executed → PendingResult
result_of node_id t outcome = elim outcome.err [
  | none ↦ record {
    task_id = t.task_id;
    node_id = node_id;
    status = "Success";
    error_message = "";
    result = outcome.result;
  }
  | some text ↦ record {
    task_id = t.task_id;
    node_id = node_id;
    status = "Failed";
    error_message = text;
    result = outcome.result;
  }
]

abbrev pub is_result_of : String → PendingResult → Bool
is_result_of id p = p.task_id == id

abbrev pub is_other : String → PendingResult → Bool
is_other id p = if p.task_id == id then false else true

-- os.WriteFile: the directory or the file cannot be opened; the file was cut to nothing and what is
-- written of the result ends early, since the disk fails or the process ends, so that the file cannot
-- be read as a result any more; or all is written.
pub data Write : Type 0 where
  unopened torn whole : Write

abbrev pub is_not : String → String → Bool
is_not id x = if x == id then false else true

-- The file of a task is written over; where the disk fails, only the log says so. `saved` has the tasks
-- whose file was last written as a whole.
unfoldable pub save_pending_result : Write → PendingResult → TaskRunner → TaskRunner
save_pending_result unopened p r = r
save_pending_result torn p r = record r {
  files = where_rows (is_other p.task_id) r.files;
  saved = where_rows (is_not p.task_id) r.saved;
}
save_pending_result whole p r = record r {
  files = p ∷ where_rows (is_other p.task_id) r.files;
  saved = p.task_id ∷ r.saved;
}

unfoldable pub remove_pending_result : String → TaskRunner → TaskRunner
remove_pending_result id r = record r { files = where_rows (is_other id) r.files }

-- The gateway's answer to a report: an error, or none, after which the file is removed if the disk
-- lets it.
pub data Reply : Type 0 where
  refused : Reply
  taken : (removed : Bool) → Reply

unfoldable pub report_result : Reply → PendingResult → TaskRunner → TaskRunner
report_result refused p r = r
report_result (taken false) p r = record r { accepted = p ∷ r.accepted }
report_result (taken true) p r =
    remove_pending_result p.task_id (record r { accepted = p ∷ r.accepted })

-- executeAndReport, up to its report; `report_result` is the rest.
unfoldable pub execute : NodeTask → Executed → (disk : Write) → TaskRunner → TaskRunner
execute t outcome disk r =
    let p = result_of r.node_id t outcome in
    save_pending_result disk p (record r { reporting = p ∷ r.reporting })

-- One entry of drainPendingResults; an entry that cannot be read is passed over.
unfoldable pub drain_entry : (readable : Bool) → Reply → PendingResult → TaskRunner → TaskRunner
drain_entry false reply p r = r
drain_entry true reply p r = report_result reply p (mark_processed p.task_id r)
