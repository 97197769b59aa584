-- ===== src/Agent/TaskRunner/Steps.antt =====
-- Run of internal/agent/task_runner.go as a step relation: the process ends and begins anew at any
-- point, entries are drained before the first poll, and the goroutines go on in any order.
use ai_edge.Prelude.{
  ◌≡◌, String, Bool, true, false, Option, none, some, List, [], ◌∷◌, ◌++◌, arith, any_text,
  AllDistinct, Bool-cases, inl, inr,
}
use ai_edge.Gateway.AgentService.{NodeTask}
use ai_edge.Agent.TaskRunner.{
  TaskRunner, PendingResult, Executed, Write, unopened, torn, whole, Reply, refused, taken, started,
  new_task_runner, is_duplicate, mark_processed, spawn, take_tasks, poll, save_pending_result,
  remove_pending_result, report_result, execute, drain_entry,
}

pub data Step (r : TaskRunner) : TaskRunner → Type 0 where
  began : (listed : Bool) → Step r (started listed r)
  drained :
      (readable : Bool) (reply : Reply) (p : PendingResult) (rest : List PendingResult)
      → r.draining ≡ p ∷ rest
      → Step r (drain_entry readable reply p (record r { draining = rest }))
  polled : (answer : Option (List NodeTask)) → r.draining ≡ [] → Step r (poll answer r)
  executed :
      (t : NodeTask) (outcome : Executed) (disk : Write) (before after : List NodeTask)
      → r.running ≡ before ++ t ∷ after
      → Step r (execute t outcome disk (record r { running = before ++ after }))
  reported :
      (p : PendingResult) (reply : Reply) (before after : List PendingResult)
      → r.reporting ≡ before ++ p ∷ after
      → Step r (report_result reply p (record r { reporting = before ++ after }))

pub data Reachable (node_id : String) : TaskRunner → Type 0 where
  fresh : Reachable node_id (new_task_runner node_id)
  next : {r r' : TaskRunner} → Reachable node_id r → Step r r' → Reachable node_id r'

-- The executor was given distinct tasks, and each of them is marked.
pub record Marked (r : TaskRunner) : Type 0 where
  pub distinct : AllDistinct r.executions
  pub marked : (id : String) → any_text id r.executions ≡ true → any_text id r.processed ≡ true

spawn-Marked :
    (t : NodeTask) (r : TaskRunner)
    → is_duplicate r t.task_id ≡ false
    → Marked r
    → Marked (spawn t (mark_processed t.task_id r))
unfolding is_duplicate mark_processed
spawn-Marked t r new m = record {
  distinct = (ground (arith, new, m.marked t.task_id), m.distinct);
  marked = λ id h. ground (arith, h, m.marked id);
}

take_tasks-Marked : (ts : List NodeTask) (r : TaskRunner) → Marked r → Marked (take_tasks ts r)
unfolding take_tasks
take_tasks-Marked [] r m = m
take_tasks-Marked (t ∷ ts) r m = elim (Bool-cases (is_duplicate r t.task_id)) [
  | inl known ↦ rw known (take_tasks-Marked ts r m)
  | inr new ↦ rw new (take_tasks-Marked ts _ (spawn-Marked t r new m))
]

report_result-Marked :
    (reply : Reply) (p : PendingResult) (r : TaskRunner)
    → Marked r
    → Marked (report_result reply p r)
unfolding report_result remove_pending_result
report_result-Marked refused p r m = m
report_result-Marked (taken false) p r m = record { distinct = m.distinct; marked = m.marked }
report_result-Marked (taken true) p r m = record { distinct = m.distinct; marked = m.marked }

drain_entry-Marked :
    (readable : Bool) (reply : Reply) (p : PendingResult) (r : TaskRunner)
    → Marked r
    → Marked (drain_entry readable reply p r)
unfolding drain_entry mark_processed
drain_entry-Marked false reply p r m = m
drain_entry-Marked true reply p r m =
    report_result-Marked reply p (mark_processed p.task_id r)
      (record { distinct = m.distinct; marked = λ id h. ground (arith, h, m.marked id) })

Step-Marked : {r r' : TaskRunner} → Step r r' → Marked r → Marked r'
unfolding started poll execute save_pending_result
Step-Marked (began listed) m = record { distinct = tt; marked = λ id h. absurd (ground arith) }
Step-Marked (drained readable reply p rest e) m =
    drain_entry-Marked readable reply p _ (record { distinct = m.distinct; marked = m.marked })
Step-Marked (polled none e) m = m
Step-Marked (polled (some tasks) e) m = take_tasks-Marked tasks _ m
Step-Marked (executed t outcome unopened before after e) m = record {
  distinct = m.distinct;
  marked = m.marked;
}
Step-Marked (executed t outcome torn before after e) m = record {
  distinct = m.distinct;
  marked = m.marked;
}
Step-Marked (executed t outcome whole before after e) m = record {
  distinct = m.distinct;
  marked = m.marked;
}
Step-Marked (reported p reply before after e) m =
    report_result-Marked reply p _ (record { distinct = m.distinct; marked = m.marked })

Reachable-Marked : {node_id : String} {r : TaskRunner} → Reachable node_id r → Marked r
Reachable-Marked fresh = record { distinct = tt; marked = λ id h. absurd (ground arith) }
Reachable-Marked (next before step) = Step-Marked step (Reachable-Marked before)

-- Between one start of the process and the next, the runner gives no task to the executor twice,
-- however often the gateway hands it out.
pub Reachable-AllDistinct :
    {node_id : String} {r : TaskRunner} → Reachable node_id r → AllDistinct r.executions
Reachable-AllDistinct reached = (Reachable-Marked reached).distinct
