-- ===== src/Tests/Gateways.antt =====
-- The theorems on the gateway and on rollouts, applied.
use ai_edge.Prelude.{
  eq_iff, ℕ, ◌+◌, ◌≤◌, ◌<◌, ◌≡◌, ◌≢◌, ◌↔◌, ◌⊎◌, refl, String, true, false, Option, none, some, List,
  [], ◌∷◌, map, All, length, arith, ◌==◌, if◌then◌else◌, find_row, where_rows, order_by, count_rows,
  update_rows,
}
use ai_edge.Prelude.Int.{pos}
use ai_edge.Proto.{running}
use ai_edge.Store.Errors.{err}
use ai_edge.Store.Schema.{TaskRow, DeploymentRow}
use ai_edge.Store.Session.{Env, statement, select, with_tx}
use ai_edge.Task.Machine.{validate_transition, status_to_proto}
use ai_edge.Task.Store.{
  has_id, create_task, create_task_event, atomic_claim, mark_delivered, get_task_for_update,
  latest_attempt, create_task_run, update_task_run, update_result, claimable,
}
use ai_edge.Gateway.AgentService.{
  PullTasksRequest, NodeTask, node_task, pull_tasks, waiting_tasks, deliver, deliver_all,
  deliverable, clamp_max, validate_authenticated_node, TaskResultRequest, TextTools, is_text,
  normalize_reported_status, result_json, report_task_result,
}
use ai_edge.Gateway.AgentService.{HeartbeatRequest, report_heartbeat}
use ai_edge.Gateway.AgentService.Access.{mismatch, agent_calls_denied}
use ai_edge.Gateway.AgentService.Pull.{delivered_db, pull_tasks-effect, pull_tasks_once}
use ai_edge.Gateway.AgentService.Report.{
  next_attempt, reported_db, normalize-validate_transition, report_task_result-effect,
  report_task_result-attempt,
}
use ai_edge.Gateway.Dispatcher.{
  Dispatcher, PushRequest, PushResponse, expand_and_claim, push_regional_task,
}
use ai_edge.Gateway.Dispatcher.Expand.{
  expanded_db, expand_and_claim-effect, push_regional_task-counts,
}
use ai_edge.Gateway.IdentityCache.{
  CachedIdentity, Entries, cached, lookup, AuthConfig, certificate, Caller, authenticate,
  extract_fingerprint,
}
use ai_edge.Gateway.IdentityCache.Safety.{Active, Remembered}
use ai_edge.Gateway.IdentityCache.History.{Happening, looked}
use ai_edge.Store.Schema.{empty_db}
use ai_edge.Store.Session.{Session}
use ai_edge.Gateway.IdentityCache.Auth.{authenticate_sound}
use ai_edge.Gateway.Autonomy.{Monitor, new_monitor}
use ai_edge.Gateway.Autonomy.Alternation.{run, Alternates, run-Alternates}
use ai_edge.Deployment.Json.{JsonTools}
use ai_edge.Deployment.Rollout.{can_proceed, is_complete, suggest_phase}
use ai_edge.Deployment.Rollout.Bounds.{counts, limit, can_proceed-bounds, suggest_phase-is_complete}
use ai_edge.Tests.{env, waiting, identity, tables, session}

abbrev pull : PullTasksRequest
pull = record { node_id = "n1"; max_tasks = pos 5 }

abbrev pulled : List NodeTask
pulled = node_task waiting ∷ []

pull_tasks-effect_example :
    (pulled ≡ map node_task (waiting_tasks "g1" pull tables))
    × (length (waiting_tasks "g1" pull tables) ≤ 100)
    × ((pull_tasks env "g1" "n1" pull session).1.db
        ≡ delivered_db env "g1" "n1" (waiting_tasks "g1" pull tables) tables)
unfolding pull_tasks validate_authenticated_node with_tx select deliver_all waiting_tasks clamp_max
    order_by where_rows deliverable deliver create_task_event find_row update_rows
pull_tasks-effect_example = pull_tasks-effect env "g1" "n1" pull session pulled refl

pull_tasks_once_example :
    All (λ (a : NodeTask). All (λ (b : NodeTask). (b.task_id == a.task_id) ≡ false) []) pulled
unfolding pull_tasks validate_authenticated_node with_tx select deliver_all waiting_tasks clamp_max
    order_by where_rows deliverable deliver create_task_event find_row update_rows
pull_tasks_once_example =
    pull_tasks_once env env "g1" "n1" "g1" "n1" pull pull session
      (pull_tasks env "g1" "n1" pull session).1 pulled [] refl refl refl

abbrev tools : TextTools
tools = record {
  lower_trimmed = λ s. if s == "Success" then "success" else s;
  json_valid = λ s. true;
  raw_result = λ s. s;
}

abbrev report : TaskResultRequest
report = record {
  task_id = "t1";
  node_id = "n1";
  status = "Success";
  error_message = "";
  result = "{}";
}

report_task_result-effect_example :
    (st : String) × (row : TaskRow) × (run_id : String) × (normalize_reported_status tools "Success"
      ≡ some st)
    × (find_row (has_id "t1") tables.tasks ≡ some row)
    × (is_text "n1" row.target_node_id ≡ true)
    × ((report_task_result env tools "n1" report session).1.db
        ≡ reported_db env report st (result_json tools "{}") row run_id tables)
unfolding report_task_result validate_authenticated_node normalize_reported_status with_tx
    get_task_for_update select find_row latest_attempt create_task_run update_task_run update_result
    create_task_event update_rows
report_task_result-effect_example = report_task_result-effect env tools "n1" report session tt refl

report_task_result-attempt_example :
    next_attempt (report_task_result env tools "n1" report session).1.db "t1"
    ≡ next_attempt tables "t1" + 1
unfolding report_task_result validate_authenticated_node normalize_reported_status with_tx
    get_task_for_update select find_row latest_attempt create_task_run update_task_run update_result
    create_task_event update_rows
report_task_result-attempt_example =
    report_task_result-attempt env tools "n1" report session tt refl

normalize-validate_transition_example :
    validate_transition running (status_to_proto "Success") ≡ true
unfolding normalize_reported_status
normalize-validate_transition_example = normalize-validate_transition tools "Success" "Success" refl

abbrev dispatcher : Dispatcher
dispatcher = record { gateway_id = "g1"; claim_duration = 300 }

abbrev push : PushRequest
push = record {
  task_id = "t1";
  gateway_id = "g1";
  type = "Run";
  payload = some "{}";
  target_node_ids = "n1" ∷ [];
}

expand_and_claim-effect_example :
    (true ≡ true)
    × ((id : String) × (find_row (has_id id) tables.tasks ≡ none)
        × ((expand_and_claim env dispatcher push "n1" session).1.db
            ≡ expanded_db env dispatcher push "n1" id tables))
unfolding expand_and_claim with_tx create_task statement find_row create_task_event atomic_claim
    count_rows claimable mark_delivered update_rows
expand_and_claim-effect_example = expand_and_claim-effect env dispatcher push "n1" session true refl

abbrev pushed : PushResponse
pushed = record { expanded_count = 1; claimed_count = 1 }

push_regional_task-counts_example :
    (push.gateway_id ≡ dispatcher.gateway_id)
    × (pushed.expanded_count ≡ pushed.claimed_count)
    × (pushed.expanded_count ≤ length push.target_node_ids)
unfolding push_regional_task with_tx create_task statement find_row create_task_event atomic_claim
    count_rows claimable mark_delivered update_rows
push_regional_task-counts_example =
    push_regional_task-counts env dispatcher push session pushed refl

abbrev known_f1 : CachedIdentity
known_f1 = cached env 30 identity

abbrev stale : Entries
stale = record { fingerprint = "f1"; identity = record known_f1 { node_id = "old" } } ∷ []

abbrev late : Env
late = record env { time_now = 129 }

-- The identity is not active any more, and nothing has told so.
abbrev emptied : Session
emptied = record session { db = empty_db }

abbrev history : List Happening
history = looked env "f1" session ∷ []

abbrev config : AuthConfig
config = record {
  ttl = 30;
  gateway_id = "g1";
  skip_method = λ m. m == "Bootstrap";
  equal_fold = λ a b. a == b;
}

abbrev asked : Caller
asked = record { node_id = "old"; gateway_id = "g1" }

authenticate_sound_example :
    (f : String) × (i : CachedIdentity) × (certificate "f1" ≡ certificate f)
    × (Remembered env f stale i ⊎ Active f tables i)
    × (config.equal_fold i.gateway_id config.gateway_id ≡ true)
    × (asked.node_id ≡ i.node_id)
unfolding authenticate extract_fingerprint lookup find_row
authenticate_sound_example =
    authenticate_sound env config "PullTasks" (certificate "f1") stale session (asked, stale) refl
      refl

abbrev monitor : Monitor
monitor =
    new_monitor 1 (record { cloud_health_url = "http://cloud"; check_interval = 0; timeout = 0 })

abbrev probes : List (ℕ × Option ℕ)
probes = (10, none) ∷ (20, some 503) ∷ (30, some 200) ∷ []

run-Alternates_example :
    Alternates monitor.state (run monitor probes).1 (run monitor probes).0.state
run-Alternates_example = run-Alternates monitor probes

abbrev json : JsonTools
json = record {
  read_status = λ s.
      if s == "fresh" then some (counts "RollingOut" 3 0 0) else some (counts "RollingOut" 3 2 0);
  left_status = λ s. counts "RollingOut" 3 0 0;
  phase_text = λ s. some "RollingOut";
  write_status = λ st. "later";
  read_rollout = λ s. some (limit 2);
  write_rollout = λ r. "{}";
  read_target = λ s. none;
  write_target = λ t. "{}";
  read_object = λ s. none;
  write_object = λ o. "{}";
}

abbrev deployment : String → DeploymentRow
deployment status = record {
  id = "d1";
  model_name = "m";
  model_version = "1";
  target = "{}";
  runtime = "auto";
  rollout = "{}";
  status = status;
  created_at = 7;
  updated_at = 7;
}

can_proceed-bounds_example : (0 < 1) × (3 + 1 ≤ 2 + 2) × (2 + 0 + 1 ≤ 3)
unfolding can_proceed
can_proceed-bounds_example =
    can_proceed-bounds json (deployment "later") "RollingOut" 3 2 0 2 1 refl refl (omega arith) refl

suggest_phase-is_complete_example :
    (is_complete json (deployment "later") ≡ true)
    ↔ (suggest_phase json (deployment "later") ≢ "RollingOut")
suggest_phase-is_complete_example =
    suggest_phase-is_complete json (deployment "later") "RollingOut" 3 2 0 refl

abbrev beat : HeartbeatRequest
beat = record { node_id = "n1"; agent_version = "1.0"; timestamp = none }

abbrev stranger : String
stranger = "n2"

agent_calls_denied_example :
    (report_heartbeat env stranger beat session ≡ (err mismatch, session))
    × (pull_tasks env "g1" stranger pull session ≡ (err mismatch, session))
    × (report_task_result env tools stranger report session ≡ (err mismatch, session))
agent_calls_denied_example =
    agent_calls_denied env stranger session beat "g1" pull tools report (apart stranger "" refl)
      (apart "n1" "" refl, apart stranger "n1" refl) (apart "n1" "" refl, apart stranger "n1" refl)
      (apart "t1" "" refl, apart "n1" "" refl, apart stranger "n1" refl)
  where
    apart : (a b : String) → (a == b) ≡ false → a ≢ b
    apart a b h e = ground (arith, eq_iff a b, h, e)
