-- ===== src/Tests/Tasks.antt =====
-- The theorems on the task service, applied.
use ai_edge.Prelude.{
  ℕ, eq_iff, ◌*◌, ◌^◌, ◌≡◌, ◌≢◌, ◌↔◌, ◌⊎◌, refl, String, true, false, some, arith, find_row,
  count_rows, update_rows, min,
}
use ai_edge.Prelude.Int.{pos, negsuc}
use ai_edge.Proto.{TaskStatus, running, success}
use ai_edge.Store.Errors.{driver, wrap}
use ai_edge.Store.Schema.{TaskRow}
use ai_edge.Store.Session.{statement, select, with_tx}
use ai_edge.Task.Machine.{validate_transition, is_terminal, status_to_proto, proto_to_status}
use ai_edge.Task.Machine.Graph.{
  ◌⟶◌, IsOpen, named_success, is_terminal_iff, status_to_proto-proto_to_status,
}
use ai_edge.Task.Retry.{
  RetryPolicy, can_retry, next_backoff, classify_result_status, base_backoff_interval,
  max_backoff_interval,
}
use ai_edge.Task.Retry.Backoff.{next_backoff-eq-min, classify-validate_transition}
use ai_edge.Task.Store.{has_id, get_task_for_update, update_status, create_task_event}
use ai_edge.Task.Service.{row_to_proto, err_to_status, cancel_task_handler}
use ai_edge.Task.Service.Cancel.{
  cancelled_db, CancelAnswer, cancel_task-effect, cancel_task-atomic, cancel_task_quiet,
}
use ai_edge.Tests.{env, broken, waiting, tables, session}

is_terminal_iff_example : (is_terminal success ≡ true) ↔ ((t : TaskStatus) → ¬ (success ⟶ t))
is_terminal_iff_example = is_terminal_iff success named_success

status_to_proto-proto_to_status_example : status_to_proto (proto_to_status success) ≡ success
status_to_proto-proto_to_status_example = status_to_proto-proto_to_status success named_success

abbrev retries : ℕ → RetryPolicy
retries n = record { max_retries = pos 3; retry_count = pos n; timeout_seconds = pos 60 }

next_backoff-eq-min_example :
    next_backoff (λ x. negsuc 0) (retries 2)
    ≡ pos (min (base_backoff_interval * 2 ^ 2) max_backoff_interval)
next_backoff-eq-min_example = next_backoff-eq-min (λ x. negsuc 0) (retries 2) 2 refl (omega arith)

abbrev oom : String
oom = "oom"

classify-validate_transition_example :
    (validate_transition running (status_to_proto (classify_result_status oom (retries 1))) ≡ true)
    ↔ ((oom ≡ "") ⊎ (can_retry (retries 1) ≡ false))
classify-validate_transition_example = classify-validate_transition oom (retries 1)

cancel_task-effect_example :
    (row : TaskRow) × (find_row (has_id "t1") tables.tasks ≡ some row)
    × IsOpen (status_to_proto row.status)
    × (row_to_proto (record waiting { status = "Cancelled" })
        ≡ row_to_proto (record row { status = "Cancelled" }))
    × ((cancel_task_handler env "t1" "stop" session).1.db ≡ cancelled_db 100 row "stop" tables)
unfolding cancel_task_handler statement select with_tx get_task_for_update update_status
    create_task_event find_row is_terminal status_to_proto validate_transition count_rows
    update_rows
cancel_task-effect_example =
    cancel_task-effect env "t1" "stop" session
      (row_to_proto (record waiting { status = "Cancelled" })) refl

cancel_task-atomic_example : (cancel_task_handler broken "t1" "stop" session).1.db ≡ tables
unfolding cancel_task_handler statement select with_tx get_task_for_update update_status
    create_task_event find_row is_terminal status_to_proto validate_transition count_rows
    update_rows
cancel_task-atomic_example =
    cancel_task-atomic broken "t1" "stop" session
      (err_to_status (wrap "update task status" (driver "gone"))) refl

named : waiting.id ≢ ""
named h = ground (arith, (eq_iff waiting.id "").1 h)

cancel_task_quiet_example : CancelAnswer waiting (cancel_task_handler env "t1" "stop" session).0
unfolding find_row
cancel_task_quiet_example = cancel_task_quiet env "t1" "stop" session waiting (λ k. refl) named refl
