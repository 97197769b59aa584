-- ===== src/Task/Machine/Graph.antt =====
-- The transition table of internal/task/state_machine.go as a relation, and its terminal statuses.
use ai_edge.Prelude.{◌≡◌, refl, ◌≢◌, ◌↔◌, String, true, false, arith, eq_iff}
use ai_edge.Proto.{
  TaskStatus, status_unspecified, pending, dispatching, running, success, failed, retrying, timeout,
  cancelled, partially_succeeded,
}
use ai_edge.Task.Machine.{status_to_proto, proto_to_status, is_terminal, validate_transition}

-- A task that has not ended can be cancelled.
pub data IsOpen : TaskStatus → Type 0 where
  open_pending : IsOpen pending
  open_dispatching : IsOpen dispatching
  open_running : IsOpen running
  open_failed : IsOpen failed
  open_retrying : IsOpen retrying

infix 40 ◌⟶◌ ◌⟶*◌
pub data ◌⟶◌ : TaskStatus → TaskStatus → Type 0 where
  dispatch : pending ⟶ dispatching
  start : dispatching ⟶ running
  expire_dispatch : dispatching ⟶ timeout
  succeed : running ⟶ success
  fail : running ⟶ failed
  expire : running ⟶ timeout
  succeed_partly : running ⟶ partially_succeeded
  retry : failed ⟶ retrying
  restart : retrying ⟶ running
  cancel : {s : TaskStatus} → IsOpen s → s ⟶ cancelled

pub data ◌⟶*◌ (s : TaskStatus) : TaskStatus → Type 0 where
  here : s ⟶* s
  next : {t u : TaskStatus} → s ⟶* t → t ⟶ u → s ⟶* u

ruleset edges = (
  dispatch, start, expire_dispatch, succeed, fail, expire, succeed_partly, retry, restart, cancel,
  open_pending, open_dispatching, open_running, open_failed, open_retrying,
)

validate_sound : (from to : TaskStatus) → validate_transition from to ≡ true → from ⟶ to
unfolding validate_transition
validate_sound from to h = grind (arith, edges)

validate_complete : {from to : TaskStatus} → from ⟶ to → validate_transition from to ≡ true
unfolding validate_transition
validate_complete dispatch = refl
validate_complete (cancel open_pending) = refl
validate_complete _ = refl

-- The relation is that of the table.
pub validate_transition_iff :
    (from to : TaskStatus) → (validate_transition from to ≡ true) ↔ (from ⟶ to)
validate_transition_iff from to = (validate_sound from to, validate_complete)

-- The statuses that the .proto file names, the unspecified one apart.
pub data IsNamed : TaskStatus → Type 0 where
  named_open : {s : TaskStatus} → IsOpen s → IsNamed s
  named_success : IsNamed success
  named_timeout : IsNamed timeout
  named_cancelled : IsNamed cancelled
  named_partly : IsNamed partially_succeeded

terminal_stuck : {s t : TaskStatus} → s ⟶ t → is_terminal s ≡ true → ⊥
unfolding is_terminal
terminal_stuck dispatch h = cc
terminal_stuck (cancel open_pending) h = cc
terminal_stuck _ h = cc

stuck_terminal :
    {s : TaskStatus} → IsNamed s → ((t : TaskStatus) → ¬ (s ⟶ t)) → is_terminal s ≡ true
unfolding is_terminal
stuck_terminal (named_open o) h = absurd (h cancelled (cancel o))
stuck_terminal named_success h = refl
stuck_terminal _ h = refl

-- Of the named statuses `IsTerminal` holds exactly for those that no transition leaves.
pub is_terminal_iff :
    (s : TaskStatus) → IsNamed s → (is_terminal s ≡ true) ↔ ((t : TaskStatus) → ¬ (s ⟶ t))
is_terminal_iff s n = ((λ h t e. terminal_stuck e h), stuck_terminal n)

-- Every named status is written as a text that reads back as the same status.
pub status_to_proto-proto_to_status :
    (s : TaskStatus) → IsNamed s → status_to_proto (proto_to_status s) ≡ s
unfolding status_to_proto proto_to_status
status_to_proto-proto_to_status s (named_open open_pending) = refl
status_to_proto-proto_to_status s (named_open _) = refl
status_to_proto-proto_to_status s named_success = refl
status_to_proto-proto_to_status s _ = refl

-- A text that reads as a status, and not as the unspecified one, is what that status is written as.
pub proto_to_status-status_to_proto :
    (text : String)
    → status_to_proto text ≢ status_unspecified
    → proto_to_status (status_to_proto text) ≡ text
unfolding status_to_proto proto_to_status
proto_to_status-status_to_proto text h = ground (
  arith,
  eq_iff text "Pending",
  eq_iff text "Dispatching",
  eq_iff text "Running",
  eq_iff text "Success",
  eq_iff text "Failed",
  eq_iff text "Retrying",
  eq_iff text "Timeout",
  eq_iff text "Cancelled",
  eq_iff text "PartiallySucceeded",
)

-- What may be cancelled: the statuses of a task that has not ended.
pub can_cancel_iff : (s : TaskStatus) → (validate_transition s cancelled ≡ true) ↔ IsOpen s
can_cancel_iff s =
    (λ h. source (validate_sound s cancelled h) refl, λ o. validate_complete (cancel o))
  where
    source : {s t : TaskStatus} → s ⟶ t → t ≡ cancelled → IsOpen s
    source (cancel o) e = o
    source dispatch e = open_pending
    source start e = open_dispatching
    source expire_dispatch e = open_dispatching
    source retry e = open_failed
    source restart e = open_retrying
    source _ e = open_running

pub open_not_terminal : {s : TaskStatus} → IsOpen s → is_terminal s ≡ false
unfolding is_terminal
open_not_terminal open_pending = refl
open_not_terminal _ = refl
