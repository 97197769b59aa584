-- ===== src/Task/Machine.antt =====
-- internal/task/state_machine.go: the texts of the statuses and the table of status transitions.
pub mod Graph
use ai_edge.Prelude.{
  String, Bool, true, false, ◌||◌, Option, none, some, List, [], ◌∷◌, ◌==◌, if◌then◌else◌,
}
use ai_edge.Proto.{
  TaskStatus, status_unspecified, pending, dispatching, running, success, failed, retrying, timeout,
  cancelled, partially_succeeded, same_status, DispatchStatus, dispatch_unspecified, unclaimed,
  claimed, delivered, TaskScope, scope_unspecified, scope_region, scope_node,
}

-- A Go map that is read with a key that it lacks gives the zero value: the unspecified enum.
unfoldable pub status_to_proto : String → TaskStatus
status_to_proto s =
    if s == "Pending"
    then pending
    else if s == "Dispatching"
    then dispatching
    else if s == "Running"
    then running
    else if s == "Success"
    then success
    else if s == "Failed"
    then failed
    else if s == "Retrying"
    then retrying
    else if s == "Timeout"
    then timeout
    else if s == "Cancelled"
    then cancelled
    else if s == "PartiallySucceeded"
    then partially_succeeded
    else status_unspecified

-- The empty text is the zero value.
unfoldable pub proto_to_status : TaskStatus → String
proto_to_status pending = "Pending"
proto_to_status dispatching = "Dispatching"
proto_to_status running = "Running"
proto_to_status success = "Success"
proto_to_status failed = "Failed"
proto_to_status retrying = "Retrying"
proto_to_status timeout = "Timeout"
proto_to_status cancelled = "Cancelled"
proto_to_status partially_succeeded = "PartiallySucceeded"
proto_to_status _ = ""

unfoldable pub dispatch_to_proto : String → DispatchStatus
dispatch_to_proto s =
    if s == "Unclaimed"
    then unclaimed
    else if s == "Claimed"
    then claimed
    else if s == "Delivered"
    then delivered
    else dispatch_unspecified

unfoldable pub scope_to_proto : String → TaskScope
scope_to_proto s =
    if s == "Region" then scope_region else if s == "Node" then scope_node else scope_unspecified

-- The lookup `v, ok := protoToScope[k]`.
unfoldable pub proto_to_scope : TaskScope → Option String
proto_to_scope scope_region = some "Region"
proto_to_scope scope_node = some "Node"
proto_to_scope _ = none

-- The map `terminalStatuses`, read by `IsTerminal`.
unfoldable pub is_terminal : TaskStatus → Bool
is_terminal success = true
is_terminal cancelled = true
is_terminal timeout = true
is_terminal partially_succeeded = true
is_terminal _ = false

-- The lookup `targets, ok := allowedTransitions[from]`.
unfoldable pub allowed_transitions : TaskStatus → Option (List TaskStatus)
allowed_transitions pending = some (dispatching ∷ cancelled ∷ [])
allowed_transitions dispatching = some (running ∷ cancelled ∷ timeout ∷ [])
allowed_transitions running =
    some (success ∷ failed ∷ timeout ∷ cancelled ∷ partially_succeeded ∷ [])
allowed_transitions failed = some (retrying ∷ cancelled ∷ [])
allowed_transitions retrying = some (running ∷ cancelled ∷ [])
allowed_transitions _ = none

-- The loop of `ValidateTransition` over the targets.
unfoldable pub any_target : TaskStatus → List TaskStatus → Bool
any_target to [] = false
any_target to (t ∷ ts) = same_status t to || any_target to ts

unfoldable pub validate_transition : TaskStatus → TaskStatus → Bool
unfolding allowed_transitions any_target
validate_transition from to = elim (allowed_transitions from) [
  | none ↦ false
  | some targets ↦ any_target to targets
]
