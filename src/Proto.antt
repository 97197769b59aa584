-- ===== src/Proto.antt =====
-- The enums of api/proto/edge/ai/api/v1 that the program's tables range over. Go's enums are open
-- integers: `unknown n` is a number that the .proto file gives no name.
use ai_edge.Prelude.{ℕ, ◌+◌, Bool, eqb}

pub data TaskStatus : Type 0 where
  status_unspecified pending dispatching running success failed retrying timeout cancelled
        partially_succeeded :
      TaskStatus
  unknown_status : ℕ → TaskStatus

-- The number on the wire; a number without a name lies above the named ones.
abbrev pub status_number : TaskStatus → ℕ
status_number status_unspecified = 0
status_number pending = 1
status_number dispatching = 2
status_number running = 3
status_number success = 4
status_number failed = 5
status_number retrying = 6
status_number timeout = 7
status_number cancelled = 8
status_number partially_succeeded = 9
status_number (unknown_status n) = 10 + n

-- Go's `==` on the enum.
abbrev pub same_status : TaskStatus → TaskStatus → Bool
same_status a b = eqb (status_number a) (status_number b)

pub data DispatchStatus : Type 0 where
  dispatch_unspecified unclaimed claimed delivered : DispatchStatus

pub data TaskScope : Type 0 where
  scope_unspecified scope_region scope_node : TaskScope
  unknown_scope : ℕ → TaskScope

pub data IdentityStatus : Type 0 where
  identity_unspecified identity_active identity_suspended identity_revoked : IdentityStatus

pub data IdentityEventType : Type 0 where
  event_unspecified event_revoked event_renewed event_suspended : IdentityEventType
  unknown_event : ℕ → IdentityEventType

pub data DeploymentPhase : Type 0 where
  phase_unspecified phase_pending rolling_out active phase_failed paused : DeploymentPhase
  unknown_phase : ℕ → DeploymentPhase

pub data ModelFormat : Type 0 where
  format_unspecified onnx tflite gguf safetensors custom : ModelFormat
  unknown_format : ℕ → ModelFormat

-- The codes of google.golang.org/grpc/codes that the services return.
pub data Code : Type 0 where
  invalid_argument not_found already_exists permission_denied resource_exhausted : Code
  failed_precondition internal unauthenticated : Code
