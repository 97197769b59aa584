-- ===== src/Store/Schema.antt =====
-- The tables that migrations/*.up.sql create, as far as the modelled code reads or writes them: one
-- record for a row, and the database as one list of rows for each table. A column that may be NULL
-- is an `Option`, a time is a number, and a JSON object is its list of members.
use ai_edge.Prelude.{ℕ, String, Bool, Option, List, []}
use ai_edge.Prelude.Int.{ℤ}

-- The row model of `tasks`, TaskRow of internal/task/store.go.
pub record TaskRow : Type 0 where
  pub id : String
  pub parent_task_id : Option String
  pub scope : String
  pub type : String
  pub status : String
  pub target_gateway_id : Option String
  pub target_node_id : Option String
  pub payload : Option String
  pub result : Option String
  pub dispatch_status : String
  pub owner_instance : Option String
  pub claim_expire_at : Option ℕ
  pub max_retries : ℤ
  pub retry_count : ℕ
  pub timeout_seconds : ℤ
  pub idempotency_key : Option String
  pub created_by : String
  pub created_at : ℕ
  pub updated_at : ℕ

-- The row model of `task_runs`, TaskRunRow of internal/task/idempotency.go.
pub record TaskRunRow : Type 0 where
  pub id : String
  pub task_id : String
  pub node_id : String
  pub attempt : ℕ
  pub status : String
  pub started_at : ℕ
  pub finished_at : Option ℕ
  pub error_msg : String
  pub result : Option String
  pub created_at : ℕ

-- A row of `task_events`.
pub record TaskEventRow : Type 0 where
  pub task_id : String
  pub event_type : String
  pub old_status : String
  pub new_status : String
  pub actor : String
  pub detail : List (String × String)
  pub created_at : ℕ

-- TokenRecord of internal/onboarding/token_service.go, a row of `bootstrap_tokens`.
pub record TokenRecord : Type 0 where
  pub id : String
  pub gateway_id : String
  pub token_hash : String
  pub description : String
  pub labels : List (String × String)
  pub max_uses : ℤ
  pub used_count : ℕ
  pub status : String
  pub expires_at : ℕ
  pub created_at : ℕ
  pub updated_at : ℕ

-- A row of `edge_nodes`.
pub record NodeRow : Type 0 where
  pub id : String
  pub gateway_id : String
  pub labels : List (String × String)
  pub hardware_info : List (String × String)
  pub status : String
  pub agent_version : String
  pub online : Bool
  pub last_seen_at : Option ℕ
  pub created_at : ℕ
  pub updated_at : ℕ

-- identityRow of internal/onboarding/identity_service.go, a row of `edge_identities`.
pub record IdentityRow : Type 0 where
  pub id : String
  pub node_id : String
  pub gateway_id : String
  pub serial : String
  pub fingerprint : String
  pub status : String
  pub certificate_pem : String
  pub expires_at : ℕ
  pub issued_at : ℕ
  pub revoked_at : Option ℕ
  pub created_at : ℕ
  pub updated_at : ℕ

-- The row model of `model_deployments`, DeploymentRow of internal/deployment/store.go; `target`,
-- `rollout` and `status` are the texts of their JSON columns.
pub record DeploymentRow : Type 0 where
  pub id : String
  pub model_name : String
  pub model_version : String
  pub target : String
  pub runtime : String
  pub rollout : String
  pub status : String
  pub created_at : ℕ
  pub updated_at : ℕ

-- RuntimeProfileRow of internal/deployment/store.go; `selector` is the text of its JSON column.
pub record RuntimeProfileRow : Type 0 where
  pub id : String
  pub name : String
  pub selector : String
  pub runtime : String
  pub priority : ℤ
  pub runtime_config : String
  pub created_at : ℕ

-- A row of `edge_runtime_states`, without its id, which nothing reads.
pub record RuntimeStateRow : Type 0 where
  pub node_id : String
  pub model_name : String
  pub model_version : String
  pub runtime : String
  pub status : String
  pub metrics : String
  pub updated_at : ℕ

-- ModelRow of internal/model/store.go, a row of `models`.
pub record ModelRow : Type 0 where
  pub id : String
  pub name : String
  pub version : String
  pub format : String
  pub checksum : String
  pub size_bytes : ℤ
  pub artifact_uri : String
  pub signature_uri : String
  pub labels : List (String × String)
  pub created_at : ℕ

-- gatewayRow of internal/gateway/gateway_service.go, a row of `gateways`.
pub record GatewayRow : Type 0 where
  pub id : String
  pub name : String
  pub region : String
  pub labels : List (String × String)
  pub status : String
  pub endpoint : String
  pub created_at : ℕ
  pub updated_at : ℕ

-- CacheEntry of internal/gateway/cache.go, a row of `gateway_cache_entries`.
pub record CacheEntry : Type 0 where
  pub id : String
  pub gateway_id : String
  pub model_id : String
  pub version : String
  pub cached_at : ℕ
  pub last_access_at : ℕ
  pub size_bytes : ℤ

pub record Db : Type 0 where
  pub tasks : List TaskRow
  pub task_runs : List TaskRunRow
  pub task_events : List TaskEventRow
  pub bootstrap_tokens : List TokenRecord
  pub edge_nodes : List NodeRow
  pub edge_identities : List IdentityRow
  pub model_deployments : List DeploymentRow
  pub runtime_profiles : List RuntimeProfileRow
  pub edge_runtime_states : List RuntimeStateRow
  pub models : List ModelRow
  pub gateways : List GatewayRow
  pub gateway_cache_entries : List CacheEntry

abbrev pub empty_db : Db
empty_db = record {
  tasks = [];
  task_runs = [];
  task_events = [];
  bootstrap_tokens = [];
  edge_nodes = [];
  edge_identities = [];
  model_deployments = [];
  runtime_profiles = [];
  edge_runtime_states = [];
  models = [];
  gateways = [];
  gateway_cache_entries = [];
}
