-- ===== src/Tests.antt =====
-- Small databases on which the theorems are applied and the operations are run.
pub mod Tasks
pub mod Gateways
pub mod Onboardings
pub mod Deployments
pub mod Registries
pub mod Agents
use ai_edge.Prelude.{ℕ, String, false, eqb, if◌then◌else◌, Option, none, some, List, [], ◌∷◌}
use ai_edge.Prelude.Int.{pos}
use ai_edge.Store.Schema.{Db, TaskRow, TokenRecord, IdentityRow, empty_db}
use ai_edge.Store.Session.{Env, Session}

-- Every statement reaches the database.
abbrev pub env : Env
env = record { now = 100; time_now = 100; uuid = λ k. "u1"; fault = λ k. none }

-- The statement of tick 2 fails.
abbrev pub broken : Env
broken = record env { fault = λ k. if eqb k 2 then some "gone" else none }

abbrev pub waiting : TaskRow
waiting = record {
  id = "t1";
  parent_task_id = none;
  scope = "Node";
  type = "Run";
  status = "Pending";
  target_gateway_id = some "g1";
  target_node_id = some "n1";
  payload = some "{}";
  result = none;
  dispatch_status = "Unclaimed";
  owner_instance = none;
  claim_expire_at = none;
  max_retries = pos 3;
  retry_count = 0;
  timeout_seconds = pos 600;
  idempotency_key = none;
  created_by = "user";
  created_at = 7;
  updated_at = 7;
}

abbrev pub ended : TaskRow
ended = record waiting { id = "t2"; status = "Success" }

abbrev pub token : TokenRecord
token = record {
  id = "k1";
  gateway_id = "g1";
  token_hash = "#secret";
  description = "";
  labels = [];
  max_uses = pos 2;
  used_count = 1;
  status = "Active";
  expires_at = 500;
  created_at = 7;
  updated_at = 7;
}

abbrev pub identity : IdentityRow
identity = record {
  id = "i1";
  node_id = "n1";
  gateway_id = "g1";
  serial = "s1";
  fingerprint = "f1";
  status = "Active";
  certificate_pem = "c1";
  expires_at = 900;
  issued_at = 7;
  revoked_at = none;
  created_at = 7;
  updated_at = 7;
}

abbrev pub tables : Db
tables = record empty_db {
  tasks = waiting ∷ ended ∷ [];
  bootstrap_tokens = token ∷ [];
  edge_identities = identity ∷ [];
}

abbrev pub session : Session
session = record { db = tables; tick = 0; aborted = false }
