-- ===== src/Onboarding/Bootstrap.antt =====
-- internal/onboarding/bootstrap_service.go, its gRPC handlers in onboarding_grpc.go and
-- RevokeIdentity of identity_service.go: how a node gets, renews and loses its identity. The CA of
-- internal/pki is a parameter.
pub mod Effects
pub mod Revoke
use ai_edge.Prelude.{
  ℕ, ◌+◌, ◌-◌, ◌*◌, String, concat, Bool, false, ◌&&◌, ◌||◌, not, Option, none, some, List, [], ◌∷◌,
  ◌++◌, ◌==◌, ltb, if◌then◌else◌, map, find_row, where_rows, update_rows, count_rows, ◌⊎◌, inl, inr,
}
use ai_edge.Proto.{invalid_argument, internal, unauthenticated}
use ai_edge.Store.Errors.{
  Error, Result, ok, err, wrap, grpc, grpc_of, renew_not_allowed, driver_text, is_unique_violation,
}
use ai_edge.Store.Schema.{Db, NodeRow, IdentityRow, TaskEventRow}
use ai_edge.Store.Session.{
  Env, Exec, Outcome, done, violates, pure, raise, guard, ◌>>=◌, ◌>>◌, on_error, statement,
  autocommit, select, select_now, with_tx,
}
use ai_edge.Task.Retry.{second}
use ai_edge.Task.Store.{has_id, new_event, event_task_text}
use ai_edge.Onboarding.Errors.{err_identity_conflict, err_csr_invalid, err_identity_revoked}
use ai_edge.Onboarding.Tokens.{TokenTools, validate_and_consume}

pub record SignResult : Type 0 where
  pub fingerprint : String
  pub cert_pem : String
  pub expires_at : ℕ

-- pki.Signer: the certificate for a CSR and a node id, or the text of an error.
pub record Signer : Type 0 where
  pub sign_csr : String → String → String ⊎ SignResult
  pub ca_pem : String

-- 30 days
abbrev pub renew_threshold : ℕ
renew_threshold = 30 * 24 * 3600 * second

pub record BootstrapInput : Type 0 where
  pub token : String
  pub gateway_id : String
  pub csr_pem : String
  pub serial : String
  pub hardware_info : List (String × String)
  pub labels : List (String × String)

pub record BootstrapOutput : Type 0 where
  pub node_id : String
  pub cert_pem : String
  pub ca_pem : String
  pub expires_at : ℕ

abbrev pub live : IdentityRow → Bool
live r = r.status == "Active" || r.status == "Suspended"

abbrev pub live_serial : String → IdentityRow → Bool
live_serial serial r = r.serial == serial && live r

abbrev no_identity : Option IdentityRow → Exec (Unit {0})
no_identity none = pure tt
no_identity (some r) = raise err_identity_conflict

unfoldable pub check_serial : Env → String → Exec (Unit {0})
check_serial env serial = if serial == "" then pure tt else (do
  found ←
      on_error (wrap "check serial conflict")
        (select env (λ db. find_row (live_serial serial) db.edge_identities))
  no_identity found)

abbrev pub node_key_text : String
node_key_text = "pq: duplicate key value violates unique constraint \"edge_nodes_pkey\""

abbrev pub is_node : String → NodeRow → Bool
is_node id r = r.id == id

abbrev pub new_node : ℕ → BootstrapInput → String → NodeRow
new_node now input id = record {
  id = id;
  gateway_id = input.gateway_id;
  labels = input.labels;
  hardware_info = input.hardware_info;
  status = "Active";
  agent_version = "";
  online = false;
  last_seen_at = none;
  created_at = now;
  updated_at = now;
}

unfoldable pub insert_node : Env → BootstrapInput → Exec String
insert_node env input = on_error (wrap "create edge node") (
    statement env (λ id db. elim (find_row (is_node id) db.edge_nodes) [
      | some old ↦ violates node_key_text
      | none ↦ done id (record db { edge_nodes = db.edge_nodes ++ new_node env.now input id ∷ [] })
    ]))

abbrev pub new_identity : ℕ → BootstrapInput → String → SignResult → String → IdentityRow
new_identity now input node_id signed id = record {
  id = id;
  node_id = node_id;
  gateway_id = input.gateway_id;
  serial = input.serial;
  fingerprint = signed.fingerprint;
  status = "Active";
  certificate_pem = signed.cert_pem;
  expires_at = signed.expires_at;
  issued_at = now;
  revoked_at = none;
  created_at = now;
  updated_at = now;
}

-- The unique constraints of edge_identities; the one on the serial is partial.
abbrev pub identity_clash : IdentityRow → IdentityRow → Bool
identity_clash new r =
    r.id == new.id
    || (r.node_id == new.node_id || (r.fingerprint == new.fingerprint || live_serial new.serial r))

-- Only this part of the text is read, whichever constraint it names.
abbrev pub identity_key_text : String
identity_key_text = "pq: duplicate key value violates unique constraint of edge_identities"

abbrev pub insert_identity_row : (String → IdentityRow) → String → Db → Outcome (Unit {0})
insert_identity_row new id db = elim (find_row (identity_clash (new id)) db.edge_identities) [
  | some old ↦ violates identity_key_text
  | none ↦ done tt (record db { edge_identities = db.edge_identities ++ new id ∷ [] })
]

unfoldable pub identity_error : Error → Error
identity_error e =
    if is_unique_violation (driver_text e) then err_identity_conflict else wrap "create identity" e

unfoldable pub insert_identity : Env → BootstrapInput → String → SignResult → Exec (Unit {0})
insert_identity env input node_id signed =
    on_error identity_error
      (statement env (insert_identity_row (new_identity env.now input node_id signed)))

abbrev pub signed_or : String ⊎ SignResult → Exec SignResult
signed_or (inl msg) = raise (err_csr_invalid msg)
signed_or (inr signed) = pure signed

abbrev pub bootstrap_body : Env → TokenTools → Signer → BootstrapInput → Exec BootstrapOutput
bootstrap_body env tools signer input = do
  rec ← validate_and_consume env tools input.token input.gateway_id
  check_serial env input.serial
  node_id ← insert_node env input
  signed ← signed_or (signer.sign_csr input.csr_pem node_id)
  insert_identity env input node_id signed
  pure (record {
    node_id = node_id;
    cert_pem = signed.cert_pem;
    ca_pem = signer.ca_pem;
    expires_at = signed.expires_at;
  })

unfoldable pub bootstrap : Env → TokenTools → Signer → BootstrapInput → Exec BootstrapOutput
bootstrap env tools signer input = do
  guard (not (input.csr_pem == "")) (err_csr_invalid "empty CSR")
  with_tx env (bootstrap_body env tools signer input)

unfoldable pub bootstrap_handler : Env → TokenTools → Signer → BootstrapInput → Exec BootstrapOutput
unfolding bootstrap
bootstrap_handler env tools signer input = do
  guard (not (input.token == "")) (grpc invalid_argument "token is required")
  guard (not (input.gateway_id == "")) (grpc invalid_argument "gateway_id is required")
  bootstrap env tools signer input

pub record RenewOutput : Type 0 where
  pub cert_pem : String
  pub ca_pem : String
  pub expires_at : ℕ

abbrev pub active_of : String → IdentityRow → Bool
active_of node_id r = r.node_id == node_id && r.status == "Active"

abbrev pub identity_has_id : String → IdentityRow → Bool
identity_has_id id r = r.id == id

abbrev pub active_identity : Option IdentityRow → Exec IdentityRow
active_identity none = raise err_identity_revoked
active_identity (some r) = pure r

abbrev pub renewed : ℕ → SignResult → IdentityRow → IdentityRow
renewed now signed r = record r {
  fingerprint = signed.fingerprint;
  certificate_pem = signed.cert_pem;
  expires_at = signed.expires_at;
  issued_at = now;
  updated_at = now;
}

unfoldable pub renew : Env → Signer → String → String → Exec RenewOutput
renew env signer node_id csr_pem = do
  guard (not (csr_pem == "")) (err_csr_invalid "empty CSR")
  found ←
      on_error (wrap "query identity")
        (select_now env (λ db. find_row (active_of node_id) db.edge_identities))
  identity ← active_identity found
  guard (not (ltb (env.time_now + renew_threshold) identity.expires_at))
      (renew_not_allowed (identity.expires_at - env.time_now))
  signed ← signed_or (signer.sign_csr csr_pem node_id)
  on_error (wrap "update identity") (
      autocommit env (λ id db. done tt (record db {
        edge_identities =
            update_rows (identity_has_id identity.id) (renewed env.now signed) db.edge_identities;
      })))
  pure (record {
    cert_pem = signed.cert_pem;
    ca_pem = signer.ca_pem;
    expires_at = signed.expires_at;
  })

-- The node is the common name of the client's certificate, the empty text if there is none.
unfoldable pub renew_handler : Env → Signer → String → String → Exec RenewOutput
unfolding renew
renew_handler env signer caller csr_pem = do
  guard (not (caller == "")) (grpc unauthenticated "node_id not found in mTLS context")
  renew env signer caller csr_pem

abbrev pub live_of : String → IdentityRow → Bool
live_of node_id r = r.node_id == node_id && live r

abbrev pub revoked_identity : ℕ → IdentityRow → IdentityRow
revoked_identity now r = record r { status = "Revoked"; revoked_at = some now; updated_at = now }

abbrev pub revoked_node : ℕ → NodeRow → NodeRow
revoked_node now r = record r { status = "Revoked"; updated_at = now }

abbrev pub identity_of : String → IdentityRow → Bool
identity_of node_id r = r.node_id == node_id

-- The event has the identity's id. NULL is the empty text here.
abbrev pub audit_event : Env → (reason : String) → IdentityRow → TaskEventRow
audit_event env reason r =
    new_event env.now r.id "IDENTITY_REVOKED" "" "" "admin" (("reason", reason) ∷ [])

abbrev pub audit_events : Env → (node_id reason : String) → Db → List TaskEventRow
audit_events env node_id reason db =
    map (audit_event env reason) (where_rows (identity_of node_id) db.edge_identities)

-- INSERT INTO task_events of several rows: each must name a task.
unfoldable pub insert_events : List TaskEventRow → Db → Outcome (Unit {0})
insert_events [] db = done tt db
insert_events (e ∷ es) db = elim (find_row (has_id e.task_id) db.tasks) [
  | none ↦ violates event_task_text
  | some task ↦ insert_events es (record db { task_events = db.task_events ++ e ∷ [] })
]

-- `_ = err`
abbrev pub best_effort : Exec (Unit {0}) → Exec (Unit {0})
best_effort m s = let (r, s') = m s in (ok tt, s')

abbrev pub revoke_identities : Env → String → Exec ℕ
revoke_identities env node_id = on_error (wrap "revoke identity") (
    statement env (λ id db. done (count_rows (live_of node_id) db.edge_identities) (record db {
      edge_identities = update_rows (live_of node_id) (revoked_identity env.now) db.edge_identities;
    })))

abbrev pub update_node_status : Env → String → Exec (Unit {0})
update_node_status env node_id = on_error (wrap "update node status") (
    statement env (λ id db. done tt (record db {
      edge_nodes = update_rows (is_node node_id) (revoked_node env.now) db.edge_nodes;
    })))

abbrev pub audit : Env → (node_id reason : String) → Exec (Unit {0})
audit env node_id reason =
    best_effort (statement env (λ id db. insert_events (audit_events env node_id reason db) db))

abbrev pub revoke_body : Env → String → String → Exec (Unit {0})
revoke_body env node_id reason = do
  rows ← revoke_identities env node_id
  guard (ltb 0 rows) err_identity_revoked
  update_node_status env node_id
  audit env node_id reason

unfoldable pub revoke_node : Env → String → String → Exec (Unit {0})
revoke_node env node_id reason = with_tx env (revoke_body env node_id reason)

-- The handler of a request that names an identity hands its id over as the id of a node.
unfoldable pub revoke_identity : Env → String → String → Exec (Unit {0})
unfolding revoke_node
revoke_identity env id reason = do
  guard (not (id == "")) (grpc invalid_argument "id is required")
  on_error (grpc_of internal "revoke identity")
      (revoke_node env id (if reason == "" then "admin revoked" else reason))
