-- ===== src/Observability.antt =====
-- internal/observability/reporter.go: the registry of gauges and the reports of the agents, with the
-- handlers ReportMetrics and ReportRuntimeState of internal/gateway/agent_service.go. A float64 is
-- its text, which is all that is done with one.
use ai_edge.Prelude.{String, concat, List, [], ◌∷◌, ◌==◌, not, if◌then◌else◌}
use ai_edge.Proto.{invalid_argument, internal}
use ai_edge.Store.Errors.{Result, ok, err, plain, grpc, grpc_of}
use ai_edge.Store.Session.{Env, Exec, pure, raise, guard, ◌>>=◌, ◌>>◌, on_error}
use ai_edge.Deployment.Store.{upsert_runtime_state}
use ai_edge.Gateway.AgentService.{validate_authenticated_node}

-- MetricRegistry: each gauge by its name.
abbrev pub Gauges : Type 0
Gauges = List (String × String)

-- Gauge(name).Set(value): a gauge is made on its first use.
unfoldable pub set_gauge : String → String → Gauges → Gauges
set_gauge name value [] = (name, value) ∷ []
set_gauge name value ((n, v) ∷ rest) =
    let others = (n, v) ∷ set_gauge name value rest in
    if n == name then (n, value) ∷ rest else others

-- Snapshot() copies what Get() reads of each gauge.
unfoldable pub snapshot : Gauges → List (String × String)
snapshot gauges = gauges

pub record ReportMetricsRequest : Type 0 where
  pub node_id : String
  pub metrics : List (String × String)

abbrev pub gauge_name : (node_id name : String) → String
gauge_name node_id name = concat "node:" (concat node_id (concat ":" name))

unfoldable pub record_metrics : String → List (String × String) → Gauges → Gauges
record_metrics node_id [] gauges = gauges
record_metrics node_id ((name, value) ∷ rest) gauges =
    record_metrics node_id rest (set_gauge (gauge_name node_id name) value gauges)

unfoldable pub handle_metrics : ReportMetricsRequest → Gauges → Result (Unit {0}) × Gauges
handle_metrics req gauges =
    if req.node_id == ""
    then (err (plain "observability: node_id is required"), gauges)
    else (ok tt, record_metrics req.node_id req.metrics gauges)

pub record RuntimeStateEntry : Type 0 where
  pub model_name : String
  pub model_version : String
  pub runtime : String
  pub status : String
  pub latency_p95_ms : String
  pub tokens_per_sec : String
  pub qps : String

pub record ReportRuntimeStateRequest : Type 0 where
  pub node_id : String
  pub entries : List RuntimeStateEntry

-- json.Marshal of the map of the numbers.
abbrev pub WriteNumbers : Type 0
WriteNumbers = List (String × String) → String

abbrev pub entry_metrics : RuntimeStateEntry → List (String × String)
entry_metrics e =
    ("latency_p95_ms", e.latency_p95_ms)
    ∷ ("tokens_per_sec", e.tokens_per_sec)
    ∷ ("qps", e.qps)
    ∷ []

-- An entry that fails is logged, and the loop goes on.
unfoldable pub upsert_entries :
    Env → WriteNumbers → (node_id : String) → List RuntimeStateEntry → Exec (Unit {0})
upsert_entries env write node_id [] s = (ok tt, s)
upsert_entries env write node_id (e ∷ es) s =
    upsert_entries env write node_id es
      (upsert_runtime_state env node_id e.model_name e.model_version e.runtime e.status
        (write (entry_metrics e)) s).1

unfoldable pub handle_runtime_state :
    Env → WriteNumbers → ReportRuntimeStateRequest → Exec (Unit {0})
handle_runtime_state env write req =
    if req.node_id == ""
    then raise (plain "observability: node_id is required")
    else upsert_entries env write req.node_id req.entries

-- The gauges live in the process, so that the handler answers with them.
unfoldable pub report_metrics : (caller : String) → ReportMetricsRequest → Gauges → Exec Gauges
report_metrics caller req gauges = do
  guard (not (req.node_id == "")) (grpc invalid_argument "node_id is required")
  validate_authenticated_node caller req.node_id
  on_error (grpc_of internal "report metrics") (λ s. ((handle_metrics req gauges).0, s))
  pure (handle_metrics req gauges).1

unfoldable pub report_runtime_state :
    Env → WriteNumbers → (caller : String) → ReportRuntimeStateRequest → Exec (Unit {0})
report_runtime_state env write caller req = do
  guard (not (req.node_id == "")) (grpc invalid_argument "node_id is required")
  validate_authenticated_node caller req.node_id
  u ← on_error (grpc_of internal "report runtime state") (handle_runtime_state env write req)
  pure u
