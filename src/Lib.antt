-- ===== src/Lib.antt =====
-- The server side of ai-edge, which runs models on edge nodes: a control plane keeps tasks, nodes,
-- identities and deployments in PostgreSQL; a gateway in each region serves the agents of its nodes,
-- hands tasks to them and takes their results.
--
-- How the parts interact. The task service, the gateway's agent service and dispatcher, the
-- onboarding service, the deployment controller and the registries are handlers around SQL
-- statements, mostly inside one transaction. They meet in the tables: the service or the deployment
-- controller creates a task, the dispatcher of a gateway adds one task for each target node,
-- PullTasks hands it to the agent, whose runner executes it and reports its result, ReportTaskResult
-- ends it, CancelTask may come between. Agents report the states of their runtimes, which the
-- controller counts to move a deployment on. Registration turns a bootstrap token into a node with
-- an identity; the identity cache lets the interceptor of the gateway know the caller by the
-- certificate of that identity. A gateway registers itself with the control plane when it starts.
--
-- Files, and the code that each models:
--   Prelude              shared lists, tables (WHERE, UPDATE, ORDER BY) and integers
--   Proto                the enums of api/proto/edge/ai/api/v1
--   Store                internal/store/db.go and errors.go, and the tables of migrations/; an action
--                        is a function from a session (the tables, a count of statements, whether the
--                        transaction is aborted) to a result and the next session
--   Pages                the page requests and tokens that the list calls share
--   Task.Machine, Retry  internal/task/state_machine.go (ValidateTransition, IsTerminal), retry.go
--   Task.Store           internal/task/store.go, one definition for each method
--   Task.Idempotency     internal/task/idempotency.go
--   Task.Service         internal/task/service.go (CreateTask, GetTask, ListTasks, CancelTask)
--   Onboarding.Errors    internal/onboarding/errors.go
--   Onboarding.Tokens    internal/onboarding/token_service.go and token_grpc.go
--   Onboarding.Bootstrap internal/onboarding/bootstrap_service.go (Bootstrap, Renew, RevokeNode), with
--                        the handlers of onboarding_grpc.go and RevokeIdentity of identity_service.go
--   Onboarding.Counts    the uses of tokens over sequences of requests
--   Onboarding.Nodes     internal/onboarding/node_service.go
--   Onboarding.Identities  the lists of identity_service.go and token_grpc.go
--   Deployment.Json      the JSON columns of internal/deployment/store.go
--   Deployment.Store     internal/deployment/store.go, one definition for each method
--   Deployment.Controller  internal/deployment/controller.go (reconcile, reconcileOne,
--                        CreateDeploymentTask)
--   Deployment.Service   internal/deployment/service.go
--   Deployment.Rollout   internal/deployment/rollout.go
--   Model.Store, Service internal/model/store.go and service.go
--   Observability        internal/observability/reporter.go, with ReportMetrics and
--                        ReportRuntimeState of internal/gateway/agent_service.go
--   Gateway.AgentService internal/gateway/agent_service.go (ReportHeartbeat, PullTasks,
--                        ReportTaskResult)
--   Gateway.Dispatcher   internal/gateway/dispatcher.go
--   Gateway.IdentityCache  internal/gateway/identity_cache.go and auth.go
--   Gateway.Autonomy     internal/gateway/autonomy.go
--   Gateway.Registry     internal/gateway/gateway_service.go
--   Gateway.SelfRegister internal/gateway/self_register.go
--   Gateway.Cache        internal/gateway/cache.go
--   Gateway.Artifacts    internal/gateway/artifacts.go (serveModel)
--   Gateway.AdminAuth    internal/gateway/admin_auth.go
--   Runtime              internal/runtime/manager.go and adapter.go
--   Agent.TaskRunner     internal/agent/task_runner.go; its goroutines, its disk and the end of its
--                        process are steps of a relation
--   Agent.Executors      internal/agent/executor_mux.go and runtime_executor.go
--   Agent.Updater        internal/agent/updater.go
--   Agent.Downloader     internal/agent/downloader.go
--   Agent.ModelExecutor  internal/agent/model_executor.go
--   Agent.CertRenew      internal/agent/cert_renew.go
--   Tests                the theorems applied to small databases
--
-- Statements fail where the environment says so: it gives each statement (BEGIN and COMMIT count) an
-- error text or none, so that what is said of every environment holds for every pattern of failures.
-- A failed statement aborts the open transaction, and COMMIT then fails. Constraints that the code
-- can run into by its own doing are part of the statements (keys of tasks, tokens, nodes,
-- identities, deployments, profiles, models and gateways, the foreign key of events, the null
-- payload and labels); others are failures of the environment. A COMMIT that fails is taken to have
-- changed nothing, also where only its answer was lost. Ids are compared as texts, in the form in
-- which PostgreSQL writes a UUID: that it also reads other spellings, and answers a text that is no
-- UUID with an error, is not modelled. A sort keeps level rows in the order in which they come to it,
-- which is the table's, and for ListTasks any order, another one for each page. Transactions run one
-- after the other: SELECT … FOR UPDATE orders those that write one row, and other interleavings are
-- not modelled. Loops run over lists. The one fuel is that of a client that follows the pages of
-- ListTasks: one answer more than there are matching tasks is enough.
--
-- Times and durations count nanoseconds. Parameters stand for crypto/rand, SHA-256, the CA, the
-- TLS stack, net/http, filepath.Join, encoding/json, strconv.Atoi and Itoa, the functions of strings,
-- semver, ed25519, the runtime adapters, and the conversion of a float64 that does not fit an int64.
--
-- Not modelled: the generated API, the programs under cmd, the proxy of the gateway, the agent's
-- own registration, heartbeat loop and log collector, the llama.cpp adapter, and the set-up of
-- connections and certificates.
pub mod Prelude
pub mod Proto
pub mod Store
pub mod Pages
pub mod Task
pub mod Onboarding
pub mod Deployment
pub mod Model
pub mod Observability
pub mod Gateway
pub mod Runtime
pub mod Agent
pub mod Tests
