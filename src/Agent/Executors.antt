-- ===== src/Agent/Executors.antt =====
-- internal/agent/executor_mux.go and runtime_executor.go: what runs a task on the node. json.Unmarshal
-- of the payload (without the text of its error) and json.Marshal of the status are parameters.
use ai_edge.Prelude.{String, concat, quoted, Option, none, some, List, [], ◌∷◌, ◌==◌, if◌then◌else◌}
use ai_edge.Runtime.{
  Answer, answer, fails, Action, Status, InstallConfig, Manager, install, start, stop, restart,
  status,
}

-- TaskExecutor
abbrev pub Executor : Type 0 → Type 0
Executor W = (task_type payload : String) → Action W String

-- ExecutorMux: the executor of each task type.
abbrev pub Handlers : Type 0 → Type 0
Handlers W = List (String × Executor W)

module _ {W : Type 0} where
  abbrev pub bind_type : Executor W → String → Handlers W → Handlers W
  bind_type e task_type [] = (task_type, e) ∷ []
  bind_type e task_type ((t, old) ∷ rest) =
      let others = (t, old) ∷ bind_type e task_type rest in
      if t == task_type then (t, e) ∷ rest else others

  unfoldable pub register_types : Executor W → List String → Handlers W → Handlers W
  register_types e [] m = m
  register_types e (t ∷ ts) m = register_types e ts (bind_type e t m)

  unfoldable pub execute_mux : Handlers W → Executor W
  execute_mux [] task_type payload w =
      (fails (concat "executor mux: unsupported task type " (quoted task_type)), w)
  execute_mux ((t, e) ∷ rest) task_type payload w =
      if t == task_type then e task_type payload w else execute_mux rest task_type payload w

pub record RuntimeTaskPayload : Type 0 where
  pub deployment_id : String
  pub model_name : String
  pub model_version : String
  pub runtime : String
  pub action : String
  pub artifact_uri : String

pub record PayloadTools : Type 0 where
  pub read_payload : String → Option RuntimeTaskPayload
  pub write_status : Status → String

abbrev pub install_config : RuntimeTaskPayload → InstallConfig
install_config p = record {
  model_name = p.model_name;
  model_version = p.model_version;
  artifact_uri = p.artifact_uri;
  runtime_config = [];
}

abbrev pub reported_status : PayloadTools → (task_type : String) → Answer Status → Answer String
reported_status tools task_type (answer st) = answer (tools.write_status st)
reported_status tools task_type (fails text) =
    fails (concat "runtime executor: get status after " (concat task_type (concat ": " text)))

module _ {W : Type 0} where
  -- if err != nil { return err }
  abbrev pub settle_with :
      Answer (Unit {0}) → (String → String) → Action W (Unit {0}) → Action W (Unit {0})
  settle_with (fails text) f next w = (fails (f text), w)
  settle_with (answer u) f next w = next w

  abbrev pub then_do :
      Action W (Unit {0}) → (String → String) → Action W (Unit {0}) → Action W (Unit {0})
  then_do first f next w = let (r, w') = first w in settle_with r f next w'

  unfoldable pub start_runtime : Manager W → RuntimeTaskPayload → Action W (Unit {0})
  start_runtime m p =
      if p.artifact_uri == ""
      then start m p.runtime p.model_name p.model_version
      else then_do (install m p.runtime (install_config p)) (concat "install: ")
          (start m p.runtime p.model_name p.model_version)

  -- Before an upgrade the runtime is stopped, whether that fails or not.
  unfoldable pub upgrade_runtime : Manager W → RuntimeTaskPayload → Action W (Unit {0})
  upgrade_runtime m p w =
      let (ignored, w') = stop m p.runtime p.model_name p.model_version w in
      (if p.artifact_uri == ""
          then start m p.runtime p.model_name p.model_version
          else then_do (install m p.runtime (install_config p)) (concat "upgrade install: ")
              (start m p.runtime p.model_name p.model_version))
        w'

  abbrev pub operate :
      Manager W → (task_type : String) → RuntimeTaskPayload → Option (Action W (Unit {0}))
  operate m task_type p =
      if task_type == "StartRuntime"
      then some (start_runtime m p)
      else if task_type == "StopRuntime"
      then some (stop m p.runtime p.model_name p.model_version)
      else if task_type == "RestartRuntime"
      then some (restart m p.runtime p.model_name p.model_version)
      else if task_type == "UpgradeRuntime"
      then some (upgrade_runtime m p)
      else none

  abbrev pub status_after :
      Manager W
      → PayloadTools
      → (task_type : String) → RuntimeTaskPayload
      → Answer (Unit {0})
      → Action W String
  status_after m tools task_type p (fails text) w = (fails text, w)
  status_after m tools task_type p (answer u) w =
      let (r, w') = status m p.runtime p.model_name p.model_version w in
      (reported_status tools task_type r, w')

  abbrev pub run_operation :
      Manager W
      → PayloadTools
      → (task_type : String) → RuntimeTaskPayload
      → Option (Action W (Unit {0}))
      → Action W String
  run_operation m tools task_type p none w =
      (fails (concat "runtime executor: unknown task type " (quoted task_type)), w)
  run_operation m tools task_type p (some act) w =
      let (r, w') = act w in status_after m tools task_type p r w'

  abbrev pub execute_payload :
      Manager W → PayloadTools → (task_type : String) → Option RuntimeTaskPayload → Action W String
  execute_payload m tools task_type none w = (fails "runtime executor: unmarshal payload", w)
  execute_payload m tools task_type (some p) w =
      if p.runtime == ""
      then (fails "runtime executor: runtime field is required", w)
      else run_operation m tools task_type p (operate m task_type p) w

  -- RuntimeExecutor
  unfoldable pub execute_runtime : Manager W → PayloadTools → Executor W
  execute_runtime m tools task_type payload =
      execute_payload m tools task_type (tools.read_payload payload)
