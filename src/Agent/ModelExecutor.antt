-- ===== src/Agent/ModelExecutor.antt =====
-- internal/agent/model_executor.go: models are installed and deleted on the node. json.Unmarshal of the
-- payload (without the text of its error) and json.Marshal of the result are parameters.
use ai_edge.Prelude.{
  ℕ, String, concat, quoted, Bool, true, false, Option, none, some, ◌==◌, if◌then◌else◌,
}
use ai_edge.Runtime.{Answer, answer, fails, Action}
use ai_edge.Agent.Updater.{Files}
use ai_edge.Agent.Downloader.{
  DownloadTools, Downloader, DownloadResult, Fetch, model_dir, download_model,
}
use ai_edge.Agent.Executors.{Executor}

pub record ModelTaskPayload : Type 0 where
  pub model_name : String
  pub model_version : String
  pub checksum : String
  pub artifact_uri : String

pub record ModelTaskResult : Type 0 where
  pub model_name : String
  pub model_version : String
  pub local_path : String
  pub checksum : String
  pub size_bytes : ℕ
  pub deleted : Bool

pub record ModelTools : Type 0 where
  pub read_model_payload : String → Option ModelTaskPayload
  pub write_model_result : ModelTaskResult → String

-- os.Stat of the directory of a model
pub data Stat : Type 0 where
  absent there : Stat
  unknown : String → Stat

-- What a task meets: its download, the directory of the model, and the error of RemoveAll.
pub record ModelRun : Type 0 where
  pub fetch : Fetch
  pub stat_dir : String → Stat
  pub removal_error : Option String

module _ (tools : DownloadTools) (model_tools : ModelTools) (d : Downloader) (run : ModelRun) where
  abbrev installed : ModelTaskPayload → Answer DownloadResult → Answer String
  installed p (fails text) = fails (
      concat "model executor: download "
        (concat p.model_name (concat ":" (concat p.model_version (concat ": " text)))))
  installed p (answer r) = answer (
      model_tools.write_model_result (record {
        model_name = p.model_name;
        model_version = p.model_version;
        local_path = r.local_path;
        checksum = r.checksum;
        size_bytes = r.size_bytes;
        deleted = false;
      }))

  unfoldable pub install_model : ModelTaskPayload → Action Files String
  install_model p files =
      let (r, files') =
        download_model tools d run.fetch p.model_name p.model_version p.checksum files in
      (installed p r, files')

  abbrev deleted_result : ModelTaskPayload → Answer String
  deleted_result p = answer (
      model_tools.write_model_result (record {
        model_name = p.model_name;
        model_version = p.model_version;
        local_path = "";
        checksum = "";
        size_bytes = 0;
        deleted = true;
      }))

  abbrev removed : ModelTaskPayload → (dir : String) → Option String → Answer String
  removed p dir none = deleted_result p
  removed p dir (some text) =
      fails (concat "model executor: remove " (concat dir (concat ": " text)))

  abbrev delete_dir : ModelTaskPayload → (dir : String) → Stat → Action Files String
  delete_dir p dir absent files = (deleted_result p, files)
  delete_dir p dir (unknown text) files =
      (fails (concat "model executor: stat " (concat dir (concat ": " text))), files)
  delete_dir p dir there files = (removed p dir run.removal_error, run.fetch.remove_all dir files)

  unfoldable pub delete_model : ModelTaskPayload → Action Files String
  delete_model p files =
      let dir = model_dir tools d p.model_name p.model_version in
      delete_dir p dir (run.stat_dir dir) files

  abbrev execute_model_payload :
      (task_type : String) → Option ModelTaskPayload → Action Files String
  execute_model_payload task_type none files = (fails "model executor: unmarshal payload", files)
  execute_model_payload task_type (some p) files =
      if p.model_name == ""
      then (fails "model executor: model_name is required", files)
      else if p.model_version == ""
      then (fails "model executor: model_version is required", files)
      else if task_type == "InstallModel"
      then install_model p files
      else if task_type == "DeleteModel"
      then delete_model p files
      else (fails (concat "model executor: unknown task type " (quoted task_type)), files)

  -- ModelExecutor
  unfoldable pub execute_model : Executor Files
  execute_model task_type payload =
      execute_model_payload task_type (model_tools.read_model_payload payload)
