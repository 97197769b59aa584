-- ===== src/Tests/Agents.antt =====
-- The theorems on the agent's task runner, applied.
use ai_edge.Prelude.{
  ◌≡◌, refl, ◌⊎◌, String, concat, List, true, false, none, ◌==◌, if◌then◌else◌, some, [], ◌∷◌,
  AllDistinct,
}
use ai_edge.Prelude.Int.{pos}
use ai_edge.Gateway.AgentService.{NodeTask}
use ai_edge.Agent.Downloader.{DownloadTools, Downloader, Fetch, responds}
use ai_edge.Agent.Updater.{
  ReleaseManifest, UpdaterTools, Updater, Run, Files, written, validate_manifest, execute_upgrade,
}
use ai_edge.Agent.Updater.Verified.{Left, execute_upgrade_leaves}
use ai_edge.Agent.TaskRunner.{
  TaskRunner, Executed, whole, refused, result_of, new_task_runner, poll, execute, report_result,
  started, is_duplicate, mark_processed, take_tasks, save_pending_result,
}
use ai_edge.Agent.TaskRunner.Steps.{
  began, polled, executed, reported, Reachable, fresh, next, Reachable-AllDistinct,
}
use ai_edge.Agent.TaskRunner.Durable.{is_kept, Reachable-is_kept}

abbrev task : NodeTask
task = record { task_id = "t1"; type = "Run"; payload = none; timeout_seconds = pos 0 }

abbrev outcome : Executed
outcome = record { result = some "{}"; err = none }

-- The task is handed out twice.
abbrev polled_twice : TaskRunner
polled_twice = poll (some (task ∷ [])) (poll (some (task ∷ [])) (new_task_runner "n1"))

polled_reached : Reachable "n1" polled_twice
unfolding poll take_tasks is_duplicate mark_processed
polled_reached = next (next fresh (polled (some (task ∷ [])) refl)) (polled (some (task ∷ [])) refl)

Reachable-AllDistinct_example : AllDistinct polled_twice.executions
Reachable-AllDistinct_example = Reachable-AllDistinct polled_reached

-- The task is executed, its report is refused, and the process ends.
abbrev restarted : TaskRunner
restarted = started true (
    report_result refused (result_of "n1" task outcome)
      (record (execute task outcome whole (record polled_twice { running = [] })) {
        reporting = [];
      }))

restarted_reached : Reachable "n1" restarted
unfolding poll take_tasks is_duplicate mark_processed execute save_pending_result
restarted_reached =
    next
      (next (next polled_reached (executed task outcome whole [] [] refl))
        (reported (result_of "n1" task outcome) refused [] [] refl))
      (began true)

Reachable-is_kept_example : is_kept "t1" restarted ≡ true
unfolding poll started report_result execute save_pending_result
Reachable-is_kept_example = Reachable-is_kept "t1" restarted_reached refl

abbrev manifest : ReleaseManifest
manifest = record {
  version = "2";
  sha256 = "#new";
  signature = "signed";
  min_allowed_version = "";
  download_url = "there";
}

abbrev updater_tools : UpdaterTools
updater_tools = record {
  read_manifest = λ s. some manifest;
  has_v = λ v. false;
  semver_valid = λ v. true;
  semver_below = λ a b. false;
  sha256_hex = λ s. if s == "new" then "#new" else "#";
  equal_fold = λ a b. a == b;
  decode_hex = λ s. some s;
  ed25519_verify = λ key message sig. sig == "signed";
  write_result = λ old new. "{}";
}

abbrev updater : Updater
updater = record { current_version = "1"; binary_path = "agent"; verify_key = "key" }

-- The download succeeds, and so does every step after it.
abbrev smooth : Run
smooth = record {
  download = written "new" true;
  readable = true;
  removable = true;
  backup_refused = false;
  replace_refused = false;
  restore_refused = false;
}

abbrev disk : Files
disk = λ p. if p == "agent" then some "old" else none

execute_upgrade_leaves_example :
    ((execute_upgrade updater_tools updater smooth "UpgradeAgent" "{}" disk).1 "agent" ≡ some "old")
    ⊎ ((m : ReleaseManifest) × (some manifest ≡ some m)
        × (validate_manifest updater_tools m ≡ none)
        × Left updater_tools updater smooth m "old"
            ((execute_upgrade updater_tools updater smooth "UpgradeAgent" "{}" disk).1 "agent"))
execute_upgrade_leaves_example =
    execute_upgrade_leaves updater_tools updater smooth
      (record { binary_tmp = refl; binary_backup = refl; tmp_binary = refl; tmp_backup = refl })
      "UpgradeAgent" "{}" disk "old" refl

abbrev joined : List String → String
joined [] = ""
joined (x ∷ xs) = concat x (concat "/" (joined xs))

abbrev download_tools : DownloadTools
download_tools = record {
  join = joined;
  trim_slashes = λ s. s;
  slashes_to_underscores = λ s. s;
  itoa = λ n. "";
  size = λ s. if s == "" then 0 else 2;
  sha256_hex = concat "#";
  equal_fold = λ a b. a == b;
}

abbrev downloader : Downloader
downloader = record { gateway_base_url = "http://g1"; data_dir = "data"; max_local_versions = 1 }

-- The rest of a model comes, and the directories of two older versions are there.
abbrev resumed : Fetch
resumed = record {
  mkdir_refused = false;
  response = λ from. responds 206 "cd" true;
  open_refused = false;
  close_refused = false;
  rename_refused = false;
  readable = true;
  removable = true;
  stat_refused = false;
  readable_again = true;
  entries = some (
      record { name = "1"; is_dir = true; info = some 5 }
      ∷ record { name = "3"; is_dir = true; info = some 9 }
      ∷ []);
  remove_all = λ dir files p. if p == dir then none else files p;
}

-- A part of the model is there.
abbrev part_there : Files
part_there p = if p == "data/models/m/3//model.bin/.part" then some "ab" else none
