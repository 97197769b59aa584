-- ===== src/Agent/Updater.antt =====
-- internal/agent/updater.go: a task replaces the agent's own binary. The disk is the content of each
-- path. encoding/json, semver, SHA-256, hex and ed25519 are parameters, and the answers of the
-- network and of the operating system are met in a record of one run. The restart that follows a
-- replacement ends the process.
pub mod Verified
use ai_edge.Prelude.{
  String, concat, quoted, Bool, true, false, ◌||◌, ◌&&◌, not, Option, none, some, ◌==◌,
  if◌then◌else◌,
}
use ai_edge.Runtime.{Answer, answer, fails, Action}

pub record ReleaseManifest : Type 0 where
  pub version : String
  pub sha256 : String
  pub signature : String
  pub min_allowed_version : String
  pub download_url : String

-- An empty `verify_key` is one that is not configured.
pub record Updater : Type 0 where
  pub current_version : String
  pub binary_path : String
  pub verify_key : String

-- `has_v` is strings.HasPrefix(v, "v"), and `semver_below` that semver.Compare is negative.
pub record UpdaterTools : Type 0 where
  pub read_manifest : String → Option ReleaseManifest
  pub has_v : String → Bool
  pub semver_valid : String → Bool
  pub semver_below : String → String → Bool
  pub sha256_hex : String → String
  pub equal_fold : String → String → Bool
  pub decode_hex : String → Option String
  pub ed25519_verify : (key message sig : String) → Bool
  pub write_result : (old_version new_version : String) → String

abbrev pub Files : Type 0
Files = String → Option String

abbrev pub put : String → Option String → Files → Files
put path content files p = if p == path then content else files p

-- No file is written; a copy is cut off, and what it wrote is removed or left; the file is written,
-- and closing it may fail.
pub data Download : Type 0 where
  refused : String → Download
  cut_off : (left : Option String) → Download
  written : (content : String) → (closed : Bool) → Download

-- What one run meets: the download, whether the file can be read for the checksum, whether a bad file
-- can be removed, and which of the renames the system refuses.
pub record Run : Type 0 where
  pub download : Download
  pub readable : Bool
  pub removable : Bool
  pub backup_refused : Bool
  pub replace_refused : Bool
  pub restore_refused : Bool

unfoldable pub ensure_v_prefix : UpdaterTools → String → String
ensure_v_prefix tools v = if v == "" then "" else if tools.has_v v then v else concat "v" v

abbrev pub is_below : UpdaterTools → ReleaseManifest → Bool
is_below tools m =
    not (m.min_allowed_version == "")
    && (tools.semver_valid (ensure_v_prefix tools m.version)
        && (tools.semver_valid (ensure_v_prefix tools m.min_allowed_version)
            && tools.semver_below (ensure_v_prefix tools m.version)
                (ensure_v_prefix tools m.min_allowed_version)))

-- The text of the error, or none.
unfoldable pub validate_manifest : UpdaterTools → ReleaseManifest → Option String
validate_manifest tools m =
    if m.version == "" || (m.sha256 == "" || m.signature == "")
    then some "updater: incomplete manifest"
    else if m.download_url == ""
    then some "updater: download_url is required"
    else if is_below tools m
    then some (
        concat "updater: version " (
          concat m.version (
            concat " is below min_allowed_version "
              (concat m.min_allowed_version " (rollback rejected)"))))
    else none

abbrev pub download_binary : Download → (dest : String) → Files → Option String × Files
download_binary (refused text) dest files = (some text, files)
download_binary (cut_off left) dest files = (some "updater: write", put dest left files)
download_binary (written content closed) dest files =
    (if closed then none else some "close", put dest (some content) files)

unfoldable pub verify_checksum :
    UpdaterTools → (readable : Bool) → Option String → (expected : String) → Option String
verify_checksum tools readable none expected = some "updater: open for checksum"
verify_checksum tools readable (some content) expected =
    if readable
    then (if tools.equal_fold (tools.sha256_hex content) expected
        then none
        else some "updater: sha256 mismatch")
    else some "updater: read for checksum"

abbrev pub verified : UpdaterTools → (key message : String) → Option String → Option String
verified tools key message none = some "updater: decode signature"
verified tools key message (some sig) =
    if tools.ed25519_verify key message sig
    then none
    else some "updater: ed25519 signature verification failed"

unfoldable pub verify_signature :
    UpdaterTools → (key sha256_hex signature_hex : String) → Option String
verify_signature tools key sha256_hex signature_hex =
    if key == "" then none else verified tools key sha256_hex (tools.decode_hex signature_hex)

abbrev pub remove_if : Bool → String → Files → Files
remove_if removable path files = if removable then put path none files else files

-- os.Rename
pub data Renamed : Type 0 where
  moved missing rejected : Renamed

abbrev pub move : Option String → (from to : String) → Files → Renamed × Files
move none from to files = (missing, files)
move (some content) from to files = (moved, put to (some content) (put from none files))

abbrev pub rename : (refuse : Bool) → (from to : String) → Files → Renamed × Files
rename refuse from to files = if refuse then (rejected, files) else move (files from) from to files

-- After the old binary was moved away: the new one takes its place, or the old one is put back.
abbrev pub placed : Run → (tmp backup binary : String) → Renamed × Files → Option String × Files
placed run tmp backup binary (moved, files) = (none, files)
placed run tmp backup binary (other, files) =
    (some "updater: replace binary", (rename run.restore_refused backup binary files).1)

abbrev pub after_backup :
    Run → (tmp backup binary : String) → Renamed × Files → Option String × Files
after_backup run tmp backup binary (rejected, files) = (some "updater: backup old binary", files)
after_backup run tmp backup binary (other, files) =
    placed run tmp backup binary (rename run.replace_refused tmp binary files)

unfoldable pub replace_binary : Updater → Run → (tmp : String) → Files → Option String × Files
replace_binary u run tmp files =
    after_backup run tmp (concat u.binary_path ".bak") u.binary_path
      (rename run.backup_refused u.binary_path (concat u.binary_path ".bak") files)

-- if err != nil { return nil, err }
abbrev pub checked : Option String → (Files → Files) → Action Files String → Action Files String
checked (some text) undo next files = (fails text, undo files)
checked none undo next files = next files

abbrev pub keep : Files → Files
keep files = files

abbrev pub on_disk : Option String × Files → Action Files String → Answer String × Files
on_disk (e, files) next = checked e keep next files

abbrev pub upgrade : UpdaterTools → Updater → Run → ReleaseManifest → Action Files String
upgrade tools u run m files =
    let tmp = concat u.binary_path ".new" in
    on_disk (download_binary run.download tmp files) (λ files₁.
      checked (verify_checksum tools run.readable (files₁ tmp) m.sha256)
        (remove_if run.removable tmp)
        (checked (verify_signature tools u.verify_key m.sha256 m.signature)
          (remove_if run.removable tmp)
          (λ files₂.
            on_disk (replace_binary u run tmp files₂)
              (λ files₃. (answer (tools.write_result u.current_version m.version), files₃))))
        files₁)

abbrev pub execute_manifest :
    UpdaterTools → Updater → Run → Option ReleaseManifest → Action Files String
execute_manifest tools u run none files = (fails "updater: parse manifest", files)
execute_manifest tools u run (some m) files =
    checked (validate_manifest tools m) keep (upgrade tools u run m) files

unfoldable pub execute_upgrade :
    UpdaterTools → Updater → Run → (task_type payload : String) → Action Files String
execute_upgrade tools u run task_type payload files =
    if task_type == "UpgradeAgent"
    then execute_manifest tools u run (tools.read_manifest payload) files
    else (fails (concat "updater: unexpected task type " (quoted task_type)), files)
