-- ===== src/Agent/Downloader.antt =====
-- internal/agent/downloader.go: a model is fetched from the gateway, resumed where a part of it is
-- there, checked and put in place; older versions are removed. The disk is the content of each path.
-- net/http, filepath.Join, strings, SHA-256 and strconv are parameters, and the answers of the network
-- and of the operating system are met in a record of one run. Directories of one time are sorted in
-- the order of ReadDir.
pub mod Effects
use ai_edge.Prelude.{
  ℕ, zero, suc, String, concat, Bool, true, false, not, Option, none, some, List, [], ◌∷◌, length,
  drop, ◌==◌, eqb, ltb, leb, if◌then◌else◌, where_rows, order_by,
}
use ai_edge.Prelude.Int.{ℤ, pos, negsuc}
use ai_edge.Runtime.{Answer, answer, fails, Action}
use ai_edge.Agent.Updater.{Files, put, remove_if}

pub record Downloader : Type 0 where
  pub gateway_base_url : String
  pub data_dir : String
  pub max_local_versions : ℕ

pub record DownloaderConfig : Type 0 where
  pub base_url : String
  pub root : String
  pub max_versions : ℤ

pub record DownloadResult : Type 0 where
  pub local_path : String
  pub checksum : String
  pub size_bytes : ℕ

-- `size` counts the bytes of a content.
pub record DownloadTools : Type 0 where
  pub join : List String → String
  pub trim_slashes : String → String
  pub slashes_to_underscores : String → String
  pub itoa : ℕ → String
  pub size : String → ℕ
  pub sha256_hex : String → String
  pub equal_fold : String → String → Bool

-- The answer to the GET: none, or a status with the bytes that were read of its body, to the end of it
-- or not.
pub data Response : Type 0 where
  unreachable : String → Response
  responds : (status : ℕ) → (body : String) → (whole : Bool) → Response

-- An entry of a directory; Info may fail.
pub record Entry : Type 0 where
  pub name : String
  pub is_dir : Bool
  pub info : Option ℕ

pub record VersionDir : Type 0 where
  pub dir_name : String
  pub mod_time : ℕ

-- What one download meets: the steps that the system refuses, the answer to a request with or without
-- a range, the entries of the directory of the model (none where it cannot be read), and what
-- RemoveAll of a directory does to the disk.
pub record Fetch : Type 0 where
  pub mkdir_refused : Bool
  pub response : (range_from : Option ℕ) → Response
  pub open_refused : Bool
  pub close_refused : Bool
  pub rename_refused : Bool
  pub readable : Bool
  pub removable : Bool
  pub stat_refused : Bool
  pub readable_again : Bool
  pub entries : Option (List Entry)
  pub remove_all : String → Files → Files

-- defaultMaxLocalVersions
abbrev default_max_local_versions : ℕ
default_max_local_versions = 3

abbrev versions_limit : ℤ → ℕ
versions_limit (pos zero) = default_max_local_versions
versions_limit (pos (suc n)) = suc n
versions_limit (negsuc n) = default_max_local_versions

abbrev pub new_downloader : DownloadTools → DownloaderConfig → Downloader
new_downloader tools cfg = record {
  gateway_base_url = tools.trim_slashes cfg.base_url;
  data_dir = cfg.root;
  max_local_versions = versions_limit cfg.max_versions;
}

abbrev pub model_base : DownloadTools → Downloader → String → String
model_base tools d name =
    tools.join (d.data_dir ∷ "models" ∷ tools.slashes_to_underscores name ∷ [])

abbrev pub model_dir : DownloadTools → Downloader → (name version : String) → String
model_dir tools d name version =
    tools.join (d.data_dir ∷ "models" ∷ tools.slashes_to_underscores name ∷ version ∷ [])

abbrev pub model_path : DownloadTools → Downloader → (name version : String) → String
model_path tools d name version = tools.join (model_dir tools d name version ∷ "model.bin" ∷ [])

abbrev pub part_of : String → String
part_of dest = concat dest ".part"

abbrev pub existing_size : DownloadTools → Option String → ℕ
existing_size tools none = 0
existing_size tools (some content) = tools.size content

-- What the file of the part holds after the copy: it is opened to append where the download is resumed,
-- else cut to nothing.
abbrev pub copied : (resumed : ℕ) → Option String → (body : String) → String
copied resumed none body = body
copied resumed (some old) body = if ltb 0 resumed then concat old body else body

abbrev pub store_part :
    Fetch → (dest content : String) → (whole : Bool) → Files → Option String × Files
store_part run dest content whole files =
    let files' = put (part_of dest) (some content) files in
    if run.open_refused
    then (some "open part", files)
    else if not whole
    then (some "copy", files')
    else if run.close_refused
    then (some "close part", files')
    else if run.rename_refused
    then (some "rename", files')
    else (none, put dest (some content) (put (part_of dest) none files))

abbrev pub received :
    DownloadTools → Fetch → (url dest : String) → Response → Files → Option String × Files
received tools run url dest (unreachable text) files = (some text, files)
received tools run url dest (responds status body whole) files =
    let part = files (part_of dest) in
    if eqb status 200
    then store_part run dest (copied 0 part body) whole files
    else if eqb status 206
    then store_part run dest (copied (existing_size tools part) part body) whole files
    else (some (concat "GET " (concat url (concat ": status " (tools.itoa status)))), files)

-- The Range header: the bytes from there on.
abbrev pub range_header : ℕ → Option ℕ
range_header n = if ltb 0 n then some n else none

unfoldable pub download_with_resume :
    DownloadTools
    → Downloader
    → Fetch
    → (name version dest : String) → Files
    → Option String × Files
download_with_resume tools d run name version dest files =
    let url =
      concat d.gateway_base_url
        (concat "/v1/artifacts/models/" (concat name (concat "/" version))) in
    received tools run url dest
      (run.response (range_header (existing_size tools (files (part_of dest))))) files

abbrev pub file_sha256 : DownloadTools → (readable : Bool) → Option String → Option String
file_sha256 tools readable none = none
file_sha256 tools readable (some content) =
    if readable then some (tools.sha256_hex content) else none

abbrev compared : DownloadTools → (expected : String) → Option String → Option String
compared tools expected none = some "open"
compared tools expected (some got) =
    if tools.equal_fold got expected
    then none
    else some (concat "sha256 mismatch: got " (concat got (concat ", want " expected)))

-- No checksum is expected where it is empty.
unfoldable pub verify_file_sha256 :
    DownloadTools → Fetch → (expected : String) → Option String → Option String
verify_file_sha256 tools run expected content =
    if expected == ""
    then none
    else compared tools expected (file_sha256 tools run.readable content)

abbrev version_dirs : List Entry → List VersionDir
version_dirs [] = []
version_dirs (e ∷ es) = with_info e.is_dir e.info e.name (version_dirs es)
  where
    with_info : Bool → Option ℕ → String → List VersionDir → List VersionDir
    with_info false i n rest = rest
    with_info true none n rest = rest
    with_info true (some t) n rest = record { dir_name = n; mod_time = t } ∷ rest

abbrev newest_dir_first : VersionDir → VersionDir → Bool
newest_dir_first a b = leb b.mod_time a.mod_time

-- The directories that are removed.
unfoldable pub old_versions : Downloader → List VersionDir → List VersionDir
old_versions d dirs =
    if leb (length dirs) d.max_local_versions
    then []
    else drop d.max_local_versions (order_by newest_dir_first dirs)

abbrev remove_each : DownloadTools → Fetch → (base : String) → List VersionDir → Files → Files
remove_each tools run base [] files = files
remove_each tools run base (v ∷ vs) files =
    remove_each tools run base vs (run.remove_all (tools.join (base ∷ v.dir_name ∷ [])) files)

unfoldable pub prune_old_versions :
    DownloadTools → Downloader → Fetch → (name : String) → Option (List Entry) → Files → Files
prune_old_versions tools d run name none files = files
prune_old_versions tools d run name (some es) files =
    remove_each tools run (model_base tools d name) (old_versions d (version_dirs es)) files

-- The file is in place and its checksum is the expected one.
abbrev pub after_hash :
    DownloadTools
    → Downloader
    → Fetch
    → (name dest : String) → Option String
    → Action Files DownloadResult
after_hash tools d run name dest none files = (fails "downloader: hash", files)
after_hash tools d run name dest (some sum) files = (
  answer
      (record { local_path = dest; checksum = sum; size_bytes = existing_size tools (files dest) }),
  prune_old_versions tools d run name run.entries files,
)

abbrev pub after_check :
    DownloadTools
    → Downloader
    → Fetch
    → (name dest : String) → Option String
    → Action Files DownloadResult
after_check tools d run name dest (some text) files =
    (fails (concat "downloader: checksum: " text), remove_if run.removable dest files)
after_check tools d run name dest none files =
    if run.stat_refused
    then (fails "downloader: stat", files)
    else after_hash tools d run name dest (file_sha256 tools run.readable_again (files dest)) files

abbrev pub after_fetch :
    DownloadTools
    → Downloader
    → Fetch
    → (name dest expected : String) → Option String × Files
    → Answer DownloadResult × Files
after_fetch tools d run name dest expected (some text, files) =
    (fails (concat "downloader: fetch: " text), files)
after_fetch tools d run name dest expected (none, files) =
    after_check tools d run name dest (verify_file_sha256 tools run expected (files dest)) files

-- Download
unfoldable pub download_model :
    DownloadTools
    → Downloader
    → Fetch
    → (name version expected : String) → Action Files DownloadResult
download_model tools d run name version expected files =
    let dest = model_path tools d name version in
    if run.mkdir_refused
    then (fails "downloader: mkdir", files)
    else after_fetch tools d run name dest expected
        (download_with_resume tools d run name version dest files)
