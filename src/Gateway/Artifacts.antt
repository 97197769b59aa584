-- ===== src/Gateway/Artifacts.antt =====
-- internal/gateway/artifacts.go: a gateway hands model files to its agents, from its disk or from the
-- object store. The disk is the content of each path, without the temporary file of a download. The
-- functions of strings and filepath.Join are parameters, and the object store, the disk's refusals
-- and Stat are met in a record of one call.
use ai_edge.Prelude.{ℕ, String, Bool, ◌||◌, Option, none, some, ◌==◌, if◌then◌else◌}
use ai_edge.Store.Errors.{Result, ok, err}
use ai_edge.Store.Schema.{ModelRow}
use ai_edge.Store.Session.{Env, Exec, pure, ◌>>◌}
use ai_edge.Model.Store.{get_model_by_name}
use ai_edge.Gateway.Cache.{touch, evict_lru}

-- `cut_prefix` is HasPrefix with TrimPrefix, `split_slash` SplitN(s, "/", 2) where it has two parts,
-- and `join` the path of model.bin.
pub record ArtifactTools : Type 0 where
  pub cut_prefix : (text prefix : String) → Option String
  pub trim_right_slash : String → String
  pub split_slash : String → Option (String × String)
  pub underscored : String → String
  pub join : (cache_dir name version : String) → String

pub record ArtifactHandler : Type 0 where
  pub gateway_id : String
  pub cache_dir : String
  pub max_cached_versions : ℕ

abbrev pub two_parts : Option (String × String) → Option (String × String)
two_parts none = none
two_parts (some (name, version)) =
    if name == "" || version == "" then none else some (name, version)

unfoldable pub parse_model_path : ArtifactTools → String → Option (String × String)
parse_model_path tools path = elim (tools.cut_prefix path "/v1/artifacts/models/") [
  | none ↦ none
  | some rest ↦ two_parts (tools.split_slash (tools.trim_right_slash rest))
]

abbrev pub local_path : ArtifactTools → ArtifactHandler → (name version : String) → String
local_path tools h name version = tools.join h.cache_dir (tools.underscored name) version

abbrev pub Disk : Type 0
Disk = String → Option String

-- The end of fetchFromUpstream.
pub data Fetch : Type 0 where
  failed : Fetch
  stored : (content : String) → Fetch

pub record Call : Type 0 where
  pub fetch : Fetch
  pub openable : Bool
  pub stat_known : Bool

-- http.Error, or the content with the headers of the model.
pub data Response : Type 0 where
  http_error : (code : ℕ) → Response
  served : (checksum name version content : String) → Response

-- `none` where the artifact is neither there nor fetched.
abbrev pub fetched : Fetch → (path : String) → Disk → Option Disk
fetched failed path disk = none
fetched (stored content) path disk = some (λ p. if p == path then some content else disk p)

unfoldable pub present : Fetch → (path : String) → Disk → Option Disk
present fetch path disk = elim (disk path) [
  | some content ↦ some disk
  | none ↦ fetched fetch path disk
]

-- An error is logged, and the handler goes on.
abbrev pub logged {ℓ} : {A : Type ℓ} → Exec A → Exec (Unit {0})
logged m s = (ok tt, (m s).1)

abbrev pub opened_file : Call → ModelRow → Option String → Response
opened_file call row none = http_error 500
opened_file call row (some content) =
    if call.openable
    then (if call.stat_known
        then served row.checksum row.name row.version content
        else http_error 500)
    else http_error 500

abbrev pub serve_present :
    Env
    → ArtifactHandler
    → Call
    → ModelRow
    → (path : String) → (before : Disk) → Option Disk
    → Exec (Response × Disk)
serve_present env h call row path before none = pure (http_error 502, before)
serve_present env h call row path before (some disk) = do
  logged (touch env h.gateway_id row.id row.version row.size_bytes)
  logged (evict_lru env h.max_cached_versions h.gateway_id)
  pure (opened_file call row (disk path), disk)

abbrev pub serve_row :
    Env → ArtifactTools → ArtifactHandler → Call → Disk → Result ModelRow → Exec (Response × Disk)
serve_row env tools h call disk (err e) = pure (http_error 404, disk)
serve_row env tools h call disk (ok row) =
    let path = local_path tools h row.name row.version in
    serve_present env h call row path disk (present call.fetch path disk)

abbrev pub serve_parsed :
    Env
    → ArtifactTools
    → ArtifactHandler
    → Call
    → Disk
    → Option (String × String)
    → Exec (Response × Disk)
serve_parsed env tools h call disk none s = pure (http_error 400, disk) s
serve_parsed env tools h call disk (some (name, version)) s =
    let (row, s') = get_model_by_name env name version s in serve_row env tools h call disk row s'

unfoldable pub serve_model :
    Env
    → ArtifactTools
    → ArtifactHandler
    → Call
    → (method path : String) → Disk
    → Exec (Response × Disk)
serve_model env tools h call method path disk =
    if method == "GET" || method == "HEAD"
    then serve_parsed env tools h call disk (parse_model_path tools path)
    else pure (http_error 405, disk)
