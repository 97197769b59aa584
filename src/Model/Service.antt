-- ===== src/Model/Service.antt =====
-- internal/model/service.go: the gRPC handlers of the model registry, over the statements of Store.
use ai_edge.Prelude.{
  ℕ, String, concat, Option, none, some, List, [], ◌∷◌, map, ◌==◌, not, ◌&&◌, if◌then◌else◌,
}
use ai_edge.Prelude.Int.{ℤ, ◌+ℤ◌}
use ai_edge.Proto.{
  ModelFormat, format_unspecified, onnx, tflite, gguf, safetensors, custom, unknown_format,
  invalid_argument, not_found, already_exists, internal,
}
use ai_edge.Pages.{PageRequest, page_size_of, offset_of, next_token}
use ai_edge.Store.Errors.{
  Error, err_not_found, err_conflict, err_already_exists, grpc, grpc_of, is_unique_violation,
  driver_text,
}
use ai_edge.Store.Schema.{ModelRow}
use ai_edge.Store.Session.{Env, Exec, pure, raise, guard, ◌>>=◌, ◌>>◌, on_error}
use ai_edge.Model.Store.{
  ModelListFilter, create_model, get_model_by_id, get_model_by_name, list_models,
}

-- `none` where the map has no entry.
unfoldable pub format_to_text : ModelFormat → Option String
format_to_text format_unspecified = none
format_to_text onnx = some "ONNX"
format_to_text tflite = some "TFLITE"
format_to_text gguf = some "GGUF"
format_to_text safetensors = some "SAFETENSORS"
format_to_text custom = some "CUSTOM"
format_to_text (unknown_format n) = none

unfoldable pub text_to_format : String → ModelFormat
text_to_format s =
    if s == "ONNX"
    then onnx
    else if s == "TFLITE"
    then tflite
    else if s == "GGUF"
    then gguf
    else if s == "SAFETENSORS"
    then safetensors
    else if s == "CUSTOM"
    then custom
    else format_unspecified

-- pb.Model; `labels` is the items of its Labels, where there are any.
pub record ModelMessage : Type 0 where
  pub id : String
  pub name : String
  pub version : String
  pub format : ModelFormat
  pub checksum : String
  pub size : ℤ
  pub artifact_uri : String
  pub signature_uri : String
  pub labels : Option (List (String × String))
  pub created_at : ℕ

abbrev pub labels_message : List (String × String) → Option (List (String × String))
labels_message [] = none
labels_message (x ∷ xs) = some (x ∷ xs)

unfoldable pub model_to_proto : ModelRow → ModelMessage
model_to_proto r = record {
  id = r.id;
  name = r.name;
  version = r.version;
  format = text_to_format r.format;
  checksum = r.checksum;
  size = r.size_bytes;
  artifact_uri = r.artifact_uri;
  signature_uri = r.signature_uri;
  labels = labels_message r.labels;
  created_at = r.created_at;
}

unfoldable pub model_error : Error → Error
model_error err_not_found = grpc not_found "model not found"
model_error err_already_exists = grpc_of already_exists "" err_already_exists
model_error err_conflict = grpc_of already_exists "" err_conflict
model_error e = grpc_of internal "" e

pub record CreateModelRequest : Type 0 where
  pub name : String
  pub version : String
  pub format : ModelFormat
  pub checksum : String
  pub size : ℤ
  pub artifact_uri : String
  pub signature_uri : String
  pub labels : List (String × String)

abbrev pub text_or : String → Option String → String
text_or default none = default
text_or default (some s) = s

-- The marshalling of a map of texts does not fail.
abbrev pub requested_model : CreateModelRequest → ModelRow
requested_model req = record {
  id = "";
  name = req.name;
  version = req.version;
  format = text_or "CUSTOM" (format_to_text req.format);
  checksum = req.checksum;
  size_bytes = req.size;
  artifact_uri = req.artifact_uri;
  signature_uri = req.signature_uri;
  labels = req.labels;
  created_at = 0;
}

abbrev pub create_model_error : CreateModelRequest → Error → Error
create_model_error req e =
    if is_unique_violation (driver_text e)
    then grpc already_exists
        (concat "model " (concat req.name (concat ":" (concat req.version " already exists"))))
    else grpc_of internal "create model" e

unfoldable pub create_model_handler : Env → CreateModelRequest → Exec ModelMessage
create_model_handler env req = do
  guard (not (req.name == "")) (grpc invalid_argument "name is required")
  guard (not (req.version == "")) (grpc invalid_argument "version is required")
  guard (not (req.artifact_uri == "")) (grpc invalid_argument "artifact_uri is required")
  row ← on_error (create_model_error req) (create_model env (requested_model req))
  pure (model_to_proto row)

pub record GetModelRequest : Type 0 where
  pub id : String
  pub name : String
  pub version : String

abbrev pub model_of_request : Env → GetModelRequest → Exec ModelRow
model_of_request env req =
    if not (req.id == "")
    then on_error model_error (get_model_by_id env req.id)
    else if not (req.name == "") && not (req.version == "")
    then on_error model_error (get_model_by_name env req.name req.version)
    else raise (grpc invalid_argument "id or (name + version) is required")

unfoldable pub get_model_handler : Env → GetModelRequest → Exec ModelMessage
get_model_handler env req = do row ← model_of_request env req; pure (model_to_proto row)

pub record ListModelsRequest : Type 0 where
  pub name : String
  pub format : ModelFormat
  pub page : Option PageRequest

pub record ListModelsResponse : Type 0 where
  pub models : List ModelMessage
  pub next_page_token : String
  pub total_count : ℕ

abbrev pub model_filter : (String → Option ℤ) → ListModelsRequest → ModelListFilter
model_filter atoi req = record {
  name = req.name;
  format = text_or "" (format_to_text req.format);
  limit = page_size_of req.page;
  offset = offset_of atoi req.page;
}

unfoldable pub list_models_handler :
    Env → (String → Option ℤ) → (ℤ → String) → ListModelsRequest → Exec ListModelsResponse
list_models_handler env atoi itoa req = do
  (rows, total) ←
      on_error (grpc_of internal "list models") (list_models env (model_filter atoi req))
  pure (record {
    models = map model_to_proto rows;
    next_page_token = next_token itoa (offset_of atoi req.page +ℤ page_size_of req.page) total;
    total_count = total;
  })
