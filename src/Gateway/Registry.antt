-- ===== src/Gateway/Registry.antt =====
-- internal/gateway/gateway_service.go: the table of gateways and its gRPC handlers. A `nil` set of
-- labels is sent as NULL.
use ai_edge.Prelude.{
  ℕ, String, concat, quoted, Bool, ◌&&◌, ◌||◌, Option, none, some, List, [], ◌∷◌, ◌++◌, map, ◌==◌,
  not, leb, ltb, if◌then◌else◌, find_row, where_rows, update_rows, count_rows, order_by,
}
use ai_edge.Prelude.Int.{ℤ, ◌+ℤ◌}
use ai_edge.Proto.{invalid_argument, not_found, already_exists, internal}
use ai_edge.Pages.{PageRequest, page_size_of, offset_of, next_token, page_rows, size_ℕ}
use ai_edge.Store.Errors.{Error, grpc, grpc_of, is_unique_violation, driver_text}
use ai_edge.Store.Schema.{Db, GatewayRow}
use ai_edge.Store.Session.{
  Env, Exec, Outcome, done, violates, pure, raise, guard, ◌>>=◌, ◌>>◌, on_error, autocommit,
  select_now,
}

-- pb.Gateway; `labels` is the items of its Labels, where there are any.
pub record GatewayMessage : Type 0 where
  pub id : String
  pub name : String
  pub region : String
  pub labels : Option (List (String × String))
  pub status : String
  pub endpoint : String
  pub created_at : ℕ
  pub updated_at : ℕ

abbrev pub gateway_labels : List (String × String) → Option (List (String × String))
gateway_labels [] = none
gateway_labels (x ∷ xs) = some (x ∷ xs)

unfoldable pub gateway_to_proto : GatewayRow → GatewayMessage
gateway_to_proto r = record {
  id = r.id;
  name = r.name;
  region = r.region;
  labels = gateway_labels r.labels;
  status = r.status;
  endpoint = r.endpoint;
  created_at = r.created_at;
  updated_at = r.updated_at;
}

-- `none` is NULL, and an empty set of labels is the object {}.
abbrev pub marshal_labels : Option (List (String × String)) → Option (List (String × String))
marshal_labels none = none
marshal_labels (some items) = some items

pub record CreateGatewayRequest : Type 0 where
  pub name : String
  pub region : String
  pub labels : Option (List (String × String))
  pub endpoint : String

abbrev pub new_gateway :
    ℕ → (id : String) → CreateGatewayRequest → List (String × String) → GatewayRow
new_gateway now id req labels = record {
  id = id;
  name = req.name;
  region = req.region;
  labels = labels;
  status = "Active";
  endpoint = req.endpoint;
  created_at = now;
  updated_at = now;
}

abbrev pub gateway_clash : (id name : String) → GatewayRow → Bool
gateway_clash id name r = r.id == id || r.name == name

abbrev pub gateway_key_text : String
gateway_key_text = "pq: duplicate key value violates unique constraint \"gateways_name_key\""

abbrev pub gateway_labels_text : String
gateway_labels_text =
    "pq: null value in column \"labels\" of relation \"gateways\" violates not-null constraint"

abbrev pub insert_gateway : ℕ → CreateGatewayRequest → String → Db → Outcome GatewayRow
insert_gateway now req id db = elim (marshal_labels req.labels) [
  | none ↦ violates gateway_labels_text
  | some labels ↦ elim (find_row (gateway_clash id req.name) db.gateways) [
    | some old ↦ violates gateway_key_text
    | none ↦
        done (new_gateway now id req labels)
          (record db { gateways = db.gateways ++ new_gateway now id req labels ∷ [] })
  ]
]

abbrev pub create_gateway_error : CreateGatewayRequest → Error → Error
create_gateway_error req e =
    if is_unique_violation (driver_text e)
    then grpc already_exists (concat "gateway " (concat (quoted req.name) " already exists"))
    else grpc_of internal "create gateway" e

unfoldable pub create_gateway : Env → CreateGatewayRequest → Exec GatewayMessage
create_gateway env req = do
  guard (not (req.name == "")) (grpc invalid_argument "name is required")
  row ← on_error (create_gateway_error req) (autocommit env (insert_gateway env.now req))
  pure (gateway_to_proto row)

abbrev pub gateway_has_id : String → GatewayRow → Bool
gateway_has_id id r = r.id == id

abbrev pub known_gateway {ℓ} : {A : Type ℓ} → Option A → Exec A
known_gateway none = raise (grpc not_found "gateway not found")
known_gateway (some a) = pure a

unfoldable pub get_gateway_row : Env → String → Exec GatewayRow
get_gateway_row env id = do
  found ←
      on_error (grpc_of internal "get gateway")
        (select_now env (λ db. find_row (gateway_has_id id) db.gateways))
  known_gateway found

unfoldable pub get_gateway : Env → String → Exec GatewayMessage
get_gateway env id = do
  guard (not (id == "")) (grpc invalid_argument "id is required")
  row ← get_gateway_row env id
  pure (gateway_to_proto row)

pub record ListGatewaysRequest : Type 0 where
  pub region : String
  pub page : Option PageRequest

pub record ListGatewaysResponse : Type 0 where
  pub gateways : List GatewayMessage
  pub next_page_token : String
  pub total_count : ℕ

abbrev pub in_region : String → GatewayRow → Bool
in_region region r = region == "" || r.region == region

abbrev pub newest_gateway : GatewayRow → GatewayRow → Bool
newest_gateway a b = leb b.created_at a.created_at

-- The page size is handed to LIMIT as it is.
unfoldable pub list_gateways :
    Env → (String → Option ℤ) → (ℤ → String) → ListGatewaysRequest → Exec ListGatewaysResponse
list_gateways env atoi itoa req = do
  total ←
      on_error (grpc_of internal "count gateways")
        (select_now env (λ db. count_rows (in_region req.region) db.gateways))
  rows ← on_error (grpc_of internal "list gateways") (
      autocommit env (λ id db.
        page_rows (size_ℕ (page_size_of req.page)) (offset_of atoi req.page)
          (order_by newest_gateway (where_rows (in_region req.region) db.gateways)) db))
  pure (record {
    gateways = map gateway_to_proto rows;
    next_page_token = next_token itoa (offset_of atoi req.page +ℤ page_size_of req.page) total;
    total_count = total;
  })

pub record UpdateGatewayRequest : Type 0 where
  pub id : String
  pub region : String
  pub labels : Option (List (String × String))
  pub endpoint : String

-- COALESCE, and COALESCE (NULLIF (new, ''), old)
abbrev pub coalesce_labels :
    Option (List (String × String)) → List (String × String) → List (String × String)
coalesce_labels none old = old
coalesce_labels (some new) old = new

abbrev pub or_old : String → String → String
or_old new old = if new == "" then old else new

abbrev pub updated_gateway : ℕ → UpdateGatewayRequest → GatewayRow → GatewayRow
updated_gateway now req r = record r {
  labels = coalesce_labels (marshal_labels req.labels) r.labels;
  endpoint = or_old req.endpoint r.endpoint;
  region = or_old req.region r.region;
  updated_at = now;
}

-- UPDATE … RETURNING scans the changed row.
abbrev pub update_gateway_row : ℕ → UpdateGatewayRequest → String → Db → Outcome (Option GatewayRow)
update_gateway_row now req fresh db =
    done
      (find_row (gateway_has_id req.id)
        (update_rows (gateway_has_id req.id) (updated_gateway now req) db.gateways))
      (record db {
        gateways = update_rows (gateway_has_id req.id) (updated_gateway now req) db.gateways;
      })

unfoldable pub update_gateway : Env → UpdateGatewayRequest → Exec GatewayMessage
update_gateway env req = do
  guard (not (req.id == "")) (grpc invalid_argument "id is required")
  found ←
      on_error (grpc_of internal "update gateway") (autocommit env (update_gateway_row env.now req))
  row ← known_gateway found
  pure (gateway_to_proto row)

abbrev pub undeleted : String → GatewayRow → Bool
undeleted id r = r.id == id && not (r.status == "Deleted")

-- The row stays, with another status.
unfoldable pub delete_gateway : Env → String → Exec (Unit {0})
delete_gateway env id = do
  guard (not (id == "")) (grpc invalid_argument "id is required")
  n ← on_error (grpc_of internal "delete gateway") (
      autocommit env (λ fresh db. done (count_rows (undeleted id) db.gateways) (record db {
        gateways =
            update_rows (undeleted id) (λ r. record r { status = "Deleted"; updated_at = env.now })
              db.gateways;
      })))
  guard (ltb 0 n) (grpc not_found "gateway not found")
