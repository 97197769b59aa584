-- ===== src/Onboarding/Nodes.antt =====
-- internal/onboarding/node_service.go: the gRPC handlers of nodes.
use ai_edge.Prelude.{
  ℕ, String, Bool, ◌||◌, Option, none, some, List, [], ◌∷◌, map, ◌==◌, not, leb, find_row,
  where_rows, update_rows, count_rows, order_by,
}
use ai_edge.Prelude.Int.{ℤ, ◌+ℤ◌}
use ai_edge.Proto.{invalid_argument, not_found, internal}
use ai_edge.Pages.{PageRequest, page_size_of, offset_of, next_token, page_rows, size_ℕ}
use ai_edge.Store.Errors.{grpc, grpc_of}
use ai_edge.Store.Schema.{Db, NodeRow}
use ai_edge.Store.Session.{
  Env, Exec, Outcome, done, pure, raise, guard, ◌>>=◌, ◌>>◌, on_error, autocommit, select_now,
}

-- pb.EdgeNode; `labels` is the items of its Labels, where there are any.
pub record NodeMessage : Type 0 where
  pub id : String
  pub gateway_id : String
  pub labels : Option (List (String × String))
  pub status : String
  pub agent_version : String
  pub online : Bool
  pub last_seen_at : Option ℕ
  pub created_at : ℕ
  pub updated_at : ℕ

abbrev pub node_labels : List (String × String) → Option (List (String × String))
node_labels [] = none
node_labels (x ∷ xs) = some (x ∷ xs)

-- A version that is NULL reads as the empty text, as it does in the message.
unfoldable pub node_row_to_proto : NodeRow → NodeMessage
node_row_to_proto r = record {
  id = r.id;
  gateway_id = r.gateway_id;
  labels = node_labels r.labels;
  status = r.status;
  agent_version = r.agent_version;
  online = r.online;
  last_seen_at = r.last_seen_at;
  created_at = r.created_at;
  updated_at = r.updated_at;
}

abbrev pub has_node_id : String → NodeRow → Bool
has_node_id id r = r.id == id

abbrev pub known_node {ℓ} : {A : Type ℓ} → Option A → Exec A
known_node none = raise (grpc not_found "node not found")
known_node (some a) = pure a

unfoldable pub get_node : Env → String → Exec NodeMessage
get_node env id = do
  guard (not (id == "")) (grpc invalid_argument "id is required")
  found ←
      on_error (grpc_of internal "get node")
        (select_now env (λ db. find_row (has_node_id id) db.edge_nodes))
  row ← known_node found
  pure (node_row_to_proto row)

pub record ListNodesRequest : Type 0 where
  pub gateway_id : String
  pub page : Option PageRequest

pub record ListNodesResponse : Type 0 where
  pub nodes : List NodeMessage
  pub next_page_token : String
  pub total_count : ℕ

abbrev pub node_of_gateway : String → NodeRow → Bool
node_of_gateway gateway_id r = gateway_id == "" || r.gateway_id == gateway_id

abbrev pub newest_node : NodeRow → NodeRow → Bool
newest_node a b = leb b.created_at a.created_at

-- The page size is handed to LIMIT as it is.
unfoldable pub list_nodes :
    Env → (String → Option ℤ) → (ℤ → String) → ListNodesRequest → Exec ListNodesResponse
list_nodes env atoi itoa req = do
  total ←
      on_error (grpc_of internal "count nodes")
        (select_now env (λ db. count_rows (node_of_gateway req.gateway_id) db.edge_nodes))
  rows ← on_error (grpc_of internal "list nodes") (
      autocommit env (λ id db.
        page_rows (size_ℕ (page_size_of req.page)) (offset_of atoi req.page)
          (order_by newest_node (where_rows (node_of_gateway req.gateway_id) db.edge_nodes)) db))
  pure (record {
    nodes = map node_row_to_proto rows;
    next_page_token = next_token itoa (offset_of atoi req.page +ℤ page_size_of req.page) total;
    total_count = total;
  })

-- COALESCE ($1, labels): labels that are missing or empty are sent as NULL.
abbrev pub labels_or_old : List (String × String) → List (String × String) → List (String × String)
labels_or_old [] old = old
labels_or_old (x ∷ xs) old = x ∷ xs

abbrev pub relabelled : ℕ → List (String × String) → NodeRow → NodeRow
relabelled now labels r = record r { labels = labels_or_old labels r.labels; updated_at = now }

-- UPDATE … RETURNING scans the changed row.
abbrev pub update_node_row :
    ℕ → (id : String) → List (String × String) → String → Db → Outcome (Option NodeRow)
update_node_row now id labels fresh db =
    done
      (find_row (has_node_id id)
        (update_rows (has_node_id id) (relabelled now labels) db.edge_nodes))
      (record db {
        edge_nodes = update_rows (has_node_id id) (relabelled now labels) db.edge_nodes;
      })

unfoldable pub update_node : Env → (id : String) → List (String × String) → Exec NodeMessage
update_node env id labels = do
  guard (not (id == "")) (grpc invalid_argument "id is required")
  found ←
      on_error (grpc_of internal "update node") (autocommit env (update_node_row env.now id labels))
  row ← known_node found
  pure (node_row_to_proto row)
