-- ===== src/Onboarding/Identities.antt =====
-- GetIdentity and ListIdentities of internal/onboarding/identity_service.go, and ListBootstrapTokens of
-- token_grpc.go. RevokeIdentity is in Bootstrap.
use ai_edge.Prelude.{
  ℕ, String, Bool, ◌||◌, Option, none, some, List, map, ◌==◌, not, leb, if◌then◌else◌, find_row,
  where_rows, order_by,
}
use ai_edge.Prelude.Int.{ℤ}
use ai_edge.Proto.{
  IdentityStatus, identity_unspecified, identity_active, identity_suspended, identity_revoked,
  invalid_argument, not_found, internal,
}
use ai_edge.Pages.{PageRequest, page_size_of, offset_of, page_rows, size_ℕ}
use ai_edge.Store.Errors.{grpc, grpc_of}
use ai_edge.Store.Schema.{IdentityRow, TokenRecord}
use ai_edge.Store.Session.{
  Env, Exec, pure, raise, guard, ◌>>=◌, ◌>>◌, on_error, autocommit, select_now,
}

unfoldable pub text_to_identity_status : String → IdentityStatus
text_to_identity_status s =
    if s == "Active"
    then identity_active
    else if s == "Suspended"
    then identity_suspended
    else if s == "Revoked"
    then identity_revoked
    else identity_unspecified

-- pb.EdgeIdentity
pub record IdentityMessage : Type 0 where
  pub id : String
  pub node_id : String
  pub gateway_id : String
  pub serial : String
  pub fingerprint : String
  pub status : IdentityStatus
  pub expires_at : ℕ
  pub issued_at : ℕ
  pub revoked_at : Option ℕ

unfoldable pub identity_row_to_proto : IdentityRow → IdentityMessage
identity_row_to_proto r = record {
  id = r.id;
  node_id = r.node_id;
  gateway_id = r.gateway_id;
  serial = r.serial;
  fingerprint = r.fingerprint;
  status = text_to_identity_status r.status;
  expires_at = r.expires_at;
  issued_at = r.issued_at;
  revoked_at = r.revoked_at;
}

abbrev pub identity_has_id : String → IdentityRow → Bool
identity_has_id id r = r.id == id

abbrev pub known_identity {ℓ} : {A : Type ℓ} → Option A → Exec A
known_identity none = raise (grpc not_found "identity not found")
known_identity (some a) = pure a

unfoldable pub get_identity : Env → String → Exec IdentityMessage
get_identity env id = do
  guard (not (id == "")) (grpc invalid_argument "id is required")
  found ←
      on_error (grpc_of internal "get identity")
        (select_now env (λ db. find_row (identity_has_id id) db.edge_identities))
  row ← known_identity found
  pure (identity_row_to_proto row)

abbrev pub identity_of_node : String → IdentityRow → Bool
identity_of_node node_id r = node_id == "" || r.node_id == node_id

abbrev pub newest_identity : IdentityRow → IdentityRow → Bool
newest_identity a b = leb b.created_at a.created_at

-- There is no token for the next page.
unfoldable pub list_identities :
    Env
    → (String → Option ℤ)
    → (node_id : String) → Option PageRequest
    → Exec (List IdentityMessage)
list_identities env atoi node_id page = do
  rows ← on_error (grpc_of internal "list identities") (
      autocommit env (λ id db.
        page_rows (size_ℕ (page_size_of page)) (offset_of atoi page)
          (order_by newest_identity (where_rows (identity_of_node node_id) db.edge_identities)) db))
  pure (map identity_row_to_proto rows)

abbrev pub token_of_gateway : String → TokenRecord → Bool
token_of_gateway gateway_id r = gateway_id == "" || r.gateway_id == gateway_id

abbrev pub newest_token : TokenRecord → TokenRecord → Bool
newest_token a b = leb b.created_at a.created_at

unfoldable pub list_bootstrap_tokens :
    Env → (String → Option ℤ) → (gateway_id : String) → Option PageRequest → Exec (List TokenRecord)
list_bootstrap_tokens env atoi gateway_id page = on_error (grpc_of internal "list tokens") (
    autocommit env (λ id db.
      page_rows (size_ℕ (page_size_of page)) (offset_of atoi page)
        (order_by newest_token (where_rows (token_of_gateway gateway_id) db.bootstrap_tokens)) db))
