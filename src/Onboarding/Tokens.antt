-- ===== src/Onboarding/Tokens.antt =====
-- internal/onboarding/token_service.go and token_grpc.go: bootstrap tokens. The database keeps the
-- hash of a token; the hash (hex of SHA-256) and the random bytes are parameters.
pub mod Uses
use ai_edge.Prelude.{
  ℕ, zero, suc, ◌+◌, ◌*◌, String, Bool, false, ◌&&◌, ◌||◌, not, Option, none, some, List, [], ◌∷◌,
  ◌++◌, ◌==◌, leb, ltb, if◌then◌else◌, take, drop, find_row, where_rows, update_rows, order_by,
}
use ai_edge.Prelude.Int.{ℤ, pos, negsuc, leb_ℤ}
use ai_edge.Proto.{invalid_argument, internal}
use ai_edge.Store.Errors.{Error, wrap, grpc, grpc_of}
use ai_edge.Store.Schema.{Db, TokenRecord}
use ai_edge.Store.Session.{
  Env, Exec, Outcome, done, violates, pure, raise, guard, ◌>>=◌, ◌>>◌, on_error, statement,
  autocommit, select, select_now,
}
use ai_edge.Task.Retry.{second}
use ai_edge.Onboarding.Errors.{
  err_token_not_found, err_token_expired, err_token_exhausted, err_token_frozen,
  err_gateway_mismatch,
}

-- crypto/rand with crypto/sha256: the text of a fresh token, or the error of rand.Read.
pub record TokenTools : Type 0 where
  pub fresh : Option String
  pub read_error : Error
  pub hash : String → String

abbrev pub token_has_id : String → TokenRecord → Bool
token_has_id id r = r.id == id

abbrev pub has_hash : String → TokenRecord → Bool
has_hash hash r = r.token_hash == hash

abbrev pub found_token : Option TokenRecord → Exec TokenRecord
found_token none = raise err_token_not_found
found_token (some r) = pure r

abbrev pub update_tokens : String → (TokenRecord → TokenRecord) → Db → Db
update_tokens id f db = record db {
  bootstrap_tokens = update_rows (token_has_id id) f db.bootstrap_tokens;
}

abbrev pub new_token :
    ℕ → (id gateway_id hash description : String) → List (String × String) → ℤ → ℕ → TokenRecord
new_token now id gateway_id hash description labels max_uses expires_at = record {
  id = id;
  gateway_id = gateway_id;
  token_hash = hash;
  description = description;
  labels = labels;
  max_uses = max_uses;
  used_count = 0;
  status = "Active";
  expires_at = expires_at;
  created_at = now;
  updated_at = now;
}

abbrev pub token_key_text : String
token_key_text = "pq: duplicate key value violates unique constraint \"bootstrap_tokens_pkey\""

abbrev pub token_hash_text : String
token_hash_text =
    "pq: duplicate key value violates unique constraint \"uq_bootstrap_tokens_token_hash\""

abbrev pub insert_unless :
    Option TokenRecord → Option TokenRecord → TokenRecord → Db → Outcome TokenRecord
insert_unless (some old) same_hash new db = violates token_key_text
insert_unless none (some old) new db = violates token_hash_text
insert_unless none none new db =
    done new (record db { bootstrap_tokens = db.bootstrap_tokens ++ new ∷ [] })

abbrev pub insert_token : (String → TokenRecord) → String → Db → Outcome TokenRecord
insert_token new id db =
    insert_unless (find_row (token_has_id id) db.bootstrap_tokens)
      (find_row (has_hash (new id).token_hash) db.bootstrap_tokens) (new id) db

abbrev pub drawn : Option String → Error → Exec String
drawn none e = raise (wrap "generate token" e)
drawn (some plain) e = pure plain

unfoldable pub create :
    Env
    → TokenTools
    → (gateway_id description : String) → List (String × String)
    → ℤ
    → ℕ
    → Exec (TokenRecord × String)
create env tools gateway_id description labels max_uses expires_in = do
  plain ← drawn tools.fresh tools.read_error
  rec ← on_error (wrap "insert token") (
      autocommit env (
        insert_token (λ id.
          new_token env.now id gateway_id (tools.hash plain) description labels max_uses
            (env.time_now + expires_in))))
  pure (rec, plain)

unfoldable pub get_by_id : Env → String → Exec TokenRecord
get_by_id env id = do
  found ←
      on_error (wrap "scan token")
        (select_now env (λ db. find_row (token_has_id id) db.bootstrap_tokens))
  found_token found

abbrev pub use_token : ℕ → TokenRecord → TokenRecord
use_token now r = record r { used_count = r.used_count + 1; updated_at = now }

-- The checks, in the order of the code.
unfoldable pub usable : Env → String → TokenRecord → Exec (Unit {0})
usable env gateway_id rec = do
  guard (not (rec.status == "Revoked")) err_token_not_found
  guard (not (rec.status == "Frozen")) err_token_frozen
  guard (not (ltb rec.expires_at env.time_now)) err_token_expired
  guard (not (leb_ℤ rec.max_uses (pos rec.used_count))) err_token_exhausted
  guard (rec.gateway_id == gateway_id) err_gateway_mismatch

unfoldable pub validate_and_consume : Env → TokenTools → String → String → Exec TokenRecord
validate_and_consume env tools plain gateway_id = do
  found ←
      on_error (wrap "query token")
        (select env (λ db. find_row (has_hash (tools.hash plain)) db.bootstrap_tokens))
  rec ← found_token found
  usable env gateway_id rec
  on_error (wrap "increment used_count")
      (statement env (λ id db. done tt (update_tokens rec.id (use_token env.now) db)))
  pure (record rec { used_count = rec.used_count + 1 })

abbrev pub with_status : ℕ → String → TokenRecord → TokenRecord
with_status now status r = record r { status = status; updated_at = now }

-- UPDATE … RETURNING the row.
unfoldable pub update_status : Env → String → String → Exec TokenRecord
update_status env id status = do
  found ← on_error (wrap "update token status") (
      autocommit env (λ fresh db.
        let db' = update_tokens id (with_status env.now status) db in
        done (find_row (token_has_id id) db'.bootstrap_tokens) db'))
  found_token found

pub record CreateTokenRequest : Type 0 where
  pub gateway_id : String
  pub description : String
  pub labels : List (String × String)
  pub max_uses : ℤ
  pub expires_in_seconds : ℤ

unfoldable pub uses_or_default : ℤ → ℤ
uses_or_default (negsuc n) = pos 10
uses_or_default (pos zero) = pos 10
uses_or_default (pos (suc n)) = pos (suc n)

unfoldable pub lifetime : ℤ → ℕ
lifetime (negsuc n) = 24 * 3600 * second
lifetime (pos zero) = 24 * 3600 * second
lifetime (pos (suc n)) = suc n * second

unfoldable pub create_bootstrap_token :
    Env → TokenTools → CreateTokenRequest → Exec (TokenRecord × String)
create_bootstrap_token env tools req = do
  guard (not (req.gateway_id == "")) (grpc invalid_argument "gateway_id is required")
  answer ← on_error (grpc_of internal "create token") (
      create env tools req.gateway_id req.description req.labels (uses_or_default req.max_uses)
        (lifetime req.expires_in_seconds))
  pure answer

-- tokenErrToStatus: a gRPC status is passed on.
unfoldable pub token_err_to_status : Error → Error
token_err_to_status (grpc c text) = grpc c text
token_err_to_status (grpc_of c text e) = grpc_of c text e
token_err_to_status e = grpc_of internal "" e

unfoldable pub get_bootstrap_token : Env → String → Exec TokenRecord
get_bootstrap_token env id = do
  guard (not (id == "")) (grpc invalid_argument "id is required")
  on_error token_err_to_status (get_by_id env id)

unfoldable pub freeze_bootstrap_token : Env → String → Exec TokenRecord
freeze_bootstrap_token env id = do
  guard (not (id == "")) (grpc invalid_argument "id is required")
  on_error token_err_to_status (update_status env id "Frozen")

unfoldable pub revoke_bootstrap_token : Env → String → Exec TokenRecord
revoke_bootstrap_token env id = do
  guard (not (id == "")) (grpc invalid_argument "id is required")
  on_error token_err_to_status (update_status env id "Revoked")
