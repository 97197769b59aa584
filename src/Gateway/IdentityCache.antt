-- ===== src/Gateway/IdentityCache.antt =====
-- internal/gateway/identity_cache.go and auth.go: the cache of identities by the fingerprint of the
-- certificate, and the interceptor that asks it. The Go map is a list of entries. What the TLS stack
-- says of the peer and strings.EqualFold are parameters.
pub mod Safety
pub mod Auth
pub mod History
use ai_edge.Prelude.{
  ℕ, ◌+◌, ◌*◌, String, Bool, true, false, ◌&&◌, not, Option, none, some, List, [], ◌∷◌, ◌==◌, eqb,
  ltb, if◌then◌else◌, find_row, where_rows,
}
use ai_edge.Proto.{
  IdentityStatus, identity_active, IdentityEventType, event_unspecified, event_revoked,
  event_renewed, event_suspended, unknown_event, internal, permission_denied, unauthenticated,
  invalid_argument,
}
use ai_edge.Store.Errors.{Error, grpc, grpc_of}
use ai_edge.Store.Schema.{Db, IdentityRow}
use ai_edge.Store.Session.{Env, Exec, pure, raise, guard, ◌>>=◌, ◌>>◌, on_error, select_now}
use ai_edge.Task.Retry.{second}

pub record CachedIdentity : Type 0 where
  pub node_id : String
  pub gateway_id : String
  pub status : IdentityStatus
  pub expire_at : ℕ

pub record Entry : Type 0 where
  pub fingerprint : String
  pub identity : CachedIdentity

-- The map `entries`.
abbrev pub Entries : Type 0
Entries = List Entry

abbrev pub for_fingerprint : String → Entry → Bool
for_fingerprint f e = e.fingerprint == f

abbrev pub not_for : String → Entry → Bool
not_for f e = not (e.fingerprint == f)

-- delete(entries, f)
unfoldable pub invalidate : String → Entries → Entries
invalidate f entries = where_rows (not_for f) entries

abbrev pub put : String → CachedIdentity → Entries → Entries
put f i entries = record { fingerprint = f; identity = i } ∷ where_rows (not_for f) entries

unfoldable pub ttl_or_default : ℕ → ℕ
ttl_or_default ttl = if eqb ttl 0 then 30 * second else ttl

abbrev pub active_fingerprint : String → IdentityRow → Bool
active_fingerprint f r = r.fingerprint == f && r.status == "Active"

abbrev pub cached : Env → ℕ → IdentityRow → CachedIdentity
cached env ttl r = record {
  node_id = r.node_id;
  gateway_id = r.gateway_id;
  status = identity_active;
  expire_at = env.time_now + ttl;
}

abbrev pub Answer : Type 0
Answer = Option CachedIdentity × Entries

abbrev pub remember : Env → ℕ → String → Entries → Option IdentityRow → Answer
remember env ttl f entries none = (none, where_rows (not_for f) entries)
remember env ttl f entries (some r) = (some (cached env ttl r), put f (cached env ttl r) entries)

-- An error leaves the entries as they were.
unfoldable pub load_from_db : Env → ℕ → String → Entries → Exec Answer
load_from_db env ttl f entries = do
  found ← select_now env (λ db. find_row (active_fingerprint f) db.edge_identities)
  pure (remember env ttl f entries found)

-- if ok && time.Now().Before(entry.ExpireAt)
abbrev pub hit : Env → Option Entry → Option CachedIdentity
hit env none = none
hit env (some e) = if ltb env.time_now e.identity.expire_at then some e.identity else none

abbrev pub or_load : Env → ℕ → String → Entries → Option CachedIdentity → Exec Answer
or_load env ttl f entries (some i) = pure (some i, entries)
or_load env ttl f entries none = load_from_db env ttl f entries

unfoldable pub lookup : Env → ℕ → String → Entries → Exec Answer
unfolding load_from_db
lookup env ttl f entries =
    or_load env ttl f entries (hit env (find_row (for_fingerprint f) entries))

pub record IdentityEvent : Type 0 where
  pub identity_id : String
  pub node_id : String
  pub event_type : IdentityEventType
  pub fingerprint : String

unfoldable pub handle_identity_event : IdentityEvent → Entries → Entries
unfolding invalidate
handle_identity_event req entries = elim req.event_type [
  | event_unspecified ↦ entries
  | event_revoked ↦ invalidate req.fingerprint entries
  | event_renewed ↦ invalidate req.fingerprint entries
  | event_suspended ↦ invalidate req.fingerprint entries
  | unknown_event n ↦ entries
]

-- NotifyIdentityEvent of dispatcher.go.
unfoldable pub notify_identity_event : IdentityEvent → Entries → Exec Entries
unfolding handle_identity_event
notify_identity_event req entries = do
  guard (not (req.identity_id == "")) (grpc invalid_argument "identity_id is required")
  pure (handle_identity_event req entries)

pub record AuthConfig : Type 0 where
  pub ttl : ℕ
  pub gateway_id : String
  pub skip_method : String → Bool
  pub equal_fold : String → String → Bool

-- What the context says of the peer: the fingerprint of its first certificate, or what is missing.
pub data Peer : Type 0 where
  no_peer no_tls no_certificate : Peer
  certificate : (fingerprint : String) → Peer

unfoldable pub extract_fingerprint : Peer → Exec String
extract_fingerprint no_peer = raise (grpc unauthenticated "no peer info")
extract_fingerprint no_tls = raise (grpc unauthenticated "no TLS info")
extract_fingerprint no_certificate = raise (grpc unauthenticated "no client certificate")
extract_fingerprint (certificate f) = pure f

abbrev pub known : Option CachedIdentity → Exec CachedIdentity
known none = raise (grpc unauthenticated "unknown client certificate")
known (some i) = pure i

-- What the interceptor hands to the handler: the ids in the context, empty for a method that it
-- skips, and the entries after the call.
pub record Caller : Type 0 where
  pub node_id : String
  pub gateway_id : String

abbrev pub identify : Env → AuthConfig → Peer → Entries → Exec (Caller × Entries)
identify env cfg peer entries = do
  f ← extract_fingerprint peer
  answer ← on_error (grpc_of internal "identity lookup failed") (lookup env cfg.ttl f entries)
  identity ← known answer.0
  guard (cfg.equal_fold identity.gateway_id cfg.gateway_id)
      (grpc permission_denied "GATEWAY_MISMATCH")
  pure (record { node_id = identity.node_id; gateway_id = identity.gateway_id }, answer.1)

unfoldable pub authenticate :
    Env → AuthConfig → (method : String) → Peer → Entries → Exec (Caller × Entries)
authenticate env cfg method peer entries =
    if cfg.skip_method method
    then pure (record { node_id = ""; gateway_id = "" }, entries)
    else identify env cfg peer entries

-- refreshIdentities of autonomy.go
unfoldable pub refresh_identities : Entries → Entries
refresh_identities entries = []
