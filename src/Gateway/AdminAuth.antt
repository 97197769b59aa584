-- ===== src/Gateway/AdminAuth.antt =====
-- internal/gateway/admin_auth.go: the interceptor of the management calls. The metadata of a call is
-- its authorization headers; strings.HasPrefix with TrimPrefix is a parameter, and comparing in
-- constant time is comparing.
pub mod Access
use ai_edge.Prelude.{String, Option, none, some, List, [], ◌∷◌, ◌==◌, if◌then◌else◌, any_text}
use ai_edge.Proto.{unauthenticated}
use ai_edge.Store.Errors.{Result, ok, err, grpc}

pub record AdminAuthConfig : Type 0 where
  pub static_tokens : List (String × String)
  pub skip_methods : List String

-- strings.HasPrefix and strings.TrimPrefix: the rest of a text after a prefix that it has.
abbrev pub Cut : Type 0
Cut = (text prefix : String) → Option String

abbrev pub bearer_token : Option String → Result String
bearer_token none = err (grpc unauthenticated "authorization must use Bearer scheme")
bearer_token (some token) =
    if token == "" then err (grpc unauthenticated "empty bearer token") else ok token

-- `none` is a call without metadata.
unfoldable pub extract_bearer_token : Cut → Option (List String) → Result String
extract_bearer_token cut none = err (grpc unauthenticated "missing metadata")
extract_bearer_token cut (some []) = err (grpc unauthenticated "missing authorization header")
extract_bearer_token cut (some (auth ∷ rest)) = bearer_token (cut auth "Bearer ")

-- The first token of a walk over the map; the keys of a map differ, so that the walk's order does not
-- matter.
unfoldable pub validate_static_token : List (String × String) → String → Option String
validate_static_token [] token = none
validate_static_token ((t, subject) ∷ rest) token =
    if t == token then some subject else validate_static_token rest token

abbrev pub admitted : Option String → Result (Option String)
admitted none = err (grpc unauthenticated "invalid or expired token")
admitted (some subject) = ok (some subject)

abbrev pub authorized : List (String × String) → Result String → Result (Option String)
authorized tokens (err e) = err e
authorized tokens (ok token) = admitted (validate_static_token tokens token)

-- The subject that the handler finds in its context, `none` where the method is skipped; an error
-- where the handler is not called.
unfoldable pub admin_auth :
    Cut → AdminAuthConfig → String → Option (List String) → Result (Option String)
admin_auth cut cfg method metadata =
    if any_text method cfg.skip_methods
    then ok none
    else authorized cfg.static_tokens (extract_bearer_token cut metadata)
