-- ===== src/Gateway/SelfRegister.antt =====
-- internal/gateway/self_register.go: a gateway registers itself with the control plane when it
-- starts. The calls reach the handlers of gateway_service.go; strings.TrimSpace and the characters of
-- a text are parameters, and the timeout is not modelled.
pub mod Restart
use ai_edge.Prelude.{
  ℕ, String, concat, quoted, Bool, true, false, ◌&&◌, ◌||◌, not, Option, none, some, List, [], ◌∷◌,
  ◌==◌, leb, ltb, if◌then◌else◌, find_row, length,
}
use ai_edge.Prelude.Int.{ℤ, pos}
use ai_edge.Proto.{Code, already_exists, not_found}
use ai_edge.Pages.{PageRequest}
use ai_edge.Store.Errors.{Error, Result, ok, err, grpc, grpc_of, wrap, plain}
use ai_edge.Store.Session.{Env, Session, Exec, pure, raise, guard, ◌>>=◌, ◌>>◌, on_error}
use ai_edge.Gateway.Registry.{
  GatewayMessage, CreateGatewayRequest, create_gateway, ListGatewaysRequest, ListGatewaysResponse,
  list_gateways,
}

pub record SelfRegisterConfig : Type 0 where
  pub gateway_id : String
  pub region : String
  pub endpoint : String
  pub name : String
  pub labels : List (String × String)

pub record SelfRegisterResult : Type 0 where
  pub gateway_id : String
  pub name : String
  pub already_existed : Bool

abbrev pub registered_name : SelfRegisterConfig → String
registered_name cfg = if cfg.name == "" then cfg.gateway_id else cfg.name

-- Without labels the request has none.
abbrev pub some_labels : List (String × String) → Option (List (String × String))
some_labels [] = none
some_labels (x ∷ xs) = some (x ∷ xs)

abbrev pub registration : SelfRegisterConfig → CreateGatewayRequest
registration cfg = record {
  name = registered_name cfg;
  region = cfg.region;
  labels = some_labels cfg.labels;
  endpoint = cfg.endpoint;
}

abbrev pub gateway_named : String → GatewayMessage → Bool
gateway_named name g = g.name == name

abbrev pub found_gateway : String → Option GatewayMessage → Exec GatewayMessage
found_gateway name none =
    raise (grpc not_found (concat "gateway " (concat (quoted name) " not found")))
found_gateway name (some g) = pure g

abbrev pub first_thousand : ListGatewaysRequest
first_thousand = record {
  region = "";
  page = some (record { page_size = pos 1000; page_token = "" });
}

unfoldable pub find_gateway_by_name :
    Env → (String → Option ℤ) → (ℤ → String) → String → Exec GatewayMessage
find_gateway_by_name env atoi itoa name = do
  page ← on_error (wrap "list gateways") (list_gateways env atoi itoa first_thousand)
  found_gateway name (find_row (gateway_named name) page.gateways)

-- status.Code(err) == codes.AlreadyExists
abbrev pub is_already_exists : Error → Bool
is_already_exists (grpc already_exists text) = true
is_already_exists (grpc_of already_exists text e) = true
is_already_exists e = false

abbrev pub registered : Bool → GatewayMessage → SelfRegisterResult
registered existed g = record { gateway_id = g.id; name = g.name; already_existed = existed }

-- What follows the answer of CreateGateway.
abbrev pub after_create :
    Env
    → (String → Option ℤ)
    → (ℤ → String)
    → String
    → Result GatewayMessage
    → Exec SelfRegisterResult
after_create env atoi itoa name (ok g) = pure (registered false g)
after_create env atoi itoa name (err e) =
    if is_already_exists e
    then (do
      g ←
          on_error
            (wrap (
              concat "gateway self-register "
                (concat (quoted name) " already exists but lookup failed")))
            (find_gateway_by_name env atoi itoa name)
      pure (registered true g))
    else raise (wrap (concat "gateway self-register " (quoted name)) e)

abbrev pub attempt {ℓ} : {A : Type ℓ} → Exec A → Exec (Result A)
attempt m s = let (r, s') = m s in (ok r, s')

unfoldable pub self_register :
    Env → (String → Option ℤ) → (ℤ → String) → SelfRegisterConfig → Exec SelfRegisterResult
self_register env atoi itoa cfg = do
  guard (not (cfg.gateway_id == "")) (plain "gateway self-register: gateway_id is required")
  answer ← attempt (create_gateway env (registration cfg))
  after_create env atoi itoa (registered_name cfg) answer

-- A character by its code point.
unfoldable pub is_name_character : ℕ → Bool
is_name_character c =
    leb 97 c && leb c 122
    || (leb 65 c && leb c 90
        || (leb 48 c && leb c 57 || (leb 45 c && leb c 46 || leb 95 c && leb c 95)))

abbrev pub name_characters : List ℕ → Bool
name_characters [] = true
name_characters (c ∷ cs) = is_name_character c && name_characters cs

-- What the check takes from Go: the trimmed text, its length in bytes, and its characters.
pub record NameTools : Type 0 where
  pub trim_space : String → String
  pub bytes : String → ℕ
  pub runes : String → List ℕ

-- The text of the error, without the name and the character that it shows, or none.
unfoldable pub validate_self_register_name : NameTools → String → Option String
validate_self_register_name tools raw =
    let name = tools.trim_space raw in
    if name == ""
    then some "name is empty"
    else if ltb 63 (tools.bytes name)
    then some "name exceeds 63 characters"
    else if name_characters (tools.runes name)
    then none
    else some "name contains invalid character"
