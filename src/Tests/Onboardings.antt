-- ===== src/Tests/Onboardings.antt =====
-- The theorems on the onboarding of nodes, applied.
use ai_edge.Prelude.{◌≡◌, ◌≢◌, inr, refl, concat, none, some, List, [], ◌∷◌, find_row}
use ai_edge.Prelude.Int.{pos}
use ai_edge.Store.Errors.{ok, driver, wrap}
use ai_edge.Store.Session.{Env, select, with_tx}
use ai_edge.Onboarding.Tokens.{TokenTools, validate_and_consume, usable, CreateTokenRequest}
use ai_edge.Onboarding.Bootstrap.{
  Signer, SignResult, BootstrapInput, bootstrap, revoke_node, live_serial, check_serial,
  insert_node, insert_identity,
}
use ai_edge.Onboarding.Bootstrap.Effects.{
  Registered, output, bootstrap-effect, bootstrap-atomic, bootstrap-live_serial,
}
use ai_edge.Onboarding.Bootstrap.Revoke.{revoke_node-fails}
use ai_edge.Onboarding.Counts.{
  TokensOk, TokenCall, create_call, freeze_call, register_call, serve_all, serve_all-TokensOk,
}
use ai_edge.Tests.{env, broken, tables, session}

abbrev tools : TokenTools
tools = record { fresh = some "fresh"; read_error = driver "no entropy"; hash = λ s. concat "#" s }

abbrev signed : SignResult
signed = record { fingerprint = "f2"; cert_pem = "c2"; expires_at = 900 }

abbrev signer : Signer
signer = record { sign_csr = λ csr node_id. inr signed; ca_pem = "ca" }

abbrev input : BootstrapInput
input = record {
  token = "secret";
  gateway_id = "g1";
  csr_pem = "csr";
  serial = "s2";
  hardware_info = [];
  labels = [];
}

bootstrap-effect_example :
    Registered env tools signer input tables
      (output signer "u1" signed)
      (bootstrap env tools signer input session).1.db
unfolding bootstrap with_tx validate_and_consume select find_row usable check_serial insert_node
    insert_identity
bootstrap-effect_example =
    bootstrap-effect env tools signer input session (output signer "u1" signed) refl

bootstrap-atomic_example : (bootstrap broken tools signer input session).1.db ≡ tables
unfolding bootstrap with_tx validate_and_consume select find_row usable
bootstrap-atomic_example =
    bootstrap-atomic broken tools signer input session (wrap "increment used_count" (driver "gone"))
      refl

bootstrap-live_serial_example : find_row (live_serial "s2") tables.edge_identities ≡ none
unfolding bootstrap with_tx validate_and_consume select find_row usable check_serial insert_node
    insert_identity
bootstrap-live_serial_example =
    bootstrap-live_serial env tools signer input session (output signer "u1" signed) refl

revoke_node-fails_example : (revoke_node env "n1" "lost" session).0 ≢ ok tt
unfolding revoke_node find_row
revoke_node-fails_example = revoke_node-fails env "n1" "lost" session tt (refl, tt)

abbrev created : CreateTokenRequest
created = record {
  gateway_id = "g1";
  description = "";
  labels = [];
  max_uses = pos 1;
  expires_in_seconds = pos 60;
}

abbrev calls : List (Env × TokenCall)
calls =
    (env, register_call input)
    ∷ (env, create_call created)
    ∷ (env, register_call input)
    ∷ (env, freeze_call "k1")
    ∷ []

serve_all-TokensOk_example : TokensOk (serve_all tools signer calls session).db
serve_all-TokensOk_example = serve_all-TokensOk tools signer calls session ((tt, tt), (refl, tt))
