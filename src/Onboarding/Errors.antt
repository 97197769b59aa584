-- ===== src/Onboarding/Errors.antt =====
-- internal/onboarding/errors.go: the business errors, as gRPC statuses.
use ai_edge.Prelude.{String, concat}
use ai_edge.Proto.{
  not_found, failed_precondition, resource_exhausted, invalid_argument, already_exists,
  permission_denied,
}
use ai_edge.Store.Errors.{Error, grpc}

abbrev pub err_token_not_found : Error
err_token_not_found = grpc not_found "TOKEN_NOT_FOUND"

abbrev pub err_token_expired : Error
err_token_expired = grpc failed_precondition "TOKEN_EXPIRED"

abbrev pub err_token_exhausted : Error
err_token_exhausted = grpc resource_exhausted "TOKEN_EXHAUSTED"

abbrev pub err_token_frozen : Error
err_token_frozen = grpc failed_precondition "TOKEN_FROZEN"

abbrev pub err_gateway_mismatch : Error
err_gateway_mismatch = grpc invalid_argument "GATEWAY_MISMATCH"

abbrev pub err_identity_conflict : Error
err_identity_conflict = grpc already_exists "IDENTITY_CONFLICT"

abbrev pub err_csr_invalid : String → Error
err_csr_invalid msg = grpc invalid_argument (concat "CSR_INVALID: " msg)

abbrev pub err_identity_revoked : Error
err_identity_revoked = grpc permission_denied "IDENTITY_REVOKED"
