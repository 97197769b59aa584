-- ===== src/Gateway/IdentityCache/Auth.antt =====
-- The interceptor of internal/gateway/auth.go: which calls reach a handler.
use ai_edge.Prelude.{
  ◌≡◌, refl, sym, ap, subst, ◌∙◌, String, true, false, Option, none, some, arith, ◌⊎◌,
}
use ai_edge.Proto.{internal, permission_denied}
use ai_edge.Store.Errors.{Error, Result, ok, err, grpc, grpc_of}
use ai_edge.Store.Session.{Env, Session, guard, on_error, map_error}
use ai_edge.Store.Transactions.{bind-eq-ok, guard-eq-ok}
use ai_edge.Gateway.IdentityCache.{
  CachedIdentity, Entries, Answer, lookup, AuthConfig, Peer, no_peer, no_tls, no_certificate,
  certificate, extract_fingerprint, known, Caller, identify, authenticate,
}
use ai_edge.Gateway.IdentityCache.Safety.{Active, Remembered, lookup_sound}

extract_fingerprint-eq-ok :
    (peer : Peer) (s : Session) (f : String)
    → (extract_fingerprint peer s).0 ≡ ok f
    → (peer ≡ certificate f) × ((extract_fingerprint peer s).1 ≡ s)
unfolding extract_fingerprint
extract_fingerprint-eq-ok no_peer s f h = cc
extract_fingerprint-eq-ok no_tls s f h = cc
extract_fingerprint-eq-ok no_certificate s f h = cc
extract_fingerprint-eq-ok (certificate g) s f h = (cc, refl)

known-eq-ok :
    (o : Option CachedIdentity) (s : Session) (i : CachedIdentity)
    → (known o s).0 ≡ ok i
    → (o ≡ some i) × ((known o s).1 ≡ s)
known-eq-ok none s i h = cc
known-eq-ok (some j) s i h = (cc, refl)

on_error-eq-ok :
    (f : Error → Error) (r : Result Answer) (a : Answer) → map_error f r ≡ ok a → r ≡ ok a
on_error-eq-ok f (ok b) a h = cc
on_error-eq-ok f (err e) a h = cc

abbrev Identified : Env → AuthConfig → Peer → Entries → Session → Caller → Type 0
Identified env cfg peer entries s caller =
    (f : String) × (i : CachedIdentity) × (entries' : Entries) × (peer ≡ certificate f)
    × ((lookup env cfg.ttl f entries s).0 ≡ ok (some i, entries'))
    × (cfg.equal_fold i.gateway_id cfg.gateway_id ≡ true)
    × (caller.node_id ≡ i.node_id)
    × (caller.gateway_id ≡ i.gateway_id)

identify-eq-ok :
    (env : Env) (cfg : AuthConfig) (peer : Peer) (entries : Entries) (s : Session)
    (r : Caller × Entries)
    → (identify env cfg peer entries s).0 ≡ ok r
    → Identified env cfg peer entries s r.0
identify-eq-ok env cfg peer entries s r h =
    let (f, k₁, p₁) = bind-eq-ok _ (extract_fingerprint peer) s r h in
    let (e₁, d₁) = extract_fingerprint-eq-ok peer s f k₁ in
    let s₁ = (extract_fingerprint peer s).1 in
    let asked =
      on_error (grpc_of internal "identity lookup failed") (lookup env cfg.ttl f entries) in
    let (a, k₂, p₂) = bind-eq-ok _ asked s₁ r (value p₁ h) in
    let found =
      on_error-eq-ok (grpc_of internal "identity lookup failed") (lookup env cfg.ttl f entries s₁).0
        a k₂ in
    let s₂ = (asked s₁).1 in
    let (i, k₃, p₃) = bind-eq-ok _ (known a.0) s₂ r (value (p₁ ∙ p₂) h) in
    let (e₃, d₃) = known-eq-ok a.0 s₂ i k₃ in
    let s₃ = (known a.0 s₂).1 in
    let (_, k₄, p₄) =
      bind-eq-ok _
        (guard (cfg.equal_fold i.gateway_id cfg.gateway_id)
          (grpc permission_denied "GATEWAY_MISMATCH"))
        s₃ r (value (p₁ ∙ p₂ ∙ p₃) h) in
    let (own, _) =
      guard-eq-ok (cfg.equal_fold i.gateway_id cfg.gateway_id)
        (grpc permission_denied "GATEWAY_MISMATCH") s₃ _ k₄ in
    let answer = value (p₁ ∙ p₂ ∙ p₃ ∙ p₄) h in
    let here = subst (λ (t : Session). (lookup env cfg.ttl f entries t).0 ≡ ok a) d₁ found in
    (f, i, a.1, e₁, here ∙ ap (λ (o : Option CachedIdentity). ok (o, a.1)) e₃, own, cc, cc)
  where
    value : {x y : Result (Caller × Entries) × Session} → x ≡ y → x.0 ≡ ok r → y.0 ≡ ok r
    value p h = ap (λ (q : Result (Caller × Entries) × Session). q.0) (sym p) ∙ h

module _ (env : Env) (cfg : AuthConfig) (method : String) (peer : Peer) (entries : Entries)
    (s : Session) (r : Caller × Entries) where
  required :
      cfg.skip_method method ≡ false
      → (authenticate env cfg method peer entries s).0 ≡ ok r
      → Identified env cfg peer entries s r.0
  unfolding authenticate
  required skip h = identify-eq-ok env cfg peer entries s r (ground (arith, skip))

  -- A call of a method that is not skipped reaches its handler only with a client certificate whose
  -- identity is remembered and not expired, or active in the database, and belongs to the gateway.
  -- The handler sees that identity's node.
  pub authenticate_sound :
      cfg.skip_method method ≡ false
      → (authenticate env cfg method peer entries s).0 ≡ ok r
      → (f : String) × (i : CachedIdentity) × (peer ≡ certificate f)
        × (Remembered env f entries i ⊎ Active f s.db i)
        × (cfg.equal_fold i.gateway_id cfg.gateway_id ≡ true)
        × (r.0.node_id ≡ i.node_id)
  authenticate_sound skip h =
      let (f, i, entries', e, k, own, node, _) = required skip h in
      (f, i, e, lookup_sound env cfg.ttl f entries s i entries' k, own, node)
