-- ===== src/Onboarding/Bootstrap/Effects.antt =====
-- Bootstrap of internal/onboarding/bootstrap_service.go: what a registration leaves in the tables.
use ai_edge.Prelude.{
  ◌≡◌, refl, sym, ap, subst, ◌∙◌, String, false, none, some, [], ◌∷◌, ◌++◌, arith, ◌==◌, find_row,
  find_row-none_imp, Bool-cases, ◌⊎◌, inl, inr,
}
use ai_edge.Store.Errors.{Error, Result, ok, err}
use ai_edge.Store.Schema.{Db, TokenRecord}
use ai_edge.Store.Session.{
  Env, Session, Exec, ◌>>=◌, ◌>>◌, pure, opened, select, statement, with_tx,
}
use ai_edge.Store.Transactions.{bind-eq-ok, with_tx-commits, with_tx-atomic, db_of}
use ai_edge.Onboarding.Tokens.{TokenTools, has_hash, update_tokens, use_token, validate_and_consume}
use ai_edge.Onboarding.Tokens.Uses.{Usable, validate_and_consume-effect}
use ai_edge.Onboarding.Bootstrap.{
  Signer, SignResult, BootstrapInput, BootstrapOutput, live_serial, check_serial, new_node,
  insert_node, new_identity, identity_clash, insert_identity, signed_or, bootstrap_body, bootstrap,
}

check_serial-effect :
    (env : Env) (serial : String) (s : Session) (u : Unit {0})
    → s.aborted ≡ false
    → (check_serial env serial s).0 ≡ ok u
    → ((check_serial env serial s).1.aborted ≡ false) × ((check_serial env serial s).1.db ≡ s.db)
unfolding check_serial select statement
check_serial-effect env serial s u a h = ground arith

insert_node-effect :
    (env : Env) (input : BootstrapInput) (s : Session) (id : String)
    → s.aborted ≡ false
    → (insert_node env input s).0 ≡ ok id
    → ((insert_node env input s).1.aborted ≡ false)
      × ((insert_node env input s).1.db
          ≡ record s.db { edge_nodes = s.db.edge_nodes ++ new_node env.now input id ∷ [] })
unfolding insert_node statement
insert_node-effect env input s id a h = (ground arith, ground arith)

signed_or-eq-ok :
    (r : String ⊎ SignResult) (s : Session) (signed : SignResult)
    → (signed_or r s).0 ≡ ok signed
    → (r ≡ inr signed) × ((signed_or r s).1 ≡ s)
signed_or-eq-ok (inl msg) s signed h = cc
signed_or-eq-ok (inr x) s signed h = (cc, refl)

insert_identity-effect :
    (env : Env) (input : BootstrapInput) (node_id : String) (signed : SignResult) (s : Session)
    (u : Unit {0})
    → s.aborted ≡ false
    → (insert_identity env input node_id signed s).0 ≡ ok u
    → (id : String) × (find_row
          (identity_clash (new_identity env.now input node_id signed id))
          s.db.edge_identities
        ≡ none)
      × ((insert_identity env input node_id signed s).1.db ≡ record s.db {
        edge_identities = s.db.edge_identities ++ new_identity env.now input node_id signed id ∷ [];
      })
unfolding insert_identity statement
insert_identity-effect env input node_id signed s u a h =
    (env.uuid s.tick, ground arith, ground arith)

-- The tables after the registration of a node with the record `token`.
abbrev pub registered_db :
    Env
    → BootstrapInput
    → TokenRecord
    → (node_id : String) → SignResult
    → (identity_id : String) → Db
    → Db
registered_db env input token node_id signed identity_id db =
    record (update_tokens token.id (use_token env.now) db) {
      edge_nodes = db.edge_nodes ++ new_node env.now input node_id ∷ [];
      edge_identities =
          db.edge_identities ++ new_identity env.now input node_id signed identity_id ∷ [];
    }

abbrev pub output : Signer → String → SignResult → BootstrapOutput
output signer node_id signed = record {
  node_id = node_id;
  cert_pem = signed.cert_pem;
  ca_pem = signer.ca_pem;
  expires_at = signed.expires_at;
}

abbrev pub Registered :
    Env → TokenTools → Signer → BootstrapInput → Db → BootstrapOutput → Db → Type 0
Registered env tools signer input db out db' =
    (token : TokenRecord) × (signed : SignResult) × (identity_id : String) × (find_row
        (has_hash (tools.hash input.token)) db.bootstrap_tokens
      ≡ some token)
    × Usable env input.gateway_id token
    × (signer.sign_csr input.csr_pem out.node_id ≡ inr signed)
    × (find_row (identity_clash (new_identity env.now input out.node_id signed identity_id))
          db.edge_identities
        ≡ none)
    × (out ≡ output signer out.node_id signed)
    × (db' ≡ registered_db env input token out.node_id signed identity_id db)

-- What follows the checks.
abbrev enroll : Env → Signer → BootstrapInput → Exec BootstrapOutput
enroll env signer input = do
  node_id ← insert_node env input
  signed ← signed_or (signer.sign_csr input.csr_pem node_id)
  insert_identity env input node_id signed
  pure (output signer node_id signed)

abbrev enrolled_db :
    Env → BootstrapInput → (node_id : String) → SignResult → (identity_id : String) → Db → Db
enrolled_db env input node_id signed identity_id db = record db {
  edge_nodes = db.edge_nodes ++ new_node env.now input node_id ∷ [];
  edge_identities =
      db.edge_identities ++ new_identity env.now input node_id signed identity_id ∷ [];
}

abbrev Enrolled : Env → Signer → BootstrapInput → Db → BootstrapOutput → Db → Type 0
Enrolled env signer input db out db' =
    (signed : SignResult) × (identity_id : String) × (signer.sign_csr input.csr_pem out.node_id
      ≡ inr signed)
    × (find_row (identity_clash (new_identity env.now input out.node_id signed identity_id))
          db.edge_identities
        ≡ none)
    × (out ≡ output signer out.node_id signed)
    × (db' ≡ enrolled_db env input out.node_id signed identity_id db)

enroll_effect :
    (env : Env) (signer : Signer) (input : BootstrapInput) (s : Session) (out : BootstrapOutput)
    → s.aborted ≡ false
    → (enroll env signer input s).0 ≡ ok out
    → Enrolled env signer input s.db out (enroll env signer input s).1.db
enroll_effect env signer input s out a h =
    let (node_id, k₃, p₃) = bind-eq-ok _ (insert_node env input) s out h in
    let (a₃, d₃) = insert_node-effect env input s node_id a k₃ in
    let s₃ = (insert_node env input s).1 in
    let (signed, k₄, p₄) =
      bind-eq-ok _ (signed_or (signer.sign_csr input.csr_pem node_id)) s₃ out (value p₃ h) in
    let (e₄, same) = signed_or-eq-ok (signer.sign_csr input.csr_pem node_id) s₃ signed k₄ in
    let s₄ = (signed_or (signer.sign_csr input.csr_pem node_id) s₃).1 in
    let (_, k₅, p₅) =
      bind-eq-ok _ (insert_identity env input node_id signed) s₄ out (value (p₃ ∙ p₄) h) in
    let (identity_id, free, d₅) =
      insert_identity-effect env input node_id signed s₄ _
        (ap (λ (t : Session). t.aborted) same ∙ a₃) k₅ in
    let whole = p₃ ∙ p₄ ∙ p₅ in let answer = value whole h in (signed, identity_id, cc, cc, cc, cc)
  where
    value : {x y : Result BootstrapOutput × Session} → x ≡ y → x.0 ≡ ok out → y.0 ≡ ok out
    value p h = ap (λ (r : Result BootstrapOutput × Session). r.0) (sym p) ∙ h

body_registers :
    (env : Env) (tools : TokenTools) (signer : Signer) (input : BootstrapInput) (s : Session)
    (out : BootstrapOutput)
    → s.aborted ≡ false
    → (bootstrap_body env tools signer input s).0 ≡ ok out
    → Registered env tools signer input s.db out (bootstrap_body env tools signer input s).1.db
body_registers env tools signer input s out a h =
    let (rec, k₁, p₁) =
      bind-eq-ok (λ _. check_serial env input.serial >> enroll env signer input)
        (validate_and_consume env tools input.token input.gateway_id) s out h in
    let (token, found, fits, a₁, d₁) =
      validate_and_consume-effect env tools input.token input.gateway_id s rec a k₁ in
    let s₁ = (validate_and_consume env tools input.token input.gateway_id s).1 in
    let (_, k₂, p₂) =
      bind-eq-ok (λ _. enroll env signer input) (check_serial env input.serial) s₁ out
        (value p₁ h) in
    let (a₂, d₂) = check_serial-effect env input.serial s₁ _ a₁ k₂ in
    let s₂ = (check_serial env input.serial s₁).1 in
    let (signed, identity_id, e, free, o, d₃) =
      enroll_effect env signer input s₂ out a₂ (value (p₁ ∙ p₂) h) in
    let d = d₂ ∙ d₁ in
    (
      token,
      signed,
      identity_id,
      found,
      fits,
      e,
      sym (
            ap
              (λ (db : Db).
                find_row
                  (identity_clash (new_identity env.now input out.node_id signed identity_id))
                  db.edge_identities)
              d)
          ∙ free,
      o,
      ap db_of (p₁ ∙ p₂) ∙ d₃ ∙ ap (enrolled_db env input out.node_id signed identity_id) d,
    )
  where
    value : {x y : Result BootstrapOutput × Session} → x ≡ y → x.0 ≡ ok out → y.0 ≡ ok out
    value p h = ap (λ (r : Result BootstrapOutput × Session). r.0) (sym p) ∙ h

module _ (env : Env) (tools : TokenTools) (signer : Signer) (input : BootstrapInput)
    (s : Session) where
  guarded :
      (input.csr_pem == "") ≡ false
      → bootstrap env tools signer input s ≡ with_tx env (bootstrap_body env tools signer input) s
  unfolding bootstrap
  guarded given = rw given refl

  -- A node is registered only with a usable token of its gateway and a CSR that the CA signs, and
  -- only if no identity clashes with the new one. Then the token's count goes up by one, one
  -- active node and one active identity are added, and nothing else changes.
  pub bootstrap-effect :
      (out : BootstrapOutput)
      → (bootstrap env tools signer input s).0 ≡ ok out
      → Registered env tools signer input s.db out (bootstrap env tools signer input s).1.db
  unfolding bootstrap
  bootstrap-effect out h = elim (Bool-cases (input.csr_pem == "")) [
    | inl empty ↦ absurd (ground arith)
    | inr given ↦
        let p = guarded given in
        let (k, _, d) =
          with_tx-commits env s (bootstrap_body env tools signer input) out
            (ap (λ (r : Result BootstrapOutput × Session). r.0) (sym p) ∙ h) in
        subst (Registered env tools signer input s.db out) (sym (ap db_of p ∙ d))
          (body_registers env tools signer input (opened s) out refl k)
  ]

  -- A registration that fails for any reason, also after the token was consumed, changes no table.
  pub bootstrap-atomic :
      (e : Error)
      → (bootstrap env tools signer input s).0 ≡ err e
      → (bootstrap env tools signer input s).1.db ≡ s.db
  unfolding bootstrap
  bootstrap-atomic e h = elim (Bool-cases (input.csr_pem == "")) [
    | inl empty ↦ rw empty refl
    | inr given ↦
        let p = guarded given in
        ap db_of p
        ∙ with_tx-atomic env s (bootstrap_body env tools signer input) e
            (ap (λ (r : Result BootstrapOutput × Session). r.0) (sym p) ∙ h)
  ]

  -- No two live identities have one serial: a registration with the serial of a live identity
  -- fails, also with the empty serial.
  pub bootstrap-live_serial :
      (out : BootstrapOutput)
      → (bootstrap env tools signer input s).0 ≡ ok out
      → find_row (live_serial input.serial) s.db.edge_identities ≡ none
  bootstrap-live_serial out h =
      let (_, signed, id, _, _, _, free, _, _) = bootstrap-effect out h in
      find_row-none_imp (identity_clash (new_identity env.now input out.node_id signed id))
        (live_serial input.serial) s.db.edge_identities (λ x l. ground arith) free
