-- ===== src/Onboarding/Tokens/Uses.antt =====
-- ValidateAndConsume of internal/onboarding/token_service.go, and how often a token can be used.
use ai_edge.Prelude.{
  ◌≡◌, refl, sym, ap, ◌∙◌, String, false, Option, none, some, arith, ◌==◌, ltb, eq_iff, find_row,
  Bool-cases, inl, inr,
}
use ai_edge.Prelude.Int.{pos, leb_ℤ}
use ai_edge.Store.Errors.{Result, ok, wrap}
use ai_edge.Store.Schema.{TokenRecord}
use ai_edge.Store.Session.{Env, Session, Exec, done, on_error, select, statement}
use ai_edge.Store.Transactions.{bind-eq-ok, select-eq-ok, db_of}
use ai_edge.Onboarding.Tokens.{
  TokenTools, has_hash, found_token, update_tokens, use_token, usable, validate_and_consume,
}

abbrev pub Usable : Env → String → TokenRecord → Type 0
Usable env gateway_id rec =
    ((rec.status == "Revoked") ≡ false)
    × ((rec.status == "Frozen") ≡ false)
    × (ltb rec.expires_at env.time_now ≡ false)
    × (leb_ℤ rec.max_uses (pos rec.used_count) ≡ false)
    × (rec.gateway_id ≡ gateway_id)

usable-eq-ok :
    (env : Env) (gateway_id : String) (rec : TokenRecord) (s : Session) (u : Unit {0})
    → (usable env gateway_id rec s).0 ≡ ok u
    → Usable env gateway_id rec × ((usable env gateway_id rec s).1 ≡ s)
unfolding usable
usable-eq-ok env gateway_id rec s u h = elim (Bool-cases (rec.status == "Revoked")) [
  | inl e ↦ absurd (ground arith)
  | inr a ↦ elim (Bool-cases (rec.status == "Frozen")) [
    | inl e ↦ absurd (ground arith)
    | inr b ↦ elim (Bool-cases (ltb rec.expires_at env.time_now)) [
      | inl e ↦ absurd (ground arith)
      | inr c ↦ elim (Bool-cases (leb_ℤ rec.max_uses (pos rec.used_count))) [
        | inl e ↦ absurd (ground arith)
        | inr d ↦ elim (Bool-cases (rec.gateway_id == gateway_id)) [
          | inr e ↦ absurd (ground arith)
          | inl e ↦ ((a, b, c, d, (eq_iff rec.gateway_id gateway_id).0 e), rw (a, b, c, d, e) refl)
        ]
      ]
    ]
  ]
]

found_token-eq-ok :
    (o : Option TokenRecord) (s : Session) (rec : TokenRecord)
    → (found_token o s).0 ≡ ok rec
    → (o ≡ some rec) × ((found_token o s).1 ≡ s)
found_token-eq-ok none s rec h = cc
found_token-eq-ok (some r) s rec h = (cc, refl)

abbrev increment : Env → TokenRecord → Exec (Unit {0})
increment env rec =
    on_error (wrap "increment used_count")
      (statement env (λ id db. done tt (update_tokens rec.id (use_token env.now) db)))

increment-effect :
    (env : Env) (rec : TokenRecord) (s : Session)
    → s.aborted ≡ false
    → (u : Unit {0}) → (increment env rec s).0 ≡ ok u
    → ((increment env rec s).1.aborted ≡ false)
      × ((increment env rec s).1.db ≡ update_tokens rec.id (use_token env.now) s.db)
unfolding statement
increment-effect env rec s a u h = (ground arith, ground arith)

-- A token is consumed only if the database has a record of its hash that is neither revoked nor
-- frozen, not expired, has a use left and belongs to the gateway. Then its count goes up by one.
pub validate_and_consume-effect :
    (env : Env) (tools : TokenTools) (plain gateway_id : String) (s : Session) (rec : TokenRecord)
    → s.aborted ≡ false
    → (validate_and_consume env tools plain gateway_id s).0 ≡ ok rec
    → (old : TokenRecord) × (find_row (has_hash (tools.hash plain)) s.db.bootstrap_tokens
        ≡ some old)
      × Usable env gateway_id old
      × ((validate_and_consume env tools plain gateway_id s).1.aborted ≡ false)
      × ((validate_and_consume env tools plain gateway_id s).1.db
          ≡ update_tokens old.id (use_token env.now) s.db)
unfolding validate_and_consume
validate_and_consume-effect env tools plain gateway_id s rec a h =
    let (found, k₁, p₁) =
      bind-eq-ok _
        (on_error (wrap "query token")
          (select env (λ db. find_row (has_hash (tools.hash plain)) db.bootstrap_tokens)))
        s rec h in
    let (e₁, a₁, d₁) = select-eq-ok (wrap "query token") env _ s found a k₁ in
    let s₁ =
      (on_error (wrap "query token")
        (select env (λ db. find_row (has_hash (tools.hash plain)) db.bootstrap_tokens)) s).1 in
    let (old, k₂, p₂) = bind-eq-ok _ (found_token found) s₁ rec (value p₁ h) in
    let (e₂, d₂) = found_token-eq-ok found s₁ old k₂ in
    let s₂ = (found_token found s₁).1 in
    let (_, k₃, p₃) = bind-eq-ok _ (usable env gateway_id old) s₂ rec (value (p₁ ∙ p₂) h) in
    let (fits, d₃) = usable-eq-ok env gateway_id old s₂ _ k₃ in
    let s₃ = (usable env gateway_id old s₂).1 in
    let same = d₃ ∙ d₂ in
    let (_, k₄, p₄) = bind-eq-ok _ (increment env old) s₃ rec (value (p₁ ∙ p₂ ∙ p₃) h) in
    let (a₄, d₄) = increment-effect env old s₃ (ap (λ (t : Session). t.aborted) same ∙ a₁) _ k₄ in
    let whole = p₁ ∙ p₂ ∙ p₃ ∙ p₄ in
    (
      old,
      sym e₁ ∙ e₂,
      fits,
      ap (λ (r : Result TokenRecord × Session). r.1.aborted) whole ∙ a₄,
      ap db_of whole
          ∙ d₄
          ∙ ap (λ (t : Session). update_tokens old.id (use_token env.now) t.db) same
          ∙ ap (update_tokens old.id (use_token env.now)) d₁,
    )
  where
    value : {x y : Result TokenRecord × Session} → x ≡ y → x.0 ≡ ok rec → y.0 ≡ ok rec
    value p h = ap (λ (r : Result TokenRecord × Session). r.0) (sym p) ∙ h
