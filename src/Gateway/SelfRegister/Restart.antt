-- ===== src/Gateway/SelfRegister/Restart.antt =====
-- SelfRegister of internal/gateway/self_register.go called again when the gateway restarts, against
-- the handlers of gateway_service.go.
use ai_edge.Prelude.{
  suc, ◌≡◌, ◌≤◌, ◌<◌, refl, sym, ap, ◌∙◌, String, Bool, true, false, Option, none, some, List, [],
  ◌∷◌, ◌++◌, arith, ◌==◌, eq_refl, find_row, order_by, find_row-none_imp, find_row-order_by,
  find_row-order_by-none, find_row-map, find_row-map-none, concat, quoted, where_rows_all, take_all,
  length, length-order_by, length-append, Bool-cases, Option-cases, inl, inr,
}
use ai_edge.Prelude.Int.{ℤ}
use ai_edge.Proto.{not_found, internal}
use ai_edge.Store.Errors.{Error, Result, ok, err, grpc, grpc_of, driver, wrap, is_unique_violation}
use ai_edge.Store.Schema.{Db, GatewayRow}
use ai_edge.Store.Session.{Env, Session, autocommit, select_now}
use ai_edge.Store.Transactions.{IsQuiet}
use ai_edge.Gateway.Registry.{
  CreateGatewayRequest, gateway_to_proto, marshal_labels, new_gateway, gateway_clash,
  gateway_key_text, gateway_labels_text, insert_gateway, create_gateway_error, create_gateway,
  in_region, newest_gateway, list_gateways,
}
use ai_edge.Gateway.SelfRegister.{
  SelfRegisterConfig, SelfRegisterResult, registered_name, some_labels, registration, gateway_named,
  is_already_exists, find_gateway_by_name, registered, self_register,
}

abbrev pub row_named : String → GatewayRow → Bool
row_named name r = r.name == name

-- The row that the lookup finds.
abbrev pub Listed : String → Db → GatewayRow → Type 0
Listed name db row = find_row (row_named name) (order_by newest_gateway db.gateways) ≡ some row

abbrev clash_error : CreateGatewayRequest → Error
clash_error req = create_gateway_error req (driver gateway_key_text)

clash_error-is_already_exists :
    (req : CreateGatewayRequest) → is_already_exists (clash_error req) ≡ true
unfolding is_unique_violation
clash_error-is_already_exists req = refl

module _ (env : Env) (quiet : IsQuiet env) where
  find_quiet :
      (atoi : String → Option ℤ) (itoa : ℤ → String) (name : String) (s : Session)
      (row : GatewayRow)
      → length s.db.gateways ≤ 1000
      → Listed name s.db row
      → ((find_gateway_by_name env atoi itoa name s).0 ≡ ok (gateway_to_proto row))
        × ((find_gateway_by_name env atoi itoa name s).1.db ≡ s.db)
  unfolding find_gateway_by_name list_gateways select_now autocommit gateway_to_proto
  find_quiet atoi itoa name s row few h =
      let all = where_rows_all (in_region "") s.db.gateways (λ x. refl) in
      let rows = order_by newest_gateway s.db.gateways in
      let short : length rows ≤ 1000 =
        omega (arith, few, length-order_by newest_gateway s.db.gateways) in
      let whole = take_all 1000 rows short in
      let found = find_row-map (gateway_named name) gateway_to_proto rows row h in
      (
        rw (quiet s.tick) (rw (quiet (suc s.tick)) (rw all (rw whole (rw found refl)))),
        rw (quiet s.tick) (rw (quiet (suc s.tick)) (rw all (rw whole (rw found refl)))),
      )

  find_unlisted :
      (atoi : String → Option ℤ) (itoa : ℤ → String) (name : String) (s : Session)
      → length s.db.gateways ≤ 1000
      → find_row (row_named name) (order_by newest_gateway s.db.gateways) ≡ none
      → (e : Error) × ((find_gateway_by_name env atoi itoa name s).0 ≡ err e)
  unfolding find_gateway_by_name list_gateways select_now autocommit gateway_to_proto
  find_unlisted atoi itoa name s few h =
      let all = where_rows_all (in_region "") s.db.gateways (λ x. refl) in
      let rows = order_by newest_gateway s.db.gateways in
      let short : length rows ≤ 1000 =
        omega (arith, few, length-order_by newest_gateway s.db.gateways) in
      let whole = take_all 1000 rows short in
      let missing = find_row-map-none (gateway_named name) gateway_to_proto rows h in
      let e : (find_gateway_by_name env atoi itoa name s).0
          ≡ err (grpc not_found (concat "gateway " (concat (quoted name) " not found"))) =
        rw (quiet s.tick) (rw (quiet (suc s.tick)) (rw all (rw whole (rw missing refl)))) in
      (_, e)

  -- A name that is taken is refused as such, and nothing changes.
  create_taken :
      (req : CreateGatewayRequest) (labels : List (String × String)) (s : Session)
      (old : GatewayRow)
      → (req.name == "") ≡ false
      → marshal_labels req.labels ≡ some labels
      → find_row (gateway_clash (env.uuid s.tick) req.name) s.db.gateways ≡ some old
      → ((create_gateway env req s).0 ≡ err (clash_error req))
        × ((create_gateway env req s).1.db ≡ s.db)
  unfolding create_gateway autocommit
  create_taken req labels s old n l c = (
    rw n (rw (quiet s.tick) (rw (l, insert_gateway) (rw c refl))),
    rw n (rw (quiet s.tick) (rw (l, insert_gateway) (rw c refl))),
  )

  create_free :
      (req : CreateGatewayRequest) (labels : List (String × String)) (s : Session)
      → (req.name == "") ≡ false
      → marshal_labels req.labels ≡ some labels
      → find_row (gateway_clash (env.uuid s.tick) req.name) s.db.gateways ≡ none
      → ((create_gateway env req s).0
          ≡ ok (gateway_to_proto (new_gateway env.now (env.uuid s.tick) req labels)))
        × ((create_gateway env req s).1.db ≡ record s.db {
          gateways = s.db.gateways ++ new_gateway env.now (env.uuid s.tick) req labels ∷ [];
        })
  unfolding create_gateway autocommit
  create_free req labels s n l c = (
    rw n (rw (quiet s.tick) (rw (l, insert_gateway) (rw c refl))),
    rw n (rw (quiet s.tick) (rw (l, insert_gateway) (rw c refl))),
  )

  create_unlabelled :
      (req : CreateGatewayRequest) (s : Session)
      → (req.name == "") ≡ false
      → marshal_labels req.labels ≡ none
      → (create_gateway env req s).0
        ≡ err (grpc_of internal "create gateway" (driver gateway_labels_text))
  unfolding create_gateway autocommit is_unique_violation
  create_unlabelled req s n l = rw n (rw (quiet s.tick) (rw (l, insert_gateway) refl))

unanswered :
    (x : Result SelfRegisterResult) (e : Error) (r : SelfRegisterResult) → x ≡ err e → x ≡ ok r → ⊥
unanswered x e r p q = cc

answered_same :
    (x : Result SelfRegisterResult) (a r : SelfRegisterResult) → x ≡ ok a → x ≡ ok r → r ≡ a
answered_same x a r p q = cc

registered_name-some :
    (cfg : SelfRegisterConfig)
    → (cfg.gateway_id == "") ≡ false
    → (registered_name cfg == "") ≡ false
registered_name-some cfg h = elim (Bool-cases (cfg.name == "")) [ inl t ↦ rw t h | inr f ↦ rw f f ]

-- With its labels and its name listed, a gateway is answered with the row that is there.
module _ (env : Env) (atoi : String → Option ℤ) (itoa : ℤ → String) (quiet : IsQuiet env)
    (cfg : SelfRegisterConfig) where
  register-Listed :
      (labels : List (String × String)) (s : Session) (row : GatewayRow)
      → (cfg.gateway_id == "") ≡ false
      → marshal_labels (some_labels cfg.labels) ≡ some labels
      → length s.db.gateways ≤ 1000
      → Listed (registered_name cfg) s.db row
      → (self_register env atoi itoa cfg s).0 ≡ ok (registered true (gateway_to_proto row))
  unfolding self_register
  register-Listed labels s row g l few h =
      let name = registered_name-some cfg g in
      elim (Option-cases
        (find_row (gateway_clash (env.uuid s.tick) (registered_name cfg)) s.db.gateways)) [
          | inl free ↦
              let gone =
                find_row-order_by-none (row_named (registered_name cfg)) newest_gateway
                  s.db.gateways
                  (find_row-none_imp (gateway_clash (env.uuid s.tick) (registered_name cfg))
                    (row_named (registered_name cfg)) s.db.gateways (λ x e. ground (arith, e))
                    free) in
              absurd (ground (arith, gone, h))
          | inr (old, taken) ↦
              let (k, d) = create_taken env quiet (registration cfg) labels s old name l taken in
              let s₁ = (create_gateway env (registration cfg) s).1 in
              let few' : length s₁.db.gateways ≤ 1000 = rw d few in
              let listed : Listed (registered_name cfg) s₁.db row = rw d h in
              let (found, _) =
                find_quiet env quiet atoi itoa (registered_name cfg) s₁ row few' listed in
              rw g (rw k (rw (clash_error-is_already_exists (registration cfg)) (rw found refl)))
        ]

  -- A registration that is answered has its row listed afterwards.
  registered_row :
      (s : Session) (r : SelfRegisterResult)
      → length s.db.gateways ≤ 1000
      → (self_register env atoi itoa cfg s).0 ≡ ok r
      → (row : GatewayRow) × (labels : List (String × String)) × ((cfg.gateway_id == "") ≡ false)
        × (marshal_labels (some_labels cfg.labels) ≡ some labels)
        × Listed (registered_name cfg) (self_register env atoi itoa cfg s).1.db row
        × (length (self_register env atoi itoa cfg s).1.db.gateways ≤ suc (length s.db.gateways))
        × (existed : Bool) × (r ≡ registered existed (gateway_to_proto row))
  unfolding self_register
  registered_row s r few h = elim (Bool-cases (cfg.gateway_id == "")) [
    | inl e ↦ absurd (ground (arith, e))
    | inr g ↦
        let name = registered_name-some cfg g in
        elim (Option-cases (marshal_labels (some_labels cfg.labels))) [
          | inl l ↦
              let k = create_unlabelled env quiet (registration cfg) s name l in
              let e : (self_register env atoi itoa cfg s).0
                  ≡ err (
                      wrap (concat "gateway self-register " (quoted (registered_name cfg)))
                        (grpc_of internal "create gateway" (driver gateway_labels_text))) =
                rw g (rw k refl) in
              absurd (unanswered _ _ _ e h)
          | inr (labels, l) ↦
              elim (Option-cases
                (find_row (gateway_clash (env.uuid s.tick) (registered_name cfg)) s.db.gateways)) [
                  | inl free ↦
                      let (k, d) = create_free env quiet (registration cfg) labels s name l free in
                      let new = new_gateway env.now (env.uuid s.tick) (registration cfg) labels in
                      let e : (self_register env atoi itoa cfg s).0
                          ≡ ok (registered false (gateway_to_proto new)) =
                        rw g (rw k refl) in
                      let d' : (self_register env atoi itoa cfg s).1.db
                          ≡ record s.db { gateways = s.db.gateways ++ new ∷ [] } =
                        rw g (rw k d) in
                      let listed =
                        find_row-order_by (row_named (registered_name cfg)) newest_gateway
                          s.db.gateways new
                          (find_row-none_imp (gateway_clash (env.uuid s.tick) (registered_name cfg))
                            (row_named (registered_name cfg)) s.db.gateways
                            (λ x e. ground (arith, e)) free)
                          (eq_refl (registered_name cfg)) in
                      let longer = length-append s.db.gateways (new ∷ []) in
                      let most : length (s.db.gateways ++ new ∷ []) ≤ suc (length s.db.gateways) =
                        omega (arith, longer) in
                      (new, labels, g, l, rw d' listed, rw d' most, false, answered_same _ _ _ e h)
                  | inr (old, taken) ↦
                      let (k, d) =
                        create_taken env quiet (registration cfg) labels s old name l taken in
                      let s₁ = (create_gateway env (registration cfg) s).1 in
                      let clash = clash_error-is_already_exists (registration cfg) in
                      let few' : length s₁.db.gateways ≤ 1000 = rw d few in
                      elim (Option-cases (
                        find_row (row_named (registered_name cfg))
                          (order_by newest_gateway s₁.db.gateways))) [
                            | inl gone ↦
                                let (e, missing) =
                                  find_unlisted env quiet atoi itoa (registered_name cfg) s₁ few'
                                    gone in
                                let e' : (self_register env atoi itoa cfg s).0
                                    ≡ err (
                                        wrap
                                          (concat "gateway self-register " (
                                            concat (quoted (registered_name cfg))
                                              " already exists but lookup failed"))
                                          e) =
                                  rw g (rw k (rw clash (rw missing refl))) in
                                absurd (unanswered _ _ _ e' h)
                            | inr (row, listed) ↦
                                let (found, d₂) =
                                  find_quiet env quiet atoi itoa (registered_name cfg) s₁ row few'
                                    listed in
                                let e : (self_register env atoi itoa cfg s).0
                                    ≡ ok (registered true (gateway_to_proto row)) =
                                  rw g (rw k (rw clash (rw found refl))) in
                                let d' : (self_register env atoi itoa cfg s).1.db ≡ s₁.db =
                                  rw g (rw k (rw clash (rw found d₂))) in
                                let most : length s₁.db.gateways ≤ suc (length s.db.gateways) =
                                  rw d (omega arith) in
                                (
                                  row,
                                  labels,
                                  g,
                                  l,
                                  rw d' listed,
                                  rw d' most,
                                  true,
                                  answered_same _ _ _ e h,
                                )
                          ]
                ]
        ]
  ]

-- Registering a gateway is idempotent: where every statement reaches the database and there are less
-- than a thousand gateways, a gateway that restarts after a successful registration is answered with
-- the id and the name that it was given, and told that it existed.
pub self_register-self_register :
    (env env' : Env) (atoi : String → Option ℤ) (itoa : ℤ → String) (cfg : SelfRegisterConfig)
    (s : Session) (r : SelfRegisterResult)
    → IsQuiet env
    → IsQuiet env'
    → length s.db.gateways < 1000
    → (self_register env atoi itoa cfg s).0 ≡ ok r
    → (self_register env' atoi itoa cfg (self_register env atoi itoa cfg s).1).0
      ≡ ok (record r { already_existed = true })
self_register-self_register env env' atoi itoa cfg s r quiet quiet' few h =
    let (row, labels, g, l, listed, most, existed, p) =
      registered_row env atoi itoa quiet cfg s r (omega (arith, few)) h in
    register-Listed env' atoi itoa quiet' cfg labels _ row g l (omega (arith, few, most)) listed
    ∙ ap (λ (x : SelfRegisterResult). ok (record x { already_existed = true })) (sym p)
