-- ===== src/Onboarding/Bootstrap/Revoke.antt =====
-- RevokeNode of internal/onboarding/bootstrap_service.go: its audit statement and its commit.
use ai_edge.Prelude.{
  ℕ, ◌<◌, ◌≡◌, ◌≢◌, refl, sym, ap, subst, ◌∙◌, String, Bool, true, false, none, List, [], ◌∷◌,
  arith, ltb, find_row, update_rows, where_rows, count_rows, map, Bool-cases, inl, inr, All,
  All-update_rows,
}
use ai_edge.Store.Errors.{Result, ok}
use ai_edge.Store.Schema.{Db, IdentityRow}
use ai_edge.Store.Session.{Env, Session, guard, violates, opened, statement}
use ai_edge.Store.Transactions.{with_tx-commits, bind-eq-ok, guard-eq-ok}
use ai_edge.Onboarding.Errors.{err_identity_revoked}
use ai_edge.Task.Store.{has_id, event_task_text}
use ai_edge.Onboarding.Bootstrap.{
  live_of, identity_of, audit_event, revoked_identity, revoked_node, is_node, audit_events,
  insert_events, revoke_identities, update_node_status, audit, revoke_body, revoke_node,
}

-- No task has the id of an identity.
abbrev pub NoShared : Db → Type 0
NoShared db = All (λ (r : IdentityRow). find_row (has_id r.id) db.tasks ≡ none) db.edge_identities

module _ (env : Env) (reason : String) where
  -- The first of the events stops the statement.
  no_event :
      (p : IdentityRow → Bool) (db : Db) (xs : List IdentityRow)
      → All (λ r. find_row (has_id r.id) db.tasks ≡ none) xs
      → 0 < count_rows p xs
      → insert_events (map (audit_event env reason) (where_rows p xs)) db ≡ violates event_task_text
  unfolding insert_events where_rows count_rows
  no_event p db [] n c = absurd (omega arith)
  no_event p db (x ∷ xs) n c = elim (Bool-cases (p x)) [
    | inl e ↦
        ap (λ (l : List IdentityRow). insert_events (map (audit_event env reason) l) db) (kept e)
        ∙ refused
    | inr e ↦ rw e (no_event p db xs n.1 (ground (arith, e)))
  ]
    where
      kept : p x ≡ true → where_rows p (x ∷ xs) ≡ x ∷ where_rows p xs
      kept e = rw e refl

      refused :
          insert_events (map (audit_event env reason) (x ∷ where_rows p xs)) db
          ≡ violates event_task_text
      refused = rw (n.0, insert_events) refl

count-revoked :
    (now : ℕ) (node_id : String) (xs : List IdentityRow)
    → 0 < count_rows (live_of node_id) xs
    → 0 < count_rows (identity_of node_id) (update_rows (live_of node_id) (revoked_identity now) xs)
unfolding count_rows update_rows
count-revoked now node_id [] c = c
count-revoked now node_id (x ∷ xs) c = ground (arith, count-revoked now node_id xs)

abbrev node_step : Env → String → Db → Db
node_step env node_id db = record db {
  edge_nodes = update_rows (is_node node_id) (revoked_node env.now) db.edge_nodes;
}

revoke_identities-effect :
    (env : Env) (node_id : String) (s : Session) (n : ℕ)
    → s.aborted ≡ false
    → (revoke_identities env node_id s).0 ≡ ok n
    → (n ≡ count_rows (live_of node_id) s.db.edge_identities)
      × ((revoke_identities env node_id s).1.aborted ≡ false)
      × ((revoke_identities env node_id s).1.db ≡ record s.db {
        edge_identities =
            update_rows (live_of node_id) (revoked_identity env.now) s.db.edge_identities;
      })
unfolding statement
revoke_identities-effect env node_id s n a h = (ground arith, ground arith, ground arith)

update_node_status-effect :
    (env : Env) (node_id : String) (s : Session) (u : Unit {0})
    → s.aborted ≡ false
    → (update_node_status env node_id s).0 ≡ ok u
    → ((update_node_status env node_id s).1.aborted ≡ false)
      × ((update_node_status env node_id s).1.db ≡ record s.db {
        edge_nodes = update_rows (is_node node_id) (revoked_node env.now) s.db.edge_nodes;
      })
unfolding statement
update_node_status-effect env node_id s u a h = (ground arith, ground arith)

-- A refused audit leaves the transaction aborted.
audit-aborted :
    (env : Env) (node_id reason : String) (s : Session)
    → insert_events (audit_events env node_id reason s.db) s.db ≡ violates event_task_text
    → s.aborted ≡ false
    → (audit env node_id reason s).1.aborted ≡ true
unfolding statement
audit-aborted env node_id reason s e a = ground (arith, e)

-- Where no task has the id of an identity, RevokeNode never succeeds: its audit event names the
-- identity where the table wants a task, and the failed statement takes the transaction with it.
pub revoke_node-fails :
    (env : Env) (node_id reason : String) (s : Session) (u : Unit {0})
    → NoShared s.db
    → (revoke_node env node_id reason s).0 ≢ ok u
unfolding revoke_node
revoke_node-fails env node_id reason s u n h =
    let (k, open_end, d) = with_tx-commits env s (revoke_body env node_id reason) u h in
    let (rows, k₁, p₁) = bind-eq-ok _ (revoke_identities env node_id) (opened s) u k in
    let (r₁, a₁, d₁) = revoke_identities-effect env node_id (opened s) rows refl k₁ in
    let s₁ = (revoke_identities env node_id (opened s)).1 in
    let (_, k₂, p₂) = bind-eq-ok _ (guard (ltb 0 rows) err_identity_revoked) s₁ u (value p₁ k) in
    let (some_row, same) = guard-eq-ok (ltb 0 rows) err_identity_revoked s₁ _ k₂ in
    let s₂ = (guard (ltb 0 rows) err_identity_revoked s₁).1 in
    let (_, k₃, p₃) = bind-eq-ok _ (update_node_status env node_id) s₂ u (value (p₁ ∙ p₂) k) in
    let (a₃, d₃) =
      update_node_status-effect env node_id s₂ _ (ap (λ (t : Session). t.aborted) same ∙ a₁) k₃ in
    let s₃ = (update_node_status env node_id s₂).1 in
    let e : s₃.db ≡ after =
      d₃ ∙ ap (node_step env node_id) (ap (λ (t : Session). t.db) same ∙ d₁) in
    let counted : 0 < count_rows (live_of node_id) s.db.edge_identities =
      ground (arith, r₁, some_row) in
    let stopped =
      no_event env reason (identity_of node_id) after after.edge_identities
        (All-update_rows (λ (r : IdentityRow). find_row (has_id r.id) s.db.tasks ≡ none)
          (live_of node_id) (revoked_identity env.now) s.db.edge_identities (λ x m _. m) n)
        (count-revoked env.now node_id s.db.edge_identities counted) in
    let bad =
      audit-aborted env node_id reason s₃
        (subst
          (λ (db : Db).
            insert_events (audit_events env node_id reason db) db ≡ violates event_task_text)
          (sym e) stopped)
        a₃ in
    let whole = p₁ ∙ p₂ ∙ p₃ in
    absurd
      (opposite (sym open_end ∙ ap (λ (r : Result (Unit {0}) × Session). r.1.aborted) whole ∙ bad))
  where
    opposite : false ≡ true → ⊥
    opposite p = cc

    after : Db
    after = node_step env node_id (record s.db {
      edge_identities =
          update_rows (live_of node_id) (revoked_identity env.now) s.db.edge_identities;
    })

    value : {x y : Result (Unit {0}) × Session} → x ≡ y → x.0 ≡ ok u → y.0 ≡ ok u
    value p h = ap (λ (r : Result (Unit {0}) × Session). r.0) (sym p) ∙ h
