-- ===== src/Onboarding/Counts.antt =====
-- How often bootstrap tokens are used, over any sequence of the requests of
-- internal/onboarding/token_grpc.go and onboarding_grpc.go that write their table.
use ai_edge.Prelude.{
  ℕ, zero, suc, ◌≡◌, refl, sym, ap, subst, ◌∙◌, String, Bool, true, false, not, Option, none, some,
  List, [], ◌∷◌, ◌++◌, arith, ◌==◌, eq_iff, eq_refl, find_row, update_rows, Bool-cases, inl, inr,
  if◌then◌else◌, All, All-append, All-update_rows, All-find_row,
}
use ai_edge.Prelude.Int.{ℤ, pos, negsuc, leb_ℤ}
use ai_edge.Store.Errors.{Error, grpc}
use ai_edge.Proto.{invalid_argument}
use ai_edge.Store.Schema.{Db, TokenRecord}
use ai_edge.Store.Session.{Env, Session}
use ai_edge.Store.Keeps.{
  Keeps, Leaves, Keeps-guard, Keeps-pure, Keeps-raise, Keeps-on_error, Keeps-autocommit, Keeps-bind,
}
use ai_edge.Store.Transactions.{Result-cases}
use ai_edge.Onboarding.Tokens.{
  TokenTools, token_has_id, has_hash, found_token, use_token, insert_unless, with_status, create,
  uses_or_default, lifetime, update_status, CreateTokenRequest, create_bootstrap_token,
  freeze_bootstrap_token, revoke_bootstrap_token, token_err_to_status, drawn,
}
use ai_edge.Onboarding.Bootstrap.{Signer, BootstrapInput, bootstrap, bootstrap_handler}
use ai_edge.Onboarding.Bootstrap.Effects.{bootstrap-effect, bootstrap-atomic}

abbrev Other : TokenRecord → TokenRecord → Type 0
Other x y = (y.id == x.id) ≡ false

-- The primary key.
abbrev pub Distinct : List TokenRecord → Type 0
Distinct [] = Unit
Distinct (x ∷ xs) = All (Other x) xs × Distinct xs

abbrev pub Within : TokenRecord → Type 0
Within r = leb_ℤ (pos r.used_count) r.max_uses ≡ true

abbrev pub TokensOk : Db → Type 0
TokensOk db = Distinct db.bootstrap_tokens × All Within db.bootstrap_tokens

module _ (p : TokenRecord → Bool) (f : TokenRecord → TokenRecord)
    (keep : (x : TokenRecord) → (f x).id ≡ x.id) where
  Distinct-update_rows : (xs : List TokenRecord) → Distinct xs → Distinct (update_rows p f xs)
  unfolding update_rows
  Distinct-update_rows [] h = tt
  Distinct-update_rows (x ∷ xs) h =
      let same : (if p x then f x else x).id ≡ x.id = ground (arith, keep x) in
      (
        subst (λ (i : String). All (λ (y : TokenRecord). (y.id == i) ≡ false) (update_rows p f xs))
            (sym same)
            (All-update_rows (Other x) p f xs (λ y o _. ap (λ (i : String). i == x.id) (keep y) ∙ o)
              h.0),
        Distinct-update_rows xs h.1,
      )

none-Other :
    (id : String) (xs : List TokenRecord)
    → find_row (token_has_id id) xs ≡ none
    → All (λ x. (x.id == id) ≡ false) xs
unfolding find_row
none-Other id [] h = tt
none-Other id (x ∷ xs) h = ground (arith, none-Other id xs)

apart_sym : (a b : String) → (a == b) ≡ false → (b == a) ≡ false
apart_sym a b h = elim (Bool-cases (b == a)) [
  | inl e ↦ absurd (ground (arith, eq_iff b a, eq_refl a))
  | inr e ↦ e
]

Distinct-append :
    (xs : List TokenRecord) (z : TokenRecord)
    → All (λ x. (x.id == z.id) ≡ false) xs
    → Distinct xs
    → Distinct (xs ++ z ∷ [])
Distinct-append [] z n h = (tt, tt)
Distinct-append (x ∷ xs) z n h =
    let apart = apart_sym x.id z.id n.0 in
    (All-append (Other x) xs (z ∷ []) h.0 (apart, tt), Distinct-append xs z n.1 h.1)

others-update_rows :
    (f : TokenRecord → TokenRecord) (id : String) (xs : List TokenRecord)
    → All (λ x. (x.id == id) ≡ false) xs
    → update_rows (token_has_id id) f xs ≡ xs
unfolding update_rows
others-update_rows f id [] h = refl
others-update_rows f id (x ∷ xs) h = ground (arith, others-update_rows f id xs h.1)

module _ (now : ℕ) where
  Within-use_one :
      (r : TokenRecord) → leb_ℤ r.max_uses (pos r.used_count) ≡ false → Within (use_token now r)
  Within-use_one r h = ground arith

  -- Among distinct tokens the statement changes the one that was found.
  Within-use :
      (p : TokenRecord → Bool) (xs : List TokenRecord) (a : TokenRecord)
      → Distinct xs
      → find_row p xs ≡ some a
      → leb_ℤ a.max_uses (pos a.used_count) ≡ false
      → All Within xs
      → All Within (update_rows (token_has_id a.id) (use_token now) xs)
  unfolding update_rows find_row
  Within-use p [] a d e h w = tt
  Within-use p (x ∷ xs) a d e h w = elim (Bool-cases (p x)) [
    | inl hit ↦
        let here : some x ≡ some a = ground (arith, hit) in
        let same : x ≡ a = cc in
        let own : (x.id == a.id) ≡ true =
          (eq_iff x.id a.id).1 (ap (λ (r : TokenRecord). r.id) same) in
        let left =
          subst (λ (r : TokenRecord). leb_ℤ r.max_uses (pos r.used_count) ≡ false) (sym same) h in
        let rest =
          others-update_rows (use_token now) a.id xs
            (subst (λ (r : TokenRecord). All (Other r) xs) same d.0) in
        rw own (Within-use_one x left, subst (All Within) (sym rest) w.1)
    | inr miss ↦
        let there : find_row p xs ≡ some a = ground (arith, miss) in
        let far = apart_sym a.id x.id (All-find_row (Other x) p xs a d.0 there) in
        rw far (w.0, Within-use p xs a d.1 there h w.1)
  ]

insert-Leaves :
    (same_id same_hash : Option TokenRecord) (new : TokenRecord) (db : Db)
    → find_row (token_has_id new.id) db.bootstrap_tokens ≡ same_id
    → Within new
    → TokensOk db
    → Leaves TokensOk (insert_unless same_id same_hash new db)
insert-Leaves (some old) same_hash new db e w h = tt
insert-Leaves none (some old) new db e w h = tt
insert-Leaves none none new db e w h = (
  Distinct-append db.bootstrap_tokens new (none-Other new.id db.bootstrap_tokens e) h.0,
  All-append Within db.bootstrap_tokens (new ∷ []) h.1 (w, tt),
)

positive_uses : (n : ℤ) → leb_ℤ (pos 0) (uses_or_default n) ≡ true
unfolding uses_or_default
positive_uses (negsuc n) = refl
positive_uses (pos zero) = refl
positive_uses (pos (suc n)) = ground arith

Keeps-found_token : (o : Option TokenRecord) → Keeps TokensOk (found_token o)
Keeps-found_token none = Keeps-raise _
Keeps-found_token (some r) = Keeps-pure r

Keeps-drawn : (fresh : Option String) (e : Error) → Keeps TokensOk (drawn fresh e)
Keeps-drawn none e = Keeps-raise _
Keeps-drawn (some plain) e = Keeps-pure plain

Keeps-create :
    (env : Env) (tools : TokenTools) (req : CreateTokenRequest)
    → Keeps TokensOk (create_bootstrap_token env tools req)
unfolding create_bootstrap_token create
Keeps-create env tools req = Keeps-bind _ _ (Keeps-guard _ _) (λ _.
    Keeps-bind _ _
      (Keeps-on_error _
        (create env tools req.gateway_id req.description req.labels (uses_or_default req.max_uses)
          (lifetime req.expires_in_seconds))
        (Keeps-bind _ _ (Keeps-drawn tools.fresh tools.read_error) (λ plain.
          Keeps-bind _ _
            (Keeps-on_error _ _ (
              Keeps-autocommit env _
                (λ id db h. insert-Leaves _ _ _ db refl (positive_uses req.max_uses) h)))
            (λ rec. Keeps-pure (rec, plain)))))
      (λ a. Keeps-pure a))

Keeps-update_status :
    (env : Env) (id status : String) → Keeps TokensOk (update_status env id status)
unfolding update_status
Keeps-update_status env id status =
    Keeps-bind _ _
      (Keeps-on_error _ _ (
        Keeps-autocommit env _ (λ id' db h. (
          Distinct-update_rows (token_has_id id) (with_status env.now status) (λ x. refl)
              db.bootstrap_tokens h.0,
          All-update_rows Within (token_has_id id) (with_status env.now status) db.bootstrap_tokens
              (λ x w _. w) h.1,
        ))))
      Keeps-found_token

module _ (env : Env) (tools : TokenTools) (signer : Signer) (input : BootstrapInput) where
  bootstrap-Keeps : Keeps TokensOk (bootstrap env tools signer input)
  bootstrap-Keeps = record {
    at = λ s h. elim (Result-cases (bootstrap env tools signer input s).0) [
      | inl (e, k) ↦ subst TokensOk (sym (bootstrap-atomic env tools signer input s e k)) h
      | inr (out, k) ↦
          let (token, signed, identity_id, found, fits, _, _, _, d) =
            bootstrap-effect env tools signer input s out k in
          let (_, _, _, left, _) = fits in
          subst TokensOk (sym d) (
            Distinct-update_rows (token_has_id token.id) (use_token env.now) (λ x. refl)
                s.db.bootstrap_tokens h.0,
            Within-use env.now (has_hash (tools.hash input.token)) s.db.bootstrap_tokens token h.0
                found left h.1,
          )
    ];
  }

-- The requests that write the table of tokens.
pub data TokenCall : Type 0 where
  create_call : CreateTokenRequest → TokenCall
  freeze_call revoke_call : (id : String) → TokenCall
  register_call : BootstrapInput → TokenCall

module _ (tools : TokenTools) (signer : Signer) where
  abbrev pub serve : Env → TokenCall → Session → Session
  serve env (create_call req) s = (create_bootstrap_token env tools req s).1
  serve env (freeze_call id) s = (freeze_bootstrap_token env id s).1
  serve env (revoke_call id) s = (revoke_bootstrap_token env id s).1
  serve env (register_call input) s = (bootstrap_handler env tools signer input s).1

  abbrev pub serve_all : List (Env × TokenCall) → Session → Session
  serve_all [] s = s
  serve_all ((env, call) ∷ calls) s = serve_all calls (serve env call s)

  Keeps-handler :
      (env : Env) (input : BootstrapInput)
      → Keeps TokensOk (bootstrap_handler env tools signer input)
  unfolding bootstrap_handler
  Keeps-handler env input =
      Keeps-bind _ _
        (Keeps-guard (not (input.token == "")) (grpc invalid_argument "token is required"))
        (λ _.
          Keeps-bind _ _
            (Keeps-guard (not (input.gateway_id == ""))
              (grpc invalid_argument "gateway_id is required"))
            (λ _. bootstrap-Keeps env tools signer input))

  serve-TokensOk :
      (env : Env) (call : TokenCall) (s : Session) → TokensOk s.db → TokensOk (serve env call s).db
  unfolding freeze_bootstrap_token revoke_bootstrap_token
  serve-TokensOk env (create_call req) s h = (Keeps-create env tools req).at s h
  serve-TokensOk env (freeze_call id) s h =
      (Keeps-bind _ _ (Keeps-guard _ _)
          (λ _. Keeps-on_error token_err_to_status _ (Keeps-update_status env id "Frozen"))).at
        s h
  serve-TokensOk env (revoke_call id) s h =
      (Keeps-bind _ _ (Keeps-guard _ _)
          (λ _. Keeps-on_error token_err_to_status _ (Keeps-update_status env id "Revoked"))).at
        s h
  serve-TokensOk env (register_call input) s h = (Keeps-handler env input).at s h

  -- Through any sequence of requests, whichever statements fail, tokens keep distinct ids and no
  -- token is used more often than its maximum.
  pub serve_all-TokensOk :
      (calls : List (Env × TokenCall)) (s : Session)
      → TokensOk s.db
      → TokensOk (serve_all calls s).db
  serve_all-TokensOk [] s h = h
  serve_all-TokensOk ((env, call) ∷ calls) s h =
      serve_all-TokensOk calls (serve env call s) (serve-TokensOk env call s h)
