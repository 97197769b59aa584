-- ===== src/Gateway/AdminAuth/Access.antt =====
-- Whom the interceptor of internal/gateway/admin_auth.go lets through.
use ai_edge.Prelude.{
  ◌≡◌, ◌≢◌, ◌↔◌, ◌⊎◌, refl, ap, ◌∙◌, String, concat, true, false, Option, none, some, List, [], ◌∷◌,
  map, arith, ◌==◌, eq_iff, any_text, AllDistinct, Bool-cases, inl, inr,
}
use ai_edge.Store.Errors.{Result, ok, err}
use ai_edge.Gateway.AdminAuth.{
  AdminAuthConfig, Cut, bearer_token, extract_bearer_token, validate_static_token, admitted,
  authorized, admin_auth,
}

-- A prefix is cut off a text exactly when the text is the prefix with the rest after it.
abbrev pub IsCut : Cut → Type 0
IsCut cut =
    (text prefix rest : String) → (cut text prefix ≡ some rest) ↔ (text ≡ concat prefix rest)

-- The configuration has the token, for the subject.
abbrev pub Grants : List (String × String) → (token subject : String) → Type 0
Grants [] token subject = ⊥
Grants ((t, x) ∷ rest) token subject = ((t ≡ token) × (x ≡ subject)) ⊎ Grants rest token subject

abbrev pub token_names : List (String × String) → List String
token_names = map (λ (p : String × String). p.0)

-- The first authorization header is `Bearer` with a token that the configuration has.
abbrev pub Presents : List (String × String) → Option (List String) → (subject : String) → Type 0
Presents tokens metadata subject =
    (token : String) × (others : List String) × (metadata ≡ some (concat "Bearer " token ∷ others))
    × (token ≢ "")
    × Grants tokens token subject

Grants-named :
    (tokens : List (String × String)) (token subject : String)
    → Grants tokens token subject
    → any_text token (token_names tokens) ≡ true
Grants-named [] token subject g = elim g [ ]
Grants-named ((t, x) ∷ rest) token subject (inl (same, _)) = ground (arith, (eq_iff t token).1 same)
Grants-named ((t, x) ∷ rest) token subject (inr g) =
    ground (arith, Grants-named rest token subject g)

validate_sound :
    (tokens : List (String × String)) (token subject : String)
    → validate_static_token tokens token ≡ some subject
    → Grants tokens token subject
unfolding validate_static_token
validate_sound [] token subject h = cc
validate_sound ((t, x) ∷ rest) token subject h = elim (Bool-cases (t == token)) [
  | inl e ↦ inl ((eq_iff t token).0 e, ground (arith, h, e))
  | inr e ↦ inr (validate_sound rest token subject (ground (arith, h, e)))
]

validate_complete :
    (tokens : List (String × String)) (token subject : String)
    → AllDistinct (token_names tokens)
    → Grants tokens token subject
    → validate_static_token tokens token ≡ some subject
unfolding validate_static_token
validate_complete [] token subject d g = elim g [ ]
validate_complete ((t, x) ∷ rest) token subject d (inl (same, e)) =
    ground (arith, (eq_iff t token).1 same, ap (λ (y : String). some y) e)
validate_complete ((t, x) ∷ rest) token subject d (inr g) = elim (Bool-cases (t == token)) [
  | inr e ↦ ground (arith, e, validate_complete rest token subject d.1 g)
  | inl e ↦
      let named : any_text t (token_names rest) ≡ true =
        rw ((eq_iff t token).0 e) (Grants-named rest token subject g) in
      absurd (ground (arith, named, d.0))
]

bearer_sound :
    (cut : Cut) (metadata : Option (List String)) (token : String)
    → IsCut cut
    → extract_bearer_token cut metadata ≡ ok token
    → (others : List String) × (metadata ≡ some (concat "Bearer " token ∷ others)) × (token ≢ "")
unfolding extract_bearer_token
bearer_sound cut none token c h = cc
bearer_sound cut (some []) token c h = cc
bearer_sound cut (some (auth ∷ others)) token c h = by_cut (cut auth "Bearer ") refl h
  where
    by_cut :
        (o : Option String)
        → cut auth "Bearer " ≡ o
        → bearer_token o ≡ ok token
        → (others' : List String) × (some (auth ∷ others) ≡ some (concat "Bearer " token ∷ others'))
          × (token ≢ "")
    by_cut none e h = cc
    by_cut (some t) e h = elim (Bool-cases (t == "")) [
      | inl empty ↦ absurd (ground (arith, h, empty))
      | inr filled ↦
          let same : t ≡ token = ground (arith, h, filled) in
          (
            others,
            ap (λ a. some (a ∷ others)) ((c auth "Bearer " t).0 e ∙ ap (concat "Bearer ") same),
            λ n. ground (arith, filled, (eq_iff t "").1 (same ∙ n)),
          )
    ]

-- Where a prefix is cut off as strings.TrimPrefix does and the tokens of the configuration differ: a
-- call of a method that is not skipped reaches its handler with a subject exactly when its first
-- authorization header is `Bearer` with a token that is not empty and that the configuration has for
-- that subject.
pub admin_auth_iff :
    (cut : Cut) (cfg : AdminAuthConfig) (method : String) (metadata : Option (List String))
    (subject : String)
    → IsCut cut
    → AllDistinct (token_names cfg.static_tokens)
    → any_text method cfg.skip_methods ≡ false
    → (admin_auth cut cfg method metadata ≡ ok (some subject))
      ↔ Presents cfg.static_tokens metadata subject
unfolding admin_auth extract_bearer_token
admin_auth_iff cut cfg method metadata subject c d skip = (to, from)
  where
    by_token :
        (r : Result String)
        → authorized cfg.static_tokens r ≡ ok (some subject)
        → (token : String) × (r ≡ ok token)
          × (validate_static_token cfg.static_tokens token ≡ some subject)
    by_token (err e) h = cc
    by_token (ok token) h =
        (token, refl, by_answer (validate_static_token cfg.static_tokens token) h)
      where
        by_answer : (o : Option String) → admitted o ≡ ok (some subject) → o ≡ some subject
        by_answer none h = cc
        by_answer (some x) h = cc

    to :
        admin_auth cut cfg method metadata ≡ ok (some subject)
        → Presents cfg.static_tokens metadata subject
    to h =
        let (token, e, v) =
          by_token (extract_bearer_token cut metadata) (ground (arith, h, skip)) in
        let (others, m, n) = bearer_sound cut metadata token c e in
        (token, others, m, n, validate_sound cfg.static_tokens token subject v)

    from :
        Presents cfg.static_tokens metadata subject
        → admin_auth cut cfg method metadata ≡ ok (some subject)
    from (token, others, m, n, g) =
        let head = (c (concat "Bearer " token) "Bearer " token).1 refl in
        let v = validate_complete cfg.static_tokens token subject d g in
        let filled : (token == "") ≡ false = ground (arith, n, eq_iff token "") in
        rw m (rw skip (rw head (rw filled (rw v refl))))
