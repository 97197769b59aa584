-- ===== src/Model/Registry.antt =====
-- CreateModel and GetModel of internal/model/service.go, one after the other.
use ai_edge.Prelude.{
  ◌≡◌, refl, sym, ap, ◌∙◌, Bool, false, none, some, [], ◌∷◌, ◌++◌, arith, ◌==◌, eq_refl, find_row,
  find_row-none_imp, find_row-append, Bool-cases, Option-cases, inl, inr,
}
use ai_edge.Store.Errors.{ok}
use ai_edge.Store.Schema.{Db, ModelRow}
use ai_edge.Store.Session.{Env, Session, autocommit, select_now}
use ai_edge.Store.Transactions.{IsQuiet, Result-cases}
use ai_edge.Model.Store.{
  model_clash, model_has_id, model_named, new_model, create_model, scan_model, get_model_by_id,
  get_model_by_name,
}
use ai_edge.Model.Service.{
  CreateModelRequest, ModelMessage, requested_model, model_to_proto, create_model_handler,
  get_model_handler,
}

-- What a registration leaves: the request names a model, and its row is new.
abbrev pub Registered : Env → CreateModelRequest → Db → ModelMessage → Db → Type 0
Registered env req db m db' =
    ((req.name == "") ≡ false)
    × ((req.version == "") ≡ false)
    × (find_row (model_clash (new_model env.now m.id (requested_model req))) db.models ≡ none)
    × (m ≡ model_to_proto (new_model env.now m.id (requested_model req)))
    × (db' ≡ record db { models = db.models ++ new_model env.now m.id (requested_model req) ∷ [] })

create_model-effect :
    (env : Env) (row : ModelRow) (s : Session) (made : ModelRow)
    → (create_model env row s).0 ≡ ok made
    → (find_row (model_clash (new_model env.now made.id row)) s.db.models ≡ none)
      × (made ≡ new_model env.now made.id row)
      × ((create_model env row s).1.db
          ≡ record s.db { models = s.db.models ++ new_model env.now made.id row ∷ [] })
unfolding create_model autocommit
create_model-effect env row s made h =
    elim (Option-cases
      (find_row (model_clash (new_model env.now (env.uuid s.tick) row)) s.db.models)) [
        | inr (old, e) ↦ absurd (ground (arith, e))
        | inl e ↦ (ground (arith, e), ground (arith, e), ground (arith, e))
      ]

create_model_handler-effect :
    (env : Env) (req : CreateModelRequest) (s : Session) (m : ModelMessage)
    → (create_model_handler env req s).0 ≡ ok m
    → Registered env req s.db m (create_model_handler env req s).1.db
unfolding create_model_handler model_to_proto
create_model_handler-effect env req s m h = elim (Bool-cases (req.name == "")) [
  | inl e ↦ absurd (ground (arith, e))
  | inr name ↦ elim (Bool-cases (req.version == "")) [
    | inl e ↦ absurd (ground (arith, name, e))
    | inr version ↦ elim (Bool-cases (req.artifact_uri == "")) [
      | inl e ↦ absurd (ground (arith, name, version, e))
      | inr uri ↦ elim (Result-cases (create_model env (requested_model req) s).0) [
        | inl (e, k) ↦ absurd (ground (arith, name, version, uri, k))
        | inr (made, k) ↦
            let (free, e, d) = create_model-effect env (requested_model req) s made k in
            let p : m ≡ model_to_proto made = ground (arith, name, version, uri, k) in
            let same : m.id ≡ made.id = ap (λ (x : ModelMessage). x.id) p in
            let t : (create_model_handler env req s).1.db
                ≡ (create_model env (requested_model req) s).1.db =
              ground (arith, name, version, uri, k) in
            (
              name,
              version,
              rw same free,
              p
                  ∙ ap model_to_proto e
                  ∙ ap (λ id. model_to_proto (new_model env.now id (requested_model req)))
                      (sym same),
              t ∙ rw same d,
            )
      ]
    ]
  ]
]

scan_model_quiet :
    (env : Env) (p : ModelRow → Bool) (s : Session) (row : ModelRow)
    → IsQuiet env
    → find_row p s.db.models ≡ some row
    → (scan_model env p s).0 ≡ ok row
unfolding scan_model select_now autocommit
scan_model_quiet env p s row q e = rw (q s.tick) (rw e refl)

-- A model that was registered under an id that is not empty is the answer to GetModel, by its id and by
-- its name and version, if the statements of that call reach the database.
pub get_model-create_model :
    (env env' : Env) (req : CreateModelRequest) (s : Session) (m : ModelMessage)
    → IsQuiet env'
    → (m.id == "") ≡ false
    → (create_model_handler env req s).0 ≡ ok m
    → ((get_model_handler env'
          (record { id = m.id; name = ""; version = "" })
          (create_model_handler env req s).1).0
        ≡ ok m)
      × ((get_model_handler env'
            (record { id = ""; name = req.name; version = req.version })
            (create_model_handler env req s).1).0
          ≡ ok m)
unfolding get_model_handler get_model_by_id get_model_by_name
get_model-create_model env env' req s m q named h =
    let (name, version, free, p, d) = create_model_handler-effect env req s m h in
    let s' = (create_model_handler env req s).1 in
    let row = new_model env.now m.id (requested_model req) in
    let by_id =
      ap (λ (db : Db). find_row (model_has_id m.id) db.models) d
      ∙ find_row-append (model_has_id m.id) s.db.models row
          (find_row-none_imp (model_clash row) (model_has_id m.id) s.db.models (λ x e. ground arith)
            free)
          (eq_refl m.id) in
    let by_name =
      ap (λ (db : Db). find_row (model_named req.name req.version) db.models) d
      ∙ find_row-append (model_named req.name req.version) s.db.models row
          (find_row-none_imp (model_clash row) (model_named req.name req.version) s.db.models
            (λ x e. ground arith) free)
          (ground (arith, eq_refl req.name, eq_refl req.version)) in
    let found = scan_model_quiet env' (model_has_id m.id) s' row q by_id in
    let found' = scan_model_quiet env' (model_named req.name req.version) s' row q by_name in
    (rw named (rw found (ap ok (sym p))), rw name (rw version (rw found' (ap ok (sym p)))))
