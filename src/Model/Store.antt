-- ===== src/Model/Store.antt =====
-- internal/model/store.go: the statements on the table models.
use ai_edge.Prelude.{
  ℕ, String, Bool, ◌&&◌, ◌||◌, none, some, List, [], ◌∷◌, ◌++◌, ◌==◌, leb, find_row, where_rows,
  count_rows, order_by,
}
use ai_edge.Prelude.Int.{ℤ}
use ai_edge.Pages.{clamp_limit, page_rows}
use ai_edge.Store.Errors.{wrap}
use ai_edge.Store.Schema.{Db, ModelRow}
use ai_edge.Store.Session.{
  Env, Exec, Outcome, done, violates, pure, ◌>>=◌, on_error, or_not_found, autocommit, select_now,
}

-- The primary key, and UNIQUE (name, version).
abbrev pub model_clash : ModelRow → ModelRow → Bool
model_clash new r = r.id == new.id || (r.name == new.name && r.version == new.version)

abbrev pub new_model : ℕ → String → ModelRow → ModelRow
new_model now id row = record row { id = id; created_at = now }

-- Only this part of the text is read, whichever constraint it names.
abbrev pub model_key_text : String
model_key_text = "pq: duplicate key value violates unique constraint \"models_name_version_key\""

abbrev pub insert_model : ℕ → ModelRow → String → Db → Outcome ModelRow
insert_model now row id db = elim (find_row (model_clash (new_model now id row)) db.models) [
  | some old ↦ violates model_key_text
  | none ↦
      done (new_model now id row) (record db { models = db.models ++ new_model now id row ∷ [] })
]

unfoldable pub create_model : Env → ModelRow → Exec ModelRow
create_model env row = autocommit env (insert_model env.now row)

abbrev pub model_has_id : String → ModelRow → Bool
model_has_id id r = r.id == id

abbrev pub model_named : (name version : String) → ModelRow → Bool
model_named name version r = r.name == name && r.version == version

-- scanOne
unfoldable pub scan_model : Env → (ModelRow → Bool) → Exec ModelRow
scan_model env p = do
  found ← on_error (wrap "model: get") (select_now env (λ db. find_row p db.models))
  or_not_found found

unfoldable pub get_model_by_id : Env → String → Exec ModelRow
get_model_by_id env id = scan_model env (model_has_id id)

unfoldable pub get_model_by_name : Env → (name version : String) → Exec ModelRow
get_model_by_name env name version = scan_model env (model_named name version)

pub record ModelListFilter : Type 0 where
  pub name : String
  pub format : String
  pub limit : ℤ
  pub offset : ℤ

abbrev pub in_model_filter : ModelListFilter → ModelRow → Bool
in_model_filter f r = (f.name == "" || r.name == f.name) && (f.format == "" || r.format == f.format)

abbrev pub newest_model : ModelRow → ModelRow → Bool
newest_model a b = leb b.created_at a.created_at

unfoldable pub list_models : Env → ModelListFilter → Exec (List ModelRow × ℕ)
list_models env f = do
  total ←
      on_error (wrap "model: list count")
        (select_now env (λ db. count_rows (in_model_filter f) db.models))
  rows ← on_error (wrap "model: list") (
      autocommit env (λ id db.
        page_rows (clamp_limit f.limit) f.offset
          (order_by newest_model (where_rows (in_model_filter f) db.models)) db))
  pure (rows, total)
