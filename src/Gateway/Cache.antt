-- ===== src/Gateway/Cache.antt =====
-- internal/gateway/cache.go: the table of the models that a gateway has cached.
pub mod Bound
use ai_edge.Prelude.{
  ℕ, String, Bool, true, false, ◌&&◌, Option, none, some, List, [], ◌∷◌, ◌++◌, ◌==◌, leb, ltb, map,
  drop, if◌then◌else◌, any_text, find_row, where_rows, update_rows, count_rows, order_by, not,
}
use ai_edge.Prelude.Int.{ℤ, pos, negsuc}
use ai_edge.Store.Errors.{wrap}
use ai_edge.Store.Schema.{CacheEntry}
use ai_edge.Store.Session.{Env, Exec, done, on_error, autocommit, select_now}

abbrev pub default_max_cached_versions : ℕ
default_max_cached_versions = 10

-- SetMaxCachedVersions, with the threshold before.
unfoldable pub set_max_cached_versions : ℤ → ℕ → ℕ
set_max_cached_versions (negsuc n) old = old
set_max_cached_versions (pos n) old = if ltb 0 n then n else old

abbrev pub entry_of : (gateway_id model_id version : String) → CacheEntry → Bool
entry_of gateway_id model_id version r =
    r.gateway_id == gateway_id && (r.model_id == model_id && r.version == version)

abbrev pub new_entry : ℕ → (id gateway_id model_id version : String) → (size_bytes : ℤ) → CacheEntry
new_entry now id gateway_id model_id version size_bytes = record {
  id = id;
  gateway_id = gateway_id;
  model_id = model_id;
  version = version;
  cached_at = now;
  last_access_at = now;
  size_bytes = size_bytes;
}

-- INSERT … ON CONFLICT … DO UPDATE SET last_access_at = now()
abbrev pub touched : ℕ → CacheEntry → List CacheEntry → List CacheEntry
touched now new rows = elim (find_row (entry_of new.gateway_id new.model_id new.version) rows) [
  | none ↦ rows ++ new ∷ []
  | some old ↦
      update_rows (entry_of new.gateway_id new.model_id new.version)
        (λ r. record r { last_access_at = now }) rows
]

unfoldable pub touch :
    Env → (gateway_id model_id version : String) → (size_bytes : ℤ) → Exec (Unit {0})
touch env gateway_id model_id version size_bytes = on_error (wrap "cache: touch") (
    autocommit env (λ id db. done tt (record db {
      gateway_cache_entries =
          touched env.now (new_entry env.now id gateway_id model_id version size_bytes)
            db.gateway_cache_entries;
    })))

abbrev pub of_gateway : String → CacheEntry → Bool
of_gateway gateway_id r = r.gateway_id == gateway_id

abbrev pub last_used_first : CacheEntry → CacheEntry → Bool
last_used_first a b = leb b.last_access_at a.last_access_at

-- The entries of the inner SELECT.
unfoldable pub stale_entries : ℕ → String → List CacheEntry → List CacheEntry
stale_entries max gateway_id rows =
    drop max (order_by last_used_first (where_rows (of_gateway gateway_id) rows))

abbrev pub entry_ids : List CacheEntry → List String
entry_ids = map (λ (r : CacheEntry). r.id)

abbrev pub is_evicted : List String → CacheEntry → Bool
is_evicted ids r = any_text r.id ids

abbrev pub is_left : List String → CacheEntry → Bool
is_left ids r = not (any_text r.id ids)

-- The count is the entries that were removed.
unfoldable pub evict_lru : Env → (max : ℕ) → (gateway_id : String) → Exec ℕ
evict_lru env max gateway_id = on_error (wrap "cache: evict") (
    autocommit env (λ fresh db.
      done
        (count_rows (is_evicted (entry_ids (stale_entries max gateway_id db.gateway_cache_entries)))
          db.gateway_cache_entries)
        (record db {
          gateway_cache_entries =
              where_rows
                (is_left (entry_ids (stale_entries max gateway_id db.gateway_cache_entries)))
                db.gateway_cache_entries;
        })))

abbrev pub is_some {ℓ} : {A : Type ℓ} → Option A → Bool
is_some none = false
is_some (some a) = true

unfoldable pub exists : Env → (gateway_id model_id version : String) → Exec Bool
exists env gateway_id model_id version = on_error (wrap "cache: exists") (
    select_now env
      (λ db. is_some (find_row (entry_of gateway_id model_id version) db.gateway_cache_entries)))

unfoldable pub list_by_gateway : Env → String → Exec (List CacheEntry)
list_by_gateway env gateway_id = on_error (wrap "cache: list") (
    select_now env (λ db.
      order_by last_used_first (where_rows (of_gateway gateway_id) db.gateway_cache_entries)))
