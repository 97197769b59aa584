-- ===== src/Gateway/IdentityCache/Safety.antt =====
-- Whom the cache of internal/gateway/identity_cache.go and the interceptor of auth.go let in.
use ai_edge.Prelude.{
  ℕ, ◌<◌, ◌≡◌, refl, String, Option, none, some, arith, find_row, where_rows, find_row-where_rows,
  Option-cases, ◌⊎◌, inl, inr,
}
use ai_edge.Store.Errors.{ok}
use ai_edge.Store.Schema.{Db, IdentityRow}
use ai_edge.Store.Session.{Env, Session, select_now, autocommit}
use ai_edge.Gateway.IdentityCache.{
  CachedIdentity, Entry, Entries, for_fingerprint, not_for, active_fingerprint, load_from_db, hit,
  or_load, lookup,
}

-- The database has an active identity with the fingerprint.
abbrev pub Active : String → Db → CachedIdentity → Type 0
Active f db i =
    (r : IdentityRow) × (find_row (active_fingerprint f) db.edge_identities ≡ some r)
    × (i.node_id ≡ r.node_id)
    × (i.gateway_id ≡ r.gateway_id)

-- The cache has an entry for the fingerprint that has not expired.
abbrev pub Remembered : Env → String → Entries → CachedIdentity → Type 0
Remembered env f entries i =
    (e : Entry) × (find_row (for_fingerprint f) entries ≡ some e)
    × (e.identity ≡ i)
    × (env.time_now < i.expire_at)

module _ (env : Env) (ttl : ℕ) (f : String) (entries : Entries) (s : Session) (i : CachedIdentity)
    (entries' : Entries) where
  loaded : (load_from_db env ttl f entries s).0 ≡ ok (some i, entries') → Active f s.db i
  unfolding load_from_db select_now autocommit
  loaded h = elim (Option-cases (find_row (active_fingerprint f) s.db.edge_identities)) [
    | inl e ↦ absurd (ground (arith, e))
    | inr (r, e) ↦ (r, e, ground (arith, e), ground (arith, e))
  ]

  or_loaded :
      (c : Option CachedIdentity)
      → (or_load env ttl f entries c s).0 ≡ ok (some i, entries')
      → (c ≡ some i) ⊎ Active f s.db i
  or_loaded (some j) h = inl cc
  or_loaded none h = inr (loaded h)

  hit-Remembered :
      (o : Option Entry)
      → find_row (for_fingerprint f) entries ≡ o
      → hit env o ≡ some i
      → Remembered env f entries i
  hit-Remembered none e h = cc
  hit-Remembered (some x) e h = (x, e, ground arith, ground arith)

  -- An identity that a lookup returns stands in the cache and has not expired, or stands in the
  -- database and is active.
  pub lookup_sound :
      (lookup env ttl f entries s).0 ≡ ok (some i, entries')
      → Remembered env f entries i ⊎ Active f s.db i
  unfolding lookup
  lookup_sound h = elim (or_loaded (hit env (find_row (for_fingerprint f) entries)) h) [
    | inl e ↦ inl (hit-Remembered (find_row (for_fingerprint f) entries) refl e)
    | inr a ↦ inr a
  ]

pub forgotten :
    (f : String) (entries : Entries)
    → find_row (for_fingerprint f) (where_rows (not_for f) entries) ≡ none
forgotten f entries =
    find_row-where_rows (for_fingerprint f) (not_for f) entries (λ x. ground arith)
