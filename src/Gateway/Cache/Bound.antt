-- ===== src/Gateway/Cache/Bound.antt =====
-- How many entries EvictLRU of internal/gateway/cache.go leaves.
use ai_edge.Prelude.{
  ℕ, zero, suc, ◌+◌, ◌≤◌, ◌≡◌, refl, sym, ap, ◌∙◌, String, Bool, true, Option-cases, List, [], ◌∷◌,
  ◌++◌, arith, any_text, eq_refl, take, drop, take-append-drop, where_rows, count_rows, insert_by,
  order_by, inl, inr, All, if◌then◌else◌, length,
}
use ai_edge.Store.Errors.{ok}
use ai_edge.Store.Session.{Env, Session, autocommit}
use ai_edge.Gateway.Cache.{
  CacheEntry, of_gateway, last_used_first, stale_entries, entry_ids, is_left, is_evicted, evict_lru,
}

module _ {A : Type 0} (p : A → Bool) where
  count_rows-insert_by :
      (before : A → A → Bool) (a : A) (xs : List A)
      → count_rows p (insert_by before a xs) ≡ count_rows p (a ∷ xs)
  unfolding count_rows insert_by
  count_rows-insert_by before a [] = refl
  count_rows-insert_by before a (x ∷ xs) = ground (arith, count_rows-insert_by before a xs)

  count_rows-order_by :
      (before : A → A → Bool) (xs : List A) → count_rows p (order_by before xs) ≡ count_rows p xs
  unfolding count_rows order_by
  count_rows-order_by before [] = refl
  count_rows-order_by before (x ∷ xs) =
      count_rows-insert_by before x (order_by before xs)
      ∙ ap (λ n. (if p x then 1 else 0) + n) (count_rows-order_by before xs)

  count_rows-append : (xs ys : List A) → count_rows p (xs ++ ys) ≡ count_rows p xs + count_rows p ys
  unfolding count_rows
  count_rows-append [] ys = omega arith
  count_rows-append (x ∷ xs) ys = omega (arith, count_rows-append xs ys)

  count_rows-take-le : (n : ℕ) (xs : List A) → count_rows p (take n xs) ≤ n
  unfolding count_rows
  count_rows-take-le zero xs = omega arith
  count_rows-take-le (suc n) [] = omega arith
  count_rows-take-le (suc n) (x ∷ xs) = ground (arith, count_rows-take-le n xs)

  -- The rows of a table that meet both tests, counted the other way round.
  count_rows-where_rows :
      (q : A → Bool) (xs : List A) → count_rows q (where_rows p xs) ≡ count_rows p (where_rows q xs)
  unfolding count_rows where_rows
  count_rows-where_rows q [] = refl
  count_rows-where_rows q (x ∷ xs) = ground (arith, count_rows-where_rows q xs)

-- None of the entries whose ids are deleted is left.
none_left :
    (ids : List String) (rows : List CacheEntry)
    → All (λ (r : CacheEntry). any_text r.id ids ≡ true) rows
    → count_rows (is_left ids) rows ≡ 0
unfolding count_rows
none_left ids [] h = refl
none_left ids (r ∷ rows) h = ground (arith, h.0, none_left ids rows h.1)

named_later :
    (x : String) (ids : List String) (rows : List CacheEntry)
    → All (λ (r : CacheEntry). any_text r.id ids ≡ true) rows
    → All (λ (r : CacheEntry). any_text r.id (x ∷ ids) ≡ true) rows
named_later x ids [] h = tt
named_later x ids (r ∷ rows) h = (ground (arith, h.0), named_later x ids rows h.1)

ids_named :
    (rows : List CacheEntry) → All (λ (r : CacheEntry). any_text r.id (entry_ids rows) ≡ true) rows
ids_named [] = tt
ids_named (r ∷ rows) =
    (ground (arith, eq_refl r.id), named_later r.id (entry_ids rows) rows (ids_named rows))

left_bound :
    (max : ℕ) (gateway_id : String) (rows : List CacheEntry)
    → count_rows
        (of_gateway gateway_id)
        (where_rows (is_left (entry_ids (stale_entries max gateway_id rows))) rows)
      ≤ max
unfolding stale_entries
left_bound max gateway_id rows =
    let own = order_by last_used_first (where_rows (of_gateway gateway_id) rows) in
    let left = is_left (entry_ids (drop max own)) in
    let swapped = count_rows-where_rows left (of_gateway gateway_id) rows in
    let sorted =
      count_rows-order_by left last_used_first (where_rows (of_gateway gateway_id) rows) in
    let split =
      count_rows-append left (take max own) (drop max own)
      ∙ ap (λ n. count_rows left (take max own) + n)
          (none_left (entry_ids (drop max own)) (drop max own) (ids_named (drop max own))) in
    let joined = ap (count_rows left) (take-append-drop max own) in
    omega (arith, swapped, sorted, split, joined, count_rows-take-le left max own)

removed_counted :
    (ids : List String) (rows : List CacheEntry)
    → length (where_rows (is_left ids) rows) + count_rows (is_evicted ids) rows ≡ length rows
unfolding where_rows count_rows
removed_counted ids [] = omega arith
removed_counted ids (r ∷ rows) = ground (arith, removed_counted ids rows)

-- An eviction that succeeds leaves the gateway no more entries than the maximum, and its answer is the
-- number of the entries that are gone from the table.
pub evict_lru-bounds :
    (env : Env) (max n : ℕ) (gateway_id : String) (s : Session)
    → (evict_lru env max gateway_id s).0 ≡ ok n
    → (count_rows
          (of_gateway gateway_id)
          (evict_lru env max gateway_id s).1.db.gateway_cache_entries
        ≤ max)
      × (length (evict_lru env max gateway_id s).1.db.gateway_cache_entries + n
          ≡ length s.db.gateway_cache_entries)
unfolding evict_lru autocommit
evict_lru-bounds env max n gateway_id s h =
    let rows = s.db.gateway_cache_entries in
    let ids = entry_ids (stale_entries max gateway_id rows) in
    let count = removed_counted ids rows in
    elim (Option-cases (env.fault s.tick)) [
      | inr (text, e) ↦ absurd (ground (arith, h, e))
      | inl e ↦
          let same : count_rows (is_evicted ids) rows ≡ n = ground (arith, h, e) in
          (
            rw e (left_bound max gateway_id rows),
            rw e (ap (λ k. length (where_rows (is_left ids) rows) + k) (sym same) ∙ count),
          )
    ]
