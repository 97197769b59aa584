-- ===== src/Gateway/IdentityCache/History.antt =====
-- The cache of internal/gateway/identity_cache.go over a history of lookups, of events about identities
-- and of refreshes by the monitor of autonomy.go.
use ai_edge.Prelude.{
  ℕ, ◌+◌, ◌<◌, ◌≡◌, String, Bool, true, false, ◌&&◌, some, List, [], ◌∷◌, ◌==◌, find_row, ◌⊎◌,
}
use ai_edge.Proto.{
  IdentityEventType, event_unspecified, event_revoked, event_renewed, event_suspended,
  unknown_event,
}
use ai_edge.Store.Errors.{Result, ok, err}
use ai_edge.Store.Session.{Env, Session}
use ai_edge.Gateway.IdentityCache.{
  CachedIdentity, Entry, Entries, Answer, for_fingerprint, lookup, IdentityEvent,
  handle_identity_event, refresh_identities,
}
use ai_edge.Gateway.IdentityCache.Safety.{Active}

-- What happens to the cache: a lookup, with the time and the tables that it meets, an event, or a
-- refresh.
pub data Happening : Type 0 where
  looked : Env → (fingerprint : String) → Session → Happening
  notified : IdentityEvent → Happening
  refreshed : Happening

abbrev after_answer : Entries → Result Answer → Entries
after_answer entries (ok a) = a.1
after_answer entries (err e) = entries

-- The newest is the first.
abbrev pub entries_after : (ttl : ℕ) → List Happening → Entries
entries_after ttl [] = []
entries_after ttl (looked env f s ∷ older) =
    let entries = entries_after ttl older in after_answer entries (lookup env ttl f entries s).0
entries_after ttl (notified req ∷ older) = handle_identity_event req (entries_after ttl older)
entries_after ttl (refreshed ∷ older) = refresh_identities (entries_after ttl older)

abbrev ends_trust : IdentityEventType → Bool
ends_trust event_unspecified = false
ends_trust event_revoked = true
ends_trust event_renewed = true
ends_trust event_suspended = true
ends_trust (unknown_event n) = false

-- Since the last revocation, suspension or renewal of the fingerprint and the last refresh, a lookup
-- less than the time to live before `now` met the tables with the identity active.
abbrev pub SeenActive : (ttl now : ℕ) → String → CachedIdentity → List Happening → Type 0
SeenActive ttl now f i [] = ⊥
SeenActive ttl now f i (looked env g s ∷ older) =
    ((g ≡ f) × (now < env.time_now + ttl) × Active f s.db i) ⊎ SeenActive ttl now f i older
SeenActive ttl now f i (notified req ∷ older) =
    (((req.fingerprint == f && ends_trust req.event_type) ≡ false) × SeenActive ttl now f i older)
SeenActive ttl now f i (refreshed ∷ older) = ⊥

-- Each entry that has not expired was seen.
abbrev Seen : (ttl : ℕ) → List Happening → Entries → Type 0
Seen ttl history entries =
    (f : String) (e : Entry) (now : ℕ)
    → find_row (for_fingerprint f) entries ≡ some e
    → now < e.identity.expire_at
    → SeenActive ttl now f e.identity history
