-- ===== src/Store/Atomic.antt =====
-- Actions that change no table where they end in an error, and actions that change none at all.
use ai_edge.Prelude.{◌≡◌, refl, ◌∙◌, String, Bool, true, false, Option, none, some}
use ai_edge.Store.Errors.{Error, Result, ok, err}
use ai_edge.Store.Schema.{Db}
use ai_edge.Store.Session.{
  Env, Session, Exec, done, pure, raise, guard, continue, ◌>>=◌, on_error, or_not_found, send,
  autocommit, select_now, with_tx,
}
use ai_edge.Store.Transactions.{with_tx-atomic}

module _ {ℓ} {A : Type ℓ} where
  pub record IsReadOnly (m : Exec A) : Type ℓ where
    pub reads : (s : Session) → (m s).1.db ≡ s.db

  pub record IsAtomic (m : Exec A) : Type ℓ where
    pub reverts : (s : Session) (e : Error) → (m s).0 ≡ err e → (m s).1.db ≡ s.db

  pub ReadOnly→Atomic : {m : Exec A} → IsReadOnly m → IsAtomic m
  ReadOnly→Atomic r = record { reverts = λ s e h. r.reads s }

  pub pure-IsReadOnly : (a : A) → IsReadOnly (pure a)
  pure-IsReadOnly a = record { reads = λ s. refl }

  pub raise-IsReadOnly : (e : Error) → IsReadOnly (raise {A = A} e)
  raise-IsReadOnly e = record { reads = λ s. refl }

  pub or_not_found-IsReadOnly : (o : Option A) → IsReadOnly (or_not_found o)
  or_not_found-IsReadOnly none = record { reads = λ s. refl }
  or_not_found-IsReadOnly (some a) = record { reads = λ s. refl }

  pub on_error-IsReadOnly :
      (f : Error → Error) (m : Exec A) → IsReadOnly m → IsReadOnly (on_error f m)
  on_error-IsReadOnly f m r = record { reads = λ s. r.reads s }

  on_error-reverts :
      (f : Error → Error) (r : Result A × Session) (db : Db) (e : Error)
      → ((e' : Error) → r.0 ≡ err e' → r.1.db ≡ db)
      → (on_error f (λ _. r) r.1).0 ≡ err e
      → r.1.db ≡ db
  on_error-reverts f (ok a, t) db e k h = cc
  on_error-reverts f (err e', t) db e k h = k e' refl

  pub on_error-IsAtomic : (f : Error → Error) (m : Exec A) → IsAtomic m → IsAtomic (on_error f m)
  on_error-IsAtomic f m k = record {
    reverts = λ s e h. on_error-reverts f (m s) s.db e (k.reverts s) h;
  }

  send-reads : (f : Option String) (a : A) (s : Session) → (send f (done a s.db) s).1.db ≡ s.db
  send-reads none a s = refl
  send-reads (some text) a s = refl

  pub select_now-IsReadOnly : (env : Env) (q : Db → A) → IsReadOnly (select_now env q)
  unfolding select_now autocommit
  select_now-IsReadOnly env q = record { reads = λ s. send-reads (env.fault s.tick) (q s.db) s }

  pub with_tx-IsAtomic : (env : Env) (body : Exec A) → IsAtomic (with_tx env body)
  with_tx-IsAtomic env body = record { reverts = λ s e h. with_tx-atomic env s body e h }

pub guard-IsReadOnly : (b : Bool) (e : Error) → IsReadOnly (guard b e)
guard-IsReadOnly true e = record { reads = λ s. refl }
guard-IsReadOnly false e = record { reads = λ s. refl }

module _ {ℓ κ} {A : Type ℓ} {B : Type κ} (f : A → Exec B) where
  continue-reads :
      (r : Result A) (s : Session) → ((a : A) → IsReadOnly (f a)) → (continue r f s).1.db ≡ s.db
  continue-reads (ok a) s k = (k a).reads s
  continue-reads (err e) s k = refl

  continue-reverts :
      (r : Result A) (s : Session) (e : Error)
      → ((a : A) → IsAtomic (f a))
      → (continue r f s).0 ≡ err e
      → (continue r f s).1.db ≡ s.db
  continue-reverts (ok a) s e k h = (k a).reverts s e h
  continue-reverts (err e') s e k h = refl

  pub bind-IsReadOnly :
      (m : Exec A) → IsReadOnly m → ((a : A) → IsReadOnly (f a)) → IsReadOnly (m >>= f)
  bind-IsReadOnly m r k = record { reads = λ s. continue-reads (m s).0 (m s).1 k ∙ r.reads s }

  -- What reads before it changes is atomic where the change is.
  pub bind-IsAtomic : (m : Exec A) → IsReadOnly m → ((a : A) → IsAtomic (f a)) → IsAtomic (m >>= f)
  bind-IsAtomic m r k = record {
    reverts = λ s e h. continue-reverts (m s).0 (m s).1 e k h ∙ r.reads s;
  }
