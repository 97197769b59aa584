-- ===== src/Store/Keeps.antt =====
-- What every action leaves true of the tables, also where it ends in an error.
use ai_edge.Prelude.{String, Bool, true, false, Option, none, some, if◌then◌else◌}
use ai_edge.Store.Errors.{Error, Result, ok, err}
use ai_edge.Store.Schema.{Db}
use ai_edge.Store.Session.{
  Env, Session, Exec, Outcome, done, violates, settle, send, pure, raise, guard, on_error, continue,
  ◌>>=◌, statement, autocommit, with_tx, begin, finish, commit, opened,
}

pub record Keeps {ℓ κ} {A : Type ℓ} (P : Db → Type κ) (m : Exec A) : Type (ℓ ⊔ κ) where
  pub at : (s : Session) → P s.db → P (m s).1.db

-- A statement leaves the property in place wherever it succeeds.
abbrev pub Leaves {ℓ κ} : {A : Type ℓ} → (Db → Type κ) → Outcome A → Type κ
Leaves P (done a db) = P db
Leaves P (violates text) = Unit

module _ {ℓ κ} {A : Type ℓ} (P : Db → Type κ) where
  settle-Keeps : (o : Outcome A) (s : Session) → Leaves P o → P s.db → P (settle o s).1.db
  settle-Keeps (done a db) s l h = l
  settle-Keeps (violates text) s l h = h

  send-Keeps :
      (f : Option String) (o : Outcome A) (s : Session) → Leaves P o → P s.db → P (send f o s).1.db
  send-Keeps (some text) o s l h = h
  send-Keeps none o s l h = settle-Keeps o s l h

  choose-Keeps :
      (b : Bool) (x y : Result A × Session) → P x.1.db → P y.1.db → P (if b then x else y).1.db
  choose-Keeps true x y hx hy = hx
  choose-Keeps false x y hx hy = hy

  commit-Keeps :
      (f : Option String) (a : A) (s s' : Session) → P s.db → P s'.db → P (commit f a s s').1.db
  commit-Keeps (some text) a s s' h h' = h
  commit-Keeps none a s s' h h' = choose-Keeps s'.aborted _ _ h h'

  finish-Keeps :
      (env : Env) (s : Session) (r : Result A × Session)
      → P s.db
      → P r.1.db
      → P (finish env s r).1.db
  finish-Keeps env s (err e, s') h h' = h
  finish-Keeps env s (ok a, s') h h' = commit-Keeps (env.fault s'.tick) a s s' h h'

  begin-Keeps :
      (env : Env) (f : Option String) (body : Exec A) (s : Session)
      → Keeps P body
      → P s.db
      → P (begin env f body s).1.db
  begin-Keeps env (some text) body s k h = h
  begin-Keeps env none body s k h = finish-Keeps env s (body (opened s)) h (k.at (opened s) h)

module _ {ℓ κ} {A : Type ℓ} {P : Db → Type κ} where
  pub Keeps-pure : (a : A) → Keeps P (pure a)
  Keeps-pure a = record { at = λ s h. h }

  pub Keeps-raise : (e : Error) → Keeps P (raise {A = A} e)
  Keeps-raise e = record { at = λ s h. h }

  pub Keeps-on_error : (f : Error → Error) (m : Exec A) → Keeps P m → Keeps P (on_error f m)
  Keeps-on_error f m km = record { at = λ s h. km.at s h }

  pub Keeps-statement :
      (env : Env) (run : String → Db → Outcome A)
      → ((id : String) (db : Db) → P db → Leaves P (run id db))
      → Keeps P (statement env run)
  unfolding statement
  Keeps-statement env run k = record {
    at = λ s h.
        choose-Keeps P s.aborted _ _ h
          (send-Keeps P (env.fault s.tick) (run (env.uuid s.tick) s.db) s (k _ s.db h) h);
  }

  pub Keeps-autocommit :
      (env : Env) (run : String → Db → Outcome A)
      → ((id : String) (db : Db) → P db → Leaves P (run id db))
      → Keeps P (autocommit env run)
  unfolding autocommit
  Keeps-autocommit env run k = record {
    at = λ s h. send-Keeps P (env.fault s.tick) (run (env.uuid s.tick) s.db) s (k _ s.db h) h;
  }

  pub Keeps-with_tx : (env : Env) (body : Exec A) → Keeps P body → Keeps P (with_tx env body)
  unfolding with_tx
  Keeps-with_tx env body k = record { at = λ s h. begin-Keeps P env (env.fault s.tick) body s k h }

pub Keeps-guard {κ} : {P : Db → Type κ} (b : Bool) (e : Error) → Keeps P (guard b e)
Keeps-guard true e = record { at = λ s h. h }
Keeps-guard false e = record { at = λ s h. h }

module _ {ℓ ℓ' κ} {A : Type ℓ} {B : Type ℓ'} {P : Db → Type κ} where
  continue-Keeps :
      (r : Result A) (f : A → Exec B) (s : Session)
      → ((a : A) → Keeps P (f a))
      → P s.db
      → P (continue r f s).1.db
  continue-Keeps (ok a) f s k h = (k a).at s h
  continue-Keeps (err e) f s k h = h

  pub Keeps-bind :
      (first : Exec A) (next : A → Exec B)
      → Keeps P first
      → ((value : A) → Keeps P (next value))
      → Keeps P (first >>= next)
  Keeps-bind first next keeps_first keeps_next = record {
    at = λ start before.
        continue-Keeps (first start).0 next (first start).1 keeps_next
          (keeps_first.at start before);
  }
