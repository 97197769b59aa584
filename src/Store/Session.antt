-- ===== src/Store/Session.antt =====
-- internal/store/db.go: statements, and the transactions of `WithTx`.
use ai_edge.Prelude.{ℕ, suc, String, Bool, true, false, Option, none, some, if◌then◌else◌}
use ai_edge.Store.Errors.{Error, Result, ok, err, err_not_found, driver, wrap}
use ai_edge.Store.Schema.{Db}

-- What the program meets outside itself: the database's now(), the process's time.Now(), the value
-- of gen_random_uuid() in the k-th statement, and the text of the driver's error where the k-th
-- statement (BEGIN and COMMIT count) fails.
pub record Env : Type 0 where
  pub now : ℕ
  pub time_now : ℕ
  pub uuid : ℕ → String
  pub fault : ℕ → Option String

-- A connection: the tables, the statements sent so far, and whether one of them failed in the open
-- transaction.
pub record Session : Type 0 where
  pub db : Db
  pub tick : ℕ
  pub aborted : Bool

abbrev pub Exec {ℓ} : Type ℓ → Type ℓ
Exec A = Session → Result A × Session

module _ {ℓ} {A : Type ℓ} where
  abbrev pub pure : A → Exec A
  pure a s = (ok a, s)

  abbrev pub raise : Error → Exec A
  raise e s = (err e, s)

module _ {ℓ κ} {A : Type ℓ} {B : Type κ} where
  abbrev pub continue : Result A → (A → Exec B) → Exec B
  continue (ok a) f s = f a s
  continue (err e) f s = (err e, s)

  infixl 5 ◌>>=◌
  abbrev pub ◌>>=◌ : Exec A → (A → Exec B) → Exec B
  ◌>>=◌ m f s = let (r, s') = m s in continue r f s'

infixl 5 ◌>>◌
abbrev pub ◌>>◌ {ℓ} : {B : Type ℓ} → Exec (Unit {0}) → Exec B → Exec B
m >> n = m >>= λ _. n

abbrev pub guard : Bool → Error → Exec (Unit {0})
guard true e = pure tt
guard false e = raise e

-- sql.ErrNoRows becomes store.ErrNotFound.
abbrev pub or_not_found {ℓ} : {A : Type ℓ} → Option A → Exec A
or_not_found none = raise err_not_found
or_not_found (some a) = pure a

-- if err != nil { return …, f(err) }
module _ {ℓ} {A : Type ℓ} where
  abbrev pub map_error : (Error → Error) → Result A → Result A
  map_error f (ok a) = ok a
  map_error f (err e) = err (f e)

  abbrev pub on_error : (Error → Error) → Exec A → Exec A
  on_error f m s = let (r, s') = m s in (map_error f r, s')

abbrev pub aborted_text : String
aborted_text = "pq: current transaction is aborted, commands ignored until end of transaction block"

abbrev pub failed_commit_text : String
failed_commit_text = "pq: Could not complete operation in a failed transaction"

-- What a statement does to the tables: it is given a fresh id, and may violate a constraint, which
-- the driver reports by a text.
pub data Outcome {ℓ} (A : Type ℓ) : Type ℓ where
  done : A → Db → Outcome A
  violates : String → Outcome A

module _ {ℓ} {A : Type ℓ} where
  abbrev pub settle : Outcome A → Session → Result A × Session
  settle (done a db) s = (ok a, record s { db = db; tick = suc s.tick })
  settle (violates text) s = (err (driver text), record s { tick = suc s.tick; aborted = true })

  abbrev pub send : Option String → Outcome A → Session → Result A × Session
  send (some text) o s = (err (driver text), record s { tick = suc s.tick; aborted = true })
  send none o s = settle o s

-- A statement of an open transaction (tx.QueryRowContext, tx.QueryContext, tx.ExecContext).
unfoldable pub statement {ℓ} : {A : Type ℓ} → Env → (String → Db → Outcome A) → Exec A
statement env run s =
    if s.aborted
    then (err (driver aborted_text), record s { tick = suc s.tick })
    else send (env.fault s.tick) (run (env.uuid s.tick) s.db) s

-- A query that changes nothing.
unfoldable pub select {ℓ} : {A : Type ℓ} → Env → (Db → A) → Exec A
unfolding statement
select env f = statement env (λ id db. done (f db) db)

-- A statement of its own (db.QueryRowContext, db.ExecContext), which commits by itself.
unfoldable pub autocommit {ℓ} : {A : Type ℓ} → Env → (String → Db → Outcome A) → Exec A
autocommit env run s =
    let (r, s') = send (env.fault s.tick) (run (env.uuid s.tick) s.db) s in
    (r, record s' { aborted = s.aborted })

-- The session inside a transaction that has just begun.
abbrev pub opened : Session → Session
opened s = record s { tick = suc s.tick; aborted = false }

unfoldable pub select_now {ℓ} : {A : Type ℓ} → Env → (Db → A) → Exec A
unfolding autocommit
select_now env f = autocommit env (λ id db. done (f db) db)

module _ {ℓ} {A : Type ℓ} where
  abbrev pub rolled_back : Session → Session → Error → Result A × Session
  rolled_back s s' e = (err e, record { db = s.db; tick = suc s'.tick; aborted = s.aborted })

  abbrev pub commit : Option String → A → Session → Session → Result A × Session
  commit (some text) a s s' = rolled_back s s' (driver text)
  commit none a s s' =
      if s'.aborted
      then rolled_back s s' (driver failed_commit_text)
      else (ok a, record { db = s'.db; tick = suc s'.tick; aborted = s.aborted })

  abbrev pub finish : Env → Session → Result A × Session → Result A × Session
  finish env s (err e, s') = rolled_back s s' e
  finish env s (ok a, s') = commit (env.fault s'.tick) a s s'

  abbrev pub begin : Env → Option String → Exec A → Exec A
  begin env (some text) body s =
      (err (wrap "store: begin tx" (driver text)), record s { tick = suc s.tick })
  begin env none body s = finish env s (body (opened s))

-- db.WithTx(ctx, body)
unfoldable pub with_tx {ℓ} : {A : Type ℓ} → Env → Exec A → Exec A
with_tx env body s = begin env (env.fault s.tick) body s
