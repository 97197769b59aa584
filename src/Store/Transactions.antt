-- ===== src/Store/Transactions.antt =====
-- What a transaction of internal/store/db.go does to the tables, whichever statements fail.
use ai_edge.Prelude.{
  ℕ, suc, ◌≡◌, refl, ap, ◌∙◌, String, Bool, true, false, Option, none, some, arith, ◌⊎◌, inl, inr,
}
use ai_edge.Store.Errors.{Error, Result, ok, err}
use ai_edge.Store.Schema.{Db}
use ai_edge.Store.Session.{
  Env, Session, Exec, pure, guard, on_error, select, statement, continue, map_error, ◌>>=◌, commit,
  finish, begin, opened, with_tx,
}

-- Every statement reaches the database.
abbrev pub IsQuiet : Env → Type 0
IsQuiet env = (k : ℕ) → env.fault k ≡ none

module _ {ℓ} {A : Type ℓ} (env : Env) (s : Session) where
  finish-atomic :
      (r : Result A × Session) (e : Error)
      → (finish env s r).0 ≡ err e
      → (finish env s r).1.db ≡ s.db
  finish-atomic (err e', s') e h = refl
  finish-atomic (ok a, s') e h = ground arith

  begin-atomic :
      (f : Option String) (body : Exec A) (e : Error)
      → (begin env f body s).0 ≡ err e
      → (begin env f body s).1.db ≡ s.db
  begin-atomic (some text) body e h = refl
  begin-atomic none body e h = finish-atomic (body (opened s)) e h

  -- A transaction that returns an error has changed no table, whichever statement failed.
  pub with_tx-atomic :
      (body : Exec A) (e : Error)
      → (with_tx env body s).0 ≡ err e
      → (with_tx env body s).1.db ≡ s.db
  unfolding with_tx
  with_tx-atomic body e h = begin-atomic (env.fault s.tick) body e h

  finish-commits :
      (r : Result A × Session) (a : A)
      → (finish env s r).0 ≡ ok a
      → (r.0 ≡ ok a) × (r.1.aborted ≡ false) × ((finish env s r).1.db ≡ r.1.db)
  finish-commits (err e', s') a h = ground arith
  finish-commits (ok a', s') a h = ground arith

  begin-commits :
      (f : Option String) (body : Exec A) (a : A)
      → (begin env f body s).0 ≡ ok a
      → ((body (opened s)).0 ≡ ok a)
        × ((body (opened s)).1.aborted ≡ false)
        × ((begin env f body s).1.db ≡ (body (opened s)).1.db)
  begin-commits (some text) body a h = cc
  begin-commits none body a h = finish-commits (body (opened s)) a h

  -- A transaction that returns a value has the tables that its body left, and no statement of the
  -- body failed.
  pub with_tx-commits :
      (body : Exec A) (a : A)
      → (with_tx env body s).0 ≡ ok a
      → ((body (opened s)).0 ≡ ok a)
        × ((body (opened s)).1.aborted ≡ false)
        × ((with_tx env body s).1.db ≡ (body (opened s)).1.db)
  unfolding with_tx
  with_tx-commits body a h = begin-commits (env.fault s.tick) body a h

  -- With nothing in the way, a transaction returns what its body returns.
  pub with_tx_quiet :
      (body : Exec A) (a : A) (t : Session)
      → IsQuiet env
      → body (opened s) ≡ (ok a, t)
      → t.aborted ≡ false
      → with_tx env body s ≡ (ok a, record { db = t.db; tick = suc t.tick; aborted = s.aborted })
  unfolding with_tx
  with_tx_quiet body a t q h n = rw (q s.tick, begin) (rw h (rw (q t.tick, commit) (rw n)))

  pub with_tx_quiet_error :
      (body : Exec A) (e : Error) (t : Session)
      → IsQuiet env
      → body (opened s) ≡ (err e, t)
      → with_tx env body s ≡ (err e, record { db = s.db; tick = suc t.tick; aborted = s.aborted })
  unfolding with_tx
  with_tx_quiet_error body e t q h = rw (q s.tick, begin) (rw h)

-- The shape of a handler: run the transaction, map its error, answer with its value.
module _ {ℓ κ} {A : Type ℓ} {B : Type κ} (f : Error → Error) (g : A → B) where
  abbrev pub respond : Exec A → Exec B
  respond m = on_error f m >>= λ a. pure (g a)

  abbrev answer : Result A × Session → Result B × Session
  answer r = continue (map_error f r.0) (λ a. pure (g a)) r.1

  answer-eq-ok :
      (r : Result A × Session) (b : B)
      → (answer r).0 ≡ ok b
      → (a : A) × (r.0 ≡ ok a) × (b ≡ g a) × ((answer r).1 ≡ r.1)
  answer-eq-ok (ok a, t) b h = (a, refl, cc, refl)
  answer-eq-ok (err e, t) b h = cc

  answer-eq-err :
      (r : Result A × Session) (e : Error)
      → (answer r).0 ≡ err e
      → (e' : Error) × (r.0 ≡ err e') × (e ≡ f e') × ((answer r).1 ≡ r.1)
  answer-eq-err (ok a, t) e h = cc
  answer-eq-err (err e', t) e h = (e', refl, cc, refl)

  pub respond-eq-ok :
      (m : Exec A) (s : Session) (b : B)
      → (respond m s).0 ≡ ok b
      → (a : A) × ((m s).0 ≡ ok a) × (b ≡ g a) × ((respond m s).1 ≡ (m s).1)
  respond-eq-ok m s b h = answer-eq-ok (m s) b h

  pub respond-eq-err :
      (m : Exec A) (s : Session) (e : Error)
      → (respond m s).0 ≡ err e
      → (e' : Error) × ((m s).0 ≡ err e') × (e ≡ f e') × ((respond m s).1 ≡ (m s).1)
  respond-eq-err m s e h = answer-eq-err (m s) e h

module _ {ℓ κ} {A : Type ℓ} {B : Type κ} (f : Error → Error) (g : A → B) (env : Env) where
  -- An error response leaves every table as it was.
  pub respond-atomic :
      (body : Exec A) (s : Session) (e : Error)
      → (respond f g (with_tx env body) s).0 ≡ err e
      → (respond f g (with_tx env body) s).1.db ≡ s.db
  respond-atomic body s e h =
      let (e', h', _, t) = respond-eq-err f g (with_tx env body) s e h in
      ap (λ (x : Session). x.db) t ∙ with_tx-atomic env s body e' h'

  -- A value in the response is what the body returned, and the tables are those that it left.
  pub respond-commits :
      (body : Exec A) (s : Session) (b : B)
      → (respond f g (with_tx env body) s).0 ≡ ok b
      → (a : A) × ((body (opened s)).0 ≡ ok a)
        × (b ≡ g a)
        × ((respond f g (with_tx env body) s).1.db ≡ (body (opened s)).1.db)
  respond-commits body s b h =
      let (a, h', p, t) = respond-eq-ok f g (with_tx env body) s b h in
      let (r, _, d) = with_tx-commits env s body a h' in (a, r, p, ap (λ (x : Session). x.db) t ∙ d)

  pub respond_quiet :
      (body : Exec A) (s : Session) (a : A) (t : Session)
      → IsQuiet env
      → body (opened s) ≡ (ok a, t)
      → t.aborted ≡ false
      → respond f g (with_tx env body) s
        ≡ (ok (g a), record { db = t.db; tick = suc t.tick; aborted = s.aborted })
  respond_quiet body s a t q h n = rw (with_tx_quiet env s body a t q h n)

  pub respond_quiet_error :
      (body : Exec A) (s : Session) (e : Error) (t : Session)
      → IsQuiet env
      → body (opened s) ≡ (err e, t)
      → respond f g (with_tx env body) s
        ≡ (err (f e), record { db = s.db; tick = suc t.tick; aborted = s.aborted })
  respond_quiet_error body s e t q h = rw (with_tx_quiet_error env s body e t q h)

module _ {ℓ κ} {A : Type ℓ} {B : Type κ} (f : A → Exec B) where
  continue-eq-ok :
      (r : Result A × Session) (b : B)
      → (continue r.0 f r.1).0 ≡ ok b
      → (a : A) × (r.0 ≡ ok a) × (continue r.0 f r.1 ≡ f a r.1)
  continue-eq-ok (ok a, t) b h = (a, refl, refl)
  continue-eq-ok (err e, t) b h = cc

  -- A chain that returns a value has gone through its first step.
  pub bind-eq-ok :
      (m : Exec A) (s : Session) (b : B)
      → ((m >>= f) s).0 ≡ ok b
      → (a : A) × ((m s).0 ≡ ok a) × ((m >>= f) s ≡ f a (m s).1)
  bind-eq-ok m s b h = continue-eq-ok (m s) b h

-- A query that answers in an open transaction has read the tables and changed nothing.
pub select-eq-ok {ℓ} :
    {A : Type ℓ} (f : Error → Error) (env : Env) (q : Db → A) (s : Session) (a : A)
    → s.aborted ≡ false
    → (on_error f (select env q) s).0 ≡ ok a
    → (a ≡ q s.db)
      × ((on_error f (select env q) s).1.aborted ≡ false)
      × ((on_error f (select env q) s).1.db ≡ s.db)
unfolding select statement
select-eq-ok f env q s a n h = (ground arith, ground arith, ground arith)

pub guard-eq-ok :
    (b : Bool) (e : Error) (s : Session) (u : Unit {0})
    → (guard b e s).0 ≡ ok u
    → (b ≡ true) × ((guard b e s).1 ≡ s)
guard-eq-ok true e s u h = (refl, refl)
guard-eq-ok false e s u h = cc

pub Result-cases {ℓ} :
    {A : Type ℓ} (answer : Result A)
    → ((e : Error) × (answer ≡ err e)) ⊎ ((value : A) × (answer ≡ ok value))
Result-cases (err e) = inl (e, refl)
Result-cases (ok value) = inr (value, refl)

abbrev pub db_of {ℓ} : {A : Type ℓ} → Result A × Session → Db
db_of r = r.1.db
