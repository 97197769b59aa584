-- ===== src/Prelude/Rows.antt =====
-- The parts of a SQL statement over a table: WHERE, UPDATE … SET, COUNT, MAX and ORDER BY. A table
-- is the list of its rows.
use Prim.Native.Nat.{ℕ, suc, ◌+◌, ◌<◌, max}
use mathlib.Core.Path.{◌≡◌, refl, ap, ◌∙◌}
use mathlib.Core.Bool.{Bool, true, false}
use mathlib.Core.Option.{Option, none, some}
use mathlib.Core.List.{List, [], ◌∷◌, ◌++◌, map}
use native.Mathlib.Omega.{arith}
use mathlib.Core.Logic.{inl, inr}
use ai_edge.Prelude.Tests.{if◌then◌else◌, Bool-cases}
use ai_edge.Prelude.Lists.{All, length}

module _ {ℓ} {A : Type ℓ} where
  -- SELECT … WHERE p: all rows, in table order.
  unfoldable pub where_rows : (A → Bool) → List A → List A
  where_rows p [] = []
  where_rows p (x ∷ xs) = let rest = where_rows p xs in if p x then x ∷ rest else rest

  -- The row that a query for at most one row scans.
  unfoldable pub find_row : (A → Bool) → List A → Option A
  find_row p [] = none
  find_row p (x ∷ xs) = if p x then some x else find_row p xs

  -- UPDATE … SET f WHERE p
  unfoldable pub update_rows : (A → Bool) → (A → A) → List A → List A
  update_rows p f [] = []
  update_rows p f (x ∷ xs) = (if p x then f x else x) ∷ update_rows p f xs

  -- RowsAffected, and COUNT(*)
  unfoldable pub count_rows : (A → Bool) → List A → ℕ
  count_rows p [] = 0
  count_rows p (x ∷ xs) = (if p x then 1 else 0) + count_rows p xs

  -- COALESCE(MAX(f), 0)
  unfoldable pub max_rows : (A → Bool) → (A → ℕ) → List A → ℕ
  max_rows p f [] = 0
  max_rows p f (x ∷ xs) = max (if p x then f x else 0) (max_rows p f xs)

  -- ORDER BY, with the test of what may stand before what; rows that may stand either way keep the
  -- table's order.
  unfoldable pub insert_by : (A → A → Bool) → A → List A → List A
  insert_by before a [] = a ∷ []
  insert_by before a (x ∷ xs) =
      let rest = x ∷ insert_by before a xs in if before a x then a ∷ x ∷ xs else rest

  unfoldable pub order_by : (A → A → Bool) → List A → List A
  unfolding insert_by
  order_by before [] = []
  order_by before (x ∷ xs) = insert_by before x (order_by before xs)

module _ {ℓ} {A : Type ℓ} where
  pub find_row-holds : (p : A → Bool) (xs : List A) (a : A) → find_row p xs ≡ some a → p a ≡ true
  unfolding find_row
  find_row-holds p [] a h = ground arith
  find_row-holds p (x ∷ xs) a h = ground (arith, find_row-holds p xs a)

  pub where_rows-holds : (p : A → Bool) (xs : List A) → All (λ x. p x ≡ true) (where_rows p xs)
  unfolding where_rows
  where_rows-holds p [] = tt
  where_rows-holds p (x ∷ xs) = ground (arith, where_rows-holds p xs)

  pub update_rows-none :
      (p : A → Bool) (f : A → A) (xs : List A) → count_rows p xs ≡ 0 → update_rows p f xs ≡ xs
  unfolding update_rows count_rows
  update_rows-none p f [] h = refl
  update_rows-none p f (x ∷ xs) h = ground (arith, update_rows-none p f xs)

module _ {ℓ} {A : Type ℓ} where
  pub find_row-counted :
      (p q : A → Bool) (xs : List A) (a : A)
      → find_row p xs ≡ some a
      → q a ≡ true
      → 0 < count_rows q xs
  unfolding find_row count_rows
  find_row-counted p q [] a e h = cc
  find_row-counted p q (x ∷ xs) a e h = ground (arith, find_row-counted p q xs a)

  pub find_row-none_imp :
      (p q : A → Bool) (xs : List A)
      → ((x : A) → q x ≡ true → p x ≡ true)
      → find_row p xs ≡ none
      → find_row q xs ≡ none
  unfolding find_row
  find_row-none_imp p q [] imp e = refl
  find_row-none_imp p q (x ∷ xs) imp e = ground (arith, imp x, find_row-none_imp p q xs imp)

  -- A change that keeps what the query asks is seen by the query.
  pub find_row-update_rows :
      (p q : A → Bool) (f : A → A) (xs : List A) (a : A)
      → ((x : A) → p (f x) ≡ p x)
      → find_row p xs ≡ some a
      → find_row p (update_rows q f xs) ≡ some (if q a then f a else a)
  unfolding find_row update_rows
  find_row-update_rows p q f [] a keep e = cc
  find_row-update_rows p q f (x ∷ xs) a keep e =
      ground (arith, keep x, find_row-update_rows p q f xs a keep)

  -- A statement that names a row by a key that no other row has.
  pub update_rows-append :
      (k p : A → Bool) (f : A → A) (xs : List A) (y : A)
      → ((x : A) → p x ≡ true → k x ≡ true)
      → find_row k xs ≡ none
      → p y ≡ true
      → update_rows p f (xs ++ y ∷ []) ≡ xs ++ f y ∷ []
  unfolding find_row update_rows
  update_rows-append k p f [] y imp e h = ground (arith, h)
  update_rows-append k p f (x ∷ xs) y imp e h =
      ground (arith, imp x, update_rows-append k p f xs y imp)

  pub count_rows-append :
      (k p : A → Bool) (xs : List A) (y : A)
      → ((x : A) → p x ≡ true → k x ≡ true)
      → find_row k xs ≡ none
      → p y ≡ true
      → count_rows p (xs ++ y ∷ []) ≡ 1
  unfolding find_row count_rows
  count_rows-append k p [] y imp e h = ground (arith, h)
  count_rows-append k p (x ∷ xs) y imp e h = ground (arith, imp x, count_rows-append k p xs y imp)

  pub find_row-where_rows :
      (p q : A → Bool) (xs : List A)
      → ((x : A) → q x ≡ true → p x ≡ false)
      → find_row p (where_rows q xs) ≡ none
  unfolding find_row where_rows
  find_row-where_rows p q [] miss = refl
  find_row-where_rows p q (x ∷ xs) miss = ground (arith, miss x, find_row-where_rows p q xs miss)

  -- A row that is added is found where no earlier row is.
  pub find_row-append :
      (p : A → Bool) (xs : List A) (y : A)
      → find_row p xs ≡ none
      → p y ≡ true
      → find_row p (xs ++ y ∷ []) ≡ some y
  unfolding find_row
  find_row-append p [] y e h = ground (arith, h)
  find_row-append p (x ∷ xs) y e h = ground (arith, h, find_row-append p xs y)

  -- What is found among the later rows is found among all, itself or an earlier one.
  pub find_row-append_later :
      (p : A → Bool) (xs ys : List A) (y : A)
      → find_row p ys ≡ some y
      → (x : A) × (find_row p (xs ++ ys) ≡ some x)
  unfolding find_row
  find_row-append_later p [] ys y h = (y, h)
  find_row-append_later p (x ∷ xs) ys y h = elim (Bool-cases (p x)) [
    | inl t ↦ (x, rw t refl)
    | inr f ↦ let (z, k) = find_row-append_later p xs ys y h in (z, rw f k)
  ]

  pub find_row-update_rows_hit :
      (p q : A → Bool) (f : A → A) (xs : List A) (a : A)
      → ((x : A) → p (f x) ≡ p x)
      → find_row p xs ≡ some a
      → q a ≡ true
      → find_row p (update_rows q f xs) ≡ some (f a)
  find_row-update_rows_hit p q f xs a keep e h =
      ground (arith, find_row-update_rows p q f xs a keep e)

  pub find_row-update_rows-none :
      (p q : A → Bool) (f : A → A) (xs : List A)
      → ((x : A) → p (f x) ≡ p x)
      → find_row p xs ≡ none
      → find_row p (update_rows q f xs) ≡ none
  unfolding find_row update_rows
  find_row-update_rows-none p q f [] keep e = refl
  find_row-update_rows-none p q f (x ∷ xs) keep e =
      ground (arith, keep x, find_row-update_rows-none p q f xs keep)

  pub length-where_rows : (p : A → Bool) (xs : List A) → length (where_rows p xs) ≡ count_rows p xs
  unfolding where_rows count_rows
  length-where_rows p [] = refl
  length-where_rows p (x ∷ xs) = ground (arith, length-where_rows p xs)

  length-insert_by :
      (before : A → A → Bool) (a : A) (xs : List A)
      → length (insert_by before a xs) ≡ suc (length xs)
  unfolding insert_by
  length-insert_by before a [] = refl
  length-insert_by before a (x ∷ xs) = ground (arith, length-insert_by before a xs)

  pub length-order_by :
      (before : A → A → Bool) (xs : List A) → length (order_by before xs) ≡ length xs
  unfolding order_by
  length-order_by before [] = refl
  length-order_by before (x ∷ xs) =
      length-insert_by before x (order_by before xs) ∙ ap suc (length-order_by before xs)

  pub where_rows_all : (p : A → Bool) (xs : List A) → ((x : A) → p x ≡ true) → where_rows p xs ≡ xs
  unfolding where_rows
  where_rows_all p [] h = refl
  where_rows_all p (x ∷ xs) h = ground (arith, h x, where_rows_all p xs h)

  find_row-insert_by :
      (p : A → Bool) (before : A → A → Bool) (a : A) (xs : List A)
      → p a ≡ false
      → find_row p (insert_by before a xs) ≡ find_row p xs
  unfolding find_row insert_by
  find_row-insert_by p before a [] n = ground (arith, n)
  find_row-insert_by p before a (x ∷ xs) n = ground (arith, n, find_row-insert_by p before a xs n)

  pub find_row-order_by-none :
      (p : A → Bool) (before : A → A → Bool) (xs : List A)
      → find_row p xs ≡ none
      → find_row p (order_by before xs) ≡ none
  unfolding find_row order_by
  find_row-order_by-none p before [] n = refl
  find_row-order_by-none p before (x ∷ xs) n =
      let other : p x ≡ false = ground (arith, n) in
      let rest : find_row p xs ≡ none = ground (arith, n, other) in
      find_row-insert_by p before x (order_by before xs) other
      ∙ find_row-order_by-none p before xs rest

  -- The only row that a query asks for is found in any order.
  pub find_row-order_by :
      (p : A → Bool) (before : A → A → Bool) (xs : List A) (y : A)
      → find_row p xs ≡ none
      → p y ≡ true
      → find_row p (order_by before (xs ++ y ∷ [])) ≡ some y
  unfolding find_row order_by insert_by
  find_row-order_by p before [] y n h = ground (arith, h)
  find_row-order_by p before (x ∷ xs) y n h =
      let other : p x ≡ false = ground (arith, n) in
      let rest : find_row p xs ≡ none = ground (arith, n, other) in
      find_row-insert_by p before x (order_by before (xs ++ y ∷ [])) other
      ∙ find_row-order_by p before xs y rest h

module _ {ℓ ℓ'} {A : Type ℓ} {B : Type ℓ'} where
  pub find_row-map :
      (q : B → Bool) (f : A → B) (xs : List A) (a : A)
      → find_row (λ x. q (f x)) xs ≡ some a
      → find_row q (map f xs) ≡ some (f a)
  unfolding find_row
  find_row-map q f [] a h = absurd (ground (arith, h))
  find_row-map q f (x ∷ xs) a h = ground (arith, h, find_row-map q f xs a)

  pub find_row-map-none :
      (q : B → Bool) (f : A → B) (xs : List A)
      → find_row (λ x. q (f x)) xs ≡ none
      → find_row q (map f xs) ≡ none
  unfolding find_row
  find_row-map-none q f [] h = refl
  find_row-map-none q f (x ∷ xs) h = ground (arith, h, find_row-map-none q f xs)

module _ {ℓ κ} {A : Type ℓ} (P : A → Type κ) where
  pub All-update_rows :
      (p : A → Bool) (f : A → A) (xs : List A)
      → ((x : A) → P x → p x ≡ true → P (f x))
      → All P xs
      → All P (update_rows p f xs)
  unfolding update_rows
  All-update_rows p f [] keep h = tt
  All-update_rows p f (x ∷ xs) keep h = ground (arith, keep x h.0, All-update_rows p f xs keep h.1)

  -- What holds of the changed rows and of the others holds of all.
  pub All-update_rows_split :
      (p : A → Bool) (f : A → A) (xs : List A)
      → ((x : A) → p x ≡ true → P (f x))
      → ((x : A) → p x ≡ false → P x)
      → All P (update_rows p f xs)
  unfolding update_rows
  All-update_rows_split p f [] changed kept = tt
  All-update_rows_split p f (x ∷ xs) changed kept =
      ground (arith, changed x, kept x, All-update_rows_split p f xs changed kept)

  All-insert_by :
      (before : A → A → Bool) (a : A) (xs : List A) → P a → All P xs → All P (insert_by before a xs)
  unfolding insert_by
  All-insert_by before a [] pa h = (pa, tt)
  All-insert_by before a (x ∷ xs) pa h = ground (arith, All-insert_by before a xs pa h.1)

  pub All-order_by : (before : A → A → Bool) (xs : List A) → All P xs → All P (order_by before xs)
  unfolding order_by
  All-order_by before [] h = tt
  All-order_by before (x ∷ xs) h =
      All-insert_by before x (order_by before xs) h.0 (All-order_by before xs h.1)

  pub All-find_row : (p : A → Bool) (xs : List A) (a : A) → All P xs → find_row p xs ≡ some a → P a
  unfolding find_row
  All-find_row p [] a h e = cc
  All-find_row p (x ∷ xs) a h e = ground (arith, All-find_row p xs a h.1)

  pub All-where_rows : (p : A → Bool) (xs : List A) → All P xs → All P (where_rows p xs)
  unfolding where_rows
  All-where_rows p [] h = tt
  All-where_rows p (x ∷ xs) h = ground (arith, All-where_rows p xs h.1)
