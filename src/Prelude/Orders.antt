-- ===== src/Prelude/Orders.antt =====
-- ORDER BY where no two rows stand level: the order in which the rows come does not matter.
use mathlib.Core.Path.{◌≡◌, refl, ap, subst, ◌∙◌}
use mathlib.Core.Bool.{Bool, false}
use mathlib.Core.List.{List, [], ◌∷◌, Permᴰ}
use mathlib.Core.List.Permᴰ
use mathlib.Core.List.Permᴰ.{nil, cons, swap, trans}
use Prim.Native.Nat.{ℕ}
use native.Mathlib.Omega.{arith}
use mathlib.Core.Logic.{inl, inr}
use ai_edge.Prelude.Tests.{Bool-cases, leb, eqb}
use ai_edge.Prelude.Lists.{All}
use ai_edge.Prelude.Rows.{where_rows, insert_by, order_by}

module _ {A : Type 0} (key : A → ℕ) where
  -- By a key, the largest first.
  abbrev pub descending : A → A → Bool
  descending a b = leb (key b) (key a)

  abbrev pub Differs : A → A → Type 0
  Differs a b = eqb (key a) (key b) ≡ false

  -- No two rows have one key.
  abbrev pub HaveDistinctKeys : List A → Type 0
  HaveDistinctKeys [] = Unit {0}
  HaveDistinctKeys (x ∷ xs) = All (Differs x) xs × HaveDistinctKeys xs

  insert_by-insert_by :
      (a b : A) (xs : List A)
      → Differs a b
      → insert_by descending a (insert_by descending b xs)
        ≡ insert_by descending b (insert_by descending a xs)
  unfolding insert_by
  insert_by-insert_by a b [] d = ground (arith, d)
  insert_by-insert_by a b (x ∷ xs) d = ground (arith, d, insert_by-insert_by a b xs d)

  All-Perm : (P : A → Type 0) {xs ys : List A} → Permᴰ xs ys → All P xs → All P ys
  All-Perm P nil h = h
  All-Perm P (cons e p) h = (subst P e h.0, All-Perm P p h.1)
  All-Perm P (swap e e') h = (subst P e' h.1.0, (subst P e h.0, h.1.1))
  All-Perm P (trans p q) h = All-Perm P q (All-Perm P p h)

  HaveDistinctKeys-Perm : {xs ys : List A} → Permᴰ xs ys → HaveDistinctKeys xs → HaveDistinctKeys ys
  HaveDistinctKeys-Perm nil h = h
  HaveDistinctKeys-Perm (cons {a} {b} {l₁} {l₂} e p) h =
      (subst (λ x. All (Differs x) l₂) e (All-Perm (Differs a) p h.0), HaveDistinctKeys-Perm p h.1)
  HaveDistinctKeys-Perm (swap {a} {b} {a'} {b'} {l} e e') ((d, first), (second, rest)) = (
    (
      subst (λ x. Differs x b') e' (subst (Differs b) e (ground (arith, d))),
      subst (λ x. All (Differs x) l) e' second,
    ),
    (subst (λ x. All (Differs x) l) e first, rest),
  )
  HaveDistinctKeys-Perm (trans p q) h = HaveDistinctKeys-Perm q (HaveDistinctKeys-Perm p h)

  pub order_by-Perm :
      {xs ys : List A}
      → Permᴰ xs ys
      → HaveDistinctKeys xs
      → order_by descending xs ≡ order_by descending ys
  unfolding order_by
  order_by-Perm nil h = refl
  order_by-Perm (cons {a} {b} {l₁} {l₂} e p) h =
      ap (insert_by descending a) (order_by-Perm p h.1)
      ∙ ap (λ x. insert_by descending x (order_by descending l₂)) e
  order_by-Perm (swap {a} {b} {a'} {b'} {l} e e') ((d, first), (second, rest)) =
      insert_by-insert_by a b (order_by descending l) d
      ∙ ap (λ x. insert_by descending x (insert_by descending a (order_by descending l))) e'
      ∙ ap (λ x. insert_by descending a' (insert_by descending x (order_by descending l))) e
  order_by-Perm (trans p q) h = order_by-Perm p h ∙ order_by-Perm q (HaveDistinctKeys-Perm p h)

  pub where_rows-Perm :
      (p : A → Bool) {xs ys : List A} → Permᴰ xs ys → Permᴰ (where_rows p xs) (where_rows p ys)
  unfolding where_rows
  where_rows-Perm p nil = nil
  where_rows-Perm p (cons {a} {b} {l₁} {l₂} e q) = elim (Bool-cases (p b)) [
    | inl t ↦ rw e (rw t (cons refl (where_rows-Perm p q)))
    | inr f ↦ rw e (rw f (where_rows-Perm p q))
  ]
  where_rows-Perm p (swap {a} {b} {a'} {b'} {l} e e') = rw e (
      rw e' (elim (Bool-cases (p a')) [
        | inl t ↦ elim (Bool-cases (p b')) [
          | inl t' ↦ rw t (rw t' (swap refl refl))
          | inr f' ↦ rw t (rw f' (Permᴰ.refl _))
        ]
        | inr f ↦ rw f (Permᴰ.refl _)
      ]))
  where_rows-Perm p (trans q r) = trans (where_rows-Perm p q) (where_rows-Perm p r)
