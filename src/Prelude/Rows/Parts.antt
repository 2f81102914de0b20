-- ===== src/Prelude/Rows/Parts.antt =====
-- ORDER BY gives the same rows, and WHERE parts a table in two.
use mathlib.Core.Path.{refl}
use mathlib.Core.Logic.{inl, inr}
use mathlib.Core.Bool.{Bool}
use mathlib.Core.List.{List, [], ◌∷◌, ◌++◌, Permᴰ}
use mathlib.Core.List.Permᴰ
use tiny_shop.Prelude.Tests.{Bool-cases}
use tiny_shop.Prelude.Rows.{filter, delete_where, insert_by, order_by}

module _ {ℓ} {A : Type ℓ} where
  Perm-insert : (le : A → A → Bool) (x : A) (xs : List A) → Permᴰ (insert_by le x xs) (x ∷ xs)
  unfolding insert_by
  Perm-insert le x [] = Permᴰ.refl (x ∷ [])
  Perm-insert le x (y ∷ ys) = elim (Bool-cases (le x y)) [
    | inl e ↦ rw e (Permᴰ.refl (x ∷ y ∷ ys))
    | inr e ↦ rw e (Permᴰ.trans (Permᴰ.cons refl (Perm-insert le x ys)) (Permᴰ.swap refl refl))
  ]

  pub Perm-order_by : (le : A → A → Bool) (xs : List A) → Permᴰ (order_by le xs) xs
  unfolding order_by
  Perm-order_by le [] = Permᴰ.nil
  Perm-order_by le (x ∷ xs) =
      Permᴰ.trans (Perm-insert le x (order_by le xs)) (Permᴰ.cons refl (Perm-order_by le xs))

  pub Perm-parts : (p : A → Bool) (xs : List A) → Permᴰ (filter p xs ++ delete_where p xs) xs
  unfolding filter delete_where
  Perm-parts p [] = Permᴰ.nil
  Perm-parts p (x ∷ xs) = elim (Bool-cases (p x)) [
    | inl e ↦ rw e (Permᴰ.cons refl (Perm-parts p xs))
    | inr e ↦ rw e (
        Permᴰ.trans (Permᴰ.middle x (filter p xs) (delete_where p xs))
          (Permᴰ.cons refl (Perm-parts p xs)))
  ]
