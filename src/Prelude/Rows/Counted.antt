-- ===== src/Prelude/Rows/Counted.antt =====
-- How often a value stands in a list, and what the statements on rows make of that.
use Prim.Native.Nat.{ℕ, suc, ◌+◌}
use mathlib.Core.Path.{◌≡◌, refl}
use mathlib.Core.Bool.{Bool}
use mathlib.Core.List.{List, [], ◌∷◌, ◌++◌, map}
use native.Mathlib.Omega.{arith}
use tiny_shop.Prelude.Tests.{Equality, ◌==◌, if◌then◌else◌}
use tiny_shop.Prelude.Numbered.{length}
use tiny_shop.Prelude.Rows.{filter, delete_where, insert_by, order_by}

module _ {A : Type 0} ⦃e : Equality A⦄ where
  unfoldable pub count : A → List A → ℕ
  count x [] = 0
  count x (y ∷ ys) = let rest = count x ys in if y == x then suc rest else rest

  pub count-append : (x : A) (xs ys : List A) → count x (xs ++ ys) ≡ count x xs + count x ys
  unfolding count
  count-append x [] ys = omega arith
  count-append x (y ∷ xs) ys = ground (arith, count-append x xs ys)

module _ {A B : Type 0} ⦃e : Equality B⦄ (f : A → B) where
  -- Rows that are taken and rows that are left.
  pub count-parts :
      (x : B) (p : A → Bool) (xs : List A)
      → count x (map f (filter p xs)) + count x (map f (delete_where p xs)) ≡ count x (map f xs)
  unfolding count filter delete_where
  count-parts x p [] = omega arith
  count-parts x p (y ∷ xs) = ground (arith, count-parts x p xs)

  count-insert :
      (x : B) (le : A → A → Bool) (y : A) (xs : List A)
      → count x (map f (insert_by le y xs)) ≡ count x (map f (y ∷ xs))
  unfolding count insert_by
  count-insert x le y [] = refl
  count-insert x le y (z ∷ xs) = ground (arith, count-insert x le y xs)

  pub count-order_by :
      (x : B) (le : A → A → Bool) (xs : List A)
      → count x (map f (order_by le xs)) ≡ count x (map f xs)
  unfolding count order_by
  count-order_by x le [] = refl
  count-order_by x le (y ∷ xs) =
      ground (arith, count-insert x le y (order_by le xs), count-order_by x le xs)

pub length-parts :
    {A : Type 0} (p : A → Bool) (xs : List A)
    → length (filter p xs) + length (delete_where p xs) ≡ length xs
unfolding filter delete_where
length-parts p [] = omega arith
length-parts p (x ∷ xs) = ground (arith, length-parts p xs)
