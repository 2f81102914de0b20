-- ===== src/Prelude/Rows/Ordered.antt =====
-- What ORDER BY, LIMIT and OFFSET keep of the rows that they order and cut.
use Prim.Native.Nat.{ℕ, zero, suc}
use mathlib.Core.Path.{◌≡◌, refl}
use mathlib.Core.Logic.{inl, inr}
use mathlib.Core.Bool.{Bool, true, false}
use mathlib.Core.List.{List, [], ◌∷◌}
use tiny_shop.Prelude.Tests.{Bool-cases}
use tiny_shop.Prelude.Numbered.{length, take, drop}
use tiny_shop.Prelude.Rows.{insert_by, order_by, filter, All, All-map, Apart}

module _ {ℓ} {A : Type ℓ} where
  All-insert {κ} :
      (P : A → Type κ) (le : A → A → Bool) (x : A) (xs : List A)
      → P x
      → All P xs
      → All P (insert_by le x xs)
  unfolding insert_by
  All-insert P le x [] p h = (p, tt)
  All-insert P le x (y ∷ ys) p h = elim (Bool-cases (le x y)) [
    | inl e ↦ rw e (p, h)
    | inr e ↦ rw e (h.0, All-insert P le x ys p h.1)
  ]

  pub All-order_by {κ} :
      (P : A → Type κ) (le : A → A → Bool) (xs : List A) → All P xs → All P (order_by le xs)
  unfolding order_by
  All-order_by P le [] h = tt
  All-order_by P le (x ∷ xs) h = All-insert P le x (order_by le xs) h.0 (All-order_by P le xs h.1)

  length-insert :
      (le : A → A → Bool) (x : A) (xs : List A) → length (insert_by le x xs) ≡ suc (length xs)
  unfolding insert_by
  length-insert le x [] = refl
  length-insert le x (y ∷ ys) = elim (Bool-cases (le x y)) [
    | inl e ↦ rw e refl
    | inr e ↦ rw (e, length-insert le x ys) refl
  ]

  pub length-order_by : (le : A → A → Bool) (xs : List A) → length (order_by le xs) ≡ length xs
  unfolding order_by
  length-order_by le [] = refl
  length-order_by le (x ∷ xs) = rw (length-insert le x (order_by le xs), length-order_by le xs) refl

  pub All-filter_fits : (p : A → Bool) (xs : List A) → All (λ a. p a ≡ true) (filter p xs)
  unfolding filter
  All-filter_fits p [] = tt
  All-filter_fits p (x ∷ xs) = elim (Bool-cases (p x)) [
    | inl e ↦ rw e (e, All-filter_fits p xs)
    | inr e ↦ rw e (All-filter_fits p xs)
  ]

  pub All-take {κ} : (P : A → Type κ) (n : ℕ) (xs : List A) → All P xs → All P (take n xs)
  All-take P zero xs h = tt
  All-take P (suc n) [] h = tt
  All-take P (suc n) (x ∷ xs) h = (h.0, All-take P n xs h.1)

  pub All-drop {κ} : (P : A → Type κ) (n : ℕ) (xs : List A) → All P xs → All P (drop n xs)
  All-drop P zero xs h = h
  All-drop P (suc n) [] h = tt
  All-drop P (suc n) (x ∷ xs) h = All-drop P n xs h.1

  pub Apart-take {κ} : (R : A → A → Type κ) (n : ℕ) (xs : List A) → Apart R xs → Apart R (take n xs)
  Apart-take R zero xs h = tt
  Apart-take R (suc n) [] h = tt
  Apart-take R (suc n) (x ∷ xs) h = (All-take (R x) n xs h.0, Apart-take R n xs h.1)

  pub Apart-drop {κ} : (R : A → A → Type κ) (n : ℕ) (xs : List A) → Apart R xs → Apart R (drop n xs)
  Apart-drop R zero xs h = h
  Apart-drop R (suc n) [] h = tt
  Apart-drop R (suc n) (x ∷ xs) h = Apart-drop R n xs h.1

  module _ {κ} (le : A → A → Bool) (R : A → A → Type κ) (fits : (a b : A) → le a b ≡ true → R a b)
      (turns : (a b : A) → le a b ≡ false → R b a)
      (trans : (a b c : A) → R a b → R b c → R a c) where
    Apart-insert : (x : A) (xs : List A) → Apart R xs → Apart R (insert_by le x xs)
    unfolding insert_by
    Apart-insert x [] h = (tt, tt)
    Apart-insert x (y ∷ ys) h = elim (Bool-cases (le x y)) [
      | inl e ↦ rw e ((fits x y e, All-map (λ b q. trans x y b (fits x y e) q) ys h.0), h)
      | inr e ↦ rw e (All-insert (R y) le x ys (turns x y e) h.0, Apart-insert x ys h.1)
    ]

    -- The order that a test of the keys refines.
    pub Apart-ordered : (xs : List A) → Apart R (order_by le xs)
    unfolding order_by
    Apart-ordered [] = tt
    Apart-ordered (x ∷ xs) = Apart-insert x (order_by le xs) (Apart-ordered xs)
