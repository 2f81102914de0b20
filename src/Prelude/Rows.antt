-- ===== src/Prelude/Rows.antt =====
-- Rows of a table: what SELECT, UPDATE and DELETE with a WHERE test do to a list of rows.
pub mod Ordered
pub mod Counted
pub mod Parts
pub mod Chosen
use mathlib.Core.Path.{◌≡◌, refl}
use mathlib.Core.Logic.{inl, inr}
use mathlib.Core.Bool.{Bool, true, false, not, ◌||◌}
use mathlib.Core.Option.{Option, none, some}
use mathlib.Core.List.{List, [], ◌∷◌, ◌++◌, map}
use native.Mathlib.Omega.{arith}
use tiny_shop.Prelude.Tests.{if◌then◌else◌, Bool-cases}

module _ {ℓ} {A : Type ℓ} where
  -- SELECT ... WHERE p
  unfoldable pub filter : (A → Bool) → List A → List A
  filter p [] = []
  filter p (x ∷ xs) = let rest = filter p xs in if p x then x ∷ rest else rest

  -- The first row that fits, as `fetch_optional` gives it.
  unfoldable pub find? : (A → Bool) → List A → Option A
  find? p [] = none
  find? p (x ∷ xs) = if p x then some x else find? p xs

  unfoldable pub any : (A → Bool) → List A → Bool
  any p [] = false
  any p (x ∷ xs) = p x || any p xs

  -- UPDATE ... SET f WHERE p
  unfoldable pub update_where : (A → Bool) → (A → A) → List A → List A
  update_where p f [] = []
  update_where p f (x ∷ xs) = (if p x then f x else x) ∷ update_where p f xs

  -- DELETE ... WHERE p
  unfoldable pub delete_where : (A → Bool) → List A → List A
  unfolding filter
  delete_where p xs = filter (λ x. not (p x)) xs

  insert_by : (A → A → Bool) → A → List A → List A
  insert_by le x [] = x ∷ []
  insert_by le x (y ∷ ys) = let more = y ∷ insert_by le x ys in if le x y then x ∷ y ∷ ys else more

  -- ORDER BY: rows that tie keep their order.
  unfoldable pub order_by : (A → A → Bool) → List A → List A
  unfolding insert_by
  order_by le [] = []
  order_by le (x ∷ xs) = insert_by le x (order_by le xs)

  -- A statement about every row; it computes to a tuple, which the tactics read and build.
  abbrev pub All {κ} : (A → Type κ) → List A → Type κ
  All P [] = Unit
  All P (x ∷ xs) = P x × All P xs

module _ {ℓ} {A : Type ℓ} where
  pub filter-append :
      (p : A → Bool) (xs ys : List A) → filter p (xs ++ ys) ≡ filter p xs ++ filter p ys
  unfolding filter
  filter-append p [] ys = refl
  filter-append p (x ∷ xs) ys = ground (arith, filter-append p xs ys)

  pub All-append {κ} : (P : A → Type κ) (xs ys : List A) → All P xs → All P ys → All P (xs ++ ys)
  All-append P [] ys hx hy = hy
  All-append P (x ∷ xs) ys hx hy = (hx.0, All-append P xs ys hx.1 hy)

  pub All-map {κ μ} :
      {P : A → Type κ} {Q : A → Type μ}
      → ((a : A) → P a → Q a)
      → (xs : List A) → All P xs
      → All Q xs
  All-map f [] h = tt
  All-map f (x ∷ xs) h = (f x h.0, All-map f xs h.1)

  pub All-both {κ μ} :
      (P : A → Type κ) (Q : A → Type μ) (xs : List A)
      → All P xs
      → All Q xs
      → All (λ x. P x × Q x) xs
  All-both P Q [] h k = tt
  All-both P Q (x ∷ xs) h k = ((h.0, k.0), All-both P Q xs h.1 k.1)

  pub All-filter {κ} :
      (P : A → Type κ) (p : A → Bool) (xs : List A) → All P xs → All P (filter p xs)
  unfolding filter
  All-filter P p [] h = tt
  All-filter P p (x ∷ xs) h = elim (Bool-cases (p x)) [
    | inl e ↦ rw e (h.0, All-filter P p xs h.1)
    | inr e ↦ rw e (All-filter P p xs h.1)
  ]

  -- What holds of a row, and of the row that UPDATE makes of it where the test fits.
  if-keeps {κ} :
      (P : A → Type κ) (b : Bool) (x y : A) → (b ≡ true → P y) → P x → P (if b then y else x)
  if-keeps P true x y hy hx = hy refl
  if-keeps P false x y hy hx = hx

  pub All-update_where {κ} :
      (P : A → Type κ) (p : A → Bool) (f : A → A) (xs : List A)
      → ((a : A) → p a ≡ true → P a → P (f a))
      → All P xs
      → All P (update_where p f xs)
  unfolding update_where
  All-update_where P p f [] k h = tt
  All-update_where P p f (x ∷ xs) k h =
      (if-keeps P (p x) x (f x) (λ e. k x e h.0) h.0, All-update_where P p f xs k h.1)

  -- A statement that an UPDATE turns into another one.
  pub All-update_to {κ μ} :
      (P : A → Type κ) (Q : A → Type μ) (p : A → Bool) (f : A → A) (xs : List A)
      → ((a : A) → p a ≡ true → P a → Q (f a))
      → ((a : A) → p a ≡ false → P a → Q a)
      → All P xs
      → All Q (update_where p f xs)
  unfolding update_where
  All-update_to P Q p f [] hit miss h = tt
  All-update_to P Q p f (x ∷ xs) hit miss h = elim (Bool-cases (p x)) [
    | inl e ↦ rw e (hit x e h.0, All-update_to P Q p f xs hit miss h.1)
    | inr e ↦ rw e (miss x e h.0, All-update_to P Q p f xs hit miss h.1)
  ]

  pub filter_of_all_false :
      (p : A → Bool) (xs : List A) → All (λ x. p x ≡ false) xs → filter p xs ≡ []
  unfolding filter
  filter_of_all_false p [] h = refl
  filter_of_all_false p (x ∷ xs) h = rw h.0 (filter_of_all_false p xs h.1)

  pub filter_of_all_true :
      (p : A → Bool) (xs : List A) → All (λ x. p x ≡ true) xs → filter p xs ≡ xs
  unfolding filter
  filter_of_all_true p [] h = refl
  filter_of_all_true p (x ∷ xs) h = rw (h.0, filter_of_all_true p xs h.1) refl

  pub All_of_any-false : (p : A → Bool) (xs : List A) → any p xs ≡ false → All (λ x. p x ≡ false) xs
  unfolding any
  All_of_any-false p [] h = tt
  All_of_any-false p (x ∷ xs) h = (ground arith, All_of_any-false p xs (ground arith))

  pub any-append : (p : A → Bool) (xs ys : List A) → any p (xs ++ ys) ≡ (any p xs || any p ys)
  unfolding any
  any-append p [] ys = refl
  any-append p (x ∷ xs) ys = ground (arith, any-append p xs ys)

  pub any-update_where :
      (q p : A → Bool) (f : A → A) (xs : List A)
      → ((a : A) → q (f a) ≡ q a)
      → any q (update_where p f xs) ≡ any q xs
  unfolding any update_where
  any-update_where q p f [] h = refl
  any-update_where q p f (x ∷ xs) h = ground (arith, h x, any-update_where q p f xs h)

  -- A relation between each row and every later one.
  abbrev pub Apart {κ} : (A → A → Type κ) → List A → Type κ
  Apart R [] = Unit
  Apart R (x ∷ xs) = All (R x) xs × Apart R xs

  pub Apart-filter {κ} :
      (R : A → A → Type κ) (p : A → Bool) (xs : List A) → Apart R xs → Apart R (filter p xs)
  unfolding filter
  Apart-filter R p [] h = tt
  Apart-filter R p (x ∷ xs) h = elim (Bool-cases (p x)) [
    | inl e ↦ rw e (All-filter (R x) p xs h.0, Apart-filter R p xs h.1)
    | inr e ↦ rw e (Apart-filter R p xs h.1)
  ]

  -- A row put behind all others.
  pub Apart-append_one {κ} :
      (R : A → A → Type κ) (xs : List A) (y : A)
      → All (λ x. R x y) xs
      → Apart R xs
      → Apart R (xs ++ y ∷ [])
  Apart-append_one R [] y h a = (tt, tt)
  Apart-append_one R (x ∷ xs) y h a =
      (All-append (R x) xs (y ∷ []) a.0 (h.0, tt), Apart-append_one R xs y h.1 a.1)

  -- The relation may read only what the UPDATE leaves alone.
  pub Apart-update_where {κ} :
      (R : A → A → Type κ) (p : A → Bool) (f : A → A) (xs : List A)
      → ((a b : A) → R a b → R (f a) b)
      → ((a b : A) → R a b → R a (f b))
      → Apart R xs
      → Apart R (update_where p f xs)
  unfolding update_where
  Apart-update_where R p f [] l r h = tt
  Apart-update_where R p f (x ∷ xs) l r h = (
    if-keeps (λ z. All (R z) (update_where p f xs)) (p x) x (f x)
        (λ _. All-map (λ b. l x b) (update_where p f xs) later) later,
    Apart-update_where R p f xs l r h.1,
  )
    where
      later : All (R x) (update_where p f xs)
      later = All-update_where (R x) p f xs (λ b _ q. r x b q) h.0

module _ {ℓ} {A : Type ℓ} (le : A → A → Bool) where
  -- Each row may stand before the next one.
  abbrev pub IsChain : List A → Type 0
  IsChain [] = Unit
  IsChain (x ∷ []) = Unit
  IsChain (x ∷ y ∷ ys) = (le x y ≡ true) × IsChain (y ∷ ys)

  -- Rows that stand in order stay where they are.
  pub order_by-IsChain : (xs : List A) → IsChain xs → order_by le xs ≡ xs
  unfolding order_by
  order_by-IsChain [] h = refl
  order_by-IsChain (x ∷ []) h = refl
  order_by-IsChain (x ∷ y ∷ ys) h = rw (order_by-IsChain (y ∷ ys) h.1, insert_by, h.0) refl

module _ {ℓ} {A : Type ℓ} where
  All-insert_by {κ} :
      (P : A → Type κ) (le : A → A → Bool) (x : A) (xs : List A)
      → P x
      → All P xs
      → All P (insert_by le x xs)
  unfolding insert_by
  All-insert_by P le x [] p h = (p, tt)
  All-insert_by P le x (y ∷ ys) p h = elim (Bool-cases (le x y)) [
    | inl e ↦ rw e (p, h)
    | inr e ↦ rw e (h.0, All-insert_by P le x ys p h.1)
  ]

  module _ (le : A → A → Bool) (total : (a b : A) → le a b ≡ false → le b a ≡ true)
      (trans : (a b c : A) → le a b ≡ true → le b c ≡ true → le a c ≡ true) where
    Apart-insert_by :
        (x : A) (xs : List A)
        → Apart (λ a b. le a b ≡ true) xs
        → Apart (λ a b. le a b ≡ true) (insert_by le x xs)
    unfolding insert_by
    Apart-insert_by x [] h = (tt, tt)
    Apart-insert_by x (y ∷ ys) h = elim (Bool-cases (le x y)) [
      | inl e ↦ rw e ((e, All-map (λ b q. trans x y b e q) ys h.0), h)
      | inr e ↦ rw e (All-insert_by _ le x ys (total x y e) h.0, Apart-insert_by x ys h.1)
    ]

    -- ORDER BY sorts.
    pub Apart-order_by : (xs : List A) → Apart (λ a b. le a b ≡ true) (order_by le xs)
    unfolding order_by
    Apart-order_by [] = tt
    Apart-order_by (x ∷ xs) = Apart-insert_by x (order_by le xs) (Apart-order_by xs)

  All_map {κ μ} :
      {B : Type κ} (P : B → Type μ) (f : A → B) (xs : List A)
      → All (λ a. P (f a)) xs
      → All P (map f xs)
  All_map P f [] h = tt
  All_map P f (x ∷ xs) h = (h.0, All_map P f xs h.1)

  pub Apart-map {κ μ} :
      {B : Type κ} (R : B → B → Type μ) (f : A → B) (xs : List A)
      → Apart (λ a b. R (f a) (f b)) xs
      → Apart R (map f xs)
  Apart-map R f [] h = tt
  Apart-map R f (x ∷ xs) h = (All_map (R (f x)) f xs h.0, Apart-map R f xs h.1)
