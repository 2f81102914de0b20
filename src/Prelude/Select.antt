-- ===== src/Prelude/Select.antt =====
-- What a SELECT shows after an UPDATE, a DELETE or an INSERT.
use mathlib.Core.Path.{◌≡◌, refl, subst}
use mathlib.Core.Logic.{inl, inr}
use mathlib.Core.Bool.{Bool, true, false}
use mathlib.Core.Option.{Option, none, some}
use mathlib.Core.Option
use mathlib.Core.List.{List, [], ◌∷◌, ◌++◌}
use native.Mathlib.Omega.{arith}
use tiny_shop.Prelude.Tests.{if◌then◌else◌, Bool-cases}
use tiny_shop.Prelude.Rows.{filter, find?, any, update_where, delete_where, All}

module _ {ℓ} {A : Type ℓ} where
  -- The rows that the other statement does not touch, and does not bring into the selection.
  pub filter-update_where :
      (q p : A → Bool) (f : A → A) (xs : List A)
      → ((a : A) → p a ≡ true → q a ≡ false)
      → ((a : A) → p a ≡ true → q (f a) ≡ false)
      → filter q (update_where p f xs) ≡ filter q xs
  unfolding filter update_where
  filter-update_where q p f [] l r = refl
  filter-update_where q p f (x ∷ xs) l r = elim (Bool-cases (p x)) [
    | inl e ↦ rw (e, l x e, r x e) (filter-update_where q p f xs l r)
    | inr e ↦ rw (e, filter-update_where q p f xs l r) refl
  ]

  pub filter-delete_where :
      (q p : A → Bool) (xs : List A)
      → ((a : A) → p a ≡ true → q a ≡ false)
      → filter q (delete_where p xs) ≡ filter q xs
  unfolding filter delete_where
  filter-delete_where q p [] h = refl
  filter-delete_where q p (x ∷ xs) h = elim (Bool-cases (p x)) [
    | inl e ↦ rw (e, h x e) (filter-delete_where q p xs h)
    | inr e ↦ rw (e, filter-delete_where q p xs h) refl
  ]

  -- No row is left that a DELETE was to remove.
  pub find?-delete_where : (p : A → Bool) (xs : List A) → find? p (delete_where p xs) ≡ none
  unfolding find? delete_where filter
  find?-delete_where p [] = refl
  find?-delete_where p (x ∷ xs) = elim (Bool-cases (p x)) [
    | inl e ↦ rw e (find?-delete_where p xs)
    | inr e ↦ rw (e, e) (find?-delete_where p xs)
  ]

  pub find?-delete_ne :
      (q p : A → Bool) (xs : List A)
      → ((a : A) → p a ≡ true → q a ≡ false)
      → find? q (delete_where p xs) ≡ find? q xs
  unfolding find? delete_where filter
  find?-delete_ne q p [] h = refl
  find?-delete_ne q p (x ∷ xs) h = elim (Bool-cases (p x)) [
    | inl e ↦ rw (e, h x e) (find?-delete_ne q p xs h)
    | inr e ↦ rw (e, find?-delete_ne q p xs h) refl
  ]

  -- The row that an UPDATE was to change, where it still fits the test.
  pub find?-update_where :
      (p : A → Bool) (f : A → A) (xs : List A)
      → ((a : A) → p a ≡ true → p (f a) ≡ true)
      → find? p (update_where p f xs) ≡ Option.map f (find? p xs)
  unfolding find? update_where
  find?-update_where p f [] h = refl
  find?-update_where p f (x ∷ xs) h = elim (Bool-cases (p x)) [
    | inl e ↦ rw (e, h x e) refl
    | inr e ↦ rw (e, e) (find?-update_where p f xs h)
  ]

  pub find?-update_ne :
      (q p : A → Bool) (f : A → A) (xs : List A)
      → ((a : A) → p a ≡ true → q a ≡ false)
      → ((a : A) → p a ≡ true → q (f a) ≡ false)
      → find? q (update_where p f xs) ≡ find? q xs
  unfolding find? update_where
  find?-update_ne q p f [] l r = refl
  find?-update_ne q p f (x ∷ xs) l r = elim (Bool-cases (p x)) [
    | inl e ↦ rw (e, l x e, r x e) (find?-update_ne q p f xs l r)
    | inr e ↦ rw (e, find?-update_ne q p f xs l r) refl
  ]

  pub find?-append_one :
      (p : A → Bool) (xs : List A) (y : A)
      → find? p (xs ++ y ∷ [])
        ≡ elim (find? p xs) [ some x ↦ some x | none ↦ if p y then some y else none ]
  unfolding find?
  find?-append_one p [] y = refl
  find?-append_one p (x ∷ xs) y = ground (arith, find?-append_one p xs y)

  pub find?-last :
      (p : A → Bool) (xs : List A) (y : A)
      → any p xs ≡ false
      → p y ≡ true
      → find? p (xs ++ y ∷ []) ≡ some y
  unfolding find? any
  find?-last p [] y new hit = rw hit refl
  find?-last p (x ∷ xs) y new hit = ground (arith, find?-last p xs y)

  pub find?-any :
      (p : A → Bool) (xs : List A) → any p xs ≡ elim (find? p xs) [ some x ↦ true | none ↦ false ]
  unfolding find? any
  find?-any p [] = refl
  find?-any p (x ∷ xs) = ground (arith, find?-any p xs)

  -- Where no row fits, nothing is counted, changed or removed.
  pub filter_of_none : (p : A → Bool) (xs : List A) → find? p xs ≡ none → filter p xs ≡ []
  unfolding find? filter
  filter_of_none p [] h = refl
  filter_of_none p (x ∷ xs) h = ground (arith, filter_of_none p xs)

  pub update_of_none :
      (p : A → Bool) (f : A → A) (xs : List A) → find? p xs ≡ none → update_where p f xs ≡ xs
  unfolding find? update_where
  update_of_none p f [] h = refl
  update_of_none p f (x ∷ xs) h = ground (arith, update_of_none p f xs)

  pub delete_of_none : (p : A → Bool) (xs : List A) → find? p xs ≡ none → delete_where p xs ≡ xs
  unfolding find? delete_where filter
  delete_of_none p [] h = refl
  delete_of_none p (x ∷ xs) h = ground (arith, delete_of_none p xs)

  -- What is found fits.
  pub find?-fits : (p : A → Bool) (xs : List A) (x : A) → find? p xs ≡ some x → p x ≡ true
  unfolding find?
  find?-fits p [] x h = cc
  find?-fits p (y ∷ ys) x h = ground (arith, find?-fits p ys x)

  pub All_of_find? {κ} :
      (P : A → Type κ) (p : A → Bool) (xs : List A) (x : A) → find? p xs ≡ some x → All P xs → P x
  unfolding find?
  All_of_find? P p [] x h a = absurd (cc)
  All_of_find? P p (y ∷ ys) x h a = elim (Bool-cases (p y)) [
    | inl e ↦ subst P (ground arith) a.0
    | inr e ↦ All_of_find? P p ys x (ground arith) a.1
  ]

module _ {ℓ} {A : Type ℓ} where
  -- An UPDATE or a DELETE that runs again changes nothing more.
  pub update_where_twice :
      (p : A → Bool) (f : A → A) (xs : List A)
      → ((a : A) → p a ≡ true → p (f a) ≡ true)
      → ((a : A) → f (f a) ≡ f a)
      → update_where p f (update_where p f xs) ≡ update_where p f xs
  unfolding update_where
  update_where_twice p f [] stay same = refl
  update_where_twice p f (x ∷ xs) stay same = elim (Bool-cases (p x)) [
    | inl e ↦ rw (e, stay x e, same x, update_where_twice p f xs stay same) refl
    | inr e ↦ rw (e, e, update_where_twice p f xs stay same) refl
  ]

  pub delete_where_twice :
      (p : A → Bool) (xs : List A) → delete_where p (delete_where p xs) ≡ delete_where p xs
  unfolding delete_where filter
  delete_where_twice p [] = refl
  delete_where_twice p (x ∷ xs) = elim (Bool-cases (p x)) [
    | inl e ↦ rw e (delete_where_twice p xs)
    | inr e ↦ rw (e, e, delete_where_twice p xs) refl
  ]

  -- A row that is replaced by deleting it and putting it behind the others, and replaced again.
  pub delete_where-append_one :
      (p : A → Bool) (xs : List A) (y : A)
      → p y ≡ true
      → delete_where p (delete_where p xs ++ y ∷ []) ≡ delete_where p xs
  unfolding delete_where filter
  delete_where-append_one p [] y h = rw h refl
  delete_where-append_one p (x ∷ xs) y h = elim (Bool-cases (p x)) [
    | inl e ↦ rw e (delete_where-append_one p xs y h)
    | inr e ↦ rw (e, e, delete_where-append_one p xs y h) refl
  ]

  pub any-update_ne :
      (q p : A → Bool) (f : A → A) (xs : List A)
      → ((a : A) → p a ≡ true → q a ≡ false)
      → ((a : A) → p a ≡ true → q (f a) ≡ false)
      → any q (update_where p f xs) ≡ any q xs
  unfolding any update_where
  any-update_ne q p f [] l r = refl
  any-update_ne q p f (x ∷ xs) l r = elim (Bool-cases (p x)) [
    | inl e ↦ rw (e, l x e, r x e) (any-update_ne q p f xs l r)
    | inr e ↦ rw (e, any-update_ne q p f xs l r) refl
  ]

  -- A new row behind rows that do not fit, set to what it is.
  pub update_where-append_one :
      (p : A → Bool) (f : A → A) (xs : List A) (y : A)
      → any p xs ≡ false
      → f y ≡ y
      → update_where p f (xs ++ y ∷ []) ≡ xs ++ y ∷ []
  unfolding any update_where
  update_where-append_one p f [] y new same = elim (Bool-cases (p y)) [
    | inl e ↦ rw (e, same) refl
    | inr e ↦ rw e refl
  ]
  update_where-append_one p f (x ∷ xs) y new same =
      let e : p x ≡ false = ground arith in
      let rest : any p xs ≡ false = ground arith in
      rw (e, update_where-append_one p f xs y rest same) refl

  pub any_of_last : (p : A → Bool) (xs : List A) (y : A) → p y ≡ true → any p (xs ++ y ∷ []) ≡ true
  unfolding any
  any_of_last p [] y h = rw h refl
  any_of_last p (x ∷ xs) y h =
      rw (any_of_last p xs y h) (elim (Bool-cases (p x)) [ inl e ↦ rw e refl | inr e ↦ rw e refl ])
