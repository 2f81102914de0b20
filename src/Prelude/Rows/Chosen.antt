-- ===== src/Prelude/Rows/Chosen.antt =====
-- What holds of the rows of a selection, said of all rows.
use mathlib.Core.Path.{◌≡◌}
use mathlib.Core.Logic.{inl, inr}
use mathlib.Core.Bool.{Bool, true}
use mathlib.Core.List.{List, [], ◌∷◌}
use tiny_shop.Prelude.Tests.{Bool-cases}
use tiny_shop.Prelude.Rows.{filter, All}

module _ {A : Type 0} (P : A → Type 0) (p : A → Bool) where
  -- What holds of a selection, as a statement on all rows.
  pub selected : (xs : List A) → All P (filter p xs) → All (λ x. p x ≡ true → P x) xs
  unfolding filter
  selected [] h = tt
  selected (x ∷ xs) h = elim (Bool-cases (p x)) [
    | inl e ↦ let k = rw e at h in (λ _. k.0, selected xs k.1)
    | inr e ↦ (λ fits. absurd (cc (fits, e)), selected xs (rw e at h))
  ]

  pub select : (xs : List A) → All (λ x. p x ≡ true → P x) xs → All P (filter p xs)
  unfolding filter
  select [] h = tt
  select (x ∷ xs) h = elim (Bool-cases (p x)) [
    | inl e ↦ rw e (h.0 e, select xs h.1)
    | inr e ↦ rw e (select xs h.1)
  ]
