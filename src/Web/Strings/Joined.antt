-- ===== src/Web/Strings/Joined.antt =====
-- Texts that are joined by a separator.
use Prim.Native.Char.{Char, code}
use Prim.Native.String.{String}
use text.Mathlib.TextLemmas.{nil-append, cons-append}
use tiny_shop.Prelude.{
  ℕ, ◌≡◌, refl, ap, ◌∙◌, true, List, [], ◌∷◌, ◌++◌, ◌==◌, nat_eq, concat, Bool-cases, inl, inr,
}
use tiny_shop.Web.Strings.{split, onto_first}

-- A split text has a first part.
first-split : (sep : ℕ) (s : String) → (h : String) × (t : List String) × (split sep s ≡ h ∷ t)
unfolding split
first-split sep String.[] = (String.[], [], refl)
first-split sep (String.◌∷◌ c s) = elim (Bool-cases (code c == sep)) [
  | inl e ↦ (String.[], split sep s, rw e refl)
  | inr e ↦ let (h, t, k) = first-split sep s in (String.◌∷◌ c h, t, rw (e, k) refl)
]

onto_first-append :
    (c : Char) (l m : List String) (h : String) (t : List String)
    → l ≡ h ∷ t
    → onto_first c (l ++ m) ≡ onto_first c l ++ m
onto_first-append c l m h t e = rw e refl

-- A text with a separator in it has the parts of what stands before and behind.
pub split-append :
    (sep : ℕ) (d : Char) (s t : String)
    → (code d == sep) ≡ true
    → split sep (concat s (String.◌∷◌ d t)) ≡ split sep s ++ split sep t
unfolding split
split-append sep d String.[] t q = ap (split sep) (nil-append (String.◌∷◌ d t)) ∙ rw (q, split) refl
split-append sep d (String.◌∷◌ c s) t q =
    ap (split sep) (cons-append c s (String.◌∷◌ d t)) ∙ elim (Bool-cases (code c == sep)) [
      | inl e ↦ rw (e, split-append sep d s t q) refl
      | inr e ↦
          let (h, rest, k) = first-split sep s in
          rw (e, split-append sep d s t q)
            (onto_first-append c (split sep s) (split sep t) h rest k)
    ]
