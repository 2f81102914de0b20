-- ===== src/Web/Strings/Parts.antt =====
-- Texts of crates/web/src that are put together and taken apart again.
use Prim.Native.Char.{Char, code}
use Prim.Native.String.{String, ◌++◌}
use text.Mathlib.TextLemmas.{nil-append, cons-append}
use tiny_shop.Prelude.{
  ℕ, ◌≡◌, refl, ap, sym, ◌∙◌, Bool, true, false, ◌||◌, some, [], ◌∷◌, arith, ◌==◌, nat_eq,
  Bool-cases, inl, inr,
}
use tiny_shop.Web.Strings.{any_char, split_once, split}

-- A text without the separator is one part, alone and in front of the separator.
pub split-one : (sep : ℕ) (s : String) → any_char (λ c. c == sep) s ≡ false → split sep s ≡ s ∷ []
unfolding any_char split
split-one sep String.[] h = refl
split-one sep (String.◌∷◌ c s) h = elim (Bool-cases (code c == sep)) [
  | inl e ↦ absurd (cc (sym h ∙ ap (λ b. b || any_char (λ c. c == sep) s) e))
  | inr e ↦ rw (e, split-one sep s (sym (ap (λ b. b || any_char (λ c. c == sep) s) e) ∙ h)) refl
]

pub split-front :
    (sep : ℕ) (d : Char) (s t : String)
    → (code d == sep) ≡ true
    → any_char (λ c. c == sep) s ≡ false
    → split sep (s ++ String.◌∷◌ d t) ≡ s ∷ split sep t
unfolding any_char split
split-front sep d String.[] t q h =
    ap (split sep) (nil-append (String.◌∷◌ d t)) ∙ rw (q, split) refl
split-front sep d (String.◌∷◌ c s) t q h =
    ap (split sep) (cons-append c s (String.◌∷◌ d t)) ∙ elim (Bool-cases (code c == sep)) [
      | inl e ↦ absurd (cc (sym h ∙ ap (λ b. b || any_char (λ c. c == sep) s) e))
      | inr e ↦
          rw
            (
              e,
              split-front sep d s t q (sym (ap (λ b. b || any_char (λ c. c == sep) s) e) ∙ h),
              split,
            )
            refl
    ]

pub split_once-front :
    (sep : ℕ) (d : Char) (s t : String)
    → (code d == sep) ≡ true
    → any_char (λ c. c == sep) s ≡ false
    → split_once sep (s ++ String.◌∷◌ d t) ≡ some (s, t)
unfolding any_char split_once
split_once-front sep d String.[] t q h =
    ap (split_once sep) (nil-append (String.◌∷◌ d t)) ∙ rw (q, split_once) refl
split_once-front sep d (String.◌∷◌ c s) t q h =
    ap (split_once sep) (cons-append c s (String.◌∷◌ d t)) ∙ elim (Bool-cases (code c == sep)) [
      | inl e ↦ absurd (cc (sym h ∙ ap (λ b. b || any_char (λ c. c == sep) s) e))
      | inr e ↦
          rw
            (
              e,
              split_once-front sep d s t q (sym (ap (λ b. b || any_char (λ c. c == sep) s) e) ∙ h),
              split_once,
            )
            refl
    ]

pub any_char-append :
    (p : ℕ → Bool) (s t : String) → any_char p (s ++ t) ≡ (any_char p s || any_char p t)
unfolding any_char
any_char-append p String.[] t = ap (any_char p) (nil-append t)
any_char-append p (String.◌∷◌ c s) t =
    ap (any_char p) (cons-append c s t) ∙ ground (arith, any_char-append p s t)
