-- ===== src/Web/Cookie/RoundTrip.antt =====
-- A cookie of crates/web/src/cart_cookie.rs that comes back with the next request.
use Prim.Native.Char.{Char, code}
use Prim.Native.String.{String}
use text.Mathlib.TextLemmas.{nil-append, cons-append}
use tiny_shop.Prelude.{
  ℕ, ◌≡◌, refl, ap, sym, ◌∙◌, Bool, false, ◌||◌, Option, some, none, List, [], ◌∷◌, ◌==◌, nat_eq,
  string_eq, concat, Bool-cases, inl, inr,
}
use tiny_shop.Web.Strings.{
  onto_first, any_char, is_empty, split_once, split, trim_start, trim_end, kept_end, trim,
}
use tiny_shop.Web.Strings.Parts.{split-one, split-front}
use tiny_shop.Web.Cookie.{
  secure_attr, set_cart_cookie, extract_cart_token, first_token, token_of_pair,
}

-- The part of a `Set-Cookie` value that a browser keeps and sends: what stands before the first `;`.
abbrev pub first_part : List String → Option String
first_part [] = none
first_part (s ∷ rest) = some s

-- `cart=` and a text, by its characters.
abbrev spelled : String → String
spelled s = String.◌∷◌ "c" (String.◌∷◌ "a" (String.◌∷◌ "r" (String.◌∷◌ "t" (String.◌∷◌ "=" s))))

abbrev onto_cart : List String → List String
onto_cart l = onto_first "c" (onto_first "a" (onto_first "r" (onto_first "t" (onto_first "=" l))))

cart_spelled : (s : String) → concat "cart" (concat "=" s) ≡ spelled s
cart_spelled s =
    cons-append "c" "art" (concat "=" s)
    ∙ ap (String.◌∷◌ "c") (
        cons-append "a" "rt" (concat "=" s)
        ∙ ap (String.◌∷◌ "a") (
            cons-append "r" "t" (concat "=" s)
            ∙ ap (String.◌∷◌ "r") (
                cons-append "t" "" (concat "=" s)
                ∙ ap (String.◌∷◌ "t") (
                    nil-append (concat "=" s)
                    ∙ cons-append "=" "" s
                    ∙ ap (String.◌∷◌ "=") (nil-append s)))))

module _ (is_whitespace : ℕ → Bool) where
  trim_end-none : (s : String) → any_char is_whitespace s ≡ false → trim_end is_whitespace s ≡ s
  unfolding any_char trim_end
  trim_end-none String.[] h = refl
  trim_end-none (String.◌∷◌ c String.[]) h = elim (Bool-cases (is_whitespace (code c))) [
    | inl e ↦ absurd (cc (sym h ∙ ap (λ b. b || false) e))
    | inr e ↦ rw e refl
  ]
  trim_end-none (String.◌∷◌ c (String.◌∷◌ d s)) h = elim (Bool-cases (is_whitespace (code c))) [
    | inl e ↦ absurd (cc (sym h ∙ ap (λ b. b || any_char is_whitespace (String.◌∷◌ d s)) e))
    | inr e ↦ ap (kept_end is_whitespace c) (
        trim_end-none (String.◌∷◌ d s)
          (sym (ap (λ b. b || any_char is_whitespace (String.◌∷◌ d s)) e) ∙ h))
  ]

  trim-spelled :
      (d : Char) (s : String)
      → is_whitespace b'c' ≡ false
      → any_char is_whitespace (String.◌∷◌ d s) ≡ false
      → trim is_whitespace (spelled (String.◌∷◌ d s)) ≡ spelled (String.◌∷◌ d s)
  unfolding trim trim_start trim_end
  trim-spelled d s first h =
      let start : trim_start is_whitespace (spelled (String.◌∷◌ d s)) ≡ spelled (String.◌∷◌ d s) =
        rw (first, trim_start) refl in
      ap (trim_end is_whitespace) start
      ∙ ap
          (λ t. kept_end is_whitespace "c" (
            kept_end is_whitespace "a" (
              kept_end is_whitespace "r"
                (kept_end is_whitespace "t" (kept_end is_whitespace "=" t)))))
          (trim_end-none (String.◌∷◌ d s) h)

  pair-token :
      (d : Char) (s : String)
      → is_whitespace b'c' ≡ false
      → any_char is_whitespace (String.◌∷◌ d s) ≡ false
      → token_of_pair is_whitespace (spelled (String.◌∷◌ d s)) ≡ some (String.◌∷◌ d s)
  unfolding token_of_pair split_once is_empty
  pair-token d s first h = rw (trim-spelled d s first h) refl

  extract-spelled :
      (d : Char) (s : String)
      → is_whitespace b'c' ≡ false
      → any_char is_whitespace (String.◌∷◌ d s) ≡ false
      → any_char (λ c. c == b';') (String.◌∷◌ d s) ≡ false
      → extract_cart_token is_whitespace (some (spelled (String.◌∷◌ d s))) ≡ some (String.◌∷◌ d s)
  unfolding extract_cart_token first_token split
  extract-spelled d s first h k =
      ap (λ l. first_token is_whitespace (onto_cart l)) (split-one b';' (String.◌∷◌ d s) k)
      ∙ rw (pair-token d s first h, first_token) refl

abbrev tail_of : Bool → String
tail_of secure = concat " HttpOnly; SameSite=Lax; Path=/; Max-Age=2592000" (secure_attr secure)

sent :
    (raw : String) (secure : Bool)
    → set_cart_cookie raw secure ≡ spelled (concat raw (String.◌∷◌ ";" (tail_of secure)))
unfolding set_cart_cookie
sent raw secure =
    cart_spelled
      (concat raw (concat "; HttpOnly; SameSite=Lax; Path=/; Max-Age=2592000" (secure_attr secure)))
    ∙ ap (λ t. spelled (concat raw t))
        (cons-append ";" " HttpOnly; SameSite=Lax; Path=/; Max-Age=2592000" (secure_attr secure))

kept_part :
    (raw : String) (secure : Bool)
    → any_char (λ c. c == b';') raw ≡ false
    → first_part (split b';' (set_cart_cookie raw secure)) ≡ some (spelled raw)
unfolding split
kept_part raw secure h =
    ap (λ t. first_part (split b';' t)) (sent raw secure)
    ∙ ap (λ l. first_part (onto_cart l)) (split-front b';' ";" raw (tail_of secure) refl h)

-- The token of a `Set-Cookie` value, whose part in front of the first `;` a browser sends with its
-- next request, is read out of that request's `Cookie` header. The token is not empty and has no
-- white space and no `;`, and the letter c is no white space.
pub extract_cart_token-set_cart_cookie :
    (is_whitespace : ℕ → Bool) (raw : String) (secure : Bool)
    → is_whitespace b'c' ≡ false
    → is_empty raw ≡ false
    → any_char is_whitespace raw ≡ false
    → any_char (λ c. c == b';') raw ≡ false
    → extract_cart_token is_whitespace (first_part (split b';' (set_cart_cookie raw secure)))
      ≡ some raw
unfolding is_empty
extract_cart_token-set_cart_cookie is_whitespace String.[] secure first full h k = absurd (cc)
extract_cart_token-set_cart_cookie is_whitespace (String.◌∷◌ d s) secure first full h k =
    ap (extract_cart_token is_whitespace) (kept_part (String.◌∷◌ d s) secure k)
    ∙ extract-spelled is_whitespace d s first h k
