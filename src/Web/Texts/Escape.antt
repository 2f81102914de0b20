-- ===== src/Web/Texts/Escape.antt =====
-- What is escaped in crates/web/src/routes/sitemap.rs and jsonld.rs.
use Prim.Native.Char.{Char, code}
use Prim.Native.String.{String, ◌++◌}
use text.Mathlib.TextLemmas.{nil-append, cons-append, append_assoc}
use tiny_shop.Prelude.{
  ℕ, ◌≡◌, refl, sym, ap, ◌∙◌, false, arith, ◌==◌, nat_eq, concat, if◌then◌else◌, Bool-cases, inl,
  inr,
}
use tiny_shop.Web.Strings.{any_char}
use tiny_shop.Web.Strings.Parts.{any_char-append}
use tiny_shop.Web.Texts.{replace_char, escape_xml, escape_json}

-- The text of one character in an XML element, and of each of a text's characters.
unfoldable pub xml_char : Char → String
xml_char c =
    if code c == b'&'
    then "&amp;"
    else if code c == b'<'
    then "&lt;"
    else if code c == b'>'
    then "&gt;"
    else String.◌∷◌ c String.[]

unfoldable pub each_char : String → String
unfolding xml_char
each_char String.[] = String.[]
each_char (String.◌∷◌ c s) = concat (xml_char c) (each_char s)

replace_char-append :
    (from : ℕ) (to s t : String)
    → replace_char from to (s ++ t) ≡ replace_char from to s ++ replace_char from to t
unfolding replace_char
replace_char-append from to String.[] t =
    ap (replace_char from to) (nil-append t) ∙ sym (nil-append (replace_char from to t))
replace_char-append from to (String.◌∷◌ c s) t =
    ap (replace_char from to) (cons-append c s t) ∙ elim (Bool-cases (code c == from)) [
      | inl e ↦
          rw (e, replace_char-append from to s t, replace_char)
            (sym (append_assoc to (replace_char from to s) (replace_char from to t)))
      | inr e ↦
          rw (e, replace_char-append from to s t, replace_char)
            (sym (cons-append c (replace_char from to s) (replace_char from to t)))
    ]

pub any_char-replace_char :
    (from : ℕ) (to s : String)
    → any_char (λ c. c == from) to ≡ false
    → any_char (λ c. c == from) (replace_char from to s) ≡ false
unfolding any_char replace_char
any_char-replace_char from to String.[] h = refl
any_char-replace_char from to (String.◌∷◌ c s) h = elim (Bool-cases (code c == from)) [
  | inl e ↦
      rw (e, any_char-append (λ c. c == from) to (replace_char from to s), h)
        (any_char-replace_char from to s h)
  | inr e ↦ rw (e, e) (any_char-replace_char from to s h)
]

pub any_char-replace_other :
    (x from : ℕ) (to s : String)
    → any_char (λ c. c == x) to ≡ false
    → any_char (λ c. c == x) s ≡ false
    → any_char (λ c. c == x) (replace_char from to s) ≡ false
unfolding any_char replace_char
any_char-replace_other x from to String.[] h k = refl
any_char-replace_other x from to (String.◌∷◌ c s) h k = elim (Bool-cases (code c == from)) [
  | inl e ↦
      rw (e, any_char-append (λ c. c == x) to (replace_char from to s), h)
        (any_char-replace_other x from to s h (ground (arith, k)))
  | inr e ↦ rw e (ground (arith, k, any_char-replace_other x from to s h))
]

escape_xml-append : (s t : String) → escape_xml (s ++ t) ≡ escape_xml s ++ escape_xml t
unfolding escape_xml
escape_xml-append s t =
    let amp = replace_char b'&' "&amp;" in
    let lt = replace_char b'<' "&lt;" in
    ap (λ x. replace_char b'>' "&gt;" (lt x)) (replace_char-append b'&' "&amp;" s t)
    ∙ ap (replace_char b'>' "&gt;") (replace_char-append b'<' "&lt;" (amp s) (amp t))
    ∙ replace_char-append b'>' "&gt;" (lt (amp s)) (lt (amp t))

escape_one : (c : Char) → escape_xml (String.◌∷◌ c String.[]) ≡ xml_char c
unfolding escape_xml xml_char replace_char
escape_one c = elim (Bool-cases (code c == b'&')) [
  | inl e ↦ rw e refl
  | inr e ↦ elim (Bool-cases (code c == b'<')) [
    | inl f ↦ rw (e, f) refl
    | inr f ↦ elim (Bool-cases (code c == b'>')) [
      | inl g ↦ rw (e, f, g) refl
      | inr g ↦ rw (e, f, g) refl
    ]
  ]
]

empty : escape_xml String.[] ≡ String.[]
unfolding escape_xml replace_char
empty = refl

escape_xml-each_char : (s : String) → escape_xml s ≡ each_char s
unfolding each_char
escape_xml-each_char String.[] = empty
escape_xml-each_char (String.◌∷◌ c s) =
    ap escape_xml (sym (cons-append c String.[] s ∙ ap (String.◌∷◌ c) (nil-append s)))
    ∙ escape_xml-append (String.◌∷◌ c String.[]) s
    ∙ ap (λ x. x ++ escape_xml s) (escape_one c)
    ∙ ap (concat (xml_char c)) (escape_xml-each_char s)

no_angle :
    (c : Char)
    → (any_char (λ d. d == b'<') (xml_char c) ≡ false)
      × (any_char (λ d. d == b'>') (xml_char c) ≡ false)
unfolding any_char xml_char
no_angle c = elim (Bool-cases (code c == b'&')) [
  | inl e ↦ (rw e refl, rw e refl)
  | inr e ↦ elim (Bool-cases (code c == b'<')) [
    | inl f ↦ (rw (e, f) refl, rw (e, f) refl)
    | inr f ↦ elim (Bool-cases (code c == b'>')) [
      | inl g ↦ (rw (e, f, g) refl, rw (e, f, g) refl)
      | inr g ↦ (rw (e, f, g) (ground (arith, f)), rw (e, f, g) (ground (arith, g)))
    ]
  ]
]

no_angles :
    (s : String)
    → (any_char (λ d. d == b'<') (each_char s) ≡ false)
      × (any_char (λ d. d == b'>') (each_char s) ≡ false)
unfolding any_char each_char
no_angles String.[] = (refl, refl)
no_angles (String.◌∷◌ c s) =
    let (l, g) = no_angle c in
    let (ls, gs) = no_angles s in
    (
      any_char-append (λ d. d == b'<') (xml_char c) (each_char s) ∙ rw (l, ls) refl,
      any_char-append (λ d. d == b'>') (xml_char c) (each_char s) ∙ rw (g, gs) refl,
    )

-- The three replacements, one after the other, escape each character once: the ampersands that the
-- later ones write are not escaped again. What results has no `<` and no `>`.
pub escape_xml_lem :
    (s : String)
    → (escape_xml s ≡ each_char s)
      × (any_char (λ c. c == b'<') (escape_xml s) ≡ false)
      × (any_char (λ c. c == b'>') (escape_xml s) ≡ false)
escape_xml_lem s =
    let e = escape_xml-each_char s in
    let (l, g) = no_angles s in
    (e, ap (any_char (λ c. c == b'<')) e ∙ l, ap (any_char (λ c. c == b'>')) e ∙ g)

-- What `jsonld_script` puts into its element has no `<`, so that nothing in it ends the element.
pub escape_json-no_tag : (json : String) → any_char (λ c. c == b'<') (escape_json json) ≡ false
unfolding escape_json any_char
escape_json-no_tag json = any_char-replace_char b'<' "\\u003c" json refl
