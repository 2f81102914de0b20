-- ===== src/Web/Checkout/Contact.antt =====
-- `validate_contact` of crates/web/src/routes/checkout.rs and the schema of the orders.
use Prim.Native.Char.{code}
use Prim.Native.String.{String}
use tiny_shop.Prelude.{
  ℕ, ◌≡◌, refl, ap, ◌∙◌, Bool, true, false, ◌||◌, arith, ◌≤◌, ◌==◌, nat_eq, codes, ltb, Option,
  some, none, Bool-cases, inl, inr, if◌then◌else◌, ==_iff, subst,
}
use tiny_shop.Sql.{Result, ok, err}
use tiny_shop.Orders.{NewOrderContact, has_text}
use tiny_shop.Web.Strings.{byte_len, any_char, is_empty, split_once, trim}
use tiny_shop.Web.Checkout.{
  ContactForm, max_email_len, bad_name, bad_parts, trimmed, non_empty, validate_contact,
}

passed :
    (b : Bool) (message : String) (r : Result String NewOrderContact) (k : NewOrderContact)
    → (if b then err message else r) ≡ ok k
    → (b ≡ false) × (r ≡ ok k)
passed true message r k h = absurd (cc)
passed false message r k h = (refl, h)

-- A text with a character, but with no control character and no white space, has a character for the
-- tables.
has_text_lem :
    (p q : ℕ → Bool) (s : String)
    → q b' ' ≡ true
    → p 0 ≡ true
    → is_empty s ≡ false
    → any_char (λ c. p c || q c) s ≡ false
    → has_text (codes s) ≡ true
unfolding any_char is_empty
has_text_lem p q String.[] blank nul full h = absurd (cc)
has_text_lem p q (String.◌∷◌ c s) blank nul full h = elim (Bool-cases (code c == b' ')) [
  | inl e ↦
      let space : code c ≡ b' ' = (==_iff (code c) b' ').0 e in
      absurd (ground (arith, ap q space ∙ blank, h))
  | inr e ↦ elim (Bool-cases (code c == 0)) [
    | inl z ↦
        let none_there : code c ≡ 0 = (==_iff (code c) 0).0 z in
        absurd (ground (arith, ap p none_there ∙ nul, h))
    | inr z ↦ rw (e, z) refl
  ]
]

-- An address for the tables and the pages: at most 254 bytes, with a character behind its spaces, so
-- that the CHECK of `order_contact` on it holds, with no control character and no white space, and
-- made of two parts that are not empty, the second of them with a point.
pub record EmailFits (is_whitespace is_control : ℕ → Bool) (email : String) : Type 0 where
  pub short : byte_len email ≤ 254
  pub filled : has_text (codes email) ≡ true
  pub plain : any_char is_control email ≡ false
  pub unbroken : any_char is_whitespace email ≡ false
  pub local : String
  pub domain : String
  pub parts : split_once b'@' email ≡ some (local, domain)
  pub local_filled : is_empty local ≡ false
  pub domain_filled : is_empty domain ≡ false
  pub dotted : any_char (λ c. c == b'.') domain ≡ true

-- A name, if there is one: not empty, at most 200 bytes, and no control character.
abbrev pub NameFits : (ℕ → Bool) → Option String → Type 0
NameFits is_control none = Unit {0}
NameFits is_control (some name) =
    (is_empty name ≡ false) × (byte_len name ≤ 200) × (any_char is_control name ≡ false)

abbrev Fits : (ℕ → Bool) → (ℕ → Bool) → ContactForm → NewOrderContact → Type 0
Fits is_whitespace is_control form k =
    (k.email ≡ trim is_whitespace form.email)
    × EmailFits is_whitespace is_control k.email
    × NameFits is_control k.name

left_false :
    (p q : ℕ → Bool) (s : String) → any_char (λ c. p c || q c) s ≡ false → any_char p s ≡ false
unfolding any_char
left_false p q String.[] h = refl
left_false p q (String.◌∷◌ c s) h = ground (arith, left_false p q s)

right_false :
    (p q : ℕ → Bool) (s : String) → any_char (λ c. p c || q c) s ≡ false → any_char q s ≡ false
unfolding any_char
right_false p q String.[] h = refl
right_false p q (String.◌∷◌ c s) h = ground (arith, right_false p q s)

good_name :
    (is_whitespace is_control : ℕ → Bool) (name : Option String)
    → bad_name is_whitespace is_control (non_empty name) ≡ false
    → NameFits is_control (non_empty name)
unfolding is_empty
good_name is_whitespace is_control none h = tt
good_name is_whitespace is_control (some s) h = elim (Bool-cases (is_empty s)) [
  | inl e ↦ rw e tt
  | inr e ↦ let fits = rw e at h in rw e (e, ground (arith, fits), ground (arith, fits))
]

good_parts :
    (is_whitespace is_control : ℕ → Bool) (o : Option (String × String))
    → bad_parts is_whitespace is_control o ≡ false
    → (local : String) × (domain : String) × (o ≡ some (local, domain))
      × (is_empty local ≡ false)
      × (is_empty domain ≡ false)
      × (any_char (λ c. c == b'.') domain ≡ true)
good_parts is_whitespace is_control none h = absurd (cc)
good_parts is_whitespace is_control (some p) h =
    (p.0, p.1, refl, ground (arith, h), ground (arith, h), ground (arith, h))

-- An accepted form gives the trimmed address, which is at most 254 bytes long, has a character that
-- is no space, so that the CHECK of `order_contact` on it holds, has no control character and no
-- white space, and consists of two parts that are not empty, around the first `@`, with a point in
-- the second. A name, if there is one, is not empty, is at most 200 bytes long and has no control
-- character. The space is white space, and NUL is a control character.
pub validate_contact-fits :
    (is_whitespace is_control : ℕ → Bool) (form : ContactForm) (k : NewOrderContact)
    → is_whitespace b' ' ≡ true
    → is_control 0 ≡ true
    → validate_contact is_whitespace is_control form ≡ ok k
    → (k.email ≡ trim is_whitespace form.email)
      × EmailFits is_whitespace is_control k.email
      × NameFits is_control k.name
unfolding validate_contact
validate_contact-fits is_whitespace is_control form k blank nul h =
    let email = trim is_whitespace form.email in
    let name = trimmed is_whitespace is_control form.name in
    let (sized, h₁) = passed (is_empty email || ltb max_email_len (byte_len email)) _ _ k h in
    let (plain, h₂) = passed (any_char (λ c. is_control c || is_whitespace c) email) _ _ k h₁ in
    let (parted, h₃) =
      passed (bad_parts is_whitespace is_control (split_once b'@' email)) _ _ k h₂ in
    let (named, h₄) = passed (bad_name is_whitespace is_control (non_empty name)) _ _ k h₃ in
    let (local, domain, parts, left, right, dotted) =
      good_parts is_whitespace is_control (split_once b'@' email) parted in
    let same : record { email = email; name = non_empty name } ≡ k = cc in
    subst (Fits is_whitespace is_control form) same (
      refl,
      record {
        short = ground (arith, sized);
        filled =
            has_text_lem is_control is_whitespace email blank nul (ground (arith, sized)) plain;
        plain = left_false is_control is_whitespace email plain;
        unbroken = right_false is_control is_whitespace email plain;
        local = local;
        domain = domain;
        parts = parts;
        local_filled = left;
        domain_filled = right;
        dotted = dotted;
      },
      good_name is_whitespace is_control name named,
    )
