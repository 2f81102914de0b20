-- ===== src/Web/Texts/Price.antt =====
-- A price that `format_price_minor` of crates/web/src/jsonld.rs writes can be read back.
use Prim.Native.Char.{code}
use Prim.Native.String.{String}
use text.Mathlib.TextLemmas.{nil-append, cons-append}
use tiny_shop.Prelude.{
  ℕ, zero, suc, ◌+◌, ◌-◌, ◌*◌, ◌/◌, ◌%◌, ◌<◌, ◌≡◌, refl, sym, ap, ◌∙◌, Bool, true, false, ◌||◌,
  some, arith, ◌==◌, nat_eq, concat, ltb, leb, not, ◌&&◌, if◌then◌else◌, Bool-cases, inl, inr,
}
use tiny_shop.Prelude.Int.{ℤ, pos, negsuc}
use tiny_shop.Web.Strings.{byte_len, any_char, is_empty, split_once, cons_first}
use tiny_shop.Web.Strings.Parts.{split_once-front}
use tiny_shop.Web.Texts.{digit, decimal_from, decimal, two_digits, format_price_minor}

-- The number that a text of digits stands for, behind the digits read so far.
unfoldable pub number_from : ℕ → String → ℕ
number_from n String.[] = n
number_from n (String.◌∷◌ c s) = number_from (n * 10 + (code c - b'0')) s

-- A text of digits, with one at least.
abbrev pub is_digit : ℕ → Bool
is_digit c = leb b'0' c && leb c b'9'

abbrev pub is_number : String → Bool
is_number s = not (is_empty s) && not (any_char (λ c. not (is_digit c)) s)

abbrev pub minus : String → Bool
minus String.[] = false
minus (String.◌∷◌ c s) = code c == b'-'

abbrev pub unsigned : String → String
unsigned String.[] = String.[]
unsigned (String.◌∷◌ c s) = if code c == b'-' then s else String.◌∷◌ c s

abbrev pub signed : Bool → ℕ → ℤ
signed true zero = pos 0
signed true (suc n) = negsuc n
signed false n = pos n

-- A text that reads as an amount: a number in digits, with a minus sign or none in front, a point,
-- and two digits.
pub record Reads (s : String) (price : ℤ) : Type 0 where
  pub whole : String
  pub cents : String
  pub parts : split_once b'.' s ≡ some (whole, cents)
  pub whole_digits : is_number (unsigned whole) ≡ true
  pub cents_digits : is_number cents ≡ true
  pub two : byte_len cents ≡ 2
  pub value :
      signed (minus whole) (number_from 0 (unsigned whole) * 100 + number_from 0 cents) ≡ price

code-digit : (n : ℕ) → n < 10 → code (digit n) ≡ b'0' + n
unfolding digit
code-digit zero h = refl
code-digit (suc zero) h = refl
code-digit (suc (suc zero)) h = refl
code-digit (suc (suc (suc zero))) h = refl
code-digit (suc (suc (suc (suc zero)))) h = refl
code-digit (suc (suc (suc (suc (suc zero))))) h = refl
code-digit (suc (suc (suc (suc (suc (suc zero)))))) h = refl
code-digit (suc (suc (suc (suc (suc (suc (suc zero))))))) h = refl
code-digit (suc (suc (suc (suc (suc (suc (suc (suc zero)))))))) h = refl
code-digit (suc (suc (suc (suc (suc (suc (suc (suc (suc zero))))))))) h = refl
code-digit (suc (suc (suc (suc (suc (suc (suc (suc (suc (suc n)))))))))) h = absurd (omega arith)

-- Reading the digits of a number that is written in front of a text.
number_from-decimal_from :
    (fuel n : ℕ) (acc : String)
    → n < fuel
    → number_from 0 (decimal_from fuel n acc) ≡ number_from n acc
unfolding number_from decimal_from
number_from-decimal_from zero n acc h = absurd (omega arith)
number_from-decimal_from (suc fuel) n acc h = elim (Bool-cases (ltb n 10)) [
  | inl e ↦
      rw e (ap (λ m. number_from m acc) (ground (arith, e, code-digit (n % 10) (omega arith))))
  | inr e ↦ rw e (
      number_from-decimal_from fuel (n / 10) (String.◌∷◌ (digit (n % 10)) acc) (ground (arith, e))
      ∙ ap (λ m. number_from m acc) (omega (arith, code-digit (n % 10) (omega arith))))
]

-- A character below the digits is none of them.
no_digit : (x n : ℕ) → x < b'0' → n < 10 → (code (digit n) == x) ≡ false
no_digit x n hx hn = ground (arith, code-digit n hn)

-- What is false of every digit.
abbrev Spares : (ℕ → Bool) → Type 0
Spares p = (n : ℕ) → n < 10 → p (code (digit n)) ≡ false

any_char-decimal_from :
    (p : ℕ → Bool)
    → Spares p
    → (fuel n : ℕ) (acc : String) → any_char p (decimal_from fuel n acc) ≡ any_char p acc
unfolding any_char decimal_from
any_char-decimal_from p h zero n acc = refl
any_char-decimal_from p h (suc fuel) n acc =
    let other = h (n % 10) (omega arith) in
    elim (Bool-cases (ltb n 10)) [
      | inl e ↦ rw (e, other) refl
      | inr e ↦ rw e (
          any_char-decimal_from p h fuel (n / 10) (String.◌∷◌ (digit (n % 10)) acc) ∙ rw other refl)
    ]

pub any_char-decimal : (x n : ℕ) → x < b'0' → any_char (λ c. c == x) (decimal n) ≡ false
unfolding decimal any_char
any_char-decimal x n h =
    any_char-decimal_from (λ c. c == x) (λ m hm. no_digit x m h hm) (suc n) n String.[]

digit_is_digit : Spares (λ c. not (is_digit c))
digit_is_digit n h = ground (arith, code-digit n h)

is_empty-decimal_from :
    (fuel n : ℕ) (acc : String) → is_empty acc ≡ false → is_empty (decimal_from fuel n acc) ≡ false
unfolding decimal_from is_empty
is_empty-decimal_from zero n acc h = h
is_empty-decimal_from (suc fuel) n acc h = elim (Bool-cases (ltb n 10)) [
  | inl e ↦ rw e refl
  | inr e ↦ rw e (is_empty-decimal_from fuel (n / 10) (String.◌∷◌ (digit (n % 10)) acc) refl)
]

is_empty-decimal : (n : ℕ) → is_empty (decimal n) ≡ false
unfolding decimal decimal_from is_empty
is_empty-decimal n = elim (Bool-cases (ltb n 10)) [
  | inl e ↦ rw e refl
  | inr e ↦ rw e (is_empty-decimal_from n (n / 10) (String.◌∷◌ (digit (n % 10)) String.[]) refl)
]

is_number-decimal : (n : ℕ) → is_number (decimal n) ≡ true
unfolding decimal any_char
is_number-decimal n = ground (
  arith,
  is_empty-decimal n,
  any_char-decimal_from (λ c. not (is_digit c)) digit_is_digit (suc n) n String.[],
)

is_number-two_digits : (n : ℕ) → n < 100 → is_number (two_digits n) ≡ true
unfolding two_digits any_char is_empty
is_number-two_digits n h =
    ground (arith, digit_is_digit (n / 10) (omega arith), digit_is_digit (n % 10) (omega arith))

number_from-decimal : (n : ℕ) → number_from 0 (decimal n) ≡ n
unfolding decimal number_from
number_from-decimal n = number_from-decimal_from (suc n) n String.[] (omega arith)

minus-none : (s : String) → any_char (λ c. c == b'-') s ≡ false → minus s ≡ false
unfolding any_char
minus-none String.[] h = refl
minus-none (String.◌∷◌ c s) h = elim (Bool-cases (code c == b'-')) [
  | inl e ↦ absurd (cc (sym h ∙ ap (λ b. b || any_char (λ c. c == b'-') s) e))
  | inr e ↦ e
]

unsigned-none : (s : String) → minus s ≡ false → unsigned s ≡ s
unsigned-none String.[] h = refl
unsigned-none (String.◌∷◌ c s) h = rw h refl

two_digits-length : (n : ℕ) → n < 100 → byte_len (two_digits n) ≡ 2
unfolding byte_len two_digits
two_digits-length n h =
    ground (arith, code-digit (n / 10) (omega arith), code-digit (n % 10) (omega arith))

number_from-two_digits : (n : ℕ) → n < 100 → number_from 0 (two_digits n) ≡ n
unfolding number_from two_digits
number_from-two_digits n h =
    omega (arith, code-digit (n / 10) (omega arith), code-digit (n % 10) (omega arith))

dot : (cents : String) → concat "." cents ≡ String.◌∷◌ "." cents
dot cents = cons-append "." "" cents ∙ ap (String.◌∷◌ ".") (nil-append cents)

-- A whole number, a point and two digits.
format_pos :
    (n : ℕ)
    → split_once b'.' (format_price_minor (pos n)) ≡ some (decimal (n / 100), two_digits (n % 100))
unfolding format_price_minor
format_pos n =
    ap (split_once b'.') (
      nil-append (concat (decimal (n / 100)) (concat "." (two_digits (n % 100))))
      ∙ ap (concat (decimal (n / 100))) (dot (two_digits (n % 100))))
    ∙ split_once-front b'.' "." (decimal (n / 100)) (two_digits (n % 100)) refl
        (any_char-decimal b'.' (n / 100) (omega arith))

format_neg :
    (n : ℕ)
    → split_once b'.' (format_price_minor (negsuc n))
      ≡ some (String.◌∷◌ "-" (decimal (suc n / 100)), two_digits (suc n % 100))
unfolding format_price_minor split_once
format_neg n =
    ap (split_once b'.') (
      cons-append "-" "" (concat (decimal (suc n / 100)) (concat "." (two_digits (suc n % 100))))
      ∙ ap (String.◌∷◌ "-") (
          nil-append (concat (decimal (suc n / 100)) (concat "." (two_digits (suc n % 100))))
          ∙ ap (concat (decimal (suc n / 100))) (dot (two_digits (suc n % 100)))))
    ∙ ap (cons_first "-") (
        split_once-front b'.' "." (decimal (suc n / 100)) (two_digits (suc n % 100)) refl
          (any_char-decimal b'.' (suc n / 100) (omega arith)))

total : (m : ℕ) → number_from 0 (decimal (m / 100)) * 100 + number_from 0 (two_digits (m % 100)) ≡ m
total m =
    omega (arith, number_from-decimal (m / 100), number_from-two_digits (m % 100) (omega arith))

-- Every price is written as a text that reads as that price: a whole part of digits, with a minus
-- sign where the price is negative, a point, and two digits.
pub format_price_minor-Reads : (price : ℤ) → Reads (format_price_minor price) price
format_price_minor-Reads (pos n) =
    let plain = minus-none (decimal (n / 100)) (any_char-decimal b'-' (n / 100) (omega arith)) in
    record {
      whole = decimal (n / 100);
      cents = two_digits (n % 100);
      parts = format_pos n;
      whole_digits =
          ap is_number (unsigned-none (decimal (n / 100)) plain) ∙ is_number-decimal (n / 100);
      cents_digits = is_number-two_digits (n % 100) (omega arith);
      two = two_digits-length (n % 100) (omega arith);
      value = rw (plain, unsigned-none (decimal (n / 100)) plain) (ap pos (total n));
    }
format_price_minor-Reads (negsuc n) = record {
  whole = String.◌∷◌ "-" (decimal (suc n / 100));
  cents = two_digits (suc n % 100);
  parts = format_neg n;
  whole_digits = is_number-decimal (suc n / 100);
  cents_digits = is_number-two_digits (suc n % 100) (omega arith);
  two = two_digits-length (suc n % 100) (omega arith);
  value = ap (signed true) (total (suc n));
}
