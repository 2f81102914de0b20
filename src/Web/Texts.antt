-- ===== src/Web/Texts.antt =====
-- The texts that crates/web/src/jsonld.rs and routes/sitemap.rs make: prices, and what is escaped.
pub mod Price
pub mod Escape
use Prim.Native.Char.{Char, code}
use Prim.Native.String.{String}
use tiny_shop.Prelude.{
  ℕ, zero, suc, ◌+◌, ◌*◌, ◌/◌, ◌%◌, Bool, true, false, ◌==◌, nat_eq, concat, ltb, if◌then◌else◌,
}
use tiny_shop.Prelude.Int.{ℤ, pos, negsuc}

-- `s.replace(from, to)`, for one character.
unfoldable pub replace_char : ℕ → String → String → String
replace_char from to String.[] = String.[]
replace_char from to (String.◌∷◌ c s) =
    let rest = replace_char from to s in
    if code c == from then concat to rest else String.◌∷◌ c rest

unfoldable pub escape_xml : String → String
unfolding replace_char
escape_xml s = replace_char b'>' "&gt;" (replace_char b'<' "&lt;" (replace_char b'&' "&amp;" s))

-- What `jsonld_script` makes of the text that `serde_json` gives.
unfoldable pub escape_json : String → String
unfolding replace_char
escape_json json = replace_char b'<' "\\u003c" json

-- The digits of a number, as `Display` writes it.
unfoldable pub digit : ℕ → Char
digit zero = "0"
digit (suc zero) = "1"
digit (suc (suc zero)) = "2"
digit (suc (suc (suc zero))) = "3"
digit (suc (suc (suc (suc zero)))) = "4"
digit (suc (suc (suc (suc (suc zero))))) = "5"
digit (suc (suc (suc (suc (suc (suc zero)))))) = "6"
digit (suc (suc (suc (suc (suc (suc (suc zero))))))) = "7"
digit (suc (suc (suc (suc (suc (suc (suc (suc zero)))))))) = "8"
digit n = "9"

unfoldable pub decimal_from : ℕ → ℕ → String → String
unfolding digit
decimal_from zero n acc = acc
decimal_from (suc fuel) n acc =
    let here = String.◌∷◌ (digit (n % 10)) acc in
    let rest = decimal_from fuel (n / 10) here in if ltb n 10 then here else rest

unfoldable pub decimal : ℕ → String
unfolding decimal_from
decimal n = decimal_from (suc n) n String.[]

-- `{:02}` of a number below 100.
unfoldable pub two_digits : ℕ → String
unfolding digit
two_digits n = String.◌∷◌ (digit (n / 10)) (String.◌∷◌ (digit (n % 10)) String.[])

-- `price_minor.unsigned_abs()`
abbrev pub unsigned_abs : ℤ → ℕ
unsigned_abs (pos n) = n
unsigned_abs (negsuc n) = suc n

abbrev pub sign_of : ℤ → String
sign_of (pos n) = ""
sign_of (negsuc n) = "-"

unfoldable pub format_price_minor : ℤ → String
unfolding decimal two_digits
format_price_minor price_minor =
    let whole = decimal (unsigned_abs price_minor / 100) in
    let cents = two_digits (unsigned_abs price_minor % 100) in
    concat (sign_of price_minor) (concat whole (concat "." cents))
