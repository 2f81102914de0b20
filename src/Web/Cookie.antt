-- ===== src/Web/Cookie.antt =====
-- crates/web/src/cart_cookie.rs. The `Cookie` header is absent, or the text that `to_str` makes of
-- it; a header that is no text is read like an absent one.
pub mod RoundTrip
use tiny_shop.Prelude.{
  ℕ, String, Bool, true, false, not, ◌&&◌, Option, none, some, List, [], ◌∷◌, ◌==◌, string_eq,
  concat, if◌then◌else◌,
}
use tiny_shop.Web.Strings.{is_empty, split_once, split, trim}

abbrev pub cart_cookie_name : String
cart_cookie_name = "cart"

abbrev pub secure_attr : Bool → String
secure_attr true = "; Secure"
secure_attr false = ""

unfoldable pub set_cart_cookie : String → Bool → String
set_cart_cookie raw_token secure = concat cart_cookie_name (
    concat "=" (
      concat raw_token
        (concat "; HttpOnly; SameSite=Lax; Path=/; Max-Age=2592000" (secure_attr secure))))

unfoldable pub expire_cart_cookie : Bool → String
expire_cart_cookie secure =
    concat cart_cookie_name
      (concat "=; HttpOnly; SameSite=Lax; Path=/; Max-Age=0" (secure_attr secure))

-- The token of `name=value`, where the name is the cookie's and the value is not empty.
abbrev pub token_of : Option (String × String) → Option String
token_of none = none
token_of (some p) = if p.0 == cart_cookie_name && not (is_empty p.1) then some p.1 else none

module _ (is_whitespace : ℕ → Bool) where
  unfoldable pub token_of_pair : String → Option String
  unfolding trim split_once is_empty
  token_of_pair pair = token_of (split_once b'=' (trim is_whitespace pair))

  -- `find_map`
  unfoldable pub first_token : List String → Option String
  unfolding token_of_pair
  first_token [] = none
  first_token (pair ∷ pairs) =
      let rest = first_token pairs in
      elim (token_of_pair pair) [ some token ↦ some token | none ↦ rest ]

  unfoldable pub extract_cart_token : Option String → Option String
  unfolding first_token split
  extract_cart_token none = none
  extract_cart_token (some raw) = first_token (split b';' raw)
