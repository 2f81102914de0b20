-- ===== src/Web/Checkout.antt =====
-- crates/web/src/routes/checkout.rs: the checkout of a guest, over the carts, the orders and the
-- catalog. A page is given by what it shows.
pub mod Routes
pub mod Items
pub mod Outcomes
pub mod Stages
pub mod Guest
pub mod Contact
pub mod Total
use tiny_shop.Prelude.{
  ℕ, zero, suc, ◌+◌, String, Bool, true, false, not, ◌&&◌, ◌||◌, Option, none, some, List, [], ◌∷◌,
  ◌++◌, ◌==◌, string_eq, nat_eq, any, ltb, concat, if◌then◌else◌,
}
use tiny_shop.Prelude.Int.{ℤ, ◌+ℤ◌, ◌*ℤ◌, saturate}
use tiny_shop.Sql.{Result, ok, err, Conn, SqlError}
use tiny_shop.Shared.Json.{Json}
use tiny_shop.Cart.{Cart, CartItem, CartTables, find_by_token, list_items, clear}
use tiny_shop.Orders.{Order, NewOrderItem, NewOrderContact}
use tiny_shop.Orders.Repo.{Tables, get_order_with_items, checkout}
use tiny_shop.Catalog.{CatalogTables, ProductView, backend}
use tiny_shop.Catalog.Search.Adapter.{get_card_by_id}
use tiny_shop.Web.{WebError, not_found, bad_request, internal, Display, from_cart, from_order}
use tiny_shop.Web.Strings.{byte_len, any_char, is_empty, split_once, trim}
use tiny_shop.Web.Cookie.{extract_cart_token, expire_cart_cookie}

abbrev pub max_email_len : ℕ
max_email_len = 254

abbrev pub max_name_len : ℕ
max_name_len = 200

pub record ContactForm : Type 0 where
  pub email : String
  pub name : Option String

pub data Response (V : Type 0) : Type 0 where
  -- 303, with the cookie that is set
  see_other : Option String → String → Response V
  -- 200: the items, their total and its currency
  summary : List CartItem → ℤ → String → Response V
  -- 400: the summary again, with the form as it was filled in and a message
  invalid_contact : List CartItem → ContactForm → String → Response V
  confirmation : Order V → Response V

-- The fold of `summary_table`.
unfoldable pub total_from : ℤ → List CartItem → ℤ
total_from acc [] = acc
total_from acc (i ∷ is) = total_from (saturate (acc +ℤ saturate (i.unit_price_minor *ℤ i.qty))) is

unfoldable pub summary_currency : List CartItem → String
summary_currency [] = "UAH"
summary_currency (i ∷ is) = i.currency

-- `.filter(|s| !s.is_empty())`
abbrev pub non_empty : Option String → Option String
non_empty none = none
non_empty (some s) = if is_empty s then none else some s

module _ (is_whitespace is_control : ℕ → Bool) where
  abbrev pub trimmed : Option String → Option String
  trimmed none = none
  trimmed (some s) = some (trim is_whitespace s)

  abbrev pub bad_name : Option String → Bool
  bad_name none = false
  bad_name (some s) = ltb max_name_len (byte_len s) || any_char is_control s

  abbrev pub bad_parts : Option (String × String) → Bool
  bad_parts none = true
  bad_parts (some p) = is_empty p.0 || (is_empty p.1 || not (any_char (λ c. c == b'.') p.1))

  unfoldable pub validate_contact : ContactForm → Result String NewOrderContact
  unfolding byte_len any_char is_empty split_once trim
  validate_contact form =
      let email = trim is_whitespace form.email in
      let name = non_empty (trimmed form.name) in
      if is_empty email || ltb max_email_len (byte_len email)
      then err "Вкажіть коректну електронну пошту."
      else if any_char (λ c. is_control c || is_whitespace c) email
      then err "Електронна пошта містить недопустимі символи."
      else if bad_parts (split_once b'@' email)
      then err "Вкажіть коректну електронну пошту."
      else if bad_name name
      then err "Ім'я містить недопустимі символи або занадто довге."
      else ok (record { email = email; name = name })
