-- ===== src/Web.antt =====
-- crates/web/src: what the routes answer with, and crates/web/src/error.rs. The text of an error or
-- of a number is a parameter, and so are the pages that `maud` makes.
pub mod Strings
pub mod Cookie
pub mod Checkout
pub mod Basket
pub mod Texts
pub mod Pages
pub mod Sitemap
pub mod Category
mod Tests
use tiny_shop.Prelude.{String, concat}
use tiny_shop.Prelude.Int.{ℤ}
use tiny_shop.Sql.{SqlError}
use tiny_shop.Cart.{CartError, db, invalid_qty}
use tiny_shop.Orders.{OrderError, empty_checkout}

pub data WebError : Type 0 where
  not_found : WebError
  bad_request : String → WebError
  internal : String → WebError

-- `to_string`
pub record Display : Type 0 where
  pub number : ℤ → String
  pub sql : SqlError → String
  pub order : OrderError → String

-- `From<orders::CartError>`
unfoldable pub from_cart : Display → CartError → WebError
from_cart shown (invalid_qty qty) = bad_request (concat "invalid quantity: " (shown.number qty))
from_cart shown (db e) = internal (shown.sql e)

-- `From<orders::OrderError>`
unfoldable pub from_order : Display → OrderError → WebError
from_order shown empty_checkout = bad_request "cart is empty"
from_order shown (OrderError.db e) = internal (shown.order (OrderError.db e))
from_order shown (OrderError.invalid_enum field value) =
    internal (shown.order (OrderError.invalid_enum field value))
from_order shown OrderError.json_error = internal (shown.order OrderError.json_error)
from_order shown (OrderError.currency_mismatch expected found) =
    internal (shown.order (OrderError.currency_mismatch expected found))
