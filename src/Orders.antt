-- ===== src/Orders.antt =====
-- crates/orders/src/order.rs and crates/orders/src/repository.rs, over the tables of
-- migrations/orders. The uuid of a new order and the time are arguments; `serde_json` is a parameter.
pub mod Repo
pub mod Shape
pub mod Keeps
pub mod Checkout
pub mod Placed
pub mod Receipt
pub mod Refused
pub mod RoundTrip
mod Tests
use tiny_shop.Prelude.{
  ℕ, suc, ◌+◌, String, Bool, true, false, not, ◌&&◌, Option, none, some, List, [], ◌∷◌, ◌++◌, ◌==◌,
  string_eq, option_eq, filter, find?, any, update_where, order_by, take, drop, length, codes,
  nat_eq, if◌then◌else◌,
}
use tiny_shop.Prelude.Int.{ℤ, pos, ◌+ℤ◌, leb_ℤ, in_i64}
use tiny_shop.Sql.{
  SqlError, constraint, protocol, io, Result, ok, err, Tx, Db, transaction, query, reject, ◌>>=◌,
  ◌>>◌,
}
use tiny_shop.Shared.{NewEvent}
use tiny_shop.Shared.Json.{Json}
use tiny_shop.Shared.Pages.{Pagination, Page}
use tiny_shop.Events.Outbox.{Outbox, DbError, sqlx, json, enqueue}

pub data OrderStatus : Type 0 where
  created paid fulfilled cancelled : OrderStatus

unfoldable pub as_str : OrderStatus → String
as_str created = "created"
as_str paid = "paid"
as_str fulfilled = "fulfilled"
as_str cancelled = "cancelled"

unfoldable pub parse : String → Option OrderStatus
parse s =
    if s == "created"
    then some created
    else if s == "paid"
    then some paid
    else if s == "fulfilled"
    then some fulfilled
    else if s == "cancelled"
    then some cancelled
    else none

-- A row of `orders`; its status is text.
pub record OrderRow : Type 0 where
  pub id : String
  pub buyer_id : String
  pub status : String
  pub total_minor : ℤ
  pub currency : String
  pub created_at : ℤ

-- A row of `order_items`; its snapshot is stored text.
pub record ItemRow (T : Type 0) : Type 0 where
  pub id : String
  pub order_id : String
  pub product_id : String
  pub seller_id : String
  pub variant_id : Option String
  pub title : String
  pub unit_price_minor : ℤ
  pub currency : String
  pub config_snapshot : Option T

pub record OrderItem (V : Type 0) : Type 0 where
  pub id : String
  pub order_id : String
  pub product_id : String
  pub seller_id : String
  pub variant_id : Option String
  pub title : String
  pub unit_price_minor : ℤ
  pub currency : String
  pub config_snapshot : Option V

pub record Order (V : Type 0) : Type 0 where
  pub id : String
  pub buyer_id : String
  pub status : OrderStatus
  pub total_minor : ℤ
  pub currency : String
  pub created_at : ℤ
  pub items : List (OrderItem V)

pub record NewOrder : Type 0 where
  pub id : String
  pub buyer_id : String
  pub currency : String

pub record NewOrderItem (V : Type 0) : Type 0 where
  pub id : String
  pub order_id : String
  pub product_id : String
  pub seller_id : String
  pub variant_id : Option String
  pub title : String
  pub unit_price_minor : ℤ
  pub currency : String
  pub config_snapshot : Option V

pub record OrderContact : Type 0 where
  pub order_id : String
  pub email : String
  pub name : Option String
  pub created_at : ℤ

pub record NewOrderContact : Type 0 where
  pub email : String
  pub name : Option String

pub data OrderError : Type 0 where
  db : SqlError → OrderError
  invalid_enum : String → String → OrderError
  json_error : OrderError
  empty_checkout : OrderError
  currency_mismatch : String → String → OrderError

-- `From<db::DbError>`
unfoldable pub from_db : DbError → OrderError
from_db (sqlx e) = db e
from_db json = db protocol

pub record OrderTables (T : Type 0) : Type 0 where
  pub orders : List OrderRow
  pub order_items : List (ItemRow T)
  pub contacts : List OrderContact
  pub outbox : Outbox T

abbrev pub is_order : String → OrderRow → Bool
is_order order_id o = o.id == order_id

abbrev pub row_of_order : String → String → String → ℤ → OrderRow
row_of_order id buyer_id currency now = record {
  id = id;
  buyer_id = buyer_id;
  status = as_str created;
  total_minor = pos 0;
  currency = currency;
  created_at = now;
}

-- Whether there is a character behind the leading spaces, other than NUL.
abbrev pub has_text : List ℕ → Bool
has_text [] = false
has_text (c ∷ cs) = let rest = has_text cs in if c == b' ' then rest else not (c == 0)

module _ {T : Type 0} where
  abbrev pub of_order : String → ItemRow T → Bool
  of_order order_id r = r.order_id == order_id

  -- COALESCE(SUM(unit_price_minor), 0); the engine fails where a partial sum leaves the `i64` range.
  unfoldable pub sum_from : ℤ → List (ItemRow T) → Option ℤ
  sum_from acc [] = some acc
  sum_from acc (r ∷ rs) =
      let rest = sum_from (acc +ℤ r.unit_price_minor) rs in
      if in_i64 (acc +ℤ r.unit_price_minor) then rest else none

  unfoldable pub insert_order :
      String → String → String → ℤ → Tx OrderError (OrderTables T) (Unit {0})
  unfolding as_str
  insert_order id buyer_id currency now t =
      if any (is_order id) t.orders
      then err (db (constraint "UNIQUE orders.id"))
      else ok (tt, record t { orders = t.orders ++ row_of_order id buyer_id currency now ∷ [] })

  unfoldable pub insert_item : ItemRow T → Tx OrderError (OrderTables T) (Unit {0})
  insert_item r t =
      if any (λ s. s.id == r.id) t.order_items
      then err (db (constraint "UNIQUE order_items.id"))
      else if not (any (is_order r.order_id) t.orders)
      then err (db (constraint "FOREIGN KEY"))
      else ok (tt, record t { order_items = t.order_items ++ r ∷ [] })

  -- UPDATE orders SET total_minor = (SELECT ...) WHERE id = ?
  unfoldable pub recalculate : String → Tx OrderError (OrderTables T) (Unit {0})
  unfolding sum_from
  recalculate order_id t = elim (sum_from (pos 0) (filter (of_order order_id) t.order_items)) [
    | none ↦ err (db (constraint "integer overflow"))
    | some total ↦ ok (
      tt,
      record t {
        orders = update_where (is_order order_id) (λ o. record o { total_minor = total }) t.orders;
      },
    )
  ]

  -- CHECK (length(trim(email)) > 0), where `trim` takes spaces off and `length` stops at a
  -- NUL.
  unfoldable pub insert_contact : OrderContact → Tx OrderError (OrderTables T) (Unit {0})
  insert_contact k t =
      if any (λ (d : OrderContact). d.order_id == k.order_id) t.contacts
      then err (db (constraint "UNIQUE order_contact.order_id"))
      else if not (has_text (codes k.email))
      then err (db (constraint "CHECK"))
      else if not (any (is_order k.order_id) t.orders)
      then err (db (constraint "FOREIGN KEY"))
      else ok (tt, record t { contacts = t.contacts ++ k ∷ [] })
