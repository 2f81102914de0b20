-- ===== src/Cart.antt =====
-- crates/orders/src/cart.rs and crates/orders/src/cart_repo.rs, over the tables of
-- migrations/orders/0003_cart.sql. The BLAKE3 hash is a parameter; the random token of a new cart
-- and the time are arguments.
pub mod Shape
pub mod Keeps
pub mod Isolation
pub mod Lines
pub mod Quantities
pub mod Success
pub mod Emptied
pub mod Edits
mod Tests
use tiny_shop.Prelude.{
  ℕ, suc, String, Bool, true, false, ◌&&◌, ◌||◌, not, Option, none, some, List, [], ◌∷◌, ◌++◌, ◌==◌,
  string_eq, nat_eq, filter, find?, any, update_where, delete_where, order_by, length, leb, ltb,
  if◌then◌else◌,
}
use tiny_shop.Prelude.Int.{ℤ, pos, ◌+ℤ◌, leb_ℤ, ltb_ℤ, int_eq}
use tiny_shop.Sql.{
  SqlError, constraint, Result, ok, err, Tx, Db, transaction, query, reject, ◌>>=◌, ◌>>◌,
}

pub record Cart : Type 0 where
  pub token_hash : String
  pub created_at : ℤ
  pub updated_at : ℤ

pub record CartItem : Type 0 where
  pub id : ℕ
  pub cart_id : String
  pub product_id : String
  pub variant_id : Option String
  pub qty : ℤ
  pub title : String
  pub unit_price_minor : ℤ
  pub currency : String
  pub added_at : ℤ

pub record NewCartItem : Type 0 where
  pub product_id : String
  pub variant_id : Option String
  pub qty : ℤ
  pub title : String
  pub unit_price_minor : ℤ
  pub currency : String

abbrev pub max_qty : ℤ
max_qty = pos 999

pub data CartError : Type 0 where
  db : SqlError → CartError
  invalid_qty : ℤ → CartError

-- The tables, and the last item id that AUTOINCREMENT gave.
pub record CartTables : Type 0 where
  pub carts : List Cart
  pub items : List CartItem
  pub last_item : ℕ

-- COALESCE(variant_id, '')
abbrev pub coalesce : Option String → String
coalesce none = ""
coalesce (some v) = v

-- The columns of the unique index `cart_items_unique`.
abbrev pub same_line : String → String → Option String → CartItem → Bool
same_line cart_id product_id variant_id r =
    r.cart_id == cart_id
    && (r.product_id == product_id && coalesce r.variant_id == coalesce variant_id)

-- The SET list of `ON CONFLICT ... DO UPDATE`.
abbrev pub refreshed : ℤ → NewCartItem → CartItem → CartItem
refreshed now item r = record r {
  qty = if ltb_ℤ max_qty (r.qty +ℤ item.qty) then max_qty else r.qty +ℤ item.qty;
  title = item.title;
  unit_price_minor = item.unit_price_minor;
  currency = item.currency;
  added_at = now;
}

abbrev pub inserted : ℕ → ℤ → String → NewCartItem → CartItem
inserted id now cart_id item = record {
  id = id;
  cart_id = cart_id;
  product_id = item.product_id;
  variant_id = item.variant_id;
  qty = item.qty;
  title = item.title;
  unit_price_minor = item.unit_price_minor;
  currency = item.currency;
  added_at = now;
}

abbrev pub is_cart : String → Cart → Bool
is_cart cart_id c = c.token_hash == cart_id

abbrev pub has_cart : String → CartTables → Bool
has_cart cart_id t = any (is_cart cart_id) t.carts

-- CHECK (variant_id IS NULL OR length(variant_id) > 0) AND CHECK (qty > 0)
abbrev pub checked : NewCartItem → Bool
checked item =
    ltb_ℤ (pos 0) item.qty && elim item.variant_id [ none ↦ true | some v ↦ not (v == "") ]

-- AUTOINCREMENT draws an id before the conflict is seen.
unfoldable pub upsert_item : ℤ → String → NewCartItem → Tx CartError CartTables (Unit {0})
upsert_item now cart_id item t =
    if not (checked item)
    then err (db (constraint "CHECK"))
    else if any (same_line cart_id item.product_id item.variant_id) t.items
    then ok (
      tt,
      record t {
        items =
            update_where (same_line cart_id item.product_id item.variant_id) (refreshed now item)
              t.items;
        last_item = suc t.last_item;
      },
    )
    else if not (has_cart cart_id t)
    then err (db (constraint "FOREIGN KEY"))
    else ok (
      tt,
      record t {
        items = t.items ++ inserted (suc t.last_item) now cart_id item ∷ [];
        last_item = suc t.last_item;
      },
    )

unfoldable pub touch_cart : ℤ → String → Tx CartError CartTables (Unit {0})
touch_cart now cart_id t = ok (
  tt,
  record t { carts = update_where (is_cart cart_id) (λ c. record c { updated_at = now }) t.carts },
)

-- `if affected > 0 { touch_cart(...) }`
unfoldable pub touch_if : ℕ → ℤ → String → Tx CartError CartTables (Unit {0})
unfolding touch_cart
touch_if affected now cart_id t = if ltb 0 affected then touch_cart now cart_id t else ok (tt, t)

unfoldable pub add_item : ℤ → String → NewCartItem → Db CartError CartTables (Unit {0})
unfolding upsert_item touch_cart
add_item now cart_id item =
    if leb_ℤ item.qty (pos 0) || ltb_ℤ max_qty item.qty
    then reject (invalid_qty item.qty)
    else transaction db (do upsert_item now cart_id item; touch_cart now cart_id)

-- WHERE id = ? AND cart_id = ?
abbrev pub is_item : ℤ → String → CartItem → Bool
is_item item_id cart_id r = pos r.id == item_id && r.cart_id == cart_id

-- DELETE, with the number of rows affected.
unfoldable pub delete_items : (CartItem → Bool) → Tx CartError CartTables ℕ
delete_items p t = ok (length (filter p t.items), record t { items = delete_where p t.items })

unfoldable pub set_qty : ℤ → (CartItem → Bool) → Tx CartError CartTables ℕ
set_qty qty p t = ok (
  length (filter p t.items),
  record t { items = update_where p (λ r. record r { qty = qty }) t.items },
)

-- The statement that `update_qty` runs: DELETE for a quantity of 0, UPDATE for any other.
unfoldable pub change_qty : ℤ → (CartItem → Bool) → Tx CartError CartTables ℕ
unfolding delete_items set_qty
change_qty qty p = if qty == pos 0 then delete_items p else set_qty qty p

unfoldable pub update_qty : ℤ → String → ℤ → ℤ → Db CartError CartTables (Unit {0})
unfolding touch_if change_qty
update_qty now cart_id item_id qty =
    if not (leb_ℤ (pos 0) qty && leb_ℤ qty max_qty)
    then reject (invalid_qty qty)
    else transaction db
        (do affected ← change_qty qty (is_item item_id cart_id); touch_if affected now cart_id)

unfoldable pub remove_item : ℤ → String → ℤ → Db CartError CartTables (Unit {0})
unfolding touch_if delete_items
remove_item now cart_id item_id =
    transaction db
      (do affected ← delete_items (is_item item_id cart_id); touch_if affected now cart_id)

-- WHERE cart_id = ?
abbrev pub in_cart : String → CartItem → Bool
in_cart cart_id r = r.cart_id == cart_id

unfoldable pub clear : ℤ → String → Db CartError CartTables (Unit {0})
unfolding touch_if delete_items
clear now cart_id =
    transaction db (do affected ← delete_items (in_cart cart_id); touch_if affected now cart_id)

-- SELECT ... WHERE cart_id = ? ORDER BY id
unfoldable pub items_of : String → CartTables → List CartItem
items_of cart_id t = order_by (λ r s. leb r.id s.id) (filter (in_cart cart_id) t.items)

unfoldable pub list_items : String → Db CartError CartTables (List CartItem)
unfolding items_of
list_items cart_id = query db (λ t. ok (items_of cart_id t))

module _ (hash_token : String → String) where
  unfoldable pub create_cart : ℤ → String → Db CartError CartTables (String × Cart)
  create_cart now raw = transaction db λ t.
      let cart : Cart = record {
        token_hash = hash_token raw;
        created_at = now;
        updated_at = now;
      } in
      if has_cart (hash_token raw) t
      then err (db (constraint "UNIQUE carts.token_hash"))
      else ok ((raw, cart), record t { carts = t.carts ++ cart ∷ [] })

  unfoldable pub find_by_token : String → Db CartError CartTables (Option Cart)
  find_by_token raw = query db (λ t. ok (find? (is_cart (hash_token raw)) t.carts))
