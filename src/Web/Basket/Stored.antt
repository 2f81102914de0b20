-- ===== src/Web/Basket/Stored.antt =====
-- What a successful `add_item` leaves in the table of items, for crates/web/src/routes/cart.rs.
use tiny_shop.Prelude.{
  String, ◌≡◌, ap, ◌∙◌, false, ◌&&◌, Option, some, none, [], ◌∷◌, ◌++◌, ◌⊎◌, inl, inr, ◌==◌,
  string_eq, find?, filter, order_by, leb, any, Bool-cases, ℕ, suc, arith, update_where,
}
use tiny_shop.Prelude.Int.{ℤ, ◌+ℤ◌}
use tiny_shop.Sql.{ok, Conn}
use tiny_shop.Cart.{
  CartItem, CartTables, items_of, add_item, coalesce, same_line, in_cart, NewCartItem, refreshed,
  inserted, upsert_item,
}
use tiny_shop.Cart.Lines.{line_of, qty_of, quantity, capped, add_item_lem, add_item-upsert}
use tiny_shop.Catalog.{ProductView}
use tiny_shop.Web.Basket.{other_currency, item_of_card}

-- The table of items after a successful `add_item`: the line was changed, or a new one appended.
abbrev pub Stored : ℤ → String → NewCartItem → CartTables → CartTables → Type 0
Stored now cart_id item t t' =
    (t'.items
      ≡ update_where (same_line cart_id item.product_id item.variant_id) (refreshed now item)
          t.items)
    ⊎ ((id : ℕ) × (t'.items ≡ t.items ++ inserted id now cart_id item ∷ []))

upsert-Stored :
    (now : ℤ) (cart_id : String) (item : NewCartItem) (t t' : CartTables)
    → upsert_item now cart_id item t ≡ ok (tt, t')
    → Stored now cart_id item t t'
unfolding upsert_item
upsert-Stored now cart_id item t t' h =
    elim (Bool-cases (any (same_line cart_id item.product_id item.variant_id) t.items)) [
      | inl old ↦ inl (ground (arith, old))
      | inr new ↦ inr (suc t.last_item, ground (arith, new))
    ]

-- What a successful request did to its cart: the line of the product has the quantity asked for on
-- top of the old one, and the product's name, price and currency; other lines stay.
pub record Line (now : ℤ) (cart_id : String) (card : ProductView) (qty : ℤ) (t t' : CartTables)
    : Type 0 where
  pub items : Stored now cart_id (item_of_card card qty) t t'
  pub before : other_currency card.currency (items_of cart_id t) ≡ false
  pub total : qty_of cart_id card.id none t' ≡ capped (qty_of cart_id card.id none t +ℤ qty)
  pub line : CartItem
  pub found : line_of cart_id card.id none t' ≡ some line
  pub title : line.title ≡ card.title
  pub price : line.unit_price_minor ≡ card.price_minor
  pub currency : line.currency ≡ card.currency
  pub others :
      (product_id : String) (variant_id : Option String)
      → (card.id == product_id && "" == coalesce variant_id) ≡ false
      → line_of cart_id product_id variant_id t' ≡ line_of cart_id product_id variant_id t

-- The lines and the list of a cart are read from the table of items alone.
line_of_items :
    (cart_id product_id : String) (variant_id : Option String) (t t' : CartTables)
    → t'.items ≡ t.items
    → line_of cart_id product_id variant_id t' ≡ line_of cart_id product_id variant_id t
unfolding line_of
line_of_items cart_id product_id variant_id t t' e =
    ap (find? (same_line cart_id product_id variant_id)) e

qty_of_items :
    (cart_id product_id : String) (variant_id : Option String) (t t' : CartTables)
    → t'.items ≡ t.items
    → qty_of cart_id product_id variant_id t' ≡ qty_of cart_id product_id variant_id t
unfolding qty_of
qty_of_items cart_id product_id variant_id t t' e =
    ap quantity (line_of_items cart_id product_id variant_id t t' e)

pub items_of_items :
    (cart_id : String) (t t' : CartTables)
    → t'.items ≡ t.items
    → items_of cart_id t' ≡ items_of cart_id t
unfolding items_of
items_of_items cart_id t t' e =
    ap (λ is. order_by (λ r s. leb r.id s.id) (filter (in_cart cart_id) is)) e

added-Stored :
    (now : ℤ) (cart_id : String) (item : NewCartItem) (t : CartTables) (c : Conn CartTables)
    → c.tables.items ≡ t.items
    → (add_item now cart_id item c).0 ≡ ok tt
    → Stored now cart_id item t (add_item now cart_id item c).1.tables
added-Stored now cart_id item t c same fine =
    let (lo, hi, s, ran, left) = add_item-upsert now cart_id item c fine in
    elim (upsert-Stored now cart_id item c.tables s ran) [
      | inl e ↦ inl (
          left
          ∙ e
          ∙ ap
              (update_where (same_line cart_id item.product_id item.variant_id)
                (refreshed now item))
              same)
      | inr (id, e) ↦ inr (id, left ∙ e ∙ ap (λ is. is ++ inserted id now cart_id item ∷ []) same)
    ]

-- A successful `add_item`, seen from tables with the same items.
pub Line-add_item :
    (now : ℤ) (cart_id : String) (card : ProductView) (qty : ℤ) (t : CartTables)
    (c : Conn CartTables)
    → c.tables.items ≡ t.items
    → other_currency card.currency (items_of cart_id t) ≡ false
    → (add_item now cart_id (item_of_card card qty) c).0 ≡ ok tt
    → Line now cart_id card qty t (add_item now cart_id (item_of_card card qty) c).1.tables
Line-add_item now cart_id card qty t c same guard fine =
    let (total, line, found, title, price, currency, at, others) =
      add_item_lem now cart_id (item_of_card card qty) c fine in
    record {
      items = added-Stored now cart_id (item_of_card card qty) t c same fine;
      before = guard;
      total =
          total ∙ ap (λ n. capped (n +ℤ qty)) (qty_of_items cart_id card.id none t c.tables same);
      line = line;
      found = found;
      title = title;
      price = price;
      currency = currency;
      others = λ product_id variant_id apart.
          others product_id variant_id apart
          ∙ line_of_items cart_id product_id variant_id t c.tables same;
    }
