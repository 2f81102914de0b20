-- ===== src/Cart/Lines.antt =====
-- What the operations of crates/orders/src/cart_repo.rs do to the items of the cart they name.
use tiny_shop.Prelude.{
  ℕ, suc, String, ◌≡◌, refl, ◌∙◌, ap, Bool, true, false, ◌&&◌, ◌||◌, Option, none, some, arith,
  ◌==◌, ==_iff, ==_self, find?, Bool-cases, inl, inr, if◌then◌else◌, find?-update_where,
  find?-update_ne, find?-append_one, find?-any, string_eq,
}
use tiny_shop.Prelude.Int.{ℤ, pos, ◌+ℤ◌, ◌≤ℤ◌, leb_ℤ, ltb_ℤ, zero-+ℤ}
use tiny_shop.Sql.{ok, Conn, ◌>>◌}
use tiny_shop.Sql.Laws.{transaction-eq-ok, bind-eq-ok}
use tiny_shop.Cart.{
  CartItem, NewCartItem, CartTables, db, max_qty, same_line, refreshed, inserted, upsert_item,
  touch_cart, add_item, coalesce,
}

-- The item of a cart for a product and variant, and its quantity, 0 where there is none.
unfoldable pub line_of : String → String → Option String → CartTables → Option CartItem
line_of cart_id product_id variant_id t = find? (same_line cart_id product_id variant_id) t.items

abbrev pub quantity : Option CartItem → ℤ
quantity none = pos 0
quantity (some r) = r.qty

unfoldable pub qty_of : String → String → Option String → CartTables → ℤ
qty_of cart_id product_id variant_id t = quantity (line_of cart_id product_id variant_id t)

abbrev pub capped : ℤ → ℤ
capped n = if ltb_ℤ max_qty n then max_qty else n

module _ (now : ℤ) (cart_id : String) (item : NewCartItem) where
  abbrev this_line : CartItem → Bool
  this_line = same_line cart_id item.product_id item.variant_id

  this_line-inserted : (id : ℕ) → this_line (inserted id now cart_id item) ≡ true
  this_line-inserted id =
      ground (arith, ==_self cart_id, ==_self item.product_id, ==_self (coalesce item.variant_id))

  -- `upsert_item` leaves one item for the line, made from the one before or from the input.
  line_of-upsert :
      (t t' : CartTables)
      → upsert_item now cart_id item t ≡ ok (tt, t')
      → line_of cart_id item.product_id item.variant_id t'
        ≡ some (elim (line_of cart_id item.product_id item.variant_id t) [
          | some r ↦ refreshed now item r
          | none ↦ inserted (suc t.last_item) now cart_id item
        ])
  unfolding upsert_item line_of
  line_of-upsert t t' h = ground (
    arith,
    find?-any this_line t.items,
    find?-update_where this_line (refreshed now item) t.items (λ r e. e),
    find?-append_one this_line t.items (inserted (suc t.last_item) now cart_id item),
    this_line-inserted (suc t.last_item),
  )

  -- Another line of the same cart is as it was.
  line_of-upsert_ne :
      (product_id : String) (variant_id : Option String) (t t' : CartTables)
      → (item.product_id == product_id && coalesce item.variant_id == coalesce variant_id) ≡ false
      → upsert_item now cart_id item t ≡ ok (tt, t')
      → line_of cart_id product_id variant_id t' ≡ line_of cart_id product_id variant_id t
  unfolding upsert_item line_of
  line_of-upsert_ne product_id variant_id t t' ne h = ground (
    arith,
    find?-update_ne (same_line cart_id product_id variant_id) this_line (refreshed now item) t.items
        other other,
    find?-append_one (same_line cart_id product_id variant_id) t.items
        (inserted (suc t.last_item) now cart_id item),
    ne,
  )
    where
      other :
          (r : CartItem) → this_line r ≡ true → same_line cart_id product_id variant_id r ≡ false
      other r e = ground (
        arith,
        ne,
        ==_iff r.product_id item.product_id,
        ==_iff (coalesce r.variant_id) (coalesce item.variant_id),
      )

  items-touch : (t t' : CartTables) → touch_cart now cart_id t ≡ ok (tt, t') → t'.items ≡ t.items
  unfolding touch_cart
  items-touch t t' h = ground arith

  -- A successful `add_item` has run `upsert_item`, and the items are those that it left.
  pub add_item-upsert :
      (c : Conn CartTables)
      → (add_item now cart_id item c).0 ≡ ok tt
      → (pos 1 ≤ℤ item.qty)
        × (item.qty ≤ℤ max_qty)
        × (t : CartTables) × (upsert_item now cart_id item c.tables ≡ ok (tt, t))
        × ((add_item now cart_id item c).1.tables.items ≡ t.items)
  unfolding add_item
  add_item-upsert c h = elim (Bool-cases (leb_ℤ item.qty (pos 0) || ltb_ℤ max_qty item.qty)) [
    | inl e ↦ absurd (cc (h, e))
    | inr e ↦
        let (s, ran, left) =
          transaction-eq-ok db (do upsert_item now cart_id item; touch_cart now cart_id) c tt
            (rw e at h) in
        let (a, t, first, second) =
          bind-eq-ok (upsert_item now cart_id item) (λ _. touch_cart now cart_id) c.tables tt s
            ran in
        (
          ground arith,
          ground arith,
          t,
          first,
          rw e (ap (λ (q : CartTables). q.items) left ∙ items-touch t s second),
        )
  ]

  -- The item that `upsert_item` makes of the line, or of no line.
  abbrev pub merged : ℕ → Option CartItem → CartItem
  merged id none = inserted id now cart_id item
  merged id (some r) = refreshed now item r

  qty-merged :
      (id : ℕ) (o : Option CartItem)
      → item.qty ≤ℤ max_qty
      → (merged id o).qty ≡ capped (quantity o +ℤ item.qty)
  qty-merged id none h = rw (zero-+ℤ item.qty) (ground arith)
  qty-merged id (some r) h = refl

  snapshot-merged :
      (id : ℕ) (o : Option CartItem)
      → ((merged id o).title ≡ item.title)
        × ((merged id o).unit_price_minor ≡ item.unit_price_minor)
        × ((merged id o).currency ≡ item.currency)
        × ((merged id o).added_at ≡ now)
  snapshot-merged id none = (refl, refl, refl, refl)
  snapshot-merged id (some r) = (refl, refl, refl, refl)

  line_of-items :
      (product_id : String) (variant_id : Option String) (t t' : CartTables)
      → t'.items ≡ t.items
      → line_of cart_id product_id variant_id t' ≡ line_of cart_id product_id variant_id t
  unfolding line_of
  line_of-items product_id variant_id t t' e =
      ap (find? (same_line cart_id product_id variant_id)) e

  -- A successful `add_item` leaves one line for the product and variant, merged from what was there
  -- and the input.
  line_of-add_item :
      (c : Conn CartTables)
      → (add_item now cart_id item c).0 ≡ ok tt
      → line_of cart_id item.product_id item.variant_id (add_item now cart_id item c).1.tables
        ≡ some (
            merged
              (suc c.tables.last_item)
              (line_of cart_id item.product_id item.variant_id c.tables))
  line_of-add_item c h =
      let (lo, hi, t, ran, same) = add_item-upsert c h in
      line_of-items item.product_id item.variant_id t (add_item now cart_id item c).1.tables same
      ∙ line_of-upsert c.tables t ran
      ∙ ap some (pick (line_of cart_id item.product_id item.variant_id c.tables))
    where
      pick :
          (o : Option CartItem)
          → ◌≡◌ {A = CartItem}
              (elim o [
                | some r ↦ refreshed now item r
                | none ↦ inserted (suc c.tables.last_item) now cart_id item
              ])
              (merged (suc c.tables.last_item) o)
      pick none = refl
      pick (some r) = refl

  qty_of-add_item :
      (c : Conn CartTables)
      → (add_item now cart_id item c).0 ≡ ok tt
      → qty_of cart_id item.product_id item.variant_id (add_item now cart_id item c).1.tables
        ≡ capped (qty_of cart_id item.product_id item.variant_id c.tables +ℤ item.qty)
  unfolding qty_of
  qty_of-add_item c h = rw (line_of-add_item c h) (
      qty-merged _ (line_of cart_id item.product_id item.variant_id c.tables)
        (add_item-upsert c h).1)

  -- A successful `add_item` leaves the cart with a line for the product and variant: its quantity is
  -- the old one (0 if there was none) and the new one together, but at most MAX_QTY, and its title,
  -- price, currency and time are those of the input. Each other line of the cart is as it was.
  pub add_item_lem :
      (c : Conn CartTables)
      → (add_item now cart_id item c).0 ≡ ok tt
      → (qty_of cart_id item.product_id item.variant_id (add_item now cart_id item c).1.tables
          ≡ capped (qty_of cart_id item.product_id item.variant_id c.tables +ℤ item.qty))
        × (r : CartItem) × (line_of cart_id item.product_id item.variant_id
              (add_item now cart_id item c).1.tables
            ≡ some r)
        × (r.title ≡ item.title)
        × (r.unit_price_minor ≡ item.unit_price_minor)
        × (r.currency ≡ item.currency)
        × (r.added_at ≡ now)
        × ((product_id : String) (variant_id : Option String)
            → (item.product_id == product_id && coalesce item.variant_id == coalesce variant_id)
              ≡ false
            → line_of cart_id product_id variant_id (add_item now cart_id item c).1.tables
              ≡ line_of cart_id product_id variant_id c.tables)
  add_item_lem c h =
      let (title, price, currency, at) =
        snapshot-merged (suc c.tables.last_item)
          (line_of cart_id item.product_id item.variant_id c.tables) in
      (
        qty_of-add_item c h,
        merged (suc c.tables.last_item) (line_of cart_id item.product_id item.variant_id c.tables),
        line_of-add_item c h,
        title,
        price,
        currency,
        at,
        λ product_id variant_id ne.
            let (lo, hi, t, ran, same) = add_item-upsert c h in
            line_of-items product_id variant_id t (add_item now cart_id item c).1.tables same
            ∙ line_of-upsert_ne product_id variant_id c.tables t ne ran,
      )
