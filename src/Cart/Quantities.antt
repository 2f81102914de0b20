-- ===== src/Cart/Quantities.antt =====
-- `update_qty`, `remove_item` and `clear` of crates/orders/src/cart_repo.rs on the items of a cart.
use mathlib.Core.Option
use tiny_shop.Prelude.{
  ◌<◌, String, ◌≡◌, refl, ◌∙◌, Bool, ◌&&◌, Option, none, some, List, [], ◌∷◌, arith, ◌==◌,
  string_eq, filter, find?, length, Bool-cases, inl, inr, if◌then◌else◌, find?-update_where,
  find?-delete_where, filter_of_none, update_of_none, delete_of_none,
}
use tiny_shop.Prelude.Int.{ℤ, pos, ◌≤ℤ◌, leb_ℤ, int_eq}
use tiny_shop.Sql.{ok, Conn, Tx, ◌>>=◌, transaction}
use tiny_shop.Sql.Laws.{transaction-eq-ok, transaction_keeps, bind_runs}
use tiny_shop.Cart.{
  Cart, CartItem, CartTables, CartError, db, max_qty, is_cart, touch_if, is_item, delete_items,
  change_qty, update_qty, remove_item,
}

-- The item that the id in a form names, if it is in the cart.
unfoldable pub item_of : String → ℤ → CartTables → Option CartItem
item_of cart_id item_id t = find? (is_item item_id cart_id) t.items

-- What UPDATE or DELETE makes of a row.
abbrev pub requantified : ℤ → CartItem → Option CartItem
requantified qty r = if qty == pos 0 then none else some (record r { qty = qty })

length_of_some :
    (p : CartItem → Bool) (rs : List CartItem) (r : CartItem)
    → find? p rs ≡ some r
    → 0 < length (filter p rs)
unfolding find? filter
length_of_some p [] r h = absurd (cc)
length_of_some p (x ∷ rs) r h = ground (arith, length_of_some p rs r)

module _ (p : CartItem → Bool) where
  change_of_none :
      (qty : ℤ) (t : CartTables) → find? p t.items ≡ none → change_qty qty p t ≡ ok (0, t)
  unfolding change_qty
  change_of_none qty t h = ground (
    arith,
    filter_of_none p t.items h,
    delete_of_none p t.items h,
    update_of_none p (λ r. record r { qty = qty }) t.items h,
  )

  delete_items_of_none : (t : CartTables) → find? p t.items ≡ none → delete_items p t ≡ ok (0, t)
  unfolding delete_items
  delete_items_of_none t h = ground (arith, filter_of_none p t.items h, delete_of_none p t.items h)

  touch_if_zero :
      (now : ℤ) (cart_id : String) (t : CartTables) → touch_if 0 now cart_id t ≡ ok (tt, t)
  unfolding touch_if
  touch_if_zero now cart_id t = refl

-- The chains of statements of `update_qty` and of the deletions.
abbrev changing : ℤ → (CartItem → Bool) → ℤ → String → Tx CartError CartTables (Unit {0})
changing qty p now cart_id = do affected ← change_qty qty p; touch_if affected now cart_id

abbrev deleting : (CartItem → Bool) → ℤ → String → Tx CartError CartTables (Unit {0})
deleting p now cart_id = do affected ← delete_items p; touch_if affected now cart_id

changing_of_none :
    (qty : ℤ) (p : CartItem → Bool) (now : ℤ) (cart_id : String) (t : CartTables)
    → find? p t.items ≡ none
    → changing qty p now cart_id t ≡ ok (tt, t)
changing_of_none qty p now cart_id t h =
    bind_runs (change_qty qty p) (λ n. touch_if n now cart_id) t 0 t (change_of_none p qty t h)
    ∙ touch_if_zero p now cart_id t

deleting_of_none :
    (p : CartItem → Bool) (now : ℤ) (cart_id : String) (t : CartTables)
    → find? p t.items ≡ none
    → deleting p now cart_id t ≡ ok (tt, t)
deleting_of_none p now cart_id t h =
    bind_runs (delete_items p) (λ n. touch_if n now cart_id) t 0 t (delete_items_of_none p t h)
    ∙ touch_if_zero p now cart_id t

-- Statements that leave the tables as they are.
unchanged :
    (body : Tx CartError CartTables (Unit {0})) (c : Conn CartTables)
    → body c.tables ≡ ok (tt, c.tables)
    → (transaction db body c).1.tables ≡ c.tables
unchanged body c h = transaction_keeps (λ s. s ≡ c.tables) db body c (λ a s e. cc (h, e)) refl

remove_item_unchanged :
    (now : ℤ) (cart_id : String) (item_id : ℤ) (c : Conn CartTables)
    → item_of cart_id item_id c.tables ≡ none
    → (remove_item now cart_id item_id c).1.tables ≡ c.tables
unfolding item_of remove_item
remove_item_unchanged now cart_id item_id c h =
    unchanged _ c (deleting_of_none (is_item item_id cart_id) now cart_id c.tables h)

update_qty_unchanged :
    (now : ℤ) (cart_id : String) (item_id qty : ℤ) (c : Conn CartTables)
    → item_of cart_id item_id c.tables ≡ none
    → (update_qty now cart_id item_id qty c).1.tables ≡ c.tables
unfolding item_of update_qty
update_qty_unchanged now cart_id item_id qty c h =
    elim (Bool-cases (leb_ℤ (pos 0) qty && leb_ℤ qty max_qty)) [
      | inl e ↦
          rw e
            (unchanged _ c (changing_of_none qty (is_item item_id cart_id) now cart_id c.tables h))
      | inr e ↦ rw e refl
    ]

-- `update_qty` and `remove_item` with the id of an item that the cart does not hold, such as one of
-- another cart, change nothing at all: no row of any table, and not the cart's time stamp.
pub foreign_item_unchanged :
    (now : ℤ) (cart_id : String) (item_id qty : ℤ) (c : Conn CartTables)
    → item_of cart_id item_id c.tables ≡ none
    → ((update_qty now cart_id item_id qty c).1.tables ≡ c.tables)
      × ((remove_item now cart_id item_id c).1.tables ≡ c.tables)
foreign_item_unchanged now cart_id item_id qty c h = (
  update_qty_unchanged now cart_id item_id qty c h,
  remove_item_unchanged now cart_id item_id c h,
)

-- What one transaction of `update_qty` leaves of an item that the cart holds.
changing_of_some :
    (qty : ℤ) (now : ℤ) (cart_id : String) (item_id : ℤ) (t t' : CartTables) (r : CartItem)
    → item_of cart_id item_id t ≡ some r
    → changing qty (is_item item_id cart_id) now cart_id t ≡ ok (tt, t')
    → (item_of cart_id item_id t' ≡ requantified qty r)
      × (find? (is_cart cart_id) t'.carts
          ≡ Option.map
              (λ (c : Cart). record c { updated_at = now })
              (find? (is_cart cart_id) t.carts))
unfolding item_of change_qty touch_if
changing_of_some qty now cart_id item_id t t' r h e = ground (
  arith,
  length_of_some (is_item item_id cart_id) t.items r h,
  find?-delete_where (is_item item_id cart_id) t.items,
  find?-update_where (is_item item_id cart_id) (λ r. record r { qty = qty }) t.items (λ s q. q),
  find?-update_where (is_cart cart_id) (λ c. record c { updated_at = now }) t.carts (λ s q. q),
)

-- A successful `update_qty` of an item that the cart holds removes it for a quantity of 0 and gives
-- it any other quantity, its other columns unchanged; the quantity was in 0..=MAX_QTY, and the cart
-- has the new time stamp.
pub update_qty_lem :
    (now : ℤ) (cart_id : String) (item_id qty : ℤ) (c : Conn CartTables) (r : CartItem)
    → item_of cart_id item_id c.tables ≡ some r
    → (update_qty now cart_id item_id qty c).0 ≡ ok tt
    → (pos 0 ≤ℤ qty)
      × (qty ≤ℤ max_qty)
      × (item_of cart_id item_id (update_qty now cart_id item_id qty c).1.tables
          ≡ requantified qty r)
      × (find? (is_cart cart_id) (update_qty now cart_id item_id qty c).1.tables.carts
          ≡ Option.map
              (λ (c : Cart). record c { updated_at = now })
              (find? (is_cart cart_id) c.tables.carts))
unfolding update_qty
update_qty_lem now cart_id item_id qty c r h done =
    elim (Bool-cases (leb_ℤ (pos 0) qty && leb_ℤ qty max_qty)) [
      | inl e ↦
          let (s, ran, left) =
            transaction-eq-ok db (changing qty (is_item item_id cart_id) now cart_id) c tt
              (rw e at done) in
          let (item, stamp) = changing_of_some qty now cart_id item_id c.tables s r h ran in
          (ground arith, ground arith, rw (e, left) item, rw (e, left) stamp)
      | inr e ↦ absurd (cc (done, e))
    ]
