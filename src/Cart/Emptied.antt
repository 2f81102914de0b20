-- ===== src/Cart/Emptied.antt =====
-- `clear` of crates/orders/src/cart_repo.rs.
use tiny_shop.Prelude.{
  ℕ, String, ◌≡◌, refl, ap, ◌∙◌, Bool, List, [], ◌∷◌, arith, string_eq, filter, delete_where,
  order_by, leb,
}
use tiny_shop.Prelude.Int.{ℤ}
use tiny_shop.Sql.{ok, err, Conn}
use tiny_shop.Sql.Laws.{transaction-eq-ok, transaction-eq-err, bind-eq-ok}
use tiny_shop.Cart.{
  CartItem, CartTables, CartError, db, in_cart, items_of, delete_items, touch_cart, touch_if, clear,
}

none_left : (p : CartItem → Bool) (rs : List CartItem) → filter p (delete_where p rs) ≡ []
unfolding filter delete_where
none_left p [] = refl
none_left p (r ∷ rs) = ground (arith, none_left p rs)

touch_if-items :
    (n : ℕ) (now : ℤ) (cart_id : String) (t t' : CartTables)
    → touch_if n now cart_id t ≡ ok (tt, t')
    → t'.items ≡ t.items
unfolding touch_if touch_cart
touch_if-items n now cart_id t t' h = ground arith

delete_items-items :
    (p : CartItem → Bool) (n : ℕ) (t t' : CartTables)
    → delete_items p t ≡ ok (n, t')
    → t'.items ≡ delete_where p t.items
unfolding delete_items
delete_items-items p n t t' h = ground arith

-- After a `clear` that succeeds, the cart has no items.
pub clear-empty :
    (now : ℤ) (cart_id : String) (c : Conn CartTables) (u : Unit {0})
    → (clear now cart_id c).0 ≡ ok u
    → items_of cart_id (clear now cart_id c).1.tables ≡ []
unfolding clear items_of order_by
clear-empty now cart_id c u h =
    let (s, ran, left) = transaction-eq-ok db _ c u h in
    let (n, t, e, k) =
      bind-eq-ok (delete_items (in_cart cart_id)) (λ n. touch_if n now cart_id) c.tables u s ran in
    ap (λ xs. order_by (λ r s. leb r.id s.id) (filter (in_cart cart_id) xs))
      (ap (λ t. t.items) left
        ∙ touch_if-items n now cart_id t s k
        ∙ delete_items-items (in_cart cart_id) n c.tables t e)
    ∙ ap (order_by (λ r s. leb r.id s.id)) (none_left (in_cart cart_id) c.tables.items)

-- A `clear` that fails changes nothing.
pub clear-unchanged :
    (now : ℤ) (cart_id : String) (c : Conn CartTables) (e : CartError)
    → (clear now cart_id c).0 ≡ err e
    → (clear now cart_id c).1.tables ≡ c.tables
unfolding clear
clear-unchanged now cart_id c e h = transaction-eq-err db _ c e h
