-- ===== src/Cart/Success.antt =====
-- When `add_item` of crates/orders/src/cart_repo.rs succeeds.
use tiny_shop.Prelude.{
  suc, update_where, ◌++◌, [], ◌∷◌, String, ◌≡◌, refl, ap, ◌∙◌, true, false, ◌||◌, any, Bool-cases,
  inl, inr, string_eq,
}
use tiny_shop.Prelude.Int.{ℤ, pos, leb_ℤ, ltb_ℤ}
use tiny_shop.Sql.{ok, Conn, transaction, fails, ◌>>◌}
use tiny_shop.Sql.Laws.{transaction_runs, bind_runs}
use tiny_shop.Cart.{
  NewCartItem, CartTables, db, max_qty, same_line, has_cart, is_cart, refreshed, inserted, checked,
  upsert_item, touch_cart, add_item,
}

module _ (now : ℤ) (cart_id : String) (item : NewCartItem) where
  upsert_runs :
      (t : CartTables)
      → checked item ≡ true
      → has_cart cart_id t ≡ true
      → (t' : CartTables) × (upsert_item now cart_id item t ≡ ok (tt, t'))
  unfolding upsert_item
  upsert_runs t fit there =
      elim (Bool-cases (any (same_line cart_id item.product_id item.variant_id) t.items)) [
        | inl old ↦ (
          record t {
            items =
                update_where (same_line cart_id item.product_id item.variant_id)
                  (refreshed now item) t.items;
            last_item = suc t.last_item;
          },
          rw (fit, old, upsert_item) refl,
        )
        | inr new ↦ (
          record t {
            items = t.items ++ inserted (suc t.last_item) now cart_id item ∷ [];
            last_item = suc t.last_item;
          },
          rw (fit, new, there, upsert_item) refl,
        )
      ]

  then_touched :
      (t t' : CartTables)
      → upsert_item now cart_id item t ≡ ok (tt, t')
      → (t'' : CartTables) × ((upsert_item now cart_id item >> touch_cart now cart_id) t
          ≡ ok (tt, t''))
  unfolding touch_cart
  then_touched t t' h = (
    record t' {
      carts = update_where (is_cart cart_id) (λ c. record c { updated_at = now }) t'.carts;
    },
    bind_runs (upsert_item now cart_id item) (λ _. touch_cart now cart_id) t tt t' h,
  )

  accepted :
      (c : Conn CartTables)
      → (leb_ℤ item.qty (pos 0) || ltb_ℤ max_qty item.qty) ≡ false
      → add_item now cart_id item c
        ≡ transaction db (upsert_item now cart_id item >> touch_cart now cart_id) c
  unfolding add_item
  accepted c h = rw (h, add_item) refl

  -- `add_item` succeeds whenever the quantity is in 1..=MAX_QTY, the variant is absent or not empty,
  -- the cart exists and the engine does not fail.
  pub add_item-succeeds :
      (c : Conn CartTables)
      → (leb_ℤ item.qty (pos 0) || ltb_ℤ max_qty item.qty) ≡ false
      → checked item ≡ true
      → has_cart cart_id c.tables ≡ true
      → fails c.faults ≡ false
      → (add_item now cart_id item c).0 ≡ ok tt
  add_item-succeeds c fit valid there quiet =
      let (t, ran) = upsert_runs c.tables valid there in
      let (t', whole) = then_touched c.tables t ran in
      ap (λ o. o.0) (accepted c fit ∙ transaction_runs db _ c tt t' quiet whole)
