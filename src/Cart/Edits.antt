-- ===== src/Cart/Edits.antt =====
-- `update_qty` and `remove_item` of crates/orders/src/cart_repo.rs, and what they leave of the other
-- columns of an item.
use tiny_shop.Prelude.{
  String, Bool, not, ◌&&◌, inl, inr, ◌==◌, string_eq, ℕ, Bool-cases, All, All-filter, delete_where,
  All-update_where, arith,
}
use tiny_shop.Prelude.Int.{ℤ, pos, leb_ℤ, int_eq}
use tiny_shop.Sql.{Conn}
use tiny_shop.Sql.Laws.{Preserves, Preserves-bind, transaction-Preserves}
use tiny_shop.Cart.{
  CartItem, CartTables, touch_if, touch_cart, max_qty, db, set_qty, delete_items, change_qty,
  update_qty, remove_item, is_item,
}

-- A statement on each item, which the update or the removal of one keeps.
module _ (In : CartItem → Type 0) where
  abbrev pub Rest : CartTables → Type 0
  Rest t = All In t.items

  touch_if-Rest : (n : ℕ) (now : ℤ) (id : String) → Preserves Rest (touch_if n now id)
  unfolding touch_if touch_cart
  touch_if-Rest n now id = record { at = λ t a t' h u. ground (arith, u) }

  delete-Rest : (p : CartItem → Bool) → Preserves Rest (delete_items p)
  unfolding delete_items delete_where
  delete-Rest p = record {
    at = λ t a t' h u. ground (arith, All-filter In (λ r. not (p r)) t.items u);
  }

  change-Rest :
      (qty : ℤ) (p : CartItem → Bool)
      → ((r : CartItem) → In r → In (record r { qty = qty }))
      → Preserves Rest (change_qty qty p)
  unfolding change_qty set_qty
  change-Rest qty p kept = record {
    at = λ t a t' h u. elim (Bool-cases (qty == pos 0)) [
      | inl e ↦ (delete-Rest p).at t a t' (rw e at h) u
      | inr e ↦ ground (
        arith,
        e,
        All-update_where In p (λ r. record r { qty = qty }) t.items (λ r _ q. kept r q) u,
      )
    ];
  }

  pub update_qty-Rest :
      (now : ℤ) (cart_id : String) (item_id qty : ℤ) (c : Conn CartTables)
      → ((r : CartItem) → In r → In (record r { qty = qty }))
      → Rest c.tables
      → Rest (update_qty now cart_id item_id qty c).1.tables
  unfolding update_qty
  update_qty-Rest now cart_id item_id qty c kept u =
      elim (Bool-cases (leb_ℤ (pos 0) qty && leb_ℤ qty max_qty)) [
        | inl e ↦ rw e (
            transaction-Preserves db _ c
              (Preserves-bind _ _ (change-Rest qty (is_item item_id cart_id) kept)
                (λ n. touch_if-Rest n now cart_id))
              u)
        | inr e ↦ rw e u
      ]

  pub remove_item-Rest :
      (now : ℤ) (cart_id : String) (item_id : ℤ) (c : Conn CartTables)
      → Rest c.tables
      → Rest (remove_item now cart_id item_id c).1.tables
  unfolding remove_item
  remove_item-Rest now cart_id item_id c u =
      transaction-Preserves db _ c
        (Preserves-bind _ _ (delete-Rest (is_item item_id cart_id))
          (λ n. touch_if-Rest n now cart_id))
        u
