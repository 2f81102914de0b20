-- ===== src/Cart/Keeps.antt =====
-- Every operation of crates/orders/src/cart_repo.rs keeps the shape of the tables, whatever the
-- engine does.
use tiny_shop.Prelude.{
  ℕ, suc, String, ◌≡◌, refl, Bool, true, ◌&&◌, ◌||◌, List, [], ◌∷◌, arith, ◌==◌, Bool-cases, inl,
  inr, string_eq, any,
}
use tiny_shop.Prelude.Int.{ℤ, pos, ◌≤ℤ◌, leb_ℤ, ltb_ℤ, int_eq, +ℤ_parts}
use tiny_shop.Sql.{Conn, ◌>>=◌, transaction}
use tiny_shop.Sql.Laws.{transaction_keeps, Preserves, Preserves-bind, transaction-Preserves}
use tiny_shop.Cart.{
  CartItem, NewCartItem, CartTables, db, max_qty, same_line, has_cart, refreshed, upsert_item,
  touch_cart, touch_if, add_item, is_item, in_cart, delete_items, change_qty, update_qty,
  remove_item, clear, create_cart,
}
use tiny_shop.Cart.Shape.{
  IsWellFormed, InRange, delete-IsWellFormed, update-IsWellFormed, draw-IsWellFormed,
  touch-IsWellFormed, insert-IsWellFormed, new_cart-IsWellFormed,
}

touch-Preserves : (now : ℤ) (cart_id : String) → Preserves IsWellFormed (touch_cart now cart_id)
unfolding touch_cart
touch-Preserves now cart_id = record {
  at = λ t a t' h w. ground (arith, touch-IsWellFormed now cart_id t w);
}

touch_if-Preserves :
    (n : ℕ) (now : ℤ) (cart_id : String) → Preserves IsWellFormed (touch_if n now cart_id)
unfolding touch_if
touch_if-Preserves n now cart_id = record {
  at = λ t a t' h w. ground (arith, touch-IsWellFormed now cart_id t w);
}

delete-Preserves : (p : CartItem → Bool) → Preserves IsWellFormed (delete_items p)
unfolding delete_items
delete-Preserves p = record { at = λ t a t' h w. ground (arith, delete-IsWellFormed p t w) }

change-Preserves :
    (qty : ℤ) (p : CartItem → Bool)
    → (leb_ℤ (pos 0) qty && leb_ℤ qty max_qty) ≡ true
    → Preserves IsWellFormed (change_qty qty p)
unfolding change_qty
change-Preserves qty p g = record {
  at = λ t a t' h w. elim (Bool-cases (qty == pos 0)) [
    | inl e ↦ ground (arith, e, delete-IsWellFormed p t w)
    | inr e ↦ ground (
      arith,
      e,
      update-IsWellFormed p (λ r. record r { qty = qty }) t (λ r _ _. (ground arith, ground arith))
          (λ r. refl) (λ r. refl) (λ r. refl) (λ r. refl) w,
    )
  ];
}

refreshed-InRange :
    (now : ℤ) (item : NewCartItem) (r : CartItem)
    → pos 1 ≤ℤ item.qty
    → InRange r
    → InRange (refreshed now item r)
refreshed-InRange now item r lo h = ground (arith, +ℤ_parts r.qty item.qty)

abbrev Guarded : NewCartItem → Type 0
Guarded item = (pos 1 ≤ℤ item.qty) × (item.qty ≤ℤ max_qty)

upsert-Preserves :
    (now : ℤ) (cart_id : String) (item : NewCartItem)
    → Guarded item
    → Preserves IsWellFormed (upsert_item now cart_id item)
unfolding upsert_item
upsert-Preserves now cart_id item g = record {
  at = λ t a t' h w.
      elim (Bool-cases (any (same_line cart_id item.product_id item.variant_id) t.items)) [
        | inl old ↦ ground (
          arith,
          update-IsWellFormed (same_line cart_id item.product_id item.variant_id)
              (refreshed now item) (record t { last_item = suc t.last_item })
              (λ r _ q. refreshed-InRange now item r g.0 q) (λ r. refl) (λ r. refl) (λ r. refl)
              (λ r. refl) (draw-IsWellFormed t w),
          old,
        )
        | inr new ↦ elim (Bool-cases (has_cart cart_id t)) [
          | inl own ↦ ground (arith, insert-IsWellFormed now cart_id item t g own new w, new, own)
          | inr own ↦ ground (arith, new, own)
        ]
      ];
}

add_item-IsWellFormed :
    (now : ℤ) (cart_id : String) (item : NewCartItem) (c : Conn CartTables)
    → IsWellFormed c.tables
    → IsWellFormed (add_item now cart_id item c).1.tables
unfolding add_item
add_item-IsWellFormed now cart_id item c w =
    elim (Bool-cases (leb_ℤ item.qty (pos 0) || ltb_ℤ max_qty item.qty)) [
      | inl e ↦ rw e w
      | inr e ↦ rw e (
          transaction-Preserves db _ c
            (Preserves-bind _ _ (upsert-Preserves now cart_id item (ground arith, ground arith))
              (λ _. touch-Preserves now cart_id))
            w)
    ]

update_qty-IsWellFormed :
    (now : ℤ) (cart_id : String) (item_id qty : ℤ) (c : Conn CartTables)
    → IsWellFormed c.tables
    → IsWellFormed (update_qty now cart_id item_id qty c).1.tables
unfolding update_qty
update_qty-IsWellFormed now cart_id item_id qty c w =
    elim (Bool-cases (leb_ℤ (pos 0) qty && leb_ℤ qty max_qty)) [
      | inl e ↦ rw e (
          transaction-Preserves db _ c
            (Preserves-bind _ _ (change-Preserves qty (is_item item_id cart_id) e)
              (λ n. touch_if-Preserves n now cart_id))
            w)
      | inr e ↦ rw e w
    ]

-- DELETE by a test, then the time stamp of the cart.
delete_then_touch-IsWellFormed :
    (p : CartItem → Bool) (now : ℤ) (cart_id : String) (c : Conn CartTables)
    → IsWellFormed c.tables
    → IsWellFormed (transaction db (delete_items p >>= λ n. touch_if n now cart_id) c).1.tables
delete_then_touch-IsWellFormed p now cart_id c w =
    transaction-Preserves db _ c
      (Preserves-bind _ _ (delete-Preserves p) (λ n. touch_if-Preserves n now cart_id)) w

module _ (hash_token : String → String) where
  create_cart-IsWellFormed :
      (now : ℤ) (raw : String) (c : Conn CartTables)
      → IsWellFormed c.tables
      → IsWellFormed (create_cart hash_token now raw c).1.tables
  unfolding create_cart
  create_cart-IsWellFormed now raw c w =
      transaction_keeps IsWellFormed db _ c
        (λ a t h. ground (
          arith,
          new_cart-IsWellFormed
              (record { token_hash = hash_token raw; created_at = now; updated_at = now }) c.tables,
        ))
        w

  -- The calls that change the cart tables.
  pub data Call : Type 0 where
    creates : ℤ → String → Call
    adds : ℤ → String → NewCartItem → Call
    updates : ℤ → String → ℤ → ℤ → Call
    removes : ℤ → String → ℤ → Call
    clears : ℤ → String → Call

  unfoldable pub step : Call → Conn CartTables → Conn CartTables
  step (creates now raw) c = (create_cart hash_token now raw c).1
  step (adds now cart_id item) c = (add_item now cart_id item c).1
  step (updates now cart_id item_id qty) c = (update_qty now cart_id item_id qty c).1
  step (removes now cart_id item_id) c = (remove_item now cart_id item_id c).1
  step (clears now cart_id) c = (clear now cart_id c).1

  unfoldable pub run : List Call → Conn CartTables → Conn CartTables
  run [] c = c
  run (x ∷ xs) c = run xs (step x c)

  pub step-IsWellFormed :
      (x : Call) (c : Conn CartTables) → IsWellFormed c.tables → IsWellFormed (step x c).tables
  unfolding step remove_item clear
  step-IsWellFormed (creates now raw) c w = create_cart-IsWellFormed now raw c w
  step-IsWellFormed (adds now cart_id item) c w = add_item-IsWellFormed now cart_id item c w
  step-IsWellFormed (updates now cart_id item_id qty) c w =
      update_qty-IsWellFormed now cart_id item_id qty c w
  step-IsWellFormed (removes now cart_id item_id) c w =
      delete_then_touch-IsWellFormed (is_item item_id cart_id) now cart_id c w
  step-IsWellFormed (clears now cart_id) c w =
      delete_then_touch-IsWellFormed (in_cart cart_id) now cart_id c w

  -- Whatever calls are made, in whatever order, and whichever of them the engine fails in: from
  -- well-formed tables the tables stay well-formed. Every quantity is in 1..=MAX_QTY, every item
  -- belongs to a cart that exists, item ids ascend and were given by the counter, no cart holds one
  -- product and variant twice, and no two carts have one token hash.
  pub run-IsWellFormed :
      (xs : List Call) (c : Conn CartTables)
      → IsWellFormed c.tables
      → IsWellFormed (run xs c).tables
  unfolding run
  run-IsWellFormed [] c w = w
  run-IsWellFormed (x ∷ xs) c w = run-IsWellFormed xs (step x c) (step-IsWellFormed x c w)
