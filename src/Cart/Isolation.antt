-- ===== src/Cart/Isolation.antt =====
-- Operations of crates/orders/src/cart_repo.rs on one cart, seen from another: each statement
-- carries `cart_id` in its WHERE clause.
use tiny_shop.Prelude.{
  ℕ, suc, All, String, ◌≡◌, refl, Bool, true, false, ◌&&◌, ◌||◌, List, [], ◌∷◌, arith, ◌==◌, ==_iff,
  string_eq, filter, find?, Bool-cases, inl, inr, filter-append, filter-update_where,
  filter-delete_where, find?-update_ne, find?-append_one,
}
use mathlib.Core.List.{append-nil}
use tiny_shop.Prelude.Int.{ℤ, pos, leb_ℤ, ltb_ℤ, int_eq}
use tiny_shop.Sql.{Conn}
use tiny_shop.Sql.Laws.{Preserves, Preserves-bind, transaction-Preserves, transaction_keeps}
use tiny_shop.Cart.{
  Cart, CartItem, NewCartItem, CartTables, db, max_qty, same_line, is_cart, refreshed, inserted,
  upsert_item, touch_cart, touch_if, add_item, is_item, in_cart, delete_items, change_qty,
  update_qty, remove_item, clear, create_cart,
}
use tiny_shop.Cart.Keeps.{Call, creates, adds, updates, removes, clears, step, run}

-- The other cart as its owner sees it: its row and its items.
pub record SameCart (other : String) (t t' : CartTables) : Type 0 where
  pub row : find? (is_cart other) t'.carts ≡ find? (is_cart other) t.carts
  pub items : filter (in_cart other) t'.items ≡ filter (in_cart other) t.items

module _ (other cart_id : String) (apart : (cart_id == other) ≡ false) (t₀ : CartTables) where
  is_cart_apart : (c : Cart) → is_cart cart_id c ≡ true → is_cart other c ≡ false
  is_cart_apart c h = rw ((==_iff c.token_hash cart_id).0 h) apart

  in_cart_apart : (r : CartItem) → in_cart cart_id r ≡ true → in_cart other r ≡ false
  in_cart_apart r h = rw ((==_iff r.cart_id cart_id).0 h) apart

  touch-SameCart : (now : ℤ) → Preserves (SameCart other t₀) (touch_cart now cart_id)
  unfolding touch_cart
  touch-SameCart now = record {
    at = λ t a t' h s. ground (
      arith,
      find?-update_ne (is_cart other) (is_cart cart_id) (λ c. record c { updated_at = now }) t.carts
          is_cart_apart is_cart_apart,
    );
  }

  touch_if-SameCart : (n : ℕ) (now : ℤ) → Preserves (SameCart other t₀) (touch_if n now cart_id)
  unfolding touch_if touch_cart
  touch_if-SameCart n now = record {
    at = λ t a t' h s. ground (
      arith,
      find?-update_ne (is_cart other) (is_cart cart_id) (λ c. record c { updated_at = now }) t.carts
          is_cart_apart is_cart_apart,
    );
  }

  delete-SameCart :
      (p : CartItem → Bool)
      → ((r : CartItem) → p r ≡ true → in_cart cart_id r ≡ true)
      → Preserves (SameCart other t₀) (delete_items p)
  unfolding delete_items
  delete-SameCart p own = record {
    at = λ t a t' h s.
        ground
          (arith, filter-delete_where (in_cart other) p t.items (λ r e. in_cart_apart r (own r e)));
  }

  change-SameCart :
      (qty : ℤ) (p : CartItem → Bool)
      → ((r : CartItem) → p r ≡ true → in_cart cart_id r ≡ true)
      → Preserves (SameCart other t₀) (change_qty qty p)
  unfolding change_qty
  change-SameCart qty p own = record {
    at = λ t a t' h s. ground (
      arith,
      filter-delete_where (in_cart other) p t.items (λ r e. in_cart_apart r (own r e)),
      filter-update_where (in_cart other) p (λ r. record r { qty = qty }) t.items
          (λ r e. in_cart_apart r (own r e)) (λ r e. in_cart_apart r (own r e)),
    );
  }

  upsert-SameCart :
      (now : ℤ) (item : NewCartItem) → Preserves (SameCart other t₀) (upsert_item now cart_id item)
  unfolding upsert_item filter
  upsert-SameCart now item = record {
    at = λ t a t' h s. ground (
      arith,
      apart,
      filter-append (in_cart other) t.items (inserted (suc t.last_item) now cart_id item ∷ []),
      append-nil (filter (in_cart other) t.items),
      filter-update_where (in_cart other) (same_line cart_id item.product_id item.variant_id)
          (refreshed now item) t.items (λ r e. in_cart_apart r (ground arith))
          (λ r e. in_cart_apart r (ground arith)),
    );
  }

  create-SameCart :
      (hash_token : String → String) (now : ℤ) (raw : String) (c : Conn CartTables)
      → (cart_id ≡ hash_token raw)
      → SameCart other t₀ c.tables
      → SameCart other t₀ (create_cart hash_token now raw c).1.tables
  unfolding create_cart
  create-SameCart hash_token now raw c e s =
      transaction_keeps (SameCart other t₀) db _ c
        (λ a t h. ground (
          arith,
          apart,
          find?-append_one (is_cart other) c.tables.carts
              (record { token_hash = hash_token raw; created_at = now; updated_at = now }),
        ))
        s

  add_item-SameCart :
      (now : ℤ) (item : NewCartItem) (c : Conn CartTables)
      → SameCart other t₀ c.tables
      → SameCart other t₀ (add_item now cart_id item c).1.tables
  unfolding add_item
  add_item-SameCart now item c s =
      elim (Bool-cases (leb_ℤ item.qty (pos 0) || ltb_ℤ max_qty item.qty)) [
        | inl e ↦ rw e s
        | inr e ↦ rw e (
            transaction-Preserves db _ c
              (Preserves-bind _ _ (upsert-SameCart now item) (λ _. touch-SameCart now)) s)
      ]

  update_qty-SameCart :
      (now item_id qty : ℤ) (c : Conn CartTables)
      → SameCart other t₀ c.tables
      → SameCart other t₀ (update_qty now cart_id item_id qty c).1.tables
  unfolding update_qty
  update_qty-SameCart now item_id qty c s =
      elim (Bool-cases (leb_ℤ (pos 0) qty && leb_ℤ qty max_qty)) [
        | inl e ↦ rw e (
            transaction-Preserves db _ c
              (Preserves-bind _ _
                (change-SameCart qty (is_item item_id cart_id) (λ r q. ground arith))
                (λ n. touch_if-SameCart n now))
              s)
        | inr e ↦ rw e s
      ]

module _ (hash_token : String → String) where
  -- The cart that a call names or creates.
  unfoldable pub target : Call hash_token → String
  target (creates now raw) = hash_token raw
  target (adds now cart_id item) = cart_id
  target (updates now cart_id item_id qty) = cart_id
  target (removes now cart_id item_id) = cart_id
  target (clears now cart_id) = cart_id

  step-SameCart :
      (other : String) (t₀ : CartTables) (x : Call hash_token) (c : Conn CartTables)
      → (target x == other) ≡ false
      → SameCart other t₀ c.tables
      → SameCart other t₀ (step hash_token x c).tables
  unfolding step target remove_item clear
  step-SameCart other t₀ (creates now raw) c a s =
      create-SameCart other (hash_token raw) a t₀ hash_token now raw c refl s
  step-SameCart other t₀ (adds now cart_id item) c a s =
      add_item-SameCart other cart_id a t₀ now item c s
  step-SameCart other t₀ (updates now cart_id item_id qty) c a s =
      update_qty-SameCart other cart_id a t₀ now item_id qty c s
  step-SameCart other t₀ (removes now cart_id item_id) c a s =
      transaction-Preserves db _ c
        (Preserves-bind _ _
          (delete-SameCart other cart_id a t₀ (is_item item_id cart_id) (λ r q. ground arith))
          (λ n. touch_if-SameCart other cart_id a t₀ n now))
        s
  step-SameCart other t₀ (clears now cart_id) c a s =
      transaction-Preserves db _ c
        (Preserves-bind _ _ (delete-SameCart other cart_id a t₀ (in_cart cart_id) (λ r q. q))
          (λ n. touch_if-SameCart other cart_id a t₀ n now))
        s

  run_from-SameCart :
      (other : String) (t₀ : CartTables) (xs : List (Call hash_token)) (c : Conn CartTables)
      → All (λ x. (target x == other) ≡ false) xs
      → SameCart other t₀ c.tables
      → SameCart other t₀ (run hash_token xs c).tables
  unfolding run
  run_from-SameCart other t₀ [] c a s = s
  run_from-SameCart other t₀ (x ∷ xs) c a s =
      run_from-SameCart other t₀ xs (step hash_token x c) a.1 (step-SameCart other t₀ x c a.0 s)

  -- Calls that name other carts, however many and in whatever order, and whichever of them fail:
  -- the cart `other` keeps its row and the items that `list_items` selects for it, in their order.
  -- This holds for any item ids in the calls, those of items of `other` included.
  pub run-SameCart :
      (other : String) (xs : List (Call hash_token)) (c : Conn CartTables)
      → All (λ x. (target x == other) ≡ false) xs
      → SameCart other c.tables (run hash_token xs c).tables
  run-SameCart other xs c a =
      run_from-SameCart other c.tables xs c a (record { row = refl; items = refl })
