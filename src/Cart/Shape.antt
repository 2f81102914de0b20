-- ===== src/Cart/Shape.antt =====
-- The shape of the cart tables that every operation of crates/orders/src/cart_repo.rs keeps.
use tiny_shop.Prelude.{
  suc, ◌≤◌, ◌<◌, String, ◌≡◌, refl, ◌∙◌, any-append, any-update_where, Bool, true, false, [], ◌∷◌,
  ◌++◌, arith, ◌==◌, string_eq, nat_eq, any, update_where, delete_where, All, All-append, All-map,
  All-filter, All-update_where, All_of_any-false, Apart, Apart-filter, Apart-append_one,
  Apart-update_where,
}
use tiny_shop.Prelude.Int.{ℤ, pos, ◌≤ℤ◌}
use tiny_shop.Cart.{Cart, CartItem, NewCartItem, CartTables, max_qty, same_line, is_cart, inserted}

-- No two items of one cart are for the same product and variant.
abbrev pub OtherLine : CartItem → CartItem → Type 0
OtherLine r s = same_line s.cart_id s.product_id s.variant_id r ≡ false

abbrev pub Earlier : CartItem → CartItem → Type 0
Earlier r s = r.id < s.id

abbrev pub OtherCart : Cart → Cart → Type 0
OtherCart c d = (c.token_hash == d.token_hash) ≡ false

abbrev pub InRange : CartItem → Type 0
InRange r = (pos 1 ≤ℤ r.qty) × (r.qty ≤ℤ max_qty)

pub record IsWellFormed (t : CartTables) : Type 0 where
  pub in_range : All InRange t.items
  pub owned : All (λ r. any (is_cart r.cart_id) t.carts ≡ true) t.items
  pub given : All (λ r. r.id ≤ t.last_item) t.items
  pub ascending : Apart Earlier t.items
  pub distinct : Apart OtherLine t.items
  pub tokens : Apart OtherCart t.carts

-- DELETE keeps the shape.
pub delete-IsWellFormed :
    (p : CartItem → Bool) (t : CartTables)
    → IsWellFormed t
    → IsWellFormed (record t { items = delete_where p t.items })
unfolding delete_where
delete-IsWellFormed p t w = record {
  in_range = All-filter _ _ t.items w.in_range;
  owned = All-filter _ _ t.items w.owned;
  given = All-filter _ _ t.items w.given;
  ascending = Apart-filter Earlier _ t.items w.ascending;
  distinct = Apart-filter OtherLine _ t.items w.distinct;
  tokens = w.tokens;
}

-- So does an UPDATE that leaves the identity of a row alone and sets a quantity in range.
pub update-IsWellFormed :
    (p : CartItem → Bool) (f : CartItem → CartItem) (t : CartTables)
    → ((r : CartItem) → p r ≡ true → InRange r → InRange (f r))
    → ((r : CartItem) → (f r).id ≡ r.id)
    → ((r : CartItem) → (f r).cart_id ≡ r.cart_id)
    → ((r : CartItem) → (f r).product_id ≡ r.product_id)
    → ((r : CartItem) → (f r).variant_id ≡ r.variant_id)
    → IsWellFormed t
    → IsWellFormed (record t { items = update_where p f t.items })
update-IsWellFormed p f t range id cart product variant w = record {
  in_range = All-update_where InRange p f t.items range w.in_range;
  owned = All-update_where _ p f t.items (λ r _ h. rw (cart r) h) w.owned;
  given = All-update_where _ p f t.items (λ r _ h. rw (id r) h) w.given;
  ascending =
      Apart-update_where Earlier p f t.items (λ r s h. rw (id r) h) (λ r s h. rw (id s) h)
        w.ascending;
  distinct =
      Apart-update_where OtherLine p f t.items (λ r s h. rw (cart r, product r, variant r) h)
        (λ r s h. rw (cart s, product s, variant s) h) w.distinct;
  tokens = w.tokens;
}

-- An id that is drawn and not used.
pub draw-IsWellFormed :
    (t : CartTables) → IsWellFormed t → IsWellFormed (record t { last_item = suc t.last_item })
draw-IsWellFormed t w = record {
  in_range = w.in_range;
  owned = w.owned;
  given = All-map (λ r h. omega (arith, h)) t.items w.given;
  ascending = w.ascending;
  distinct = w.distinct;
  tokens = w.tokens;
}

-- So does an UPDATE of a cart that leaves its token alone.
pub touch-IsWellFormed :
    (now : ℤ) (cart_id : String) (t : CartTables)
    → IsWellFormed t
    → IsWellFormed (record t {
      carts = update_where (is_cart cart_id) (λ c. record c { updated_at = now }) t.carts;
    })
touch-IsWellFormed now cart_id t w = record {
  in_range = w.in_range;
  owned =
      All-map (λ r h. any-update_where (is_cart r.cart_id) _ _ t.carts (λ c. refl) ∙ h) t.items
        w.owned;
  given = w.given;
  ascending = w.ascending;
  distinct = w.distinct;
  tokens = Apart-update_where OtherCart _ _ t.carts (λ c d h. h) (λ c d h. h) w.tokens;
}

-- A new item of an existing cart, for a product and variant that the cart does not hold.
pub insert-IsWellFormed :
    (now : ℤ) (cart_id : String) (item : NewCartItem) (t : CartTables)
    → (pos 1 ≤ℤ item.qty) × (item.qty ≤ℤ max_qty)
    → any (is_cart cart_id) t.carts ≡ true
    → any (same_line cart_id item.product_id item.variant_id) t.items ≡ false
    → IsWellFormed t
    → IsWellFormed (record t {
      items = t.items ++ inserted (suc t.last_item) now cart_id item ∷ [];
      last_item = suc t.last_item;
    })
insert-IsWellFormed now cart_id item t range own new w = record {
  in_range = All-append InRange t.items _ w.in_range (range, tt);
  owned = All-append _ t.items _ w.owned (own, tt);
  given = All-append _ t.items _ (All-map (λ r h. omega arith) t.items w.given) (omega arith, tt);
  ascending =
      Apart-append_one Earlier t.items _ (All-map (λ r h. omega arith) t.items w.given) w.ascending;
  distinct = Apart-append_one OtherLine t.items _ (All_of_any-false _ t.items new) w.distinct;
  tokens = w.tokens;
}

pub new_cart-IsWellFormed :
    (c : Cart) (t : CartTables)
    → any (is_cart c.token_hash) t.carts ≡ false
    → IsWellFormed t
    → IsWellFormed (record t { carts = t.carts ++ c ∷ [] })
new_cart-IsWellFormed c t new w = record {
  in_range = w.in_range;
  owned =
      All-map (λ r h. rw (any-append (is_cart r.cart_id) t.carts (c ∷ []), h) refl) t.items w.owned;
  given = w.given;
  ascending = w.ascending;
  distinct = w.distinct;
  tokens = Apart-append_one OtherCart t.carts c (All_of_any-false _ t.carts new) w.tokens;
}
