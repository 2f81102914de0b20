-- ===== src/Cart/Tests.antt =====
-- Runs of crates/orders/src/cart_repo.rs at concrete carts.
use tiny_shop.Prelude.{
  String, ◌≡◌, refl, true, false, ◌&&◌, Option, none, some, [], ◌∷◌, arith, ◌==◌, string_eq, All,
  filter, find?, any, update_where,
}
use tiny_shop.Prelude.Int.{pos, ◌+ℤ◌, ◌≤ℤ◌}
use mathlib.Core.Option
use tiny_shop.Sql.{ok, Conn, transaction}
use tiny_shop.Cart.{
  Cart, CartItem, NewCartItem, CartTables, max_qty, coalesce, is_cart, add_item, update_qty,
  remove_item, has_cart,
}
use tiny_shop.Cart.Shape.{IsWellFormed}
use tiny_shop.Cart.Keeps.{adds, updates, removes, clears, run, run-IsWellFormed}
use tiny_shop.Cart.Isolation.{SameCart, target, run-SameCart}
use tiny_shop.Cart.Success.{add_item-succeeds}
use tiny_shop.Cart.Lines.{qty_of, line_of, capped, add_item_lem}
use tiny_shop.Cart.Quantities.{item_of, requantified, update_qty_lem, foreign_item_unchanged}

abbrev plain : String → String
plain s = s

abbrev cart_of : String → Cart
cart_of id = record { token_hash = id; created_at = pos 1; updated_at = pos 1 }

abbrev lamp : NewCartItem
lamp = record {
  product_id = "lamp";
  variant_id = none;
  qty = pos 5;
  title = "Lamp";
  unit_price_minor = pos 900;
  currency = "EUR";
}

abbrev lamps : CartItem
lamps = record {
  id = 1;
  cart_id = "ann";
  product_id = "lamp";
  variant_id = none;
  qty = pos 998;
  title = "Old lamp";
  unit_price_minor = pos 800;
  currency = "EUR";
  added_at = pos 1;
}

abbrev two_carts : CartTables
two_carts = record { carts = cart_of "ann" ∷ cart_of "bob" ∷ []; items = lamps ∷ []; last_item = 1 }

-- A file where nothing fails, and one where the second access does.
abbrev quiet : Conn CartTables
quiet = record { tables = two_carts; faults = [] }

abbrev shaky : Conn CartTables
shaky = record { tables = two_carts; faults = false ∷ true ∷ [] }

two_carts-IsWellFormed : IsWellFormed two_carts
unfolding any
two_carts-IsWellFormed = record {
  in_range = ((omega arith, omega arith), tt);
  owned = (refl, tt);
  given = (omega arith, tt);
  ascending = (tt, tt);
  distinct = (tt, tt);
  tokens = ((refl, tt), (tt, tt));
}

run-IsWellFormed_example :
    IsWellFormed
      (run plain
        (adds (pos 2) "ann" lamp
          ∷ updates (pos 3) "ann" (pos 1) (pos 7)
          ∷ removes (pos 4) "bob" (pos 1)
          ∷ [])
        shaky).tables
run-IsWellFormed_example =
    run-IsWellFormed plain
      (adds (pos 2) "ann" lamp
        ∷ updates (pos 3) "ann" (pos 1) (pos 7)
        ∷ removes (pos 4) "bob" (pos 1)
        ∷ [])
      shaky two_carts-IsWellFormed

-- Bob's calls name the id of Ann's item.
bob_only :
    All
      (λ x. (target plain x == "ann") ≡ false)
      (updates (pos 3) "bob" (pos 1) (pos 7)
        ∷ removes (pos 4) "bob" (pos 1)
        ∷ clears (pos 5) "bob"
        ∷ [])
unfolding target
bob_only = (refl, (refl, (refl, tt)))

run-SameCart_example :
    SameCart "ann" two_carts
      (run plain
        (updates (pos 3) "bob" (pos 1) (pos 7)
          ∷ removes (pos 4) "bob" (pos 1)
          ∷ clears (pos 5) "bob"
          ∷ [])
        quiet).tables
run-SameCart_example =
    run-SameCart plain "ann"
      (updates (pos 3) "bob" (pos 1) (pos 7)
        ∷ removes (pos 4) "bob" (pos 1)
        ∷ clears (pos 5) "bob"
        ∷ [])
      quiet bob_only

add_runs : (add_item (pos 2) "ann" lamp quiet).0 ≡ ok tt
unfolding add_item transaction any
add_runs = refl

-- 998 and 5 make 999.
adds_up_to_cap : qty_of "ann" "lamp" none (add_item (pos 2) "ann" lamp quiet).1.tables ≡ pos 999
unfolding add_item transaction qty_of line_of find? any update_where ◌+ℤ◌
adds_up_to_cap = refl

add_item_lem_example :
    (qty_of "ann" "lamp" none (add_item (pos 2) "ann" lamp quiet).1.tables
      ≡ capped (qty_of "ann" "lamp" none two_carts +ℤ pos 5))
    × (r : CartItem) × (line_of "ann" "lamp" none (add_item (pos 2) "ann" lamp quiet).1.tables
        ≡ some r)
    × (r.title ≡ "Lamp")
    × (r.unit_price_minor ≡ pos 900)
    × (r.currency ≡ "EUR")
    × (r.added_at ≡ pos 2)
    × ((product_id : String) (variant_id : Option String)
        → ("lamp" == product_id && coalesce none == coalesce variant_id) ≡ false
        → line_of "ann" product_id variant_id (add_item (pos 2) "ann" lamp quiet).1.tables
          ≡ line_of "ann" product_id variant_id two_carts)
add_item_lem_example = add_item_lem (pos 2) "ann" lamp quiet add_runs

update_runs : (update_qty (pos 3) "ann" (pos 1) (pos 0) quiet).0 ≡ ok tt
unfolding update_qty transaction filter
update_runs = refl

ann_has : item_of "ann" (pos 1) two_carts ≡ some lamps
unfolding item_of find?
ann_has = refl

bob_has_not : item_of "bob" (pos 1) two_carts ≡ none
unfolding item_of find?
bob_has_not = refl

update_qty_lem_example :
    (pos 0 ≤ℤ pos 0)
    × (pos 0 ≤ℤ max_qty)
    × (item_of "ann" (pos 1) (update_qty (pos 3) "ann" (pos 1) (pos 0) quiet).1.tables
        ≡ requantified (pos 0) lamps)
    × (find? (is_cart "ann") (update_qty (pos 3) "ann" (pos 1) (pos 0) quiet).1.tables.carts
        ≡ Option.map
            (λ (c : Cart). record c { updated_at = pos 3 })
            (find? (is_cart "ann") two_carts.carts))
update_qty_lem_example =
    update_qty_lem (pos 3) "ann" (pos 1) (pos 0) quiet lamps ann_has update_runs

foreign_item_unchanged_example :
    ((update_qty (pos 3) "bob" (pos 1) (pos 7) quiet).1.tables ≡ two_carts)
    × ((remove_item (pos 3) "bob" (pos 1) quiet).1.tables ≡ two_carts)
foreign_item_unchanged_example =
    foreign_item_unchanged (pos 3) "bob" (pos 1) (pos 7) quiet bob_has_not

ann_there : has_cart "ann" two_carts ≡ true
unfolding any
ann_there = refl

add_item-succeeds_example : (add_item (pos 2) "ann" lamp quiet).0 ≡ ok tt
add_item-succeeds_example = add_item-succeeds (pos 2) "ann" lamp quiet refl refl ann_there refl
