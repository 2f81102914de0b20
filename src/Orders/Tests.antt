-- ===== src/Orders/Tests.antt =====
-- Runs of crates/orders/src/repository.rs at concrete orders.
use tiny_shop.Prelude.{
  ℕ, String, ◌≡◌, refl, true, false, Option, none, some, List, [], ◌∷◌, ◌≤◌, All, filter, find?,
  any, update_where,
}
use tiny_shop.Prelude.Int.{ℤ, pos, ◌+ℤ◌}
use tiny_shop.Sql.{ok, Conn, transaction, fails, later}
use tiny_shop.Shared.Json.{trees, Tree, text}
use tiny_shop.Events.Outbox.{Outbox, enqueue, no_rows}
use tiny_shop.Orders.{NewOrderItem, NewOrderContact}
use tiny_shop.Orders.Repo.{Tables, checkout, get_order_with_items, order_created}
use tiny_shop.Orders.Keeps.{IsConsistent, creates, adds, checks_out, run, run-IsConsistent}
use tiny_shop.Orders.Placed.{placed}
use tiny_shop.Orders.Receipt.{checkout_lem}
use tiny_shop.Orders.RoundTrip.{Restored, new_order, checkout-get_order_with_items}

abbrev no_orders : Tables trees
no_orders = record { orders = []; order_items = []; contacts = []; outbox = no_rows }

abbrev quiet : Conn (Tables trees)
quiet = record { tables = no_orders; faults = [] }

-- The second access fails.
abbrev shaky : Conn (Tables trees)
shaky = record { tables = no_orders; faults = false ∷ true ∷ [] }

abbrev item_of : String → ℤ → Option Tree → NewOrderItem Tree
item_of id price snapshot = record {
  id = id;
  order_id = "";
  product_id = "lamp";
  seller_id = "ada";
  variant_id = none;
  title = "Lamp";
  unit_price_minor = price;
  currency = "EUR";
  config_snapshot = snapshot;
}

abbrev two_items : List (NewOrderItem Tree)
two_items = item_of "i1" (pos 900) (some (text "red")) ∷ item_of "i2" (pos 150) none ∷ []

abbrev contact : Option NewOrderContact
contact = some (record { email = "ann@example.org"; name = none })

no_orders-IsConsistent : IsConsistent trees no_orders
no_orders-IsConsistent = record {
  totals = tt;
  owned = tt;
  readable = tt;
  order_ids = tt;
  item_ids = tt;
  addressed = tt;
}

run-IsConsistent_example :
    IsConsistent trees
      (run trees
        (checks_out "o1" (pos 5) "ann" "EUR" two_items contact
          ∷ creates (pos 6) (record { id = "o2"; buyer_id = "bob"; currency = "EUR" })
          ∷ adds (pos 7) (record (item_of "i3" (pos 70) none) { order_id = "o1" })
          ∷ [])
        shaky).tables
run-IsConsistent_example =
    run-IsConsistent trees
      (checks_out "o1" (pos 5) "ann" "EUR" two_items contact
        ∷ creates (pos 6) (record { id = "o2"; buyer_id = "bob"; currency = "EUR" })
        ∷ adds (pos 7) (record (item_of "i3" (pos 70) none) { order_id = "o1" })
        ∷ [])
      shaky no_orders-IsConsistent

checkout_runs : (checkout trees "o1" (pos 5) "ann" "EUR" two_items contact quiet).0 ≡ ok "o1"
unfolding checkout transaction find? any filter ◌+ℤ◌ update_where
checkout_runs = refl

checkout_lem_example :
    (◌≡◌ {A = String} "o1" "o1")
    × (1 ≤ 2)
    × All (λ (i : NewOrderItem Tree). i.currency ≡ "EUR") two_items
    × (n : ℕ) × (o : Outbox Tree) × (enqueue trees
          (pos 5)
          (order_created trees "o1" "ann" "EUR")
          no_rows
        ≡ ok (n, o))
    × ((checkout trees "o1" (pos 5) "ann" "EUR" two_items contact quiet).1.tables
        ≡ placed trees "o1" (pos 5) "ann" "EUR" two_items contact o no_orders)
checkout_lem_example =
    checkout_lem trees "o1" (pos 5) "ann" "EUR" two_items contact quiet "o1" no_orders-IsConsistent
      checkout_runs

first_read_runs :
    fails (checkout trees "o1" (pos 5) "ann" "EUR" two_items contact quiet).1.faults ≡ false
unfolding checkout transaction find? any filter ◌+ℤ◌ update_where
first_read_runs = refl

second_read_runs :
    fails (later (checkout trees "o1" (pos 5) "ann" "EUR" two_items contact quiet).1.faults) ≡ false
unfolding checkout transaction find? any filter ◌+ℤ◌ update_where
second_read_runs = refl

restored : All (λ (i : NewOrderItem Tree). Restored trees i.config_snapshot) two_items
restored = (refl, (tt, tt))

checkout-get_order_with_items_example :
    (get_order_with_items trees "o1"
      (checkout trees "o1" (pos 5) "ann" "EUR" two_items contact quiet).1).0
    ≡ ok (some (new_order trees "o1" (pos 5) "ann" "EUR" two_items))
checkout-get_order_with_items_example =
    checkout-get_order_with_items trees "o1" (pos 5) "ann" "EUR" two_items contact quiet "o1"
      no_orders-IsConsistent restored checkout_runs first_read_runs second_read_runs
