-- ===== src/Orders/Repo.antt =====
-- `OrderRepo` of crates/orders/src/repository.rs.
use tiny_shop.Prelude.{
  String, Bool, not, Option, none, some, List, [], ◌∷◌, ◌==◌, string_eq, filter, find?, order_by,
  take, drop, length,
}
use tiny_shop.Prelude.Int.{ℤ, leb_ℤ}
use tiny_shop.Sql.{
  Result, ok, err, Tx, Db, transaction, query, reject, pure, lift, ◌>>=◌, ◌>>◌, attempt,
}
use tiny_shop.Shared.{NewEvent}
use tiny_shop.Shared.Json.{Json}
use tiny_shop.Shared.Pages.{Pagination, Page}
use tiny_shop.Events.Outbox.{enqueue}
use tiny_shop.Orders.{
  OrderRow, ItemRow, OrderItem, Order, NewOrder, NewOrderItem, NewOrderContact, OrderError,
  OrderTables, db, invalid_enum, json_error, empty_checkout, currency_mismatch, from_db, parse,
  is_order, of_order, insert_order, insert_item, recalculate, insert_contact,
}

module _ (J : Json) where
  open J use {Value, Encoded, text, object, to_string, from_str}

  abbrev pub Tables : Type 0
  Tables = OrderTables Encoded

  -- `outbox::enqueue(&mut *tx, ...).await?`
  unfoldable pub enqueue_event : ℤ → NewEvent Value → Tx OrderError Tables (Unit {0})
  unfolding enqueue from_db
  enqueue_event now ev t = elim (enqueue J now ev t.outbox) [
    | ok (id, o) ↦ ok (tt, record t { outbox = o })
    | err e ↦ err (from_db e)
  ]

  abbrev pub order_created : String → String → String → NewEvent Value
  order_created order_id buyer_id currency = record {
    aggregate = "order";
    aggregate_id = order_id;
    event_type = "OrderCreated";
    payload = object (
        ("order_id", text order_id)
        ∷ ("buyer_id", text buyer_id)
        ∷ ("currency", text currency)
        ∷ []);
  }

  unfoldable pub create_order : ℤ → NewOrder → Db OrderError Tables (Unit {0})
  unfolding insert_order enqueue_event
  create_order now o = transaction db (do
    insert_order o.id o.buyer_id o.currency now
    enqueue_event now (order_created o.id o.buyer_id o.currency))

  -- `config_snapshot.as_ref().map(serde_json::to_string).transpose()?`
  unfoldable pub snapshot_text : Option Value → Result OrderError (Option Encoded)
  snapshot_text none = ok none
  snapshot_text (some v) = elim (to_string v) [ none ↦ err json_error | some s ↦ ok (some s) ]

  abbrev pub row_of_item : String → NewOrderItem Value → Option Encoded → ItemRow Encoded
  row_of_item order_id item snapshot = record {
    id = item.id;
    order_id = order_id;
    product_id = item.product_id;
    seller_id = item.seller_id;
    variant_id = item.variant_id;
    title = item.title;
    unit_price_minor = item.unit_price_minor;
    currency = item.currency;
    config_snapshot = snapshot;
  }

  unfoldable pub add_item : ℤ → NewOrderItem Value → Db OrderError Tables (Unit {0})
  unfolding snapshot_text insert_item recalculate
  add_item now item = attempt (snapshot_text item.config_snapshot) (λ snapshot.
      transaction db
        (do insert_item (row_of_item item.order_id item snapshot); recalculate item.order_id))

  -- The loop over the items, each stored under the new order's id.
  unfoldable pub insert_items : String → List (NewOrderItem Value) → Tx OrderError Tables (Unit {0})
  unfolding snapshot_text insert_item
  insert_items order_id [] = pure tt
  insert_items order_id (item ∷ items) = do
    snapshot ← lift (snapshot_text item.config_snapshot)
    insert_item (row_of_item order_id item snapshot)
    insert_items order_id items

  -- `if let Some(contact) = contact`
  unfoldable pub insert_given_contact :
      String → ℤ → Option NewOrderContact → Tx OrderError Tables (Unit {0})
  unfolding insert_contact
  insert_given_contact order_id now none t = ok (tt, t)
  insert_given_contact order_id now (some k) t =
      insert_contact
        (record { order_id = order_id; email = k.email; name = k.name; created_at = now }) t

  unfoldable pub place :
      String
      → ℤ
      → String
      → String
      → List (NewOrderItem Value)
      → Option NewOrderContact
      → Tx OrderError Tables String
  unfolding insert_order insert_items recalculate insert_given_contact enqueue_event
  place order_id now buyer_id currency items contact = do
    insert_order order_id buyer_id currency now
    insert_items order_id items
    recalculate order_id
    insert_given_contact order_id now contact
    enqueue_event now (order_created order_id buyer_id currency)
    pure order_id

  -- The first argument is the uuid that the call draws.
  unfoldable pub checkout :
      String
      → ℤ
      → String
      → String
      → List (NewOrderItem Value)
      → Option NewOrderContact
      → Db OrderError Tables String
  unfolding place
  checkout order_id now buyer_id currency [] contact = reject empty_checkout
  checkout order_id now buyer_id currency (item ∷ items) contact =
      elim (find? (λ (i : NewOrderItem Value). not (i.currency == currency)) (item ∷ items)) [
        | some i ↦ reject (currency_mismatch currency i.currency)
        | none ↦ transaction db (place order_id now buyer_id currency (item ∷ items) contact)
      ]

  unfoldable pub map_order_row : OrderRow → Result OrderError (Order Value)
  map_order_row r = elim (parse r.status) [
    | none ↦ err (invalid_enum "status" r.status)
    | some status ↦ ok (record {
      id = r.id;
      buyer_id = r.buyer_id;
      status = status;
      total_minor = r.total_minor;
      currency = r.currency;
      created_at = r.created_at;
      items = [];
    })
  ]

  abbrev item_of_row : ItemRow Encoded → Option Value → OrderItem Value
  item_of_row r snapshot = record {
    id = r.id;
    order_id = r.order_id;
    product_id = r.product_id;
    seller_id = r.seller_id;
    variant_id = r.variant_id;
    title = r.title;
    unit_price_minor = r.unit_price_minor;
    currency = r.currency;
    config_snapshot = snapshot;
  }

  unfoldable pub map_item_row : ItemRow Encoded → Result OrderError (OrderItem Value)
  map_item_row r = elim r.config_snapshot [
    | none ↦ ok (item_of_row r none)
    | some s ↦ elim (from_str s) [ none ↦ err json_error | some v ↦ ok (item_of_row r (some v)) ]
  ]

  unfoldable pub collect :
      {A B : Type 0} → (A → Result OrderError B) → List A → Result OrderError (List B)
  collect f [] = ok []
  collect f (a ∷ as') =
      let rest = collect f as' in
      elim (f a) [ err e ↦ err e | ok b ↦ elim rest [ ok bs ↦ ok (b ∷ bs) | err e ↦ err e ] ]

  -- `rowid` is the order of insertion.
  unfoldable pub fetch_items : String → Tables → Result OrderError (List (OrderItem Value))
  unfolding collect map_item_row
  fetch_items order_id t = collect map_item_row (filter (of_order order_id) t.order_items)

  unfoldable pub get_order : String → Db OrderError Tables (Option (Order Value))
  unfolding map_order_row
  get_order id = query db λ t. elim (find? (is_order id) t.orders) [
    | none ↦ ok none
    | some r ↦ elim (map_order_row r) [ ok o ↦ ok (some o) | err e ↦ err e ]
  ]

  -- Two SELECTs, the second only where the first gave an order.
  unfoldable pub get_order_with_items : String → Db OrderError Tables (Option (Order Value))
  unfolding get_order fetch_items
  get_order_with_items id c =
      let (found, c') = get_order id c in
      elim found [
        | err e ↦ (err e, c')
        | ok none ↦ (ok none, c')
        | ok (some o) ↦
            let (items, c'') = query db (fetch_items id) c' in
            elim items [ err e ↦ (err e, c'') | ok is ↦ (ok (some (record o { items = is })), c'') ]
      ]

  abbrev of_buyer : String → OrderRow → Bool
  of_buyer buyer_id r = r.buyer_id == buyer_id

  -- The COUNT, then the page, newest first.
  unfoldable pub list_by_buyer : String → Pagination → Db OrderError Tables (Page (Order Value))
  unfolding collect map_order_row
  list_by_buyer buyer_id pg c =
      let (total, c') = query db (λ t. ok (length (filter (of_buyer buyer_id) t.orders))) c in
      elim total [
        | err e ↦ (err e, c')
        | ok n ↦
            let (rows, c'') =
              query db
                (λ t. collect map_order_row (
                  take pg.limit (
                    drop pg.offset (
                      order_by (λ r s. leb_ℤ s.created_at r.created_at)
                        (filter (of_buyer buyer_id) t.orders)))))
                c' in
            elim rows [
              | err e ↦ (err e, c'')
              | ok os ↦ (ok (record { items = os; total = n; page = pg }), c'')
            ]
      ]
