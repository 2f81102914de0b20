-- ===== src/Orders/RoundTrip.antt =====
-- What `get_order_with_items` of crates/orders/src/repository.rs reads after `checkout`.
use tiny_shop.Prelude.{
  String, ◌≡◌, refl, ◌∙◌, sym, ap, false, Option, some, none, List, [], ◌∷◌, map, arith, ==_self,
  string_eq, find?, any, All, Option-cases, inl, inr,
}
use tiny_shop.Prelude.Int.{ℤ}
use tiny_shop.Sql.{Result, ok}
use tiny_shop.Sql.Laws.{bind-eq-ok}
use tiny_shop.Shared.Json.{Json}
use tiny_shop.Events.Outbox.{Outbox}
use tiny_shop.Orders.{
  OrderRow, NewOrderItem, NewOrderContact, OrderError, is_order, row_of_order, insert_order,
}
use tiny_shop.Orders.Repo.{Tables, insert_items, place, checkout}
use tiny_shop.Orders.Keeps.{IsConsistent}
use tiny_shop.Orders.Checkout.{insert_order-eq-ok, stored}
use tiny_shop.Orders.{db, insert_item, OrderItem, Order, parse, as_str, created}
use tiny_shop.Orders.Repo.{
  snapshot_text, row_of_item, collect, map_item_row, map_order_row, fetch_items, get_order,
  get_order_with_items,
}
use tiny_shop.Orders.Placed.{placed, due, new_rows}
use tiny_shop.Orders.Receipt.{foreign, checkout_taken, checkout_lem}
use tiny_shop.Orders.Checkout.{kept, lift-eq-ok}
use tiny_shop.Sql.{Result, ok, Conn, lift, ◌>>◌, fails, later}
use tiny_shop.Sql.Laws.{query_runs, transaction-eq-ok}
use tiny_shop.Prelude.Select.{find?-last}

module _ (J : Json) where
  open J use {Value, Encoded, to_string, from_str}

  -- A text of a column, as it is read, and a snapshot that is read back as it was stored.
  abbrev back : Option Encoded → Option Value
  back none = none
  back (some t) = from_str t

  abbrev pub Restored : Option Value → Type 0
  Restored none = Unit {0}
  Restored (some v) = back (to_string v) ≡ some v

  -- An item as the buyer asked for it, under the new order's id.
  abbrev pub ordered : String → NewOrderItem Value → OrderItem Value
  ordered order_id i = record {
    id = i.id;
    order_id = order_id;
    product_id = i.product_id;
    seller_id = i.seller_id;
    variant_id = i.variant_id;
    title = i.title;
    unit_price_minor = i.unit_price_minor;
    currency = i.currency;
    config_snapshot = i.config_snapshot;
  }

  abbrev pub new_order : String → ℤ → String → String → List (NewOrderItem Value) → Order Value
  new_order order_id now buyer_id currency items = record {
    id = order_id;
    buyer_id = buyer_id;
    status = created;
    total_minor = due items;
    currency = currency;
    created_at = now;
    items = map (ordered order_id) items;
  }

  abbrev IsKept : NewOrderItem Value → Type 0
  IsKept i = snapshot_text J i.config_snapshot ≡ ok (kept J (snapshot_text J i.config_snapshot))

  insert_items-IsKept :
      (order_id : String) (items : List (NewOrderItem Value)) (t t' : Tables J)
      → insert_items J order_id items t ≡ ok (tt, t')
      → All IsKept items
  unfolding insert_items
  insert_items-IsKept order_id [] t t' h = tt
  insert_items-IsKept order_id (item ∷ items) t t' h =
      let (snapshot, t₁, e₁, k₁) =
        bind-eq-ok (lift (snapshot_text J item.config_snapshot))
          (λ s. insert_item (row_of_item J order_id item s) >> insert_items J order_id items) t tt
          t' h in
      let (u, t₂, e₂, k₂) =
        bind-eq-ok (insert_item (row_of_item J order_id item snapshot))
          (λ _. insert_items J order_id items) t₁ tt t' k₁ in
      let same = (lift-eq-ok J (snapshot_text J item.config_snapshot) snapshot t t₁ e₁).0 in
      (same ∙ ap ok (sym (ap (kept J) same)), insert_items-IsKept order_id items t₂ t' k₂)

  kept_lem :
      (v : Value) (s : Encoded) → to_string v ≡ some s → kept J (snapshot_text J (some v)) ≡ some s
  unfolding snapshot_text
  kept_lem v s e = rw (e, kept) refl

  map_item_row_lem :
      (order_id : String) (i : NewOrderItem Value) (s : Encoded) (v : Value)
      → from_str s ≡ some v
      → map_item_row J (row_of_item J order_id i (some s))
        ≡ ok (record (ordered order_id i) { config_snapshot = some v })
  unfolding map_item_row
  map_item_row_lem order_id i s v e = rw e refl

  collect_cons :
      {A B : Type 0} (f : A → Result OrderError B) (a : A) (as' : List A) (b : B) (bs : List B)
      → f a ≡ ok b
      → collect J f as' ≡ ok bs
      → collect J f (a ∷ as') ≡ ok (b ∷ bs)
  unfolding collect
  collect_cons f a as' b bs h hs = rw (h, hs, collect) refl

  map_item_row-stored :
      (order_id : String) (i : NewOrderItem Value) (s : Option Value)
      → snapshot_text J s ≡ ok (kept J (snapshot_text J s))
      → Restored s
      → map_item_row J (row_of_item J order_id i (kept J (snapshot_text J s)))
        ≡ ok (record (ordered order_id i) { config_snapshot = s })
  unfolding map_item_row snapshot_text
  map_item_row-stored order_id i none h r = refl
  map_item_row-stored order_id i (some v) h r = elim (Option-cases (to_string v)) [
    | inl e ↦ absurd (ground (arith, e))
    | inr (s, e) ↦
        ap (λ z. map_item_row J (row_of_item J order_id i z)) (kept_lem v s e)
        ∙ map_item_row_lem order_id i s v (sym (ap back e) ∙ r)
  ]

  collect-stored :
      (order_id : String) (items : List (NewOrderItem Value))
      → All IsKept items
      → All (λ i. Restored i.config_snapshot) items
      → collect J (map_item_row J) (map (stored J order_id) items)
        ≡ ok (map (ordered order_id) items)
  unfolding collect
  collect-stored order_id [] h r = refl
  collect-stored order_id (i ∷ is) h r =
      collect_cons (map_item_row J) (stored J order_id i) (map (stored J order_id) is)
        (ordered order_id i) (map (ordered order_id) is)
        (map_item_row-stored order_id i i.config_snapshot h.0 r.0)
        (collect-stored order_id is h.1 r.1)

  get_order_lem :
      (id : String) (c : Conn (Tables J)) (r : OrderRow) (o : Order Value)
      → fails c.faults ≡ false
      → find? (is_order id) c.tables.orders ≡ some r
      → map_order_row J r ≡ ok o
      → get_order J id c ≡ (ok (some o), record c { faults = later c.faults })
  unfolding get_order
  get_order_lem id c r o quiet found mapped =
      query_runs db _ c (some o) quiet (rw (found, mapped) refl)

  get_order_with_items_lem :
      (id : String) (c : Conn (Tables J)) (r : OrderRow) (o : Order Value)
      (is : List (OrderItem Value))
      → fails c.faults ≡ false
      → fails (later c.faults) ≡ false
      → find? (is_order id) c.tables.orders ≡ some r
      → map_order_row J r ≡ ok o
      → fetch_items J id c.tables ≡ ok is
      → (get_order_with_items J id c).0 ≡ ok (some (record o { items = is }))
  unfolding get_order_with_items
  get_order_with_items_lem id c r o is quiet quiet' found mapped fetched =
      rw
        (
          get_order_lem id c r o quiet found mapped,
          get_order_lem id c r o quiet found mapped,
          query_runs db (fetch_items J id) (record c { faults = later c.faults }) is quiet' fetched,
          get_order_with_items,
        )
        refl

  place_ran :
      (order_id : String) (now : ℤ) (buyer_id currency : String) (items : List (NewOrderItem Value))
      (k : Option NewOrderContact) (t t' : Tables J) (a : String)
      → place J order_id now buyer_id currency items k t ≡ ok (a, t')
      → (any (is_order order_id) t.orders ≡ false) × All IsKept items
  unfolding place
  place_ran order_id now buyer_id currency items k t t' a h =
      let (_, t₁, e₁, h₁) = bind-eq-ok (insert_order order_id buyer_id currency now) _ t a t' h in
      let (_, t₂, e₂, h₂) = bind-eq-ok (insert_items J order_id items) _ t₁ a t' h₁ in
      (
        (insert_order-eq-ok order_id buyer_id currency now t t₁ e₁).0,
        insert_items-IsKept order_id items t₁ t₂ e₂,
      )

  checkout_ran :
      (order_id : String) (now : ℤ) (buyer_id currency : String) (items : List (NewOrderItem Value))
      (k : Option NewOrderContact) (c : Conn (Tables J)) (a : String)
      → (checkout J order_id now buyer_id currency items k c).0 ≡ ok a
      → (any (is_order order_id) c.tables.orders ≡ false) × All IsKept items
  unfolding checkout
  checkout_ran order_id now buyer_id currency [] k c a h = absurd (cc)
  checkout_ran order_id now buyer_id currency (item ∷ items) k c a h =
      elim (Option-cases (find? (foreign J currency) (item ∷ items))) [
        | inr (i, e) ↦ absurd (cc)
        | inl e ↦
            let (s, ran, left) =
              transaction-eq-ok db (place J order_id now buyer_id currency (item ∷ items) k) c a (
                sym
                  (ap (λ r. r.0) (checkout_taken J order_id now buyer_id currency item items k c e))
                ∙ h) in
            place_ran order_id now buyer_id currency (item ∷ items) k c.tables s a ran
      ]

  -- The rows of a new order, as they are read.
  placed_found :
      (order_id : String) (now : ℤ) (buyer_id currency : String) (items : List (NewOrderItem Value))
      (k : Option NewOrderContact) (o : Outbox Encoded) (t : Tables J)
      → any (is_order order_id) t.orders ≡ false
      → find? (is_order order_id) (placed J order_id now buyer_id currency items k o t).orders
        ≡ some (record (row_of_order order_id buyer_id currency now) { total_minor = due items })
  placed_found order_id now buyer_id currency items k o t new =
      find?-last (is_order order_id) t.orders _ new (==_self order_id)

  placed_fetched :
      (order_id : String) (now : ℤ) (buyer_id currency : String) (items : List (NewOrderItem Value))
      (k : Option NewOrderContact) (o : Outbox Encoded) (t : Tables J)
      → any (is_order order_id) t.orders ≡ false
      → IsConsistent J t
      → All IsKept items
      → All (λ i. Restored i.config_snapshot) items
      → fetch_items J order_id (placed J order_id now buyer_id currency items k o t)
        ≡ ok (map (ordered order_id) items)
  unfolding fetch_items
  placed_fetched order_id now buyer_id currency items k o t new good all_kept restored =
      ap (collect J (map_item_row J)) (new_rows J order_id items t new good)
      ∙ collect-stored order_id items all_kept restored

  row_read :
      (order_id : String) (now : ℤ) (buyer_id currency : String) (items : List (NewOrderItem Value))
      → map_order_row J
          (record (row_of_order order_id buyer_id currency now) { total_minor = due items })
        ≡ ok (record (new_order order_id now buyer_id currency items) { items = [] })
  unfolding map_order_row as_str parse
  row_read order_id now buyer_id currency items = refl

  -- What is read back after a checkout that succeeded from consistent tables, where the engine does
  -- not fail in the two reads and each snapshot, if there is one, is a value that `serde_json` reads
  -- back from its text: the order with its status `created`, the sum of the prices as its
  -- total, and every item as it was asked for, in the same order, its snapshot included.
  pub checkout-get_order_with_items :
      (order_id : String) (now : ℤ) (buyer_id currency : String) (items : List (NewOrderItem Value))
      (k : Option NewOrderContact) (c : Conn (Tables J)) (a : String)
      → IsConsistent J c.tables
      → All (λ i. Restored i.config_snapshot) items
      → (checkout J order_id now buyer_id currency items k c).0 ≡ ok a
      → fails (checkout J order_id now buyer_id currency items k c).1.faults ≡ false
      → fails (later (checkout J order_id now buyer_id currency items k c).1.faults) ≡ false
      → (get_order_with_items J order_id (checkout J order_id now buyer_id currency items k c).1).0
        ≡ ok (some (new_order order_id now buyer_id currency items))
  checkout-get_order_with_items order_id now buyer_id currency items k c a good restored h quiet
        quiet' =
      let (new, all_kept) = checkout_ran order_id now buyer_id currency items k c a h in
      let (_, _, _, n, o, _, left) =
        checkout_lem J order_id now buyer_id currency items k c a good h in
      get_order_with_items_lem order_id (checkout J order_id now buyer_id currency items k c).1 _ _
        _ quiet quiet'
        (ap (λ (t : Tables J). find? (is_order order_id) t.orders) left
          ∙ placed_found order_id now buyer_id currency items k o c.tables new)
        (row_read order_id now buyer_id currency items)
        (ap (fetch_items J order_id) left
          ∙ placed_fetched order_id now buyer_id currency items k o c.tables new good all_kept
              restored)
