-- ===== src/Orders/Keeps.antt =====
-- Every operation of crates/orders/src/repository.rs keeps the order tables consistent, whatever
-- the engine does.
use tiny_shop.Prelude.{
  ℕ, String, ◌≡◌, not, Option, some, none, List, [], ◌∷◌, arith, ◌==◌, string_eq, find?, any,
  Option-cases, Bool-cases, inl, inr,
}
use tiny_shop.Prelude.Int.{ℤ}
use tiny_shop.Sql.{Result, ok, err, Conn, lift}
use tiny_shop.Sql.Laws.{
  Preserves, Preserves-bind, transaction-Preserves, Turns, Turns-bind, Turns-from, Preserves-pure,
  Preserves-lift, attempt_keeps,
}
use tiny_shop.Shared.{NewEvent}
use tiny_shop.Shared.Json.{Json}
use tiny_shop.Events.Outbox.{Outbox, DbError, enqueue}
use tiny_shop.Orders.{
  from_db, ItemRow, NewOrder, NewOrderItem, OrderContact, NewOrderContact, OrderError, db, is_order,
  insert_order, insert_item, recalculate, insert_contact,
}
use tiny_shop.Orders.Repo.{
  Tables, enqueue_event, order_created, create_order, snapshot_text, row_of_item, add_item,
  insert_items, insert_given_contact, place, checkout,
}
use tiny_shop.Orders.Shape.{
  Holds, nothing, only, Holds-weaken, items_sum, insert_order-Holds, insert_item-Holds,
  recalculate-Holds, insert_contact-Holds, Holds-outbox,
}

module _ {T : Type 0} where
  insert_order-Preserves :
      (id buyer_id currency : String) (now : ℤ)
      → Preserves (Holds {T = T} nothing) (insert_order id buyer_id currency now)
  unfolding insert_order
  insert_order-Preserves id buyer_id currency now = record {
    at = λ t a t' e h. elim (Bool-cases (any (is_order id) t.orders)) [
      | inl old ↦ ground (arith, old)
      | inr new ↦ ground (arith, new, insert_order-Holds id buyer_id currency now t new h)
    ];
  }

  insert_item-Preserves : (r : ItemRow T) → Preserves (Holds (only r.order_id)) (insert_item r)
  unfolding insert_item
  insert_item-Preserves r = record {
    at = λ t a t' e h. elim (Bool-cases (any (λ s. s.id == r.id) t.order_items)) [
      | inl old ↦ ground (arith, old)
      | inr new ↦ elim (Bool-cases (any (is_order r.order_id) t.orders)) [
        | inl own ↦ ground (arith, new, own, insert_item-Holds r t new own h)
        | inr own ↦ ground (arith, new, own)
      ]
    ];
  }

  -- After `recalculate` the skipped total holds as well.
  recalculate-Turns :
      (id : String) → Turns (Holds {T = T} (only id)) (Holds nothing) (recalculate id)
  unfolding recalculate
  recalculate-Turns id = record {
    at = λ t a t' e h. elim (Option-cases (items_sum t.order_items id)) [
      | inl bad ↦ ground (arith, bad)
      | inr (total, good) ↦ ground (arith, good, recalculate-Holds id total t good h)
    ];
  }

  insert_contact-Preserves :
      (k : OrderContact) → Preserves (Holds {T = T} nothing) (insert_contact k)
  unfolding insert_contact
  insert_contact-Preserves k = record {
    at = λ t a t' e h. elim (Bool-cases (any (is_order k.order_id) t.orders)) [
      | inl own ↦ ground (arith, own, insert_contact-Holds k t own h)
      | inr own ↦ ground (arith, own)
    ];
  }

module _ (J : Json) where
  open J use {Value}

  enqueue_event-Preserves :
      (now : ℤ) (ev : NewEvent Value) → Preserves (Holds nothing) (enqueue_event J now ev)
  unfolding enqueue_event
  enqueue_event-Preserves now ev = record {
    at = λ t a t' e h. stored t t' (enqueue J now ev t.outbox) e h;
  }
    where
      stored :
          (t t' : Tables J) (r : Result DbError (ℕ × Outbox J.Encoded))
          → {a : Unit {0}}
          → ◌≡◌ {A = Result OrderError (Unit {0} × Tables J)}
              (elim r [ ok (id, o) ↦ ok (tt, record t { outbox = o }) | err e ↦ err (from_db e) ])
              (ok (a, t'))
          → Holds nothing t
          → Holds nothing t'
      stored t t' (ok (id, o)) e h = ground (arith, Holds-outbox o t h)
      stored t t' (err e') e h = absurd (cc)

  given_contact-Preserves :
      (order_id : String) (now : ℤ) (k : Option NewOrderContact)
      → Preserves (Holds nothing) (insert_given_contact J order_id now k)
  unfolding insert_given_contact
  given_contact-Preserves order_id now none = record { at = λ t a t' e h. ground (arith, h) }
  given_contact-Preserves order_id now (some k) = record {
    at =
        (insert_contact-Preserves
          (record { order_id = order_id; email = k.email; name = k.name; created_at = now })).at;
  }

  insert_items-Preserves :
      (order_id : String) (items : List (NewOrderItem Value))
      → Preserves (Holds (only order_id)) (insert_items J order_id items)
  unfolding insert_items
  insert_items-Preserves order_id [] = Preserves-pure tt
  insert_items-Preserves order_id (item ∷ items) =
      Preserves-bind (lift (snapshot_text J item.config_snapshot)) _
        (Preserves-lift (snapshot_text J item.config_snapshot))
        λ snapshot.
          Preserves-bind (insert_item (row_of_item J order_id item snapshot)) _
            (insert_item-Preserves (row_of_item J order_id item snapshot))
            (λ _. insert_items-Preserves order_id items)

  place-Preserves :
      (order_id : String) (now : ℤ) (buyer_id currency : String) (items : List (NewOrderItem Value))
      (k : Option NewOrderContact)
      → Preserves (Holds nothing) (place J order_id now buyer_id currency items k)
  unfolding place
  place-Preserves order_id now buyer_id currency items k =
      Preserves-bind (insert_order order_id buyer_id currency now) _
        (insert_order-Preserves order_id buyer_id currency now)
        λ _. Turns-from _ (Holds-weaken (only order_id)) (
          Turns-bind (insert_items J order_id items) _ (insert_items-Preserves order_id items) λ _.
            Turns-bind (recalculate order_id) _ (recalculate-Turns order_id) λ _.
              Preserves-bind (insert_given_contact J order_id now k) _
                (given_contact-Preserves order_id now k)
                λ _.
                  Preserves-bind (enqueue_event J now (order_created J order_id buyer_id currency))
                    _ (enqueue_event-Preserves now (order_created J order_id buyer_id currency))
                    (λ _. Preserves-pure order_id))

  abbrev pub IsConsistent : Tables J → Type 0
  IsConsistent t = Holds nothing t

  create_order-IsConsistent :
      (now : ℤ) (o : NewOrder) (c : Conn (Tables J))
      → IsConsistent c.tables
      → IsConsistent (create_order J now o c).1.tables
  unfolding create_order
  create_order-IsConsistent now o c h =
      transaction-Preserves db _ c
        (Preserves-bind (insert_order o.id o.buyer_id o.currency now) _
          (insert_order-Preserves o.id o.buyer_id o.currency now)
          (λ _. enqueue_event-Preserves now (order_created J o.id o.buyer_id o.currency)))
        h

  add_item-IsConsistent :
      (now : ℤ) (item : NewOrderItem Value) (c : Conn (Tables J))
      → IsConsistent c.tables
      → IsConsistent (add_item J now item c).1.tables
  unfolding add_item
  add_item-IsConsistent now item c h =
      attempt_keeps IsConsistent (snapshot_text J item.config_snapshot) _ c
        (λ snapshot.
          transaction-Preserves db _ c
            (Turns-from _ (Holds-weaken (only item.order_id)) (
              Turns-bind (insert_item (row_of_item J item.order_id item snapshot)) _
                (insert_item-Preserves (row_of_item J item.order_id item snapshot))
                (λ _. recalculate-Turns item.order_id)))
            h)
        h

  checkout-IsConsistent :
      (order_id : String) (now : ℤ) (buyer_id currency : String) (items : List (NewOrderItem Value))
      (k : Option NewOrderContact) (c : Conn (Tables J))
      → IsConsistent c.tables
      → IsConsistent (checkout J order_id now buyer_id currency items k c).1.tables
  unfolding checkout
  checkout-IsConsistent order_id now buyer_id currency [] k c h = h
  checkout-IsConsistent order_id now buyer_id currency (item ∷ items) k c h =
      elim (Option-cases
        (find? (λ (i : NewOrderItem Value). not (i.currency == currency)) (item ∷ items))) [
          | inl e ↦
              rw (e, checkout)
                (transaction-Preserves db _ c
                  (place-Preserves order_id now buyer_id currency (item ∷ items) k) h)
          | inr (i, e) ↦ rw (e, checkout) h
        ]

  -- The calls that change the order tables.
  pub data Call : Type 0 where
    creates : ℤ → NewOrder → Call
    adds : ℤ → NewOrderItem Value → Call
    checks_out :
        String → ℤ → String → String → List (NewOrderItem Value) → Option NewOrderContact → Call

  unfoldable pub step : Call → Conn (Tables J) → Conn (Tables J)
  step (creates now o) c = (create_order J now o c).1
  step (adds now item) c = (add_item J now item c).1
  step (checks_out order_id now buyer_id currency items k) c =
      (checkout J order_id now buyer_id currency items k c).1

  unfoldable pub run : List Call → Conn (Tables J) → Conn (Tables J)
  unfolding step
  run [] c = c
  run (x ∷ xs) c = run xs (step x c)

  step-IsConsistent :
      (x : Call) (c : Conn (Tables J)) → IsConsistent c.tables → IsConsistent (step x c).tables
  unfolding step
  step-IsConsistent (creates now o) c h = create_order-IsConsistent now o c h
  step-IsConsistent (adds now item) c h = add_item-IsConsistent now item c h
  step-IsConsistent (checks_out order_id now buyer_id currency items k) c h =
      checkout-IsConsistent order_id now buyer_id currency items k c h

  -- Whatever orders are created, extended and checked out, with whatever arguments, and whichever of
  -- the calls the engine fails in: from consistent tables the tables stay consistent. The total of
  -- each order is the sum of its items' prices, items and contacts belong to orders that exist, each
  -- status can be parsed, and no id is used twice.
  pub run-IsConsistent :
      (xs : List Call) (c : Conn (Tables J))
      → IsConsistent c.tables
      → IsConsistent (run xs c).tables
  unfolding run
  run-IsConsistent [] c h = h
  run-IsConsistent (x ∷ xs) c h = run-IsConsistent xs (step x c) (step-IsConsistent x c h)
