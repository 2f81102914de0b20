-- ===== src/Orders/Placed.antt =====
-- What the transaction of `OrderRepo::checkout` of crates/orders/src/repository.rs leaves in the tables.
use mathlib.Core.List.{append-nil}
use tiny_shop.Prelude.{
  ℕ, String, ◌≡◌, refl, ◌∙◌, sym, ap, false, Option, some, none, List, [], ◌∷◌, ◌++◌, map, arith,
  ==_self, string_eq, filter, any, update_where, filter-append,
}
use tiny_shop.Prelude.Int.{ℤ, pos, ◌+ℤ◌, zero-+ℤ}
use tiny_shop.Sql.{Result, ok, err, pure}
use tiny_shop.Sql.Laws.{bind-eq-ok}
use tiny_shop.Shared.{NewEvent}
use tiny_shop.Shared.Json.{Json}
use tiny_shop.Events.Outbox.{Outbox, DbError, enqueue}
use tiny_shop.Orders.{
  OrderRow, NewOrderItem, OrderContact, NewOrderContact, OrderError, OrderTables, from_db, is_order,
  of_order, row_of_order, insert_order, recalculate, insert_contact,
}
use tiny_shop.Orders.Repo.{
  Tables, enqueue_event, order_created, insert_items, insert_given_contact, place,
}
use tiny_shop.Orders.Shape.{nothing, no_items, items_sum}
use tiny_shop.Orders.Keeps.{IsConsistent}
use tiny_shop.Orders.Checkout.{
  prices, sum_from-prices, insert_order-eq-ok, recalculate-eq-ok, insert_items-eq-ok, pure-eq-ok,
  update_last, with_items, stored,
}

-- The exact sum of the prices that the items ask.
abbrev pub due : {V : Type 0} → List (NewOrderItem V) → ℤ
due [] = pos 0
due (i ∷ is) = i.unit_price_minor +ℤ due is

-- The contact row of a checkout, where it has a contact.
abbrev pub given : String → ℤ → Option NewOrderContact → List OrderContact
given order_id now none = []
given order_id now (some k) =
    record { order_id = order_id; email = k.email; name = k.name; created_at = now } ∷ []

module _ {T : Type 0} where
  insert_contact-eq-ok :
      (k : OrderContact) (t t' : OrderTables T)
      → insert_contact k t ≡ ok (tt, t')
      → t' ≡ record t { contacts = t.contacts ++ k ∷ [] }
  unfolding insert_contact
  insert_contact-eq-ok k t t' h = ground arith

module _ (J : Json) where
  open J use {Value, Encoded}

  given_contact-eq-ok :
      (order_id : String) (now : ℤ) (k : Option NewOrderContact) (t t' : Tables J)
      → insert_given_contact J order_id now k t ≡ ok (tt, t')
      → t' ≡ record t { contacts = t.contacts ++ given order_id now k }
  unfolding insert_given_contact
  given_contact-eq-ok order_id now none t t' h =
      pure-eq-ok J tt tt t t' h
      ∙ ap (λ ks. record t { contacts = ks }) (sym (append-nil t.contacts))
  given_contact-eq-ok order_id now (some k) t t' h = insert_contact-eq-ok _ t t' h

  enqueue_event-eq-ok :
      (now : ℤ) (ev : NewEvent Value) (t t' : Tables J)
      → enqueue_event J now ev t ≡ ok (tt, t')
      → (id : ℕ) × (o : Outbox Encoded) × (enqueue J now ev t.outbox ≡ ok (id, o))
        × (t' ≡ record t { outbox = o })
  unfolding enqueue_event
  enqueue_event-eq-ok now ev t t' h = go (enqueue J now ev t.outbox) refl h
    where
      go :
          (r : Result DbError (ℕ × Outbox Encoded))
          → enqueue J now ev t.outbox ≡ r
          → ◌≡◌ {A = Result OrderError (Unit {0} × Tables J)}
              (elim r [ ok (id, o) ↦ ok (tt, record t { outbox = o }) | err e ↦ err (from_db e) ])
              (ok (tt, t'))
          → (id : ℕ) × (o : Outbox Encoded) × (enqueue J now ev t.outbox ≡ ok (id, o))
            × (t' ≡ record t { outbox = o })
      go (ok (id, o)) e q = (id, o, e, ground arith)
      go (err e') e q = absurd (cc)

  prices-due :
      (order_id : String) (items : List (NewOrderItem Value))
      → prices (map (stored J order_id) items) ≡ due items
  prices-due order_id [] = refl
  prices-due order_id (i ∷ is) = ap (λ z. i.unit_price_minor +ℤ z) (prices-due order_id is)

  stored_all :
      (order_id : String) (items : List (NewOrderItem Value))
      → filter (of_order order_id) (map (stored J order_id) items) ≡ map (stored J order_id) items
  unfolding filter
  stored_all order_id [] = refl
  stored_all order_id (i ∷ is) = rw (==_self order_id, stored_all order_id is) refl

  abbrev pub placed :
      String
      → ℤ
      → String
      → String
      → List (NewOrderItem Value)
      → Option NewOrderContact
      → Outbox Encoded
      → Tables J
      → Tables J
  placed order_id now buyer_id currency items k o t = record {
    orders =
        t.orders
        ++ record (row_of_order order_id buyer_id currency now) { total_minor = due items } ∷ [];
    order_items = t.order_items ++ map (stored J order_id) items;
    contacts = t.contacts ++ given order_id now k;
    outbox = o;
  }

  -- The rows of a new order are those that were stored for its items.
  pub new_rows :
      (order_id : String) (items : List (NewOrderItem Value)) (t : Tables J)
      → any (is_order order_id) t.orders ≡ false
      → IsConsistent J t
      → filter (of_order order_id) (t.order_items ++ map (stored J order_id) items)
        ≡ map (stored J order_id) items
  new_rows order_id items t new h =
      filter-append (of_order order_id) t.order_items (map (stored J order_id) items)
      ∙ ap (λ xs. xs ++ filter (of_order order_id) (map (stored J order_id) items))
          (no_items nothing order_id t new h)
      ∙ stored_all order_id items

  -- The total that `recalculate` finds after the items of a new order.
  total_due :
      (order_id : String) (items : List (NewOrderItem Value)) (t : Tables J) (total : ℤ)
      → any (is_order order_id) t.orders ≡ false
      → IsConsistent J t
      → items_sum (t.order_items ++ map (stored J order_id) items) order_id ≡ some total
      → total ≡ due items
  total_due order_id items t total new h e =
      sum_from-prices (pos 0) _ total e
      ∙ zero-+ℤ _
      ∙ ap prices (new_rows order_id items t new h)
      ∙ prices-due order_id items

  pure-eq-ok-both :
      (a b : String) (t t' : Tables J) → pure {E = OrderError} a t ≡ ok (b, t') → (b ≡ a) × (t' ≡ t)
  pure-eq-ok-both a b t t' h = (cc, cc)

  abbrev with_order : String → ℤ → String → String → Tables J → Tables J
  with_order order_id now buyer_id currency t = record t {
    orders = t.orders ++ row_of_order order_id buyer_id currency now ∷ [];
  }

  abbrev with_total : String → ℤ → Tables J → Tables J
  with_total order_id total t = record t {
    orders = update_where (is_order order_id) (λ o. record o { total_minor = total }) t.orders;
  }

  abbrev with_contact : String → ℤ → Option NewOrderContact → Tables J → Tables J
  with_contact order_id now k t = record t { contacts = t.contacts ++ given order_id now k }

  pub place-eq-ok :
      (order_id : String) (now : ℤ) (buyer_id currency : String) (items : List (NewOrderItem Value))
      (k : Option NewOrderContact) (t t' : Tables J) (a : String)
      → place J order_id now buyer_id currency items k t ≡ ok (a, t')
      → IsConsistent J t
      → (a ≡ order_id)
        × (n : ℕ) × (o : Outbox Encoded) × (enqueue J now
              (order_created J order_id buyer_id currency)
              t.outbox
            ≡ ok (n, o))
        × (t' ≡ placed order_id now buyer_id currency items k o t)
  unfolding place
  place-eq-ok order_id now buyer_id currency items k t t' a h good =
      let (_, t₁, e₁, h₁) = bind-eq-ok (insert_order order_id buyer_id currency now) _ t a t' h in
      let (_, t₂, e₂, h₂) = bind-eq-ok (insert_items J order_id items) _ t₁ a t' h₁ in
      let (_, t₃, e₃, h₃) = bind-eq-ok (recalculate order_id) _ t₂ a t' h₂ in
      let (_, t₄, e₄, h₄) = bind-eq-ok (insert_given_contact J order_id now k) _ t₃ a t' h₃ in
      let (_, t₅, e₅, h₅) =
        bind-eq-ok (enqueue_event J now (order_created J order_id buyer_id currency)) _ t₄ a t'
          h₄ in
      let (new, q₁) = insert_order-eq-ok order_id buyer_id currency now t t₁ e₁ in
      let q₂ = insert_items-eq-ok J order_id items t₁ t₂ e₂ in
      let (total, sum, q₃) = recalculate-eq-ok order_id t₂ t₃ e₃ in
      let q₄ = given_contact-eq-ok order_id now k t₃ t₄ e₄ in
      let (n, o, stored_event, q₅) =
        enqueue_event-eq-ok now (order_created J order_id buyer_id currency) t₄ t₅ e₅ in
      let early = q₂ ∙ ap (with_items (map (stored J order_id) items)) q₁ in
      let late =
        q₄ ∙ ap (with_contact order_id now k) (q₃ ∙ ap (with_total order_id total) early) in
      let exact =
        total_due order_id items t total new good
          (sym (ap (λ s. items_sum s.order_items order_id) early) ∙ sum) in
      let (named, left) = pure-eq-ok-both order_id a t₅ t' h₅ in
      (
        named,
        n,
        o,
        sym (
              ap
                (λ (s : Tables J).
                  enqueue J now (order_created J order_id buyer_id currency) s.outbox)
                late)
            ∙ stored_event,
        left
            ∙ q₅
            ∙ ap (λ (s : Tables J). record s { outbox = o }) late
            ∙ ap {A = List OrderRow}
                (λ os. record (placed order_id now buyer_id currency items k o t) { orders = os })
                (update_last order_id (λ r. record r { total_minor = total }) t.orders
                    (row_of_order order_id buyer_id currency now) new (==_self order_id)
                  ∙ ap
                      (λ z.
                        t.orders
                        ++ record (row_of_order order_id buyer_id currency now) { total_minor = z }
                          ∷ [])
                      exact),
      )
