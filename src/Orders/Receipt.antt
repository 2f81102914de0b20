-- ===== src/Orders/Receipt.antt =====
-- What a successful `OrderRepo::checkout` of crates/orders/src/repository.rs leaves in the tables.
use tiny_shop.Prelude.{
  ℕ, String, ◌≡◌, refl, ◌∙◌, sym, ap, Bool, not, Option, some, none, List, [], ◌∷◌, arith, ◌==◌,
  ==_iff, string_eq, find?, All, length, ◌≤◌, Option-cases, Bool-cases, inl, inr,
}
use tiny_shop.Prelude.Int.{ℤ}
use tiny_shop.Sql.{ok, err, Conn, transaction}
use tiny_shop.Sql.Laws.{transaction-eq-ok}
use tiny_shop.Shared.Json.{Json}
use tiny_shop.Events.Outbox.{Outbox, enqueue}
use tiny_shop.Orders.{NewOrderItem, NewOrderContact, db, currency_mismatch}
use tiny_shop.Orders.Repo.{Tables, order_created, place, checkout}
use tiny_shop.Orders.Keeps.{IsConsistent}
use tiny_shop.Orders.Placed.{placed, place-eq-ok}

module _ (J : Json) where
  open J use {Value, Encoded}

  abbrev pub foreign : String → NewOrderItem Value → Bool
  foreign currency i = not (i.currency == currency)

  currencies :
      (currency : String) (items : List (NewOrderItem Value))
      → find? (foreign currency) items ≡ none
      → All (λ i. i.currency ≡ currency) items
  unfolding find?
  currencies currency [] h = tt
  currencies currency (i ∷ is) h = elim (Bool-cases (i.currency == currency)) [
    | inl e ↦ ((==_iff i.currency currency).0 e, currencies currency is (ground (arith, e)))
    | inr e ↦ absurd (ground (arith, e))
  ]

  pub checkout_taken :
      (order_id : String) (now : ℤ) (buyer_id currency : String) (item : NewOrderItem Value)
      (items : List (NewOrderItem Value)) (k : Option NewOrderContact) (c : Conn (Tables J))
      → find? (foreign currency) (item ∷ items) ≡ none
      → checkout J order_id now buyer_id currency (item ∷ items) k c
        ≡ transaction db (place J order_id now buyer_id currency (item ∷ items) k) c
  unfolding checkout
  checkout_taken order_id now buyer_id currency item items k c e = rw (e, checkout) refl

  pub checkout_refused :
      (order_id : String) (now : ℤ) (buyer_id currency : String) (item i : NewOrderItem Value)
      (items : List (NewOrderItem Value)) (k : Option NewOrderContact) (c : Conn (Tables J))
      → find? (foreign currency) (item ∷ items) ≡ some i
      → checkout J order_id now buyer_id currency (item ∷ items) k c
        ≡ (err (currency_mismatch currency i.currency), c)
  unfolding checkout
  checkout_refused order_id now buyer_id currency item i items k c e = rw (e, checkout) refl

  -- A checkout that succeeds from consistent tables returns the new order's id, its items are at
  -- least one and all in its currency, and it changes the tables in exactly this way: one order,
  -- whose total is the sum of the items' prices, one row for each item in their order, the contact
  -- if there is one, and the OrderCreated event in the outbox.
  pub checkout_lem :
      (order_id : String) (now : ℤ) (buyer_id currency : String) (items : List (NewOrderItem Value))
      (k : Option NewOrderContact) (c : Conn (Tables J)) (a : String)
      → IsConsistent J c.tables
      → (checkout J order_id now buyer_id currency items k c).0 ≡ ok a
      → (a ≡ order_id)
        × (1 ≤ length items)
        × All (λ i. i.currency ≡ currency) items
        × (n : ℕ) × (o : Outbox Encoded) × (enqueue J now
              (order_created J order_id buyer_id currency)
              c.tables.outbox
            ≡ ok (n, o))
        × ((checkout J order_id now buyer_id currency items k c).1.tables
            ≡ placed J order_id now buyer_id currency items k o c.tables)
  unfolding checkout
  checkout_lem order_id now buyer_id currency [] k c a good h = absurd (cc)
  checkout_lem order_id now buyer_id currency (item ∷ items) k c a good h =
      elim (Option-cases (find? (foreign currency) (item ∷ items))) [
        | inr (i, e) ↦ absurd (cc)
        | inl e ↦
            let whole = checkout_taken order_id now buyer_id currency item items k c e in
            let (s, ran, left) =
              transaction-eq-ok db (place J order_id now buyer_id currency (item ∷ items) k) c a
                (sym (ap (λ r. r.0) whole) ∙ h) in
            let (named, n, o, event, final) =
              place-eq-ok J order_id now buyer_id currency (item ∷ items) k c.tables s a ran good in
            (
              named,
              ground arith,
              currencies currency (item ∷ items) e,
              n,
              o,
              event,
              ap (λ r. r.1.tables) whole ∙ left ∙ final,
            )
      ]
