-- ===== src/Orders/Refused.antt =====
-- A checkout of crates/orders/src/repository.rs that fails.
use tiny_shop.Prelude.{
  String, ◌≡◌, refl, sym, ap, ◌∙◌, Option, List, [], ◌∷◌, find?, Option-cases, inl, inr,
}
use tiny_shop.Prelude.Int.{ℤ}
use tiny_shop.Sql.{err, Conn}
use tiny_shop.Sql.Laws.{transaction-eq-err}
use tiny_shop.Shared.Json.{Json}
use tiny_shop.Orders.{NewOrderItem, NewOrderContact, OrderError, db}
use tiny_shop.Orders.Repo.{Tables, checkout, place}
use tiny_shop.Orders.Receipt.{foreign, checkout_taken, checkout_refused}

module _ (J : Json) where
  open J use {Value}

  -- A checkout that fails, for whatever reason, leaves the tables as they were.
  pub checkout-unchanged :
      (order_id : String) (now : ℤ) (buyer_id currency : String) (items : List (NewOrderItem Value))
      (k : Option NewOrderContact) (c : Conn (Tables J)) (e : OrderError)
      → (checkout J order_id now buyer_id currency items k c).0 ≡ err e
      → (checkout J order_id now buyer_id currency items k c).1.tables ≡ c.tables
  unfolding checkout
  checkout-unchanged order_id now buyer_id currency [] k c e h = refl
  checkout-unchanged order_id now buyer_id currency (item ∷ items) k c e h =
      elim (Option-cases (find? (foreign J currency) (item ∷ items))) [
        | inr (i, q) ↦
            ap (λ r. r.1.tables)
              (checkout_refused J order_id now buyer_id currency item i items k c q)
        | inl q ↦
            let whole = checkout_taken J order_id now buyer_id currency item items k c q in
            ap (λ r. r.1.tables) whole
            ∙ transaction-eq-err db (place J order_id now buyer_id currency (item ∷ items) k) c e
                (sym (ap (λ r. r.0) whole) ∙ h)
      ]
