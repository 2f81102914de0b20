-- ===== src/Orders/Checkout.antt =====
-- What each statement of `OrderRepo::checkout` of crates/orders/src/repository.rs changes.
use mathlib.Core.List.{append_assoc, append-nil}
use tiny_shop.Prelude.{
  String, ◌≡◌, ◌∙◌, sym, ap, true, false, Option, some, none, List, [], ◌∷◌, ◌++◌, map, arith,
  string_eq, any, update_where, Option-cases, inl, inr,
}
use tiny_shop.Prelude.Int.{ℤ, pos, ◌+ℤ◌, +ℤ_assoc, +ℤ-zero}
use tiny_shop.Sql.{Result, ok, err, pure, lift, ◌>>◌}
use tiny_shop.Sql.Laws.{bind-eq-ok}
use tiny_shop.Shared.Json.{Json}
use tiny_shop.Orders.{
  OrderRow, ItemRow, NewOrderItem, OrderError, OrderTables, is_order, sum_from, row_of_order,
  insert_order, insert_item, recalculate,
}
use tiny_shop.Orders.Repo.{Tables, snapshot_text, row_of_item, insert_items}
use tiny_shop.Orders.Shape.{items_sum}

-- The exact sum of the prices.
abbrev pub prices : {T : Type 0} → List (ItemRow T) → ℤ
prices [] = pos 0
prices (r ∷ rs) = r.unit_price_minor +ℤ prices rs

-- The new order is the last row, and the only one that the UPDATE fits.
pub update_last :
    (id : String) (f : OrderRow → OrderRow) (os : List OrderRow) (o : OrderRow)
    → any (is_order id) os ≡ false
    → is_order id o ≡ true
    → update_where (is_order id) f (os ++ o ∷ []) ≡ os ++ f o ∷ []
unfolding update_where any
update_last id f [] o new hit = ground arith
update_last id f (p ∷ os) o new hit = ground (arith, update_last id f os o)

module _ {T : Type 0} where
  abbrev pub with_items : List (ItemRow T) → OrderTables T → OrderTables T
  with_items rows t = record t { order_items = t.order_items ++ rows }

  -- Where the engine's sum does not overflow it is exact.
  pub sum_from-prices :
      (acc : ℤ) (rows : List (ItemRow T)) (total : ℤ)
      → sum_from acc rows ≡ some total
      → total ≡ acc +ℤ prices rows
  unfolding sum_from
  sum_from-prices acc [] total h = ground (arith, +ℤ-zero acc)
  sum_from-prices acc (r ∷ rs) total h =
      sum_from-prices (acc +ℤ r.unit_price_minor) rs total (ground arith)
      ∙ +ℤ_assoc acc r.unit_price_minor (prices rs)

  pub insert_order-eq-ok :
      (id buyer_id currency : String) (now : ℤ) (t t' : OrderTables T)
      → insert_order id buyer_id currency now t ≡ ok (tt, t')
      → (any (is_order id) t.orders ≡ false)
        × (t' ≡ record t { orders = t.orders ++ row_of_order id buyer_id currency now ∷ [] })
  unfolding insert_order
  insert_order-eq-ok id buyer_id currency now t t' h = ground arith

  insert_item-eq-ok :
      (r : ItemRow T) (t t' : OrderTables T)
      → insert_item r t ≡ ok (tt, t')
      → t' ≡ with_items (r ∷ []) t
  unfolding insert_item
  insert_item-eq-ok r t t' h = ground arith

  pub recalculate-eq-ok :
      (id : String) (t t' : OrderTables T)
      → recalculate id t ≡ ok (tt, t')
      → (total : ℤ) × (items_sum t.order_items id ≡ some total)
        × (t' ≡ record t {
          orders = update_where (is_order id) (λ o. record o { total_minor = total }) t.orders;
        })
  unfolding recalculate
  recalculate-eq-ok id t t' h = elim (Option-cases (items_sum t.order_items id)) [
    | inl bad ↦ absurd (ground (arith, bad))
    | inr (total, good) ↦ (total, good, ground (arith, good))
  ]

module _ (J : Json) where
  open J use {Value, Encoded}

  -- A snapshot as it is stored.
  abbrev pub kept : Result OrderError (Option Encoded) → Option Encoded
  kept (ok s) = s
  kept (err e) = none

  abbrev pub stored : String → NewOrderItem Value → ItemRow Encoded
  stored order_id item = row_of_item J order_id item (kept (snapshot_text J item.config_snapshot))

  pub lift-eq-ok :
      {A : Type 0} (r : Result OrderError A) (a : A) (t t' : Tables J)
      → lift r t ≡ ok (a, t')
      → (r ≡ ok a) × (t' ≡ t)
  lift-eq-ok (ok b) a t t' h = ground arith
  lift-eq-ok (err e) a t t' h = absurd (cc)

  pub pure-eq-ok :
      {A : Type 0} (a b : A) (t t' : Tables J) → pure {E = OrderError} a t ≡ ok (b, t') → t' ≡ t
  pure-eq-ok a b t t' h = cc

  pub insert_items-eq-ok :
      (order_id : String) (items : List (NewOrderItem Value)) (t t' : Tables J)
      → insert_items J order_id items t ≡ ok (tt, t')
      → t' ≡ with_items (map (stored order_id) items) t
  unfolding insert_items
  insert_items-eq-ok order_id [] t t' h =
      pure-eq-ok tt tt t t' h
      ∙ ap (λ xs. record t { order_items = xs }) (sym (append-nil t.order_items))
  insert_items-eq-ok order_id (item ∷ items) t t' h =
      let (snapshot, t₁, e₁, k₁) =
        bind-eq-ok (lift (snapshot_text J item.config_snapshot))
          (λ s. insert_item (row_of_item J order_id item s) >> insert_items J order_id items) t tt
          t' h in
      let (u, t₂, e₂, k₂) =
        bind-eq-ok (insert_item (row_of_item J order_id item snapshot))
          (λ _. insert_items J order_id items) t₁ tt t' k₁ in
      let (same, here) = lift-eq-ok (snapshot_text J item.config_snapshot) snapshot t t₁ e₁ in
      insert_items-eq-ok order_id items t₂ t' k₂
      ∙ ap (with_items (map (stored order_id) items)) (
          insert_item-eq-ok (row_of_item J order_id item snapshot) t₁ t₂ e₂
          ∙ ap (with_items (row_of_item J order_id item snapshot ∷ [])) here
          ∙ ap (λ s. with_items (row_of_item J order_id item s ∷ []) t) (sym (ap kept same)))
      ∙ ap (λ xs. record t { order_items = xs })
          (append_assoc t.order_items (stored order_id item ∷ []) (map (stored order_id) items))
