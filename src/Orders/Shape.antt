-- ===== src/Orders/Shape.antt =====
-- The shape of the order tables that every operation of crates/orders/src/repository.rs keeps.
use mathlib.Core.List.{append-nil}
use tiny_shop.Prelude.{
  String, ◌≡◌, refl, ◌∙◌, Bool, true, false, Option, some, List, [], ◌∷◌, ◌++◌, arith, ◌==◌, ==_iff,
  string_eq, filter, any, update_where, All, All-append, All-map, All-update_to, All_of_any-false,
  Apart, Apart-append_one, Apart-update_where, any-append, any-update_where, filter-append,
  filter_of_all_false, Bool-cases, inl, inr,
}
use tiny_shop.Prelude.Int.{ℤ, pos}
use tiny_shop.Events.Outbox.{Outbox}
use tiny_shop.Orders.{
  OrderStatus, created, OrderRow, ItemRow, OrderContact, OrderTables, parse, as_str, is_order,
  of_order, sum_from, row_of_order,
}

abbrev pub OtherOrder : OrderRow → OrderRow → Type 0
OtherOrder o p = (o.id == p.id) ≡ false

abbrev pub nothing : String → Bool
nothing id = false

abbrev pub only : String → String → Bool
only order_id id = id == order_id

module _ {T : Type 0} where
  abbrev pub OtherItem : ItemRow T → ItemRow T → Type 0
  OtherItem r s = (r.id == s.id) ≡ false

  abbrev pub items_sum : List (ItemRow T) → String → Option ℤ
  items_sum rows order_id = sum_from (pos 0) (filter (of_order order_id) rows)

  -- The totals of all orders but those that `skip` picks are the sums of their items' prices.
  pub record Holds (skip : String → Bool) (t : OrderTables T) : Type 0 where
    pub totals :
        All (λ o. skip o.id ≡ false → items_sum t.order_items o.id ≡ some o.total_minor) t.orders
    pub owned : All (λ r. any (is_order r.order_id) t.orders ≡ true) t.order_items
    pub readable : All (λ o. (s : OrderStatus) × (parse o.status ≡ some s)) t.orders
    pub order_ids : Apart OtherOrder t.orders
    pub item_ids : Apart OtherItem t.order_items
    pub addressed : All (λ (k : OrderContact). any (is_order k.order_id) t.orders ≡ true) t.contacts

  pub Holds-weaken : (skip : String → Bool) (t : OrderTables T) → Holds nothing t → Holds skip t
  Holds-weaken skip t h = record {
    totals = All-map (λ o q _. q refl) t.orders h.totals;
    owned = h.owned;
    readable = h.readable;
    order_ids = h.order_ids;
    item_ids = h.item_ids;
    addressed = h.addressed;
  }

  -- No item belongs to an order that does not exist.
  pub no_items :
      (skip : String → Bool) (id : String) (t : OrderTables T)
      → any (is_order id) t.orders ≡ false
      → Holds skip t
      → filter (of_order id) t.order_items ≡ []
  no_items skip id t new h =
      filter_of_all_false (of_order id) t.order_items (All-map other t.order_items h.owned)
    where
      other : (r : ItemRow T) → any (is_order r.order_id) t.orders ≡ true → of_order id r ≡ false
      other r own = elim (Bool-cases (of_order id r)) [
        | inl e ↦ absurd (cc (own, new, (==_iff r.order_id id).0 e))
        | inr e ↦ e
      ]

  pub insert_order-Holds :
      (id buyer_id currency : String) (now : ℤ) (t : OrderTables T)
      → any (is_order id) t.orders ≡ false
      → Holds nothing t
      → Holds nothing (record t { orders = t.orders ++ row_of_order id buyer_id currency now ∷ [] })
  unfolding as_str parse sum_from
  insert_order-Holds id buyer_id currency now t new h = record {
    totals = All-append _ t.orders _ h.totals ((λ _. rw (no_items nothing id t new h) refl), tt);
    owned =
        All-map (λ r own. rw (any-append (is_order r.order_id) t.orders (row ∷ []), own) refl)
          t.order_items h.owned;
    readable = All-append _ t.orders _ h.readable ((created, refl), tt);
    order_ids =
        Apart-append_one OtherOrder t.orders row (All_of_any-false _ t.orders new) h.order_ids;
    item_ids = h.item_ids;
    addressed =
        All-map (λ k own. rw (any-append (is_order k.order_id) t.orders (row ∷ []), own) refl)
          t.contacts h.addressed;
  }
    where
      row : OrderRow
      row = row_of_order id buyer_id currency now

  pub insert_item-Holds :
      (r : ItemRow T) (t : OrderTables T)
      → any (λ s. s.id == r.id) t.order_items ≡ false
      → any (is_order r.order_id) t.orders ≡ true
      → Holds (only r.order_id) t
      → Holds (only r.order_id) (record t { order_items = t.order_items ++ r ∷ [] })
  unfolding filter
  insert_item-Holds r t new own h = record {
    totals = All-map same t.orders h.totals;
    owned = All-append _ t.order_items _ h.owned (own, tt);
    readable = h.readable;
    order_ids = h.order_ids;
    item_ids =
        Apart-append_one OtherItem t.order_items r (All_of_any-false _ t.order_items new)
          h.item_ids;
    addressed = h.addressed;
  }
    where
      apart : (id : String) → only r.order_id id ≡ false → (r.order_id == id) ≡ false
      apart id e = ground (arith, ==_iff r.order_id id, ==_iff id r.order_id)

      same :
          (o : OrderRow)
          → (only r.order_id o.id ≡ false → items_sum t.order_items o.id ≡ some o.total_minor)
          → only r.order_id o.id ≡ false
          → items_sum (t.order_items ++ r ∷ []) o.id ≡ some o.total_minor
      same o q e =
          rw
            (
              filter-append (of_order o.id) t.order_items (r ∷ []),
              apart o.id e,
              append-nil (filter (of_order o.id) t.order_items),
            )
            (q e)

  pub recalculate-Holds :
      (id : String) (total : ℤ) (t : OrderTables T)
      → items_sum t.order_items id ≡ some total
      → Holds (only id) t
      → Holds nothing (record t {
        orders = update_where (is_order id) (λ o. record o { total_minor = total }) t.orders;
      })
  recalculate-Holds id total t e h = record {
    totals =
        All-update_to _ _ (is_order id) _ t.orders (λ o hit q _. rw ((==_iff o.id id).0 hit) e)
          (λ o miss q _. q miss) h.totals;
    owned =
        All-map (λ r own. any-update_where (is_order r.order_id) _ _ t.orders (λ o. refl) ∙ own)
          t.order_items h.owned;
    readable = All-update_to _ _ (is_order id) _ t.orders (λ o _ q. q) (λ o _ q. q) h.readable;
    order_ids = Apart-update_where OtherOrder _ _ t.orders (λ o p q. q) (λ o p q. q) h.order_ids;
    item_ids = h.item_ids;
    addressed =
        All-map (λ k own. any-update_where (is_order k.order_id) _ _ t.orders (λ o. refl) ∙ own)
          t.contacts h.addressed;
  }

  pub insert_contact-Holds :
      (k : OrderContact) (t : OrderTables T)
      → any (is_order k.order_id) t.orders ≡ true
      → Holds nothing t
      → Holds nothing (record t { contacts = t.contacts ++ k ∷ [] })
  insert_contact-Holds k t own h = record {
    totals = h.totals;
    owned = h.owned;
    readable = h.readable;
    order_ids = h.order_ids;
    item_ids = h.item_ids;
    addressed = All-append _ t.contacts _ h.addressed (own, tt);
  }

  pub Holds-outbox :
      (o : Outbox T) (t : OrderTables T) → Holds nothing t → Holds nothing (record t { outbox = o })
  Holds-outbox o t h = record {
    totals = h.totals;
    owned = h.owned;
    readable = h.readable;
    order_ids = h.order_ids;
    item_ids = h.item_ids;
    addressed = h.addressed;
  }
