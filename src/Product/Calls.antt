-- ===== src/Product/Calls.antt =====
-- The writing operations of `ProductRepo` as one type of calls, with what each does to the products
-- and which event it puts into the outbox.
pub mod Effects
use mathlib.Core.Option
use tiny_shop.Prelude.{
  ℕ, String, ◌≡◌, refl, sym, ap, ◌∙◌, subst, Bool, true, false, not, ◌&&◌, Option, none, some, List,
  [], ◌∷◌, ◌++◌, arith, ◌==◌, string_eq, find?, any, filter, length, ltb, update_where,
  delete_where, Bool-cases, Option-cases, inl, inr,
}
use tiny_shop.Prelude.Int.{ℤ}
use tiny_shop.Sql.{Result, ok, err, Tx, Db, Conn, transaction, ◌>>◌}
use tiny_shop.Sql.Laws.{transaction-eq-ok, bind-eq-ok, tables_of}
use tiny_shop.Shared.{NewEvent}
use tiny_shop.Shared.Json.{Json, Reading}
use tiny_shop.Events.Outbox.{Outbox, enqueue}
use tiny_shop.Product.{
  Product, ProductRow, ProductStatus, ProductError, db, status_str, parse_status, same_status,
}
use tiny_shop.Product.Repo.{
  Tables, status_transition_event, is_product, has_slug, enqueue_event, product_event,
  product_snapshot, insert_product, create_product, edit_product, update_product, status_changed,
  announce, with_status, change_status, set_status, erase, delete_product,
}
use tiny_shop.Product.Changes.{
  Announced, enqueue_event-eq-ok, announce-eq-ok, change_taken, erase_known, erase_unknown,
}
use tiny_shop.Product.Extras.Emits.{Edit, edit, announced, edit_lem}

pub data Call (F : Type 0) : Type 0 where
  new_product : Product → Call F
  update : String → String → String → String → ℤ → String → Call F
  status : String → ProductStatus → Call F
  delete : String → Call F
  extra : Edit F → Call F

abbrev pub row_of_product : Product → ProductRow
row_of_product p = record {
  id = p.id;
  seller_id = p.seller_id;
  title = p.title;
  slug = p.slug;
  description = p.description;
  price_minor = p.price_minor;
  currency = p.currency;
  status = status_str p.status;
  created_at = p.created_at;
  updated_at = p.updated_at;
}

abbrev pub with_core : ℤ → String → String → String → ℤ → String → ProductRow → ProductRow
with_core now title slug description price_minor currency r = record r {
  title = title;
  slug = slug;
  description = description;
  price_minor = price_minor;
  currency = currency;
  updated_at = now;
}

abbrev pub at_status : ℤ → ProductStatus → ProductRow → ProductRow
at_status now to r = record r { status = status_str to; updated_at = now }

-- The status that a product has, where it is there and its column is readable.
abbrev status_of : Option ProductRow → Option ProductStatus
status_of none = none
status_of (some r) = parse_status r.status

unfoldable pub current : String → List ProductRow → Option ProductStatus
current id rows = status_of (find? (is_product id) rows)

-- A change to another status.
abbrev pub moved : Option ProductStatus → ProductStatus → Option ProductStatus
moved none to = none
moved (some from) to = elim (same_status from to) [ true ↦ none | false ↦ some from ]

module _ (J : Json) (F : Type 0) (R : Reading J F) where
  open J use {Value, Encoded, text, number, object}

  unfoldable pub perform : ℤ → Call F → Db ProductError (Tables J F) (Unit {0})
  perform now (new_product p) = create_product J F now p
  perform now (update id title slug description price_minor currency) =
      update_product J F now id title slug description price_minor currency
  perform now (status id to) = set_status J F now id to
  perform now (delete id) = delete_product J F now id
  perform now (extra e) = edit J F R now e

  -- The products that a successful call leaves.
  abbrev pub effect : ℤ → Call F → List ProductRow → List ProductRow
  effect now (new_product p) rows = rows ++ row_of_product p ∷ []
  effect now (update id title slug description price_minor currency) rows =
      update_where (is_product id) (with_core now title slug description price_minor currency) rows
  effect now (status id to) rows = elim (moved (current id rows) to) [
    | none ↦ rows
    | some from ↦ update_where (is_product id) (at_status now to) rows
  ]
  effect now (delete id) rows = delete_where (is_product id) rows
  effect now (extra e) rows = rows

  abbrev pub core_event : ℤ → String → String → String → String → ℤ → String → NewEvent Value
  core_event now id title slug description price_minor currency =
      product_event J F id "ProductUpdated" (
        object (
          ("id", text id)
          ∷ ("title", text title)
          ∷ ("slug", text slug)
          ∷ ("description", text description)
          ∷ ("price_minor", number price_minor)
          ∷ ("currency", text currency)
          ∷ ("updated_at", number now)
          ∷ []))

  abbrev pub of_move : ℤ → String → ProductStatus → Option ProductStatus → Option (NewEvent Value)
  of_move now id to none = none
  of_move now id to (some from) =
      Option.map (status_changed J F now id from to) (status_transition_event from to)

  abbrev pub of_delete : String → Bool → Option (NewEvent Value)
  of_delete id false = none
  of_delete id true = some (product_event J F id "ProductDeleted" (object (("id", text id) ∷ [])))

  -- The event of a call on given products, if it has one.
  abbrev pub emitted : ℤ → Call F → List ProductRow → Option (NewEvent Value)
  emitted now (new_product p) rows =
      some (product_event J F p.id "ProductCreated" (product_snapshot J F p))
  emitted now (update id title slug description price_minor currency) rows =
      some (core_event now id title slug description price_minor currency)
  emitted now (status id to) rows = of_move now id to (moved (current id rows) to)
  emitted now (delete id) rows = of_delete id (ltb 0 (length (filter (is_product id) rows)))
  emitted now (extra e) rows = some (announced J F R now e)

  -- The second outbox is the first with the event, if any, put behind.
  abbrev pub Stored : ℤ → Option (NewEvent Value) → Outbox Encoded → Outbox Encoded → Type 0
  Stored now none o o' = o' ≡ o
  Stored now (some ev) o o' = (n : ℕ) × (enqueue J now ev o ≡ ok (n, o'))

  -- What a call that succeeded has done to the products and the outbox.
  abbrev pub Done : ℤ → Call F → Tables J F → Tables J F → Type 0
  Done now k t t' =
      (t'.products ≡ effect now k t.products)
      × Stored now (emitted now k t.products) t.outbox t'.outbox

  pub then_event :
      (now : ℤ) (m : Tx ProductError (Tables J F) (Unit {0})) (ev : NewEvent Value)
      (rows : List ProductRow) (t t' : Tables J F)
      → ((s : Tables J F) → m t ≡ ok (tt, s) → (s.products ≡ rows) × (s.outbox ≡ t.outbox))
      → (m >> enqueue_event J F now ev) t ≡ ok (tt, t')
      → (t'.products ≡ rows) × Stored now (some ev) t.outbox t'.outbox
  then_event now m ev rows t t' step h =
      let (_, s, first, second) = bind-eq-ok m (λ _. enqueue_event J F now ev) t tt t' h in
      let (n, o, put, same) = enqueue_event-eq-ok J F now ev s t' second in
      let (products, kept) = step s first in
      (
        ap (λ (u : Tables J F). u.products) same ∙ products,
        (
          n,
          ap (enqueue J now ev) (sym kept)
              ∙ put
              ∙ ap (λ (u : Tables J F). ok (n, u.outbox)) (sym same),
        ),
      )

  pub insert_product_rows :
      (p : Product) (t s : Tables J F)
      → insert_product J F p t ≡ ok (tt, s)
      → (s.products ≡ t.products ++ row_of_product p ∷ []) × (s.outbox ≡ t.outbox)
  unfolding insert_product
  insert_product_rows p t s h = ground arith

  pub inserted_new :
      (p : Product) (t s : Tables J F)
      → insert_product J F p t ≡ ok (tt, s)
      → any (is_product p.id) t.products ≡ false
  unfolding insert_product
  inserted_new p t s h = ground arith

  pub core_edited :
      (now : ℤ) (id title slug description : String) (price_minor : ℤ) (currency : String)
      (t s : Tables J F)
      → edit_product J F now id title slug description price_minor currency t ≡ ok (tt, s)
      → (s.products
          ≡ update_where
              (is_product id)
              (with_core now title slug description price_minor currency)
              t.products)
        × (s.outbox ≡ t.outbox)
  unfolding edit_product
  core_edited now id title slug description price_minor currency t s h = ground arith
