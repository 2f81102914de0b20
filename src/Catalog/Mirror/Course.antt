-- ===== src/Catalog/Mirror/Course.antt =====
-- The courses of calls of `ProductRepo` whose events the catalog applies, and what the projection
-- shows after them.
use mathlib.Core.Option
use mathlib.Core.Option.{some-injective}
use tiny_shop.Prelude.{
  String, ◌≡◌, refl, sym, ap, ◌∙◌, subst, true, false, Option, none, some, List, string_eq, find?,
}
use tiny_shop.Prelude.Int.{ℤ}
use tiny_shop.Sql.{SqlError, ok, err, Conn}
use tiny_shop.Sql.Laws.{transaction-eq-err}
use tiny_shop.Shared.Json.{Json, Reading}
use tiny_shop.Product.{
  ProductRow, ProductStatus, draft, published, archived, ProductError, db, status_str, parse_status,
  same_status,
}
use tiny_shop.Product.Repo.{
  Tables, is_product, status_transition_event, create_product, update_product, set_status,
  delete_product,
}
use tiny_shop.Product.Calls.{Call, new_product, update, status, delete, extra, perform, emitted}
use tiny_shop.Product.Changes.{Announced, set_status_lem}
use tiny_shop.Product.Calls.Effects.{perform_lem}
use tiny_shop.Product.Extras.Emits.{edit_lem}
use tiny_shop.Catalog.{CatalogTables, ProjectionRow}
use tiny_shop.Catalog.Mirror.{Mirrors, Shown, shown_product, shown_row}
use tiny_shop.Catalog.Projection.{row_id}
use tiny_shop.Catalog.Mirror.Follow.{Consumed, Visible, call_followed}

parse-status_str : (k : ProductStatus) → parse_status (status_str k) ≡ some k
unfolding parse_status status_str
parse-status_str draft = refl
parse-status_str published = refl
parse-status_str archived = refl

same_status_self : (k : ProductStatus) → same_status k k ≡ true
same_status_self draft = refl
same_status_self published = refl
same_status_self archived = refl

-- The changes of status that have no event.
pub data Silent : ProductStatus → ProductStatus → Type 0 where
  republished : Silent archived published
  shelved : Silent draft archived
  reopened : Silent archived draft

Silent-no_event :
    (from to : ProductStatus)
    → Silent from to
    → (same_status from to ≡ false) × (status_transition_event from to ≡ none)
unfolding status_transition_event
Silent-no_event _ _ republished = (refl, refl)
Silent-no_event _ _ shelved = (refl, refl)
Silent-no_event _ _ reopened = (refl, refl)

status_shown :
    (o : Option ProjectionRow)
    → Option.map (λ (r : ProjectionRow). r.status) o
      ≡ Option.map (λ (s : Shown). s.status) (Option.map shown_row o)
status_shown none = refl
status_shown (some r) = refl

module _ (J : Json) (F : Type 0) (R : Reading J F) (group_concat : List String → String)
    (describe : SqlError → String) where
  open J use {Value}

  -- The courses of calls of the product context, with or without success, where the event of each
  -- successful call, if it has one, reaches the catalog before the next call.
  pub data Course (c₀ : Conn (Tables J F)) (d₀ : Conn (CatalogTables F))
      : Conn (Tables J F) → Conn (CatalogTables F) → Type 0 where
    start : Course c₀ d₀ c₀ d₀
    called :
        {c : Conn (Tables J F)} {d d' : Conn (CatalogTables F)} (now : ℤ) (k : Call F)
        → Course c₀ d₀ c d
        → (perform J F R now k c).0 ≡ ok tt
        → Visible J F R group_concat describe k c.tables.products d.tables.product_projection
        → Consumed J F R group_concat describe (emitted J F R now k c.tables.products) d d'
        → Course c₀ d₀ (perform J F R now k c).1 d'
    failed :
        {c : Conn (Tables J F)} {d : Conn (CatalogTables F)} (now : ℤ) (k : Call F)
        (e : ProductError)
        → Course c₀ d₀ c d
        → (perform J F R now k c).0 ≡ err e
        → Course c₀ d₀ (perform J F R now k c).1 d

  perform_failed :
      (now : ℤ) (k : Call F) (c : Conn (Tables J F)) (e : ProductError)
      → (perform J F R now k c).0 ≡ err e
      → (perform J F R now k c).1.tables ≡ c.tables
  unfolding perform create_product update_product set_status delete_product
  perform_failed now (new_product p) c e h = transaction-eq-err db _ c e h
  perform_failed now (update i t s r p u) c e h = transaction-eq-err db _ c e h
  perform_failed now (status id to) c e h = transaction-eq-err db _ c e h
  perform_failed now (delete id) c e h = transaction-eq-err db _ c e h
  perform_failed now (extra x) c e h = (edit_lem J F R now x c).1 e h

  -- The projection follows the products: where the catalog mirrored the products at the start, it
  -- mirrors them after every course of calls of `ProductRepo` whose events it has applied, as long
  -- as no product is created with a slug that the projection has, and each change of status is one
  -- that has an event.
  pub Course-Mirrors :
      (c₀ : Conn (Tables J F)) (d₀ : Conn (CatalogTables F)) (c : Conn (Tables J F))
      (d : Conn (CatalogTables F))
      → Course c₀ d₀ c d
      → Mirrors c₀.tables.products d₀.tables.product_projection
      → Mirrors c.tables.products d.tables.product_projection
  Course-Mirrors c₀ d₀ c d start m = m
  Course-Mirrors c₀ d₀ _ d (called {c} {d = d₁} now k course h seen v) m =
      subst (λ rows. Mirrors rows d.tables.product_projection) (sym (perform_lem J F R now k c h).0)
        (call_followed J F R group_concat describe now c.tables.products d₁ d
          (Course-Mirrors c₀ d₀ c d₁ course m) k c refl h seen v)
  Course-Mirrors c₀ d₀ _ d (failed {c} now k e course h) m =
      subst (λ (t : Tables J F). Mirrors t.products d.tables.product_projection)
        (sym (perform_failed now k c e h)) (Course-Mirrors c₀ d₀ c d course m)

module _ (J : Json) (F : Type 0) where
  -- A product that moves from Archived to Published, from Draft to Archived or from Archived to
  -- Draft gets the new status, but the outbox stays as it was, so that nothing can reach the
  -- catalog: where the catalog mirrored the products, it still shows the old status of this one and
  -- does not mirror the products any more.
  pub unseen_change :
      (now : ℤ) (id : String) (from to : ProductStatus) (r : ProductRow) (c : Conn (Tables J F))
      (d : Conn (CatalogTables F))
      → Silent from to
      → find? (is_product id) c.tables.products ≡ some r
      → parse_status r.status ≡ some from
      → (set_status J F now id to c).0 ≡ ok tt
      → Mirrors c.tables.products d.tables.product_projection
      → ((set_status J F now id to c).1.tables.outbox ≡ c.tables.outbox)
        × (Option.map
              (λ (r : ProductRow). r.status)
              (find? (is_product id) (set_status J F now id to c).1.tables.products)
            ≡ some (status_str to))
        × (Option.map
              (λ (r : ProjectionRow). r.status)
              (find? (row_id id) d.tables.product_projection)
            ≡ some r.status)
        × (¬ Mirrors (set_status J F now id to c).1.tables.products d.tables.product_projection)
  unseen_change now id from to r c d unseen found parsed h before =
      let (other, silent) = Silent-no_event from to unseen in
      let (changed, rest, event) = set_status_lem J F now id from to r c found parsed other h in
      let mirrored : Option.map shown_row (find? (row_id id) d.tables.product_projection)
          ≡ some (shown_product r) =
        sym (before id) ∙ ap (Option.map shown_product) found in
      (
        subst
            (λ e.
              Announced J F now id from to e c.tables.outbox
                (set_status J F now id to c).1.tables.outbox)
            silent event,
        ap (Option.map (λ (r : ProductRow). r.status)) changed,
        status_shown (find? (row_id id) d.tables.product_projection)
            ∙ ap (Option.map (λ (s : Shown). s.status)) mirrored,
        (λ after.
            let same = sym (ap (Option.map shown_product) changed) ∙ after id ∙ mirrored in
            let text : status_str to ≡ r.status =
              ap (λ (s : Shown). s.status) (some-injective _ _ same) in
            let back : some from ≡ some to =
              sym parsed ∙ sym (ap parse_status text) ∙ parse-status_str to in
            cc (other, same_status_self to, ap (λ s. same_status s to) (some-injective _ _ back))),
      )
