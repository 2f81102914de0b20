-- ===== src/Catalog/Mirror/Follow.antt =====
-- The projection follows the product context: calls of `ProductRepo`, and the catalog applying the
-- event of each.
use mathlib.Core.Option
use mathlib.Core.Option.{some-injective}
use tiny_shop.Prelude.{
  delete_of_none, String, ◌≡◌, refl, sym, ap, ◌∙◌, subst, Bool, true, false, Option, none, some,
  List, [], ◌∷◌, arith, string_eq, any, find?, filter, length, ltb, update_where, delete_where,
}
use tiny_shop.Prelude.Int.{ℤ}
use tiny_shop.Sql.{SqlError, ok, Conn, transaction}
use tiny_shop.Sql.Laws.{transaction-eq-ok, bind-eq-ok}
use tiny_shop.Shared.{NewEvent, DomainEvent}
use tiny_shop.Shared.Json.{Json, Reading}
use tiny_shop.Product.{
  Product, ProductRow, ProductStatus, draft, published, archived, db, status_str,
}
use tiny_shop.Product.Repo.{
  Tables, is_product, status_transition_event, create_product, insert_product, status_changed,
}
use tiny_shop.Product.Calls.{
  Call, new_product, update, status, delete, extra, current, moved, perform, effect, emitted,
  of_move, of_delete, inserted_new, row_of_product, with_core, at_status, core_event,
}
use tiny_shop.Product.Extras.Emits.{Edit, announced}
use tiny_shop.Catalog.{ProjectionRow, CatalogTables}
use tiny_shop.Catalog.Mirror.{Mirrors, Mirrors-new, Mirrors-change, Mirrors-gone, Mirrors-absent}
use tiny_shop.Catalog.Mirror.Applied.{created-rows, core-rows, status-rows, deleted-rows}
use tiny_shop.Catalog.Mirror.Payloads.{first_row}
use tiny_shop.Catalog.Mirror.Touched.{extra-Mirrors}
use tiny_shop.Catalog.Projection.{row_slug, apply_event, apply_status_changed, dispatch}
use tiny_shop.Catalog.Projection.Redelivery.{dispatch_error-ok}

none_of_empty :
    (p : ProductRow → Bool) (xs : List ProductRow)
    → ltb 0 (length (filter p xs)) ≡ false
    → find? p xs ≡ none
unfolding find? filter
none_of_empty p [] h = refl
none_of_empty p (x ∷ xs) h = ground (arith, none_of_empty p xs)

module _ (J : Json) (F : Type 0) (R : Reading J F) (group_concat : List String → String)
    (describe : SqlError → String) where
  open J use {Value}

  -- The event reaches the catalog, which applies it.
  pub record Delivered (ev : NewEvent Value) (d d' : Conn (CatalogTables F)) : Type 0 where
    pub source : String
    pub event : DomainEvent Value
    pub same_type : event.event_type ≡ ev.event_type
    pub same_payload : event.payload ≡ ev.payload
    pub accepted : (dispatch J F R group_concat describe source event d).0 ≡ ok tt
    pub left : d'.tables ≡ (dispatch J F R group_concat describe source event d).1.tables

  abbrev pub Consumed :
      Option (NewEvent Value) → Conn (CatalogTables F) → Conn (CatalogTables F) → Type 0
  Consumed none d d' = d'.tables ≡ d.tables
  Consumed (some ev) d d' = Delivered ev d d'

  Delivered-applied :
      (ev : NewEvent Value) (d d' : Conn (CatalogTables F))
      → Delivered ev d d'
      → apply_event J F R group_concat describe ev.event_type ev.payload d.tables
        ≡ ok (tt, d'.tables)
  unfolding dispatch
  Delivered-applied ev d d' v =
      let body = apply_event J F R group_concat describe v.event.event_type v.event.payload in
      let (t, ran, stands) =
        transaction-eq-ok (λ e. e) body d tt
          (dispatch_error-ok J F R group_concat describe (transaction (λ e. e) body d).0
            v.accepted) in
      ap (λ s. apply_event J F R group_concat describe s ev.payload d.tables) (sym v.same_type)
      ∙ ap (λ s. apply_event J F R group_concat describe v.event.event_type s d.tables)
          (sym v.same_payload)
      ∙ ran
      ∙ ap (λ s. ok (tt, s)) (sym (v.left ∙ stands))

  -- What the catalog needs to see a change: a slug that no other row has, and a change of status
  -- that has an event.
  abbrev pub Announces : Option ProductStatus → ProductStatus → Type 0
  Announces none to = Unit {0}
  Announces (some from) to = (e : String) × (status_transition_event from to ≡ some e)

  abbrev pub Visible : Call F → List ProductRow → List ProjectionRow → Type 0
  Visible (new_product p) products rows = any (row_slug p.slug) rows ≡ false
  Visible (status id to) products rows = Announces (moved (current id products) to) to
  Visible _ products rows = Unit {0}

  -- Every change of status that has an event is handled as one.
  event_branch :
      (from to : ProductStatus) (e : String) (p : Value)
      → status_transition_event from to ≡ some e
      → apply_event J F R group_concat describe e p
        ≡ apply_status_changed J F R group_concat describe p
  unfolding status_transition_event apply_event
  event_branch draft published e p h =
      subst
        (λ s.
          apply_event J F R group_concat describe s p
          ≡ apply_status_changed J F R group_concat describe p)
        (some-injective _ _ h) refl
  event_branch published archived e p h =
      subst
        (λ s.
          apply_event J F R group_concat describe s p
          ≡ apply_status_changed J F R group_concat describe p)
        (some-injective _ _ h) refl
  event_branch published draft e p h =
      subst
        (λ s.
          apply_event J F R group_concat describe s p
          ≡ apply_status_changed J F R group_concat describe p)
        (some-injective _ _ h) refl
  event_branch draft draft e p h = absurd (cc)
  event_branch draft archived e p h = absurd (cc)
  event_branch published published e p h = absurd (cc)
  event_branch archived draft e p h = absurd (cc)
  event_branch archived published e p h = absurd (cc)
  event_branch archived archived e p h = absurd (cc)

  announced_type : (now : ℤ) (e : Edit F) → (announced J F R now e).event_type ≡ "ProductUpdated"
  unfolding announced
  announced_type now (Edit.config c) = refl
  announced_type now (Edit.new_variant v) = refl
  announced_type now (Edit.variant v) = refl
  announced_type now (Edit.no_variant p v) = refl
  announced_type now (Edit.new_media m) = refl
  announced_type now (Edit.no_media p m) = refl
  announced_type now (Edit.value v) = refl
  announced_type now (Edit.no_value p a) = refl
  announced_type now (Edit.translation p e i l f v) = refl

  create_new :
      (now : ℤ) (p : Product) (c : Conn (Tables J F))
      → (perform J F R now (new_product p) c).0 ≡ ok tt
      → any (is_product p.id) c.tables.products ≡ false
  unfolding perform create_product
  create_new now p c h =
      let (t, ran, _) = transaction-eq-ok db _ c tt h in
      let (_, s, first, _) = bind-eq-ok (insert_product J F p) _ c.tables tt t ran in
      inserted_new J F R p c.tables s first

  module _ (now : ℤ) (xs : List ProductRow) (d d' : Conn (CatalogTables F))
      (m : Mirrors xs d.tables.product_projection) where
    abbrev pub After : List ProductRow → Type 0
    After rows = Mirrors rows d'.tables.product_projection

    create_followed :
        (p : Product)
        → any (is_product p.id) xs ≡ false
        → any (row_slug p.slug) d.tables.product_projection ≡ false
        → Consumed (emitted J F R now (new_product p) xs) d d'
        → After (effect J F R now (new_product p) xs)
    create_followed p new free v =
        let absent = Mirrors-absent xs d.tables.product_projection m p.id new in
        subst (Mirrors (effect J F R now (new_product p) xs))
          (sym (
            created-rows J F R group_concat describe p d.tables d'.tables (rw (absent, free) refl)
              (Delivered-applied _ d d' v)))
          (Mirrors-new xs d.tables.product_projection m (row_of_product p)
            (first_row J F R group_concat describe p) refl refl)

    update_followed :
        (id title slug description : String) (price_minor : ℤ) (currency : String)
        → Delivered (core_event J F R now id title slug description price_minor currency) d d'
        → After (effect J F R now (update id title slug description price_minor currency) xs)
    update_followed id title slug description price_minor currency v =
        subst
          (Mirrors (effect J F R now (update id title slug description price_minor currency) xs))
          (sym (
            core-rows J F R group_concat describe now id title slug description price_minor currency
              d.tables d'.tables (Delivered-applied _ d d' v)))
          (Mirrors-change xs d.tables.product_projection m id
            (with_core now title slug description price_minor currency) _
            (λ s. record s {
              title = title;
              slug = slug;
              description = description;
              price_minor = price_minor;
              currency = currency;
            })
            (λ r. refl) (λ r. refl) (λ r. refl) (λ r. refl))

    move_followed :
        (id : String) (from to : ProductStatus) (e : String)
        → status_transition_event from to ≡ some e
        → Delivered (status_changed J F now id from to e) d d'
        → After (update_where (is_product id) (at_status now to) xs)
    move_followed id from to e h v =
        subst (Mirrors (update_where (is_product id) (at_status now to) xs))
          (sym (
            status-rows J F R group_concat describe now id from to e d.tables d'.tables (
              sym (ap (λ k. k d.tables) (event_branch from to e _ h))
              ∙ Delivered-applied _ d d' v)))
          (Mirrors-change xs d.tables.product_projection m id (at_status now to) _
            (λ s. record s { status = status_str to }) (λ r. refl) (λ r. refl) (λ r. refl)
            (λ r. refl))

    status_followed :
        (id : String) (to : ProductStatus) (o : Option ProductStatus)
        → Announces o to
        → Consumed (of_move J F R now id to o) d d'
        → After
            (elim o [ none ↦ xs | some from ↦ update_where (is_product id) (at_status now to) xs ])
    status_followed id to none a v =
        subst (Mirrors xs) (sym (ap (λ (s : CatalogTables F). s.product_projection) v)) m
    status_followed id to (some from) (e, h) v =
        move_followed id from to e h
          (subst (λ o. Consumed (Option.map (status_changed J F now id from to) o) d d') h v)

    delete_followed :
        (id : String) (b : Bool)
        → ltb 0 (length (filter (is_product id) xs)) ≡ b
        → Consumed (of_delete J F R id b) d d'
        → After (delete_where (is_product id) xs)
    delete_followed id false e v =
        subst (λ rows. Mirrors rows d'.tables.product_projection)
          (sym (delete_of_none (is_product id) xs (none_of_empty (is_product id) xs e)))
          (subst (Mirrors xs) (sym (ap (λ (s : CatalogTables F). s.product_projection) v)) m)
    delete_followed id true e v =
        subst (Mirrors (delete_where (is_product id) xs))
          (sym (
            deleted-rows J F R group_concat describe id d.tables d'.tables
              (Delivered-applied _ d d' v)))
          (Mirrors-gone xs d.tables.product_projection m id)

    extra_followed : (e : Edit F) → Delivered (announced J F R now e) d d' → After xs
    extra_followed e v =
        extra-Mirrors J F R group_concat describe now e d.tables d'.tables
          (ap
              (λ s.
                apply_event J F R group_concat describe s (announced J F R now e).payload d.tables)
              (sym (announced_type now e))
            ∙ Delivered-applied _ d d' v)
          xs m

    pub call_followed :
        (k : Call F) (c : Conn (Tables J F))
        → c.tables.products ≡ xs
        → (perform J F R now k c).0 ≡ ok tt
        → Visible k xs d.tables.product_projection
        → Consumed (emitted J F R now k xs) d d'
        → After (effect J F R now k xs)
    call_followed (new_product p) c q h seen v =
        create_followed p (ap (any (is_product p.id)) (sym q) ∙ create_new now p c h) seen v
    call_followed (update id title slug description price_minor currency) c q h seen v =
        update_followed id title slug description price_minor currency v
    call_followed (status id to) c q h seen v =
        status_followed id to (moved (current id xs) to) seen v
    call_followed (delete id) c q h seen v = delete_followed id _ refl v
    call_followed (extra e) c q h seen v = extra_followed e v
