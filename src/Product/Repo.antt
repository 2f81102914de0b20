-- ===== src/Product/Repo.antt =====
-- `ProductRepo` of crates/product/src/repository.rs: the products themselves.
use Prim.Native.Nat.{Ordering}
use Prim.Native.String.{compare}
use tiny_shop.Prelude.{
  String, Bool, true, false, not, ◌&&◌, Option, none, some, List, ◌∷◌, ◌++◌, ◌==◌, map, filter,
  find?, any, update_where, delete_where, order_by, take, drop, length, ltb, if◌then◌else◌,
  string_eq, [],
}
use tiny_shop.Prelude.Int.{ℤ, ltb_ℤ}
use tiny_shop.Sql.{constraint, Result, ok, err, Tx, Db, transaction, query, ◌>>◌}
use tiny_shop.Shared.{NewEvent}
use tiny_shop.Shared.Json.{Json}
use tiny_shop.Shared.Pages.{Pagination, Page}
use tiny_shop.Events.Outbox.{enqueue}
use tiny_shop.Product.{
  Lang, Product, ProductRow, MediaRow, ConfigRow, DigitalVariant, AttributeRow, Translation,
  ProductTables, ProductStatus, draft, published, archived, ProductError, db, invalid_enum, from_db,
  lang_str, status_str, parse_status, same_status,
}

unfoldable pub status_transition_event : ProductStatus → ProductStatus → Option String
status_transition_event draft published = some "ProductPublished"
status_transition_event published archived = some "ProductArchived"
status_transition_event published draft = some "ProductUnpublished"
status_transition_event _ _ = none

abbrev pub is_product : String → ProductRow → Bool
is_product id r = r.id == id

abbrev pub has_slug : String → String → ProductRow → Bool
has_slug seller_id slug r = (r.seller_id == seller_id) && (r.slug == slug)

abbrev pub is_translation : String → String → Translation → Bool
is_translation entity_type entity_id r =
    (r.entity_type == entity_type) && (r.entity_id == entity_id)

-- entity_id IN (SELECT id FROM digital_variant WHERE product_id = ?)
abbrev pub of_variants : String → List DigitalVariant → Translation → Bool
of_variants id vs r =
    (r.entity_type == "digital_variant")
    && any (λ (v : DigitalVariant). (v.product_id == id) && (v.id == r.entity_id)) vs

-- COALESCE(t.value, canon) over the LEFT JOIN.
abbrev pub translated : List Translation → Lang → String → String → String → String
translated ts lang field id canon =
    elim (find?
      (λ r. is_translation "product" id r && (r.lang == lang_str lang && r.field == field)) ts) [
        | some r ↦ r.value
        | none ↦ canon
      ]

unfoldable pub product_from_row : ProductRow → Result ProductError Product
unfolding parse_status
product_from_row r = elim (parse_status r.status) [
  | none ↦ err (invalid_enum "status" r.status)
  | some status ↦ ok (record {
    id = r.id;
    seller_id = r.seller_id;
    title = r.title;
    slug = r.slug;
    description = r.description;
    price_minor = r.price_minor;
    currency = r.currency;
    status = status;
    created_at = r.created_at;
    updated_at = r.updated_at;
  })
]

-- Texts in the order of their characters.
abbrev pub text_leb : String → String → Bool
text_leb s t = elim (compare s t) [ Ordering.gt ↦ false | _ ↦ true ]

-- updated_at DESC, id ASC
abbrev newest_first : ProductRow → ProductRow → Bool
newest_first r s =
    if ltb_ℤ s.updated_at r.updated_at
    then true
    else if ltb_ℤ r.updated_at s.updated_at
    then false
    else text_leb r.id s.id

-- seller_id = ?, and status = ? where one is given.
abbrev wanted : String → Option ProductStatus → ProductRow → Bool
wanted seller_id none r = r.seller_id == seller_id
wanted seller_id (some s) r = (r.seller_id == seller_id) && (r.status == status_str s)

module _ (J : Json) (F : Type 0) where
  open J use {Value, Encoded, text, number, object}

  abbrev pub Tables : Type 0
  Tables = ProductTables Encoded F

  unfoldable pub enqueue_event : ℤ → NewEvent Value → Tx ProductError Tables (Unit {0})
  unfolding enqueue from_db
  enqueue_event now ev t = elim (enqueue J now ev t.outbox) [
    | ok (id, o) ↦ ok (tt, record t { outbox = o })
    | err e ↦ err (from_db e)
  ]

  abbrev pub product_event : String → String → Value → NewEvent Value
  product_event id event_type payload = record {
    aggregate = "product";
    aggregate_id = id;
    event_type = event_type;
    payload = payload;
  }

  unfoldable pub product_snapshot : Product → Value
  unfolding status_str
  product_snapshot p = object (
      ("id", text p.id)
      ∷ ("seller_id", text p.seller_id)
      ∷ ("title", text p.title)
      ∷ ("slug", text p.slug)
      ∷ ("description", text p.description)
      ∷ ("price_minor", number p.price_minor)
      ∷ ("currency", text p.currency)
      ∷ ("status", text (status_str p.status))
      ∷ ("created_at", number p.created_at)
      ∷ ("updated_at", number p.updated_at)
      ∷ [])

  unfoldable pub insert_product : Product → Tx ProductError Tables (Unit {0})
  unfolding status_str
  insert_product p t =
      if any (is_product p.id) t.products
      then err (db (constraint "UNIQUE products.id"))
      else if any (has_slug p.seller_id p.slug) t.products
      then err (db (constraint "UNIQUE products_seller_slug"))
      else ok (
        tt,
        record t {
          products =
              t.products
              ++ record {
                id = p.id;
                seller_id = p.seller_id;
                title = p.title;
                slug = p.slug;
                description = p.description;
                price_minor = p.price_minor;
                currency = p.currency;
                status = status_str p.status;
                created_at = p.created_at;
                updated_at = p.updated_at;
              }
                ∷ [];
        },
      )

  unfoldable pub create_product : ℤ → Product → Db ProductError Tables (Unit {0})
  unfolding insert_product enqueue_event product_snapshot
  create_product now p = transaction db (do
    insert_product p
    enqueue_event now (product_event p.id "ProductCreated" (product_snapshot p)))

  -- The UPDATE, which the unique index may refuse.
  unfoldable pub edit_product :
      ℤ → String → String → String → String → ℤ → String → Tx ProductError Tables (Unit {0})
  edit_product now id title slug description price_minor currency t =
      if any
        (λ r.
          is_product id r
          && any (λ s. not (s.id == r.id) && has_slug r.seller_id slug s) t.products)
        t.products
      then err (db (constraint "UNIQUE products_seller_slug"))
      else ok (
        tt,
        record t {
          products =
              update_where (is_product id)
                (λ r. record r {
                  title = title;
                  slug = slug;
                  description = description;
                  price_minor = price_minor;
                  currency = currency;
                  updated_at = now;
                })
                t.products;
        },
      )

  unfoldable pub update_product :
      ℤ → String → String → String → String → ℤ → String → Db ProductError Tables (Unit {0})
  unfolding edit_product enqueue_event
  update_product now id title slug description price_minor currency = transaction db (do
    edit_product now id title slug description price_minor currency
    enqueue_event now (
        product_event id "ProductUpdated" (
          object (
            ("id", text id)
            ∷ ("title", text title)
            ∷ ("slug", text slug)
            ∷ ("description", text description)
            ∷ ("price_minor", number price_minor)
            ∷ ("currency", text currency)
            ∷ ("updated_at", number now)
            ∷ []))))

  abbrev pub status_changed : ℤ → String → ProductStatus → ProductStatus → String → NewEvent Value
  status_changed now id from to event_type = product_event id event_type (
      object (
        ("id", text id)
        ∷ ("from", text (status_str from))
        ∷ ("to", text (status_str to))
        ∷ ("updated_at", number now)
        ∷ []))

  -- `if let Some(event_type) = status_transition_event(from, to)`
  unfoldable pub announce :
      ℤ → String → ProductStatus → ProductStatus → Option String → Tx ProductError Tables (Unit {0})
  unfolding enqueue_event
  announce now id from to none t = ok (tt, t)
  announce now id from to (some event_type) t =
      enqueue_event now (status_changed now id from to event_type) t

  abbrev pub with_status : ℤ → String → ProductStatus → Tables → Tables
  with_status now id to t = record t {
    products =
        update_where (is_product id) (λ r. record r { status = status_str to; updated_at = now })
          t.products;
  }

  unfoldable pub change_status : ℤ → String → ProductStatus → Tx ProductError Tables (Unit {0})
  unfolding parse_status announce status_transition_event
  change_status now id to t = elim (find? (is_product id) t.products) [
    | none ↦ ok (tt, t)
    | some r ↦ elim (parse_status r.status) [
      | none ↦ err (invalid_enum "status" r.status)
      | some from ↦ elim (same_status from to) [
        | true ↦ ok (tt, t)
        | false ↦
            announce now id from to (status_transition_event from to) (with_status now id to t)
      ]
    ]
  ]

  unfoldable pub set_status : ℤ → String → ProductStatus → Db ProductError Tables (Unit {0})
  unfolding change_status
  set_status now id to = transaction db (change_status now id to)

  -- DELETE FROM products, with what ON DELETE CASCADE removes.
  abbrev pub without : String → Tables → Tables
  without id t = record t {
    products = delete_where (is_product id) t.products;
    product_media = delete_where (λ (r : MediaRow). r.product_id == id) t.product_media;
    digital_config = delete_where (λ (r : ConfigRow). r.product_id == id) t.digital_config;
    digital_variant = delete_where (λ (r : DigitalVariant). r.product_id == id) t.digital_variant;
    product_attribute_values =
        delete_where (λ (r : AttributeRow F). r.product_id == id) t.product_attribute_values;
  }

  -- The two DELETEs on `translations`.
  abbrev pub untranslated : String → Tables → Tables
  untranslated id t = record t {
    translations =
        delete_where (of_variants id t.digital_variant)
          (delete_where (is_translation "product" id) t.translations);
  }

  unfoldable pub erase : ℤ → String → Tx ProductError Tables (Unit {0})
  unfolding enqueue_event
  erase now id t = elim (ltb 0 (length (filter (is_product id) t.products))) [
    | false ↦ ok (tt, without id (untranslated id t))
    | true ↦
        enqueue_event now (product_event id "ProductDeleted" (object (("id", text id) ∷ [])))
          (without id (untranslated id t))
  ]

  unfoldable pub delete_product : ℤ → String → Db ProductError Tables (Unit {0})
  unfolding erase
  delete_product now id = transaction db (erase now id)

  -- A row as `product_select_with_translations` selects it.
  abbrev pub selected : Tables → Lang → ProductRow → ProductRow
  selected t lang r = record r {
    title = translated t.translations lang "title" r.id r.title;
    description = translated t.translations lang "description" r.id r.description;
  }

  -- The one row that a test picks.
  unfoldable pub fetch_product :
      (ProductRow → Bool) → Lang → Tables → Result ProductError (Option Product)
  unfolding product_from_row lang_str
  fetch_product p lang t = elim (find? p t.products) [
    | none ↦ ok none
    | some r ↦ elim (product_from_row (selected t lang r)) [ ok x ↦ ok (some x) | err e ↦ err e ]
  ]

  unfoldable pub get_product : String → Lang → Db ProductError Tables (Option Product)
  unfolding fetch_product
  get_product id lang = query db (fetch_product (is_product id) lang)

  unfoldable pub get_product_by_slug :
      String → String → Lang → Db ProductError Tables (Option Product)
  unfolding fetch_product
  get_product_by_slug seller_id slug lang = query db (fetch_product (has_slug seller_id slug) lang)

  unfoldable pub collect : List ProductRow → Result ProductError (List Product)
  unfolding product_from_row
  collect [] = ok []
  collect (r ∷ rs) =
      let rest = collect rs in
      elim (product_from_row r) [
        | err e ↦ err e
        | ok p ↦ elim rest [ ok ps ↦ ok (p ∷ ps) | err e ↦ err e ]
      ]

  -- The page, then the COUNT.
  unfoldable pub list_products_by_seller :
      String → Option ProductStatus → Pagination → Lang → Db ProductError Tables (Page Product)
  unfolding collect lang_str status_str
  list_products_by_seller seller_id status pg lang c =
      let (rows, c') =
        query db
          (λ t. collect (
            map (selected t lang) (
              take pg.limit (
                drop pg.offset
                  (order_by newest_first (filter (wanted seller_id status) t.products))))))
          c in
      elim rows [
        | err e ↦ (err e, c')
        | ok ps ↦
            let (total, c'') =
              query db (λ t. ok (length (filter (wanted seller_id status) t.products))) c' in
            elim total [
              | err e ↦ (err e, c'')
              | ok n ↦ (ok (record { items = ps; total = n; page = pg }), c'')
            ]
      ]
