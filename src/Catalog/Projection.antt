-- ===== src/Catalog/Projection.antt =====
-- crates/catalog/src/projection.rs: `CatalogProjection`, the consumer of the product events. How
-- GROUP_CONCAT joins texts and how an error of `sqlx` is shown are parameters.
pub mod Repeats
pub mod Rows
pub mod Redelivery
use tiny_shop.Prelude.{
  String, Bool, not, ◌&&◌, ◌||◌, none, some, List, [], ◌∷◌, ◌++◌, ◌==◌, string_eq, find?, any,
  update_where, delete_where, if◌then◌else◌,
}
use tiny_shop.Prelude.Int.{ℤ, pos}
use tiny_shop.Sql.{SqlError, constraint, Result, ok, err, Tx, Conn, transaction, pure, ◌>>◌}
use tiny_shop.Shared.{DomainEvent}
use tiny_shop.Shared.Json.{Json, Reading}
use tiny_shop.Events.Relay.{DispatchError}
use tiny_shop.Catalog.{AttributeRow, ProjectionRow, IndexRow, FtsRow, CatalogTables}

abbrev pub row_id : String → ProjectionRow → Bool
row_id id r = r.id == id

abbrev pub row_slug : String → ProjectionRow → Bool
row_slug slug r = r.slug == slug

abbrev pub fts_of : String → FtsRow → Bool
fts_of product_id r = r.product_id == product_id

module _ {F : Type 0} where
  abbrev pub entry_of : String → String → IndexRow F → Bool
  entry_of product_id attribute_id r =
      (r.product_id == product_id) && (r.attribute_id == attribute_id)

  abbrev pub entries_of : String → IndexRow F → Bool
  entries_of product_id r = r.product_id == product_id

  unfoldable pub delete_fts : String → Tx SqlError (CatalogTables F) (Unit {0})
  delete_fts product_id t =
      ok (tt, record t { product_fts = delete_where (fts_of product_id) t.product_fts })

  -- val_text IS NOT NULL AND val_text != ''
  unfoldable pub texts_of : String → List (IndexRow F) → List String
  texts_of product_id [] = []
  texts_of product_id (r ∷ rs) =
      let rest = texts_of product_id rs in
      if entries_of product_id r
      then elim r.val_text [ none ↦ rest | some v ↦ if v == "" then rest else v ∷ rest ]
      else rest

  unfoldable pub upsert_fts :
      (List String → String) → String → Tx SqlError (CatalogTables F) (Unit {0})
  unfolding delete_fts texts_of
  upsert_fts group_concat product_id t = elim (find? (row_id product_id) t.product_projection) [
    | none ↦ ok (tt, t)
    | some r ↦ ok (
      tt,
      record t {
        product_fts =
            delete_where (fts_of product_id) t.product_fts
            ++ record {
              product_id = product_id;
              title = r.title;
              description = r.description;
              attrs = group_concat (texts_of product_id t.product_attr_index);
            }
              ∷ [];
      },
    )
  ]

  -- INSERT OR IGNORE, with the row for the event.
  unfoldable pub insert_or_ignore : ProjectionRow → Tx SqlError (CatalogTables F) (Unit {0})
  insert_or_ignore r t =
      if any (row_id r.id) t.product_projection || any (row_slug r.slug) t.product_projection
      then ok (tt, t)
      else ok (tt, record t { product_projection = t.product_projection ++ r ∷ [] })

  -- The core UPDATE, which the unique index on slugs may refuse.
  unfoldable pub edit_row :
      String → String → String → String → ℤ → String → ℤ → Tx SqlError (CatalogTables F) (Unit {0})
  edit_row id title slug description price_minor currency updated_at t =
      if any (row_id id) t.product_projection
        && any (λ s. not (s.id == id) && row_slug slug s) t.product_projection
      then err (constraint "UNIQUE product_projection.slug")
      else ok (
        tt,
        record t {
          product_projection =
              update_where (row_id id)
                (λ r. record r {
                  title = title;
                  slug = slug;
                  description = description;
                  price_minor = price_minor;
                  currency = currency;
                  updated_at = updated_at;
                })
                t.product_projection;
        },
      )

  unfoldable pub touch_row : String → ℤ → Tx SqlError (CatalogTables F) (Unit {0})
  touch_row id updated_at t = ok (
    tt,
    record t {
      product_projection =
          update_where (row_id id) (λ r. record r { updated_at = updated_at }) t.product_projection;
    },
  )

  unfoldable pub set_entry : IndexRow F → Tx SqlError (CatalogTables F) (Unit {0})
  set_entry e t =
      if any (entry_of e.product_id e.attribute_id) t.product_attr_index
      then ok (
        tt,
        record t {
          product_attr_index =
              update_where (entry_of e.product_id e.attribute_id)
                (λ r. record r {
                  category_id = e.category_id;
                  val_text = e.val_text;
                  val_num = e.val_num;
                })
                t.product_attr_index;
        },
      )
      else ok (tt, record t { product_attr_index = t.product_attr_index ++ e ∷ [] })

  unfoldable pub clear_entry : String → String → Tx SqlError (CatalogTables F) (Unit {0})
  clear_entry product_id attribute_id t = ok (
    tt,
    record t {
      product_attr_index = delete_where (entry_of product_id attribute_id) t.product_attr_index;
    },
  )

  unfoldable pub apply_deleted_id : String → Tx SqlError (CatalogTables F) (Unit {0})
  unfolding delete_fts
  apply_deleted_id id t = ok (
    tt,
    record t {
      product_attr_index = delete_where (entries_of id) t.product_attr_index;
      product_fts = delete_where (fts_of id) t.product_fts;
      product_projection = delete_where (row_id id) t.product_projection;
    },
  )

  unfoldable pub set_row_status : String → String → ℤ → Tx SqlError (CatalogTables F) (Unit {0})
  set_row_status id to updated_at t = ok (
    tt,
    record t {
      product_projection =
          update_where (row_id id) (λ r. record r { status = to; updated_at = updated_at })
            t.product_projection;
    },
  )

module _ (J : Json) (F : Type 0) (R : Reading J F) (group_concat : List String → String)
    (describe : SqlError → String) where
  open J use {Value}
  open R use {index, as_str, as_i64, as_f64}

  abbrev pub Apply : Type 0
  Apply = Tx SqlError (CatalogTables F) (Unit {0})

  unfoldable pub str_val : Value → String → String
  str_val p key = elim (as_str (index p key)) [ none ↦ "" | some s ↦ s ]

  -- `p[key].as_i64().unwrap_or(0)`
  unfoldable pub int_val : Value → String → ℤ
  int_val p key = elim (as_i64 (index p key)) [ none ↦ pos 0 | some n ↦ n ]

  unfoldable pub created_row : Value → ProjectionRow
  unfolding str_val int_val
  created_row p = record {
    id = str_val p "id";
    seller_id = str_val p "seller_id";
    title = str_val p "title";
    slug = str_val p "slug";
    description = str_val p "description";
    price_minor = int_val p "price_minor";
    currency = str_val p "currency";
    status = str_val p "status";
    category_id = none;
    thumb = none;
    created_at = int_val p "created_at";
    updated_at = int_val p "updated_at";
  }

  unfoldable pub apply_created : Value → Apply
  unfolding created_row insert_or_ignore upsert_fts str_val
  apply_created p = do insert_or_ignore (created_row p); upsert_fts group_concat (str_val p "id")

  -- SELECT category_id FROM attributes; the entry is written where the attribute is known.
  unfoldable pub index_value : Value → Apply
  unfolding str_val set_entry
  index_value p t =
      elim (find? (λ (a : AttributeRow). a.id == str_val p "attribute_id") t.attributes) [
        | none ↦ ok (tt, t)
        | some a ↦
            set_entry
              (record {
                product_id = str_val p "id";
                category_id = a.category_id;
                attribute_id = str_val p "attribute_id";
                val_text = as_str (index p "val_text");
                val_num = as_f64 (index p "val_num");
              })
              t
      ]

  unfoldable pub touch_given : Value → Apply
  unfolding touch_row str_val
  touch_given p t = elim (as_i64 (index p "updated_at")) [
    | none ↦ ok (tt, t)
    | some ts ↦ touch_row (str_val p "id") ts t
  ]

  unfoldable pub apply_core : Value → Apply
  unfolding edit_row str_val int_val upsert_fts
  apply_core p = do
    edit_row (str_val p "id") (str_val p "title") (str_val p "slug") (str_val p "description")
        (int_val p "price_minor") (str_val p "currency") (int_val p "updated_at")
    upsert_fts group_concat (str_val p "id")

  unfoldable pub apply_updated : Value → Apply
  unfolding str_val index_value upsert_fts clear_entry apply_core touch_given
  apply_updated p =
      if str_val p "reason" == "attribute_value_set"
      then (do index_value p; upsert_fts group_concat (str_val p "id"))
      else if str_val p "reason" == "attribute_value_cleared"
      then (do
        clear_entry (str_val p "id") (str_val p "attribute_id")
        upsert_fts group_concat (str_val p "id"))
      else if str_val p "reason" == ""
      then apply_core p
      else touch_given p

  unfoldable pub apply_status_changed : Value → Apply
  unfolding set_row_status str_val int_val
  apply_status_changed p = set_row_status (str_val p "id") (str_val p "to") (int_val p "updated_at")

  unfoldable pub apply_deleted : Value → Apply
  unfolding apply_deleted_id str_val
  apply_deleted p = apply_deleted_id (str_val p "id")

  unfoldable pub apply_event : String → Value → Apply
  unfolding apply_created apply_updated apply_status_changed apply_deleted
  apply_event event_type p =
      if event_type == "ProductCreated"
      then apply_created p
      else if event_type == "ProductUpdated"
      then apply_updated p
      else if event_type == "ProductPublished"
          || (event_type == "ProductUnpublished" || event_type == "ProductArchived")
      then apply_status_changed p
      else if event_type == "ProductDeleted"
      then apply_deleted p
      else pure tt

  -- `relay::DispatchError(e.to_string())`
  abbrev pub dispatch_error : {A : Type 0} → Result SqlError A → Result DispatchError A
  dispatch_error (ok a) = ok a
  dispatch_error (err e) = err (record { message = describe e })

  unfoldable pub dispatch :
      String
      → DomainEvent Value
      → Conn (CatalogTables F)
      → Result DispatchError (Unit {0}) × Conn (CatalogTables F)
  unfolding apply_event
  dispatch source event c =
      let (r, c') = transaction (λ e. e) (apply_event event.event_type event.payload) c in
      (dispatch_error r, c')
