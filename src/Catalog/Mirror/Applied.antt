-- ===== src/Catalog/Mirror/Applied.antt =====
-- What the events of the product context do to the rows of the projection.
use tiny_shop.Prelude.{
  String, ◌≡◌, refl, sym, ap, ◌∙◌, false, ◌||◌, List, [], ◌∷◌, ◌++◌, arith, string_eq, any,
  update_where, delete_where,
}
use tiny_shop.Prelude.Int.{ℤ}
use tiny_shop.Sql.{SqlError, ok, Tx, ◌>>◌}
use tiny_shop.Sql.Laws.{bind-eq-ok, tables_of}
use tiny_shop.Shared.Json.{Json, Reading}
use tiny_shop.Product.{Product, ProductStatus, status_str}
use tiny_shop.Product.Repo.{product_snapshot, status_changed}
use tiny_shop.Product.Calls.{core_event}
use tiny_shop.Catalog.{ProjectionRow, CatalogTables}
use tiny_shop.Catalog.Projection.{
  row_id, row_slug, upsert_fts, insert_or_ignore, edit_row, set_entry, clear_entry, set_row_status,
  apply_deleted_id, str_val, int_val, created_row, apply_created, index_value, apply_core,
  apply_updated, apply_status_changed, apply_deleted, apply_event,
}
use tiny_shop.Catalog.Projection.Repeats.{upsert_fts-keeps, insert_new}
use tiny_shop.Catalog.Mirror.Payloads.{
  str_field, str_absent, int_field, first_row, created_row-snapshot,
}

module _ (J : Json) (F : Type 0) (R : Reading J F) (group_concat : List String → String)
    (describe : SqlError → String) where
  open J use {Value, null, text, number, object}
  open R use {index, as_str, as_i64, index-object, as_str-text, as_str-null, as_i64-number}

  abbrev rows_in : CatalogTables F → List ProjectionRow
  rows_in t = t.product_projection

  -- Bringing the full-text table up to date leaves the rows of the projection.
  then_fts-rows :
      (id : String) (m : Tx SqlError (CatalogTables F) (Unit {0})) (rows : List ProjectionRow)
      (t t' : CatalogTables F)
      → ((s : CatalogTables F) → m t ≡ ok (tt, s) → s.product_projection ≡ rows)
      → (m >> upsert_fts group_concat id) t ≡ ok (tt, t')
      → t'.product_projection ≡ rows
  then_fts-rows id m rows t t' step h =
      let (_, s, first, second) = bind-eq-ok m (λ _. upsert_fts group_concat id) t tt t' h in
      let (docs, same) = upsert_fts-keeps group_concat id s t' second in
      ap rows_in same ∙ step s first

  pub created-rows :
      (p : Product) (t t' : CatalogTables F)
      → (any (row_id p.id) t.product_projection || any (row_slug p.slug) t.product_projection)
        ≡ false
      → apply_event J F R group_concat describe "ProductCreated" (product_snapshot J F p) t
        ≡ ok (tt, t')
      → t'.product_projection ≡ t.product_projection ++ first_row J F R group_concat describe p ∷ []
  unfolding apply_event apply_created
  created-rows p t t' free h =
      then_fts-rows _
        (insert_or_ignore (created_row J F R group_concat describe (product_snapshot J F p))) _ t t'
        (λ s q. ap rows_in (
          tables_of (
            sym (insert_new (first_row J F R group_concat describe p) t free)
            ∙ sym (
                ap (λ r. insert_or_ignore r t) (created_row-snapshot J F R group_concat describe p))
            ∙ q)))
        h

  abbrev pub with_core_row :
      ℤ → String → String → String → ℤ → String → ProjectionRow → ProjectionRow
  with_core_row now title slug description price_minor currency r = record r {
    title = title;
    slug = slug;
    description = description;
    price_minor = price_minor;
    currency = currency;
    updated_at = now;
  }

  edited-rows :
      (id title slug description : String) (price_minor : ℤ) (currency : String) (now : ℤ)
      (t s : CatalogTables F)
      → edit_row id title slug description price_minor currency now t ≡ ok (tt, s)
      → s.product_projection
        ≡ update_where
            (row_id id)
            (with_core_row now title slug description price_minor currency)
            t.product_projection
  unfolding edit_row
  edited-rows id title slug description price_minor currency now t s h = ground arith

  core_branch :
      (p : Value)
      → str_val J F R group_concat describe p "reason" ≡ ""
      → apply_updated J F R group_concat describe p ≡ apply_core J F R group_concat describe p
  unfolding apply_updated
  core_branch p e = rw (e, apply_updated) refl

  edit_as : Value → Tx SqlError (CatalogTables F) (Unit {0})
  edit_as p =
      edit_row (str_val J F R group_concat describe p "id")
        (str_val J F R group_concat describe p "title")
        (str_val J F R group_concat describe p "slug")
        (str_val J F R group_concat describe p "description")
        (int_val J F R group_concat describe p "price_minor")
        (str_val J F R group_concat describe p "currency")
        (int_val J F R group_concat describe p "updated_at")

  abbrev core_rows_as : Value → List ProjectionRow → List ProjectionRow
  core_rows_as p rows =
      update_where (row_id (str_val J F R group_concat describe p "id"))
        (with_core_row (int_val J F R group_concat describe p "updated_at")
          (str_val J F R group_concat describe p "title")
          (str_val J F R group_concat describe p "slug")
          (str_val J F R group_concat describe p "description")
          (int_val J F R group_concat describe p "price_minor")
          (str_val J F R group_concat describe p "currency"))
        rows

  core_applied :
      (p : Value) (t t' : CatalogTables F)
      → apply_core J F R group_concat describe p t ≡ ok (tt, t')
      → t'.product_projection ≡ core_rows_as p t.product_projection
  unfolding apply_core edit_as
  core_applied p t t' h =
      then_fts-rows (str_val J F R group_concat describe p "id") (edit_as p)
        (core_rows_as p t.product_projection) t t' (λ s q. edited-rows _ _ _ _ _ _ _ t s q) h

  pub core-rows :
      (now : ℤ) (id title slug description : String) (price_minor : ℤ) (currency : String)
      (t t' : CatalogTables F)
      → apply_event J F R group_concat describe "ProductUpdated"
          (core_event J F R now id title slug description price_minor currency).payload
          t
        ≡ ok (tt, t')
      → t'.product_projection
        ≡ update_where
            (row_id id)
            (with_core_row now title slug description price_minor currency)
            t.product_projection
  unfolding apply_event
  core-rows now id title slug description price_minor currency t t' h =
      core_applied (object fields) t t' (
        sym (
          ap (λ m. m t)
            (core_branch (object fields)
              (str_absent J F R group_concat describe fields "reason" refl)))
        ∙ h)
      ∙ rw
          (
            str_field J F R group_concat describe fields "id" id refl,
            str_field J F R group_concat describe fields "title" title refl,
            str_field J F R group_concat describe fields "slug" slug refl,
            str_field J F R group_concat describe fields "description" description refl,
            int_field J F R group_concat describe fields "price_minor" price_minor refl,
            str_field J F R group_concat describe fields "currency" currency refl,
            int_field J F R group_concat describe fields "updated_at" now refl,
          )
          refl
    where
      fields : List (String × Value)
      fields =
          ("id", text id)
          ∷ ("title", text title)
          ∷ ("slug", text slug)
          ∷ ("description", text description)
          ∷ ("price_minor", number price_minor)
          ∷ ("currency", text currency)
          ∷ ("updated_at", number now)
          ∷ []

  pub status-rows :
      (now : ℤ) (id : String) (from to : ProductStatus) (event_type : String)
      (t t' : CatalogTables F)
      → apply_status_changed J F R group_concat describe
          (status_changed J F now id from to event_type).payload
          t
        ≡ ok (tt, t')
      → t'.product_projection
        ≡ update_where
            (row_id id)
            (λ r. record r { status = status_str to; updated_at = now })
            t.product_projection
  unfolding apply_status_changed set_row_status
  status-rows now id from to event_type t t' h =
      ap rows_in (tables_of h)
      ∙ rw
          (
            str_field J F R group_concat describe fields "id" id refl,
            str_field J F R group_concat describe fields "to" (status_str to) refl,
            int_field J F R group_concat describe fields "updated_at" now refl,
          )
          refl
    where
      fields : List (String × Value)
      fields =
          ("id", text id)
          ∷ ("from", text (status_str from))
          ∷ ("to", text (status_str to))
          ∷ ("updated_at", number now)
          ∷ []

  pub deleted-rows :
      (id : String) (t t' : CatalogTables F)
      → apply_event J F R group_concat describe "ProductDeleted" (object (("id", text id) ∷ [])) t
        ≡ ok (tt, t')
      → t'.product_projection ≡ delete_where (row_id id) t.product_projection
  unfolding apply_event apply_deleted apply_deleted_id
  deleted-rows id t t' h =
      ap rows_in (tables_of h)
      ∙ ap (λ i. delete_where (row_id i) t.product_projection)
          (str_field J F R group_concat describe (("id", text id) ∷ []) "id" id refl)

  -- The two reasons with an attribute keep the rows; any other reason touches one.
  set_branch :
      (p : Value)
      → str_val J F R group_concat describe p "reason" ≡ "attribute_value_set"
      → apply_updated J F R group_concat describe p ≡ (
          index_value J F R group_concat describe p
          >> upsert_fts group_concat (str_val J F R group_concat describe p "id"))
  unfolding apply_updated
  set_branch p e = rw (e, apply_updated) refl

  cleared_branch :
      (p : Value)
      → str_val J F R group_concat describe p "reason" ≡ "attribute_value_cleared"
      → apply_updated J F R group_concat describe p ≡ (
          clear_entry
            (str_val J F R group_concat describe p "id")
            (str_val J F R group_concat describe p "attribute_id")
          >> upsert_fts group_concat (str_val J F R group_concat describe p "id"))
  unfolding apply_updated
  cleared_branch p e = rw (e, apply_updated) refl

  index_value-rows :
      (p : Value) (t s : CatalogTables F)
      → index_value J F R group_concat describe p t ≡ ok (tt, s)
      → s.product_projection ≡ t.product_projection
  unfolding index_value set_entry
  index_value-rows p t s h = ground arith

  pub set_applied :
      (p : Value) (t t' : CatalogTables F)
      → str_val J F R group_concat describe p "reason" ≡ "attribute_value_set"
      → apply_updated J F R group_concat describe p t ≡ ok (tt, t')
      → t'.product_projection ≡ t.product_projection
  set_applied p t t' e h =
      then_fts-rows (str_val J F R group_concat describe p "id")
        (index_value J F R group_concat describe p) t.product_projection t t' (index_value-rows p t)
        (sym (ap (λ m. m t) (set_branch p e)) ∙ h)

  clear_entry-rows :
      (id attribute_id : String) (t s : CatalogTables F)
      → clear_entry id attribute_id t ≡ ok (tt, s)
      → s.product_projection ≡ t.product_projection
  unfolding clear_entry
  clear_entry-rows id attribute_id t s h = ground arith

  pub cleared_applied :
      (p : Value) (t t' : CatalogTables F)
      → str_val J F R group_concat describe p "reason" ≡ "attribute_value_cleared"
      → apply_updated J F R group_concat describe p t ≡ ok (tt, t')
      → t'.product_projection ≡ t.product_projection
  cleared_applied p t t' e h =
      then_fts-rows (str_val J F R group_concat describe p "id")
        (clear_entry (str_val J F R group_concat describe p "id")
          (str_val J F R group_concat describe p "attribute_id"))
        t.product_projection t t' (clear_entry-rows _ _ t)
        (sym (ap (λ m. m t) (cleared_branch p e)) ∙ h)
