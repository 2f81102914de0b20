-- ===== src/Catalog/Search/Adapter.antt =====
-- `SqliteCatalogSearch` of crates/catalog/src/search.rs. The text of an error is a parameter.
use tiny_shop.Prelude.{
  ℕ, String, Bool, true, false, not, ◌&&◌, Option, none, some, List, [], ◌∷◌, ◌++◌, ◌==◌, string_eq,
  nat_eq, map, filter, find?, any, update_where, delete_where, order_by, take, drop, length,
  if◌then◌else◌,
}
use tiny_shop.Prelude.Int.{ℤ, pos, ltb_ℤ}
use tiny_shop.Sql.{SqlError, constraint, ok, err, Tx, Db, transaction, query, ◌>>◌}
use tiny_shop.Shared.Pages.{clamp, max_limit}
use tiny_shop.Product.Repo.{text_leb}
use tiny_shop.Catalog.{
  Sort, relevance, price_asc, price_desc, newest, SearchQuery, ProductCard, ProductView,
  SearchResult, ProductDoc, SearchError, backend, ProjectionRow, FtsRow, CatalogTables,
}
use tiny_shop.Catalog.Projection.{row_id, row_slug, fts_of, entries_of}
use tiny_shop.Catalog.Search.{Floats, push_where, fits_all}
use tiny_shop.Catalog.Search.Terms.{fts_term}

abbrev by_id : ProjectionRow → ProjectionRow → Bool
by_id r s = text_leb r.id s.id

-- `k ASC, id ASC`
abbrev by_key : ℤ → ℤ → ProjectionRow → ProjectionRow → Bool
by_key k l r s = if ltb_ℤ k l then true else if ltb_ℤ l k then false else by_id r s

abbrev pub in_order : Sort → ProjectionRow → ProjectionRow → Bool
in_order price_asc r s = by_key r.price_minor s.price_minor r s
in_order price_desc r s = by_key s.price_minor r.price_minor r s
in_order newest r s = by_key s.created_at r.created_at r s
in_order relevance r s = by_key s.created_at r.created_at r s

abbrev pub card_of : ProjectionRow → ProductCard
card_of r = record {
  product_id = r.id;
  title = r.title;
  slug = r.slug;
  price_minor = r.price_minor;
  currency = r.currency;
  thumb = r.thumb;
}

unfoldable pub map_view_row : ProjectionRow → ProductView
map_view_row r = record {
  id = r.id;
  seller_id = r.seller_id;
  title = r.title;
  slug = r.slug;
  description = r.description;
  price_minor = r.price_minor;
  currency = r.currency;
  status = r.status;
  category_id = r.category_id;
  thumb = r.thumb;
}

-- `be`
unfoldable pub be : (SqlError → String) → SqlError → SearchError
be describe e = backend (describe e)

abbrev pub view_of : Option ProjectionRow → Option ProductView
view_of none = none
view_of (some r) = some (map_view_row r)

-- CASE WHEN excluded.category_id != '' THEN excluded.category_id ELSE category_id END
abbrev pub merged_category : String → Option String → Option String
merged_category new old = if new == "" then old else some new

abbrev pub nothing_found : SearchResult
nothing_found = record { items = []; total = 0; facets = [] }

module _ (is_whitespace is_alphanumeric : ℕ → Bool) {F : Type 0} (floats : Floats F)
    (fts : List ℕ → FtsRow → Bool) (describe : SqlError → String) where
  unfoldable pub selection : SearchQuery F → CatalogTables F → List ProjectionRow
  unfolding push_where fits_all fts_term
  selection q t =
      filter (fits_all floats fts t (push_where q (fts_term is_whitespace is_alphanumeric q.text)))
        t.product_projection

  unfoldable pub count_results : SearchQuery F → Db SearchError (CatalogTables F) ℕ
  unfolding selection be
  count_results q = query (be describe) (λ t. ok (length (selection q t)))

  -- The rows of the page: ORDER BY, LIMIT, OFFSET.
  unfoldable pub page_rows : SearchQuery F → CatalogTables F → List ProjectionRow
  unfolding selection
  page_rows q t =
      take (clamp q.page.limit 1 max_limit)
        (drop q.page.offset (order_by (in_order q.sort) (selection q t)))

  -- The COUNT, then the page where the count is not 0.
  unfoldable pub search : SearchQuery F → Db SearchError (CatalogTables F) SearchResult
  unfolding count_results page_rows
  search q c =
      let (counted, c') = count_results q c in
      elim counted [
        | err e ↦ (err e, c')
        | ok total ↦ elim (total == 0) [
          | true ↦ (ok nothing_found, c')
          | false ↦
              let (found, c'') = query (be describe) (λ t. ok (page_rows q t)) c' in
              elim found [
                | err e ↦ (err e, c'')
                | ok rows ↦
                    (ok (record { items = map card_of rows; total = total; facets = [] }), c'')
              ]
        ]
      ]

module _ {F : Type 0} (describe : SqlError → String) where
  unfoldable pub get_card_by_slug : String → Db SearchError (CatalogTables F) (Option ProductView)
  unfolding be map_view_row
  get_card_by_slug slug = query (be describe) λ t.
      ok (view_of (find? (λ r. row_slug slug r && r.status == "published") t.product_projection))

  unfoldable pub get_card_by_id : String → Db SearchError (CatalogTables F) (Option ProductView)
  unfolding be map_view_row
  get_card_by_id product_id = query (be describe) λ t.
      ok
        (view_of (find? (λ r. row_id product_id r && r.status == "published") t.product_projection))

  unfoldable pub write_doc : ProductDoc → Tx SearchError (CatalogTables F) (Unit {0})
  unfolding be
  write_doc doc t =
      if any (λ r. not (r.id == doc.product_id) && row_slug doc.slug r) t.product_projection
      then err (be describe (constraint "UNIQUE product_projection.slug"))
      else if any (row_id doc.product_id) t.product_projection
      then ok (
        tt,
        record t {
          product_projection =
              update_where (row_id doc.product_id)
                (λ r. record r {
                  title = doc.title;
                  slug = doc.slug;
                  description = doc.description;
                  price_minor = doc.price_minor;
                  currency = doc.currency;
                  category_id = merged_category doc.category_id r.category_id;
                })
                t.product_projection;
        },
      )
      else ok (
        tt,
        record t {
          product_projection =
              t.product_projection
              ++ record {
                id = doc.product_id;
                seller_id = "";
                title = doc.title;
                slug = doc.slug;
                description = doc.description;
                price_minor = doc.price_minor;
                currency = doc.currency;
                status = "published";
                category_id = some doc.category_id;
                thumb = none;
                created_at = pos 0;
                updated_at = pos 0;
              }
                ∷ [];
        },
      )

  -- `delete_fts_tx`, then the INSERT.
  unfoldable pub write_fts : ProductDoc → Tx SearchError (CatalogTables F) (Unit {0})
  write_fts doc t = ok (
    tt,
    record t {
      product_fts =
          delete_where (fts_of doc.product_id) t.product_fts
          ++ record {
            product_id = doc.product_id;
            title = doc.title;
            description = doc.description;
            attrs = doc.attrs_text;
          }
            ∷ [];
    },
  )

  unfoldable pub upsert : ProductDoc → Db SearchError (CatalogTables F) (Unit {0})
  unfolding be write_doc write_fts
  upsert doc = transaction (be describe) (do write_doc doc; write_fts doc)

  unfoldable pub remove : String → Db SearchError (CatalogTables F) (Unit {0})
  unfolding be
  remove product_id = transaction (be describe) λ t. ok (
    tt,
    record t {
      product_attr_index = delete_where (entries_of product_id) t.product_attr_index;
      product_fts = delete_where (fts_of product_id) t.product_fts;
      product_projection = delete_where (row_id product_id) t.product_projection;
    },
  )
