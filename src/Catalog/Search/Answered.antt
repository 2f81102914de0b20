-- ===== src/Catalog/Search/Answered.antt =====
-- What `search` of crates/catalog/src/search.rs answers, told of the rows of the catalog.
use mathlib.Core.List.{Permᴰ}
use mathlib.Core.List.Permᴰ
use tiny_shop.Prelude.{
  ℕ, String, ◌≡◌, sym, ◌∙◌, Bool, false, not, List, ◌++◌, arith, map, order_by, filter,
  delete_where, take, drop, length, All, All-map, Apart, string_eq,
}
use tiny_shop.Prelude.Rows.Ordered.{All-order_by, length-order_by, All-filter_fits, Apart-ordered}
use tiny_shop.Prelude.Rows.Parts.{Perm-order_by, Perm-parts}
use tiny_shop.Sql.{SqlError, ok, Conn}
use tiny_shop.Shared.Pages.{clamp, max_limit}
use tiny_shop.Catalog.{SearchQuery, SearchResult, ProjectionRow, FtsRow, CatalogTables}
use tiny_shop.Catalog.Search.{Floats, push_where, fits_all}
use tiny_shop.Catalog.Search.Terms.{fts_term}
use tiny_shop.Catalog.Search.Adapter.{card_of, in_order, selection, page_rows, search}
use tiny_shop.Catalog.Search.Promises.{
  Priced, Sorted, in_order-fits, in_order-turns, Sorted-trans, where-Priced,
}
use tiny_shop.Catalog.Search.Results.{tables-search}
use tiny_shop.Catalog.Search.Exact.{search-IsExact}

module _ (is_whitespace is_alphanumeric : ℕ → Bool) {F : Type 0} (floats : Floats F)
    (fts : List ℕ → FtsRow → Bool) (describe : SqlError → String) where
  -- The condition of the query on a row.
  abbrev pub wanted : SearchQuery F → CatalogTables F → ProjectionRow → Bool
  wanted q t = fits_all floats fts t (push_where q (fts_term is_whitespace is_alphanumeric q.text))

  -- An answer: the projection falls apart into the rows that were found and the rest.
  pub record Answers (q : SearchQuery F) (t : CatalogTables F) (a : SearchResult) : Type 0 where
    pub all : List ProjectionRow
    pub rest : List ProjectionRow
    pub whole : Permᴰ (all ++ rest) t.product_projection
    pub found : All (λ r. (r.status ≡ "published") × All (λ f. Priced f r) q.filters) all
    pub left : All (λ r. wanted q t r ≡ false) rest
    pub sorted : Apart (Sorted q.sort) all
    pub shown :
        a.items ≡ map card_of (take (clamp q.page.limit 1 max_limit) (drop q.page.offset all))
    pub total : a.total ≡ length all

  -- A successful `search` parts the rows of the projection, each once, into those that it found and
  -- the rest. Each that it found is published and within every price filter of the query; each of
  -- the rest fails the query's conditions. It gives the cards of the asked page, of a hundred at
  -- most, of the found rows in the order asked for, and their number, and changes no table.
  pub search_lem :
      (q : SearchQuery F) (c : Conn (CatalogTables F)) (a : SearchResult)
      → (search is_whitespace is_alphanumeric floats fts describe q c).0 ≡ ok a
      → Answers q c.tables a
        × ((search is_whitespace is_alphanumeric floats fts describe q c).1.tables ≡ c.tables)
  unfolding page_rows selection delete_where
  search_lem q c a h =
      let rows = c.tables.product_projection in
      let (items, total) =
        search-IsExact is_whitespace is_alphanumeric floats fts describe q c a h in
      (
        record {
          all = order_by (in_order q.sort) (filter (wanted q c.tables) rows);
          rest = delete_where (wanted q c.tables) rows;
          whole =
              Permᴰ.trans
                (Permᴰ.append_right (delete_where (wanted q c.tables) rows)
                  (Perm-order_by (in_order q.sort) (filter (wanted q c.tables) rows)))
                (Perm-parts (wanted q c.tables) rows);
          found = All-order_by _ (in_order q.sort) _ (
              All-map (λ r k. where-Priced floats fts c.tables q _ r k) _
                (All-filter_fits (wanted q c.tables) rows));
          left =
              All-map (λ r k. ground (arith, k)) _
                (All-filter_fits (λ r. not (wanted q c.tables r)) rows);
          sorted =
              Apart-ordered (in_order q.sort) (Sorted q.sort) (in_order-fits q.sort)
                (in_order-turns q.sort) (Sorted-trans q.sort) _;
          shown = items;
          total = total ∙ sym (length-order_by (in_order q.sort) (filter (wanted q c.tables) rows));
        },
        tables-search is_whitespace is_alphanumeric floats fts describe q c,
      )
