-- ===== src/Web/Category/Paging.antt =====
-- The pages of a category in crates/web/src/routes/category.rs.
use tiny_shop.Prelude.{
  ℕ, ◌+◌, ◌-◌, ◌*◌, ◌≤◌, min, String, ◌≡◌, sym, ap, ◌∙◌, List, map, arith, order_by, take, drop,
  length, ltb, length-map, length-take, length-drop,
}
use tiny_shop.Prelude.Rows.Ordered.{length-order_by}
use tiny_shop.Sql.{ok, Conn}
use tiny_shop.Shared.Pages.{default_limit, clamped, clamp, max_limit}
use tiny_shop.Catalog.{FilterCond, ProjectionRow, relevance, SearchResult, CatalogTables}
use tiny_shop.Catalog.Search.{push_where}
use tiny_shop.Catalog.Search.Adapter.{card_of, in_order, selection, page_rows, search}
use tiny_shop.Catalog.Search.Exact.{search-IsExact}
use tiny_shop.Web.Pages.{Setting}
use tiny_shop.Web.Category.Filters.{Numbers}
use tiny_shop.Web.Category.{u32_max, page_of, query_for, has_next}

more_behind :
    (offset shown page total all : ℕ)
    → offset ≡ (page - 1) * default_limit
    → shown ≡ min default_limit (all - (page - 1) * default_limit)
    → total ≡ all
    → 1 ≤ page
    → ltb (offset + shown) total ≡ ltb (page * default_limit) all
more_behind offset shown page total all ho hs ht hp = ground arith

module _ {F : Type 0} (setting : Setting F) (numbers : Numbers F)
    (encode_qs : String → String) where
  open setting use {shown, is_whitespace, is_alphanumeric, floats, fts}

  -- All rows of a category that meet the conditions, the newest first.
  abbrev pub rows : String → List (FilterCond F) → CatalogTables F → List ProjectionRow
  rows category_id conds t = order_by (in_order relevance) (
      selection is_whitespace is_alphanumeric floats fts shown.sql
        (query_for setting numbers encode_qs category_id conds 1) t)

  page_of-offset :
      (page : ℕ)
      → page * default_limit ≤ u32_max
      → (page_of page).offset ≡ (page - 1) * default_limit
  unfolding page_of clamped
  page_of-offset page h = omega arith

  page_of-limit : (page : ℕ) → clamp (page_of page).limit 1 max_limit ≡ default_limit
  unfolding page_of clamped
  page_of-limit page = ground arith

  -- The page with number `page`, from 1 on, shows the rows that stand there when all rows of the
  -- category are cut into pages of 24, and it says that there is a next page exactly where rows are
  -- left behind it. This is so for every page whose end is within `u32`.
  pub page_lem :
      (category_id : String) (conds : List (FilterCond F)) (page : ℕ) (c : Conn (CatalogTables F))
      (a : SearchResult)
      → 1 ≤ page
      → page * default_limit ≤ u32_max
      → (search is_whitespace is_alphanumeric floats fts shown.sql
          (query_for setting numbers encode_qs category_id conds page)
          c).0
        ≡ ok a
      → (a.items
          ≡ map card_of (
              take default_limit
                (drop ((page - 1) * default_limit) (rows category_id conds c.tables))))
        × (has_next setting numbers encode_qs page a
            ≡ ltb (page * default_limit) (length (rows category_id conds c.tables)))
  unfolding page_rows selection push_where
  page_lem category_id conds page c a first fit h =
      let (items, total) =
        search-IsExact is_whitespace is_alphanumeric floats fts shown.sql
          (query_for setting numbers encode_qs category_id conds page) c a h in
      let all = rows category_id conds c.tables in
      let start = (page - 1) * default_limit in
      let shown_rows =
        items
        ∙ ap (λ n. map card_of (take n (drop (page_of page).offset all))) (page_of-limit page)
        ∙ ap (λ n. map card_of (take default_limit (drop n all))) (page_of-offset page fit) in
      (
        shown_rows,
        more_behind (page_of page).offset (length a.items) page a.total (length all)
            (page_of-offset page fit)
            (ap length shown_rows
              ∙ length-map card_of (take default_limit (drop start all))
              ∙ length-take default_limit (drop start all)
              ∙ ap (min default_limit) (length-drop start all))
            (total
              ∙ sym (
                  length-order_by (in_order relevance) (
                    selection is_whitespace is_alphanumeric floats fts shown.sql
                      (query_for setting numbers encode_qs category_id conds 1) c.tables)))
            first,
      )
