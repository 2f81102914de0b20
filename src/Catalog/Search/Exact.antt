-- ===== src/Catalog/Search/Exact.antt =====
-- `search` of crates/catalog/src/search.rs, row for row.
use tiny_shop.Prelude.{
  ℕ, String, ◌≡◌, refl, sym, ap, ◌∙◌, subst, Bool, List, [], ◌∷◌, zero, suc, arith, ◌==◌, ==_iff,
  nat_eq, map, order_by, take, drop, length, Bool-cases, inl, inr,
}
use tiny_shop.Sql.{SqlError, ok, err, Conn}
use tiny_shop.Sql.Laws.{query-eq-ok, Result-cases}
use tiny_shop.Shared.Pages.{clamp, max_limit}
use tiny_shop.Catalog.{SearchQuery, SearchResult, SearchError, ProjectionRow, FtsRow, CatalogTables}
use tiny_shop.Catalog.Search.{Floats}
use tiny_shop.Catalog.Search.Adapter.{
  be, card_of, in_order, selection, page_rows, nothing_found, count_results, search,
}
use tiny_shop.Catalog.Search.Promises.{result, refused}
use tiny_shop.Catalog.Search.Results.{
  counted_in, paged, search_uncounted, search_nothing, search_unpaged, search_page, counted-tables,
  count_results-ok,
}

no_rows : {A : Type 0} (xs : List A) → length xs ≡ 0 → xs ≡ []
no_rows [] h = refl
no_rows (x ∷ xs) h = absurd (omega arith)

none_of : {A : Type 0} (n m : ℕ) → ◌≡◌ {A = List A} (take n (drop m [])) []
none_of zero zero = refl
none_of zero (suc m) = refl
none_of (suc n) zero = refl
none_of (suc n) (suc m) = refl

module _ (is_whitespace is_alphanumeric : ℕ → Bool) {F : Type 0} (floats : Floats F)
    (fts : List ℕ → FtsRow → Bool) (describe : SqlError → String) where
  abbrev rows_of : SearchQuery F → CatalogTables F → List ProjectionRow
  rows_of = page_rows is_whitespace is_alphanumeric floats fts describe

  abbrev all_of : SearchQuery F → CatalogTables F → List ProjectionRow
  all_of = selection is_whitespace is_alphanumeric floats fts describe

  -- Where nothing is selected, the page is empty.
  page_rows-nothing : (q : SearchQuery F) (t : CatalogTables F) → all_of q t ≡ [] → rows_of q t ≡ []
  unfolding page_rows order_by
  page_rows-nothing q t h =
      ap
        (λ xs.
          take (clamp q.page.limit 1 max_limit)
            (drop q.page.offset (order_by (in_order q.sort) xs)))
        h
      ∙ none_of (clamp q.page.limit 1 max_limit) q.page.offset

  -- The cards and the total are those of the tables.
  abbrev IsExact : SearchQuery F → CatalogTables F → SearchResult → Type 0
  IsExact q t a = (a.items ≡ map card_of (rows_of q t)) × (a.total ≡ length (all_of q t))

  nothing-IsExact :
      (q : SearchQuery F) (t : CatalogTables F)
      → length (all_of q t) ≡ 0
      → IsExact q t nothing_found
  nothing-IsExact q t none_found = (
    ap (map card_of) (sym (page_rows-nothing q t (no_rows (all_of q t) none_found))),
    sym none_found,
  )

  page-IsExact :
      (q : SearchQuery F) (c : Conn (CatalogTables F)) (rows : List ProjectionRow)
      → (paged is_whitespace is_alphanumeric floats fts describe q c).0 ≡ ok rows
      → IsExact q c.tables
          (record { items = map card_of rows; total = length (all_of q c.tables); facets = [] })
  page-IsExact q c rows fine =
      let read = result (
        query-eq-ok (be describe) (λ t. ok (rows_of q t))
          (counted_in is_whitespace is_alphanumeric floats fts describe q c) rows fine) in
      (
        ap (map card_of) (
            sym read
            ∙ ap (rows_of q)
                (counted-tables is_whitespace is_alphanumeric floats fts describe q c)),
        refl,
      )

  answered :
      (q : SearchQuery F) (c : Conn (CatalogTables F)) (a b : SearchResult)
      (c' : Conn (CatalogTables F))
      → (search is_whitespace is_alphanumeric floats fts describe q c).0 ≡ ok a
      → search is_whitespace is_alphanumeric floats fts describe q c ≡ (ok b, c')
      → b ≡ a
  answered q c a b c' h s = result (sym (ap (λ o. o.0) s) ∙ h)

  failed :
      (q : SearchQuery F) (c : Conn (CatalogTables F)) (a : SearchResult) (e : SearchError)
      (c' : Conn (CatalogTables F))
      → (search is_whitespace is_alphanumeric floats fts describe q c).0 ≡ ok a
      → search is_whitespace is_alphanumeric floats fts describe q c ≡ (err e, c')
      → IsExact q c.tables a
  failed q c a e c' h s = absurd (refused (sym (ap (λ o. o.0) s) ∙ h))

  -- A successful `search` gives the cards of the rows of its page, and counts what it selects from.
  pub search-IsExact :
      (q : SearchQuery F) (c : Conn (CatalogTables F)) (a : SearchResult)
      → (search is_whitespace is_alphanumeric floats fts describe q c).0 ≡ ok a
      → (a.items ≡ map card_of (rows_of q c.tables)) × (a.total ≡ length (all_of q c.tables))
  search-IsExact q c a h =
      elim (Result-cases (count_results is_whitespace is_alphanumeric floats fts describe q c).0) [
        | inr (e, bad) ↦
            failed q c a e _ h
              (search_uncounted is_whitespace is_alphanumeric floats fts describe q c e bad)
        | inl (n, good) ↦
            let many =
              count_results-ok is_whitespace is_alphanumeric floats fts describe q c n good in
            elim (Bool-cases (n == 0)) [
              | inl z ↦
                  subst (IsExact q c.tables)
                    (answered q c a nothing_found _ h (
                      search_nothing is_whitespace is_alphanumeric floats fts describe q c n good
                        z))
                    (nothing-IsExact q c.tables (many ∙ (==_iff n 0).0 z))
              | inr z ↦
                  elim (Result-cases
                    (paged is_whitespace is_alphanumeric floats fts describe q c).0) [
                      | inr (e, bad) ↦ failed q c a e _ h (
                          search_unpaged is_whitespace is_alphanumeric floats fts describe q c n e
                            good z bad)
                      | inl (rows, fine) ↦
                          subst (IsExact q c.tables)
                            (ap (λ n. record { items = map card_of rows; total = n; facets = [] })
                                many
                              ∙ answered q c a
                                  (record { items = map card_of rows; total = n; facets = [] }) _ h
                                  (search_page is_whitespace is_alphanumeric floats fts describe q c
                                    n rows good z fine))
                            (page-IsExact q c rows fine)
                    ]
            ]
      ]
