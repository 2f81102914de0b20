-- ===== src/Catalog/Search/Results.antt =====
-- What `search` of crates/catalog/src/search.rs returns.
use tiny_shop.Prelude.{
  ℕ, String, ◌≡◌, refl, ap, ◌∙◌, Bool, true, false, List, [], arith, ◌==◌, nat_eq, string_eq, map,
  length, Bool-cases, inl, inr,
}
use tiny_shop.Sql.{SqlError, Result, ok, err, Conn, query}
use tiny_shop.Sql.Laws.{query-eq-ok, tables-query, Result-cases}
use tiny_shop.Catalog.{SearchQuery, SearchError, ProjectionRow, FtsRow, CatalogTables}
use tiny_shop.Catalog.Search.{Floats}
use tiny_shop.Catalog.Search.Adapter.{
  be, card_of, selection, page_rows, nothing_found, count_results, search,
}

module _ (is_whitespace is_alphanumeric : ℕ → Bool) {F : Type 0} (floats : Floats F)
    (fts : List ℕ → FtsRow → Bool) (describe : SqlError → String) where
  module _ (q : SearchQuery F) (c : Conn (CatalogTables F)) where
    abbrev pub counted_in : Conn (CatalogTables F)
    counted_in = (count_results is_whitespace is_alphanumeric floats fts describe q c).1

    abbrev pub paged : Result SearchError (List ProjectionRow) × Conn (CatalogTables F)
    paged =
        query (be describe)
          (λ t. ok (page_rows is_whitespace is_alphanumeric floats fts describe q t)) counted_in

    pub search_uncounted :
        (e : SearchError)
        → (count_results is_whitespace is_alphanumeric floats fts describe q c).0 ≡ err e
        → search is_whitespace is_alphanumeric floats fts describe q c ≡ (err e, counted_in)
    unfolding search
    search_uncounted e h = rw (h, search) refl

    pub search_nothing :
        (n : ℕ)
        → (count_results is_whitespace is_alphanumeric floats fts describe q c).0 ≡ ok n
        → (n == 0) ≡ true
        → search is_whitespace is_alphanumeric floats fts describe q c
          ≡ (ok nothing_found, counted_in)
    unfolding search
    search_nothing n h z = rw (h, z, search) refl

    pub search_unpaged :
        (n : ℕ) (e : SearchError)
        → (count_results is_whitespace is_alphanumeric floats fts describe q c).0 ≡ ok n
        → (n == 0) ≡ false
        → paged.0 ≡ err e
        → search is_whitespace is_alphanumeric floats fts describe q c ≡ (err e, paged.1)
    unfolding search
    search_unpaged n e h z k = rw (h, z, k, search) refl

    pub search_page :
        (n : ℕ) (rows : List ProjectionRow)
        → (count_results is_whitespace is_alphanumeric floats fts describe q c).0 ≡ ok n
        → (n == 0) ≡ false
        → paged.0 ≡ ok rows
        → search is_whitespace is_alphanumeric floats fts describe q c
          ≡ (ok (record { items = map card_of rows; total = n; facets = [] }), paged.1)
    unfolding search
    search_page n rows h z k = rw (h, z, k, search) refl

    pub counted-tables : counted_in.tables ≡ c.tables
    unfolding count_results
    counted-tables = tables-query (be describe) _ c

    pub count_results-ok :
        (n : ℕ)
        → (count_results is_whitespace is_alphanumeric floats fts describe q c).0 ≡ ok n
        → length (selection is_whitespace is_alphanumeric floats fts describe q c.tables) ≡ n
    unfolding count_results
    count_results-ok n h =
        let e =
          query-eq-ok (be describe)
            (λ t. ok (length (selection is_whitespace is_alphanumeric floats fts describe q t))) c n
            h in
        ground (arith, e)

  -- A search changes no table.
  pub tables-search :
      (q : SearchQuery F) (c : Conn (CatalogTables F))
      → (search is_whitespace is_alphanumeric floats fts describe q c).1.tables ≡ c.tables
  tables-search q c =
      elim (Result-cases (count_results is_whitespace is_alphanumeric floats fts describe q c).0) [
        | inr (e, bad) ↦ ap (λ o. o.1.tables) (search_uncounted q c e bad) ∙ counted-tables q c
        | inl (n, good) ↦
            let paged_tables = tables-query (be describe) _ (counted_in q c) ∙ counted-tables q c in
            elim (Bool-cases (n == 0)) [
              | inl z ↦ ap (λ o. o.1.tables) (search_nothing q c n good z) ∙ counted-tables q c
              | inr z ↦ elim (Result-cases (paged q c).0) [
                | inr (e, bad) ↦
                    ap (λ o. o.1.tables) (search_unpaged q c n e good z bad) ∙ paged_tables
                | inl (rows, fine) ↦
                    ap (λ o. o.1.tables) (search_page q c n rows good z fine) ∙ paged_tables
              ]
            ]
      ]
