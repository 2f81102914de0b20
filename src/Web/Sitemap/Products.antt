-- ===== src/Web/Sitemap/Products.antt =====
-- `product_paths` of crates/web/src/routes/sitemap.rs ends and leaves no product out.
use mathlib.Core.List.{map-map, map-append}
use tiny_shop.Prelude.{
  ℕ, zero, suc, ◌+◌, ◌*◌, ◌≤◌, String, ◌≡◌, refl, sym, ap, ◌∙◌, subst, Bool, true, false, ◌&&◌,
  some, List, [], ◌∷◌, ◌++◌, map, arith, ◌==◌, string_eq, leb, filter, order_by, take, drop, length,
  length-map, length-drop, length-take, take-append-drop, Bool-cases, inl, inr,
}
use tiny_shop.Prelude.Rows.Ordered.{length-order_by}
use tiny_shop.Sql.{Result, ok, err, Conn}
use tiny_shop.Sql.Laws.{Result-cases}
use tiny_shop.Shared.Pages.{max_limit}
use tiny_shop.Catalog.{
  ProjectionRow, relevance, SearchResult, SearchError, ProductCard, CatalogTables,
}
use tiny_shop.Catalog.Search.{push_where, push_filters, fits_all, fits}
use tiny_shop.Catalog.Search.Adapter.{card_of, in_order, selection, page_rows, search}
use tiny_shop.Catalog.Search.Results.{tables-search}
use tiny_shop.Catalog.Search.Exact.{search-IsExact}
use tiny_shop.Web.{WebError}
use tiny_shop.Web.Checkout.Routes.{from_search}
use tiny_shop.Web.Pages.{Setting}
use tiny_shop.Web.Sitemap.{
  u32_max, saturating_add, Ends, after, everything, product_path, product_loop, product_paths,
}

-- The rows that the shop shows, the newest first.
abbrev pub published : {F : Type 0} → CatalogTables F → List ProjectionRow
published t =
    order_by (in_order relevance) (filter (λ r. r.status == "published") t.product_projection)

filter_same :
    {A : Type 0} (p q : A → Bool) (xs : List A) → ((a : A) → p a ≡ q a) → filter p xs ≡ filter q xs
unfolding filter
filter_same p q [] h = refl
filter_same p q (x ∷ xs) h = ground (arith, h x, filter_same p q xs h)

and_true : (b : Bool) → (b && true) ≡ b
and_true true = refl
and_true false = refl

take_all : {A : Type 0} (n : ℕ) (xs : List A) → length xs ≤ n → take n xs ≡ xs
take_all zero [] h = refl
take_all zero (x ∷ xs) h = absurd (omega arith)
take_all (suc n) [] h = refl
take_all (suc n) (x ∷ xs) h = ap (λ ys. x ∷ ys) (take_all n xs (omega arith))

no_items : {A : Type 0} (xs : List A) → length xs ≡ 0 → xs ≡ []
no_items [] h = refl
no_items (x ∷ xs) h = absurd (omega arith)

drop_none : {A : Type 0} (n : ℕ) → ◌≡◌ {A = List A} (drop n []) []
drop_none zero = refl
drop_none (suc n) = refl

drop_at : {A : Type 0} (k m n : ℕ) (xs : List A) → k ≡ m + n → drop k xs ≡ drop n (drop m xs)
drop_at k zero n xs e = ap (λ j. drop j xs) (omega arith)
drop_at k (suc m) n [] e = drop_none k ∙ sym (drop_none n)
drop_at zero (suc m) n (x ∷ xs) e = absurd (omega arith)
drop_at (suc k) (suc m) n (x ∷ xs) e = drop_at k m n xs (omega arith)

module _ {F : Type 0} (setting : Setting F) where
  open setting use {shown, is_whitespace, is_alphanumeric, floats, fts}

  abbrev pub row_path : ProjectionRow → String
  row_path r = product_path setting (card_of r)

  -- The ways in which a loop may end: with an error, or with the whole list.
  pub data Listed (want : List String) : Ends setting → Type 0 where
    failed : (e : WebError) (c : Conn (CatalogTables F)) → Listed want (some (err e, c))
    complete : (c : Conn (CatalogTables F)) → Listed want (some (ok want, c))

  Listed-after :
      (paths want : List String) (r : Ends setting)
      → Listed want r
      → Listed (paths ++ want) (after setting paths r)
  Listed-after paths want _ (failed e c) = failed e c
  Listed-after paths want _ (complete c) = complete c

  selected :
      (offset : ℕ) (t : CatalogTables F)
      → selection is_whitespace is_alphanumeric floats fts shown.sql (everything setting offset) t
        ≡ filter (λ r. r.status == "published") t.product_projection
  unfolding selection push_where push_filters fits_all fits
  selected offset t = filter_same _ _ t.product_projection (λ r. and_true (r.status == "published"))

  module _ (fuel offset : ℕ) (c : Conn (CatalogTables F)) where
    abbrev searched : Result SearchError SearchResult × Conn (CatalogTables F)
    searched =
        search is_whitespace is_alphanumeric floats fts shown.sql (everything setting offset) c

    loop_failed :
        (e : SearchError)
        → searched.0 ≡ err e
        → product_loop setting (suc fuel) offset c ≡ some (err (from_search e), searched.1)
    unfolding product_loop
    loop_failed e h = rw (h, product_loop) refl

    loop_empty :
        (a : SearchResult)
        → searched.0 ≡ ok a
        → a.items ≡ []
        → product_loop setting (suc fuel) offset c ≡ some (ok [], searched.1)
    unfolding product_loop
    loop_empty a h k = rw (h, k, product_loop) refl

    loop_last :
        (a : SearchResult) (item : ProductCard) (items : List ProductCard)
        → searched.0 ≡ ok a
        → a.items ≡ item ∷ items
        → leb a.total (saturating_add offset max_limit) ≡ true
        → product_loop setting (suc fuel) offset c
          ≡ some (ok (map (product_path setting) (item ∷ items)), searched.1)
    unfolding product_loop
    loop_last a item items h k l = rw (h, k, l, product_loop) refl

    loop_more :
        (a : SearchResult) (item : ProductCard) (items : List ProductCard)
        → searched.0 ≡ ok a
        → a.items ≡ item ∷ items
        → leb a.total (saturating_add offset max_limit) ≡ false
        → product_loop setting (suc fuel) offset c
          ≡ after setting
              (map (product_path setting) (item ∷ items))
              (product_loop setting fuel (saturating_add offset max_limit) searched.1)
    unfolding product_loop
    loop_more a item items h k l = rw (h, k, l, product_loop) refl

  -- What a successful search at an offset gives.
  found :
      (offset : ℕ) (c : Conn (CatalogTables F)) (a : SearchResult)
      → (search is_whitespace is_alphanumeric floats fts shown.sql (everything setting offset) c).0
        ≡ ok a
      → (a.items ≡ map card_of (take max_limit (drop offset (published c.tables))))
        × (a.total ≡ length (published c.tables))
  unfolding page_rows
  found offset c a h =
      let (items, total) =
        search-IsExact is_whitespace is_alphanumeric floats fts shown.sql
          (everything setting offset) c a h in
      let sorted = ap (order_by (in_order relevance)) (selected offset c.tables) in
      (
        items ∙ ap (λ rs. map card_of (take max_limit (drop offset rs))) sorted,
        total
            ∙ sym (
                length-order_by (in_order relevance) (
                  selection is_whitespace is_alphanumeric floats fts shown.sql
                    (everything setting offset) c.tables))
            ∙ ap length sorted,
      )

  -- Every path of a page is that of a row.
  shown_paths :
      (a : SearchResult) (rows : List ProjectionRow)
      → a.items ≡ map card_of rows
      → map (product_path setting) a.items ≡ map row_path rows
  shown_paths a rows h =
      ap (map (product_path setting)) h ∙ map-map (product_path setting) card_of rows

  page_empty :
      (offset : ℕ) (a : SearchResult) (rows : List ProjectionRow)
      → a.items ≡ []
      → a.items ≡ map card_of (take max_limit (drop offset rows))
      → drop offset rows ≡ []
  page_empty offset a rows k h = no_items (drop offset rows) (
      omega (
        arith,
        length-map card_of (take max_limit (drop offset rows)),
        length-take max_limit (drop offset rows),
        ap length h,
        ap length k,
      ))

  page_last :
      (offset : ℕ) (rows : List ProjectionRow)
      → length rows ≤ offset + max_limit
      → take max_limit (drop offset rows) ≡ drop offset rows
  page_last offset rows h =
      take_all max_limit (drop offset rows) (omega (arith, length-drop offset rows))

  page_more :
      (offset : ℕ) (rows : List ProjectionRow)
      → map row_path (take max_limit (drop offset rows))
          ++ map row_path (drop (offset + max_limit) rows)
        ≡ map row_path (drop offset rows)
  page_more offset rows =
      ap (λ rs. map row_path (take max_limit (drop offset rows)) ++ map row_path rs)
        (drop_at (offset + max_limit) offset max_limit rows refl)
      ∙ sym (
          map-append row_path (take max_limit (drop offset rows))
            (drop max_limit (drop offset rows)))
      ∙ ap (map row_path) (take-append-drop max_limit (drop offset rows))

  abbrev wanted : ℕ → Conn (CatalogTables F) → List String
  wanted offset c = map row_path (drop offset (published c.tables))

  module _ (fuel offset : ℕ) (c : Conn (CatalogTables F)) (a : SearchResult)
      (h : (searched fuel offset c).0 ≡ ok a) (item : ProductCard) (items : List ProductCard)
      (k : a.items ≡ item ∷ items) where
    abbrev rest : Conn (CatalogTables F)
    rest = (searched fuel offset c).1

    page_paths :
        map (product_path setting) (item ∷ items)
        ≡ map row_path (take max_limit (drop offset (published c.tables)))
    page_paths = ap (map (product_path setting)) (sym k) ∙ shown_paths a _ (found offset c a h).0

    ends :
        length (published c.tables) ≤ offset + max_limit
        → leb a.total (saturating_add offset max_limit) ≡ true
        → Listed (wanted offset c) (product_loop setting (suc fuel) offset c)
    ends few l =
        subst (Listed (wanted offset c)) (sym (loop_last fuel offset c a item items h k l)) (
          subst (λ ps. Listed (wanted offset c) (some (ok ps, rest)))
            (sym (page_paths ∙ ap (map row_path) (page_last offset (published c.tables) few)))
            (complete rest))

    rest-tables : rest.tables ≡ c.tables
    rest-tables =
        tables-search is_whitespace is_alphanumeric floats fts shown.sql (everything setting offset)
          c

    goes_on :
        (next : ℕ)
        → next ≡ offset + max_limit
        → saturating_add offset max_limit ≡ next
        → leb a.total (saturating_add offset max_limit) ≡ false
        → Listed (wanted next rest) (product_loop setting fuel next rest)
        → Listed (wanted offset c) (product_loop setting (suc fuel) offset c)
    goes_on next e s l ih =
        let pages : map (product_path setting) (item ∷ items) ++ wanted next rest
            ≡ wanted offset c =
          ap (λ ps. ps ++ wanted next rest) page_paths
          ∙ ap
              (λ rs.
                map row_path (take max_limit (drop offset (published c.tables)))
                ++ map row_path (drop next rs))
              (ap published rest-tables)
          ∙ ap
              (λ n.
                map row_path (take max_limit (drop offset (published c.tables)))
                ++ map row_path (drop n (published c.tables)))
              e
          ∙ page_more offset (published c.tables) in
        subst (Listed (wanted offset c)) (sym (loop_more fuel offset c a item items h k l)) (
          subst
            (λ n. Listed (wanted offset c) (
              after setting (map (product_path setting) (item ∷ items))
                (product_loop setting fuel n rest)))
            (sym s)
            (subst
              (λ want. Listed want (
                after setting (map (product_path setting) (item ∷ items))
                  (product_loop setting fuel next rest)))
              pages
              (Listed-after (map (product_path setting) (item ∷ items)) (wanted next rest) _ ih)))

  -- The loop with this fuel ends from every offset for which it is enough.
  abbrev Fuelled : ℕ → Type 0
  Fuelled fuel =
      (offset : ℕ) (c : Conn (CatalogTables F))
      → length (published c.tables) ≤ u32_max
      → length (published c.tables) ≤ offset + fuel * max_limit
      → 1 ≤ fuel
      → Listed (wanted offset c) (product_loop setting fuel offset c)

  round :
      (fuel offset : ℕ) (c : Conn (CatalogTables F))
      → Fuelled fuel
      → length (published c.tables) ≤ u32_max
      → length (published c.tables) ≤ offset + suc fuel * max_limit
      → (a : SearchResult) (h : (searched fuel offset c).0 ≡ ok a) (items : List ProductCard)
      → a.items ≡ items
      → Listed (wanted offset c) (product_loop setting (suc fuel) offset c)
  round fuel offset c ih few enough a h [] k =
      subst (Listed (wanted offset c)) (sym (loop_empty fuel offset c a h k)) (
        subst (λ want. Listed want (some (ok [], (searched fuel offset c).1)))
          (sym
            (ap (map row_path) (page_empty offset a (published c.tables) k (found offset c a h).0)))
          (complete (searched fuel offset c).1))
  round fuel offset c ih few enough a h (item ∷ items) k =
      let total = (found offset c a h).1 in
      elim (Bool-cases (leb a.total (saturating_add offset max_limit))) [
        | inl l ↦ ends fuel offset c a h item items k (ground (arith, l, total)) l
        | inr l ↦
            let same =
              ap (λ t. length (published t)) (rest-tables fuel offset c a h item items k) in
            goes_on fuel offset c a h item items k (offset + max_limit) refl
              (ground (arith, l, total)) l
              (ih (offset + max_limit) (rest fuel offset c a h item items k) (omega (arith, same))
                (ground (arith, same, l, total)) (ground (arith, l, total)))
      ]

  loop_lem : (fuel : ℕ) → Fuelled fuel
  loop_lem zero offset c few enough some_fuel = absurd (omega arith)
  loop_lem (suc fuel) offset c few enough some_fuel =
      elim (Result-cases (searched fuel offset c).0) [
        | inr (e, h) ↦
            subst (Listed (wanted offset c)) (sym (loop_failed fuel offset c e h))
              (failed (from_search e) (searched fuel offset c).1)
        | inl (a, h) ↦ round fuel offset c (loop_lem fuel) few enough a h a.items refl
      ]

  -- With fuel for one page at least and for as many pages of 100 as the published products fill, and
  -- with no more of them than `u32::MAX`, the loop over the pages ends: with an error, or with the
  -- path of every published product in its place in the order by time, the newest first.
  pub product_paths-Listed :
      (fuel : ℕ) (c : Conn (CatalogTables F))
      → length (published c.tables) ≤ u32_max
      → length (published c.tables) ≤ fuel * max_limit
      → 1 ≤ fuel
      → Listed (map row_path (published c.tables)) (product_paths setting fuel c)
  unfolding product_paths
  product_paths-Listed fuel c few enough some_fuel = loop_lem fuel 0 c few (omega arith) some_fuel
