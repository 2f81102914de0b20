-- ===== src/Catalog/Search/EnumAnd.antt =====
-- The filter `EnumAnd` of crates/catalog/src/search.rs, over an index that holds one entry for each
-- product and attribute, as its primary key has it.
use tiny_shop.Prelude.{
  ℕ, suc, ◌≤◌, String, ◌≡◌, refl, ap, ◌∙◌, Bool, true, false, ◌&&◌, Option, List, [], ◌∷◌, ◌++◌,
  arith, ◌==◌, ==_iff, nat_eq, string_eq, option_eq, map, filter, length, length-map, All, All-map,
  Apart, filter_of_all_false, Bool-cases, inl, inr,
}
use tiny_shop.Sql.{SqlError, ok, Conn, fails}
use tiny_shop.Sql.Laws.{query_runs}
use tiny_shop.Catalog.{FilterCond, SearchQuery, ProjectionRow, IndexRow, FtsRow, CatalogTables}
use tiny_shop.Catalog.Search.{
  Floats, all_texts, bound, fts_match, in_category, chosen, distinct, push_filter_cond,
  push_filters, push_where, fits, fits_all,
}
use tiny_shop.Catalog.Search.Promises.{fits_all-append}
use tiny_shop.Catalog.Search.Results.{search_nothing}
use tiny_shop.Catalog.Search.Adapter.{be, selection, nothing_found, count_results, search}

All_of {ℓ κ} : {A : Type ℓ} (P : A → Type κ) → ((a : A) → P a) → (xs : List A) → All P xs
All_of P f [] = tt
All_of P f (x ∷ xs) = (f x, All_of P f xs)

distinct-le : (vs : List (Option String)) → distinct vs ≤ length vs
unfolding distinct
distinct-le [] = omega arith
distinct-le (v ∷ vs) = ground (arith, distinct-le vs)

module _ {F : Type 0} where
  abbrev pub OtherKey : IndexRow F → IndexRow F → Type 0
  OtherKey e f = (e.product_id == f.product_id && e.attribute_id == f.attribute_id) ≡ false

module _ {F : Type 0} (floats : Floats F) (fts : List ℕ → FtsRow → Bool) where
  abbrev picked : String → List String → String → IndexRow F → Bool
  picked a vs id e = chosen floats fts a vs id e

  one_chosen :
      (a : String) (vs : List String) (id : String) (e f : IndexRow F)
      → picked a vs id e ≡ true
      → OtherKey e f
      → picked a vs id f ≡ false
  one_chosen a vs id e f h k = ground (
    arith,
    ==_iff e.attribute_id a,
    ==_iff f.attribute_id a,
    ==_iff e.product_id id,
    ==_iff f.product_id id,
    ==_iff e.product_id f.product_id,
    ==_iff e.attribute_id f.attribute_id,
  )

  length-chosen :
      (a : String) (vs : List String) (id : String) (es : List (IndexRow F))
      → Apart OtherKey es
      → length (filter (picked a vs id) es) ≤ 1
  unfolding filter
  length-chosen a vs id [] k = omega arith
  length-chosen a vs id (e ∷ es) k = elim (Bool-cases (picked a vs id e)) [
    | inl h ↦
        rw
          (
            h,
            filter_of_all_false (picked a vs id) es
                (All-map (λ f q. one_chosen a vs id e f h q) es k.0),
          )
          (omega arith)
    | inr h ↦ rw h (length-chosen a vs id es k.1)
  ]

  all_texts-false :
      (t : CatalogTables F) (a : String) (vs : List String) (n : ℕ) (r : ProjectionRow)
      → Apart OtherKey t.product_attr_index
      → fits floats fts t (all_texts a vs (suc (suc n))) r ≡ false
  unfolding fits
  all_texts-false t a vs n r k =
      let rows = filter (picked a vs r.id) t.product_attr_index in
      ground (
        arith,
        length-chosen a vs r.id t.product_attr_index k,
        distinct-le (map (λ (e : IndexRow F). e.val_text) rows),
        length-map (λ (e : IndexRow F). e.val_text) rows,
      )

  and_left : (a b : Bool) → a ≡ false → (a && b) ≡ false
  and_left false b h = refl
  and_left true b h = absurd (cc)

  and_right : (a b : Bool) → b ≡ false → (a && b) ≡ false
  and_right false b h = refl
  and_right true b h = h

  fits_none :
      (t : CatalogTables F) (fs gs : List (FilterCond F)) (a v w : String) (vs : List String)
      (r : ProjectionRow)
      → Apart OtherKey t.product_attr_index
      → fits_all floats fts t (push_filters (fs ++ FilterCond.enum_and a (v ∷ w ∷ vs) ∷ gs)) r
        ≡ false
  unfolding push_filters push_filter_cond fits_all
  fits_none t [] gs a v w vs r k = and_left _ _ (all_texts-false t a (v ∷ w ∷ vs) (length vs) r k)
  fits_none t (f ∷ fs) gs a v w vs r k =
      fits_all-append floats fts t (push_filter_cond f)
        (push_filters (fs ++ FilterCond.enum_and a (v ∷ w ∷ vs) ∷ gs)) r
      ∙ and_right _ _ (fits_none t fs gs a v w vs r k)

  where_none :
      (t : CatalogTables F) (q : SearchQuery F) (term : Option (List ℕ))
      (fs gs : List (FilterCond F)) (a v w : String) (vs : List String) (r : ProjectionRow)
      → q.filters ≡ fs ++ FilterCond.enum_and a (v ∷ w ∷ vs) ∷ gs
      → Apart OtherKey t.product_attr_index
      → fits_all floats fts t (push_where q term) r ≡ false
  unfolding push_where fits_all
  where_none t q term fs gs a v w vs r e k = and_right _ _ (
      fits_all-append floats fts t (bound fts_match term)
        (bound in_category q.category_id ++ push_filters q.filters) r
      ∙ and_right _ _ (
          fits_all-append floats fts t (bound in_category q.category_id) (push_filters q.filters) r
          ∙ and_right _ _ (
              ap (λ l. fits_all floats fts t (push_filters l) r) e
              ∙ fits_none t fs gs a v w vs r k)))

module _ (is_whitespace is_alphanumeric : ℕ → Bool) {F : Type 0} (floats : Floats F)
    (fts : List ℕ → FtsRow → Bool) (describe : SqlError → String) where
  -- A query with an `EnumAnd` filter of two or more values finds nothing, whatever the products
  -- are and whatever its other conditions: the index has one entry for a product and an attribute.
  pub search-enum_and :
      (q : SearchQuery F) (c : Conn (CatalogTables F)) (fs gs : List (FilterCond F))
      (a v w : String) (vs : List String)
      → q.filters ≡ fs ++ FilterCond.enum_and a (v ∷ w ∷ vs) ∷ gs
      → Apart OtherKey c.tables.product_attr_index
      → fails c.faults ≡ false
      → (search is_whitespace is_alphanumeric floats fts describe q c).0 ≡ ok nothing_found
  unfolding count_results selection
  search-enum_and q c fs gs a v w vs e k quiet =
      let empty = filter_of_all_false _ c.tables.product_projection (
        All_of _ (λ r. where_none floats fts c.tables q _ fs gs a v w vs r e k)
          c.tables.product_projection) in
      ap (λ o. o.0)
        (search_nothing is_whitespace is_alphanumeric floats fts describe q c 0
          (ap (λ o. o.0) (query_runs (be describe) _ c 0 quiet (ap (λ l. ok (length l)) empty)))
          refl)
