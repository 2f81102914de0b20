-- ===== src/Catalog/Search/Promises.antt =====
-- What the conditions and the order of a search in crates/catalog/src/search.rs promise of a row.
use tiny_shop.Prelude.{
  ℕ, ◌≡◌, refl, sym, ◌∙◌, Bool, true, false, ◌&&◌, Option, none, some, List, [], ◌∷◌, ◌++◌, arith,
  ==_iff, nat_eq, string_eq, All,
}
use tiny_shop.Prelude.Int.{ℤ, ◌≤ℤ◌}
use tiny_shop.Sql.{Result, ok, err}
use tiny_shop.Catalog.{
  FilterCond, Sort, relevance, price_asc, price_desc, newest, SearchQuery, ProjectionRow, FtsRow,
  CatalogTables,
}
use tiny_shop.Catalog.Search.{
  Floats, Cond, bound, fts_match, in_category, push_filter_cond, push_filters, push_where, fits,
  fits_all,
}
use tiny_shop.Catalog.Search.Adapter.{in_order}

-- The bounds of a price that are given.
abbrev pub Within : Option ℤ → Option ℤ → ℤ → Type 0
Within none none x = Unit {0}
Within (some a) none x = a ≤ℤ x
Within none (some b) x = x ≤ℤ b
Within (some a) (some b) x = (a ≤ℤ x) × (x ≤ℤ b)

-- What a filter asks of a price.
abbrev pub Priced : {F : Type 0} → FilterCond F → ProjectionRow → Type 0
Priced (FilterCond.range_price a b) r = Within a b r.price_minor
Priced _ r = Unit {0}

-- What each order promises of an earlier and a later row.
abbrev pub Sorted : Sort → ProjectionRow → ProjectionRow → Type 0
Sorted price_asc r s = r.price_minor ≤ℤ s.price_minor
Sorted price_desc r s = s.price_minor ≤ℤ r.price_minor
Sorted newest r s = s.created_at ≤ℤ r.created_at
Sorted relevance r s = s.created_at ≤ℤ r.created_at

pub in_order-fits : (k : Sort) (r s : ProjectionRow) → in_order k r s ≡ true → Sorted k r s
in_order-fits price_asc r s h = ground arith
in_order-fits price_desc r s h = ground arith
in_order-fits newest r s h = ground arith
in_order-fits relevance r s h = ground arith

pub in_order-turns : (k : Sort) (r s : ProjectionRow) → in_order k r s ≡ false → Sorted k s r
in_order-turns price_asc r s h = ground arith
in_order-turns price_desc r s h = ground arith
in_order-turns newest r s h = ground arith
in_order-turns relevance r s h = ground arith

pub Sorted-trans : (k : Sort) (r s t : ProjectionRow) → Sorted k r s → Sorted k s t → Sorted k r t
Sorted-trans price_asc r s t p q = omega arith
Sorted-trans price_desc r s t p q = omega arith
Sorted-trans newest r s t p q = omega arith
Sorted-trans relevance r s t p q = omega arith

pub result : {E A : Type 0} {a b : A} → ◌≡◌ {A = Result E A} (ok a) (ok b) → a ≡ b
result h = cc

pub refused : {E A : Type 0} {e : E} {a : A} → ◌≡◌ {A = Result E A} (err e) (ok a) → ⊥
refused h = cc

both_left : (a b : Bool) → (a && b) ≡ true → a ≡ true
both_left true b h = refl
both_left false b h = h

both_right : (a b : Bool) → (a && b) ≡ true → b ≡ true
both_right true b h = h
both_right false b h = absurd (cc)

module _ {F : Type 0} (floats : Floats F) (fts : List ℕ → FtsRow → Bool) where
  pub fits_all-append :
      (t : CatalogTables F) (ks ls : List (Cond F)) (r : ProjectionRow)
      → fits_all floats fts t (ks ++ ls) r
        ≡ (fits_all floats fts t ks r && fits_all floats fts t ls r)
  unfolding fits_all
  fits_all-append t [] ls r = refl
  fits_all-append t (k ∷ ks) ls r = ground (arith, fits_all-append t ks ls r)

  cond-Priced :
      (t : CatalogTables F) (f : FilterCond F) (r : ProjectionRow)
      → fits_all floats fts t (push_filter_cond f) r ≡ true
      → Priced f r
  unfolding fits_all fits push_filter_cond
  cond-Priced t (FilterCond.range_price none none) r h = tt
  cond-Priced t (FilterCond.range_price (some a) none) r h = ground arith
  cond-Priced t (FilterCond.range_price none (some b)) r h = ground arith
  cond-Priced t (FilterCond.range_price (some a) (some b)) r h = ground arith
  cond-Priced t (FilterCond.checkbox_or a vs) r h = tt
  cond-Priced t (FilterCond.enum_and a vs) r h = tt
  cond-Priced t (FilterCond.number a v) r h = tt
  cond-Priced t (FilterCond.range_generic a mn mx) r h = tt

  filters-Priced :
      (t : CatalogTables F) (fs : List (FilterCond F)) (r : ProjectionRow)
      → fits_all floats fts t (push_filters fs) r ≡ true
      → All (λ f. Priced f r) fs
  unfolding push_filters
  filters-Priced t [] r h = tt
  filters-Priced t (f ∷ fs) r h =
      let e = fits_all-append t (push_filter_cond f) (push_filters fs) r in
      (cond-Priced t f r (ground (arith, e)), filters-Priced t fs r (ground (arith, e)))

  last_part :
      (t : CatalogTables F) (ks ls : List (Cond F)) (r : ProjectionRow)
      → fits_all floats fts t (ks ++ ls) r ≡ true
      → fits_all floats fts t ls r ≡ true
  last_part t ks ls r h = both_right _ _ (sym (fits_all-append t ks ls r) ∙ h)

  pub where-Priced :
      (t : CatalogTables F) (q : SearchQuery F) (term : Option (List ℕ)) (r : ProjectionRow)
      → fits_all floats fts t (push_where q term) r ≡ true
      → (r.status ≡ "published") × All (λ f. Priced f r) q.filters
  unfolding push_where fits_all fits
  where-Priced t q term r h = (
    (==_iff r.status "published").0 (both_left _ _ h),
    filters-Priced t q.filters r (
        last_part t (bound in_category q.category_id) (push_filters q.filters) r (
          last_part t (bound fts_match term)
            (bound in_category q.category_id ++ push_filters q.filters) r (both_right _ _ h))),
  )
