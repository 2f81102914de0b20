-- ===== src/Catalog/Search.antt =====
-- crates/catalog/src/search.rs: the conditions of a search. The SQL text that `push_where` builds is
-- the list of its conditions, in the order in which they are pushed, and `fits` is what SQLite makes
-- of one. The comparisons of floating-point numbers and the MATCH of FTS5 are parameters.
pub mod Terms
pub mod Adapter
pub mod Promises
pub mod Results
pub mod Exact
pub mod Answered
pub mod EnumAnd
use tiny_shop.Prelude.{
  ℕ, suc, String, Bool, true, false, not, ◌&&◌, ◌||◌, Option, none, some, List, [], ◌∷◌, ◌++◌, ◌==◌,
  string_eq, nat_eq, option_eq, map, filter, find?, any, update_where, delete_where, order_by, take,
  drop, length, leb, if◌then◌else◌,
}
use tiny_shop.Prelude.Int.{ℤ, leb_ℤ}
use tiny_shop.Catalog.{FilterCond, SearchQuery, ProjectionRow, IndexRow, FtsRow, CatalogTables}

-- The comparisons `=` and `<=` of REAL columns.
pub record Floats (F : Type 0) : Type 0 where
  pub eq : F → F → Bool
  pub le : F → F → Bool

-- A condition of the WHERE clause.
pub data Cond (F : Type 0) : Type 0 where
  is_published : Cond F
  fts_match : List ℕ → Cond F
  in_category : String → Cond F
  price_from : ℤ → Cond F
  price_to : ℤ → Cond F
  text_in : String → List String → Cond F
  all_texts : String → List String → ℕ → Cond F
  num_eq : String → F → Cond F
  num_between : String → Option F → Option F → Cond F

module _ {F : Type 0} where
  abbrev pub bound : {A : Type 0} → (A → Cond F) → Option A → List (Cond F)
  bound f none = []
  bound f (some a) = f a ∷ []

  -- The arms with the guard `!values.is_empty()` fall through to `_ => {}`.
  unfoldable pub push_filter_cond : FilterCond F → List (Cond F)
  push_filter_cond (FilterCond.range_price min_minor max_minor) =
      bound price_from min_minor ++ bound price_to max_minor
  push_filter_cond (FilterCond.checkbox_or attribute_id []) = []
  push_filter_cond (FilterCond.checkbox_or attribute_id (v ∷ vs)) =
      text_in attribute_id (v ∷ vs) ∷ []
  push_filter_cond (FilterCond.enum_and attribute_id []) = []
  push_filter_cond (FilterCond.enum_and attribute_id (v ∷ vs)) =
      all_texts attribute_id (v ∷ vs) (length (v ∷ vs)) ∷ []
  push_filter_cond (FilterCond.number attribute_id value) = num_eq attribute_id value ∷ []
  push_filter_cond (FilterCond.range_generic attribute_id min max) =
      num_between attribute_id min max ∷ []

  unfoldable pub push_filters : List (FilterCond F) → List (Cond F)
  unfolding push_filter_cond
  push_filters [] = []
  push_filters (f ∷ fs) = push_filter_cond f ++ push_filters fs

  unfoldable pub push_where : SearchQuery F → Option (List ℕ) → List (Cond F)
  unfolding push_filters
  push_where q fts_term =
      is_published
      ∷ (bound fts_match fts_term ++ (bound in_category q.category_id ++ push_filters q.filters))

abbrev pub mem : List String → String → Bool
mem vs v = any (λ w. w == v) vs

abbrev pub text_mem : List String → Option String → Bool
text_mem vs none = false
text_mem vs (some v) = mem vs v

-- How many different texts stand in the list: COUNT(DISTINCT val_text).
unfoldable pub distinct : List (Option String) → ℕ
distinct [] = 0
distinct (v ∷ vs) = let rest = distinct vs in if any (λ w. w == v) vs then rest else suc rest

module _ {F : Type 0} (floats : Floats F) (fts : List ℕ → FtsRow → Bool) where
  open floats use {eq, le}

  abbrev above : Option F → F → Bool
  above none x = true
  above (some mn) x = le mn x

  abbrev below : Option F → F → Bool
  below none x = true
  below (some mx) x = le x mx

  -- A comparison with NULL does not hold; with no bound, NULL is not compared.
  abbrev pub between : Option F → Option F → Option F → Bool
  between none none x = true
  between (some mn) mx none = false
  between none (some mx) none = false
  between mn mx (some x) = above mn x && below mx x

  abbrev pub num_is : F → Option F → Bool
  num_is value none = false
  num_is value (some x) = eq x value

  -- The rows of one product for one attribute whose text is among the values.
  abbrev pub chosen : String → List String → String → IndexRow F → Bool
  chosen attribute_id values product_id r =
      r.attribute_id == attribute_id && (text_mem values r.val_text && r.product_id == product_id)

  unfoldable pub fits : CatalogTables F → Cond F → ProjectionRow → Bool
  unfolding distinct
  fits t is_published r = r.status == "published"
  fits t (fts_match term) r = any (λ (d : FtsRow). d.product_id == r.id && fts term d) t.product_fts
  fits t (in_category category_id) r =
      any (λ (e : IndexRow F). e.product_id == r.id && e.category_id == category_id)
        t.product_attr_index
  fits t (price_from min) r = leb_ℤ min r.price_minor
  fits t (price_to max) r = leb_ℤ r.price_minor max
  fits t (text_in attribute_id values) r =
      any
        (λ (e : IndexRow F).
          e.product_id == r.id && (e.attribute_id == attribute_id && text_mem values e.val_text))
        t.product_attr_index
  -- GROUP BY product_id HAVING COUNT(DISTINCT val_text) = n: a product with no row has no group.
  fits t (all_texts attribute_id values n) r =
      let rows = filter (chosen attribute_id values r.id) t.product_attr_index in
      not (length rows == 0) && distinct (map (λ (e : IndexRow F). e.val_text) rows) == n
  fits t (num_eq attribute_id value) r =
      any
        (λ (e : IndexRow F).
          e.product_id == r.id && (e.attribute_id == attribute_id && num_is value e.val_num))
        t.product_attr_index
  fits t (num_between attribute_id min max) r =
      any
        (λ (e : IndexRow F).
          e.product_id == r.id && (e.attribute_id == attribute_id && between min max e.val_num))
        t.product_attr_index

  -- The conditions are joined by AND.
  unfoldable pub fits_all : CatalogTables F → List (Cond F) → ProjectionRow → Bool
  unfolding fits
  fits_all t [] r = true
  fits_all t (k ∷ ks) r = fits t k r && fits_all t ks r
