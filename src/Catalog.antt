-- ===== src/Catalog.antt =====
-- crates/catalog/src/lib.rs and taxonomy.rs, and the tables of migrations/catalog/0002_taxonomy.sql
-- and 0003_projection.sql. The type of floating-point numbers is a parameter of what has them. The
-- text of a search is the list of its characters' code points.
pub mod Mirror
pub mod Projection
pub mod Search
pub mod Taxonomy
mod Tests
use tiny_shop.Prelude.{ℕ, String, Bool, Option, none, some, List, ◌==◌, string_eq, if◌then◌else◌}
use tiny_shop.Prelude.Int.{ℤ}
use tiny_shop.Shared.{DataType}
use tiny_shop.Shared.Pages.{Pagination}

pub data Lang : Type 0 where
  uk ru : Lang

unfoldable pub lang_str : Lang → String
lang_str uk = "uk"
lang_str ru = "ru"

pub record Category : Type 0 where
  pub id : String
  pub parent_id : Option String
  pub name : String
  pub slug : String
  pub path : String
  pub position : ℤ

pub record Attribute : Type 0 where
  pub id : String
  pub category_id : String
  pub name : String
  pub data_type : DataType
  pub unit : Option String
  pub is_required : Bool
  pub position : ℤ

pub record AttributeOption : Type 0 where
  pub id : String
  pub attribute_id : String
  pub value : String
  pub position : ℤ

pub data FilterType : Type 0 where
  checkbox_or enum_and string number range_price range_generic : FilterType

unfoldable pub filter_type_str : FilterType → String
filter_type_str checkbox_or = "checkbox_or"
filter_type_str enum_and = "enum_and"
filter_type_str string = "string"
filter_type_str number = "number"
filter_type_str range_price = "range_price"
filter_type_str range_generic = "range_generic"

unfoldable pub parse_filter_type : String → Option FilterType
parse_filter_type s =
    if s == "checkbox_or"
    then some checkbox_or
    else if s == "enum_and"
    then some enum_and
    else if s == "string"
    then some string
    else if s == "number"
    then some number
    else if s == "range_price"
    then some range_price
    else if s == "range_generic"
    then some range_generic
    else none

pub record Filter : Type 0 where
  pub id : String
  pub category_id : String
  pub attribute_id : String
  pub filter_type : FilterType
  pub position : ℤ

pub data FilterCond (F : Type 0) : Type 0 where
  checkbox_or : String → List String → FilterCond F
  enum_and : String → List String → FilterCond F
  number : String → F → FilterCond F
  range_generic : String → Option F → Option F → FilterCond F
  range_price : Option ℤ → Option ℤ → FilterCond F

pub data Sort : Type 0 where
  relevance price_asc price_desc newest : Sort

pub record SearchQuery (F : Type 0) : Type 0 where
  pub text : Option (List ℕ)
  pub category_id : Option String
  pub filters : List (FilterCond F)
  pub sort : Sort
  pub page : Pagination

pub record ProductCard : Type 0 where
  pub product_id : String
  pub title : String
  pub slug : String
  pub price_minor : ℤ
  pub currency : String
  pub thumb : Option String

pub record ProductView : Type 0 where
  pub id : String
  pub seller_id : String
  pub title : String
  pub slug : String
  pub description : String
  pub price_minor : ℤ
  pub currency : String
  pub status : String
  pub category_id : Option String
  pub thumb : Option String

pub record Facet : Type 0 where
  pub attribute_id : String
  pub options : List (String × ℕ)

pub record SearchResult : Type 0 where
  pub items : List ProductCard
  pub total : ℕ
  pub facets : List Facet

pub record ProductDoc : Type 0 where
  pub product_id : String
  pub category_id : String
  pub title : String
  pub description : String
  pub price_minor : ℤ
  pub currency : String
  pub slug : String
  pub attrs_text : String

pub data SearchError : Type 0 where
  backend : String → SearchError

-- The rows whose columns are texts where the types above have enums and Booleans.
pub record AttributeRow : Type 0 where
  pub id : String
  pub category_id : String
  pub name : String
  pub data_type : String
  pub unit : Option String
  pub is_required : ℤ
  pub position : ℤ

pub record FilterRow : Type 0 where
  pub id : String
  pub category_id : String
  pub attribute_id : String
  pub filter_type : String
  pub position : ℤ

pub record Translation : Type 0 where
  pub entity_type : String
  pub entity_id : String
  pub lang : String
  pub field : String
  pub value : String

pub record ProjectionRow : Type 0 where
  pub id : String
  pub seller_id : String
  pub title : String
  pub slug : String
  pub description : String
  pub price_minor : ℤ
  pub currency : String
  pub status : String
  pub category_id : Option String
  pub thumb : Option String
  pub created_at : ℤ
  pub updated_at : ℤ

pub record IndexRow (F : Type 0) : Type 0 where
  pub product_id : String
  pub category_id : String
  pub attribute_id : String
  pub val_text : Option String
  pub val_num : Option F

pub record FtsRow : Type 0 where
  pub product_id : String
  pub title : String
  pub description : String
  pub attrs : String

pub record CatalogTables (F : Type 0) : Type 0 where
  pub categories : List Category
  pub attributes : List AttributeRow
  pub attribute_options : List AttributeOption
  pub filters : List FilterRow
  pub translations : List Translation
  pub product_projection : List ProjectionRow
  pub product_attr_index : List (IndexRow F)
  pub product_fts : List FtsRow
