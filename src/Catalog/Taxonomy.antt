-- ===== src/Catalog/Taxonomy.antt =====
-- `TaxonomyRepo` of crates/catalog/src/repository.rs: categories, attributes, options, filters and
-- the translations of their names.
pub mod Attributes
use tiny_shop.Prelude.{
  String, Bool, true, false, not, ◌&&◌, ◌||◌, Option, none, some, List, [], ◌∷◌, ◌++◌, ◌==◌,
  string_eq, option_eq, map, filter, find?, any, update_where, order_by, if◌then◌else◌,
}
use tiny_shop.Prelude.Int.{ℤ, pos, int_eq}
use tiny_shop.Sql.{SqlError, constraint, Result, ok, err, Tx, Db, transaction, query}
use tiny_shop.Shared.{as_str, parse}
use tiny_shop.Product.Repo.{text_leb}
use tiny_shop.Product.Extras.Reads.{placed_before}
use tiny_shop.Catalog.{
  Lang, Category, Attribute, AttributeOption, Filter, AttributeRow, FilterRow, Translation,
  CatalogTables, lang_str, filter_type_str, parse_filter_type,
}

pub data TaxonomyError : Type 0 where
  db : SqlError → TaxonomyError
  invalid_enum : String → String → TaxonomyError

-- COALESCE(parent_id, '')
abbrev pub parent_key : Option String → String
parent_key none = ""
parent_key (some id) = id

-- The columns of `categories_parent_slug`.
abbrev pub same_place : Category → Category → Bool
same_place c r = parent_key r.parent_id == parent_key c.parent_id && r.slug == c.slug

abbrev pub is_category : String → Category → Bool
is_category id r = r.id == id

abbrev pub is_attribute : String → AttributeRow → Bool
is_attribute id r = r.id == id

-- The primary key of `translations`.
abbrev pub translation_of : String → String → String → String → Translation → Bool
translation_of entity_type entity_id lang field r =
    (r.entity_type == entity_type && r.entity_id == entity_id)
    && (r.lang == lang && r.field == field)

-- The CHECKs of `translations`.
abbrev pub translatable : String → String → Bool
translatable entity_type field =
    (entity_type == "category" || (entity_type == "attribute" || entity_type == "attribute_option"))
    && (field == "name" || field == "value")

-- COALESCE(t.value, canon) over the LEFT JOIN.
unfoldable pub resolve : List Translation → String → String → Lang → String → String → String
unfolding lang_str
resolve ts entity_type entity_id lang field canonical =
    elim (find? (translation_of entity_type entity_id (lang_str lang) field) ts) [
      | some r ↦ r.value
      | none ↦ canonical
    ]

-- A boolean as an INTEGER column.
abbrev pub from_bool : Bool → ℤ
from_bool true = pos 1
from_bool false = pos 0

unfoldable pub attribute_from_row : AttributeRow → Result TaxonomyError Attribute
unfolding parse
attribute_from_row r = elim (parse r.data_type) [
  | none ↦ err (invalid_enum "data_type" r.data_type)
  | some data_type ↦ ok (record {
    id = r.id;
    category_id = r.category_id;
    name = r.name;
    data_type = data_type;
    unit = r.unit;
    is_required = not (r.is_required == pos 0);
    position = r.position;
  })
]

unfoldable pub filter_from_row : FilterRow → Result TaxonomyError Filter
unfolding parse_filter_type
filter_from_row r = elim (parse_filter_type r.filter_type) [
  | none ↦ err (invalid_enum "filter_type" r.filter_type)
  | some filter_type ↦ ok (record {
    id = r.id;
    category_id = r.category_id;
    attribute_id = r.attribute_id;
    filter_type = filter_type;
    position = r.position;
  })
]

-- `rows.into_iter().map(f).collect()`
unfoldable pub collect :
    {A B : Type 0} → (A → Result TaxonomyError B) → List A → Result TaxonomyError (List B)
collect f [] = ok []
collect f (a ∷ as') =
    let rest = collect f as' in
    elim (f a) [ err e ↦ err e | ok b ↦ elim rest [ ok bs ↦ ok (b ∷ bs) | err e ↦ err e ] ]

-- Each list stands in the order of `position`, and of `id` where positions are equal.
abbrev pub category_before : Category → Category → Bool
category_before r s = placed_before r.position r.id s.position s.id

abbrev pub attribute_before : AttributeRow → AttributeRow → Bool
attribute_before r s = placed_before r.position r.id s.position s.id

abbrev pub option_before : AttributeOption → AttributeOption → Bool
option_before r s = placed_before r.position r.id s.position s.id

abbrev pub filter_before : FilterRow → FilterRow → Bool
filter_before r s = placed_before r.position r.id s.position s.id

abbrev by_path : Category → Category → Bool
by_path r s = text_leb r.path s.path

module _ (F : Type 0) where
  abbrev pub Tables : Type 0
  Tables = CatalogTables F

  -- Whether the row that `parent_id` references exists, or is the new row itself.
  abbrev has_parent : Category → Tables → Bool
  has_parent c t = elim c.parent_id [
    | none ↦ true
    | some id ↦ id == c.id || any (is_category id) t.categories
  ]

  unfoldable pub create_category : Category → Db TaxonomyError Tables (Unit {0})
  create_category c = transaction db λ t.
      if any (is_category c.id) t.categories
      then err (db (constraint "UNIQUE categories.id"))
      else if any (λ (r : Category). r.path == c.path) t.categories
      then err (db (constraint "UNIQUE categories.path"))
      else if any (same_place c) t.categories
      then err (db (constraint "UNIQUE categories_parent_slug"))
      else if not (has_parent c t)
      then err (db (constraint "FOREIGN KEY"))
      else ok (tt, record t { categories = t.categories ++ c ∷ [] })

  -- A category with its name in the language asked for.
  abbrev pub named : Lang → Tables → Category → Category
  named lang t c = record c { name = resolve t.translations "category" c.id lang "name" c.name }

  abbrev named_if : Lang → Tables → Option Category → Option Category
  named_if lang t none = none
  named_if lang t (some c) = some (named lang t c)

  unfoldable pub get_category : String → Lang → Db TaxonomyError Tables (Option Category)
  unfolding resolve
  get_category id lang = query db λ t. ok (named_if lang t (find? (is_category id) t.categories))

  unfoldable pub get_category_by_path : String → Lang → Db TaxonomyError Tables (Option Category)
  unfolding resolve
  get_category_by_path path lang =
      query db λ t. ok (named_if lang t (find? (λ (r : Category). r.path == path) t.categories))

  abbrev first : {A : Type 0} → List A → Option A
  first [] = none
  first (a ∷ as') = some a

  -- ORDER BY path LIMIT 1
  unfoldable pub get_category_by_slug : String → Lang → Db TaxonomyError Tables (Option Category)
  unfolding resolve
  get_category_by_slug slug lang = query db λ t. ok (
      named_if lang t
        (first (order_by by_path (filter (λ (r : Category). r.slug == slug) t.categories))))

  -- WHERE parent_id = ?, or IS NULL.
  abbrev pub child_of : Option String → Category → Bool
  child_of parent_id r = r.parent_id == parent_id

  unfoldable pub list_categories_by_parent :
      Option String → Lang → Db TaxonomyError Tables (List Category)
  unfolding resolve
  list_categories_by_parent parent_id lang = query db λ t.
      ok (map (named lang t) (order_by category_before (filter (child_of parent_id) t.categories)))
