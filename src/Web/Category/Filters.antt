-- ===== src/Web/Category/Filters.antt =====
-- The filters of crates/web/src/routes/category.rs: from the query's pairs to the conditions of a
-- search and to the form. The parsing of numbers and the arithmetic on them are parameters; `raw` is
-- the query's pairs, in their order.
use Prim.Native.Nat.{max}
use tiny_shop.Prelude.{
  min, String, Bool, Option, none, some, List, [], ◌∷◌, ◌++◌, ◌==◌, string_eq, nat_eq, map, filter,
  find?, any, concat, if◌then◌else◌,
}
use tiny_shop.Prelude.Int.{ℤ}
use tiny_shop.Catalog.{uk, Attribute, AttributeOption, FilterType, Filter, FilterCond}
use tiny_shop.Catalog.Taxonomy.Attributes.{list_attributes_by_category, list_attribute_options}
use tiny_shop.Web.Strings.{is_empty, trim}
use tiny_shop.Web.Pages.{Setting, Reader, answer, asked, ◌>>=◌, from_taxonomy}

abbrev pub Pairs : Type 0
Pairs = List (String × String)

-- `parse::<f64>()`, `* 100.0`, and `.round() as i64`.
pub record Numbers (F : Type 0) : Type 0 where
  pub parse : String → Option F
  pub times_100 : F → F
  pub round : F → ℤ

unfoldable pub values_for : Pairs → String → List String
values_for raw key = map (λ p. p.1) (filter (λ p. p.0 == key) raw)

-- The first value of a key.
abbrev first_value : Option (String × String) → Option String
first_value none = none
first_value (some p) = some p.1

abbrev pub value_for : Pairs → String → Option String
value_for raw key = first_value (find? (λ p. p.0 == key) raw)

abbrev pub attr_key : String → String
attr_key attribute_id = concat "attr_" attribute_id

abbrev some_values : List String → Option (List String)
some_values [] = none
some_values (v ∷ vs) = some (v ∷ vs)

unfoldable pub checkbox_values : Pairs → String → Option (List String)
unfolding values_for
checkbox_values raw attribute_id = some_values (values_for raw (attr_key attribute_id))

unfoldable pub legend_with_unit : String → Option String → String
unfolding is_empty
legend_with_unit name none = name
legend_with_unit name (some unit) =
    if is_empty unit then name else concat name (concat " (" (concat unit ")"))

-- A `<fieldset>`: options with a mark where they are chosen, or the two ends of a range.
pub data Fieldset : Type 0 where
  checkbox_fieldset : String → String → List (AttributeOption × Bool) → Fieldset
  range_fieldset : String → String → String → Option String → Option String → Fieldset

unfoldable pub checkboxes : String → String → List AttributeOption → List String → Fieldset
checkboxes param legend options selected =
    checkbox_fieldset param legend
      (map (λ (o : AttributeOption). (o, any (λ v. v == o.value) selected)) options)

module _ {F : Type 0} (setting : Setting F) (numbers : Numbers F) where
  open setting use {is_whitespace}
  open numbers use {parse, times_100, round}

  abbrev parsed : Option String → Option F
  parsed none = none
  parsed (some v) = parse (trim is_whitespace v)

  unfoldable pub parsed_f64 : Pairs → String → Option F
  unfolding trim
  parsed_f64 raw key = parsed (value_for raw key)

  abbrev numeric : Option String → Option F → Option String
  numeric v none = none
  numeric v (some x) = v

  unfoldable pub numeric_value_for : Pairs → String → Option String
  unfolding parsed_f64
  numeric_value_for raw key = numeric (value_for raw key) (parsed_f64 raw key)

  abbrev bounds_if : Option F → Option F → Option (Option F × Option F)
  bounds_if none none = none
  bounds_if min max = some (min, max)

  unfoldable pub range_bounds : Pairs → String → String → Option (Option F × Option F)
  unfolding parsed_f64
  range_bounds raw min_key max_key = bounds_if (parsed_f64 raw min_key) (parsed_f64 raw max_key)

  unfoldable pub major_to_minor : F → ℤ
  major_to_minor major = round (times_100 major)

  abbrev min_key : String → String
  min_key attribute_id = concat "attr_" (concat attribute_id "_min")

  abbrev max_key : String → String
  max_key attribute_id = concat "attr_" (concat attribute_id "_max")

  abbrev with_values :
      (String → List String → FilterCond F) → String → Option (List String) → Option (FilterCond F)
  with_values cond attribute_id none = none
  with_values cond attribute_id (some values) = some (cond attribute_id values)

  abbrev generic_cond : String → Option (Option F × Option F) → Option (FilterCond F)
  generic_cond attribute_id none = none
  generic_cond attribute_id (some p) = some (FilterCond.range_generic attribute_id p.0 p.1)

  abbrev minor : Option F → Option ℤ
  minor none = none
  minor (some x) = some (major_to_minor x)

  abbrev price_cond : Option (Option F × Option F) → Option (FilterCond F)
  price_cond none = none
  price_cond (some p) = some (FilterCond.range_price (minor p.0) (minor p.1))

  abbrev cond_of : FilterType → String → Pairs → Option (FilterCond F)
  cond_of FilterType.checkbox_or id raw =
      with_values FilterCond.checkbox_or id (checkbox_values raw id)
  cond_of FilterType.enum_and id raw = with_values FilterCond.enum_and id (checkbox_values raw id)
  cond_of FilterType.range_generic id raw =
      generic_cond id (range_bounds raw (min_key id) (max_key id))
  cond_of FilterType.range_price id raw = price_cond (range_bounds raw "price_min" "price_max")
  cond_of FilterType.string id raw = none
  cond_of FilterType.number id raw = none

  unfoldable pub filter_cond_for : Filter → Pairs → Option (FilterCond F)
  unfolding checkbox_values range_bounds major_to_minor
  filter_cond_for filter raw = cond_of filter.filter_type filter.attribute_id raw

  abbrev prepend : Option (FilterCond F) → List (FilterCond F) → List (FilterCond F)
  prepend none conds = conds
  prepend (some cond) conds = cond ∷ conds

  -- `filter_map`
  unfoldable pub build_filter_conds : List Filter → Pairs → List (FilterCond F)
  unfolding filter_cond_for
  build_filter_conds [] raw = []
  build_filter_conds (filter ∷ filters) raw =
      prepend (filter_cond_for filter raw) (build_filter_conds filters raw)

  unfoldable pub range_of : String → String → String → Pairs → Fieldset
  unfolding numeric_value_for
  range_of legend min_param max_param raw =
      range_fieldset legend min_param max_param (numeric_value_for raw min_param)
        (numeric_value_for raw max_param)

  -- What one filter adds to the form; the ids of attributes are a key of their table.
  abbrev fieldset_of : FilterType → String → Option Attribute → Pairs → Reader F (List Fieldset)
  fieldset_of FilterType.range_price id attribute raw =
      answer (range_of "Ціна, ₴" "price_min" "price_max" raw ∷ [])
  fieldset_of FilterType.string id attribute raw = answer []
  fieldset_of FilterType.number id attribute raw = answer []
  fieldset_of kind id none raw = answer []
  fieldset_of FilterType.range_generic id (some attribute) raw =
      answer (
        range_of (legend_with_unit attribute.name attribute.unit) (min_key id) (max_key id) raw
        ∷ [])
  fieldset_of kind id (some attribute) raw = do
    options ← asked (from_taxonomy setting) (list_attribute_options F id uk)
    answer (checkboxes (attr_key id) attribute.name options (values_for raw (attr_key id)) ∷ [])

  -- The loop of `render_filter_form`.
  unfoldable pub fieldsets : List Filter → List Attribute → Pairs → Reader F (List Fieldset)
  unfolding legend_with_unit range_of checkboxes values_for list_attribute_options from_taxonomy
  fieldsets [] attributes raw = answer []
  fieldsets (f ∷ filters) attributes raw = do
    here ←
        fieldset_of f.filter_type f.attribute_id
          (find? (λ (a : Attribute). a.id == f.attribute_id) attributes) raw
    more ← fieldsets filters attributes raw
    answer (here ++ more)

  abbrev some_form : List Fieldset → Option (List Fieldset)
  some_form [] = none
  some_form (f ∷ fs) = some (f ∷ fs)

  unfoldable pub filter_form : String → List Filter → Pairs → Reader F (Option (List Fieldset))
  unfolding fieldsets list_attributes_by_category from_taxonomy
  filter_form category_id [] raw = answer none
  filter_form category_id (f ∷ filters) raw = do
    attributes ← asked (from_taxonomy setting) (list_attributes_by_category F category_id uk)
    forms ← fieldsets (f ∷ filters) attributes raw
    answer (some_form forms)
