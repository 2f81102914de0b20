-- ===== src/Catalog/Taxonomy/Attributes.antt =====
-- `TaxonomyRepo` of crates/catalog/src/repository.rs: attributes, options, filters, translations.
use tiny_shop.Prelude.{
  String, Bool, not, ◌&&◌, List, [], ◌∷◌, ◌++◌, ◌==◌, string_eq, option_eq, map, filter, any,
  update_where, order_by, if◌then◌else◌,
}
use tiny_shop.Prelude.Int.{int_eq}
use tiny_shop.Sql.{constraint, ok, err, Tx, Db, transaction, query}
use tiny_shop.Shared.{as_str}
use tiny_shop.Catalog.{
  Lang, Attribute, AttributeOption, Filter, AttributeRow, FilterRow, lang_str, filter_type_str,
}
use tiny_shop.Catalog.Taxonomy.{
  TaxonomyError, db, Tables, is_category, is_attribute, translation_of, translatable, resolve,
  from_bool, attribute_from_row, filter_from_row, collect, attribute_before, option_before,
  filter_before,
}

module _ (F : Type 0) where
  unfoldable pub create_attribute : Attribute → Db TaxonomyError (Tables F) (Unit {0})
  unfolding as_str
  create_attribute a = transaction db λ t.
      if any (is_attribute a.id) t.attributes
      then err (db (constraint "UNIQUE attributes.id"))
      else if not (any (is_category a.category_id) t.categories)
      then err (db (constraint "FOREIGN KEY"))
      else ok (
        tt,
        record t {
          attributes =
              t.attributes
              ++ record {
                id = a.id;
                category_id = a.category_id;
                name = a.name;
                data_type = as_str a.data_type;
                unit = a.unit;
                is_required = from_bool a.is_required;
                position = a.position;
              }
                ∷ [];
        },
      )

  abbrev named_attribute : Lang → Tables F → AttributeRow → AttributeRow
  named_attribute lang t a = record a {
    name = resolve t.translations "attribute" a.id lang "name" a.name;
  }

  unfoldable pub list_attributes_by_category :
      String → Lang → Db TaxonomyError (Tables F) (List Attribute)
  unfolding resolve attribute_from_row collect
  list_attributes_by_category category_id lang = query db λ t. collect attribute_from_row (
      map (named_attribute lang t) (
        order_by attribute_before
          (filter (λ (r : AttributeRow). r.category_id == category_id) t.attributes)))

  unfoldable pub create_attribute_option : AttributeOption → Db TaxonomyError (Tables F) (Unit {0})
  create_attribute_option o = transaction db λ t.
      if any (λ (r : AttributeOption). r.id == o.id) t.attribute_options
      then err (db (constraint "UNIQUE attribute_options.id"))
      else if not (any (is_attribute o.attribute_id) t.attributes)
      then err (db (constraint "FOREIGN KEY"))
      else ok (tt, record t { attribute_options = t.attribute_options ++ o ∷ [] })

  unfoldable pub list_attribute_options :
      String → Lang → Db TaxonomyError (Tables F) (List AttributeOption)
  unfolding resolve
  list_attribute_options attribute_id lang = query db λ t. ok (
      map
        (λ (o : AttributeOption). record o {
          value = resolve t.translations "attribute_option" o.id lang "value" o.value;
        })
        (order_by option_before
          (filter (λ (r : AttributeOption). r.attribute_id == attribute_id) t.attribute_options)))

  abbrev pub filter_of : String → String → FilterRow → Bool
  filter_of category_id attribute_id r =
      r.category_id == category_id && r.attribute_id == attribute_id

  unfoldable pub create_filter : Filter → Db TaxonomyError (Tables F) (Unit {0})
  unfolding filter_type_str
  create_filter f = transaction db λ t.
      if any (λ (r : FilterRow). r.id == f.id) t.filters
      then err (db (constraint "UNIQUE filters.id"))
      else if any (filter_of f.category_id f.attribute_id) t.filters
      then err (db (constraint "UNIQUE filters.category_id, filters.attribute_id"))
      else if not (
          any (is_category f.category_id) t.categories
          && any (is_attribute f.attribute_id) t.attributes)
      then err (db (constraint "FOREIGN KEY"))
      else ok (
        tt,
        record t {
          filters =
              t.filters
              ++ record {
                id = f.id;
                category_id = f.category_id;
                attribute_id = f.attribute_id;
                filter_type = filter_type_str f.filter_type;
                position = f.position;
              }
                ∷ [];
        },
      )

  unfoldable pub list_filters_by_category : String → Db TaxonomyError (Tables F) (List Filter)
  unfolding filter_from_row collect
  list_filters_by_category category_id = query db λ t.
      collect filter_from_row (
        order_by filter_before (filter (λ (r : FilterRow). r.category_id == category_id) t.filters))

  unfoldable pub write_translation :
      String → String → Lang → String → String → Tx TaxonomyError (Tables F) (Unit {0})
  unfolding lang_str
  write_translation entity_type entity_id lang field value t =
      if not (translatable entity_type field)
      then err (db (constraint "CHECK"))
      else if any (translation_of entity_type entity_id (lang_str lang) field) t.translations
      then ok (
        tt,
        record t {
          translations =
              update_where (translation_of entity_type entity_id (lang_str lang) field)
                (λ r. record r { value = value }) t.translations;
        },
      )
      else ok (
        tt,
        record t {
          translations =
              t.translations
              ++ record {
                entity_type = entity_type;
                entity_id = entity_id;
                lang = lang_str lang;
                field = field;
                value = value;
              }
                ∷ [];
        },
      )

  unfoldable pub set_translation :
      String → String → Lang → String → String → Db TaxonomyError (Tables F) (Unit {0})
  unfolding write_translation
  set_translation entity_type entity_id lang field value =
      transaction db (write_translation entity_type entity_id lang field value)

  unfoldable pub resolve_translation :
      String → String → Lang → String → String → Db TaxonomyError (Tables F) String
  unfolding resolve
  resolve_translation entity_type entity_id lang field canonical =
      query db λ t. ok (resolve t.translations entity_type entity_id lang field canonical)
