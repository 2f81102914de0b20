-- ===== src/Product/Extras/Reads.antt =====
-- crates/product/src/extras.rs: what `ProductRepo` reads of a product's configuration, variants,
-- media and attribute values.
use tiny_shop.Prelude.{
  String, Bool, true, false, Option, none, some, List, [], ◌∷◌, ◌==◌, string_eq, map, filter, find?,
  order_by, if◌then◌else◌,
}
use tiny_shop.Prelude.Int.{ℤ, ltb_ℤ}
use tiny_shop.Sql.{Result, ok, err, Db, query}
use tiny_shop.Shared.{parse}
use tiny_shop.Shared.Json.{Json}
use tiny_shop.Product.{
  Lang, LicenseKind, MediaRow, ConfigRow, DigitalVariant, AttributeRow, Translation, ProductMedia,
  DigitalConfig, ProductAttributeValue, ProductError, db, invalid_enum, lang_str, parse_delivery,
  parse_license, parse_media,
}
use tiny_shop.Product.Repo.{Tables, text_leb}
use tiny_shop.Product.Extras.{config_of, translation_of}

-- `parse(..).ok_or_else(..)`
abbrev parsed : {A : Type 0} → String → String → Option A → Result ProductError A
parsed field raw none = err (invalid_enum field raw)
parsed field raw (some a) = ok a

unfoldable pub parse_given : Option String → Result ProductError (Option LicenseKind)
unfolding parse_license
parse_given none = ok none
parse_given (some raw) = elim (parsed "license_kind" raw (parse_license raw)) [
  | ok k ↦ ok (some k)
  | err e ↦ err e
]

unfoldable pub digital_config_from_row : ConfigRow → Result ProductError DigitalConfig
unfolding parse_delivery parse_given
digital_config_from_row r =
    elim (parsed "delivery_kind" r.delivery_kind (parse_delivery r.delivery_kind)) [
      | err e ↦ err e
      | ok delivery ↦ elim (parse_given r.license_kind) [
        | err e ↦ err e
        | ok license ↦ ok (record {
          product_id = r.product_id;
          delivery_kind = delivery;
          license_kind = license;
          notes = r.notes;
        })
      ]
    ]

unfoldable pub product_media_from_row : MediaRow → Result ProductError ProductMedia
unfolding parse_media
product_media_from_row r = elim (parsed "kind" r.kind (parse_media r.kind)) [
  | err e ↦ err e
  | ok kind ↦ ok (record {
    id = r.id;
    product_id = r.product_id;
    kind = kind;
    url = r.url;
    position = r.position;
  })
]

unfoldable pub attribute_value_from_row :
    {F : Type 0} → AttributeRow F → Result ProductError (ProductAttributeValue F)
unfolding parse
attribute_value_from_row r = elim (parsed "data_type" r.data_type (parse r.data_type)) [
  | err e ↦ err e
  | ok data_type ↦ ok (record {
    product_id = r.product_id;
    attribute_id = r.attribute_id;
    data_type = data_type;
    val_text = r.val_text;
    val_num = r.val_num;
  })
]

-- `rows.into_iter().map(f).collect()`
unfoldable pub collect_rows :
    {A B : Type 0} → (A → Result ProductError B) → List A → Result ProductError (List B)
collect_rows f [] = ok []
collect_rows f (a ∷ as') =
    let rest = collect_rows f as' in
    elim (f a) [ err e ↦ err e | ok b ↦ elim rest [ ok bs ↦ ok (b ∷ bs) | err e ↦ err e ] ]

-- ORDER BY position ASC, id ASC
abbrev pub placed_before : ℤ → String → ℤ → String → Bool
placed_before p id q jd = if ltb_ℤ p q then true else if ltb_ℤ q p then false else text_leb id jd

abbrev by_position : DigitalVariant → DigitalVariant → Bool
by_position r s = placed_before r.position r.id s.position s.id

abbrev media_by_position : MediaRow → MediaRow → Bool
media_by_position r s = placed_before r.position r.id s.position s.id

-- COALESCE(t.value, v.label)
abbrev pub with_label : List Translation → Lang → DigitalVariant → DigitalVariant
with_label ts lang v =
    elim (find? (translation_of "digital_variant" v.id (lang_str lang) "label") ts) [
      | some r ↦ record v { label = r.value }
      | none ↦ v
    ]

module _ (J : Json) (F : Type 0) where
  unfoldable pub get_digital_config : String → Db ProductError (Tables J F) (Option DigitalConfig)
  unfolding digital_config_from_row
  get_digital_config product_id = query db λ t.
      elim (find? (config_of product_id) t.digital_config) [
        | none ↦ ok none
        | some r ↦ elim (digital_config_from_row r) [ ok c ↦ ok (some c) | err e ↦ err e ]
      ]

  unfoldable pub list_variants : String → Lang → Db ProductError (Tables J F) (List DigitalVariant)
  unfolding lang_str
  list_variants product_id lang = query db λ t. ok (
      map (with_label t.translations lang) (
        order_by by_position
          (filter (λ (r : DigitalVariant). r.product_id == product_id) t.digital_variant)))

  unfoldable pub list_media : String → Db ProductError (Tables J F) (List ProductMedia)
  unfolding product_media_from_row collect_rows
  list_media product_id = query db λ t. collect_rows product_media_from_row (
      order_by media_by_position
        (filter (λ (r : MediaRow). r.product_id == product_id) t.product_media))

  unfoldable pub list_attribute_values :
      String → Db ProductError (Tables J F) (List (ProductAttributeValue F))
  unfolding attribute_value_from_row collect_rows
  list_attribute_values product_id = query db λ t. collect_rows attribute_value_from_row (
      order_by (λ (r s : AttributeRow F). text_leb r.attribute_id s.attribute_id)
        (filter (λ (r : AttributeRow F). r.product_id == product_id) t.product_attribute_values))
