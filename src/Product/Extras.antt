-- ===== src/Product/Extras.antt =====
-- crates/product/src/extras.rs: what `ProductRepo` writes for the digital configuration, variants,
-- media, attribute values and translations of a product.
pub mod Reads
pub mod Emits
use mathlib.Core.Option
use tiny_shop.Prelude.{
  String, Bool, ◌&&◌, ◌||◌, not, Option, none, some, List, [], ◌∷◌, ◌++◌, ◌==◌, string_eq, any,
  update_where, delete_where, if◌then◌else◌,
}
use tiny_shop.Prelude.Int.{ℤ}
use tiny_shop.Sql.{constraint, Result, ok, err, Tx, Db, transaction, ◌>>◌}
use tiny_shop.Shared.{NewEvent, as_str}
use tiny_shop.Shared.Json.{Json, Reading}
use tiny_shop.Product.{
  Lang, MediaRow, ConfigRow, DigitalVariant, AttributeRow, Translation, ProductMedia, DigitalConfig,
  ProductAttributeValue, ProductError, db, lang_str, delivery_str, license_str, media_str,
}
use tiny_shop.Product.Repo.{Tables, is_product, is_translation, enqueue_event, product_event}

abbrev pub config_row : DigitalConfig → ConfigRow
config_row c = record {
  product_id = c.product_id;
  delivery_kind = delivery_str c.delivery_kind;
  license_kind = Option.map license_str c.license_kind;
  notes = c.notes;
}

abbrev pub media_row : ProductMedia → MediaRow
media_row m = record {
  id = m.id;
  product_id = m.product_id;
  kind = media_str m.kind;
  url = m.url;
  position = m.position;
}

abbrev pub attribute_row : {F : Type 0} → ProductAttributeValue F → AttributeRow F
attribute_row v = record {
  product_id = v.product_id;
  attribute_id = v.attribute_id;
  data_type = as_str v.data_type;
  val_text = v.val_text;
  val_num = v.val_num;
}

abbrev pub config_of : String → ConfigRow → Bool
config_of product_id r = r.product_id == product_id

abbrev pub value_of : {F : Type 0} → String → String → AttributeRow F → Bool
value_of product_id attribute_id r =
    (r.product_id == product_id) && (r.attribute_id == attribute_id)

-- The primary key of `translations`.
abbrev pub translation_of : String → String → String → String → Translation → Bool
translation_of entity_type entity_id lang field r =
    is_translation entity_type entity_id r && (r.lang == lang && r.field == field)

-- The CHECKs of `translations`.
abbrev pub translatable : String → String → Bool
translatable entity_type field =
    (entity_type == "product" || entity_type == "digital_variant")
    && (field == "title" || (field == "description" || field == "label"))

-- WHERE id = ? AND product_id = ?
abbrev pub owned_variant : String → String → DigitalVariant → Bool
owned_variant variant_id product_id r = (r.id == variant_id) && (r.product_id == product_id)

abbrev pub owned_media : String → String → MediaRow → Bool
owned_media media_id product_id r = (r.id == media_id) && (r.product_id == product_id)

module _ (J : Json) (F : Type 0) where
  open J use {Value, null, text, number, object}

  abbrev pub Write : Type 0
  Write = Tx ProductError (Tables J F) (Unit {0})

  abbrev pub product_updated : ℤ → String → String → NewEvent Value
  product_updated now product_id reason =
      product_event J F product_id "ProductUpdated" (
        object
          (("id", text product_id) ∷ ("reason", text reason) ∷ ("updated_at", number now) ∷ []))

  unfoldable pub enqueue_product_updated : ℤ → String → String → Write
  unfolding enqueue_event
  enqueue_product_updated now product_id reason =
      enqueue_event J F now (product_updated now product_id reason)

  -- REFERENCES products(id)
  abbrev pub references : String → Tables J F → Bool
  references product_id t = any (is_product product_id) t.products

  unfoldable pub write_config : DigitalConfig → Write
  unfolding delivery_str license_str
  write_config c t =
      if any (config_of c.product_id) t.digital_config
      then ok (
        tt,
        record t {
          digital_config =
              update_where (config_of c.product_id)
                (λ r. record r {
                  delivery_kind = delivery_str c.delivery_kind;
                  license_kind = Option.map license_str c.license_kind;
                  notes = c.notes;
                })
                t.digital_config;
        },
      )
      else if not (references c.product_id t)
      then err (db (constraint "FOREIGN KEY"))
      else ok (tt, record t { digital_config = t.digital_config ++ config_row c ∷ [] })

  unfoldable pub upsert_digital_config : ℤ → DigitalConfig → Db ProductError (Tables J F) (Unit {0})
  unfolding write_config enqueue_product_updated
  upsert_digital_config now c =
      transaction db (do write_config c; enqueue_product_updated now c.product_id "digital_config")

  unfoldable pub insert_variant : DigitalVariant → Write
  insert_variant v t =
      if any (λ (r : DigitalVariant). r.id == v.id) t.digital_variant
      then err (db (constraint "UNIQUE digital_variant.id"))
      else if not (references v.product_id t)
      then err (db (constraint "FOREIGN KEY"))
      else ok (tt, record t { digital_variant = t.digital_variant ++ v ∷ [] })

  unfoldable pub add_variant : ℤ → DigitalVariant → Db ProductError (Tables J F) (Unit {0})
  unfolding insert_variant enqueue_product_updated
  add_variant now v =
      transaction db (do insert_variant v; enqueue_product_updated now v.product_id "variant_added")

  unfoldable pub edit_variant : DigitalVariant → Write
  edit_variant v t = ok (
    tt,
    record t {
      digital_variant =
          update_where (λ (r : DigitalVariant). r.id == v.id)
            (λ r. record r {
              label = v.label;
              format = v.format;
              price_delta_minor = v.price_delta_minor;
              position = v.position;
            })
            t.digital_variant;
    },
  )

  unfoldable pub update_variant : ℤ → DigitalVariant → Db ProductError (Tables J F) (Unit {0})
  unfolding edit_variant enqueue_product_updated
  update_variant now v =
      transaction db (do edit_variant v; enqueue_product_updated now v.product_id "variant_updated")

  unfoldable pub erase_variant : String → String → Write
  erase_variant product_id variant_id t = ok (
    tt,
    record t {
      translations = delete_where (is_translation "digital_variant" variant_id) t.translations;
      digital_variant = delete_where (owned_variant variant_id product_id) t.digital_variant;
    },
  )

  unfoldable pub remove_variant : ℤ → String → String → Db ProductError (Tables J F) (Unit {0})
  unfolding erase_variant enqueue_product_updated
  remove_variant now product_id variant_id = transaction db (do
    erase_variant product_id variant_id
    enqueue_product_updated now product_id "variant_removed")

  unfoldable pub insert_media : ProductMedia → Write
  unfolding media_str
  insert_media m t =
      if any (λ (r : MediaRow). r.id == m.id) t.product_media
      then err (db (constraint "UNIQUE product_media.id"))
      else if not (references m.product_id t)
      then err (db (constraint "FOREIGN KEY"))
      else ok (tt, record t { product_media = t.product_media ++ media_row m ∷ [] })

  unfoldable pub add_media : ℤ → ProductMedia → Db ProductError (Tables J F) (Unit {0})
  unfolding insert_media enqueue_product_updated
  add_media now m =
      transaction db (do insert_media m; enqueue_product_updated now m.product_id "media_added")

  unfoldable pub erase_media : String → String → Write
  erase_media product_id media_id t = ok (
    tt,
    record t { product_media = delete_where (owned_media media_id product_id) t.product_media },
  )

  unfoldable pub remove_media : ℤ → String → String → Db ProductError (Tables J F) (Unit {0})
  unfolding erase_media enqueue_product_updated
  remove_media now product_id media_id =
      transaction db
        (do erase_media product_id media_id; enqueue_product_updated now product_id "media_removed")

  unfoldable pub write_value : ProductAttributeValue F → Write
  unfolding as_str
  write_value v t =
      if any (value_of v.product_id v.attribute_id) t.product_attribute_values
      then ok (
        tt,
        record t {
          product_attribute_values =
              update_where (value_of v.product_id v.attribute_id)
                (λ r. record r {
                  data_type = as_str v.data_type;
                  val_text = v.val_text;
                  val_num = v.val_num;
                })
                t.product_attribute_values;
        },
      )
      else if not (references v.product_id t)
      then err (db (constraint "FOREIGN KEY"))
      else ok (
        tt,
        record t { product_attribute_values = t.product_attribute_values ++ attribute_row v ∷ [] },
      )

  abbrev pub value_cleared : ℤ → String → String → NewEvent Value
  value_cleared now product_id attribute_id = product_event J F product_id "ProductUpdated" (
      object (
        ("id", text product_id)
        ∷ ("reason", text "attribute_value_cleared")
        ∷ ("attribute_id", text attribute_id)
        ∷ ("updated_at", number now)
        ∷ []))

  unfoldable pub erase_value : String → String → Write
  erase_value product_id attribute_id t = ok (
    tt,
    record t {
      product_attribute_values =
          delete_where (value_of product_id attribute_id) t.product_attribute_values;
    },
  )

  unfoldable pub clear_attribute_value :
      ℤ → String → String → Db ProductError (Tables J F) (Unit {0})
  unfolding erase_value enqueue_event
  clear_attribute_value now product_id attribute_id = transaction db (do
    erase_value product_id attribute_id
    enqueue_event J F now (value_cleared now product_id attribute_id))

  unfoldable pub write_translation : String → String → Lang → String → String → Write
  unfolding lang_str
  write_translation entity_type entity_id lang field value t =
      if not (translatable entity_type field)
      then err (db (constraint "CHECK"))
      else if any (translation_of entity_type entity_id (lang_str lang) field) t.translations
      then ok (
        tt,
        record t {
          translations =
              update_where (translation_of entity_type entity_id (lang_str lang) field)
                (λ r. record r { value = value }) t.translations;
        },
      )
      else ok (
        tt,
        record t {
          translations =
              t.translations
              ++ record {
                entity_type = entity_type;
                entity_id = entity_id;
                lang = lang_str lang;
                field = field;
                value = value;
              }
                ∷ [];
        },
      )

  unfoldable pub set_translation :
      ℤ
      → String
      → String
      → String
      → Lang
      → String
      → String
      → Db ProductError (Tables J F) (Unit {0})
  unfolding write_translation enqueue_product_updated
  set_translation now product_id entity_type entity_id lang field value = transaction db (do
    write_translation entity_type entity_id lang field value
    enqueue_product_updated now product_id "translation_set")

  module _ (R : Reading J F) where
    open R use {float}

    abbrev or_null : {A : Type 0} → (A → Value) → Option A → Value
    or_null f none = null
    or_null f (some a) = f a

    abbrev pub value_set : ℤ → ProductAttributeValue F → NewEvent Value
    value_set now v = product_event J F v.product_id "ProductUpdated" (
        object (
          ("id", text v.product_id)
          ∷ ("reason", text "attribute_value_set")
          ∷ ("attribute_id", text v.attribute_id)
          ∷ ("data_type", text (as_str v.data_type))
          ∷ ("val_text", or_null text v.val_text)
          ∷ ("val_num", or_null float v.val_num)
          ∷ ("updated_at", number now)
          ∷ []))

    unfoldable pub set_attribute_value :
        ℤ → ProductAttributeValue F → Db ProductError (Tables J F) (Unit {0})
    unfolding write_value enqueue_event
    set_attribute_value now v =
        transaction db (do write_value v; enqueue_event J F now (value_set now v))
