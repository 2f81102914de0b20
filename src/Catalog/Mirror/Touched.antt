-- ===== src/Catalog/Mirror/Touched.antt =====
-- What the events of crates/product/src/extras.rs do to the rows of the projection: nothing that
-- shows.
use tiny_shop.Prelude.{
  String, ◌≡◌, refl, sym, ap, ◌∙◌, subst, false, some, List, [], ◌∷◌, ◌==◌, string_eq,
}
use tiny_shop.Prelude.Int.{ℤ}
use tiny_shop.Sql.{SqlError, ok}
use tiny_shop.Sql.Laws.{tables_of}
use tiny_shop.Shared.Json.{Json, Reading}
use tiny_shop.Product.{ProductRow, ProductAttributeValue}
use tiny_shop.Product.Extras.{product_updated, value_set, value_cleared}
use tiny_shop.Product.Extras.Emits.{
  Edit, config, new_variant, variant, no_variant, new_media, no_media, value, no_value, translation,
  announced,
}
use tiny_shop.Catalog.{CatalogTables}
use tiny_shop.Catalog.Mirror.{Mirrors, Mirrors-touch}
use tiny_shop.Catalog.Mirror.Payloads.{str_field}
use tiny_shop.Catalog.Mirror.Applied.{set_applied, cleared_applied}
use tiny_shop.Catalog.Projection.{touch_row, str_val, touch_given, apply_updated, apply_event}
use tiny_shop.Catalog.Projection.Redelivery.{touch_done}

-- A reason that `apply_updated` does not name.
record IsOther (reason : String) : Type 0 where
  not_set : (reason == "attribute_value_set") ≡ false
  not_cleared : (reason == "attribute_value_cleared") ≡ false
  not_empty : (reason == "") ≡ false

module _ (J : Json) (F : Type 0) (R : Reading J F) (group_concat : List String → String)
    (describe : SqlError → String) where
  open J use {Value, null, text, number, object}
  open R use {index, as_i64, index-object, as_i64-number}

  touch_branch :
      (p : Value)
      → IsOther (str_val J F R group_concat describe p "reason")
      → apply_updated J F R group_concat describe p ≡ touch_given J F R group_concat describe p
  unfolding apply_updated
  touch_branch p k = rw (k.not_set, k.not_cleared, k.not_empty, apply_updated) refl

  abbrev pub Keeps : CatalogTables F → CatalogTables F → Type 0
  Keeps t t' =
      (xs : List ProductRow) → Mirrors xs t.product_projection → Mirrors xs t'.product_projection

  touched :
      (now : ℤ) (id reason : String) (t t' : CatalogTables F)
      → IsOther reason
      → apply_event J F R group_concat describe "ProductUpdated"
          (product_updated J F now id reason).payload
          t
        ≡ ok (tt, t')
      → Keeps t t'
  unfolding apply_event touch_row
  touched now id reason t t' k h xs m =
      subst (Mirrors xs) (sym (ap (λ (s : CatalogTables F). s.product_projection) (tables_of run)))
        (Mirrors-touch xs t.product_projection (str_val J F R group_concat describe payload "id")
          (λ r. record r { updated_at = now }) (λ r. refl) (λ r. refl) m)
    where
      fields : List (String × Value)
      fields = ("id", text id) ∷ ("reason", text reason) ∷ ("updated_at", number now) ∷ []

      payload : Value
      payload = object fields

      stamp : as_i64 (index payload "updated_at") ≡ some now
      stamp = ap as_i64 (index-object fields "updated_at") ∙ as_i64-number now

      run : touch_row (str_val J F R group_concat describe payload "id") now t ≡ ok (tt, t')
      run =
          sym (
            ap (λ m. m t)
              (touch_branch payload (
                  subst IsOther
                    (sym (str_field J F R group_concat describe fields "reason" reason refl)) k)
                ∙ touch_done J F R group_concat describe payload now stamp))
          ∙ h

  value_kept :
      (now : ℤ) (v : ProductAttributeValue F) (t t' : CatalogTables F)
      → apply_event J F R group_concat describe "ProductUpdated" (value_set J F R now v).payload t
        ≡ ok (tt, t')
      → Keeps t t'
  unfolding apply_event
  value_kept now v t t' h xs m =
      subst (Mirrors xs)
        (sym (
          set_applied J F R group_concat describe _ t t'
            (str_field J F R group_concat describe _ "reason" "attribute_value_set" refl) h))
        m

  cleared_kept :
      (now : ℤ) (id attribute_id : String) (t t' : CatalogTables F)
      → apply_event J F R group_concat describe "ProductUpdated"
          (value_cleared J F now id attribute_id).payload
          t
        ≡ ok (tt, t')
      → Keeps t t'
  unfolding apply_event
  cleared_kept now id attribute_id t t' h xs m =
      subst (Mirrors xs)
        (sym (
          cleared_applied J F R group_concat describe _ t t'
            (str_field J F R group_concat describe _ "reason" "attribute_value_cleared" refl) h))
        m

  -- The event of a write of crates/product/src/extras.rs leaves a catalog that mirrors given
  -- products so.
  pub extra-Mirrors :
      (now : ℤ) (e : Edit F) (t t' : CatalogTables F)
      → apply_event J F R group_concat describe "ProductUpdated" (announced J F R now e).payload t
        ≡ ok (tt, t')
      → Keeps t t'
  unfolding announced
  extra-Mirrors now (config c) t t' h =
      touched now c.product_id "digital_config" t t'
        (record { not_set = refl; not_cleared = refl; not_empty = refl }) h
  extra-Mirrors now (new_variant v) t t' h =
      touched now v.product_id "variant_added" t t'
        (record { not_set = refl; not_cleared = refl; not_empty = refl }) h
  extra-Mirrors now (variant v) t t' h =
      touched now v.product_id "variant_updated" t t'
        (record { not_set = refl; not_cleared = refl; not_empty = refl }) h
  extra-Mirrors now (no_variant p v) t t' h =
      touched now p "variant_removed" t t'
        (record { not_set = refl; not_cleared = refl; not_empty = refl }) h
  extra-Mirrors now (new_media m) t t' h =
      touched now m.product_id "media_added" t t'
        (record { not_set = refl; not_cleared = refl; not_empty = refl }) h
  extra-Mirrors now (no_media p m) t t' h =
      touched now p "media_removed" t t'
        (record { not_set = refl; not_cleared = refl; not_empty = refl }) h
  extra-Mirrors now (value v) t t' h = value_kept now v t t' h
  extra-Mirrors now (no_value p a) t t' h = cleared_kept now p a t t' h
  extra-Mirrors now (translation p e i l f v) t t' h =
      touched now p "translation_set" t t'
        (record { not_set = refl; not_cleared = refl; not_empty = refl }) h
