-- ===== src/Product/Extras/Emits.antt =====
-- The writes of crates/product/src/extras.rs as transactions: a change and its event, or nothing.
use tiny_shop.Prelude.{ℕ, String, ◌≡◌, refl, sym, ap, ◌∙◌, subst, arith}
use tiny_shop.Prelude.Int.{ℤ}
use tiny_shop.Sql.{Result, ok, err, Tx, Db, Conn, transaction, ◌>>◌}
use tiny_shop.Sql.Laws.{transaction-eq-ok, transaction-eq-err, bind-eq-ok}
use tiny_shop.Shared.{NewEvent}
use tiny_shop.Shared.Json.{Json, Reading}
use tiny_shop.Events.Outbox.{enqueue}
use tiny_shop.Product.{
  Lang, DigitalVariant, ProductMedia, DigitalConfig, ProductAttributeValue, ProductError, db,
}
use tiny_shop.Product.Repo.{Tables, enqueue_event}
use tiny_shop.Product.Changes.{enqueue_event-eq-ok}
use tiny_shop.Product.Extras.{
  Write, product_updated, write_config, upsert_digital_config, insert_variant, add_variant,
  edit_variant, update_variant, erase_variant, remove_variant, insert_media, add_media, erase_media,
  remove_media, write_value, value_set, set_attribute_value, value_cleared, erase_value,
  clear_attribute_value, write_translation, set_translation, enqueue_product_updated,
}

-- A call of one of the writing operations.
pub data Edit (F : Type 0) : Type 0 where
  config : DigitalConfig → Edit F
  new_variant : DigitalVariant → Edit F
  variant : DigitalVariant → Edit F
  no_variant : String → String → Edit F
  new_media : ProductMedia → Edit F
  no_media : String → String → Edit F
  value : ProductAttributeValue F → Edit F
  no_value : String → String → Edit F
  translation : String → String → String → Lang → String → String → Edit F

module _ (J : Json) (F : Type 0) (R : Reading J F) where
  open J use {Value}

  unfoldable pub edit : ℤ → Edit F → Db ProductError (Tables J F) (Unit {0})
  edit now (config c) = upsert_digital_config J F now c
  edit now (new_variant v) = add_variant J F now v
  edit now (variant v) = update_variant J F now v
  edit now (no_variant product_id variant_id) = remove_variant J F now product_id variant_id
  edit now (new_media m) = add_media J F now m
  edit now (no_media product_id media_id) = remove_media J F now product_id media_id
  edit now (value v) = set_attribute_value J F R now v
  edit now (no_value product_id attribute_id) =
      clear_attribute_value J F now product_id attribute_id
  edit now (translation product_id entity_type entity_id lang field text) =
      set_translation J F now product_id entity_type entity_id lang field text

  statement : Edit F → Write J F
  statement (config c) = write_config J F c
  statement (new_variant v) = insert_variant J F v
  statement (variant v) = edit_variant J F v
  statement (no_variant product_id variant_id) = erase_variant J F product_id variant_id
  statement (new_media m) = insert_media J F m
  statement (no_media product_id media_id) = erase_media J F product_id media_id
  statement (value v) = write_value J F v
  statement (no_value product_id attribute_id) = erase_value J F product_id attribute_id
  statement (translation product_id entity_type entity_id lang field text) =
      write_translation J F entity_type entity_id lang field text

  -- The event that the documentation of the operation promises.
  unfoldable pub announced : ℤ → Edit F → NewEvent Value
  announced now (config c) = product_updated J F now c.product_id "digital_config"
  announced now (new_variant v) = product_updated J F now v.product_id "variant_added"
  announced now (variant v) = product_updated J F now v.product_id "variant_updated"
  announced now (no_variant product_id _) = product_updated J F now product_id "variant_removed"
  announced now (new_media m) = product_updated J F now m.product_id "media_added"
  announced now (no_media product_id _) = product_updated J F now product_id "media_removed"
  announced now (value v) = value_set J F R now v
  announced now (no_value product_id attribute_id) = value_cleared J F now product_id attribute_id
  announced now (translation product_id _ _ _ _ _) =
      product_updated J F now product_id "translation_set"

  edit_parts :
      (now : ℤ) (e : Edit F) (c : Conn (Tables J F))
      → edit now e c ≡ transaction db (statement e >> enqueue_event J F now (announced now e)) c
  unfolding edit statement announced upsert_digital_config add_variant update_variant remove_variant
      add_media remove_media set_attribute_value clear_attribute_value set_translation
      enqueue_product_updated
  edit_parts now (config c) _ = refl
  edit_parts now (new_variant v) _ = refl
  edit_parts now (variant v) _ = refl
  edit_parts now (no_variant p v) _ = refl
  edit_parts now (new_media m) _ = refl
  edit_parts now (no_media p m) _ = refl
  edit_parts now (value v) _ = refl
  edit_parts now (no_value p a) _ = refl
  edit_parts now (translation p t i l f v) _ = refl

  -- No statement writes the products or the outbox.
  abbrev ApartFrom : Tables J F → Tables J F → Type 0
  ApartFrom t t' = (t'.outbox ≡ t.outbox) × (t'.products ≡ t.products)

  statement_apart : (e : Edit F) (t t' : Tables J F) → statement e t ≡ ok (tt, t') → ApartFrom t t'
  unfolding statement write_config insert_variant edit_variant erase_variant insert_media
      erase_media write_value erase_value write_translation
  statement_apart (config c) t t' h = ground arith
  statement_apart (new_variant v) t t' h = ground arith
  statement_apart (variant v) t t' h = ground arith
  statement_apart (no_variant p v) t t' h = ground arith
  statement_apart (new_media m) t t' h = ground arith
  statement_apart (no_media p m) t t' h = ground arith
  statement_apart (value v) t t' h = ground arith
  statement_apart (no_value p a) t t' h = ground arith
  statement_apart (translation p t' i l f v) t u h = ground arith

  -- Every write of a configuration, variant, medium, attribute value or translation that succeeds
  -- puts the one event that it promises for its product behind the outbox, in the same
  -- transaction, and leaves the products as they were. One that fails leaves all tables as they
  -- were.
  pub edit_lem :
      (now : ℤ) (e : Edit F) (c : Conn (Tables J F))
      → ((edit now e c).0 ≡ ok tt
          → (n : ℕ) × (enqueue J now (announced now e) c.tables.outbox
              ≡ ok (n, (edit now e c).1.tables.outbox))
            × ((edit now e c).1.tables.products ≡ c.tables.products))
        × ((x : ProductError) → (edit now e c).0 ≡ err x → (edit now e c).1.tables ≡ c.tables)
  edit_lem now e c =
      subst
        (λ (o : Result ProductError (Unit {0}) × Conn (Tables J F)).
          (o.0 ≡ ok tt
            → (n : ℕ) × (enqueue J now (announced now e) c.tables.outbox
                ≡ ok (n, o.1.tables.outbox))
              × (o.1.tables.products ≡ c.tables.products))
          × ((x : ProductError) → o.0 ≡ err x → o.1.tables ≡ c.tables))
        (sym (edit_parts now e c)) (stored, λ x h. transaction-eq-err db body c x h)
    where
      body : Tx ProductError (Tables J F) (Unit {0})
      body = statement e >> enqueue_event J F now (announced now e)

      stored :
          (transaction db body c).0 ≡ ok tt
          → (n : ℕ) × (enqueue J now (announced now e) c.tables.outbox
              ≡ ok (n, (transaction db body c).1.tables.outbox))
            × ((transaction db body c).1.tables.products ≡ c.tables.products)
      stored h =
          let (t', ran, left) = transaction-eq-ok db body c tt h in
          let (_, t, first, second) =
            bind-eq-ok (statement e) (λ _. enqueue_event J F now (announced now e)) c.tables tt t'
              ran in
          let (kept, products) = statement_apart e c.tables t first in
          let (n, o, put, same) = enqueue_event-eq-ok J F now (announced now e) t t' second in
          (
            n,
            ap (enqueue J now (announced now e)) (sym kept)
                ∙ put
                ∙ ap (λ (s : Tables J F). ok (n, s.outbox)) (sym same ∙ sym left),
            ap (λ (s : Tables J F). s.products) (left ∙ same) ∙ products,
          )
