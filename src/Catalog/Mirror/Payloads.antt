-- ===== src/Catalog/Mirror/Payloads.antt =====
-- What the catalog reads out of the payloads that the product context writes.
use tiny_shop.Prelude.{String, ◌≡◌, refl, ap, ◌∙◌, none, some, List, string_eq}
use tiny_shop.Prelude.Int.{ℤ}
use tiny_shop.Sql.{SqlError}
use tiny_shop.Shared.Json.{Json, Reading, field_or}
use tiny_shop.Product.{Product, status_str}
use tiny_shop.Product.Repo.{product_snapshot}
use tiny_shop.Catalog.{ProjectionRow}
use tiny_shop.Catalog.Projection.{str_val, int_val, created_row}

module _ (J : Json) (F : Type 0) (R : Reading J F) (group_concat : List String → String)
    (describe : SqlError → String) where
  open J use {Value, null, text, number, object}
  open R use {index, as_str, as_i64, index-object, as_str-text, as_str-null, as_i64-number}

  pub str_field :
      (fs : List (String × Value)) (k s : String)
      → field_or null k fs ≡ text s
      → str_val J F R group_concat describe (object fs) k ≡ s
  unfolding str_val
  str_field fs k s q =
      let e : as_str (index (object fs) k) ≡ some s =
        ap as_str (index-object fs k ∙ q) ∙ as_str-text s in
      rw (e, str_val) refl

  pub str_absent :
      (fs : List (String × Value)) (k : String)
      → field_or null k fs ≡ null
      → str_val J F R group_concat describe (object fs) k ≡ ""
  unfolding str_val
  str_absent fs k q =
      let e : as_str (index (object fs) k) ≡ none =
        ap as_str (index-object fs k ∙ q) ∙ as_str-null in
      rw (e, str_val) refl

  pub int_field :
      (fs : List (String × Value)) (k : String) (n : ℤ)
      → field_or null k fs ≡ number n
      → int_val J F R group_concat describe (object fs) k ≡ n
  unfolding int_val
  int_field fs k n q =
      let e : as_i64 (index (object fs) k) ≡ some n =
        ap as_i64 (index-object fs k ∙ q) ∙ as_i64-number n in
      rw (e, int_val) refl

  -- The row that `ProductCreated` gives.
  abbrev pub first_row : Product → ProjectionRow
  first_row p = record {
    id = p.id;
    seller_id = p.seller_id;
    title = p.title;
    slug = p.slug;
    description = p.description;
    price_minor = p.price_minor;
    currency = p.currency;
    status = status_str p.status;
    category_id = none;
    thumb = none;
    created_at = p.created_at;
    updated_at = p.updated_at;
  }

  pub created_row-snapshot :
      (p : Product) → created_row J F R group_concat describe (product_snapshot J F p) ≡ first_row p
  unfolding created_row product_snapshot
  created_row-snapshot p =
      rw
        (
          str_field _ "id" p.id refl,
          str_field _ "seller_id" p.seller_id refl,
          str_field _ "title" p.title refl,
          str_field _ "slug" p.slug refl,
          str_field _ "description" p.description refl,
          int_field _ "price_minor" p.price_minor refl,
          str_field _ "currency" p.currency refl,
          str_field _ "status" (status_str p.status) refl,
          int_field _ "created_at" p.created_at refl,
          int_field _ "updated_at" p.updated_at refl,
        )
        refl
