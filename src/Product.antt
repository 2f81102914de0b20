-- ===== src/Product.antt =====
-- crates/product/src/product.rs, and the tables of migrations/product/0002_product.sql. The type of
-- floating-point numbers is a parameter of the rows that have them.
pub mod Repo
pub mod Changes
pub mod Extras
pub mod Calls
mod Tests
use tiny_shop.Prelude.{
  String, Bool, true, false, Option, none, some, List, ◌==◌, if◌then◌else◌, string_eq,
}
use tiny_shop.Prelude.Int.{ℤ}
use tiny_shop.Sql.{SqlError, protocol}
use tiny_shop.Shared.{DataType}
use tiny_shop.Events.Outbox.{Outbox, DbError, sqlx, json}

pub data Lang : Type 0 where
  uk ru : Lang

pub data ProductStatus : Type 0 where
  draft published archived : ProductStatus

pub data DeliveryKind : Type 0 where
  download platform_view : DeliveryKind

pub data LicenseKind : Type 0 where
  single multi : LicenseKind

pub data MediaKind : Type 0 where
  image video : MediaKind

unfoldable pub lang_str : Lang → String
lang_str uk = "uk"
lang_str ru = "ru"

unfoldable pub status_str : ProductStatus → String
status_str draft = "draft"
status_str published = "published"
status_str archived = "archived"

unfoldable pub parse_status : String → Option ProductStatus
parse_status s =
    if s == "draft"
    then some draft
    else if s == "published"
    then some published
    else if s == "archived"
    then some archived
    else none

-- The derived `==`.
abbrev pub same_status : ProductStatus → ProductStatus → Bool
same_status draft draft = true
same_status published published = true
same_status archived archived = true
same_status _ _ = false

unfoldable pub delivery_str : DeliveryKind → String
delivery_str download = "download"
delivery_str platform_view = "platform_view"

unfoldable pub parse_delivery : String → Option DeliveryKind
parse_delivery s =
    if s == "download"
    then some download
    else if s == "platform_view"
    then some platform_view
    else none

unfoldable pub license_str : LicenseKind → String
license_str single = "single"
license_str multi = "multi"

unfoldable pub parse_license : String → Option LicenseKind
parse_license s = if s == "single" then some single else if s == "multi" then some multi else none

unfoldable pub media_str : MediaKind → String
media_str image = "image"
media_str video = "video"

unfoldable pub parse_media : String → Option MediaKind
parse_media s = if s == "image" then some image else if s == "video" then some video else none

pub record Product : Type 0 where
  pub id : String
  pub seller_id : String
  pub title : String
  pub slug : String
  pub description : String
  pub price_minor : ℤ
  pub currency : String
  pub status : ProductStatus
  pub created_at : ℤ
  pub updated_at : ℤ

-- A row of `products`; its status is text.
pub record ProductRow : Type 0 where
  pub id : String
  pub seller_id : String
  pub title : String
  pub slug : String
  pub description : String
  pub price_minor : ℤ
  pub currency : String
  pub status : String
  pub created_at : ℤ
  pub updated_at : ℤ

pub record MediaRow : Type 0 where
  pub id : String
  pub product_id : String
  pub kind : String
  pub url : String
  pub position : ℤ

pub record ProductMedia : Type 0 where
  pub id : String
  pub product_id : String
  pub kind : MediaKind
  pub url : String
  pub position : ℤ

pub record DigitalConfig : Type 0 where
  pub product_id : String
  pub delivery_kind : DeliveryKind
  pub license_kind : Option LicenseKind
  pub notes : Option String

pub record ProductAttributeValue (F : Type 0) : Type 0 where
  pub product_id : String
  pub attribute_id : String
  pub data_type : DataType
  pub val_text : Option String
  pub val_num : Option F

pub record ConfigRow : Type 0 where
  pub product_id : String
  pub delivery_kind : String
  pub license_kind : Option String
  pub notes : Option String

pub record DigitalVariant : Type 0 where
  pub id : String
  pub product_id : String
  pub label : String
  pub format : Option String
  pub price_delta_minor : ℤ
  pub position : ℤ

pub record AttributeRow (F : Type 0) : Type 0 where
  pub product_id : String
  pub attribute_id : String
  pub data_type : String
  pub val_text : Option String
  pub val_num : Option F

pub record Translation : Type 0 where
  pub entity_type : String
  pub entity_id : String
  pub lang : String
  pub field : String
  pub value : String

pub record ProductTables (T F : Type 0) : Type 0 where
  pub products : List ProductRow
  pub product_media : List MediaRow
  pub digital_config : List ConfigRow
  pub digital_variant : List DigitalVariant
  pub product_attribute_values : List (AttributeRow F)
  pub translations : List Translation
  pub outbox : Outbox T

pub data ProductError : Type 0 where
  db : SqlError → ProductError
  invalid_enum : String → String → ProductError

-- `From<db::DbError>`
unfoldable pub from_db : DbError → ProductError
from_db (sqlx e) = db e
from_db json = db protocol
