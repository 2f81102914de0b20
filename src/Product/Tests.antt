-- ===== src/Product/Tests.antt =====
-- Runs of crates/product/src/repository.rs at one product.
use tiny_shop.Prelude.{
  ℕ, String, ◌≡◌, refl, false, none, some, ◌∷◌, ◌==◌, find?, filter, any, string_eq, [],
}
use tiny_shop.Prelude.Int.{pos}
use tiny_shop.Sql.{ok, err, Conn, transaction}
use tiny_shop.Shared.Json.{trees, reading_trees}
use tiny_shop.Events.Outbox.{no_rows, enqueue}
use tiny_shop.Product.{
  ProductRow, ProductMedia, ProductError, image, draft, published, status_str, parse_status,
}
use tiny_shop.Product.Repo.{Tables, is_product, status_transition_event, set_status, delete_product}
use tiny_shop.Product.Calls.{status, perform, Done}
use tiny_shop.Product.Calls.Effects.{perform_lem}
use tiny_shop.Product.Extras.Emits.{edit, new_media, announced, edit_lem}
use tiny_shop.Product.Changes.{Announced, IsErased, set_status_lem, delete_product_lem}

abbrev lamp : ProductRow
lamp = record {
  id = "p1";
  seller_id = "ada";
  title = "Lamp";
  slug = "lamp";
  description = "";
  price_minor = pos 900;
  currency = "UAH";
  status = "draft";
  created_at = pos 1;
  updated_at = pos 1;
}

abbrev tables : Tables trees ℕ
tables = record {
  products = lamp ∷ record lamp { id = "p2"; slug = "lamp-2" } ∷ [];
  product_media = [];
  digital_config = [];
  digital_variant =
      record {
        id = "v1";
        product_id = "p1";
        label = "Epub";
        format = none;
        price_delta_minor = pos 0;
        position = pos 0;
      }
      ∷ [];
  product_attribute_values = [];
  translations =
      record {
        entity_type = "digital_variant";
        entity_id = "v1";
        lang = "ru";
        field = "label";
        value = "EPUB";
      }
      ∷ [];
  outbox = no_rows;
}

abbrev quiet : Conn (Tables trees ℕ)
quiet = record { tables = tables; faults = [] }

lamp_found : find? (is_product "p1") tables.products ≡ some lamp
unfolding find?
lamp_found = refl

lamp_draft : parse_status "draft" ≡ some draft
unfolding parse_status
lamp_draft = refl

publish_runs : (set_status trees ℕ (pos 5) "p1" published quiet).0 ≡ ok tt
unfolding set_status transaction find?
publish_runs = refl

set_status_lem_example :
    (find? (is_product "p1") (set_status trees ℕ (pos 5) "p1" published quiet).1.tables.products
      ≡ some (record lamp { status = status_str published; updated_at = pos 5 }))
    × ((other : String)
        → ("p1" == other) ≡ false
        → find?
            (is_product other)
            (set_status trees ℕ (pos 5) "p1" published quiet).1.tables.products
          ≡ find? (is_product other) tables.products)
    × Announced trees ℕ
        (pos 5)
        "p1"
        draft
        published
        (status_transition_event draft published)
        no_rows
        (set_status trees ℕ (pos 5) "p1" published quiet).1.tables.outbox
set_status_lem_example =
    set_status_lem trees ℕ (pos 5) "p1" draft published lamp quiet lamp_found lamp_draft refl
      publish_runs

delete_runs : (delete_product trees ℕ (pos 6) "p1" quiet).0 ≡ ok tt
unfolding delete_product transaction filter any
delete_runs = refl

delete_product_lem_example :
    IsErased trees ℕ "p1" tables (delete_product trees ℕ (pos 6) "p1" quiet).1.tables
delete_product_lem_example = delete_product_lem trees ℕ (pos 6) "p1" quiet delete_runs

abbrev cover : ProductMedia
cover = record { id = "m1"; product_id = "p1"; kind = image; url = "/lamp.png"; position = pos 0 }

edit_lem_example :
    ((edit trees ℕ reading_trees (pos 7) (new_media cover) quiet).0 ≡ ok tt
      → (n : ℕ) × (enqueue trees
            (pos 7)
            (announced trees ℕ reading_trees (pos 7) (new_media cover))
            no_rows
          ≡ ok (n, (edit trees ℕ reading_trees (pos 7) (new_media cover) quiet).1.tables.outbox))
        × ((edit trees ℕ reading_trees (pos 7) (new_media cover) quiet).1.tables.products
            ≡ tables.products))
    × ((x : ProductError)
        → (edit trees ℕ reading_trees (pos 7) (new_media cover) quiet).0 ≡ err x
        → (edit trees ℕ reading_trees (pos 7) (new_media cover) quiet).1.tables ≡ tables)
edit_lem_example = edit_lem trees ℕ reading_trees (pos 7) (new_media cover) quiet

perform_runs : (perform trees ℕ reading_trees (pos 5) (status "p1" published) quiet).0 ≡ ok tt
unfolding perform set_status transaction find?
perform_runs = refl

perform_lem_example :
    Done trees ℕ reading_trees
      (pos 5)
      (status "p1" published)
      tables
      (perform trees ℕ reading_trees (pos 5) (status "p1" published) quiet).1.tables
perform_lem_example =
    perform_lem trees ℕ reading_trees (pos 5) (status "p1" published) quiet perform_runs
