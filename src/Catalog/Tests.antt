-- ===== src/Catalog/Tests.antt =====
-- Runs of crates/catalog/src/projection.rs and search.rs at one product.
use mathlib.Core.Option
use tiny_shop.Prelude.{
  ◌&&◌, ==_iff, ℕ, String, ◌≡◌, refl, Bool, true, false, none, some, List, [], ◌∷◌, ◌==◌, nat_eq,
  string_eq, leb, concat, find?, any, filter, All, arith, order_by,
}
use tiny_shop.Prelude.Int.{pos}
use tiny_shop.Sql.{SqlError, ok, Conn, fails, transaction, query}
use tiny_shop.Shared.{DomainEvent}
use tiny_shop.Shared.Json.{trees, reading_trees}
use tiny_shop.Events.Outbox.{no_rows}
use tiny_shop.Product.{Product, ProductRow, draft, published, archived, parse_status, status_str}
use tiny_shop.Product.Repo.{Tables, product_snapshot, create_product, set_status, is_product}
use tiny_shop.Product.Calls.{new_product, perform, row_of_product}
use tiny_shop.Catalog.{
  FilterCond, price_asc, SearchQuery, SearchResult, ProjectionRow, FtsRow, CatalogTables,
}
use tiny_shop.Catalog.Mirror.{Mirrors}
use tiny_shop.Catalog.Mirror.Course.{
  Course, start, called, Course-Mirrors, republished, unseen_change,
}
use tiny_shop.Catalog.Projection.{dispatch, row_id}
use tiny_shop.Catalog.Projection.Redelivery.{dispatch_twice}
use tiny_shop.Catalog.Search.{Floats}
use tiny_shop.Catalog.Search.Adapter.{nothing_found, search, card_of}
use tiny_shop.Catalog.Search.Answered.{Answers, search_lem}
use tiny_shop.Catalog.Search.EnumAnd.{search-enum_and}
use tiny_shop.Catalog.Search.Terms.{build_fts_query}
use tiny_shop.Catalog.Search.Terms.Shape.{specials, Prefixes, build_fts_query-Prefixes}

abbrev glued : List String → String
glued [] = ""
glued (s ∷ ss) = concat s (glued ss)

abbrev shown : SqlError → String
shown e = "error"

abbrev lamp : Product
lamp = record {
  id = "p1";
  seller_id = "ada";
  title = "Lamp";
  slug = "lamp";
  description = "";
  price_minor = pos 900;
  currency = "UAH";
  status = draft;
  created_at = pos 1;
  updated_at = pos 1;
}

abbrev no_products : Conn (Tables trees ℕ)
no_products = record {
  tables = record {
    products = [];
    product_media = [];
    digital_config = [];
    digital_variant = [];
    product_attribute_values = [];
    translations = [];
    outbox = no_rows;
  };
  faults = [];
}

abbrev no_rows_yet : Conn (CatalogTables ℕ)
no_rows_yet = record {
  tables = record {
    categories = [];
    attributes = [];
    attribute_options = [];
    filters = [];
    translations = [];
    product_projection = [];
    product_attr_index = [];
    product_fts = [];
  };
  faults = [];
}

abbrev created : DomainEvent trees.Value
created = record {
  id = 1;
  aggregate = "product";
  aggregate_id = "p1";
  event_type = "ProductCreated";
  payload = product_snapshot trees ℕ lamp;
  created_at = pos 2;
}

abbrev catalog : Conn (CatalogTables ℕ)
catalog = (dispatch trees ℕ reading_trees glued shown "product" created no_rows_yet).1

created_accepted :
    (dispatch trees ℕ reading_trees glued shown "product" created no_rows_yet).0 ≡ ok tt
unfolding dispatch transaction product_snapshot any find? filter
created_accepted = refl

not_failing : fails catalog.faults ≡ false
unfolding dispatch transaction product_snapshot any find? filter
not_failing = refl

dispatch_twice_example :
    ((dispatch trees ℕ reading_trees glued shown "product" created catalog).0 ≡ ok tt)
    × ((dispatch trees ℕ reading_trees glued shown "product" created catalog).1.tables
        ≡ catalog.tables)
dispatch_twice_example =
    dispatch_twice trees ℕ reading_trees glued shown "product" created no_rows_yet created_accepted
      not_failing

create_runs : (perform trees ℕ reading_trees (pos 2) (new_product lamp) no_products).0 ≡ ok tt
unfolding perform create_product transaction any
create_runs = refl

one_step :
    Course trees ℕ reading_trees glued shown no_products no_rows_yet
      (perform trees ℕ reading_trees (pos 2) (new_product lamp) no_products).1
      catalog
unfolding any
one_step = called (pos 2) (new_product lamp) start create_runs refl (record {
  source = "product";
  event = created;
  same_type = refl;
  same_payload = refl;
  accepted = created_accepted;
  left = refl;
})

nothing_mirrored : Mirrors [] []
unfolding find?
nothing_mirrored id = refl

Course-Mirrors_example :
    Mirrors
      (perform trees ℕ reading_trees (pos 2) (new_product lamp) no_products).1.tables.products
      catalog.tables.product_projection
Course-Mirrors_example =
    Course-Mirrors trees ℕ reading_trees glued shown no_products no_rows_yet
      (perform trees ℕ reading_trees (pos 2) (new_product lamp) no_products).1 catalog one_step
      nothing_mirrored

abbrev offered : ProjectionRow
offered = record {
  id = "p1";
  seller_id = "ada";
  title = "Lamp";
  slug = "lamp";
  description = "";
  price_minor = pos 900;
  currency = "UAH";
  status = "published";
  category_id = none;
  thumb = none;
  created_at = pos 1;
  updated_at = pos 1;
}

-- A product that was archived, and stands so in the catalog.
abbrev old_lamp : ProductRow
old_lamp = record (row_of_product lamp) { status = "archived" }

abbrev archive : Conn (Tables trees ℕ)
archive = record { tables = record no_products.tables { products = old_lamp ∷ [] }; faults = [] }

abbrev archived_row : ProjectionRow
archived_row = record offered { status = "archived" }

abbrev old_catalog : Conn (CatalogTables ℕ)
old_catalog = record {
  tables = record no_rows_yet.tables { product_projection = archived_row ∷ [] };
  faults = [];
}

old_found : find? (is_product "p1") (old_lamp ∷ []) ≡ some old_lamp
unfolding find?
old_found = refl

old_parsed : parse_status "archived" ≡ some archived
unfolding parse_status
old_parsed = refl

republish_runs : (set_status trees ℕ (pos 5) "p1" published archive).0 ≡ ok tt
unfolding set_status transaction find?
republish_runs = refl

old_mirrored : Mirrors (old_lamp ∷ []) (archived_row ∷ [])
unfolding find?
old_mirrored id = ground arith

unseen_change_example :
    ((set_status trees ℕ (pos 5) "p1" published archive).1.tables.outbox ≡ archive.tables.outbox)
    × (Option.map
          (λ (r : ProductRow). r.status)
          (find?
            (is_product "p1")
            (set_status trees ℕ (pos 5) "p1" published archive).1.tables.products)
        ≡ some (status_str published))
    × (Option.map
          (λ (r : ProjectionRow). r.status)
          (find? (row_id "p1") old_catalog.tables.product_projection)
        ≡ some "archived")
    × (¬ Mirrors
        (set_status trees ℕ (pos 5) "p1" published archive).1.tables.products
        old_catalog.tables.product_projection)
unseen_change_example =
    unseen_change trees ℕ (pos 5) "p1" archived published old_lamp archive old_catalog republished
      old_found old_parsed republish_runs old_mirrored

abbrev numbers : Floats ℕ
numbers = record { eq = λ a b. a == b; le = leb }

abbrev blank : ℕ → Bool
blank c = c == b' '

abbrev letter : ℕ → Bool
letter c = leb b'a' c && leb c b'z'

abbrev matching : List ℕ → FtsRow → Bool
matching term d = true

abbrev shop : Conn (CatalogTables ℕ)
shop = record {
  tables = record no_rows_yet.tables {
    product_projection =
        offered ∷ record offered { id = "p2"; slug = "big-lamp"; price_minor = pos 5000 } ∷ [];
  };
  faults = [];
}

abbrev up_to_1000 : SearchQuery ℕ
up_to_1000 = record {
  text = none;
  category_id = none;
  filters = FilterCond.range_price none (some (pos 1000)) ∷ [];
  sort = price_asc;
  page = record { offset = 0; limit = 24 };
}

abbrev one_lamp : SearchResult
one_lamp = record { items = card_of offered ∷ []; total = 1; facets = [] }

search_runs : (search blank letter numbers matching shown up_to_1000 shop).0 ≡ ok one_lamp
unfolding search query transaction filter order_by
search_runs = refl

search_lem_example :
    Answers blank letter numbers matching shown up_to_1000 shop.tables one_lamp
    × ((search blank letter numbers matching shown up_to_1000 shop).1.tables ≡ shop.tables)
search_lem_example =
    search_lem blank letter numbers matching shown up_to_1000 shop one_lamp search_runs

abbrev both_sizes : SearchQuery ℕ
both_sizes = record up_to_1000 { filters = FilterCond.enum_and "size" ("S" ∷ "M" ∷ []) ∷ [] }

search-enum_and_example :
    (search blank letter numbers matching shown both_sizes shop).0 ≡ ok nothing_found
search-enum_and_example =
    search-enum_and blank letter numbers matching shown both_sizes shop [] [] "size" "S" "M" [] refl
      tt refl

no_letters : All (λ c. letter c ≡ false) specials
no_letters = (
  refl,
  (
    refl,
    (refl, (refl, (refl, (refl, (refl, (refl, (refl, (refl, (refl, (refl, (refl, tt))))))))))),
  ),
)

no_blanks : (c : ℕ) → blank c ≡ true → letter c ≡ false
no_blanks c h = rw ((==_iff c b' ').0 h) refl

abbrev quoted : List ℕ
quoted = b'"' ∷ b'a' ∷ b' ' ∷ b'b' ∷ b')' ∷ []

build_fts_query-Prefixes_example :
    Prefixes (build_fts_query blank letter quoted)
    × (filter letter (build_fts_query blank letter quoted) ≡ filter letter quoted)
build_fts_query-Prefixes_example = build_fts_query-Prefixes blank letter no_letters no_blanks quoted
