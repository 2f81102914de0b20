-- ===== src/Web/Pages/Tests.antt =====
-- Runs of the pages of crates/web/src on a small catalog.
use tiny_shop.Prelude.{
  ℕ, suc, Bool-cases, inl, inr, subst, ==_iff, ◌≤◌, ◌*◌, ◌-◌, String, ◌≡◌, refl, false, Option,
  some, none, [], ◌∷◌, ◌++◌, arith, map, filter, any, order_by, take, drop, length, ltb, ◌==◌,
  nat_eq, string_eq, option_eq,
}
use tiny_shop.Prelude.Rows.Counted.{count}
use tiny_shop.Prelude.Int.{ℤ, pos, negsuc}
use tiny_shop.Sql.{ok, Conn, query, transaction}
use tiny_shop.Shared.Pages.{default_limit, clamped}
use tiny_shop.Catalog.{Category, ProjectionRow, CatalogTables, SearchResult}
use tiny_shop.Catalog.Search.Adapter.{card_of, search}
use tiny_shop.Web.Strings.{any_char, split_once}
use tiny_shop.Web.Texts.{format_price_minor, escape_xml, escape_json, decimal, replace_char}
use tiny_shop.Web.Texts.Price.{Reads, format_price_minor-Reads}
use tiny_shop.Web.Texts.Escape.{
  each_char, escape_xml_lem, escape_json-no_tag, any_char-replace_char, any_char-replace_other,
}
use tiny_shop.Web.Pages.{Setting}
use tiny_shop.Web.Sitemap.{product_paths, category_paths, queued}
use tiny_shop.Web.Sitemap.Products.{published, row_path, Listed, product_paths-Listed}
use tiny_shop.Web.Sitemap.Categories.{Finished, category_paths-Finished}
use tiny_shop.Web.Category.Filters.{Numbers, Pairs}
use tiny_shop.Web.Category.{page_of, query_for, has_next, pagination_href}
use tiny_shop.Web.Category.Links.{Encoding, pairs_of, kept, read_back, pagination_href_lem}
use tiny_shop.Web.Category.Paging.{rows, page_lem}

abbrev setting : Setting ℕ
setting = record {
  base_url = "http://shop";
  shown = record { number = λ n. "number"; sql = λ e. "sql"; order = λ e. "order" };
  taxonomy_text = λ e. "taxonomy";
  is_whitespace = λ c. c == b' ';
  is_alphanumeric = λ c. ltb 47 c;
  floats = record { eq = λ x y. x == y; le = λ x y. ltb x (suc y) };
  fts = λ term r. false;
}

abbrev row : String → ℤ → ProjectionRow
row id created_at = record {
  id = id;
  seller_id = "ada";
  title = id;
  slug = id;
  description = "";
  price_minor = pos 950;
  currency = "EUR";
  status = "published";
  category_id = none;
  thumb = none;
  created_at = created_at;
  updated_at = created_at;
}

abbrev category : String → Option String → Category
category id parent_id = record {
  id = id;
  parent_id = parent_id;
  name = id;
  slug = id;
  path = id;
  position = pos 0;
}

-- A category, and one that is its own parent.
abbrev catalog : Conn (CatalogTables ℕ)
catalog = record {
  tables = record {
    categories = category "home" none ∷ category "lost" (some "lost") ∷ [];
    attributes = [];
    attribute_options = [];
    filters = [];
    translations = [];
    product_projection = row "lamp" (pos 1) ∷ row "desk" (pos 2) ∷ [];
    product_attr_index =
        record {
          product_id = "lamp";
          category_id = "home";
          attribute_id = "height";
          val_text = none;
          val_num = some 30;
        }
        ∷ [];
    product_fts = [];
  };
  faults = [];
}

two_published : length (published catalog.tables) ≡ 2
unfolding order_by filter
two_published = refl

product_paths-Listed_example :
    Listed setting
      (map (row_path setting) (published catalog.tables))
      (product_paths setting 1 catalog)
product_paths-Listed_example =
    product_paths-Listed setting 1 catalog (omega (arith, two_published))
      (omega (arith, two_published)) (omega arith)

unique : (id : String) → count (some id) (queued catalog.tables.categories) ≤ 1
unfolding count
unique id = elim (Bool-cases ("home" == id)) [
  | inl e ↦
      subst (λ i. count (some i) (queued catalog.tables.categories) ≤ 1) ((==_iff "home" id).0 e)
        (omega arith)
  | inr e ↦ rw e (ground arith)
]

category_paths-Finished_example :
    Finished setting catalog.tables.categories 2 (category_paths setting 3 catalog)
category_paths-Finished_example = category_paths-Finished setting 3 catalog unique (omega arith)

format_price_minor-Reads_example : Reads (format_price_minor (negsuc 4)) (negsuc 4)
format_price_minor-Reads_example = format_price_minor-Reads (negsuc 4)

format_price_minor_runs : format_price_minor (pos 19905) ≡ "199.05"
unfolding format_price_minor
format_price_minor_runs = refl

escape_xml_lem_example :
    (escape_xml "a<b&c" ≡ each_char "a<b&c")
    × (any_char (λ c. c == b'<') (escape_xml "a<b&c") ≡ false)
    × (any_char (λ c. c == b'>') (escape_xml "a<b&c") ≡ false)
escape_xml_lem_example = escape_xml_lem "a<b&c"

escape_json-no_tag_example : any_char (λ c. c == b'<') (escape_json "</script>") ≡ false
escape_json-no_tag_example = escape_json-no_tag "</script>"

abbrev numbers : Numbers ℕ
numbers = record { parse = λ s. none; times_100 = λ x. x * 100; round = pos }

abbrev encode_qs : String → String
encode_qs s = replace_char b'=' "%3D" (replace_char b'&' "%26" s)

no_amp : (s : String) → any_char (λ c. c == b'&') (encode_qs s) ≡ false
unfolding any_char
no_amp s =
    any_char-replace_other b'&' b'=' "%3D" (replace_char b'&' "%26" s) refl
      (any_char-replace_char b'&' "%26" s refl)

no_equals : (s : String) → any_char (λ c. c == b'=') (encode_qs s) ≡ false
unfolding any_char
no_equals s = any_char-replace_char b'=' "%3D" (replace_char b'&' "%26" s) refl

encoding : Encoding encode_qs
encoding = record { no_amp = no_amp; no_equals = no_equals }

abbrev raw : Pairs
raw = ("attr_height_min", "10") ∷ ("page", "2") ∷ ("attr_kind", "a&b") ∷ []

plain_slug : any_char (λ c. c == b'?') "home" ≡ false
unfolding any_char
plain_slug = refl

pagination_href_lem_example :
    (query : String) × (split_once b'?' (pagination_href encode_qs "home" raw 3)
      ≡ some ("/c/home", query))
    × (pairs_of query
        ≡ map (read_back encode_qs encoding) (kept raw) ++ some ("page", decimal 3) ∷ [])
pagination_href_lem_example = pagination_href_lem encode_qs encoding "home" raw 3 plain_slug

abbrev one_lamp : SearchResult
one_lamp = record { items = card_of (row "lamp" (pos 1)) ∷ []; total = 1; facets = [] }

lamp_found :
    (search setting.is_whitespace setting.is_alphanumeric setting.floats setting.fts
      setting.shown.sql
      (query_for setting numbers encode_qs "home" [] 1)
      catalog).0
    ≡ ok one_lamp
unfolding search query transaction filter order_by page_of clamped any
lamp_found = refl

page_lem_example :
    (one_lamp.items
      ≡ map card_of (
          take default_limit (
            drop
              ((1 - 1) * default_limit)
              (rows setting numbers encode_qs "home" [] catalog.tables))))
    × (has_next setting numbers encode_qs 1 one_lamp
        ≡ ltb
            (1 * default_limit)
            (length (rows setting numbers encode_qs "home" [] catalog.tables)))
page_lem_example =
    page_lem setting numbers encode_qs "home" [] 1 catalog one_lamp (omega arith) (omega arith)
      lamp_found
