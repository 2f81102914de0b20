-- ===== src/Web/Category.antt =====
-- crates/web/src/routes/category.rs: the page of a category and the links between its pages.
-- Percent-encoding is a parameter.
pub mod Filters
pub mod Links
pub mod Paging
use Prim.Native.Nat.{max}
use tiny_shop.Prelude.{
  ℕ, suc, ◌+◌, ◌-◌, ◌*◌, min, String, Bool, true, false, not, ◌&&◌, Option, none, some, List, [],
  ◌∷◌, ◌++◌, ◌==◌, string_eq, nat_eq, map, filter, find?, any, length, ltb, concat, if◌then◌else◌,
}
use tiny_shop.Prelude.Int.{ℤ}
use tiny_shop.Sql.{ok, err}
use tiny_shop.Shared.Pages.{Pagination, default_limit, clamped}
use tiny_shop.Catalog.{
  uk, Category, Attribute, AttributeOption, FilterType, Filter, FilterCond, checkbox_or, enum_and,
  string, number, range_price, range_generic, relevance, SearchQuery, ProductCard, SearchResult,
}
use tiny_shop.Catalog.Search.Adapter.{search}
use tiny_shop.Catalog.Taxonomy.{get_category_by_slug}
use tiny_shop.Catalog.Taxonomy.Attributes.{
  list_attributes_by_category, list_attribute_options, list_filters_by_category,
}
use tiny_shop.Web.Checkout.Routes.{from_search}
use tiny_shop.Web.Strings.{is_empty, trim}
use tiny_shop.Web.Texts.{decimal}
use tiny_shop.Web.Category.Filters.{Pairs, Numbers, Fieldset, build_filter_conds, filter_form}
use tiny_shop.Web.Pages.{
  Setting, Reader, answer, asked, or_not_found, ◌>>=◌, Crumb, ListItem, home_crumb, crumb_of,
  absolute_url, absolute_image, breadcrumb_list_ld, from_taxonomy,
}

-- The loop of `pagination_href` over the pairs, behind what it has written.
unfoldable pub query_of : (String → String) → String → Pairs → String
query_of encode_qs qs [] = qs
query_of encode_qs qs ((k, v) ∷ raw) =
    let more =
      concat (if is_empty qs then "" else concat qs "&")
        (concat (encode_qs k) (concat "=" (encode_qs v))) in
    if k == "page" then query_of encode_qs qs raw else query_of encode_qs more raw

unfoldable pub pagination_href : (String → String) → String → Pairs → ℕ → String
unfolding query_of decimal is_empty
pagination_href encode_qs slug raw page =
    let qs = query_of encode_qs "" raw in
    concat "/c/" (
      concat slug (
        concat "?"
          (concat (if is_empty qs then "" else concat qs "&") (concat "page=" (decimal page)))))

abbrev pub u32_max : ℕ
u32_max = 4294967295

-- The offset of a page, which counts from 1; it is brought to the greatest `u32`.
unfoldable pub page_of : ℕ → Pagination
unfolding clamped
page_of page = clamped (min u32_max ((page - 1) * default_limit)) default_limit

pub record ListElement : Type 0 where
  pub position : ℕ
  pub name : String
  pub url : String
  pub image : Option String

pub record CategoryPage : Type 0 where
  pub name : String
  pub crumbs : List Crumb
  pub breadcrumbs : List ListItem
  pub item_list : List ListElement
  pub filter_form : Option (List Fieldset)
  pub items : List ProductCard
  -- the links to the pages before and behind
  pub previous : Option String
  pub next : Option String

abbrev link_if : Bool → String → Option String
link_if true href = some href
link_if false href = none

module _ {F : Type 0} (setting : Setting F) (numbers : Numbers F)
    (encode_qs : String → String) where
  open setting use {base_url, shown, is_whitespace, is_alphanumeric, floats, fts}

  abbrev elements_from : ℕ → List ProductCard → List ListElement
  elements_from i [] = []
  elements_from i (item ∷ items) =
      record {
        position = i;
        name = item.title;
        url = absolute_url base_url (concat "/p/" item.slug);
        image = absolute_image setting item.thumb;
      }
      ∷ elements_from (suc i) items

  abbrev pub query_for : String → List (FilterCond F) → ℕ → SearchQuery F
  query_for category_id conds page = record {
    text = none;
    category_id = some category_id;
    filters = conds;
    sort = relevance;
    page = page_of page;
  }

  abbrev pub has_next : ℕ → SearchResult → Bool
  has_next page result = ltb ((page_of page).offset + length result.items) result.total

  -- No link is shown where the page has no products.
  abbrev linked : SearchResult → Bool → String → Option String
  linked result shows href = link_if (shows && not (length result.items == 0)) href

  unfoldable pub show_page :
      String
      → Pairs
      → ℕ
      → Category
      → List Crumb
      → Option (List Fieldset)
      → SearchResult
      → CategoryPage
  unfolding breadcrumb_list_ld absolute_url page_of pagination_href
  show_page slug raw page category crumbs form result = record {
    name = category.name;
    crumbs = crumbs;
    breadcrumbs = breadcrumb_list_ld base_url crumbs (concat "/c/" slug);
    item_list = elements_from 1 result.items;
    filter_form = form;
    items = result.items;
    previous =
        linked result (ltb 0 (page_of page).offset) (pagination_href encode_qs slug raw (page - 1));
    next =
        linked result (has_next page result)
          (pagination_href encode_qs slug raw (min u32_max (page + 1)));
  }

  unfoldable pub render : String → ℕ → Pairs → Reader F CategoryPage
  unfolding get_category_by_slug list_filters_by_category search from_taxonomy from_search crumb_of
      build_filter_conds page_of filter_form show_page
  render slug page raw = do
    found ← asked (from_taxonomy setting) (get_category_by_slug F slug uk)
    category ← or_not_found found
    above ← crumb_of setting category.parent_id
    filters ← asked (from_taxonomy setting) (list_filters_by_category F category.id)
    result ← asked from_search (
        search is_whitespace is_alphanumeric floats fts shown.sql
          (query_for category.id (build_filter_conds setting numbers filters raw) page))
    form ← filter_form setting numbers category.id filters raw
    answer (
        show_page slug raw page category (home_crumb ∷ (above ++ (category.name, none) ∷ [])) form
          result)

  -- GET /c/{slug}: `query.page.unwrap_or(1).max(1)`
  unfoldable pub show : String → Option ℕ → Pairs → Reader F CategoryPage
  unfolding render
  show slug none raw = render slug 1 raw
  show slug (some page) raw = render slug (max page 1) raw
