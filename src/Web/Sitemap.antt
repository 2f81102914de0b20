-- ===== src/Web/Sitemap.antt =====
-- crates/web/src/routes/sitemap.rs. The loops run on fuel, which the theorems give; `none` means
-- that it ran out. An offset is a `u32` and saturates.
pub mod Products
pub mod Tree
pub mod Categories
use tiny_shop.Prelude.{
  ℕ, zero, suc, ◌+◌, ◌-◌, ◌^◌, min, String, Bool, true, false, Option, none, some, List, [], ◌∷◌,
  ◌++◌, map, leb, concat,
}
use tiny_shop.Sql.{Result, ok, err, Conn}
use tiny_shop.Shared.Pages.{Pagination, max_limit}
use tiny_shop.Catalog.{Lang, uk, Category, Sort, relevance, SearchQuery, ProductCard, CatalogTables}
use tiny_shop.Catalog.Search.Adapter.{search}
use tiny_shop.Catalog.Taxonomy.{list_categories_by_parent}
use tiny_shop.Web.{WebError}
use tiny_shop.Web.Checkout.Routes.{from_search}
use tiny_shop.Web.Texts.{escape_xml}
use tiny_shop.Web.Pages.{Setting, absolute_url, from_taxonomy}

abbrev pub u32_max : ℕ
u32_max = 2 ^ 32 - 1

-- `a.saturating_add(b)` of `u32`
abbrev pub saturating_add : ℕ → ℕ → ℕ
saturating_add a b = min u32_max (a + b)

abbrev pub queued : List Category → List (Option String)
queued = map (λ (category : Category). some category.id)

module _ {F : Type 0} (setting : Setting F) where
  open setting use {base_url, shown, is_whitespace, is_alphanumeric, floats, fts}

  abbrev pub Ends : Type 0
  Ends = Option (Result WebError (List String) × Conn (CatalogTables F))

  -- What was pushed before the rest of a loop.
  abbrev pub after : List String → Ends → Ends
  after paths none = none
  after paths (some (err e, c)) = some (err e, c)
  after paths (some (ok more, c)) = some (ok (paths ++ more), c)

  abbrev pub everything : ℕ → SearchQuery F
  everything offset = record {
    text = none;
    category_id = none;
    filters = [];
    sort = relevance;
    page = record { offset = offset; limit = max_limit };
  }

  abbrev pub product_path : ProductCard → String
  product_path item = absolute_url base_url (concat "/p/" item.slug)

  -- The loop of `product_paths`, from an offset on.
  unfoldable pub product_loop : ℕ → ℕ → Conn (CatalogTables F) → Ends
  unfolding search from_search absolute_url
  product_loop zero offset c = none
  product_loop (suc fuel) offset c =
      let (found, c') =
        search is_whitespace is_alphanumeric floats fts shown.sql (everything offset) c in
      let rest = product_loop fuel (saturating_add offset max_limit) c' in
      elim found [
        | err e ↦ some (err (from_search e), c')
        | ok result ↦ elim result.items [
          | [] ↦ some (ok [], c')
          | item ∷ items ↦ elim (leb result.total (saturating_add offset max_limit)) [
            | true ↦ some (ok (map product_path (item ∷ items)), c')
            | false ↦ after (map product_path (item ∷ items)) rest
          ]
        ]
      ]

  unfoldable pub product_paths : ℕ → Conn (CatalogTables F) → Ends
  unfolding product_loop
  product_paths fuel = product_loop fuel 0

  abbrev pub category_path : Category → String
  category_path category = absolute_url base_url (concat "/c/" category.slug)

  -- The loop of `category_paths` over the queue of parents.
  unfoldable pub walk : ℕ → List (Option String) → Conn (CatalogTables F) → Ends
  unfolding list_categories_by_parent from_taxonomy absolute_url
  walk fuel [] c = some (ok [], c)
  walk zero (parent_id ∷ queue) c = none
  walk (suc fuel) (parent_id ∷ queue) c =
      let (found, c') = list_categories_by_parent F parent_id uk c in
      elim found [
        | err e ↦ some (err (from_taxonomy setting e), c')
        | ok children ↦ after (map category_path children) (walk fuel (queue ++ queued children) c')
      ]

  unfoldable pub category_paths : ℕ → Conn (CatalogTables F) → Ends
  unfolding walk
  category_paths fuel = walk fuel (none ∷ [])

  -- The two calls of `render`, one after the other, behind the path of the first page.
  abbrev then_products : ℕ → Ends → Ends
  then_products fuel none = none
  then_products fuel (some (err e, c)) = some (err e, c)
  then_products fuel (some (ok paths, c)) = after paths (product_paths fuel c)

  unfoldable pub locations : ℕ → ℕ → Conn (CatalogTables F) → Ends
  unfolding category_paths product_paths absolute_url
  locations walks pages c =
      after (absolute_url base_url "/" ∷ []) (then_products pages (category_paths walks c))

  abbrev pub entries : List String → String
  entries [] = ""
  entries (loc ∷ locs) =
      concat "  <url><loc>" (concat (escape_xml loc) (concat "</loc></url>\n" (entries locs)))

  -- The text of the sitemap.
  unfoldable pub xml_of : List String → String
  unfolding escape_xml
  xml_of locs =
      concat
        "<?xml version=\"1.0\" encoding=\"UTF-8\"?>\n<urlset xmlns=\"http://www.sitemaps.org/schemas/sitemap/0.9\">\n"
        (concat (entries locs) "</urlset>\n")
