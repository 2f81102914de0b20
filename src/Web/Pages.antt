-- ===== src/Web/Pages.antt =====
-- What the pages of crates/web/src share: the parameters of their handlers, the addresses of
-- jsonld.rs, and the errors of the catalog's repositories, which all become internal ones.
mod Tests
use tiny_shop.Prelude.{ℕ, suc, String, Bool, Option, none, some, List, [], ◌∷◌, ◌++◌, concat}
use tiny_shop.Sql.{Result, ok, err, Conn, Db}
use tiny_shop.Catalog.{Lang, uk, Category, ProductView, FtsRow, CatalogTables}
use tiny_shop.Catalog.Search.{Floats}
use tiny_shop.Catalog.Search.Adapter.{get_card_by_slug}
use tiny_shop.Catalog.Taxonomy.{TaxonomyError, get_category, list_categories_by_parent}
use tiny_shop.Web.{WebError, not_found, internal, Display}
use tiny_shop.Web.Texts.{format_price_minor}
use tiny_shop.Web.Checkout.Routes.{from_search}

-- `state.base_url`, and what the catalog takes from outside.
pub record Setting (F : Type 0) : Type 0 where
  pub base_url : String
  pub shown : Display
  pub taxonomy_text : TaxonomyError → String
  pub is_whitespace : ℕ → Bool
  pub is_alphanumeric : ℕ → Bool
  pub floats : Floats F
  pub fts : List ℕ → FtsRow → Bool

unfoldable pub absolute_url : String → String → String
absolute_url base_url path = concat base_url path

-- `map_err(|e| WebError::Internal(e.to_string()))`
unfoldable pub from_taxonomy : {F : Type 0} → Setting F → TaxonomyError → WebError
from_taxonomy setting e = internal (setting.taxonomy_text e)

-- A handler that reads the catalog only.
abbrev pub Reader : Type 0 → Type 0 → Type 0
Reader F A = Conn (CatalogTables F) → Result WebError A × Conn (CatalogTables F)

module _ {F A : Type 0} where
  abbrev pub answer : A → Reader F A
  answer a c = (ok a, c)

  abbrev pub refuse : WebError → Reader F A
  refuse e c = (err e, c)

  -- An access with `.map_err(..)?`.
  abbrev pub asked : {E : Type 0} → (E → WebError) → Db E (CatalogTables F) A → Reader F A
  asked f access c = elim (access c).0 [
    | ok a ↦ (ok a, (access c).1)
    | err e ↦ (err (f e), (access c).1)
  ]

  -- `.ok_or(WebError::NotFound)?`
  abbrev pub or_not_found : Option A → Reader F A
  or_not_found none = refuse not_found
  or_not_found (some a) = answer a

module _ {F A B : Type 0} where
  infixl 5 ◌>>=◌
  abbrev pub ◌>>=◌ : Reader F A → (A → Reader F B) → Reader F B
  ◌>>=◌ m f c = elim (m c).0 [ ok a ↦ f a (m c).1 | err e ↦ (err e, (m c).1) ]

-- A crumb: a name, and the address of all but the current page.
abbrev pub Crumb : Type 0
Crumb = String × Option String

pub record ListItem : Type 0 where
  pub position : ℕ
  pub name : String
  pub item : String

abbrev crumb_item : String → String → ℕ → Crumb → ListItem
crumb_item base_url current_path i (name, some url) = record {
  position = i;
  name = name;
  item = absolute_url base_url url;
}
crumb_item base_url current_path i (name, none) = record {
  position = i;
  name = name;
  item = absolute_url base_url current_path;
}

abbrev items_from : String → String → ℕ → List Crumb → List ListItem
items_from base_url current_path i [] = []
items_from base_url current_path i (crumb ∷ crumbs) =
    crumb_item base_url current_path i crumb ∷ items_from base_url current_path (suc i) crumbs

unfoldable pub breadcrumb_list_ld : String → List Crumb → String → List ListItem
unfolding absolute_url
breadcrumb_list_ld base_url crumbs current_path = items_from base_url current_path 1 crumbs

-- GET /robots.txt
unfoldable pub robots : String → String
unfolding absolute_url
robots base_url =
    concat "User-agent: *\nAllow: /\n\nSitemap: "
      (concat (absolute_url base_url "/sitemap.xml") "\n")

abbrev pub home_crumb : Crumb
home_crumb = ("Головна", some "/")

abbrev category_crumb : Option Category → List Crumb
category_crumb none = []
category_crumb (some category) = (category.name, some (concat "/c/" category.slug)) ∷ []

module _ {F : Type 0} (setting : Setting F) where
  open setting use {base_url, shown}

  -- GET /: the categories without a parent.
  unfoldable pub home : Reader F (List Category)
  unfolding list_categories_by_parent from_taxonomy
  home = asked (from_taxonomy setting) (list_categories_by_parent F none uk)

  -- The crumb of a category that is named, where it exists.
  unfoldable pub crumb_of : Option String → Reader F (List Crumb)
  unfolding get_category from_taxonomy
  crumb_of none = answer []
  crumb_of (some id) = do
    category ← asked (from_taxonomy setting) (get_category F id uk)
    answer (category_crumb category)

  -- What the page of a product shows, and its JSON-LD.
  pub record ProductPage : Type 0 where
    pub card : ProductView
    pub price : String
    pub image : Option String
    pub crumbs : List Crumb
    pub breadcrumbs : List ListItem

  abbrev pub absolute_image : Option String → Option String
  absolute_image none = none
  absolute_image (some thumb) = some (absolute_url base_url thumb)

  -- GET /p/{slug}
  unfoldable pub product_page : String → Reader F ProductPage
  unfolding get_card_by_slug from_search crumb_of format_price_minor breadcrumb_list_ld absolute_url
  product_page slug = do
    found ← asked from_search (get_card_by_slug shown.sql slug)
    card ← or_not_found found
    above ← crumb_of card.category_id
    let crumbs = home_crumb ∷ (above ++ (card.title, none) ∷ [])
    answer (record {
      card = card;
      price = format_price_minor card.price_minor;
      image = absolute_image card.thumb;
      crumbs = crumbs;
      breadcrumbs = breadcrumb_list_ld base_url crumbs (concat "/p/" slug);
    })
