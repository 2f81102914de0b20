-- ===== src/Web/Basket.antt =====
-- The handlers of crates/web/src/routes/cart.rs. `find_cart` stands in that file too, in the same
-- words as in routes/checkout.rs.
pub mod Others
pub mod Putting
pub mod Getting
pub mod Stored
pub mod Adding
pub mod Currency
use tiny_shop.Prelude.{
  String, Bool, true, false, Option, none, some, List, [], ◌∷◌, not, ◌==◌, string_eq, concat,
  if◌then◌else◌,
}
use tiny_shop.Prelude.Int.{ℤ, pos}
use tiny_shop.Sql.{Result, ok, err, Db}
use tiny_shop.Shared.Json.{Json}
use tiny_shop.Cart.{
  Cart, CartItem, NewCartItem, CartError, CartTables, create_cart, add_item, update_qty,
  remove_item,
}
use tiny_shop.Catalog.{ProductView}
use tiny_shop.Catalog.Search.Adapter.{get_card_by_slug}
use tiny_shop.Web.{WebError, not_found, bad_request, from_cart}
use tiny_shop.Web.Cookie.{set_cart_cookie}
use tiny_shop.Web.Checkout.{total_from, summary_currency}
use tiny_shop.Web.Checkout.Routes.{
  AppState, Handler, Site, Draw, from_search, find_cart, items_in, cart_items,
}

pub record AddForm : Type 0 where
  pub slug : String
  pub qty : ℤ

pub record UpdateForm : Type 0 where
  pub item_id : ℤ
  pub qty : ℤ

pub record RemoveForm : Type 0 where
  pub item_id : ℤ

-- An answer: the page of a cart, with its total and currency, or a redirect with the cookie that
-- is set.
pub data BasketResponse : Type 0 where
  empty_cart : BasketResponse
  cart_table : List CartItem → ℤ → String → BasketResponse
  see_other : Option String → String → BasketResponse

-- `existing_items.first()`, in another currency than the product's.
abbrev pub other_currency : String → List CartItem → Bool
other_currency currency [] = false
other_currency currency (i ∷ is) = not (i.currency == currency)

abbrev pub item_of_card : ProductView → ℤ → NewCartItem
item_of_card card qty = record {
  product_id = card.id;
  variant_id = none;
  qty = qty;
  title = card.title;
  unit_price_minor = card.price_minor;
  currency = card.currency;
}

unfoldable pub redirect_to_cart : Site → Option String → BasketResponse
unfolding set_cart_cookie
redirect_to_cart site none = see_other none "/cart"
redirect_to_cart site (some raw) = see_other (some (set_cart_cookie raw site.secure)) "/cart"

module _ (J : Json) {F : Type 0} (site : Site) (draw : Draw) where
  open site use {shown}

  -- GET /cart
  unfoldable pub render : Option String → Handler J F BasketResponse
  unfolding cart_items total_from summary_currency
  render headers w =
      let (found, w') = cart_items J site draw headers w in
      elim found [
        | err e ↦ (err e, w')
        | ok [] ↦ (ok empty_cart, w')
        | ok (i ∷ is) ↦
            (ok (cart_table (i ∷ is) (total_from (pos 0) (i ∷ is)) (summary_currency (i ∷ is))), w')
      ]

  -- The token of a new cart is drawn before the call; it is given back where a cart was made.
  unfoldable pub get_or_create_cart : String → Option String → Handler J F (Cart × Option String)
  unfolding find_cart create_cart from_cart
  get_or_create_cart raw headers w =
      let (found, w') = find_cart J site draw headers w in
      elim found [
        | err e ↦ (err e, w')
        | ok (some cart) ↦ (ok (cart, none), w')
        | ok none ↦
            let (made, carts) = create_cart site.hash_token draw.now raw w'.carts in
            elim made [
              | err e ↦ (err (from_cart shown e), record w' { carts = carts })
              | ok p ↦ (ok (p.1, some p.0), record w' { carts = carts })
            ]
      ]

  unfoldable pub put_in : Cart → Option String → ProductView → ℤ → Handler J F BasketResponse
  unfolding items_in add_item from_cart redirect_to_cart
  put_in cart new_token card qty w =
      let (existing, w') = items_in J site draw cart w in
      elim existing [
        | err e ↦ (err e, w')
        | ok is ↦
            if other_currency card.currency is
            then (err (bad_request "Товар у іншій валюті не можна додати до цього кошика"), w')
            else let (put, carts) =
                add_item draw.now cart.token_hash (item_of_card card qty) w'.carts in
              elim put [
                | err e ↦ (err (from_cart shown e), record w' { carts = carts })
                | ok _ ↦ (ok (redirect_to_cart site new_token), record w' { carts = carts })
              ]
      ]

  -- POST /cart/add
  unfoldable pub render_add : String → Option String → AddForm → Handler J F BasketResponse
  unfolding get_card_by_slug from_search get_or_create_cart put_in
  render_add raw headers form w =
      let (found, search) = get_card_by_slug shown.sql form.slug w.search in
      elim found [
        | err e ↦ (err (from_search e), record w { search = search })
        | ok none ↦ (ok (see_other none (concat "/p/" form.slug)), record w { search = search })
        | ok (some card) ↦
            let (given, w') = get_or_create_cart raw headers (record w { search = search }) in
            elim given [ err e ↦ (err e, w') | ok p ↦ put_in p.0 p.1 card form.qty w' ]
      ]

  -- `if let Some(cart) = find_cart(..).await? { ..await?; }`, then the redirect.
  unfoldable pub on_cart :
      (Cart → Db CartError CartTables (Unit {0})) → Option String → Handler J F BasketResponse
  unfolding find_cart from_cart redirect_to_cart
  on_cart change headers w =
      let (found, w') = find_cart J site draw headers w in
      elim found [
        | err e ↦ (err e, w')
        | ok none ↦ (ok (redirect_to_cart site none), w')
        | ok (some cart) ↦
            let (done, carts) = change cart w'.carts in
            elim done [
              | err e ↦ (err (from_cart shown e), record w' { carts = carts })
              | ok _ ↦ (ok (redirect_to_cart site none), record w' { carts = carts })
            ]
      ]

  -- POST /cart/update
  unfoldable pub render_update : Option String → UpdateForm → Handler J F BasketResponse
  unfolding on_cart update_qty
  render_update headers form =
      on_cart (λ cart. update_qty draw.now cart.token_hash form.item_id form.qty) headers

  -- POST /cart/remove
  unfoldable pub render_remove : Option String → RemoveForm → Handler J F BasketResponse
  unfolding on_cart remove_item
  render_remove headers form =
      on_cart (λ cart. remove_item draw.now cart.token_hash form.item_id) headers
