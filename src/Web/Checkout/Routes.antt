-- ===== src/Web/Checkout/Routes.antt =====
-- The handlers of crates/web/src/routes/checkout.rs. The carts and the orders have one file in the
-- source; no operation reads the tables of the other, so each has an access of its own here.
use tiny_shop.Prelude.{
  ℕ, zero, suc, ◌+◌, String, Bool, not, Option, none, some, List, [], ◌∷◌, ◌++◌, ◌==◌, string_eq,
  any, concat, if◌then◌else◌,
}
use tiny_shop.Prelude.Int.{ℤ, pos, pos_part}
use tiny_shop.Sql.{Result, ok, err, Conn}
use tiny_shop.Shared.Json.{Json}
use tiny_shop.Cart.{Cart, CartItem, CartTables, find_by_token, list_items, clear}
use tiny_shop.Orders.{NewOrderItem, NewOrderContact}
use tiny_shop.Orders.Repo.{Tables, get_order_with_items, checkout}
use tiny_shop.Catalog.{CatalogTables, ProductView, SearchError, backend}
use tiny_shop.Catalog.Search.Adapter.{get_card_by_id}
use tiny_shop.Web.{WebError, not_found, bad_request, internal, Display, from_cart, from_order}
use tiny_shop.Web.Cookie.{extract_cart_token, expire_cart_cookie}
use tiny_shop.Web.Checkout.{
  ContactForm, Response, see_other, summary, invalid_contact, confirmation, total_from,
  summary_currency, validate_contact,
}

-- `AppState`
pub record AppState (J : Json) (F : Type 0) : Type 0 where
  pub carts : Conn CartTables
  pub orders : Conn (Tables J)
  pub search : Conn (CatalogTables F)

-- What a request draws from outside.
pub record Draw : Type 0 where
  pub now : ℤ
  pub buyer : String
  pub order_id : String
  pub item_id : ℕ → String

-- The rest of the surroundings: `state.base_url.starts_with("https://")`, and the parameters.
pub record Site : Type 0 where
  pub secure : Bool
  pub is_whitespace : ℕ → Bool
  pub is_control : ℕ → Bool
  pub hash_token : String → String
  pub shown : Display

-- `map_err(|e| WebError::Internal(e.to_string()))`
unfoldable pub from_search : SearchError → WebError
from_search (backend e) = internal e

abbrev pub gone : String → WebError
gone title = bad_request (
    concat "Товар \""
      (concat title "\" більше не доступний для замовлення. Будь ласка, поверніться до кошика."))

-- How many rows `0..cart_item.qty` makes.
abbrev pub units_of : CartItem → ℕ
units_of i = pos_part i.qty

abbrev pub Handler : Json → Type 0 → Type 0 → Type 0
Handler J F A = AppState J F → Result WebError A × AppState J F

module _ (J : Json) where
  open J use {Value}

  -- The body of the loop over `0..cart_item.qty`.
  abbrev pub unit : String → ProductView → CartItem → NewOrderItem Value
  unit id card i = record {
    id = id;
    order_id = "";
    product_id = card.id;
    seller_id = card.seller_id;
    variant_id = i.variant_id;
    title = card.title;
    unit_price_minor = card.price_minor;
    currency = card.currency;
    config_snapshot = none;
  }

  abbrev pub units : (ℕ → String) → ℕ → ℕ → ProductView → CartItem → List (NewOrderItem Value)
  units item_id next zero card i = []
  units item_id next (suc n) card i = unit (item_id next) card i ∷ units item_id (suc next) n card i

  abbrev pub mixed : String → List (NewOrderItem Value) → Bool
  mixed currency = any (λ (i : NewOrderItem Value). not (i.currency == currency))

module _ (J : Json) {F : Type 0} (site : Site) (draw : Draw) where
  open J use {Value}
  open site use {shown}

  unfoldable pub find_cart : Option String → Handler J F (Option Cart)
  unfolding find_by_token extract_cart_token from_cart
  find_cart headers w = elim (extract_cart_token site.is_whitespace headers) [
    | none ↦ (ok none, w)
    | some token ↦
        let (found, carts) = find_by_token site.hash_token token w.carts in
        elim found [
          | err e ↦ (err (from_cart shown e), record w { carts = carts })
          | ok cart ↦ (ok cart, record w { carts = carts })
        ]
  ]

  -- `list_items(..).await?`
  unfoldable pub items_in : Cart → Handler J F (List CartItem)
  unfolding list_items from_cart
  items_in cart w =
      let (found, carts) = list_items cart.token_hash w.carts in
      elim found [
        | err e ↦ (err (from_cart shown e), record w { carts = carts })
        | ok items ↦ (ok items, record w { carts = carts })
      ]

  unfoldable pub cart_items : Option String → Handler J F (List CartItem)
  unfolding find_cart items_in
  cart_items headers w =
      let (found, w') = find_cart headers w in
      elim found [ err e ↦ (err e, w') | ok none ↦ (ok [], w') | ok (some cart) ↦ items_in cart w' ]

  -- GET /checkout
  unfoldable pub render_show : Option String → Handler J F (Response Value)
  unfolding cart_items total_from summary_currency
  render_show headers w =
      let (found, w') = cart_items headers w in
      elim found [
        | err e ↦ (err e, w')
        | ok [] ↦ (ok (see_other none "/cart"), w')
        | ok (i ∷ is) ↦
            (ok (summary (i ∷ is) (total_from (pos 0) (i ∷ is)) (summary_currency (i ∷ is))), w')
      ]

  -- The loop over the items of the cart; `next` counts the ids that are drawn.
  unfoldable pub order_items :
      ℕ
      → List CartItem
      → Conn (CatalogTables F)
      → Result WebError (List (NewOrderItem Value)) × Conn (CatalogTables F)
  unfolding get_card_by_id from_search
  order_items next [] c = (ok [], c)
  order_items next (i ∷ is) c =
      let (found, c') = get_card_by_id shown.sql i.product_id c in
      elim found [
        | err e ↦ (err (from_search e), c')
        | ok none ↦ (err (gone i.title), c')
        | ok (some card) ↦
            let (rest, c'') = order_items (next + units_of i) is c' in
            elim rest [
              | err e ↦ (err e, c'')
              | ok items ↦ (ok (units J draw.item_id next (units_of i) card i ++ items), c'')
            ]
      ]

  -- The end of `render_submit`: the cart is cleared and its cookie expires.
  unfoldable pub settle_cart : Cart → String → Handler J F (Response Value)
  unfolding clear from_cart expire_cart_cookie
  settle_cart cart order_id w =
      let (cleared, carts) = clear draw.now cart.token_hash w.carts in
      elim cleared [
        | err e ↦ (err (from_cart shown e), record w { carts = carts })
        | ok _ ↦ (
          ok (
              see_other (some (expire_cart_cookie site.secure))
                (concat "/checkout/done/" order_id)),
          record w { carts = carts },
        )
      ]

  unfoldable pub place_order :
      Cart
      → NewOrderContact
      → NewOrderItem Value
      → List (NewOrderItem Value)
      → Handler J F (Response Value)
  unfolding checkout from_order settle_cart
  place_order cart contact item items w =
      if mixed J item.currency (item ∷ items)
      then (err (bad_request "товари в кошику мають різні валюти, оформлення неможливе"), w)
      else let (placed, orders) =
          checkout J draw.order_id draw.now (concat "guest:" draw.buyer) item.currency
            (item ∷ items) (some contact) w.orders in
        elim placed [
          | err e ↦ (err (from_order shown e), record w { orders = orders })
          | ok order_id ↦ settle_cart cart order_id (record w { orders = orders })
        ]

  unfoldable pub submit_items :
      Cart → NewOrderContact → List CartItem → Handler J F (Response Value)
  unfolding order_items place_order
  submit_items cart contact is w =
      let (made, search) = order_items 0 is w.search in
      elim made [
        | err e ↦ (err e, record w { search = search })
        | ok [] ↦
            (err (bad_request "усі товари кошика більше не доступні"), record w { search = search })
        | ok (item ∷ items) ↦ place_order cart contact item items (record w { search = search })
      ]

  unfoldable pub submit_cart : Cart → ContactForm → Handler J F (Response Value)
  unfolding items_in validate_contact submit_items
  submit_cart cart form w =
      let (found, w') = items_in cart w in
      elim found [
        | err e ↦ (err e, w')
        | ok [] ↦ (ok (see_other none "/cart"), w')
        | ok (i ∷ is) ↦ elim (validate_contact site.is_whitespace site.is_control form) [
          | err message ↦ (ok (invalid_contact (i ∷ is) form message), w')
          | ok contact ↦ submit_items cart contact (i ∷ is) w'
        ]
      ]

  -- POST /checkout
  unfoldable pub render_submit : Option String → ContactForm → Handler J F (Response Value)
  unfolding find_cart submit_cart
  render_submit headers form w =
      let (found, w') = find_cart headers w in
      elim found [
        | err e ↦ (err e, w')
        | ok none ↦ (ok (see_other none "/cart"), w')
        | ok (some cart) ↦ submit_cart cart form w'
      ]

  -- GET /checkout/done/{order_id}
  unfoldable pub render_done : String → Handler J F (Response Value)
  unfolding get_order_with_items from_order
  render_done order_id w =
      let (found, orders) = get_order_with_items J order_id w.orders in
      elim found [
        | err e ↦ (err (from_order shown e), record w { orders = orders })
        | ok none ↦ (err not_found, record w { orders = orders })
        | ok (some order) ↦ (ok (confirmation order), record w { orders = orders })
      ]
