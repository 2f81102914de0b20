-- ===== src/Web/Checkout/Outcomes.antt =====
-- The ways in which `render_submit` of crates/web/src/routes/checkout.rs ends.
use tiny_shop.Prelude.{
  ℕ, String, ◌≡◌, Bool, false, not, ◌==◌, string_eq, Option, some, List, [], ◌∷◌, All, find?,
  concat,
}
use tiny_shop.Sql.{Result, ok, err}
use tiny_shop.Shared.Json.{Json}
use tiny_shop.Events.Outbox.{Outbox, enqueue}
use tiny_shop.Cart.{Cart, is_cart, items_of}
use tiny_shop.Orders.{NewOrderItem, NewOrderContact}
use tiny_shop.Orders.Repo.{Tables, order_created}
use tiny_shop.Orders.Placed.{placed}
use tiny_shop.Web.{WebError}
use tiny_shop.Web.Cookie.{extract_cart_token, expire_cart_cookie}
use tiny_shop.Web.Checkout.{ContactForm, Response, see_other, validate_contact}
use tiny_shop.Web.Checkout.Routes.{Site, Draw, AppState}
use tiny_shop.Web.Checkout.Items.{Fresh, ids_of, wanted}

-- Whether the answer sends the guest on to another page than the cart.
abbrev pub sends_on : {V : Type 0} → Result WebError (Response V) → Bool
sends_on (ok (see_other cookie location)) = not (location == "/cart")
sends_on (ok r) = false
sends_on (err e) = false

module _ (J : Json) {F : Type 0} (site : Site) (draw : Draw) (headers : Option String)
    (form : ContactForm) (w : AppState J F) where
  open J use {Value, Encoded}

  -- The cart of the cookie, a form that is accepted, and items that are the units of that cart as
  -- the catalog shows them.
  pub record Asked (cart : Cart) (contact : NewOrderContact) (items : List (NewOrderItem Value))
      : Type 0 where
    pub token : String
    pub cookie : extract_cart_token site.is_whitespace headers ≡ some token
    pub found : find? (is_cart (site.hash_token token)) w.carts.tables.carts ≡ some cart
    pub valid : validate_contact site.is_whitespace site.is_control form ≡ ok contact
    pub ids : ids_of items ≡ wanted (items_of cart.token_hash w.carts.tables)
    pub fresh : All (Fresh w.search.tables) items

  -- The order of these items is stored, and nothing else in the orders has changed.
  pub record Ordered (cart : Cart) (t : Tables J) : Type 0 where
    pub contact : NewOrderContact
    pub item : NewOrderItem Value
    pub items : List (NewOrderItem Value)
    pub asked : Asked cart contact (item ∷ items)
    pub one_currency : All (λ i. i.currency ≡ item.currency) (item ∷ items)
    pub event_id : ℕ
    pub outbox : Outbox Encoded
    pub announced :
        enqueue J draw.now
          (order_created J draw.order_id (concat "guest:" draw.buyer) item.currency)
          w.orders.tables.outbox
        ≡ ok (event_id, outbox)
    pub left :
        t
        ≡ placed J draw.order_id draw.now
            (concat "guest:" draw.buyer)
            item.currency
            (item ∷ items)
            (some contact)
            outbox
            w.orders.tables

  pub data Outcome (out : Result WebError (Response Value) × AppState J F) : Type 0 where
    -- nothing is ordered and the cart is as it was
    refused :
        sends_on out.0 ≡ false
        → out.1.orders.tables ≡ w.orders.tables
        → out.1.carts.tables ≡ w.carts.tables
        → Outcome out
    -- the order is stored, and the cart could not be cleared
    cart_left :
        (cart : Cart) (e : WebError)
        → Ordered cart out.1.orders.tables
        → out.0 ≡ err e
        → out.1.carts.tables ≡ w.carts.tables
        → Outcome out
    -- the order is stored and the cart is empty
    completed :
        (cart : Cart)
        → Ordered cart out.1.orders.tables
        → out.0
          ≡ ok (
              see_other
                (some (expire_cart_cookie site.secure))
                (concat "/checkout/done/" draw.order_id))
        → items_of cart.token_hash out.1.carts.tables ≡ []
        → Outcome out
