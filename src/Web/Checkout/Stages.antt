-- ===== src/Web/Checkout/Stages.antt =====
-- `render_submit` of crates/web/src/routes/checkout.rs from the loop over the cart's items on: each
-- stage ends in one of the outcomes.
use tiny_shop.Prelude.{
  String, ◌≡◌, refl, sym, ap, ◌∙◌, subst, true, false, Option, some, List, [], ◌∷◌, All, find?,
  concat, Bool-cases, inl, inr,
}
use tiny_shop.Sql.{Result, ok, err, Conn}
use tiny_shop.Sql.Laws.{Result-cases}
use tiny_shop.Shared.Json.{Json}
use tiny_shop.Cart.{Cart, CartItem, CartTables, CartError, is_cart, items_of, clear}
use tiny_shop.Catalog.{CatalogTables}
use tiny_shop.Cart.Emptied.{clear-empty, clear-unchanged}
use tiny_shop.Orders.{NewOrderItem, NewOrderContact, OrderError}
use tiny_shop.Orders.Repo.{Tables, checkout}
use tiny_shop.Orders.Keeps.{IsConsistent}
use tiny_shop.Orders.Receipt.{checkout_lem}
use tiny_shop.Orders.Refused.{checkout-unchanged}
use tiny_shop.Web.{WebError, bad_request, from_cart, from_order}
use tiny_shop.Web.Cookie.{extract_cart_token, expire_cart_cookie}
use tiny_shop.Web.Checkout.{ContactForm, Response, see_other, validate_contact}
use tiny_shop.Web.Checkout.Routes.{
  Site, Draw, AppState, mixed, order_items, settle_cart, place_order, submit_items,
}
use tiny_shop.Web.Checkout.Items.{Fresh, wanted, tables-order_items, order_items-eq-ok}
use tiny_shop.Web.Checkout.Outcomes.{Asked, Ordered, Outcome, refused, cart_left, completed}

module _ (J : Json) {F : Type 0} (site : Site) (draw : Draw) (headers : Option String)
    (form : ContactForm) (w₀ : AppState J F) where
  open J use {Value, Encoded}
  open site use {shown}

  abbrev pub Ends : Result WebError (Response Value) × AppState J F → Type 0
  Ends = Outcome J site draw headers form w₀

  -- The tables are those that the request found.
  pub record SameTables (w : AppState J F) : Type 0 where
    pub carts : w.carts.tables ≡ w₀.carts.tables
    pub orders : w.orders.tables ≡ w₀.orders.tables
    pub search : w.search.tables ≡ w₀.search.tables

  module _ (cart : Cart) (w : AppState J F) where
    abbrev cleared : Result CartError (Unit {0}) × Conn CartTables
    cleared = clear draw.now cart.token_hash w.carts

    settle_cart_done :
        (order_id : String) (u : Unit {0})
        → cleared.0 ≡ ok u
        → settle_cart J site draw cart order_id w ≡ (
          ok (
              see_other
                (some (expire_cart_cookie site.secure))
                (concat "/checkout/done/" order_id)),
          record w { carts = cleared.1 },
        )
    unfolding settle_cart
    settle_cart_done order_id u h = rw (h, settle_cart) refl

    settle_cart_failed :
        (order_id : String) (e : CartError)
        → cleared.0 ≡ err e
        → settle_cart J site draw cart order_id w
          ≡ (err (from_cart shown e), record w { carts = cleared.1 })
    unfolding settle_cart
    settle_cart_failed order_id e h = rw (h, settle_cart) refl

    settle_cart-Ends :
        w.carts.tables ≡ w₀.carts.tables
        → Ordered J site draw headers form w₀ cart w.orders.tables
        → Ends (settle_cart J site draw cart draw.order_id w)
    settle_cart-Ends same k = elim (Result-cases cleared.0) [
      | inl (u, h) ↦
          subst Ends (sym (settle_cart_done draw.order_id u h))
            (completed cart k refl (clear-empty draw.now cart.token_hash w.carts u h))
      | inr (e, h) ↦ subst Ends (sym (settle_cart_failed draw.order_id e h)) (
          cart_left cart (from_cart shown e) k refl
            (clear-unchanged draw.now cart.token_hash w.carts e h ∙ same))
    ]

  module _ (cart : Cart) (w : AppState J F) (contact : NewOrderContact) (item : NewOrderItem Value)
      (items : List (NewOrderItem Value)) where
    abbrev stored : Result OrderError String × Conn (Tables J)
    stored =
        checkout J draw.order_id draw.now (concat "guest:" draw.buyer) item.currency (item ∷ items)
          (some contact) w.orders

    place_mixed :
        mixed J item.currency (item ∷ items) ≡ true
        → place_order J site draw cart contact item items w
          ≡ (err (bad_request "товари в кошику мають різні валюти, оформлення неможливе"), w)
    unfolding place_order
    place_mixed h = rw (h, place_order) refl

    place_failed :
        (e : OrderError)
        → mixed J item.currency (item ∷ items) ≡ false
        → stored.0 ≡ err e
        → place_order J site draw cart contact item items w
          ≡ (err (from_order shown e), record w { orders = stored.1 })
    unfolding place_order
    place_failed e m h = rw (m, h, place_order) refl

    place_stored :
        (order_id : String)
        → mixed J item.currency (item ∷ items) ≡ false
        → stored.0 ≡ ok order_id
        → place_order J site draw cart contact item items w
          ≡ settle_cart J site draw cart order_id (record w { orders = stored.1 })
    unfolding place_order
    place_stored order_id m h = rw (m, h, place_order) refl

    stored-Ordered :
        (order_id : String)
        → IsConsistent J w₀.orders.tables
        → SameTables w
        → Asked J site draw headers form w₀ cart contact (item ∷ items)
        → stored.0 ≡ ok order_id
        → (order_id ≡ draw.order_id) × Ordered J site draw headers form w₀ cart stored.1.tables
    stored-Ordered order_id good same asked h =
        let (named, _, one, n, o, event, left) =
          checkout_lem J draw.order_id draw.now (concat "guest:" draw.buyer) item.currency
            (item ∷ items) (some contact) w.orders order_id
            (subst (IsConsistent J) (sym same.orders) good) h in
        (
          named,
          record {
            contact = contact;
            item = item;
            items = items;
            asked = asked;
            one_currency = one;
            event_id = n;
            outbox = o;
            announced = rw (sym same.orders) event;
            left = rw (sym same.orders) left;
          },
        )

    place_order-Ends :
        IsConsistent J w₀.orders.tables
        → SameTables w
        → Asked J site draw headers form w₀ cart contact (item ∷ items)
        → Ends (place_order J site draw cart contact item items w)
    place_order-Ends good same asked = elim (Bool-cases (mixed J item.currency (item ∷ items))) [
      | inl m ↦ subst Ends (sym (place_mixed m)) (refused refl same.orders same.carts)
      | inr m ↦ elim (Result-cases stored.0) [
        | inr (e, h) ↦ subst Ends (sym (place_failed e m h)) (
            refused refl
              (checkout-unchanged J draw.order_id draw.now (concat "guest:" draw.buyer)
                  item.currency (item ∷ items) (some contact) w.orders e h
                ∙ same.orders)
              same.carts)
        | inl (order_id, h) ↦
            let (named, k) = stored-Ordered order_id good same asked h in
            subst Ends
              (sym (
                place_stored order_id m h
                ∙ ap (λ id. settle_cart J site draw cart id (record w { orders = stored.1 }))
                    named))
              (settle_cart-Ends cart (record w { orders = stored.1 }) same.carts k)
      ]
    ]

  module _ (cart : Cart) (is : List CartItem) (w : AppState J F) where
    abbrev made : Result WebError (List (NewOrderItem Value)) × Conn (CatalogTables F)
    made = order_items J site draw 0 is w.search

    abbrev searched : AppState J F
    searched = record w { search = made.1 }

    submit_items_failed :
        (contact : NewOrderContact) (e : WebError)
        → made.0 ≡ err e
        → submit_items J site draw cart contact is w ≡ (err e, searched)
    unfolding submit_items
    submit_items_failed contact e h = rw (h, submit_items) refl

    submit_items_none :
        (contact : NewOrderContact)
        → made.0 ≡ ok []
        → submit_items J site draw cart contact is w
          ≡ (err (bad_request "усі товари кошика більше не доступні"), searched)
    unfolding submit_items
    submit_items_none contact h = rw (h, submit_items) refl

    submit_items_some :
        (contact : NewOrderContact) (item : NewOrderItem Value) (items : List (NewOrderItem Value))
        → made.0 ≡ ok (item ∷ items)
        → submit_items J site draw cart contact is w
          ≡ place_order J site draw cart contact item items searched
    unfolding submit_items
    submit_items_some contact item items h = rw (h, submit_items) refl

    searched-SameTables : SameTables w → SameTables searched
    searched-SameTables same = record {
      carts = same.carts;
      orders = same.orders;
      search = tables-order_items J site draw 0 is w.search ∙ same.search;
    }

    pub submit_items-Ends :
        (contact : NewOrderContact) (token : String)
        → IsConsistent J w₀.orders.tables
        → SameTables w
        → extract_cart_token site.is_whitespace headers ≡ some token
        → find? (is_cart (site.hash_token token)) w₀.carts.tables.carts ≡ some cart
        → is ≡ items_of cart.token_hash w₀.carts.tables
        → validate_contact site.is_whitespace site.is_control form ≡ ok contact
        → Ends (submit_items J site draw cart contact is w)
    submit_items-Ends contact token good same cookie found own valid = elim (Result-cases made.0) [
      | inr (e, h) ↦
          subst Ends (sym (submit_items_failed contact e h)) (refused refl same.orders same.carts)
      | inl ([], h) ↦
          subst Ends (sym (submit_items_none contact h)) (refused refl same.orders same.carts)
      | inl (item ∷ items, h) ↦
          let (ids, fresh) = order_items-eq-ok J site draw 0 is w.search (item ∷ items) h in
          subst Ends (sym (submit_items_some contact item items h)) (
            place_order-Ends cart searched contact item items good (searched-SameTables same)
              (record {
                token = token;
                cookie = cookie;
                found = found;
                valid = valid;
                ids = ids ∙ ap wanted own;
                fresh = subst (λ t. All (Fresh t) (item ∷ items)) same.search fresh;
              }))
    ]
