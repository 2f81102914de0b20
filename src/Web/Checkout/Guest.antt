-- ===== src/Web/Checkout/Guest.antt =====
-- A guest's checkout, crates/web/src/routes/checkout.rs, from the cookie to the stored order.
use tiny_shop.Prelude.{
  String, ◌≡◌, refl, sym, ap, ◌∙◌, subst, Option, some, none, List, [], ◌∷◌, find?, Option-cases,
  inl, inr,
}
use tiny_shop.Sql.{Result, ok, err, Conn}
use tiny_shop.Sql.Laws.{Result-cases, query-eq-ok, tables-query}
use tiny_shop.Shared.Json.{Json}
use tiny_shop.Cart.{
  Cart, CartItem, CartTables, CartError, db, is_cart, items_of, find_by_token, list_items,
}
use tiny_shop.Orders.{NewOrderContact}
use tiny_shop.Orders.Keeps.{IsConsistent}
use tiny_shop.Web.{from_cart}
use tiny_shop.Web.Cookie.{extract_cart_token}
use tiny_shop.Web.Checkout.{ContactForm, see_other, invalid_contact, validate_contact}
use tiny_shop.Web.Checkout.Routes.{
  Site, Draw, AppState, find_cart, items_in, submit_items, submit_cart, render_submit,
}
use tiny_shop.Web.Checkout.Stages.{Ends, SameTables, submit_items-Ends}
use tiny_shop.Web.Checkout.Outcomes.{Outcome, refused}

module _ (J : Json) {F : Type 0} (site : Site) (draw : Draw) (headers : Option String)
    (form : ContactForm) (w₀ : AppState J F) where
  open J use {Value, Encoded}
  open site use {shown}

  module _ (cart : Cart) (w : AppState J F) where
    abbrev listed : Result CartError (List CartItem) × Conn CartTables
    listed = list_items cart.token_hash w.carts

    abbrev read_on : AppState J F
    read_on = record w { carts = listed.1 }

    items_failed :
        (e : CartError)
        → listed.0 ≡ err e
        → items_in J site draw cart w ≡ (err (from_cart shown e), read_on)
    unfolding items_in
    items_failed e h = rw (h, items_in) refl

    items_listed :
        (is : List CartItem) → listed.0 ≡ ok is → items_in J site draw cart w ≡ (ok is, read_on)
    unfolding items_in
    items_listed is h = rw (h, items_in) refl

    submit_cart_failed :
        (e : CartError)
        → listed.0 ≡ err e
        → submit_cart J site draw cart form w ≡ (err (from_cart shown e), read_on)
    unfolding submit_cart
    submit_cart_failed e h = rw (items_failed e h, submit_cart, items_failed e h) refl

    submit_cart_empty :
        listed.0 ≡ ok []
        → submit_cart J site draw cart form w ≡ (ok (see_other none "/cart"), read_on)
    unfolding submit_cart
    submit_cart_empty h = rw (items_listed [] h, submit_cart, items_listed [] h) refl

    submit_cart_invalid :
        (i : CartItem) (is : List CartItem) (message : String)
        → listed.0 ≡ ok (i ∷ is)
        → validate_contact site.is_whitespace site.is_control form ≡ err message
        → submit_cart J site draw cart form w
          ≡ (ok (invalid_contact (i ∷ is) form message), read_on)
    unfolding submit_cart
    submit_cart_invalid i is message h v =
        rw (items_listed (i ∷ is) h, v, submit_cart, items_listed (i ∷ is) h) refl

    submit_cart_valid :
        (i : CartItem) (is : List CartItem) (contact : NewOrderContact)
        → listed.0 ≡ ok (i ∷ is)
        → validate_contact site.is_whitespace site.is_control form ≡ ok contact
        → submit_cart J site draw cart form w
          ≡ submit_items J site draw cart contact (i ∷ is) read_on
    unfolding submit_cart
    submit_cart_valid i is contact h v =
        rw (items_listed (i ∷ is) h, v, submit_cart, items_listed (i ∷ is) h) refl

    tables-listed : listed.1.tables ≡ w.carts.tables
    unfolding list_items
    tables-listed = tables-query db (λ t. ok (items_of cart.token_hash t)) w.carts

    listed-own :
        (is : List CartItem)
        → SameTables J site draw headers form w₀ w
        → listed.0 ≡ ok is
        → is ≡ items_of cart.token_hash w₀.carts.tables
    unfolding list_items
    listed-own is same h =
        let own : items_of cart.token_hash w.carts.tables ≡ is =
          cc (query-eq-ok db (λ t. ok (items_of cart.token_hash t)) w.carts is h) in
        sym own ∙ ap (items_of cart.token_hash) same.carts

    submit_cart-Ends :
        (token : String)
        → IsConsistent J w₀.orders.tables
        → SameTables J site draw headers form w₀ w
        → extract_cart_token site.is_whitespace headers ≡ some token
        → find? (is_cart (site.hash_token token)) w₀.carts.tables.carts ≡ some cart
        → Ends J site draw headers form w₀ (submit_cart J site draw cart form w)
    submit_cart-Ends token good same cookie found = elim (Result-cases listed.0) [
      | inr (e, h) ↦
          subst (Ends J site draw headers form w₀) (sym (submit_cart_failed e h))
            (refused refl same.orders (tables-listed ∙ same.carts))
      | inl ([], h) ↦
          subst (Ends J site draw headers form w₀) (sym (submit_cart_empty h))
            (refused refl same.orders (tables-listed ∙ same.carts))
      | inl (i ∷ is, h) ↦
          elim (Result-cases (validate_contact site.is_whitespace site.is_control form)) [
            | inr (message, v) ↦
                subst (Ends J site draw headers form w₀)
                  (sym (submit_cart_invalid i is message h v))
                  (refused refl same.orders (tables-listed ∙ same.carts))
            | inl (contact, v) ↦
                subst (Ends J site draw headers form w₀) (sym (submit_cart_valid i is contact h v))
                  (submit_items-Ends J site draw headers form w₀ cart (i ∷ is) read_on contact token
                    good
                    (record {
                      carts = tables-listed ∙ same.carts;
                      orders = same.orders;
                      search = same.search;
                    })
                    cookie found (listed-own (i ∷ is) same h) v)
          ]
    ]

  pub find_anonymous :
      extract_cart_token site.is_whitespace headers ≡ none
      → find_cart J site draw headers w₀ ≡ (ok none, w₀)
  unfolding find_cart
  find_anonymous h = rw (h, find_cart) refl

  submit_anonymous :
      extract_cart_token site.is_whitespace headers ≡ none
      → render_submit J site draw headers form w₀ ≡ (ok (see_other none "/cart"), w₀)
  unfolding render_submit
  submit_anonymous h = rw (find_anonymous h, render_submit, find_anonymous h) refl

  module _ (token : String)
      (cookie : extract_cart_token site.is_whitespace headers ≡ some token) where
    abbrev pub sought : Result CartError (Option Cart) × Conn CartTables
    sought = find_by_token site.hash_token token w₀.carts

    abbrev pub sought_on : AppState J F
    sought_on = record w₀ { carts = sought.1 }

    pub find_failed :
        (e : CartError)
        → sought.0 ≡ err e
        → find_cart J site draw headers w₀ ≡ (err (from_cart shown e), sought_on)
    unfolding find_cart
    find_failed e h = rw (cookie, h, find_cart) refl

    pub find_done :
        (found : Option Cart)
        → sought.0 ≡ ok found
        → find_cart J site draw headers w₀ ≡ (ok found, sought_on)
    unfolding find_cart
    find_done found h = rw (cookie, h, find_cart) refl

    submit_failed :
        (e : CartError)
        → sought.0 ≡ err e
        → render_submit J site draw headers form w₀ ≡ (err (from_cart shown e), sought_on)
    unfolding render_submit
    submit_failed e h = rw (find_failed e h, render_submit, find_failed e h) refl

    submit_unknown :
        sought.0 ≡ ok none
        → render_submit J site draw headers form w₀ ≡ (ok (see_other none "/cart"), sought_on)
    unfolding render_submit
    submit_unknown h = rw (find_done none h, render_submit, find_done none h) refl

    submit_known :
        (cart : Cart)
        → sought.0 ≡ ok (some cart)
        → render_submit J site draw headers form w₀ ≡ submit_cart J site draw cart form sought_on
    unfolding render_submit
    submit_known cart h = rw (find_done (some cart) h, render_submit, find_done (some cart) h) refl

    pub tables-sought : sought.1.tables ≡ w₀.carts.tables
    unfolding find_by_token
    tables-sought = tables-query db _ w₀.carts

    pub sought-found :
        (cart : Cart)
        → sought.0 ≡ ok (some cart)
        → find? (is_cart (site.hash_token token)) w₀.carts.tables.carts ≡ some cart
    unfolding find_by_token
    sought-found cart h = cc (query-eq-ok db _ w₀.carts (some cart) h)

    submit-Ends :
        IsConsistent J w₀.orders.tables
        → Ends J site draw headers form w₀ (render_submit J site draw headers form w₀)
    submit-Ends good = elim (Result-cases sought.0) [
      | inr (e, h) ↦
          subst (Ends J site draw headers form w₀) (sym (submit_failed e h))
            (refused refl refl tables-sought)
      | inl (none, h) ↦
          subst (Ends J site draw headers form w₀) (sym (submit_unknown h))
            (refused refl refl tables-sought)
      | inl (some cart, h) ↦ subst (Ends J site draw headers form w₀) (sym (submit_known cart h)) (
          submit_cart-Ends cart sought_on token good
            (record { carts = tables-sought; orders = refl; search = refl }) cookie
            (sought-found cart h))
    ]

  -- A guest who submits the checkout form gets one of three outcomes. Refused: the answer does not
  -- send the guest on to a confirmation, and the orders and the carts are as they were. Completed:
  -- the cookie named a cart, the form was accepted, the items are one for each unit of that cart, in
  -- its order, sold as the catalog shows the published product now and all in one currency; their
  -- order with the contact and its event is all that changed in the orders, the cart is empty, and
  -- the guest is sent to the confirmation of that order with the cookie expired. Or the same order is
  -- stored, but the answer is an error since the cart could not be cleared, and the carts are as they
  -- were. This holds from consistent orders, for whatever the engine fails in.
  pub render_submit-Outcome :
      IsConsistent J w₀.orders.tables
      → Outcome J site draw headers form w₀ (render_submit J site draw headers form w₀)
  render_submit-Outcome good = elim (Option-cases (extract_cart_token site.is_whitespace headers)) [
    | inl h ↦
        subst (Ends J site draw headers form w₀) (sym (submit_anonymous h)) (refused refl refl refl)
    | inr (token, h) ↦ submit-Ends token h good
  ]
