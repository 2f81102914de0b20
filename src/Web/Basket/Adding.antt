-- ===== src/Web/Basket/Adding.antt =====
-- POST /cart/add of crates/web/src/routes/cart.rs, from the catalog's card to the line in the cart.
use tiny_shop.Prelude.{
  String, ◌≡◌, refl, sym, ap, ◌∙◌, subst, Bool, ◌&&◌, Option, some, none, [], ◌∷◌, inl, inr, ◌==◌,
  string_eq, find?, concat,
}
use tiny_shop.Sql.{Result, ok, err, Conn}
use tiny_shop.Sql.Laws.{Result-cases, query-eq-ok, tables-query}
use tiny_shop.Shared.Json.{Json}
use tiny_shop.Cart.{Cart, CartTables, add_item}
use tiny_shop.Cart.Keeps.{adds, step, run}
use tiny_shop.Cart.Isolation.{target, run-SameCart}
use tiny_shop.Catalog.{CatalogTables, ProjectionRow, ProductView, SearchError}
use tiny_shop.Catalog.Projection.{row_slug}
use tiny_shop.Catalog.Search.Adapter.{be, get_card_by_slug, view_of}
use tiny_shop.Web.{WebError}
use tiny_shop.Web.Checkout.Routes.{Site, Draw, AppState, from_search}
use tiny_shop.Web.Basket.{
  BasketResponse, AddForm, see_other, redirect_to_cart, other_currency, item_of_card,
  get_or_create_cart, put_in, render_add,
}
use tiny_shop.Web.Basket.Getting.{
  Rows, Chosen, Kept, Spared, Got, no_cart, a_cart, get_or_create_cart-Got,
}
use tiny_shop.Web.Basket.Stored.{Line, Line-add_item, items_of_items}
use tiny_shop.Web.Basket.Putting.{Put, stopped, done, put_in-Put}

-- The product that the shop shows under a slug.
abbrev pub shown_as : String → ProjectionRow → Bool
shown_as slug r = row_slug slug r && r.status == "published"

module _ (J : Json) {F : Type 0} (site : Site) (draw : Draw) (raw : String)
    (headers : Option String) (form : AddForm) (w : AppState J F) where
  open site use {shown, hash_token}

  abbrev Out : Type 0
  Out = Result WebError BasketResponse × AppState J F

  -- The three ways in which the request ends.
  pub data Addition (out : Out) : Type 0 where
    refused : (e : WebError) → out.0 ≡ err e → Kept site draw raw headers w out.1 → Addition out
    absent :
        find? (shown_as form.slug) w.search.tables.product_projection ≡ none
        → out.0 ≡ ok (see_other none (concat "/p/" form.slug))
        → out.1.carts ≡ w.carts
        → out.1.orders ≡ w.orders
        → out.1.search.tables ≡ w.search.tables
        → Addition out
    filled :
        (card : ProductView) (cart_id : String) (new_token : Option String)
        → view_of (find? (shown_as form.slug) w.search.tables.product_projection) ≡ some card
        → Chosen site draw raw headers cart_id new_token
        → out.0 ≡ ok (redirect_to_cart site new_token)
        → Line draw.now cart_id card form.qty w.carts.tables out.1.carts.tables
        → Spared site draw raw headers cart_id w.carts.tables out.1.carts.tables
        → out.1.orders ≡ w.orders
        → out.1.search.tables ≡ w.search.tables
        → Addition out

  abbrev whole : Out
  whole = render_add J site draw raw headers form w

  abbrev card_call : Result SearchError (Option ProductView) × Conn (CatalogTables F)
  card_call = get_card_by_slug shown.sql form.slug w.search

  abbrev looked_on : AppState J F
  looked_on = record w { search = card_call.1 }

  abbrev given : Result WebError (Cart × Option String) × AppState J F
  given = get_or_create_cart J site draw raw headers looked_on

  tables-card : card_call.1.tables ≡ w.search.tables
  unfolding get_card_by_slug
  tables-card = tables-query (be shown.sql) _ w.search

  shown_row :
      (card : Option ProductView)
      → card_call.0 ≡ ok card
      → view_of (find? (shown_as form.slug) w.search.tables.product_projection) ≡ card
  unfolding get_card_by_slug
  shown_row card h = cc (query-eq-ok (be shown.sql) _ w.search card h)

  view_of-none : (o : Option ProjectionRow) → view_of o ≡ none → o ≡ none
  view_of-none none h = refl
  view_of-none (some r) h = absurd (cc)

  -- The branches of `render_add`.
  add_failed : (e : SearchError) → card_call.0 ≡ err e → whole ≡ (err (from_search e), looked_on)
  unfolding render_add
  add_failed e h = rw (h, render_add) refl

  add_absent :
      card_call.0 ≡ ok none → whole ≡ (ok (see_other none (concat "/p/" form.slug)), looked_on)
  unfolding render_add
  add_absent h = rw (h, render_add) refl

  add_uncarted :
      (card : ProductView) (e : WebError)
      → card_call.0 ≡ ok (some card)
      → given.0 ≡ err e
      → whole ≡ (err e, given.1)
  unfolding render_add
  add_uncarted card e h k = rw (h, render_add, k) refl

  add_put :
      (card : ProductView) (p : Cart × Option String)
      → card_call.0 ≡ ok (some card)
      → given.0 ≡ ok p
      → whole ≡ put_in J site draw p.0 p.1 card form.qty given.1
  unfolding render_add
  add_put card p h k = rw (h, render_add, k) refl

  -- What was kept on the way is kept from the start.
  from_start :
      (w' : AppState J F)
      → Kept site draw raw headers looked_on w'
      → Kept site draw raw headers w w'
  from_start w' k = record {
    rows = k.rows;
    items = k.items;
    orders = k.orders;
    search = k.search ∙ tables-card;
  }

  stopped_Kept :
      (w₁ w₂ : AppState J F)
      → Kept site draw raw headers w w₁
      → w₂.carts.tables ≡ w₁.carts.tables
      → w₂.orders ≡ w₁.orders
      → w₂.search ≡ w₁.search
      → Kept site draw raw headers w w₂
  stopped_Kept w₁ w₂ k carts orders search = record {
    rows = subst (Rows site draw raw headers w.carts.tables) (sym carts) k.rows;
    items = ap (λ (t : CartTables). t.items) carts ∙ k.items;
    orders = orders ∙ k.orders;
    search = ap (λ (c : Conn (CatalogTables F)). c.tables) search ∙ k.search;
  }

  added_Spared :
      (cart_id : String) (card : ProductView) (t : CartTables) (c : Conn CartTables)
      → Spared site draw raw headers cart_id t c.tables
      → Spared site draw raw headers cart_id t
          (add_item draw.now cart_id (item_of_card card form.qty) c).1.tables
  unfolding run step target
  added_Spared cart_id card t c spared other apart =
      let first = spared other apart in
      let second =
        run-SameCart hash_token other (adds draw.now cart_id (item_of_card card form.qty) ∷ []) c
          (apart, tt) in
      record { row = second.row ∙ first.row; items = second.items ∙ first.items }

  -- With a card and a cart.
  put_in-Addition :
      (card : ProductView) (cart : Cart) (new_token : Option String)
      → card_call.0 ≡ ok (some card)
      → given.0 ≡ ok (cart, new_token)
      → Chosen site draw raw headers cart.token_hash new_token
      → Kept site draw raw headers w given.1
      → Spared site draw raw headers cart.token_hash w.carts.tables given.1.carts.tables
      → Put J site draw cart new_token card form.qty given.1
          (put_in J site draw cart new_token card form.qty given.1)
      → Addition whole
  put_in-Addition card cart new_token h g chosen kept spared
        (stopped e failed carts orders search) =
      subst Addition (sym (add_put card (cart, new_token) h g))
        (refused e failed (stopped_Kept given.1 _ kept carts orders search))
  put_in-Addition card cart new_token h g chosen kept spared (done c same guard fine out) =
      subst Addition (sym (add_put card (cart, new_token) h g ∙ out)) (
        filled card cart.token_hash new_token (shown_row (some card) h) chosen refl
          (Line-add_item draw.now cart.token_hash card form.qty w.carts.tables c
            (ap (λ (t : CartTables). t.items) same ∙ kept.items)
            (ap (other_currency card.currency) (
                sym (items_of_items cart.token_hash w.carts.tables given.1.carts.tables kept.items))
              ∙ guard)
            fine)
          (added_Spared cart.token_hash card w.carts.tables c
            (subst (Spared site draw raw headers cart.token_hash w.carts.tables) (sym same) spared))
          kept.orders kept.search)

  get_or_create_cart-Addition :
      (card : ProductView)
      → card_call.0 ≡ ok (some card)
      → Got site draw raw headers looked_on given
      → Addition whole
  get_or_create_cart-Addition card h (no_cart e g kept) =
      subst Addition (sym (add_uncarted card e h g)) (refused e refl (from_start given.1 kept))
  get_or_create_cart-Addition card h (a_cart cart new_token g chosen kept spared) =
      put_in-Addition card cart new_token h g chosen (from_start given.1 kept) spared
        (put_in-Put J site draw cart new_token card form.qty given.1)

  -- A request to put a product into the cart ends in one of three ways, whatever fails. Refused: the
  -- answer is an error, and the items of all carts, the orders and the catalog are as they were; at
  -- most an empty cart was made. Absent: the shop shows no product under the slug, the answer sends
  -- the guest to the product's page, and nothing has changed. Filled: the cart is the one of the
  -- cookie's token, or the one of a new token that the answer sets; its first item, if any, was in
  -- the product's currency; its line of the product has the quantity of the form on top of the old
  -- one, at most MAX_QTY, with the name, price and currency that the catalog shows now; its other
  -- lines, all other carts, the orders and the catalog are as they were.
  pub render_add-Addition : Addition (render_add J site draw raw headers form w)
  render_add-Addition = elim (Result-cases card_call.0) [
    | inr (e, h) ↦ subst Addition (sym (add_failed e h)) (
        refused (from_search e) refl
          (record { rows = inl refl; items = refl; orders = refl; search = tables-card }))
    | inl (none, h) ↦
        subst Addition (sym (add_absent h))
          (absent (view_of-none _ (shown_row none h)) refl refl refl tables-card)
    | inl (some card, h) ↦
        get_or_create_cart-Addition card h
          (get_or_create_cart-Got J site draw raw headers looked_on)
  ]
