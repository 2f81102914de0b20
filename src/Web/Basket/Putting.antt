-- ===== src/Web/Basket/Putting.antt =====
-- `put_in`, the end of `render_add` of crates/web/src/routes/cart.rs: a product into a cart.
use tiny_shop.Prelude.{
  String, ◌≡◌, refl, sym, ap, ◌∙◌, subst, true, false, ◌||◌, Option, List, Bool-cases, inl, inr,
}
use tiny_shop.Prelude.Int.{ℤ, pos, leb_ℤ, ltb_ℤ}
use tiny_shop.Sql.{Result, ok, err, Conn, transaction, ◌>>◌, reject}
use tiny_shop.Sql.Laws.{Result-cases, query-eq-ok, tables-query, transaction-eq-err}
use tiny_shop.Shared.Json.{Json}
use tiny_shop.Cart.{
  Cart, CartItem, NewCartItem, CartTables, CartError, db, max_qty, items_of, list_items, add_item,
  upsert_item, touch_cart,
}
use tiny_shop.Catalog.{ProductView}
use tiny_shop.Web.{WebError, bad_request, from_cart}
use tiny_shop.Web.Checkout.Routes.{Site, Draw, AppState, items_in}
use tiny_shop.Web.Basket.{BasketResponse, redirect_to_cart, other_currency, item_of_card, put_in}

-- A refused `add_item` changes nothing.
tables-add_item :
    (now : ℤ) (cart_id : String) (item : NewCartItem) (c : Conn CartTables) (e : CartError)
    → (add_item now cart_id item c).0 ≡ err e
    → (add_item now cart_id item c).1.tables ≡ c.tables
unfolding add_item
tables-add_item now cart_id item c e h =
    elim (Bool-cases (leb_ℤ item.qty (pos 0) || ltb_ℤ max_qty item.qty)) [
      | inl q ↦ rw (q, add_item, reject) refl
      | inr q ↦
          let whole : add_item now cart_id item c
              ≡ transaction db (upsert_item now cart_id item >> touch_cart now cart_id) c =
            rw (q, add_item) refl in
          ap (λ o. o.1.tables) whole
          ∙ transaction-eq-err db (upsert_item now cart_id item >> touch_cart now cart_id) c e
              (sym (ap (λ o. o.0) whole) ∙ h)
    ]

module _ (J : Json) {F : Type 0} (site : Site) (draw : Draw) (cart : Cart)
    (new_token : Option String) (card : ProductView) (qty : ℤ) (w : AppState J F) where
  open site use {shown}

  abbrev Out : Type 0
  Out = Result WebError BasketResponse × AppState J F

  abbrev whole : Out
  whole = put_in J site draw cart new_token card qty w

  abbrev listed : Result CartError (List CartItem) × Conn CartTables
  listed = list_items cart.token_hash w.carts

  abbrev read_on : AppState J F
  read_on = record w { carts = listed.1 }

  abbrev put : Result CartError (Unit {0}) × Conn CartTables
  put = add_item draw.now cart.token_hash (item_of_card card qty) listed.1

  -- The two ways in which it ends.
  pub data Put (out : Out) : Type 0 where
    stopped :
        (e : WebError)
        → out.0 ≡ err e
        → out.1.carts.tables ≡ w.carts.tables
        → out.1.orders ≡ w.orders
        → out.1.search ≡ w.search
        → Put out
    done :
        (c : Conn CartTables)
        → c.tables ≡ w.carts.tables
        → other_currency card.currency (items_of cart.token_hash w.carts.tables) ≡ false
        → (add_item draw.now cart.token_hash (item_of_card card qty) c).0 ≡ ok tt
        → out ≡ (
          ok (redirect_to_cart site new_token),
          record w { carts = (add_item draw.now cart.token_hash (item_of_card card qty) c).1 },
        )
        → Put out

  tables-listed : listed.1.tables ≡ w.carts.tables
  unfolding list_items
  tables-listed = tables-query db _ w.carts

  listed-items :
      (is : List CartItem) → listed.0 ≡ ok is → items_of cart.token_hash w.carts.tables ≡ is
  unfolding list_items
  listed-items is h = cc (query-eq-ok db _ w.carts is h)

  items_failed :
      (e : CartError)
      → listed.0 ≡ err e
      → items_in J site draw cart w ≡ (err (from_cart shown e), read_on)
  unfolding items_in
  items_failed e h = rw (h, items_in) refl

  items_listed :
      (is : List CartItem) → listed.0 ≡ ok is → items_in J site draw cart w ≡ (ok is, read_on)
  unfolding items_in
  items_listed is h = rw (h, items_in) refl

  put_failed : (e : CartError) → listed.0 ≡ err e → whole ≡ (err (from_cart shown e), read_on)
  unfolding put_in
  put_failed e h = rw (items_failed e h, put_in, items_failed e h) refl

  put_mixed :
      (is : List CartItem)
      → listed.0 ≡ ok is
      → other_currency card.currency is ≡ true
      → whole ≡ (err (bad_request "Товар у іншій валюті не можна додати до цього кошика"), read_on)
  unfolding put_in
  put_mixed is h q = rw (items_listed is h, put_in, items_listed is h, q) refl

  put_refused :
      (is : List CartItem)
      → listed.0 ≡ ok is
      → other_currency card.currency is ≡ false
      → (e : CartError) → put.0 ≡ err e
      → whole ≡ (err (from_cart shown e), record w { carts = put.1 })
  unfolding put_in
  put_refused is h q e k =
      rw (items_listed is h, put_in, items_listed is h, q, k, items_listed is h) refl

  put_done :
      (is : List CartItem)
      → listed.0 ≡ ok is
      → other_currency card.currency is ≡ false
      → put.0 ≡ ok tt
      → whole ≡ (ok (redirect_to_cart site new_token), record w { carts = put.1 })
  unfolding put_in
  put_done is h q k =
      rw (items_listed is h, put_in, items_listed is h, q, k, items_listed is h) refl

  pub put_in-Put : Put (put_in J site draw cart new_token card qty w)
  put_in-Put = elim (Result-cases listed.0) [
    | inr (e, h) ↦
        subst Put (sym (put_failed e h)) (stopped (from_cart shown e) refl tables-listed refl refl)
    | inl (is, h) ↦ elim (Bool-cases (other_currency card.currency is)) [
      | inl q ↦ subst Put (sym (put_mixed is h q)) (
          stopped (bad_request "Товар у іншій валюті не можна додати до цього кошика") refl
            tables-listed refl refl)
      | inr q ↦ elim (Result-cases put.0) [
        | inr (e, k) ↦ subst Put (sym (put_refused is h q e k)) (
            stopped (from_cart shown e) refl
              (tables-add_item draw.now cart.token_hash (item_of_card card qty) listed.1 e k
                ∙ tables-listed)
              refl refl)
        | inl (tt, k) ↦
            done listed.1 tables-listed (ap (other_currency card.currency) (listed-items is h) ∙ q)
              k (put_done is h q k)
      ]
    ]
  ]
