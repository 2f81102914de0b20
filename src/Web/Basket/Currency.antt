-- ===== src/Web/Basket/Currency.antt =====
-- Requests of crates/web/src/routes/cart.rs and the currency of a cart: what `render_add` checks of
-- the first item, it keeps for all.
use tiny_shop.Prelude.{
  String, ◌≡◌, refl, sym, ap, ◌∙◌, subst, Bool, true, false, Option, List, [], ◌∷◌, inl, inr, ◌==◌,
  ==_iff, string_eq, filter, order_by, leb, length, Bool-cases, All, All-append, All-map,
  All-update_where, arith,
}
use tiny_shop.Prelude.Int.{ℤ, int_eq}
use tiny_shop.Prelude.Rows.Chosen.{selected, select}
use tiny_shop.Prelude.Rows.Ordered.{All-order_by, length-order_by}
use tiny_shop.Sql.{Result, Conn}
use tiny_shop.Shared.Json.{Json}
use tiny_shop.Cart.{
  CartItem, CartTables, in_cart, items_of, same_line, refreshed, inserted, NewCartItem, update_qty,
  remove_item,
}
use tiny_shop.Cart.Edits.{update_qty-Rest, remove_item-Rest}
use tiny_shop.Web.Checkout.Routes.{Site, Draw, AppState}
use tiny_shop.Cart.Isolation.{SameCart}
use tiny_shop.Catalog.{ProductView}
use tiny_shop.Web.Basket.{
  AddForm, item_of_card, UpdateForm, RemoveForm, BasketResponse, other_currency, render_add,
  render_update, render_remove,
}
use tiny_shop.Web.{WebError}
use tiny_shop.Web.Basket.Others.{on_cart_keeps}
use tiny_shop.Web.Basket.Stored.{Stored, Line}
use tiny_shop.Web.Basket.Adding.{Addition, refused, absent, filled, render_add-Addition}

-- All items of a cart have this currency.
abbrev pub Uniform : String → String → CartTables → Type 0
Uniform cart_id currency t =
    All (λ (i : CartItem). i.currency ≡ currency) (filter (in_cart cart_id) t.items)

-- No cart mixes currencies.
abbrev pub OneCurrency : CartTables → Type 0
OneCurrency t = (cart_id : String) → (currency : String) × Uniform cart_id currency t

empty_of_length : {A : Type 0} (xs : List A) → length xs ≡ 0 → xs ≡ []
empty_of_length [] h = refl
empty_of_length (x ∷ xs) h = absurd (omega (arith, h))

-- The check of the first item of a uniform cart speaks for all of them.
module _ (currency other : String) (le : CartItem → CartItem → Bool) (xs : List CartItem)
    (h : All (λ (i : CartItem). i.currency ≡ other) xs) where
  agreed :
      (is : List CartItem)
      → order_by le xs ≡ is
      → other_currency currency is ≡ false
      → All (λ (i : CartItem). i.currency ≡ currency) xs
  agreed [] e guard =
      let none_there = empty_of_length xs (sym (length-order_by le xs) ∙ ap length e) in
      subst (All (λ (i : CartItem). i.currency ≡ currency)) (sym none_there) tt
  agreed (i ∷ is) e guard =
      let all =
        subst (All (λ (i : CartItem). i.currency ≡ other)) e
          (All-order_by (λ (i : CartItem). i.currency ≡ other) le xs h) in
      let same : other ≡ currency =
        sym all.0 ∙ (==_iff i.currency currency).0 (ground (arith, guard)) in
      All-map (λ i q. q ∙ same) xs h

-- A line that is stored in the currency of its cart.
Uniform-Stored :
    (now : ℤ) (cart_id : String) (item : NewCartItem) (t t' : CartTables)
    → Stored now cart_id item t t'
    → Uniform cart_id item.currency t
    → Uniform cart_id item.currency t'
Uniform-Stored now cart_id item t t' stored h =
    let In : CartItem → Type 0 = λ i. in_cart cart_id i ≡ true → i.currency ≡ item.currency in
    let rows : All In t.items =
      selected (λ (i : CartItem). i.currency ≡ item.currency) (in_cart cart_id) t.items h in
    select (λ (i : CartItem). i.currency ≡ item.currency) (in_cart cart_id) t'.items
      (elim stored [
        | inl e ↦ subst (All In) (sym e) (
            All-update_where In (same_line cart_id item.product_id item.variant_id)
              (refreshed now item) t.items (λ r _ _ _. refl) rows)
        | inr (id, e) ↦
            subst (All In) (sym e)
              (All-append In t.items (inserted id now cart_id item ∷ []) rows (λ _. refl, tt))
      ])

kept_OneCurrency : (t t' : CartTables) → t'.items ≡ t.items → OneCurrency t → OneCurrency t'
kept_OneCurrency t t' same one id =
    let (currency, all) = one id in
    (
      currency,
      subst (λ is. All (λ (i : CartItem). i.currency ≡ currency) (filter (in_cart id) is))
          (sym same) all,
    )

-- A cart with a line that was stored after the check, and carts that are as they were.
filled_OneCurrency :
    (now : ℤ) (cart_id : String) (card : ProductView) (qty : ℤ) (t t' : CartTables)
    → Line now cart_id card qty t t'
    → ((other : String) → (cart_id == other) ≡ false → SameCart other t t')
    → OneCurrency t
    → OneCurrency t'
unfolding items_of
filled_OneCurrency now cart_id card qty t t' line spared one id =
    elim (Bool-cases (cart_id == id)) [
      | inr apart ↦
          let (currency, all) = one id in
          (
            currency,
            subst (All (λ (i : CartItem). i.currency ≡ currency)) (sym (spared id apart).items) all,
          )
      | inl e ↦
          let (currency, all) = one cart_id in
          let own =
            agreed card.currency currency (λ r s. leb r.id s.id) (filter (in_cart cart_id) t.items)
              all (items_of cart_id t) refl line.before in
          (
            card.currency,
            subst (λ id. Uniform id card.currency t') ((==_iff cart_id id).0 e)
                (Uniform-Stored now cart_id (item_of_card card qty) t t' line.items own),
          )
    ]

-- What an item of a cart says of the cart's currency.
abbrev Own : String → String → CartItem → Type 0
Own id currency i = in_cart id i ≡ true → i.currency ≡ currency

-- A change that keeps such statements keeps the currencies.
rest_OneCurrency :
    (t t' : CartTables)
    → ((id currency : String) → All (Own id currency) t.items → All (Own id currency) t'.items)
    → OneCurrency t
    → OneCurrency t'
rest_OneCurrency t t' keep one id =
    let (currency, all) = one id in
    let here = selected (λ (i : CartItem). i.currency ≡ currency) (in_cart id) t.items all in
    (
      currency,
      select (λ (i : CartItem). i.currency ≡ currency) (in_cart id) t'.items
          (keep id currency here),
    )

module _ (J : Json) {F : Type 0} (site : Site) (draw : Draw) (headers : Option String)
    (w : AppState J F) where
  add_OneCurrency :
      (raw : String) (form : AddForm)
      → OneCurrency w.carts.tables
      → (out : Result WebError BasketResponse × AppState J F)
      → Addition J site draw raw headers form w out
      → OneCurrency out.1.carts.tables
  add_OneCurrency raw form one out (refused e failed kept) =
      kept_OneCurrency w.carts.tables out.1.carts.tables kept.items one
  add_OneCurrency raw form one out (absent hidden sent carts orders search) =
      subst (λ (c : Conn CartTables). OneCurrency c.tables) (sym carts) one
  add_OneCurrency raw form one out
        (filled card cart_id new_token hit chosen sent line spared orders search) =
      filled_OneCurrency draw.now cart_id card form.qty w.carts.tables out.1.carts.tables line
        spared one

  -- No request on a basket mixes currencies: where the items of each cart have one currency, they
  -- still have after a product is put in, a quantity is changed or an item is removed, whatever the
  -- forms name and whatever fails.
  pub basket-OneCurrency :
      (raw : String) (add : AddForm) (update : UpdateForm) (removal : RemoveForm)
      → OneCurrency w.carts.tables
      → OneCurrency (render_add J site draw raw headers add w).1.carts.tables
        × OneCurrency (render_update J site draw headers update w).1.carts.tables
        × OneCurrency (render_remove J site draw headers removal w).1.carts.tables
  unfolding render_update render_remove
  basket-OneCurrency raw add update removal one = (
    add_OneCurrency raw add one (render_add J site draw raw headers add w)
        (render_add-Addition J site draw raw headers add w),
    on_cart_keeps J site draw headers w "" OneCurrency
        (λ cart. update_qty draw.now cart.token_hash update.item_id update.qty)
        (λ cart c.
          rest_OneCurrency c.tables
            (update_qty draw.now cart.token_hash update.item_id update.qty c).1.tables
            (λ id currency.
              update_qty-Rest (Own id currency) draw.now cart.token_hash update.item_id update.qty c
                (λ r q. q)))
        one,
    on_cart_keeps J site draw headers w "" OneCurrency
        (λ cart. remove_item draw.now cart.token_hash removal.item_id)
        (λ cart c.
          rest_OneCurrency c.tables
            (remove_item draw.now cart.token_hash removal.item_id c).1.tables
            (λ id currency.
              remove_item-Rest (Own id currency) draw.now cart.token_hash removal.item_id c))
        one,
  )
