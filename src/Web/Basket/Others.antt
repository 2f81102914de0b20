-- ===== src/Web/Basket/Others.antt =====
-- Requests of crates/web/src/routes/cart.rs, seen from another cart.
use tiny_shop.Prelude.{
  String, ◌≡◌, refl, sym, ap, ◌∙◌, subst, false, Option, some, none, List, [], ◌∷◌, ◌==◌, ==_iff,
  string_eq, find?, Bool-cases, Option-cases, inl, inr,
}
use tiny_shop.Sql.{Result, ok, err, Conn, Db}
use tiny_shop.Sql.Laws.{Result-cases}
use tiny_shop.Shared.Json.{Json}
use tiny_shop.Cart.{Cart, CartTables, CartError, is_cart, update_qty, remove_item}
use tiny_shop.Cart.Keeps.{updates, removes, step, run}
use tiny_shop.Cart.Isolation.{SameCart, target, run-SameCart}
use tiny_shop.Web.{WebError}
use tiny_shop.Web.Cookie.{extract_cart_token}
use tiny_shop.Web.Checkout.{ContactForm}
use tiny_shop.Web.Checkout.Routes.{Site, Draw, AppState}
use tiny_shop.Web.Checkout.Guest.{
  find_anonymous, find_failed, find_done, sought, tables-sought, sought-found,
}
use tiny_shop.Web.Basket.{
  BasketResponse, UpdateForm, RemoveForm, on_cart, render_update, render_remove,
}

-- The cart that a search by hash finds has that hash.
pub named :
    (id : String) (cs : List Cart) (cart : Cart)
    → find? (is_cart id) cs ≡ some cart
    → cart.token_hash ≡ id
unfolding find?
named id [] cart h = absurd (cc)
named id (c ∷ cs) cart h = elim (Bool-cases (is_cart id c)) [
  | inl e ↦
      let here : find? (is_cart id) (c ∷ cs) ≡ some c = rw (e, find?) refl in
      let same : c ≡ cart = cc in
      ap (λ (c : Cart). c.token_hash) (sym same) ∙ (==_iff c.token_hash id).0 e
  | inr e ↦
      let on : find? (is_cart id) (c ∷ cs) ≡ find? (is_cart id) cs = rw (e, find?) refl in
      named id cs cart (sym on ∙ h)
]

abbrev no_form : ContactForm
no_form = record { email = ""; name = none }

module _ (J : Json) {F : Type 0} (site : Site) (draw : Draw) (headers : Option String)
    (w : AppState J F) (other : String) where
  abbrev Change : Type 0
  Change = Cart → Db CartError CartTables (Unit {0})

  -- A change of one cart that leaves the other.
  abbrev Spares : Change → Type 0
  Spares change =
      (cart : Cart) (c : Conn CartTables)
      → (cart.token_hash == other) ≡ false
      → SameCart other c.tables (change cart c).1.tables

  module _ (token : String) (cookie : extract_cart_token site.is_whitespace headers ≡ some token)
      (change : Change) where
    abbrev answer : Result WebError BasketResponse × AppState J F
    answer = on_cart J site draw change headers w

    abbrev looked : Result CartError (Option Cart) × Conn CartTables
    looked = sought J site draw headers no_form w token cookie

    abbrev changed : Cart → Result CartError (Unit {0}) × Conn CartTables
    changed cart = change cart looked.1

    unfound : (e : CartError) → looked.0 ≡ err e → answer.1.carts ≡ looked.1
    unfolding on_cart
    unfound e h =
        let found = find_failed J site draw headers no_form w token cookie e h in
        rw (found, on_cart, found) refl

    unknown : looked.0 ≡ ok none → answer.1.carts ≡ looked.1
    unfolding on_cart
    unknown h =
        let found = find_done J site draw headers no_form w token cookie none h in
        rw (found, on_cart, found) refl

    known : (cart : Cart) → looked.0 ≡ ok (some cart) → answer.1.carts ≡ (changed cart).1
    unfolding on_cart
    known cart h =
        let found = find_done J site draw headers no_form w token cookie (some cart) h in
        elim (Result-cases (changed cart).0) [
          | inl (u, k) ↦ rw (found, on_cart, found, k, found) refl
          | inr (e, k) ↦ rw (found, on_cart, found, k, found) refl
        ]

    spared :
        Spares change
        → (site.hash_token token == other) ≡ false
        → SameCart other w.carts.tables answer.1.carts.tables
    spared spares apart =
        let left = tables-sought J site draw headers no_form w token cookie in
        let Kept : CartTables → Type 0 = SameCart other w.carts.tables in
        let unchanged : Kept looked.1.tables =
          subst Kept (sym left) (record { row = refl; items = refl }) in
        elim (Result-cases looked.0) [
          | inr (e, h) ↦
              subst (λ (c : Conn CartTables). Kept c.tables) (sym (unfound e h)) unchanged
          | inl (none, h) ↦
              subst (λ (c : Conn CartTables). Kept c.tables) (sym (unknown h)) unchanged
          | inl (some cart, h) ↦
              let own =
                named (site.hash_token token) w.carts.tables.carts cart
                  (sought-found J site draw headers no_form w token cookie cart h) in
              subst (λ (c : Conn CartTables). Kept c.tables) (sym (known cart h))
                (subst (λ t. SameCart other t (changed cart).1.tables) left
                  (spares cart looked.1 (ap (λ id. id == other) own ∙ apart)))
        ]

  anonymous :
      (change : Change)
      → extract_cart_token site.is_whitespace headers ≡ none
      → (on_cart J site draw change headers w).1 ≡ w
  unfolding on_cart
  anonymous change h =
      let found = find_anonymous J site draw headers no_form w h in rw (found, on_cart, found) refl

  -- What a change of any cart keeps, the request keeps.
  pub on_cart_keeps :
      (P : CartTables → Type 0) (change : Change)
      → ((cart : Cart) (c : Conn CartTables) → P c.tables → P (change cart c).1.tables)
      → P w.carts.tables
      → P (on_cart J site draw change headers w).1.carts.tables
  on_cart_keeps P change keep p =
      elim (Option-cases (extract_cart_token site.is_whitespace headers)) [
        | inl h ↦ subst (λ (s : AppState J F). P s.carts.tables) (sym (anonymous change h)) p
        | inr (token, h) ↦
            let On : Conn CartTables → Type 0 = λ c. P c.tables in
            let here = subst P (sym (tables-sought J site draw headers no_form w token h)) p in
            elim (Result-cases (looked token h change).0) [
              | inr (e, k) ↦ subst On (sym (unfound token h change e k)) here
              | inl (none, k) ↦ subst On (sym (unknown token h change k)) here
              | inl (some cart, k) ↦
                  subst On (sym (known token h change cart k))
                    (keep cart (looked token h change).1 here)
            ]
      ]

  update_qty-Spares :
      (form : UpdateForm)
      → Spares (λ cart. update_qty draw.now cart.token_hash form.item_id form.qty)
  unfolding run step target
  update_qty-Spares form cart c apart =
      run-SameCart site.hash_token other
        (updates draw.now cart.token_hash form.item_id form.qty ∷ []) c (apart, tt)

  remove_item-Spares :
      (form : RemoveForm) → Spares (λ cart. remove_item draw.now cart.token_hash form.item_id)
  unfolding run step target
  remove_item-Spares form cart c apart =
      run-SameCart site.hash_token other (removes draw.now cart.token_hash form.item_id ∷ []) c
        (apart, tt)

  -- A request to update or to remove an item, whatever item id the form names and whatever fails,
  -- leaves every cart but the one of the request's own token: its row and its items, in their order.
  pub requests-SameCart :
      (token : String) (update : UpdateForm) (removal : RemoveForm)
      → extract_cart_token site.is_whitespace headers ≡ some token
      → (site.hash_token token == other) ≡ false
      → SameCart other w.carts.tables (render_update J site draw headers update w).1.carts.tables
        × SameCart other w.carts.tables (render_remove J site draw headers removal w).1.carts.tables
  unfolding render_update render_remove
  requests-SameCart token update removal cookie apart = (
    spared token cookie (λ cart. update_qty draw.now cart.token_hash update.item_id update.qty)
        (update_qty-Spares update) apart,
    spared token cookie (λ cart. remove_item draw.now cart.token_hash removal.item_id)
        (remove_item-Spares removal) apart,
  )
