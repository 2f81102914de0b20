-- ===== src/Web/Basket/Getting.antt =====
-- `get_or_create_cart` of crates/web/src/routes/cart.rs: the cart of the request's cookie, or a new
-- one.
use tiny_shop.Prelude.{
  String, ◌≡◌, refl, sym, ap, ◌∙◌, subst, false, Option, some, none, [], ◌∷◌, ◌++◌, ◌⊎◌, inl, inr,
  ◌==◌, string_eq, Option-cases, Bool-cases,
}
use tiny_shop.Sql.{Result, ok, err, Conn}
use tiny_shop.Sql.Laws.{Result-cases, transaction-eq-ok, transaction-eq-err}
use tiny_shop.Shared.Json.{Json}
use tiny_shop.Cart.{Cart, CartTables, CartError, db, has_cart, create_cart}
use tiny_shop.Cart.Keeps.{creates, step, run}
use tiny_shop.Cart.Isolation.{SameCart, target, run-SameCart}
use tiny_shop.Web.{WebError, from_cart}
use tiny_shop.Web.Cookie.{extract_cart_token}
use tiny_shop.Web.Checkout.{ContactForm}
use tiny_shop.Web.Checkout.Routes.{Site, Draw, AppState, find_cart}
use tiny_shop.Web.Checkout.Guest.{
  find_anonymous, find_failed, find_done, sought, tables-sought, sought-found,
}
use tiny_shop.Web.Basket.{get_or_create_cart}
use tiny_shop.Web.Basket.Others.{named}

outcome_of :
    {E A S : Type 0} {a b : A} {s t : S}
    → ◌≡◌ {A = Result E (A × S)} (ok (a, s)) (ok (b, t))
    → (b ≡ a) × (t ≡ s)
outcome_of h = (cc, cc)

abbrev no_form : ContactForm
no_form = record { email = ""; name = none }

module _ (site : Site) (draw : Draw) (raw : String) (headers : Option String) where
  abbrev new_cart : Cart
  new_cart = record {
    token_hash = site.hash_token raw;
    created_at = draw.now;
    updated_at = draw.now;
  }

  -- The rows of the carts: as before, or with a new cart behind them.
  abbrev pub Rows : CartTables → CartTables → Type 0
  Rows t t' = (t'.carts ≡ t.carts) ⊎ (t'.carts ≡ t.carts ++ new_cart ∷ [])

  -- The cart that a request uses, and the token that the answer sets: the one of its cookie, or a
  -- new one.
  abbrev pub Chosen : String → Option String → Type 0
  Chosen cart_id new_token =
      ((token : String) × (extract_cart_token site.is_whitespace headers ≡ some token)
        × (cart_id ≡ site.hash_token token)
        × (new_token ≡ none))
      ⊎ ((cart_id ≡ site.hash_token raw) × (new_token ≡ some raw))

  create_cart-new :
      (c : Conn CartTables) (p : String × Cart)
      → (create_cart site.hash_token draw.now raw c).0 ≡ ok p
      → (p ≡ (raw, new_cart))
        × ((create_cart site.hash_token draw.now raw c).1.tables
            ≡ record c.tables { carts = c.tables.carts ++ new_cart ∷ [] })
  unfolding create_cart
  create_cart-new c p h =
      let (s, ran, left) = transaction-eq-ok db _ c p h in
      elim (Bool-cases (has_cart (site.hash_token raw) c.tables)) [
        | inl q ↦ absurd (cc (ran, q))
        | inr q ↦
            let (same_out, same_left) = outcome_of (rw q at ran) in (same_out, left ∙ same_left)
      ]

  tables-create_cart :
      (c : Conn CartTables) (e : CartError)
      → (create_cart site.hash_token draw.now raw c).0 ≡ err e
      → (create_cart site.hash_token draw.now raw c).1.tables ≡ c.tables
  unfolding create_cart
  tables-create_cart c e h = transaction-eq-err db _ c e h

  -- The items of all carts, the orders and the catalog are as they were.
  pub record Kept {J : Json} {F : Type 0} (w w' : AppState J F) : Type 0 where
    pub rows : Rows w.carts.tables w'.carts.tables
    pub items : w'.carts.tables.items ≡ w.carts.tables.items
    pub orders : w'.orders ≡ w.orders
    pub search : w'.search.tables ≡ w.search.tables

  -- What a request did to the carts that is seen from every other cart: nothing.
  abbrev pub Spared : String → CartTables → CartTables → Type 0
  Spared cart_id t t' = (other : String) → (cart_id == other) ≡ false → SameCart other t t'

  -- The two ways in which `get_or_create_cart` ends.
  pub data Got {J : Json} {F : Type 0} (w : AppState J F)
      (out : Result WebError (Cart × Option String) × AppState J F) : Type 0 where
    no_cart : (e : WebError) → out.0 ≡ err e → Kept w out.1 → Got w out
    a_cart :
        (cart : Cart) (new_token : Option String)
        → out.0 ≡ ok (cart, new_token)
        → Chosen cart.token_hash new_token
        → Kept w out.1
        → Spared cart.token_hash w.carts.tables out.1.carts.tables
        → Got w out

module _ (J : Json) {F : Type 0} (site : Site) (draw : Draw) (raw : String)
    (headers : Option String) (w : AppState J F) where
  open site use {shown, hash_token}

  abbrev Ends : Result WebError (Cart × Option String) × AppState J F → Type 0
  Ends = Got site draw raw headers w

  abbrev given : Result WebError (Cart × Option String) × AppState J F
  given = get_or_create_cart J site draw raw headers w

  same_Kept :
      (c : Conn CartTables)
      → c.tables ≡ w.carts.tables
      → Kept site draw raw headers w (record w { carts = c })
  same_Kept c same = record {
    rows = inl (ap (λ (t : CartTables). t.carts) same);
    items = ap (λ (t : CartTables). t.items) same;
    orders = refl;
    search = refl;
  }

  same_Spared :
      (cart_id : String) (c : Conn CartTables)
      → c.tables ≡ w.carts.tables
      → Spared site draw raw headers cart_id w.carts.tables c.tables
  same_Spared cart_id c same other apart =
      subst (SameCart other w.carts.tables) (sym same) (record { row = refl; items = refl })

  -- Where no cart is found, one is made.
  module _ (c : Conn CartTables) (same : c.tables ≡ w.carts.tables)
      (found : find_cart J site draw headers w ≡ (ok none, record w { carts = c })) where
    abbrev made : Result CartError (String × Cart) × Conn CartTables
    made = create_cart hash_token draw.now raw c

    not_made :
        (e : CartError)
        → made.0 ≡ err e
        → given ≡ (err (from_cart shown e), record w { carts = made.1 })
    unfolding get_or_create_cart
    not_made e h = rw (found, get_or_create_cart, found, h, found) refl

    newly_made :
        (p : String × Cart)
        → made.0 ≡ ok p
        → given ≡ (ok (p.1, some p.0), record w { carts = made.1 })
    unfolding get_or_create_cart
    newly_made p h = rw (found, get_or_create_cart, found, h, found) refl

    made_Kept :
        (p : String × Cart)
        → made.0 ≡ ok p
        → Kept site draw raw headers w (record w { carts = made.1 })
    made_Kept p h =
        let left = (create_cart-new site draw raw headers c p h).1 in
        record {
          rows = inr (
              ap (λ (t : CartTables). t.carts) left
              ∙ ap (λ (t : CartTables). t.carts ++ new_cart site draw raw headers ∷ []) same);
          items = ap (λ (t : CartTables). t.items) left ∙ ap (λ (t : CartTables). t.items) same;
          orders = refl;
          search = refl;
        }

    made_Spared :
        (p : String × Cart)
        → made.0 ≡ ok p
        → Spared site draw raw headers (hash_token raw) w.carts.tables made.1.tables
    unfolding run step target
    made_Spared p h other apart =
        subst (λ t. SameCart other t made.1.tables) same
          (run-SameCart hash_token other (creates draw.now raw ∷ []) c (apart, tt))

    made-Got : Ends given
    made-Got = elim (Result-cases made.0) [
      | inr (e, h) ↦ subst Ends (sym (not_made e h)) (
          no_cart (from_cart shown e) refl
            (same_Kept made.1 (tables-create_cart site draw raw headers c e h ∙ same)))
      | inl (p, h) ↦
          let new = (create_cart-new site draw raw headers c p h).0 in
          let own = ap (λ (p : String × Cart). p.1.token_hash) new in
          subst Ends (sym (newly_made p h)) (
            a_cart p.1 (some p.0) refl (inr (own, ap (λ (p : String × Cart). some p.0) new))
              (made_Kept p h)
              (subst (λ id. Spared site draw raw headers id w.carts.tables made.1.tables) (sym own)
                (made_Spared p h)))
    ]

  module _ (token : String)
      (cookie : extract_cart_token site.is_whitespace headers ≡ some token) where
    abbrev looked : Result CartError (Option Cart) × Conn CartTables
    looked = sought J site draw headers no_form w token cookie

    not_found_out :
        (e : CartError)
        → looked.0 ≡ err e
        → given ≡ (err (from_cart shown e), record w { carts = looked.1 })
    unfolding get_or_create_cart
    not_found_out e h =
        let found = find_failed J site draw headers no_form w token cookie e h in
        rw (found, get_or_create_cart, found) refl

    found_own :
        (cart : Cart)
        → looked.0 ≡ ok (some cart)
        → given ≡ (ok (cart, none), record w { carts = looked.1 })
    unfolding get_or_create_cart
    found_own cart h =
        let found = find_done J site draw headers no_form w token cookie (some cart) h in
        rw (found, get_or_create_cart, found) refl

    looked-Got : Ends given
    looked-Got =
        let same = tables-sought J site draw headers no_form w token cookie in
        elim (Result-cases looked.0) [
          | inr (e, h) ↦
              subst Ends (sym (not_found_out e h))
                (no_cart (from_cart shown e) refl (same_Kept looked.1 same))
          | inl (none, h) ↦
              made-Got looked.1 same (find_done J site draw headers no_form w token cookie none h)
          | inl (some cart, h) ↦
              let own =
                named (hash_token token) w.carts.tables.carts cart
                  (sought-found J site draw headers no_form w token cookie cart h) in
              subst Ends (sym (found_own cart h)) (
                a_cart cart none refl (inl (token, cookie, own, refl)) (same_Kept looked.1 same)
                  (same_Spared cart.token_hash looked.1 same))
        ]

  pub get_or_create_cart-Got :
      Got site draw raw headers w (get_or_create_cart J site draw raw headers w)
  get_or_create_cart-Got = elim (Option-cases (extract_cart_token site.is_whitespace headers)) [
    | inl h ↦ made-Got w.carts refl (find_anonymous J site draw headers no_form w h)
    | inr (token, h) ↦ looked-Got token h
  ]
