-- ===== src/Web/Checkout/Items.antt =====
-- The loop of `render_submit` of crates/web/src/routes/checkout.rs over the items of the cart.
use mathlib.Core.List.{map}
use tiny_shop.Prelude.{
  ℕ, suc, zero, ◌+◌, String, ◌≡◌, refl, sym, ap, subst, ◌∙◌, Bool, true, false, ◌&&◌, Option, some,
  none, List, [], ◌∷◌, ◌++◌, ◌==◌, ==_iff, string_eq, All, All-append, find?, replicate, Bool-cases,
  inl, inr,
}
use tiny_shop.Sql.{Result, ok, err, Conn}
use tiny_shop.Sql.Laws.{Result-cases, query-eq-ok, tables-query}
use tiny_shop.Shared.Json.{Json}
use tiny_shop.Cart.{CartItem}
use tiny_shop.Orders.{NewOrderItem}
use tiny_shop.Catalog.{CatalogTables, ProjectionRow, ProductView, SearchError}
use tiny_shop.Catalog.Projection.{row_id}
use tiny_shop.Catalog.Search.Adapter.{be, view_of, map_view_row, get_card_by_id}
use tiny_shop.Web.{WebError}
use tiny_shop.Web.Checkout.Routes.{Site, Draw, from_search, gone, units_of, units, order_items}

-- The rows that a reader of the shop sees under an id.
abbrev pub on_sale : String → ProjectionRow → Bool
on_sale id r = row_id id r && r.status == "published"

-- A product's id once for each unit of it in the cart, in the order of the cart.
abbrev pub wanted : List CartItem → List String
wanted [] = []
wanted (i ∷ is) = replicate (units_of i) i.product_id ++ wanted is

-- An item that is sold as the catalog shows it now.
abbrev pub Fresh : {V F : Type 0} → CatalogTables F → NewOrderItem V → Type 0
Fresh t item =
    (r : ProjectionRow) × (find? (on_sale item.product_id) t.product_projection ≡ some r)
    × (item.seller_id ≡ r.seller_id)
    × (item.title ≡ r.title)
    × (item.unit_price_minor ≡ r.price_minor)
    × (item.currency ≡ r.currency)

first_hit :
    (id : String) (s r : ProjectionRow) (rows : List ProjectionRow)
    → on_sale id s ≡ true
    → find? (on_sale id) (s ∷ rows) ≡ some r
    → s ≡ r
unfolding find?
first_hit id s r rows e h =
    let here : find? (on_sale id) (s ∷ rows) ≡ some s = rw (e, find?) refl in cc

later_hit :
    (id : String) (s r : ProjectionRow) (rows : List ProjectionRow)
    → on_sale id s ≡ false
    → find? (on_sale id) (s ∷ rows) ≡ some r
    → find? (on_sale id) rows ≡ some r
unfolding find?
later_hit id s r rows e h =
    let on : find? (on_sale id) (s ∷ rows) ≡ find? (on_sale id) rows = rw (e, find?) refl in
    sym on ∙ h

named : (id : String) (s : ProjectionRow) → on_sale id s ≡ true → s.id ≡ id
named id s e = elim (Bool-cases (s.id == id)) [
  | inl q ↦ (==_iff s.id id).0 q
  | inr q ↦ absurd (cc (sym e ∙ ap (λ b. b && s.status == "published") q))
]

find?-on_sale :
    (id : String) (rows : List ProjectionRow) (r : ProjectionRow)
    → find? (on_sale id) rows ≡ some r
    → r.id ≡ id
unfolding find?
find?-on_sale id [] r h = absurd (cc)
find?-on_sale id (s ∷ rows) r h = elim (Bool-cases (on_sale id s)) [
  | inl e ↦ sym (ap (λ (r : ProjectionRow). r.id) (first_hit id s r rows e h)) ∙ named id s e
  | inr e ↦ find?-on_sale id rows r (later_hit id s r rows e h)
]

view_of-some :
    (o : Option ProjectionRow) (card : ProductView)
    → view_of o ≡ some card
    → (r : ProjectionRow) × (o ≡ some r) × (card ≡ map_view_row r)
view_of-some none card h = absurd (cc)
view_of-some (some r) card h = (r, refl, cc)

map-append_ids :
    {V : Type 0} (xs ys : List (NewOrderItem V))
    → map (λ (i : NewOrderItem V). i.product_id) (xs ++ ys)
      ≡ map (λ (i : NewOrderItem V). i.product_id) xs
        ++ map (λ (i : NewOrderItem V). i.product_id) ys
map-append_ids [] ys = refl
map-append_ids (x ∷ xs) ys = ap (λ l. x.product_id ∷ l) (map-append_ids xs ys)

abbrev pub ids_of : {V : Type 0} → List (NewOrderItem V) → List String
ids_of {V} = map (λ (i : NewOrderItem V). i.product_id)

ids_of-units :
    (J : Json) (item_id : ℕ → String) (next n : ℕ) (card : ProductView) (i : CartItem)
    → ids_of (units J item_id next n card i) ≡ replicate n card.id
ids_of-units J item_id next zero card i = refl
ids_of-units J item_id next (suc n) card i =
    ap (λ l. card.id ∷ l) (ids_of-units J item_id (suc next) n card i)

units-Fresh :
    (J : Json) {F : Type 0} (t : CatalogTables F) (item_id : ℕ → String) (next n : ℕ)
    (r : ProjectionRow) (i : CartItem)
    → find? (on_sale r.id) t.product_projection ≡ some r
    → All (Fresh t) (units J item_id next n (map_view_row r) i)
unfolding map_view_row
units-Fresh J t item_id next zero r i h = tt
units-Fresh J t item_id next (suc n) r i h =
    ((r, h, refl, refl, refl, refl), units-Fresh J t item_id (suc next) n r i h)

module _ (J : Json) {F : Type 0} (site : Site) (draw : Draw) where
  open J use {Value}

  abbrev card_call :
      String
      → Conn (CatalogTables F)
      → Result SearchError (Option ProductView) × Conn (CatalogTables F)
  card_call = get_card_by_id site.shown.sql

  tables-card : (id : String) (c : Conn (CatalogTables F)) → (card_call id c).1.tables ≡ c.tables
  unfolding get_card_by_id
  tables-card id c = tables-query (be site.shown.sql) _ c

  card_found :
      (id : String) (c : Conn (CatalogTables F)) (card : ProductView)
      → (card_call id c).0 ≡ ok (some card)
      → (r : ProjectionRow) × (find? (on_sale id) c.tables.product_projection ≡ some r)
        × (card ≡ map_view_row r)
  unfolding get_card_by_id
  card_found id c card h =
      view_of-some (find? (on_sale id) c.tables.product_projection) card
        (cc (query-eq-ok (be site.shown.sql) _ c (some card) h))

  -- The branches of the loop.
  order_items_failed :
      (next : ℕ) (i : CartItem) (is : List CartItem) (c : Conn (CatalogTables F)) (e : SearchError)
      → (card_call i.product_id c).0 ≡ err e
      → order_items J site draw next (i ∷ is) c
        ≡ (err (from_search e), (card_call i.product_id c).1)
  unfolding order_items
  order_items_failed next i is c e h = rw (h, order_items) refl

  order_items_gone :
      (next : ℕ) (i : CartItem) (is : List CartItem) (c : Conn (CatalogTables F))
      → (card_call i.product_id c).0 ≡ ok none
      → order_items J site draw next (i ∷ is) c ≡ (err (gone i.title), (card_call i.product_id c).1)
  unfolding order_items
  order_items_gone next i is c h = rw (h, order_items) refl

  abbrev rest_call :
      ℕ
      → CartItem
      → List CartItem
      → Conn (CatalogTables F)
      → Result WebError (List (NewOrderItem Value)) × Conn (CatalogTables F)
  rest_call next i is c =
      order_items J site draw (next + units_of i) is (card_call i.product_id c).1

  order_items_stopped :
      (next : ℕ) (i : CartItem) (is : List CartItem) (c : Conn (CatalogTables F))
      (card : ProductView) (e : WebError)
      → (card_call i.product_id c).0 ≡ ok (some card)
      → (rest_call next i is c).0 ≡ err e
      → order_items J site draw next (i ∷ is) c ≡ (err e, (rest_call next i is c).1)
  unfolding order_items
  order_items_stopped next i is c card e h k = rw (h, k, order_items) refl

  order_items_made :
      (next : ℕ) (i : CartItem) (is : List CartItem) (c : Conn (CatalogTables F))
      (card : ProductView) (items : List (NewOrderItem Value))
      → (card_call i.product_id c).0 ≡ ok (some card)
      → (rest_call next i is c).0 ≡ ok items
      → order_items J site draw next (i ∷ is) c
        ≡ (ok (units J draw.item_id next (units_of i) card i ++ items), (rest_call next i is c).1)
  unfolding order_items
  order_items_made next i is c card items h k = rw (h, k, order_items) refl

  abbrev loop_call :
      ℕ
      → List CartItem
      → Conn (CatalogTables F)
      → Result WebError (List (NewOrderItem Value)) × Conn (CatalogTables F)
  loop_call = order_items J site draw

  -- The loop only reads.
  pub tables-order_items :
      (next : ℕ) (is : List CartItem) (c : Conn (CatalogTables F))
      → (loop_call next is c).1.tables ≡ c.tables
  unfolding order_items
  tables-order_items next [] c = refl
  tables-order_items next (i ∷ is) c =
      let before = tables-card i.product_id c in
      let after = tables-order_items (next + units_of i) is (card_call i.product_id c).1 ∙ before in
      elim (Result-cases (card_call i.product_id c).0) [
        | inr (e, h) ↦ ap (λ o. o.1.tables) (order_items_failed next i is c e h) ∙ before
        | inl (none, h) ↦ ap (λ o. o.1.tables) (order_items_gone next i is c h) ∙ before
        | inl (some card, h) ↦ elim (Result-cases (rest_call next i is c).0) [
          | inr (e, k) ↦ ap (λ o. o.1.tables) (order_items_stopped next i is c card e h k) ∙ after
          | inl (items, k) ↦
              ap (λ o. o.1.tables) (order_items_made next i is c card items h k) ∙ after
        ]
      ]

  -- The items of one round: as many units as the cart holds, as the catalog shows the product.
  round :
      (next : ℕ) (i : CartItem) (c : Conn (CatalogTables F)) (card : ProductView)
      → (card_call i.product_id c).0 ≡ ok (some card)
      → (ids_of (units J draw.item_id next (units_of i) card i)
          ≡ replicate (units_of i) i.product_id)
        × All (Fresh c.tables) (units J draw.item_id next (units_of i) card i)
  unfolding map_view_row
  round next i c card h =
      let (r, hit, seen) = card_found i.product_id c card h in
      let own = find?-on_sale i.product_id c.tables.product_projection r hit in
      (
        ids_of-units J draw.item_id next (units_of i) card i
            ∙ ap (λ (v : ProductView). replicate (units_of i) v.id) seen
            ∙ ap (replicate (units_of i)) own,
        subst (λ v. All (Fresh c.tables) (units J draw.item_id next (units_of i) v i)) (sym seen)
            (units-Fresh J c.tables draw.item_id next (units_of i) r i
              (ap (λ id. find? (on_sale id) c.tables.product_projection) own ∙ hit)),
      )

  -- Where the loop comes to its end, it has made the wanted items, as the catalog shows them.
  pub order_items-eq-ok :
      (next : ℕ) (is : List CartItem) (c : Conn (CatalogTables F))
      (made : List (NewOrderItem Value))
      → (loop_call next is c).0 ≡ ok made
      → (ids_of made ≡ wanted is) × All (Fresh c.tables) made
  unfolding order_items
  order_items-eq-ok next [] c made h =
      let none_made : made ≡ [] = cc in
      (ap ids_of none_made, subst (All (Fresh c.tables)) (sym none_made) tt)
  order_items-eq-ok next (i ∷ is) c made h = elim (Result-cases (card_call i.product_id c).0) [
    | inr (e, q) ↦ absurd (cc (sym h ∙ ap (λ o. o.0) (order_items_failed next i is c e q)))
    | inl (none, q) ↦ absurd (cc (sym h ∙ ap (λ o. o.0) (order_items_gone next i is c q)))
    | inl (some card, q) ↦ elim (Result-cases (rest_call next i is c).0) [
      | inr (e, k) ↦
          absurd (cc (sym h ∙ ap (λ o. o.0) (order_items_stopped next i is c card e q k)))
      | inl (items, k) ↦
          let (ids, fresh) = round next i c card q in
          let (rest_ids, rest_fresh) =
            order_items-eq-ok (next + units_of i) is (card_call i.product_id c).1 items k in
          let whole : made ≡ units J draw.item_id next (units_of i) card i ++ items =
            cc (sym h ∙ ap (λ o. o.0) (order_items_made next i is c card items q k)) in
          (
            ap ids_of whole
                ∙ map-append_ids (units J draw.item_id next (units_of i) card i) items
                ∙ ap (λ l. l ++ ids_of items) ids
                ∙ ap (λ l. replicate (units_of i) i.product_id ++ l) rest_ids,
            subst (All (Fresh c.tables)) (sym whole) (
                All-append (Fresh c.tables) _ items fresh
                  (subst (λ t. All (Fresh t) items) (tables-card i.product_id c) rest_fresh)),
          )
    ]
  ]
