-- ===== src/Product/Changes.antt =====
-- What `set_status` and `delete_product` of crates/product/src/repository.rs leave in the tables.
use tiny_shop.Prelude.{
  ℕ, String, ◌≡◌, refl, sym, ap, ◌∙◌, subst, true, false, Option, some, none, ◌∷◌, arith, ◌==◌,
  ==_iff, filter, find?, length, ltb, find?-delete_where, find?-delete_ne, find?-update_where,
  find?-update_ne, Bool-cases, inl, inr, string_eq, [],
}
use mathlib.Core.Option
use tiny_shop.Prelude.Int.{ℤ}
use tiny_shop.Sql.{Result, ok, err, Conn}
use tiny_shop.Sql.Laws.{transaction-eq-ok}
use tiny_shop.Shared.{NewEvent}
use tiny_shop.Shared.Json.{Json}
use tiny_shop.Events.Outbox.{Outbox, DbError, enqueue}
use tiny_shop.Product.{
  ProductRow, MediaRow, ConfigRow, DigitalVariant, AttributeRow, Translation, ProductStatus,
  ProductError, db, from_db, status_str, parse_status, same_status,
}
use tiny_shop.Product.Repo.{
  Tables, status_transition_event, is_product, is_translation, of_variants, enqueue_event,
  product_event, status_changed, announce, with_status, change_status, set_status, without,
  untranslated, erase, delete_product,
}

apart :
    (a b : String)
    → (a == b) ≡ false
    → (s : ProductRow) → is_product a s ≡ true
    → is_product b s ≡ false
apart a b ne s e = elim (Bool-cases (is_product b s)) [
  | inl e' ↦ absurd (cc (ne, (==_iff a b).1 (sym ((==_iff s.id a).0 e) ∙ (==_iff s.id b).0 e')))
  | inr e' ↦ e'
]

two_types : {s : String} → s ≡ "product" → s ≡ "digital_variant" → ⊥
two_types p q = absurd (cc ((==_iff {A = String} "product" "digital_variant").1 (sym p ∙ q)))

module _ (J : Json) (F : Type 0) where
  open J use {Value, Encoded, text, number, object}

  pub enqueue_event-eq-ok :
      (now : ℤ) (ev : NewEvent Value) (t t' : Tables J F)
      → enqueue_event J F now ev t ≡ ok (tt, t')
      → (n : ℕ) × (o : Outbox Encoded) × (enqueue J now ev t.outbox ≡ ok (n, o))
        × (t' ≡ record t { outbox = o })
  unfolding enqueue_event
  enqueue_event-eq-ok now ev t t' h = go (enqueue J now ev t.outbox) refl h
    where
      go :
          (r : Result DbError (ℕ × Outbox Encoded))
          → enqueue J now ev t.outbox ≡ r
          → ◌≡◌ {A = Result ProductError (Unit {0} × Tables J F)}
              (elim r [ ok (id, o) ↦ ok (tt, record t { outbox = o }) | err e ↦ err (from_db e) ])
              (ok (tt, t'))
          → (n : ℕ) × (o : Outbox Encoded) × (enqueue J now ev t.outbox ≡ ok (n, o))
            × (t' ≡ record t { outbox = o })
      go (ok (id, o)) e q = (id, o, e, ground arith)
      go (err e') e q = absurd (cc)

  -- Which event a change of status puts into the outbox, if any.
  abbrev pub Announced :
      ℤ
      → String
      → ProductStatus
      → ProductStatus
      → Option String
      → Outbox Encoded
      → Outbox Encoded
      → Type 0
  Announced now id from to none o o' = o' ≡ o
  Announced now id from to (some event_type) o o' =
      (n : ℕ) × (enqueue J now (status_changed J F now id from to event_type) o ≡ ok (n, o'))

  pub announce-eq-ok :
      (now : ℤ) (id : String) (from to : ProductStatus) (e : Option String) (t t' : Tables J F)
      → announce J F now id from to e t ≡ ok (tt, t')
      → Announced now id from to e t.outbox t'.outbox × (t'.products ≡ t.products)
  unfolding announce
  announce-eq-ok now id from to none t t' h = (ground arith, ground arith)
  announce-eq-ok now id from to (some e) t t' h =
      let (n, o, stored, same) = enqueue_event-eq-ok now _ t t' h in
      (
        (n, stored ∙ ap (λ (s : Tables J F). ok (n, s.outbox)) (sym same)),
        ap (λ (s : Tables J F). s.products) same,
      )

  pub change_taken :
      (now : ℤ) (id : String) (from to : ProductStatus) (r : ProductRow) (t : Tables J F)
      → find? (is_product id) t.products ≡ some r
      → parse_status r.status ≡ some from
      → same_status from to ≡ false
      → change_status J F now id to t
        ≡ announce J F now id from to
            (status_transition_event from to)
            (with_status J F now id to t)
  unfolding change_status
  change_taken now id from to r t found parsed other = rw (found, parsed, other, change_status) refl

  -- A successful `set_status` of a product with another status gives its row that status and the
  -- time, leaves every other product as it was, and puts the event of the change into the outbox,
  -- or leaves the outbox alone where the change has no event.
  pub set_status_lem :
      (now : ℤ) (id : String) (from to : ProductStatus) (r : ProductRow) (c : Conn (Tables J F))
      → find? (is_product id) c.tables.products ≡ some r
      → parse_status r.status ≡ some from
      → same_status from to ≡ false
      → (set_status J F now id to c).0 ≡ ok tt
      → (find? (is_product id) (set_status J F now id to c).1.tables.products
          ≡ some (record r { status = status_str to; updated_at = now }))
        × ((other : String)
            → (id == other) ≡ false
            → find? (is_product other) (set_status J F now id to c).1.tables.products
              ≡ find? (is_product other) c.tables.products)
        × Announced now id from to
            (status_transition_event from to)
            c.tables.outbox
            (set_status J F now id to c).1.tables.outbox
  unfolding set_status
  set_status_lem now id from to r c found parsed other h =
      let (t, ran, left) = transaction-eq-ok db (change_status J F now id to) c tt h in
      let (event, same) =
        announce-eq-ok now id from to (status_transition_event from to)
          (with_status J F now id to c.tables) t
          (sym (change_taken now id from to r c.tables found parsed other) ∙ ran) in
      let products = ap (λ (s : Tables J F). s.products) left ∙ same in
      (
        ap (find? (is_product id)) products
            ∙ find?-update_where (is_product id) _ c.tables.products (λ s q. q)
            ∙ ap
                (Option.map
                  (λ (s : ProductRow). record s { status = status_str to; updated_at = now }))
                found,
        (λ b ne.
            ap (find? (is_product b)) products
            ∙ find?-update_ne (is_product b) (is_product id) _ c.tables.products (apart id b ne)
                (apart id b ne)),
        subst
            (λ (s : Tables J F).
              Announced now id from to (status_transition_event from to) c.tables.outbox s.outbox)
            (sym left) event,
      )

  pub erase_known :
      (now : ℤ) (id : String) (t : Tables J F)
      → ltb 0 (length (filter (is_product id) t.products)) ≡ true
      → erase J F now id t
        ≡ enqueue_event J F now
            (product_event J F id "ProductDeleted" (object (("id", text id) ∷ [])))
            (without J F id (untranslated J F id t))
  unfolding erase
  erase_known now id t e = rw (e, erase) refl

  pub erase_unknown :
      (now : ℤ) (id : String) (t : Tables J F)
      → ltb 0 (length (filter (is_product id) t.products)) ≡ false
      → erase J F now id t ≡ ok (tt, without J F id (untranslated J F id t))
  unfolding erase
  erase_unknown now id t e = rw (e, erase) refl

  erase-eq-ok :
      (now : ℤ) (id : String) (t t' : Tables J F)
      → erase J F now id t ≡ ok (tt, t')
      → (o : Outbox Encoded) × (t' ≡ record (without J F id (untranslated J F id t)) { outbox = o })
  erase-eq-ok now id t t' h =
      elim (Bool-cases (ltb 0 (length (filter (is_product id) t.products)))) [
        | inl e ↦
            let (n, o, stored, same) =
              enqueue_event-eq-ok now _ (without J F id (untranslated J F id t)) t'
                (sym (erase_known now id t e) ∙ h) in
            (o, same)
        | inr e ↦ (t.outbox, tables_of _ t' (sym (erase_unknown now id t e) ∙ h))
      ]
    where
      tables_of :
          (s t' : Tables J F)
          → ◌≡◌ {A = Result ProductError (Unit {0} × Tables J F)} (ok (tt, s)) (ok (tt, t'))
          → t' ≡ s
      tables_of s t' h = cc

  -- No row of `t'` belongs to the product `id`, and the other products are those of `t`.
  pub record IsErased (id : String) (t t' : Tables J F) : Type 0 where
    pub product : find? (is_product id) t'.products ≡ none
    pub media : find? (λ (r : MediaRow). r.product_id == id) t'.product_media ≡ none
    pub config : find? (λ (r : ConfigRow). r.product_id == id) t'.digital_config ≡ none
    pub variants : find? (λ (r : DigitalVariant). r.product_id == id) t'.digital_variant ≡ none
    pub attributes :
        find? (λ (r : AttributeRow F). r.product_id == id) t'.product_attribute_values ≡ none
    pub translation : find? (is_translation "product" id) t'.translations ≡ none
    pub variant_translation : find? (of_variants id t.digital_variant) t'.translations ≡ none
    pub others :
        (other : String)
        → (id == other) ≡ false
        → find? (is_product other) t'.products ≡ find? (is_product other) t.products

  without-IsErased :
      (id : String) (t : Tables J F) (o : Outbox Encoded)
      → IsErased id t (record (without J F id (untranslated J F id t)) { outbox = o })
  without-IsErased id t o = record {
    product = find?-delete_where (is_product id) t.products;
    media = find?-delete_where (λ (r : MediaRow). r.product_id == id) t.product_media;
    config = find?-delete_where (λ (r : ConfigRow). r.product_id == id) t.digital_config;
    variants = find?-delete_where (λ (r : DigitalVariant). r.product_id == id) t.digital_variant;
    attributes =
        find?-delete_where (λ (r : AttributeRow F). r.product_id == id) t.product_attribute_values;
    translation =
        find?-delete_ne (is_translation "product" id) (of_variants id t.digital_variant) _ typed
        ∙ find?-delete_where (is_translation "product" id) t.translations;
    variant_translation = find?-delete_where (of_variants id t.digital_variant) _;
    others = λ b ne. find?-delete_ne (is_product b) (is_product id) t.products (apart id b ne);
  }
    where
      typed :
          (r : Translation)
          → of_variants id t.digital_variant r ≡ true
          → is_translation "product" id r ≡ false
      typed r h = elim (Bool-cases (r.entity_type == "product")) [
        | inl e ↦ absurd (
            two_types ((==_iff r.entity_type "product").0 e)
              ((==_iff r.entity_type "digital_variant").0 (ground arith)))
        | inr e ↦ rw e refl
      ]

  -- A successful `delete_product` leaves no row that belongs to the product in any table: not the
  -- product, its media, configuration, variants and attribute values, no translation of it, and no
  -- translation of a variant that it had. Every other product stays.
  pub delete_product_lem :
      (now : ℤ) (id : String) (c : Conn (Tables J F))
      → (delete_product J F now id c).0 ≡ ok tt
      → IsErased id c.tables (delete_product J F now id c).1.tables
  unfolding delete_product
  delete_product_lem now id c h =
      let (t, ran, left) = transaction-eq-ok db (erase J F now id) c tt h in
      let (o, same) = erase-eq-ok now id c.tables t ran in
      subst (IsErased id c.tables) (sym (left ∙ same)) (without-IsErased id c.tables o)
