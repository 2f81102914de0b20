-- ===== src/Product/Calls/Effects.antt =====
-- Every successful call of `ProductRepo` does to the products what `effect` says, and stores the
-- event that `emitted` says in the same transaction.
use mathlib.Core.Option
use tiny_shop.Prelude.{
  String, ◌≡◌, refl, sym, ap, ◌∙◌, subst, true, false, Option, none, some, List, find?,
  update_where, filter, length, ltb, Bool-cases, Option-cases, inl, inr,
}
use tiny_shop.Prelude.Int.{ℤ}
use tiny_shop.Sql.{Result, ok, err, Conn}
use tiny_shop.Sql.Laws.{transaction-eq-ok, tables_of}
use tiny_shop.Shared.Json.{Json, Reading}
use tiny_shop.Product.{
  ProductError, ProductRow, ProductStatus, db, parse_status, same_status, invalid_enum,
}
use tiny_shop.Product.Repo.{
  Tables, status_transition_event, is_product, change_status, with_status, status_changed,
  set_status, erase, delete_product, create_product, update_product, insert_product, edit_product,
}
use tiny_shop.Product.Changes.{
  Announced, enqueue_event-eq-ok, announce-eq-ok, change_taken, erase_known, erase_unknown,
}
use tiny_shop.Product.Extras.Emits.{edit_lem}
use tiny_shop.Product.Calls.{
  Call, new_product, update, status, delete, extra, current, moved, at_status, perform, of_move,
  of_delete, Stored, Done, core_event, then_event, insert_product_rows, core_edited,
}

current_of_none :
    (id : String) (rows : List ProductRow)
    → find? (is_product id) rows ≡ none
    → current id rows ≡ none
unfolding current
current_of_none id rows e = rw (e, current) refl

pub current_of_row :
    (id : String) (r : ProductRow) (rows : List ProductRow)
    → find? (is_product id) rows ≡ some r
    → current id rows ≡ parse_status r.status
unfolding current
current_of_row id r rows e = rw (e, current) refl

module _ (J : Json) (F : Type 0) (R : Reading J F) where
  abbrev Moves :
      ℤ → String → ProductStatus → Tables J F → Tables J F → Option ProductStatus → Type 0
  Moves now id to t t' m =
      (t'.products ≡ elim m [
        | none ↦ t.products
        | some from ↦ update_where (is_product id) (at_status now to) t.products
      ])
      × Stored J F R now (of_move J F R now id to m) t.outbox t'.outbox

  change_missing :
      (now : ℤ) (id : String) (to : ProductStatus) (t : Tables J F)
      → find? (is_product id) t.products ≡ none
      → change_status J F now id to t ≡ ok (tt, t)
  unfolding change_status
  change_missing now id to t e = rw (e, change_status) refl

  change_unreadable :
      (now : ℤ) (id : String) (to : ProductStatus) (r : ProductRow) (t : Tables J F)
      → find? (is_product id) t.products ≡ some r
      → parse_status r.status ≡ none
      → change_status J F now id to t ≡ err (invalid_enum "status" r.status)
  unfolding change_status
  change_unreadable now id to r t e p = rw (e, p, change_status) refl

  change_same :
      (now : ℤ) (id : String) (from to : ProductStatus) (r : ProductRow) (t : Tables J F)
      → find? (is_product id) t.products ≡ some r
      → parse_status r.status ≡ some from
      → same_status from to ≡ true
      → change_status J F now id to t ≡ ok (tt, t)
  unfolding change_status
  change_same now id from to r t e p s = rw (e, p, s, change_status) refl

  move-Stored :
      (now : ℤ) (id : String) (from to : ProductStatus) (e : Option String) (t t' : Tables J F)
      → Announced J F now id from to e t.outbox t'.outbox
      → Stored J F R now (Option.map (status_changed J F now id from to) e) t.outbox t'.outbox
  move-Stored now id from to none t t' h = h
  move-Stored now id from to (some e) t t' h = h

  status_Moves :
      (now : ℤ) (id : String) (to : ProductStatus) (t t' : Tables J F)
      → change_status J F now id to t ≡ ok (tt, t')
      → Moves now id to t t' (moved (current id t.products) to)
  status_Moves now id to t t' h = elim (Option-cases (find? (is_product id) t.products)) [
    | inl e ↦
        subst (Moves now id to t t') (sym (ap (λ o. moved o to) (current_of_none id t.products e)))
          (stays (sym (change_missing now id to t e) ∙ h))
    | inr (r, e) ↦ elim (Option-cases (parse_status r.status)) [
      | inl p ↦ absurd (refused (sym (change_unreadable now id to r t e p) ∙ h))
      | inr (from, p) ↦ elim (Bool-cases (same_status from to)) [
        | inl s ↦
            subst (Moves now id to t t') (sym (seen r from e p ∙ unmoved from s))
              (stays (sym (change_same now id from to r t e p s) ∙ h))
        | inr s ↦
            let (event, products) =
              announce-eq-ok J F now id from to (status_transition_event from to)
                (with_status J F now id to t) t'
                (sym (change_taken J F now id from to r t e p s) ∙ h) in
            subst (Moves now id to t t') (sym (seen r from e p ∙ goes from s)) (
              products,
              move-Stored now id from to (status_transition_event from to)
                  (with_status J F now id to t) t' event,
            )
      ]
    ]
  ]
    where
      stays :
          ◌≡◌ {A = Result ProductError (Unit {0} × Tables J F)} (ok (tt, t)) (ok (tt, t'))
          → Moves now id to t t' none
      stays q = (
        ap (λ (s : Tables J F). s.products) (tables_of q),
        ap (λ (s : Tables J F). s.outbox) (tables_of q),
      )

      refused :
          {x : ProductError}
          → ◌≡◌ {A = Result ProductError (Unit {0} × Tables J F)} (err x) (ok (tt, t'))
          → ⊥
      refused q = cc

      seen :
          (r : ProductRow) (from : ProductStatus)
          → find? (is_product id) t.products ≡ some r
          → parse_status r.status ≡ some from
          → moved (current id t.products) to ≡ moved (some from) to
      seen r from e p = ap (λ o. moved o to) (current_of_row id r t.products e ∙ p)

      unmoved : (from : ProductStatus) → same_status from to ≡ true → moved (some from) to ≡ none
      unmoved from s = rw (s, moved) refl

      goes : (from : ProductStatus) → same_status from to ≡ false → moved (some from) to ≡ some from
      goes from s = rw (s, moved) refl

  delete_Done :
      (now : ℤ) (id : String) (t t' : Tables J F)
      → erase J F now id t ≡ ok (tt, t')
      → Done J F R now (delete id) t t'
  delete_Done now id t t' h =
      elim (Bool-cases (ltb 0 (length (filter (is_product id) t.products)))) [
        | inl e ↦
            let (n, o, put, same) =
              enqueue_event-eq-ok J F now _ _ t' (sym (erase_known J F now id t e) ∙ h) in
            (
              ap (λ (s : Tables J F). s.products) same,
              subst (λ b. Stored J F R now (of_delete J F R id b) t.outbox t'.outbox) (sym e)
                  (n, put ∙ ap (λ (s : Tables J F). ok (n, s.outbox)) (sym same)),
            )
        | inr e ↦
            let same = tables_of (sym (erase_unknown J F now id t e) ∙ h) in
            (
              ap (λ (s : Tables J F). s.products) same,
              subst (λ b. Stored J F R now (of_delete J F R id b) t.outbox t'.outbox) (sym e)
                  (ap (λ (s : Tables J F). s.outbox) same),
            )
      ]

  -- A call that succeeds has changed the products as `effect` says, and has put the event that
  -- `emitted` says, or none, behind the outbox.
  pub perform_lem :
      (now : ℤ) (k : Call F) (c : Conn (Tables J F))
      → (perform J F R now k c).0 ≡ ok tt
      → Done J F R now k c.tables (perform J F R now k c).1.tables
  unfolding perform create_product update_product set_status delete_product
  perform_lem now (new_product p) c h =
      let (t, ran, left) = transaction-eq-ok db _ c tt h in
      subst (Done J F R now (new_product p) c.tables) (sym left) (
        then_event J F R now (insert_product J F p) _ _ c.tables t
          (insert_product_rows J F R p c.tables) ran)
  perform_lem now (update id title slug description price_minor currency) c h =
      let (t, ran, left) = transaction-eq-ok db _ c tt h in
      subst (Done J F R now (update id title slug description price_minor currency) c.tables)
        (sym left)
        (then_event J F R now (edit_product J F now id title slug description price_minor currency)
          (core_event J F R now id title slug description price_minor currency) _ c.tables t
          (core_edited J F R now id title slug description price_minor currency c.tables) ran)
  perform_lem now (status id to) c h =
      let (t, ran, left) = transaction-eq-ok db _ c tt h in
      subst (Done J F R now (status id to) c.tables) (sym left)
        (status_Moves now id to c.tables t ran)
  perform_lem now (delete id) c h =
      let (t, ran, left) = transaction-eq-ok db _ c tt h in
      subst (Done J F R now (delete id) c.tables) (sym left) (delete_Done now id c.tables t ran)
  perform_lem now (extra e) c h =
      let (n, put, products) = (edit_lem J F R now e c).0 h in (products, (n, put))
