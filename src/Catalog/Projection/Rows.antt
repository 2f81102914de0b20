-- ===== src/Catalog/Projection/Rows.antt =====
-- Statements of crates/catalog/src/projection.rs that change rows of the projection and have no
-- further effect when they run again.
use tiny_shop.Prelude.{
  String, ◌≡◌, refl, sym, ap, ◌∙◌, subst, Bool, true, false, not, ◌&&◌, List, arith, ◌==◌,
  string_eq, any, any-update_where, update_where, update_where_twice, delete_where_twice,
  Bool-cases, inl, inr, any-update_ne,
}
use tiny_shop.Prelude.Int.{ℤ}
use tiny_shop.Sql.{ok}
use tiny_shop.Sql.Laws.{tables_of}
use tiny_shop.Catalog.{ProjectionRow, FtsRow, CatalogTables}
use tiny_shop.Catalog.Projection.{
  row_id, row_slug, fts_of, entries_of, edit_row, touch_row, set_row_status, apply_deleted_id,
}
use tiny_shop.Catalog.Projection.Repeats.{Again, Quiet}

module _ (id title slug description : String) (price_minor : ℤ) (currency : String)
    (updated_at : ℤ) where
  abbrev edited : ProjectionRow → ProjectionRow
  edited r = record r {
    title = title;
    slug = slug;
    description = description;
    price_minor = price_minor;
    currency = currency;
    updated_at = updated_at;
  }

  abbrev taken : List ProjectionRow → Bool
  taken rows = any (row_id id) rows && any (λ s. not (s.id == id) && row_slug slug s) rows

  taken-edited :
      (rows : List ProjectionRow) → taken (update_where (row_id id) edited rows) ≡ taken rows
  taken-edited rows =
      ap
        (λ b.
          b
          && any (λ s. not (s.id == id) && row_slug slug s) (update_where (row_id id) edited rows))
        (any-update_where (row_id id) (row_id id) edited rows (λ a. refl))
      ∙ ap (λ b. any (row_id id) rows && b)
          (any-update_ne (λ s. not (s.id == id) && row_slug slug s) (row_id id) edited rows
            (λ a k. rw k refl) (λ a k. rw k refl))

module _ {F : Type 0} (id title slug description : String) (price_minor : ℤ) (currency : String)
    (updated_at : ℤ) where
  edit_free :
      (t : CatalogTables F)
      → taken id title slug description price_minor currency updated_at t.product_projection ≡ false
      → edit_row id title slug description price_minor currency updated_at t
        ≡ ok (
          tt,
          record t {
            product_projection =
                update_where
                  (row_id id)
                  (edited id title slug description price_minor currency updated_at)
                  t.product_projection;
          },
        )
  unfolding edit_row
  edit_free t e = rw (e, edit_row) refl

  edit_refused :
      (t t' : CatalogTables F)
      → taken id title slug description price_minor currency updated_at t.product_projection ≡ true
      → edit_row id title slug description price_minor currency updated_at t ≡ ok (tt, t')
      → ⊥
  unfolding edit_row
  edit_refused t t' e h = ground (arith, e)

  pub edit_row_calm :
      (t t' : CatalogTables F) (docs : List FtsRow)
      → edit_row id title slug description price_minor currency updated_at t ≡ ok (tt, t')
      → Quiet (edit_row id title slug description price_minor currency updated_at) docs t'
  edit_row_calm t t' docs h =
      elim (Bool-cases
        (taken id title slug description price_minor currency updated_at t.product_projection)) [
          | inl e ↦ absurd (edit_refused t t' e h)
          | inr e ↦
              subst
                (Quiet (edit_row id title slug description price_minor currency updated_at) docs)
                (sym (tables_of (sym (edit_free t e) ∙ h)))
                (edit_free
                    (record t {
                      product_projection =
                          update_where (row_id id)
                            (edited id title slug description price_minor currency updated_at)
                            t.product_projection;
                      product_fts = docs;
                    })
                    (taken-edited id title slug description price_minor currency updated_at
                        t.product_projection
                      ∙ e)
                  ∙ ap (λ rows. ok (tt, record t { product_projection = rows; product_fts = docs }))
                      (update_where_twice (row_id id)
                        (edited id title slug description price_minor currency updated_at)
                        t.product_projection (λ a k. k) (λ a. refl)))
        ]

module _ {F : Type 0} where
  pub touch_row-Again :
      (id : String) (updated_at : ℤ) → Again {S = CatalogTables F} (touch_row id updated_at)
  unfolding touch_row
  touch_row-Again id updated_at t t' h =
      subst (λ s. touch_row id updated_at s ≡ ok (tt, s)) (sym (tables_of h))
        (ap (λ rows. ok (tt, record t { product_projection = rows }))
          (update_where_twice (row_id id) _ t.product_projection (λ a k. k) (λ a. refl)))

  pub set_row_status-Again :
      (id to : String) (updated_at : ℤ)
      → Again {S = CatalogTables F} (set_row_status id to updated_at)
  unfolding set_row_status
  set_row_status-Again id to updated_at t t' h =
      subst (λ s. set_row_status id to updated_at s ≡ ok (tt, s)) (sym (tables_of h))
        (ap (λ rows. ok (tt, record t { product_projection = rows }))
          (update_where_twice (row_id id) _ t.product_projection (λ a k. k) (λ a. refl)))

  pub apply_deleted_id-Again : (id : String) → Again {S = CatalogTables F} (apply_deleted_id id)
  unfolding apply_deleted_id
  apply_deleted_id-Again id t t' h =
      subst (λ s. apply_deleted_id id s ≡ ok (tt, s)) (sym (tables_of h))
        (rw
          (
            delete_where_twice (entries_of id) t.product_attr_index,
            delete_where_twice (fts_of id) t.product_fts,
            delete_where_twice (row_id id) t.product_projection,
          )
          refl)
