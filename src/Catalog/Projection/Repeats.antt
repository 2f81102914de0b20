-- ===== src/Catalog/Projection/Repeats.antt =====
-- Statements of crates/catalog/src/projection.rs that have no further effect when they run again.
use tiny_shop.Prelude.{
  String, ◌≡◌, refl, sym, ap, ◌∙◌, subst, true, false, ◌||◌, none, some, List, [], ◌∷◌, ◌++◌,
  ==_self, string_eq, find?, any, any-update_where, update_where, delete_where, update_where_twice,
  delete_where_twice, delete_where-append_one, Bool-cases, Option-cases, inl, inr, any_of_last,
  update_where-append_one,
}
use tiny_shop.Sql.{SqlError, ok, Tx, ◌>>◌}
use tiny_shop.Sql.Laws.{tables_of, bind-eq-ok, bind_runs}
use tiny_shop.Catalog.{ProjectionRow, IndexRow, FtsRow, CatalogTables}
use tiny_shop.Catalog.Projection.{
  row_id, row_slug, fts_of, entry_of, texts_of, upsert_fts, insert_or_ignore, set_entry,
  clear_entry,
}

-- Statements that, run again on what they left, leave it so.
abbrev pub Again : {E S : Type 0} → Tx E S (Unit {0}) → Type 0
Again {S} m = (t t' : S) → m t ≡ ok (tt, t') → m t' ≡ ok (tt, t')

module _ {F : Type 0} where
  module _ (group_concat : List String → String) (id : String) where
    indexed : ProjectionRow → CatalogTables F → CatalogTables F
    indexed r t = record t {
      product_fts =
          delete_where (fts_of id) t.product_fts
          ++ record {
            product_id = id;
            title = r.title;
            description = r.description;
            attrs = group_concat (texts_of id t.product_attr_index);
          }
            ∷ [];
    }

    upsert_fts_known :
        (t : CatalogTables F) (r : ProjectionRow)
        → find? (row_id id) t.product_projection ≡ some r
        → upsert_fts group_concat id t ≡ ok (tt, indexed r t)
    unfolding upsert_fts indexed
    upsert_fts_known t r e = rw (e, upsert_fts) refl

    upsert_fts_unknown :
        (t : CatalogTables F)
        → find? (row_id id) t.product_projection ≡ none
        → upsert_fts group_concat id t ≡ ok (tt, t)
    unfolding upsert_fts
    upsert_fts_unknown t e = rw (e, upsert_fts) refl

    -- Only the full-text table changes.
    pub upsert_fts-keeps :
        (t t' : CatalogTables F)
        → upsert_fts group_concat id t ≡ ok (tt, t')
        → (docs : List FtsRow) × (t' ≡ record t { product_fts = docs })
    unfolding indexed
    upsert_fts-keeps t t' h = elim (Option-cases (find? (row_id id) t.product_projection)) [
      | inl e ↦ (t.product_fts, tables_of (sym (upsert_fts_unknown t e) ∙ h))
      | inr (r, e) ↦ (_, tables_of (sym (upsert_fts_known t r e) ∙ h))
    ]

    indexed_twice :
        (r : ProjectionRow) (t : CatalogTables F) → indexed r (indexed r t) ≡ indexed r t
    unfolding indexed
    indexed_twice r t =
        ap
          (λ docs. record t {
            product_fts =
                docs
                ++ record {
                  product_id = id;
                  title = r.title;
                  description = r.description;
                  attrs = group_concat (texts_of id t.product_attr_index);
                }
                  ∷ [];
          })
          (delete_where-append_one (fts_of id) t.product_fts _ (==_self id))

    upsert_fts-Again : Again {S = CatalogTables F} (upsert_fts group_concat id)
    unfolding indexed
    upsert_fts-Again t t' h = elim (Option-cases (find? (row_id id) t.product_projection)) [
      | inl e ↦
          subst (λ s. upsert_fts group_concat id s ≡ ok (tt, s))
            (sym (tables_of (sym (upsert_fts_unknown t e) ∙ h))) (upsert_fts_unknown t e)
      | inr (r, e) ↦
          subst (λ s. upsert_fts group_concat id s ≡ ok (tt, s))
            (sym (tables_of (sym (upsert_fts_known t r e) ∙ h)))
            (upsert_fts_known (indexed r t) r (there r e)
              ∙ ap (λ s. ok (tt, s)) (indexed_twice r t))
    ]
      where
        there :
            (r : ProjectionRow)
            → find? (row_id id) t.product_projection ≡ some r
            → find? (row_id id) (indexed r t).product_projection ≡ some r
        there r e = e

    -- Statements before the full-text table is brought up to date.
    pub then_fts-Again :
        (m : Tx SqlError (CatalogTables F) (Unit {0}))
        → ((t t' : CatalogTables F) (docs : List FtsRow)
            → m t ≡ ok (tt, t')
            → m (record t' { product_fts = docs }) ≡ ok (tt, record t' { product_fts = docs }))
        → Again (m >> upsert_fts group_concat id)
    then_fts-Again m calm t t' h =
        let (_, s, first, second) = bind-eq-ok m (λ _. upsert_fts group_concat id) t tt t' h in
        let (docs, same) = upsert_fts-keeps s t' second in
        bind_runs m (λ _. upsert_fts group_concat id) t' tt t'
          (subst (λ u. m u ≡ ok (tt, u)) (sym same) (calm t s docs first))
        ∙ upsert_fts-Again s t' second

  insert_taken :
      (r : ProjectionRow) (t : CatalogTables F)
      → (any (row_id r.id) t.product_projection || any (row_slug r.slug) t.product_projection)
        ≡ true
      → insert_or_ignore r t ≡ ok (tt, t)
  unfolding insert_or_ignore
  insert_taken r t e = rw (e, insert_or_ignore) refl

  pub insert_new :
      (r : ProjectionRow) (t : CatalogTables F)
      → (any (row_id r.id) t.product_projection || any (row_slug r.slug) t.product_projection)
        ≡ false
      → insert_or_ignore r t
        ≡ ok (tt, record t { product_projection = t.product_projection ++ r ∷ [] })
  unfolding insert_or_ignore
  insert_new r t e = rw (e, insert_or_ignore) refl

  pub insert_calm :
      (r : ProjectionRow) (t t' : CatalogTables F) (docs : List FtsRow)
      → insert_or_ignore r t ≡ ok (tt, t')
      → insert_or_ignore r (record t' { product_fts = docs })
        ≡ ok (tt, record t' { product_fts = docs })
  insert_calm r t t' docs h =
      elim (Bool-cases
        (any (row_id r.id) t.product_projection || any (row_slug r.slug) t.product_projection)) [
          | inl e ↦
              subst
                (λ s.
                  insert_or_ignore r (record s { product_fts = docs })
                  ≡ ok (tt, record s { product_fts = docs }))
                (sym (tables_of (sym (insert_taken r t e) ∙ h)))
                (insert_taken r (record t { product_fts = docs }) e)
          | inr e ↦
              subst
                (λ s.
                  insert_or_ignore r (record s { product_fts = docs })
                  ≡ ok (tt, record s { product_fts = docs }))
                (sym (tables_of (sym (insert_new r t e) ∙ h)))
                (insert_taken r
                  (record t {
                    product_projection = t.product_projection ++ r ∷ [];
                    product_fts = docs;
                  })
                  (rw (any_of_last (row_id r.id) t.product_projection r (==_self r.id)) refl))
        ]

  set_old :
      (e : IndexRow F) (t : CatalogTables F)
      → any (entry_of e.product_id e.attribute_id) t.product_attr_index ≡ true
      → set_entry e t
        ≡ ok (
          tt,
          record t {
            product_attr_index =
                update_where
                  (entry_of e.product_id e.attribute_id)
                  (λ r. record r {
                    category_id = e.category_id;
                    val_text = e.val_text;
                    val_num = e.val_num;
                  })
                  t.product_attr_index;
          },
        )
  unfolding set_entry
  set_old e t h = rw (h, set_entry) refl

  set_new :
      (e : IndexRow F) (t : CatalogTables F)
      → any (entry_of e.product_id e.attribute_id) t.product_attr_index ≡ false
      → set_entry e t ≡ ok (tt, record t { product_attr_index = t.product_attr_index ++ e ∷ [] })
  unfolding set_entry
  set_new e t h = rw (h, set_entry) refl

  -- The entry as the event gives it, in the place of the one that the product has.
  abbrev entry_set : IndexRow F → IndexRow F → IndexRow F
  entry_set e r = record r {
    category_id = e.category_id;
    val_text = e.val_text;
    val_num = e.val_num;
  }

  abbrev pub Quiet :
      (Tx SqlError (CatalogTables F) (Unit {0})) → List FtsRow → CatalogTables F → Type 0
  Quiet m docs s = m (record s { product_fts = docs }) ≡ ok (tt, record s { product_fts = docs })

  pub set_entry_calm :
      (e : IndexRow F) (t t' : CatalogTables F) (docs : List FtsRow)
      → set_entry e t ≡ ok (tt, t')
      → Quiet (set_entry e) docs t'
  set_entry_calm e t t' docs h =
      elim (Bool-cases (any (entry_of e.product_id e.attribute_id) t.product_attr_index)) [
        | inl old ↦ subst (Quiet (set_entry e) docs) (sym (tables_of (sym (set_old e t old) ∙ h))) (
            set_old e
              (record t {
                product_attr_index =
                    update_where (entry_of e.product_id e.attribute_id) (entry_set e)
                      t.product_attr_index;
                product_fts = docs;
              })
              (any-update_where (entry_of e.product_id e.attribute_id)
                  (entry_of e.product_id e.attribute_id) (entry_set e) t.product_attr_index
                  (λ a. refl)
                ∙ old)
            ∙ ap (λ rows. ok (tt, record t { product_attr_index = rows; product_fts = docs }))
                (update_where_twice (entry_of e.product_id e.attribute_id) (entry_set e)
                  t.product_attr_index (λ a k. k) (λ a. refl)))
        | inr new ↦ subst (Quiet (set_entry e) docs) (sym (tables_of (sym (set_new e t new) ∙ h))) (
            set_old e
              (record t { product_attr_index = t.product_attr_index ++ e ∷ []; product_fts = docs })
              (any_of_last (entry_of e.product_id e.attribute_id) t.product_attr_index e
                (rw (==_self e.product_id, ==_self e.attribute_id) refl))
            ∙ ap (λ rows. ok (tt, record t { product_attr_index = rows; product_fts = docs }))
                (update_where-append_one (entry_of e.product_id e.attribute_id) (entry_set e)
                  t.product_attr_index e new refl))
      ]

  pub clear_entry_calm :
      (product_id attribute_id : String) (t t' : CatalogTables F) (docs : List FtsRow)
      → clear_entry product_id attribute_id t ≡ ok (tt, t')
      → Quiet (clear_entry product_id attribute_id) docs t'
  unfolding clear_entry
  clear_entry_calm product_id attribute_id t t' docs h =
      subst (Quiet (clear_entry product_id attribute_id) docs) (sym (tables_of h)) (
        ap (λ rows. ok (tt, record t { product_attr_index = rows; product_fts = docs }))
          (delete_where_twice (entry_of product_id attribute_id) t.product_attr_index))
