-- ===== src/Catalog/Projection/Redelivery.antt =====
-- `dispatch` of crates/catalog/src/projection.rs under at-least-once delivery: an event that
-- arrives twice in a row has the effect of one.
use tiny_shop.Prelude.{
  String, ◌≡◌, refl, sym, ap, ◌∙◌, subst, Bool, true, false, ◌||◌, Option, none, some, List, arith,
  ◌==◌, string_eq, find?, Option-cases, inl, inr, if◌then◌else◌,
}
use tiny_shop.Prelude.Int.{ℤ}
use tiny_shop.Sql.{SqlError, Result, ok, err, Tx, Conn, transaction, fails, pure}
use tiny_shop.Sql.Laws.{tables_of, transaction-eq-ok, transaction_runs}
use tiny_shop.Shared.{DomainEvent}
use tiny_shop.Shared.Json.{Json, Reading}
use tiny_shop.Catalog.{AttributeRow, IndexRow, FtsRow, CatalogTables}
use tiny_shop.Catalog.Projection.{
  set_entry, clear_entry, touch_row, str_val, created_row, apply_created, index_value, touch_given,
  apply_core, apply_updated, apply_status_changed, apply_deleted, apply_event, dispatch_error,
  dispatch,
}
use tiny_shop.Catalog.Projection.Repeats.{
  Again, Quiet, then_fts-Again, insert_calm, set_entry_calm, clear_entry_calm,
}
use tiny_shop.Catalog.Projection.Rows.{
  edit_row_calm, touch_row-Again, set_row_status-Again, apply_deleted_id-Again,
}

Again-if :
    {E S : Type 0} (b : Bool) (m n : Tx E S (Unit {0}))
    → Again m
    → Again n
    → Again (if b then m else n)
Again-if true m n hm hn = hm
Again-if false m n hm hn = hn

Again-pure : {E S : Type 0} → Again {E = E} {S = S} (pure tt)
Again-pure t t' h = refl

module _ (J : Json) (F : Type 0) (R : Reading J F) (group_concat : List String → String)
    (describe : SqlError → String) where
  open J use {Value}
  open R use {index, as_str, as_i64, as_f64}

  pub dispatch_error-ok :
      (r : Result SqlError (Unit {0}))
      → dispatch_error J F R group_concat describe r ≡ ok tt
      → r ≡ ok tt
  dispatch_error-ok (ok a) h = refl
  dispatch_error-ok (err e) h = absurd (cc)

  abbrev entry : Value → AttributeRow → IndexRow F
  entry p a = record {
    product_id = str_val J F R group_concat describe p "id";
    category_id = a.category_id;
    attribute_id = str_val J F R group_concat describe p "attribute_id";
    val_text = as_str (index p "val_text");
    val_num = as_f64 (index p "val_num");
  }

  abbrev named : Value → CatalogTables F → Option AttributeRow
  named p t =
      find? (λ (a : AttributeRow). a.id == str_val J F R group_concat describe p "attribute_id")
        t.attributes

  index_unknown :
      (p : Value) (t : CatalogTables F)
      → named p t ≡ none
      → index_value J F R group_concat describe p t ≡ ok (tt, t)
  unfolding index_value
  index_unknown p t e = rw (e, index_value) refl

  index_known :
      (p : Value) (a : AttributeRow) (t : CatalogTables F)
      → named p t ≡ some a
      → index_value J F R group_concat describe p t ≡ set_entry (entry p a) t
  unfolding index_value
  index_known p a t e = rw (e, index_value) refl

  -- The attributes are those that they were.
  set_entry-attributes :
      (e : IndexRow F) (t t' : CatalogTables F)
      → set_entry e t ≡ ok (tt, t')
      → t'.attributes ≡ t.attributes
  unfolding set_entry
  set_entry-attributes e t t' h = ground arith

  index_value_calm :
      (p : Value) (t t' : CatalogTables F) (docs : List FtsRow)
      → index_value J F R group_concat describe p t ≡ ok (tt, t')
      → Quiet (index_value J F R group_concat describe p) docs t'
  index_value_calm p t t' docs h = elim (Option-cases (named p t)) [
    | inl e ↦
        subst (Quiet (index_value J F R group_concat describe p) docs)
          (sym (tables_of (sym (index_unknown p t e) ∙ h)))
          (index_unknown p (record t { product_fts = docs }) e)
    | inr (a, e) ↦
        let wrote : set_entry (entry p a) t ≡ ok (tt, t') = sym (index_known p a t e) ∙ h in
        let same = set_entry-attributes (entry p a) t t' wrote in
        index_known p a (record t' { product_fts = docs })
          (ap
              (find? (λ (b : AttributeRow).
                b.id == str_val J F R group_concat describe p "attribute_id"))
              same
            ∙ e)
        ∙ set_entry_calm (entry p a) t t' docs wrote
  ]

  touch_skipped :
      (p : Value)
      → as_i64 (index p "updated_at") ≡ none
      → touch_given J F R group_concat describe p ≡ pure tt
  unfolding touch_given
  touch_skipped p e = rw (e, touch_given) refl

  pub touch_done :
      (p : Value) (ts : ℤ)
      → as_i64 (index p "updated_at") ≡ some ts
      → touch_given J F R group_concat describe p
        ≡ touch_row (str_val J F R group_concat describe p "id") ts
  unfolding touch_given
  touch_done p ts e = rw (e, touch_given) refl

  touch_given-Again : (p : Value) → Again (touch_given J F R group_concat describe p)
  touch_given-Again p = elim (Option-cases (as_i64 (index p "updated_at"))) [
    | inl e ↦ subst Again (sym (touch_skipped p e)) Again-pure
    | inr (ts, e) ↦ subst Again (sym (touch_done p ts e)) (touch_row-Again _ ts)
  ]

  apply_updated-Again : (p : Value) → Again (apply_updated J F R group_concat describe p)
  unfolding apply_updated apply_core
  apply_updated-Again p =
      Again-if (str_val J F R group_concat describe p "reason" == "attribute_value_set") _ _
        (then_fts-Again group_concat _ (index_value J F R group_concat describe p)
          (index_value_calm p))
        (Again-if (str_val J F R group_concat describe p "reason" == "attribute_value_cleared") _ _
          (then_fts-Again group_concat _ (clear_entry _ _) (clear_entry_calm _ _))
          (Again-if (str_val J F R group_concat describe p "reason" == "") _ _
            (then_fts-Again group_concat _ _ (edit_row_calm _ _ _ _ _ _ _)) (touch_given-Again p)))

  apply_event-Again :
      (event_type : String) (p : Value)
      → Again (apply_event J F R group_concat describe event_type p)
  unfolding apply_event apply_created apply_status_changed apply_deleted
  apply_event-Again event_type p =
      Again-if (event_type == "ProductCreated") _ _
        (then_fts-Again group_concat _ _ (insert_calm (created_row J F R group_concat describe p)))
        (Again-if (event_type == "ProductUpdated") _ _ (apply_updated-Again p) (
          Again-if
            (event_type == "ProductPublished"
              || (event_type == "ProductUnpublished" || event_type == "ProductArchived"))
            _ _ (set_row_status-Again _ _ _)
            (Again-if (event_type == "ProductDeleted") _ _ (apply_deleted_id-Again _) Again-pure)))

  -- An event that was applied, and arrives again before any other, is accepted again and changes
  -- nothing in the catalog, where the engine does not fail.
  pub dispatch_twice :
      (source : String) (event : DomainEvent Value) (c : Conn (CatalogTables F))
      → (dispatch J F R group_concat describe source event c).0 ≡ ok tt
      → fails (dispatch J F R group_concat describe source event c).1.faults ≡ false
      → ((dispatch J F R group_concat describe source event
            (dispatch J F R group_concat describe source event c).1).0
          ≡ ok tt)
        × ((dispatch J F R group_concat describe source event
              (dispatch J F R group_concat describe source event c).1).1.tables
            ≡ (dispatch J F R group_concat describe source event c).1.tables)
  unfolding dispatch
  dispatch_twice source event c h quiet =
      let body = apply_event J F R group_concat describe event.event_type event.payload in
      let done = transaction (λ e. e) body c in
      let (t, ran, left) = transaction-eq-ok (λ e. e) body c tt (dispatch_error-ok done.0 h) in
      let again =
        transaction_runs (λ e. e) body done.1 tt done.1.tables quiet
          (subst (λ s. body s ≡ ok (tt, s)) (sym left)
            (apply_event-Again event.event_type event.payload c.tables t ran)) in
      (ap (λ o. dispatch_error J F R group_concat describe o.0) again, ap (λ o. o.1.tables) again)
