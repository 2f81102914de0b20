-- ===== src/Catalog/Mirror.antt =====
-- What the catalog promises of its projection: every product of the product context stands in it
-- with the product's own fields, and nothing else stands in it.
pub mod Payloads
pub mod Applied
pub mod Touched
pub mod Follow
pub mod Course
use mathlib.Core.Option
use tiny_shop.Prelude.{
  String, ◌≡◌, refl, sym, ap, ◌∙◌, Bool, true, false, Option, none, some, List, [], ◌∷◌, ◌++◌,
  arith, ◌==◌, ==_iff, ==_self, string_eq, find?, any, update_where, delete_where, find?-append_one,
  find?-update_where, find?-update_ne, find?-delete_where, find?-delete_ne, find?-any, Bool-cases,
  inl, inr, if◌then◌else◌, subst,
}
use tiny_shop.Prelude.Int.{ℤ}
use tiny_shop.Product.{ProductRow}
use tiny_shop.Product.Repo.{is_product}
use tiny_shop.Catalog.{ProjectionRow}
use tiny_shop.Catalog.Projection.{row_id}

-- What both sides show of a product. The times of the last change are kept apart: a change of a
-- variant, say, moves the one in the catalog only.
pub record Shown : Type 0 where
  pub seller_id : String
  pub title : String
  pub slug : String
  pub description : String
  pub price_minor : ℤ
  pub currency : String
  pub status : String
  pub created_at : ℤ

abbrev pub shown_product : ProductRow → Shown
shown_product r = record {
  seller_id = r.seller_id;
  title = r.title;
  slug = r.slug;
  description = r.description;
  price_minor = r.price_minor;
  currency = r.currency;
  status = r.status;
  created_at = r.created_at;
}

abbrev pub shown_row : ProjectionRow → Shown
shown_row r = record {
  seller_id = r.seller_id;
  title = r.title;
  slug = r.slug;
  description = r.description;
  price_minor = r.price_minor;
  currency = r.currency;
  status = r.status;
  created_at = r.created_at;
}

abbrev pub Mirrors : List ProductRow → List ProjectionRow → Type 0
Mirrors products rows =
    (id : String)
    → Option.map shown_product (find? (is_product id) products)
      ≡ Option.map shown_row (find? (row_id id) rows)

-- A test for one id does not fit what fits the test for another.
other_product :
    (a b : String)
    → (a == b) ≡ false
    → (r : ProductRow) → is_product a r ≡ true
    → is_product b r ≡ false
other_product a b ne r e = elim (Bool-cases (is_product b r)) [
  | inl e' ↦ absurd (cc (ne, (==_iff a b).1 (sym ((==_iff r.id a).0 e) ∙ (==_iff r.id b).0 e')))
  | inr e' ↦ e'
]

pub other_row :
    (a b : String) → (a == b) ≡ false → (r : ProjectionRow) → row_id a r ≡ true → row_id b r ≡ false
other_row a b ne r e = elim (Bool-cases (row_id b r)) [
  | inl e' ↦ absurd (cc (ne, (==_iff a b).1 (sym ((==_iff r.id a).0 e) ∙ (==_iff r.id b).0 e')))
  | inr e' ↦ e'
]

module _ (xs : List ProductRow) (ys : List ProjectionRow) (m : Mirrors xs ys) where
  -- A new product with its new row.
  pub Mirrors-new :
      (p : ProductRow) (r : ProjectionRow)
      → p.id ≡ r.id
      → shown_product p ≡ shown_row r
      → Mirrors (xs ++ p ∷ []) (ys ++ r ∷ [])
  Mirrors-new p r ids same b =
      ap (Option.map shown_product) (find?-append_one (is_product b) xs p)
      ∙ joined (find? (is_product b) xs) (find? (row_id b) ys) (m b)
      ∙ sym (ap (Option.map shown_row) (find?-append_one (row_id b) ys r))
    where
      joined :
          (o : Option ProductRow) (q : Option ProjectionRow)
          → Option.map shown_product o ≡ Option.map shown_row q
          → Option.map shown_product
              (elim o [ some x ↦ some x | none ↦ if is_product b p then some p else none ])
            ≡ Option.map shown_row
                (elim q [ some x ↦ some x | none ↦ if row_id b r then some r else none ])
      joined (some x) (some y) h = h
      joined (some x) none h = absurd (cc)
      joined none (some y) h = absurd (cc)
      joined none none h = elim (Bool-cases (p.id == b)) [
        | inl e ↦ rw (e, sym (ap (λ i. i == b) ids) ∙ e) (ap some same)
        | inr e ↦ rw (e, sym (ap (λ i. i == b) ids) ∙ e) refl
      ]

  -- One change on both sides, of the rows with one id.
  pub Mirrors-change :
      (id : String) (f : ProductRow → ProductRow) (g : ProjectionRow → ProjectionRow)
      (change : Shown → Shown)
      → ((r : ProductRow) → (f r).id ≡ r.id)
      → ((r : ProjectionRow) → (g r).id ≡ r.id)
      → ((r : ProductRow) → shown_product (f r) ≡ change (shown_product r))
      → ((r : ProjectionRow) → shown_row (g r) ≡ change (shown_row r))
      → Mirrors (update_where (is_product id) f xs) (update_where (row_id id) g ys)
  Mirrors-change id f g change kf kg cf cg b = elim (Bool-cases (id == b)) [
    | inl e ↦
        let same = (==_iff id b).0 e in
        subst
          (λ i.
            Option.map shown_product (find? (is_product i) (update_where (is_product id) f xs))
            ≡ Option.map shown_row (find? (row_id i) (update_where (row_id id) g ys)))
          same own
    | inr e ↦
        ap (Option.map shown_product) (
          find?-update_ne (is_product b) (is_product id) f xs (other_product id b e)
            (λ r h. ap (λ i. i == b) (kf r) ∙ other_product id b e r h))
        ∙ m b
        ∙ sym (
            ap (Option.map shown_row) (
              find?-update_ne (row_id b) (row_id id) g ys (other_row id b e)
                (λ r h. ap (λ i. i == b) (kg r) ∙ other_row id b e r h)))
  ]
    where
      through :
          (o : Option ProductRow)
          → Option.map shown_product (Option.map f o)
            ≡ Option.map change (Option.map shown_product o)
      through none = refl
      through (some r) = ap some (cf r)

      back :
          (o : Option ProjectionRow)
          → Option.map shown_row (Option.map g o) ≡ Option.map change (Option.map shown_row o)
      back none = refl
      back (some r) = ap some (cg r)

      own :
          Option.map shown_product (find? (is_product id) (update_where (is_product id) f xs))
          ≡ Option.map shown_row (find? (row_id id) (update_where (row_id id) g ys))
      own =
          ap (Option.map shown_product)
            (find?-update_where (is_product id) f xs (λ r h. ap (λ i. i == id) (kf r) ∙ h))
          ∙ through (find? (is_product id) xs)
          ∙ ap (Option.map change) (m id)
          ∙ sym (back (find? (row_id id) ys))
          ∙ sym (
              ap (Option.map shown_row)
                (find?-update_where (row_id id) g ys (λ r h. ap (λ i. i == id) (kg r) ∙ h)))

  pub Mirrors-gone :
      (id : String) → Mirrors (delete_where (is_product id) xs) (delete_where (row_id id) ys)
  Mirrors-gone id b = elim (Bool-cases (id == b)) [
    | inl e ↦
        subst
          (λ i.
            Option.map shown_product (find? (is_product i) (delete_where (is_product id) xs))
            ≡ Option.map shown_row (find? (row_id i) (delete_where (row_id id) ys)))
          ((==_iff id b).0 e)
          (ap (Option.map shown_product) (find?-delete_where (is_product id) xs)
            ∙ sym (ap (Option.map shown_row) (find?-delete_where (row_id id) ys)))
    | inr e ↦
        ap (Option.map shown_product)
          (find?-delete_ne (is_product b) (is_product id) xs (other_product id b e))
        ∙ m b
        ∙ sym (
            ap (Option.map shown_row)
              (find?-delete_ne (row_id b) (row_id id) ys (other_row id b e)))
  ]

  -- A product that the product context does not have is not in the catalog.
  pub Mirrors-absent : (id : String) → any (is_product id) xs ≡ false → any (row_id id) ys ≡ false
  Mirrors-absent id h =
      find?-any (row_id id) ys
      ∙ sides (find? (is_product id) xs) (find? (row_id id) ys) (m id)
      ∙ sym (find?-any (is_product id) xs)
      ∙ h
    where
      sides :
          (o : Option ProductRow) (q : Option ProjectionRow)
          → Option.map shown_product o ≡ Option.map shown_row q
          → ◌≡◌ {A = Bool}
              (elim q [ some x ↦ true | none ↦ false ])
              (elim o [ some x ↦ true | none ↦ false ])
      sides none none h = refl
      sides none (some y) h = absurd (cc)
      sides (some x) none h = absurd (cc)
      sides (some x) (some y) h = refl

-- A change of the rows with one id that shows nowhere.
shown-touch :
    (id b : String) (g : ProjectionRow → ProjectionRow) (ys : List ProjectionRow)
    → ((r : ProjectionRow) → (g r).id ≡ r.id)
    → ((r : ProjectionRow) → shown_row (g r) ≡ shown_row r)
    → Option.map shown_row (find? (row_id b) (update_where (row_id id) g ys))
      ≡ Option.map shown_row (find? (row_id b) ys)
unfolding find? update_where
shown-touch id b g [] k c = refl
shown-touch id b g (y ∷ ys) k c = elim (Bool-cases (row_id id y)) [
  | inl e ↦ rw e (elim (Bool-cases (row_id b y)) [
    | inl h ↦ rw (h, ap (λ i. i == b) (k y) ∙ h) (ap some (c y))
    | inr h ↦ rw (h, ap (λ i. i == b) (k y) ∙ h) (shown-touch id b g ys k c)
  ])
  | inr e ↦ rw e (elim (Bool-cases (row_id b y)) [
    | inl h ↦ rw h refl
    | inr h ↦ rw h (shown-touch id b g ys k c)
  ])
]

pub Mirrors-touch :
    (xs : List ProductRow) (ys : List ProjectionRow) (id : String)
    (g : ProjectionRow → ProjectionRow)
    → ((r : ProjectionRow) → (g r).id ≡ r.id)
    → ((r : ProjectionRow) → shown_row (g r) ≡ shown_row r)
    → Mirrors xs ys
    → Mirrors xs (update_where (row_id id) g ys)
Mirrors-touch xs ys id g k c m b = m b ∙ sym (shown-touch id b g ys k c)
