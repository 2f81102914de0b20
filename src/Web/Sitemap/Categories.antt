-- ===== src/Web/Sitemap/Categories.antt =====
-- `category_paths` of crates/web/src/routes/sitemap.rs ends, whatever the parents of the categories
-- are: a category that is its own ancestor is never reached.
use tiny_shop.Prelude.{
  ℕ, zero, suc, ◌+◌, ◌≤◌, String, ◌≡◌, refl, sym, ap, ◌∙◌, subst, true, Option, none, some, List,
  [], ◌∷◌, ◌++◌, map, arith, ◌==◌, ==_self, string_eq, option_eq, filter, delete_where, order_by,
  length, length-append, length-map, All, All-map, All-append, All-filter, any, concat, inl, inr,
}
use tiny_shop.Prelude.Rows.Ordered.{All-order_by}
use tiny_shop.Prelude.Rows.Counted.{count}
use tiny_shop.Sql.{Result, ok, err, Conn}
use tiny_shop.Sql.Laws.{Result-cases, query-eq-ok, tables-query}
use tiny_shop.Catalog.{uk, Category, CatalogTables}
use tiny_shop.Catalog.Taxonomy.{
  TaxonomyError, db, category_before, named, list_categories_by_parent,
}
use tiny_shop.Catalog.Search.Promises.{result}
use tiny_shop.Web.{WebError}
use tiny_shop.Web.Pages.{Setting, absolute_url, from_taxonomy}
use tiny_shop.Web.Sitemap.{Ends, after, category_path, queued, walk, category_paths}
use tiny_shop.Web.Sitemap.Tree.{below, Fresh, listed, start_once, next_Fresh, smaller, fewer}

All_of_map :
    {A B : Type 0} (f : A → B) (P : B → Type 0) (xs : List A)
    → All (λ x. P (f x)) xs
    → All P (map f xs)
All_of_map f P [] h = tt
All_of_map f P (x ∷ xs) h = (h.0, All_of_map f P xs h.1)

module _ {F : Type 0} (setting : Setting F) where
  -- The address of a category's page.
  abbrev pub address : Category → String
  address r = concat setting.base_url (concat "/c/" r.slug)

  abbrev pub IsAddress : List Category → String → Type 0
  IsAddress cats path = any (λ r. address r == path) cats ≡ true

  -- The ways in which the walk may end: with an error, or with this many paths at most, each of
  -- them the address of a category.
  pub data Finished (cats : List Category) (most : ℕ) : Ends setting → Type 0 where
    failed : (e : WebError) (c : Conn (CatalogTables F)) → Finished cats most (some (err e, c))
    complete :
        (paths : List String) (c : Conn (CatalogTables F))
        → length paths ≤ most
        → All (IsAddress cats) paths
        → Finished cats most (some (ok paths, c))

  self_found : (xs : List Category) → All (λ r. IsAddress xs (address r)) xs
  unfolding any
  self_found [] = tt
  self_found (x ∷ xs) =
      (rw (==_self (address x)) refl, All-map (λ r h. ground (arith, h)) xs (self_found xs))

  listed-IsAddress :
      (t : CatalogTables F) (p : Option String)
      → All (IsAddress t.categories) (map (category_path setting) (listed t p))
  unfolding absolute_url
  listed-IsAddress t p =
      let rows = order_by category_before (filter (below p) t.categories) in
      All_of_map (category_path setting) (IsAddress t.categories) (map (named F uk t) rows) (
        All_of_map (named F uk t) (λ r. IsAddress t.categories (category_path setting r)) rows
          (All-order_by (λ r. IsAddress t.categories (address r)) category_before
            (filter (below p) t.categories)
            (All-filter (λ r. IsAddress t.categories (address r)) (below p) t.categories
              (self_found t.categories))))

  Finished-after :
      (cats : List Category) (here : List String) (most all : ℕ) (r : Ends setting)
      → length here + most ≤ all
      → All (IsAddress cats) here
      → Finished cats most r
      → Finished cats all (after setting here r)
  Finished-after cats here most all _ fit own (failed e c) = failed e c
  Finished-after cats here most all _ fit own (complete paths c few more) =
      complete (here ++ paths) c (omega (arith, length-append here paths))
        (All-append (IsAddress cats) here paths own more)

  module _ (fuel : ℕ) (p : Option String) (queue : List (Option String))
      (c : Conn (CatalogTables F)) where
    abbrev read : Result TaxonomyError (List Category) × Conn (CatalogTables F)
    read = list_categories_by_parent F p uk c

    walk_failed :
        (e : TaxonomyError)
        → read.0 ≡ err e
        → walk setting (suc fuel) (p ∷ queue) c ≡ some (err (from_taxonomy setting e), read.1)
    unfolding walk
    walk_failed e h = rw (h, walk) refl

    walk_on :
        (children : List Category)
        → read.0 ≡ ok children
        → walk setting (suc fuel) (p ∷ queue) c
          ≡ after setting
              (map (category_path setting) children)
              (walk setting fuel (queue ++ queued children) read.1)
    unfolding walk
    walk_on children h = rw (h, walk) refl

    read-listed : (children : List Category) → read.0 ≡ ok children → children ≡ listed c.tables p
    unfolding list_categories_by_parent
    read-listed children h = sym (result (query-eq-ok db (λ t. ok (listed t p)) c children h))

    read-tables : read.1.tables ≡ c.tables
    unfolding list_categories_by_parent
    read-tables = tables-query db (λ t. ok (listed t p)) c

  walk-Finished :
      (cats : List Category) (fuel : ℕ) (queue : List (Option String)) (left : List Category)
      (c : Conn (CatalogTables F))
      → c.tables.categories ≡ cats
      → Fresh c.tables.categories queue left
      → length queue + length left ≤ fuel
      → Finished cats (length left) (walk setting fuel queue c)
  unfolding walk
  walk-Finished cats fuel [] left c same fresh enough = complete [] c (omega arith) tt
  walk-Finished cats zero (p ∷ queue) left c same fresh enough = absurd (omega arith)
  walk-Finished cats (suc fuel) (p ∷ queue) left c same fresh enough =
      elim (Result-cases (read fuel p queue c).0) [
        | inr (e, h) ↦
            subst (Finished cats (length left)) (sym (walk_failed fuel p queue c e h))
              (failed (from_taxonomy setting e) (read fuel p queue c).1)
        | inl (children, h) ↦
            let these = read-listed fuel p queue c children h in
            let kept = read-tables fuel p queue c in
            let next =
              walk-Finished cats fuel (queue ++ queued (listed c.tables p))
                (delete_where (below p) left) (read fuel p queue c).1
                (ap (λ (t : CatalogTables F). t.categories) kept ∙ same)
                (subst
                  (λ (t : CatalogTables F).
                    Fresh t.categories (queue ++ queued (listed c.tables p))
                      (delete_where (below p) left))
                  (sym kept) (next_Fresh c.tables p queue left fresh))
                (omega (arith, smaller c.tables p queue left fresh)) in
            subst (Finished cats (length left)) (sym (walk_on fuel p queue c children h)) (
              Finished-after cats (map (category_path setting) children)
                (length (delete_where (below p) left)) (length left) _
                (omega (
                  arith,
                  length-map (category_path setting) children,
                  ap length these,
                  fewer c.tables p queue left fresh,
                ))
                (subst (λ cs. All (IsAddress cats) (map (category_path setting) cs)) (sym these)
                  (subst
                    (λ cs. All (IsAddress cs) (map (category_path setting) (listed c.tables p)))
                    same (listed-IsAddress c.tables p)))
                (subst
                  (λ cs.
                    Finished cats (length (delete_where (below p) left))
                      (walk setting fuel (queue ++ queued cs) (read fuel p queue c).1))
                  (sym these) next))
      ]

  -- With fuel for one round more than there are categories, the walk over the tree ends: with an
  -- error, or with at most as many paths as there are categories, each of them the address of a
  -- category. This holds where no two categories have one id, whatever their parents are: cycles
  -- among them are not reached.
  pub category_paths-Finished :
      (fuel : ℕ) (c : Conn (CatalogTables F))
      → ((id : String) → count (some id) (queued c.tables.categories) ≤ 1)
      → suc (length c.tables.categories) ≤ fuel
      → Finished c.tables.categories (length c.tables.categories) (category_paths setting fuel c)
  unfolding category_paths
  category_paths-Finished fuel c unique enough =
      walk-Finished c.tables.categories fuel (none ∷ []) c.tables.categories c refl
        (record { once = start_once c.tables.categories unique; whole = λ x h. refl }) (omega arith)
