-- ===== src/Web/Sitemap/Tree.antt =====
-- The tree of categories, as the walk of crates/web/src/routes/sitemap.rs goes through it: what is in
-- its queue, and what is left.
use mathlib.Core.List.{map-map}
use tiny_shop.Prelude.{
  suc, ◌+◌, ◌≤◌, String, ◌≡◌, refl, ap, ◌∙◌, Bool, true, false, Option, none, some, List, [], ◌∷◌,
  ◌++◌, map, arith, ◌==◌, ==_iff, ==_self, string_eq, option_eq, filter, delete_where, order_by,
  length, length-append, length-map, filter-delete_where, Bool-cases, inl, inr,
}
use tiny_shop.Prelude.Rows.Ordered.{length-order_by}
use tiny_shop.Prelude.Rows.Counted.{count, count-append, count-parts, count-order_by, length-parts}
use tiny_shop.Catalog.{uk, Category, CatalogTables}
use tiny_shop.Catalog.Taxonomy.{category_before, named}
use tiny_shop.Web.Sitemap.{queued}

-- `child_of`
abbrev pub below : Option String → Category → Bool
below parent_id r = r.parent_id == parent_id

-- The queue, and the categories that have not been queued yet: an id stands there once at most, and
-- none of its children has been queued.
pub record Fresh (cats : List Category) (queue : List (Option String)) (left : List Category)
    : Type 0 where
  pub once : (x : Option String) → count x (queue ++ queued left) ≤ 1
  pub whole :
      (x : Option String)
      → 1 ≤ count x (queue ++ queued left)
      → filter (below x) left ≡ filter (below x) cats

children_apart :
    (p x : Option String) (r : Category) → (p == x) ≡ false → below p r ≡ true → below x r ≡ false
children_apart p x r apart h = ap (λ q. q == x) ((==_iff r.parent_id p).0 h) ∙ apart

no_parent : (cs : List Category) → count none (queued cs) ≡ 0
unfolding count
no_parent [] = refl
no_parent (c ∷ cs) = no_parent cs

pub start_once :
    (cs : List Category)
    → ((id : String) → count (some id) (queued cs) ≤ 1)
    → (x : Option String) → count x ((none ∷ []) ++ queued cs) ≤ 1
unfolding count
start_once cs unique none = omega (arith, no_parent cs)
start_once cs unique (some id) = unique id

-- The children of the first in the queue, as they are listed.
abbrev pub listed : {F : Type 0} → CatalogTables F → Option String → List Category
listed {F} t p = map (named F uk t) (order_by category_before (filter (below p) t.categories))

module _ {F : Type 0} (t : CatalogTables F) (p : Option String) (queue : List (Option String))
    (left : List Category) (fresh : Fresh t.categories (p ∷ queue) left) where
  first_whole : filter (below p) left ≡ filter (below p) t.categories
  unfolding count
  first_whole = fresh.whole p (ground (arith, ==_self p))

  queued-listed :
      queued (listed t p) ≡ queued (order_by category_before (filter (below p) t.categories))
  queued-listed =
      map-map (λ (c : Category). some c.id) (named F uk t)
        (order_by category_before (filter (below p) t.categories))

  counted :
      (x : Option String)
      → count x (queue ++ queued (listed t p)) + count x (queued (delete_where (below p) left))
        ≡ count x queue + count x (queued left)
  counted x =
      let f = λ (c : Category). some c.id in
      omega (
        arith,
        count-append x queue (queued (listed t p)),
        ap (count x) queued-listed,
        count-order_by f x category_before (filter (below p) t.categories),
        ap (λ cs. count x (queued cs)) first_whole,
        count-parts f x (below p) left,
      )

  kept :
      (x : Option String)
      → count x ((queue ++ queued (listed t p)) ++ queued (delete_where (below p) left))
        ≡ count x (queue ++ queued left)
  kept x = omega (
    arith,
    counted x,
    count-append x (queue ++ queued (listed t p)) (queued (delete_where (below p) left)),
    count-append x queue (queued (listed t p)),
    count-append x queue (queued left),
  )

  once_behind : (x : Option String) → count x (queue ++ queued left) ≤ 1
  unfolding count
  once_behind x = ground (arith, fresh.once x)

  not_first : (x : Option String) → 1 ≤ count x (queue ++ queued left) → (p == x) ≡ false
  unfolding count
  not_first x h = elim (Bool-cases (p == x)) [
    | inl e ↦ absurd (ground (arith, e, fresh.once x))
    | inr e ↦ e
  ]

  whole_behind :
      (x : Option String)
      → 1 ≤ count x (queue ++ queued left)
      → filter (below x) left ≡ filter (below x) t.categories
  unfolding count
  whole_behind x h = fresh.whole x (ground (arith, not_first x h))

  pub next_Fresh : Fresh t.categories (queue ++ queued (listed t p)) (delete_where (below p) left)
  next_Fresh = record {
    once = λ x. omega (arith, kept x, once_behind x);
    whole = λ x h.
        let behind : 1 ≤ count x (queue ++ queued left) = omega (arith, kept x) in
        filter-delete_where (below x) (below p) left
          (λ r q. children_apart p x r (not_first x behind) q)
        ∙ whole_behind x behind;
  }

  pub smaller :
      suc (length (queue ++ queued (listed t p)) + length (delete_where (below p) left))
      ≡ length (p ∷ queue) + length left
  smaller =
      let children = filter (below p) t.categories in
      omega (
        arith,
        length-append queue (queued (listed t p)),
        length-map (λ (c : Category). some c.id) (listed t p),
        length-map (named F uk t) (order_by category_before children),
        length-order_by category_before children,
        ap length first_whole,
        length-parts (below p) left,
      )

  pub fewer : length (listed t p) + length (delete_where (below p) left) ≡ length left
  fewer =
      let children = filter (below p) t.categories in
      omega (
        arith,
        length-map (named F uk t) (order_by category_before children),
        length-order_by category_before children,
        ap length first_whole,
        length-parts (below p) left,
      )
