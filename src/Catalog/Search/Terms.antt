-- ===== src/Catalog/Search/Terms.antt =====
-- `build_fts_query` of crates/catalog/src/search.rs. The classes of characters are parameters.
pub mod Shape
use tiny_shop.Prelude.{
  ℕ, Bool, ◌||◌, Option, none, some, List, [], ◌∷◌, ◌++◌, ◌==◌, string_eq, nat_eq, filter,
  if◌then◌else◌,
}

module _ (is_whitespace is_alphanumeric : ℕ → Bool) where
  -- `split_whitespace`: the maximal runs of other characters. `word` is the run so far, reversed.
  abbrev pub flush : List ℕ → List (List ℕ) → List (List ℕ)
  flush [] ws = ws
  flush (c ∷ cs) ws = (c ∷ cs) ∷ ws

  unfoldable pub split_whitespace : List ℕ → List ℕ → List (List ℕ)
  split_whitespace word [] = flush word []
  split_whitespace word (c ∷ cs) =
      let ended = split_whitespace [] cs in
      let longer = split_whitespace (word ++ c ∷ []) cs in
      if is_whitespace c then flush word ended else longer

  abbrev pub kept_char : ℕ → Bool
  kept_char c = is_alphanumeric c || (c == b'-' || c == b'_')

  -- `format!("{clean}*")` for what is left of each word, if anything is.
  unfoldable pub prefix_terms : List (List ℕ) → List (List ℕ)
  prefix_terms [] = []
  prefix_terms (w ∷ ws) =
      let rest = prefix_terms ws in
      elim (filter kept_char w) [ [] ↦ rest | c ∷ cs ↦ ((c ∷ cs) ++ b'*' ∷ []) ∷ rest ]

  -- `join(" ")`
  unfoldable pub join : List (List ℕ) → List ℕ
  join [] = []
  join (w ∷ []) = w
  join (w ∷ v ∷ vs) = w ++ (b' ' ∷ join (v ∷ vs))

  unfoldable pub build_fts_query : List ℕ → List ℕ
  unfolding split_whitespace prefix_terms join
  build_fts_query raw = join (prefix_terms (split_whitespace [] raw))

  abbrev nonempty : List ℕ → Option (List ℕ)
  nonempty [] = none
  nonempty (c ∷ cs) = some (c ∷ cs)

  -- `text.map(build_fts_query).filter(|t| !t.is_empty())`
  unfoldable pub fts_term : Option (List ℕ) → Option (List ℕ)
  unfolding build_fts_query
  fts_term none = none
  fts_term (some raw) = nonempty (build_fts_query raw)
