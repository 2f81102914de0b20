-- ===== src/Catalog/Search/Terms/Shape.antt =====
-- The queries that `build_fts_query` of crates/catalog/src/search.rs builds, told without its filter:
-- their shape, what cannot stand in them, and what they keep of the text.
use mathlib.Core.List.{append_assoc}
use tiny_shop.Prelude.{
  map, ℕ, ◌≡◌, refl, sym, ap, ◌∙◌, Bool, true, false, ◌||◌, List, [], ◌∷◌, ◌++◌, arith, ◌==◌,
  nat_eq, ==_iff, filter, filter-append, any, All, All-map, All-both, Bool-cases, inl, inr,
}
use tiny_shop.Prelude.Rows.Ordered.{All-filter_fits}
use tiny_shop.Catalog.Search.Terms.{
  kept_char, prefix_terms, split_whitespace, join, flush, build_fts_query,
}

-- The characters with a meaning in the syntax of FTS5 that no word may have; `-` is not among them,
-- since it is kept.
abbrev pub specials : List ℕ
specials =
    b'"' ∷ b'(' ∷ b')' ∷ b'*' ∷ b'+' ∷ b':' ∷ b'^' ∷ b'{' ∷ b'}' ∷ b',' ∷ b'.' ∷ b'\'' ∷ b' ' ∷ []

abbrev pub is_special : ℕ → Bool
is_special c = any (λ x. c == x) specials

-- Terms with a `*` each, one space between two of them.
unfoldable pub starred : List (List ℕ) → List ℕ
starred [] = []
starred (w ∷ []) = w ++ b'*' ∷ []
starred (w ∷ v ∷ vs) = w ++ b'*' ∷ b' ' ∷ starred (v ∷ vs)

-- A word of a query: it is not empty, and no character of it is special.
abbrev pub IsClean : List ℕ → Type 0
IsClean [] = ⊥
IsClean (c ∷ cs) = All (λ c. is_special c ≡ false) (c ∷ cs)

pub record Prefixes (query : List ℕ) : Type 0 where
  pub terms : List (List ℕ)
  pub shape : query ≡ starred terms
  pub words : All IsClean terms

-- A character that passes a test which no character of a list passes is none of them.
none_equal :
    (p : ℕ → Bool) (c : ℕ)
    → p c ≡ true
    → (xs : List ℕ) → All (λ x. p x ≡ false) xs
    → any (λ x. c == x) xs ≡ false
unfolding any
none_equal p c h [] k = refl
none_equal p c h (x ∷ xs) k = elim (Bool-cases (c == x)) [
  | inl e ↦ absurd (cc (sym h ∙ ap p ((==_iff c x).0 e) ∙ k.0))
  | inr e ↦ rw e (none_equal p c h xs k.1)
]

-- No sign is a hyphen or an underscore.
others : All (λ c. (c == b'-' || c == b'_') ≡ false) specials
others = (
  refl,
  (
    refl,
    (refl, (refl, (refl, (refl, (refl, (refl, (refl, (refl, (refl, (refl, (refl, tt))))))))))),
  ),
)

abbrev star : List ℕ → List ℕ
star w = w ++ b'*' ∷ []

module _ (is_whitespace is_alphanumeric : ℕ → Bool)
    (signs : All (λ c. is_alphanumeric c ≡ false) specials)
    (apart : (c : ℕ) → is_whitespace c ≡ true → is_alphanumeric c ≡ false) where
  abbrev kept : ℕ → Bool
  kept = kept_char is_whitespace is_alphanumeric

  kept_plain : (c : ℕ) → kept c ≡ true → is_special c ≡ false
  kept_plain c h = none_equal kept c h specials (
      All-map {P = λ x. (is_alphanumeric x ≡ false) × ((x == b'-' || x == b'_') ≡ false)}
        {Q = λ x. kept x ≡ false} (λ x k. ground (arith, k.0, k.1)) specials
        (All-both (λ c. is_alphanumeric c ≡ false) (λ c. (c == b'-' || c == b'_') ≡ false) specials
          signs others))

  -- The words before their stars.
  abbrev with_word : List ℕ → List (List ℕ) → List (List ℕ)
  with_word [] ws = ws
  with_word (c ∷ cs) ws = (c ∷ cs) ∷ ws

  unfoldable bare : List (List ℕ) → List (List ℕ)
  bare [] = []
  bare (w ∷ ws) = with_word (filter kept w) (bare ws)

  abbrev prefixed : List (List ℕ) → List (List ℕ)
  prefixed = prefix_terms is_whitespace is_alphanumeric

  prefix_terms_lem : (ws : List (List ℕ)) → prefixed ws ≡ map star (bare ws)
  unfolding prefix_terms bare
  prefix_terms_lem [] = refl
  prefix_terms_lem (w ∷ ws) = go (filter kept w) (prefix_terms_lem ws)
    where
      go :
          (v : List ℕ)
          → prefixed ws ≡ map star (bare ws)
          → ◌≡◌ {A = List (List ℕ)}
              (elim v [
                | [] ↦ prefix_terms is_whitespace is_alphanumeric ws
                | c ∷ cs ↦ ((c ∷ cs) ++ b'*' ∷ []) ∷ prefix_terms is_whitespace is_alphanumeric ws
              ])
              (map star (with_word v (bare ws)))
      go [] ih = ih
      go (c ∷ cs) ih = ap (λ r. star (c ∷ cs) ∷ r) ih

  join-star : (ws : List (List ℕ)) → join is_whitespace is_alphanumeric (map star ws) ≡ starred ws
  unfolding join starred
  join-star [] = refl
  join-star (w ∷ []) = refl
  join-star (w ∷ v ∷ vs) =
      append_assoc w (b'*' ∷ []) _ ∙ ap (λ r. w ++ b'*' ∷ b' ' ∷ r) (join-star (v ∷ vs))

  with_word-IsClean :
      (v : List ℕ) (ws : List (List ℕ))
      → All (λ c. kept c ≡ true) v
      → All IsClean ws
      → All IsClean (with_word v ws)
  with_word-IsClean [] ws h k = k
  with_word-IsClean (c ∷ cs) ws h k = (All-map (λ c q. kept_plain c q) (c ∷ cs) h, k)

  bare-IsClean : (ws : List (List ℕ)) → All IsClean (bare ws)
  unfolding bare
  bare-IsClean [] = tt
  bare-IsClean (w ∷ ws) =
      with_word-IsClean (filter kept w) (bare ws) (All-filter_fits kept w) (bare-IsClean ws)

  -- What is alphanumeric in a list of words.
  abbrev letters : List ℕ → List ℕ
  letters = filter is_alphanumeric

  unfoldable all_letters : List (List ℕ) → List ℕ
  all_letters [] = []
  all_letters (w ∷ ws) = letters w ++ all_letters ws

  letters-kept : (w : List ℕ) → letters (filter kept w) ≡ letters w
  unfolding filter
  letters-kept [] = refl
  letters-kept (c ∷ cs) = elim (Bool-cases (is_alphanumeric c)) [
    | inl e ↦ rw (e, e, letters-kept cs) refl
    | inr e ↦ elim (Bool-cases (kept c)) [
      | inl k ↦ rw (k, e) (letters-kept cs)
      | inr k ↦ rw (k, e) (letters-kept cs)
    ]
  ]

  letters-with_word :
      (v : List ℕ) (ws : List (List ℕ)) → all_letters (with_word v ws) ≡ letters v ++ all_letters ws
  unfolding all_letters filter
  letters-with_word [] ws = refl
  letters-with_word (c ∷ cs) ws = refl

  letters-bare : (ws : List (List ℕ)) → all_letters (bare ws) ≡ all_letters ws
  unfolding all_letters bare
  letters-bare [] = refl
  letters-bare (w ∷ ws) =
      letters-with_word (filter kept w) (bare ws)
      ∙ ap (λ l. l ++ all_letters (bare ws)) (letters-kept w)
      ∙ ap (λ r. letters w ++ r) (letters-bare ws)

  no_star : is_alphanumeric b'*' ≡ false
  no_star = signs.1.1.1.0

  no_space : is_alphanumeric b' ' ≡ false
  no_space = signs.1.1.1.1.1.1.1.1.1.1.1.1.0

  letters-starred : (ws : List (List ℕ)) → letters (starred ws) ≡ all_letters ws
  unfolding starred all_letters filter
  letters-starred [] = refl
  letters-starred (w ∷ []) =
      filter-append is_alphanumeric w (b'*' ∷ []) ∙ ap (λ l. letters w ++ l) (rw no_star refl)
  letters-starred (w ∷ v ∷ vs) =
      filter-append is_alphanumeric w (b'*' ∷ b' ' ∷ starred (v ∷ vs))
      ∙ ap (λ l. letters w ++ l) (rw (no_star, no_space) (letters-starred (v ∷ vs)))

  letters-flush :
      (word : List ℕ) (ws : List (List ℕ))
      → all_letters (flush is_whitespace is_alphanumeric word ws) ≡ letters word ++ all_letters ws
  unfolding all_letters filter
  letters-flush [] ws = refl
  letters-flush (c ∷ cs) ws = refl

  letters-split :
      (word cs : List ℕ)
      → all_letters (split_whitespace is_whitespace is_alphanumeric word cs)
        ≡ letters word ++ letters cs
  unfolding split_whitespace filter all_letters
  letters-split word [] = letters-flush word []
  letters-split word (c ∷ cs) = elim (Bool-cases (is_whitespace c)) [
    | inl e ↦
        rw (e, apart c e)
          (letters-flush word (split_whitespace is_whitespace is_alphanumeric [] cs)
            ∙ ap (λ r. letters word ++ r) (letters-split [] cs))
    | inr e ↦ rw e (
        letters-split (word ++ c ∷ []) cs
        ∙ ap (λ l. l ++ letters cs) (filter-append is_alphanumeric word (c ∷ []))
        ∙ append_assoc (letters word) (letters (c ∷ [])) (letters cs)
        ∙ ap (λ r. letters word ++ r) (sym (filter-append is_alphanumeric (c ∷ []) cs)))
  ]

  -- Where none of the characters `specials` is alphanumeric and no white space is: the query that is
  -- built of any text is a list of prefix terms, each a word that is not empty and has none of these
  -- characters (quotes, brackets, `*`, `+`, `:`, `^`, points, spaces), with one `*` behind it and one
  -- space between two terms; and its alphanumeric characters are those of the text, in their order.
  pub build_fts_query-Prefixes :
      (raw : List ℕ)
      → Prefixes (build_fts_query is_whitespace is_alphanumeric raw)
        × (filter is_alphanumeric (build_fts_query is_whitespace is_alphanumeric raw)
            ≡ filter is_alphanumeric raw)
  unfolding build_fts_query filter
  build_fts_query-Prefixes raw =
      let ws = split_whitespace is_whitespace is_alphanumeric [] raw in
      let shape : build_fts_query is_whitespace is_alphanumeric raw ≡ starred (bare ws) =
        ap (join is_whitespace is_alphanumeric) (prefix_terms_lem ws) ∙ join-star (bare ws) in
      (
        record { terms = bare ws; shape = shape; words = bare-IsClean ws },
        ap letters shape ∙ letters-starred (bare ws) ∙ letters-bare ws ∙ letters-split [] raw,
      )
