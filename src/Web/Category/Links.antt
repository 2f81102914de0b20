-- ===== src/Web/Category/Links.antt =====
-- The links between the pages of a category in crates/web/src/routes/category.rs.
use Prim.Native.Char.{Char}
use Prim.Native.String.{String}
use text.Mathlib.TextLemmas.{nil-append, cons-append, append_assoc as regroup}
use mathlib.Core.List.{append_assoc, append-nil, map-append}
use tiny_shop.Prelude.{
  ℕ, ◌≡◌, refl, sym, ap, ◌∙◌, false, not, ◌||◌, Option, some, List, [], ◌∷◌, ◌++◌, map, filter,
  arith, ◌==◌, nat_eq, string_eq, concat, if◌then◌else◌, Bool-cases, inl, inr,
}
use tiny_shop.Web.Strings.{any_char, is_empty, split_once, split}
use tiny_shop.Web.Strings.Parts.{split-one, split_once-front, any_char-append}
use tiny_shop.Web.Strings.Joined.{split-append}
use tiny_shop.Web.Texts.{decimal}
use tiny_shop.Web.Texts.Price.{any_char-decimal}
use tiny_shop.Web.Category.Filters.{Pairs}
use tiny_shop.Web.Category.{query_of, pagination_href}

-- The query of an address, as its pairs.
abbrev pub pairs_of : String → List (Option (String × String))
pairs_of query = map (split_once b'=') (split b'&' query)

-- The pairs of the filters.
abbrev pub kept : Pairs → Pairs
kept raw = filter (λ p. not (p.0 == "page")) raw

-- What is written behind a query that may be empty.
abbrev joined : String → String → String
joined qs x = concat (if is_empty qs then "" else concat qs "&") x

abbrev parts : String → List String
parts qs = if is_empty qs then [] else split b'&' qs

behind_none : (x : String) → joined "" x ≡ x
unfolding is_empty
behind_none x = nil-append x

split-joined :
    (qs x : String)
    → any_char (λ c. c == b'&') x ≡ false
    → split b'&' (joined qs x) ≡ parts qs ++ x ∷ []
unfolding is_empty
split-joined String.[] x h = ap (split b'&') (nil-append x) ∙ split-one b'&' x h
split-joined (String.◌∷◌ c s) x h =
    ap (split b'&') (
      regroup (String.◌∷◌ c s) "&" x
      ∙ ap (concat (String.◌∷◌ c s)) (cons-append "&" "" x ∙ ap (String.◌∷◌ "&") (nil-append x)))
    ∙ split-append b'&' "&" (String.◌∷◌ c s) x refl
    ∙ ap (λ l. split b'&' (String.◌∷◌ c s) ++ l) (split-one b'&' x h)

-- A pair as it is written.
abbrev written : (String → String) → String × String → String
written encode_qs p = concat (encode_qs p.0) (concat "=" (encode_qs p.1))

equals : (x : String) → concat "=" x ≡ String.◌∷◌ "=" x
equals x = cons-append "=" "" x ∙ ap (String.◌∷◌ "=") (nil-append x)

not_empty : (s : String) (d : Char) (t : String) → is_empty (concat s (String.◌∷◌ d t)) ≡ false
unfolding is_empty
not_empty String.[] d t = ap is_empty (nil-append (String.◌∷◌ d t))
not_empty (String.◌∷◌ c s) d t = ap is_empty (cons-append c s (String.◌∷◌ d t))

-- Percent-encoding leaves no `&` and no `=`.
pub record Encoding (encode_qs : String → String) : Type 0 where
  pub no_amp : (s : String) → any_char (λ c. c == b'&') (encode_qs s) ≡ false
  pub no_equals : (s : String) → any_char (λ c. c == b'=') (encode_qs s) ≡ false

module _ (encode_qs : String → String) (encoding : Encoding encode_qs) where
  written-no_amp : (p : String × String) → any_char (λ c. c == b'&') (written encode_qs p) ≡ false
  unfolding any_char
  written-no_amp p =
      any_char-append (λ c. c == b'&') (encode_qs p.0) (concat "=" (encode_qs p.1))
      ∙ ap (λ b. b || any_char (λ c. c == b'&') (concat "=" (encode_qs p.1))) (encoding.no_amp p.0)
      ∙ ap (any_char (λ c. c == b'&')) (equals (encode_qs p.1))
      ∙ encoding.no_amp p.1

  written-full : (p : String × String) → is_empty (written encode_qs p) ≡ false
  written-full p =
      ap (λ x. is_empty (concat (encode_qs p.0) x)) (equals (encode_qs p.1))
      ∙ not_empty (encode_qs p.0) "=" (encode_qs p.1)

  joined-full :
      (qs : String) (p : String × String) → is_empty (joined qs (written encode_qs p)) ≡ false
  unfolding is_empty
  joined-full String.[] p = ap is_empty (nil-append (written encode_qs p)) ∙ written-full p
  joined-full (String.◌∷◌ c s) p = ap is_empty (
      ap (λ q. concat q (written encode_qs p)) (cons-append c s "&")
      ∙ cons-append c (concat s "&") (written encode_qs p))

  -- The pairs that the loop has written.
  parts-query_of :
      (qs : String) (raw : Pairs)
      → parts (query_of encode_qs qs raw) ≡ parts qs ++ map (written encode_qs) (kept raw)
  unfolding query_of filter
  parts-query_of qs [] = sym (append-nil (parts qs))
  parts-query_of qs (p ∷ raw) = elim (Bool-cases (p.0 == "page")) [
    | inl e ↦ rw e (parts-query_of qs raw)
    | inr e ↦ rw e (
        parts-query_of (joined qs (written encode_qs p)) raw
        ∙ ap (λ l. l ++ map (written encode_qs) (kept raw))
            (rw (joined-full qs p) (split-joined qs (written encode_qs p) (written-no_amp p)))
        ∙ append_assoc (parts qs) (written encode_qs p ∷ []) (map (written encode_qs) (kept raw)))
  ]

  abbrev pub read_back : String × String → Option (String × String)
  read_back p = some (encode_qs p.0, encode_qs p.1)

  pairs-written :
      (raw : Pairs) → map (split_once b'=') (map (written encode_qs) raw) ≡ map read_back raw
  pairs-written [] = refl
  pairs-written (p ∷ raw) =
      ap (λ o. o ∷ map (split_once b'=') (map (written encode_qs) raw))
        (ap (λ x. split_once b'=' (concat (encode_qs p.0) x)) (equals (encode_qs p.1))
          ∙ split_once-front b'=' "=" (encode_qs p.0) (encode_qs p.1) refl (encoding.no_equals p.0))
      ∙ ap (λ l. read_back p ∷ l) (pairs-written raw)

  page-no_amp : (n : ℕ) → any_char (λ c. c == b'&') (concat "page=" (decimal n)) ≡ false
  unfolding any_char
  page-no_amp n =
      any_char-append (λ c. c == b'&') "page=" (decimal n) ∙ any_char-decimal b'&' n (omega arith)

  page-read : (n : ℕ) → split_once b'=' (concat "page=" (decimal n)) ≡ some ("page", decimal n)
  unfolding any_char
  page-read n =
      ap (split_once b'=')
        (regroup "page" "=" (decimal n) ∙ ap (concat "page") (equals (decimal n)))
      ∙ split_once-front b'=' "=" "page" (decimal n) refl refl

  -- A link to another page of a category leads to the address of the category, and its query has
  -- the pairs of the request in their order, but for those named page, and then the page asked for.
  -- Percent-encoding is taken to leave no `&` and no `=`, and the slug has no `?`.
  pub pagination_href_lem :
      (slug : String) (raw : Pairs) (page : ℕ)
      → any_char (λ c. c == b'?') slug ≡ false
      → (query : String) × (split_once b'?' (pagination_href encode_qs slug raw page)
          ≡ some (concat "/c/" slug, query))
        × (pairs_of query ≡ map read_back (kept raw) ++ some ("page", decimal page) ∷ [])
  unfolding pagination_href any_char
  pagination_href_lem slug raw page h =
      let qs = query_of encode_qs "" raw in
      let query = joined qs (concat "page=" (decimal page)) in
      (
        query,
        ap (split_once b'?') (
              ap (λ x. concat "/c/" (concat slug x))
                (cons-append "?" "" query ∙ ap (String.◌∷◌ "?") (nil-append query))
              ∙ sym (regroup "/c/" slug (String.◌∷◌ "?" query)))
            ∙ split_once-front b'?' "?" (concat "/c/" slug) query refl
                (any_char-append (λ c. c == b'?') "/c/" slug ∙ h),
        ap (map (split_once b'=')) (
              split-joined qs (concat "page=" (decimal page)) (page-no_amp page)
              ∙ ap (λ l. l ++ concat "page=" (decimal page) ∷ []) (parts-query_of "" raw))
            ∙ map-append (split_once b'=') (map (written encode_qs) (kept raw))
                (concat "page=" (decimal page) ∷ [])
            ∙ ap (λ l. l ++ split_once b'=' (concat "page=" (decimal page)) ∷ [])
                (pairs-written (kept raw))
            ∙ ap (λ o. map read_back (kept raw) ++ o ∷ []) (page-read page),
      )
