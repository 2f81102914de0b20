-- ===== src/Shared/Json.antt =====
-- `serde_json::Value`, which the repositories build payloads from. It is not code of this
-- repository: a parameter, with what the callers rely on.
use tiny_shop.Prelude.{
  ℕ, String, Option, none, some, List, [], ◌∷◌, ◌≡◌, refl, ◌==◌, string_eq, if◌then◌else◌,
}
use tiny_shop.Prelude.Int.{ℤ, pos}

pub record Json : Type 1 where
  pub Value : Type 0
  -- the text that a value is stored as
  pub Encoded : Type 0
  pub null : Value
  pub text : String → Value
  pub number : ℤ → Value
  pub object : List (String × Value) → Value
  -- `serde_json::to_string` and `from_str`, which may fail; not every value that was stored is read
  -- back as it was (floating-point numbers, deep nesting)
  pub to_string : Value → Option Encoded
  pub from_str : Encoded → Option Value

-- The last field of that name, since a later one replaces an earlier one.
abbrev pub field_or {ℓ} : {V : Type ℓ} → V → String → List (String × V) → V
field_or d k [] = d
field_or d k (p ∷ fs) = field_or (if p.0 == k then p.1 else d) k fs

-- What is read out of values: `value[key]`, `as_str`, `as_i64`, `as_f64`, and the values that are
-- floating-point numbers.
pub record Reading (J : Json) (F : Type 0) : Type 0 where
  pub index : J.Value → String → J.Value
  pub as_str : J.Value → Option String
  pub as_i64 : J.Value → Option ℤ
  pub as_f64 : J.Value → Option F
  pub float : F → J.Value
  pub index-object :
      (fs : List (String × J.Value)) (k : String) → index (J.object fs) k ≡ field_or J.null k fs
  pub as_str-text : (s : String) → as_str (J.text s) ≡ some s
  pub as_str-null : as_str J.null ≡ none
  pub as_i64-number : (n : ℤ) → as_i64 (J.number n) ≡ some n

-- Values that are kept as they are.
mutual
  pub data Tree : Type 0 where
    null : Tree
    text : String → Tree
    number : ℤ → Tree
    object : Fields → Tree

  pub data Fields : Type 0 where
    end : Fields
    field : String → Tree → Fields → Fields

abbrev pub to_fields : List (String × Tree) → Fields
to_fields [] = end
to_fields (p ∷ fs) = field p.0 p.1 (to_fields fs)

-- An instance, which shows that the assumptions can be met.
abbrev pub trees : Json
trees = record {
  Value = Tree;
  Encoded = Tree;
  null = null;
  text = text;
  number = number;
  object = λ fs. object (to_fields fs);
  to_string = some;
  from_str = some;
}

abbrev pub tree_index : Tree → Fields → String → Tree
tree_index d end k = d
tree_index d (field j v fs) k = tree_index (if j == k then v else d) fs k

pub tree_index-to_fields :
    (d : Tree) (fs : List (String × Tree)) (k : String)
    → tree_index d (to_fields fs) k ≡ field_or d k fs
tree_index-to_fields d [] k = refl
tree_index-to_fields d (p ∷ fs) k = tree_index-to_fields (if p.0 == k then p.1 else d) fs k

abbrev pub tree_field : Tree → String → Tree
tree_field (object fs) k = tree_index null fs k
tree_field _ k = null

abbrev pub tree_str : Tree → Option String
tree_str (text s) = some s
tree_str _ = none

abbrev pub tree_i64 : Tree → Option ℤ
tree_i64 (number n) = some n
tree_i64 _ = none

abbrev pub tree_f64 : Tree → Option ℕ
tree_f64 (number (pos n)) = some n
tree_f64 _ = none

abbrev pub reading_trees : Reading trees ℕ
reading_trees = record {
  index = tree_field;
  as_str = tree_str;
  as_i64 = tree_i64;
  as_f64 = tree_f64;
  float = λ n. number (pos n);
  index-object = λ fs k. tree_index-to_fields null fs k;
  as_str-text = λ s. refl;
  as_str-null = refl;
  as_i64-number = λ n. refl;
}
