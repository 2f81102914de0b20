-- ===== src/Prelude/Text.antt =====
-- Texts as the lists of their characters' code points.
use Prim.Native.Nat.{ℕ}
use Prim.Native.Char.{code}
use Prim.Native.String.{◌++◌, String}
use mathlib.Core.List.{List, [], ◌∷◌}

-- `String` has its own `[]` and `∷`.
abbrev pub codes : String → List ℕ
codes String.[] = []
codes (String.◌∷◌ c s) = code c ∷ codes s

-- `format!("{s}{t}")`
abbrev pub concat : String → String → String
concat s t = s ++ t
