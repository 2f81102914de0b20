-- ===== src/Shared/Pages.antt =====
-- crates/shared/src/lib.rs: `Pagination` and `Page`.
use tiny_shop.Prelude.{ℕ, List, if◌then◌else◌, ltb}

pub record Pagination : Type 0 where
  pub offset : ℕ
  pub limit : ℕ

abbrev pub max_limit : ℕ
max_limit = 100

abbrev pub default_limit : ℕ
default_limit = 24

-- `Ord::clamp`
abbrev pub clamp : ℕ → ℕ → ℕ → ℕ
clamp x lo hi = if ltb x lo then lo else if ltb hi x then hi else x

unfoldable pub clamped : ℕ → ℕ → Pagination
clamped offset limit = record { offset = offset; limit = clamp limit 1 max_limit }

pub record Page (A : Type 0) : Type 0 where
  pub items : List A
  pub total : ℕ
  pub page : Pagination
