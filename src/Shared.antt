-- ===== src/Shared.antt =====
-- crates/shared/src/lib.rs: the event envelope, pages, and the attribute types. Times are
-- milliseconds and counts are `u32` or `u64`, read as unbounded numbers; `now_ms` is an argument of
-- what calls it.
pub mod Json
pub mod Pages
use tiny_shop.Prelude.{ℕ, String, Option, none, some, ◌==◌, string_eq, if◌then◌else◌}
use tiny_shop.Prelude.Int.{ℤ}

-- An event as it stands in an outbox, its payload decoded.
pub record DomainEvent (V : Type 0) : Type 0 where
  pub id : ℕ
  pub aggregate : String
  pub aggregate_id : String
  pub event_type : String
  pub payload : V
  pub created_at : ℤ

-- An event before the outbox gives it an id and a time.
pub record NewEvent (V : Type 0) : Type 0 where
  pub aggregate : String
  pub aggregate_id : String
  pub event_type : String
  pub payload : V

pub data DataType : Type 0 where
  string number enum bool : DataType

unfoldable pub as_str : DataType → String
as_str string = "string"
as_str number = "number"
as_str enum = "enum"
as_str bool = "bool"

unfoldable pub parse : String → Option DataType
parse s =
    if s == "string"
    then some string
    else if s == "number"
    then some number
    else if s == "enum"
    then some enum
    else if s == "bool"
    then some bool
    else none
