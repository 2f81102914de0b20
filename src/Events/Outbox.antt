-- ===== src/Events/Outbox.antt =====
-- crates/db/src/outbox.rs, over the `outbox` table that each context's migrations create.
use tiny_shop.Prelude.{
  ℕ, suc, ◌+◌, String, Option, none, some, List, [], ◌∷◌, ◌++◌, ◌==◌, nat_eq, option_eq, filter,
  find?, update_where, order_by, take, leb, Bool, true, false,
}
use tiny_shop.Prelude.Int.{ℤ}
use tiny_shop.Sql.{SqlError, row_not_found, Result, ok, err, Tx, Db, transaction, query}
use tiny_shop.Shared.{DomainEvent, NewEvent}
use tiny_shop.Shared.Json.{Json}

pub data DbError : Type 0 where
  sqlx : SqlError → DbError
  json : DbError

pub record OutboxRow (T : Type 0) : Type 0 where
  pub id : ℕ
  pub aggregate : String
  pub aggregate_id : String
  pub event_type : String
  pub payload : T
  pub created_at : ℤ
  pub published_at : Option ℤ
  pub attempts : ℕ
  pub last_error : Option String

-- The table, and the last id that AUTOINCREMENT gave.
pub record Outbox (T : Type 0) : Type 0 where
  pub rows : List (OutboxRow T)
  pub last_id : ℕ

abbrev pub no_rows : {T : Type 0} → Outbox T
no_rows = record { rows = []; last_id = 0 }

-- A missing value is a failure to decode.
abbrev decoded : {A : Type 0} → Option A → Result DbError A
decoded none = err json
decoded (some a) = ok a

abbrev pub unpublished : {T : Type 0} → OutboxRow T → Bool
unpublished r = elim r.published_at [ none ↦ true | some _ ↦ false ]

abbrev pub by_id : {T : Type 0} → OutboxRow T → OutboxRow T → Bool
by_id r s = leb r.id s.id

abbrev pub has_id : {T : Type 0} → ℕ → OutboxRow T → Bool
has_id id r = r.id == id

module _ (J : Json) where
  open J use {Value, Encoded, to_string, from_str}

  abbrev new_row : ℕ → ℤ → NewEvent Value → Encoded → OutboxRow Encoded
  new_row id now ev payload = record {
    id = id;
    aggregate = ev.aggregate;
    aggregate_id = ev.aggregate_id;
    event_type = ev.event_type;
    payload = payload;
    created_at = now;
    published_at = none;
    attempts = 0;
    last_error = none;
  }

  -- `enqueue`, in the caller's transaction.
  unfoldable pub enqueue : ℤ → NewEvent Value → Tx DbError (Outbox Encoded) ℕ
  enqueue now ev o = elim (to_string ev.payload) [
    | none ↦ err json
    | some payload ↦ ok (
      suc o.last_id,
      record {
        rows = o.rows ++ new_row (suc o.last_id) now ev payload ∷ [];
        last_id = suc o.last_id;
      },
    )
  ]

  abbrev pub event_of : OutboxRow Encoded → Value → DomainEvent Value
  event_of r payload = record {
    id = r.id;
    aggregate = r.aggregate;
    aggregate_id = r.aggregate_id;
    event_type = r.event_type;
    payload = payload;
    created_at = r.created_at;
  }

  unfoldable pub decode_rows : List (OutboxRow Encoded) → Result DbError (List (DomainEvent Value))
  decode_rows [] = ok []
  decode_rows (r ∷ rs) =
      let rest = decode_rows rs in
      elim (from_str r.payload) [
        | none ↦ err json
        | some payload ↦ elim rest [ ok evs ↦ ok (event_of r payload ∷ evs) | err e ↦ err e ]
      ]

  unfoldable pub fetch_unpublished : ℕ → Db DbError (Outbox Encoded) (List (DomainEvent Value))
  unfolding decode_rows
  fetch_unpublished limit =
      query sqlx λ o. decode_rows (take limit (order_by by_id (filter unpublished o.rows)))

module _ {T : Type 0} where
  abbrev pub failed_once : String → OutboxRow T → OutboxRow T
  failed_once error r = record r { attempts = r.attempts + 1; last_error = some error }

  -- UPDATE ... RETURNING attempts, read by `fetch_one`
  unfoldable pub fail_row : ℕ → String → Tx DbError (Outbox T) ℕ
  fail_row id error o = elim (find? (has_id id) o.rows) [
    | none ↦ err (sqlx row_not_found)
    | some r ↦
        ok (r.attempts + 1, record o { rows = update_where (has_id id) (failed_once error) o.rows })
  ]

  unfoldable pub record_failure : ℕ → String → Db DbError (Outbox T) ℕ
  unfolding fail_row
  record_failure id error = transaction sqlx (fail_row id error)

  unfoldable pub mark_rows : ℤ → List ℕ → List (OutboxRow T) → List (OutboxRow T)
  mark_rows now [] rows = rows
  mark_rows now (id ∷ ids) rows =
      mark_rows now ids (update_where (has_id id) (λ r. record r { published_at = some now }) rows)

  unfoldable pub mark_published : ℤ → List ℕ → Db DbError (Outbox T) (Unit {0})
  unfolding mark_rows
  mark_published now [] = λ c. (ok tt, c)
  mark_published now (id ∷ ids) =
      transaction sqlx λ o. ok (tt, record o { rows = mark_rows now (id ∷ ids) o.rows })
