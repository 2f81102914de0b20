-- ===== src/Sql.antt =====
-- crates/db/src/lib.rs: how a repository runs statements on its context's SQLite file.
-- `sqlx` and the engine are not code of this repository. What the repositories rely on is written
-- here: a transaction keeps all of its writes or none, every failure leaves by `?`, and the engine
-- may fail at any time, in an order that the environment chooses.
use tiny_shop.Prelude.{Bool, true, false, String, List, [], ◌∷◌, if◌then◌else◌}
pub mod Laws

-- The failures of `sqlx::Error` that the repositories tell apart or carry along.
pub data SqlError : Type 0 where
  -- the connection, the disk, the pool
  io : SqlError
  -- a constraint of the schema, by the engine's message
  constraint : String → SqlError
  row_not_found : SqlError
  protocol : SqlError

pub data Result (E A : Type 0) : Type 0 where
  ok : A → Result E A
  err : E → Result E A

-- A context's file: its committed tables, and for each coming access whether the engine fails in
-- it before it is committed. An exhausted list means that nothing fails any more.
pub record Conn (S : Type 0) : Type 0 where
  pub tables : S
  pub faults : List Bool

abbrev pub fails : List Bool → Bool
fails [] = false
fails (f ∷ fs) = f

abbrev pub later : List Bool → List Bool
later [] = []
later (f ∷ fs) = fs

-- The statements of one transaction, which pass the tables on and stop at the first error.
abbrev pub Tx : Type 0 → Type 0 → Type 0 → Type 0
Tx E S A = S → Result E (A × S)

-- An access from outside: the tables that it leaves are the committed ones.
abbrev pub Db : Type 0 → Type 0 → Type 0 → Type 0
Db E S A = Conn S → Result E A × Conn S

module _ {E S A : Type 0} where
  abbrev pub pure : A → Tx E S A
  pure a s = ok (a, s)

  abbrev pub throw : E → Tx E S A
  throw e s = err e

  -- `?` on a result that is at hand.
  abbrev pub lift : Result E A → Tx E S A
  lift r s = elim r [ ok a ↦ ok (a, s) | err e ↦ err e ]

  -- A return before the file is reached.
  abbrev pub reject : E → Db E S A
  reject e c = (err e, c)

  -- What an access leaves: the engine failed in it, or its outcome stands. An error rolls back.
  abbrev pub settle : Bool → (SqlError → E) → Conn S → Result E (A × S) → Result E A × Conn S
  settle true inject c r = (err (inject io), c)
  settle false inject c (ok (a, s)) = (ok a, record c { tables = s })
  settle false inject c (err e) = (err e, c)

  -- `begin`, the statements, `commit`; or one statement with automatic commit.
  unfoldable pub transaction : (SqlError → E) → Tx E S A → Db E S A
  transaction inject body c =
      settle (fails c.faults) inject (record c { faults = later c.faults }) (body c.tables)

  abbrev pub with_tables : S → Result E A → Result E (A × S)
  with_tables s (ok a) = ok (a, s)
  with_tables s (err e) = err e

  -- A SELECT outside a transaction.
  unfoldable pub query : (SqlError → E) → (S → Result E A) → Db E S A
  unfolding transaction
  query inject look = transaction inject (λ s. with_tables s (look s))

module _ {E S A B : Type 0} where
  infixl 5 ◌>>=◌ ◌>>◌
  abbrev pub ◌>>=◌ : Tx E S A → (A → Tx E S B) → Tx E S B
  ◌>>=◌ m f s = elim (m s) [ ok (a, s') ↦ f a s' | err e ↦ err e ]

  abbrev pub ◌>>◌ : Tx E S A → Tx E S B → Tx E S B
  m >> n = m >>= λ _. n

  -- `?` outside a transaction.
  abbrev pub attempt : Result E A → (A → Db E S B) → Db E S B
  attempt (ok a) k = k a
  attempt (err e) k = reject e
