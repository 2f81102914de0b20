-- ===== src/Sql/Laws.antt =====
-- What every access to a context's file has in common.
use tiny_shop.Prelude.{◌≡◌, refl, subst, Bool, true, false, ◌⊎◌, inl, inr, arith}
use tiny_shop.Sql.{
  ◌>>=◌, pure, lift, SqlError, io, Result, ok, err, Conn, Tx, transaction, query, fails, later,
  settle, with_tables, attempt, Db,
}

-- The two forms of a result.
pub Result-cases :
    {E A : Type 0} (r : Result E A) → ((a : A) × (r ≡ ok a)) ⊎ ((e : E) × (r ≡ err e))
Result-cases (ok a) = inl (a, refl)
Result-cases (err e) = inr (e, refl)

-- The tables that statements left are determined.
pub tables_of :
    {E S : Type 0} {s t : S} → ◌≡◌ {A = Result E (Unit {0} × S)} (ok (tt, s)) (ok (tt, t)) → t ≡ s
tables_of h = cc

module _ {E S A : Type 0} where
  -- The two ways in which an access to tables `s` can end.
  pub data Ended (inject : SqlError → E) (s : S) (r : Result E (A × S)) (out : Result E A × Conn S)
      : Type 0 where
    -- it failed, in the engine or by its own error, and changed nothing
    rolled_back :
        (e : E)
        → out.0 ≡ err e
        → out.1.tables ≡ s
        → (e ≡ inject io) ⊎ (r ≡ err e)
        → Ended inject s r out
    committed :
        (a : A) (s' : S) → r ≡ ok (a, s') → out.0 ≡ ok a → out.1.tables ≡ s' → Ended inject s r out

  settle-Ended :
      (inject : SqlError → E) (f : Bool) (c : Conn S) (r : Result E (A × S))
      → Ended inject c.tables r (settle f inject c r)
  settle-Ended inject true c r = rolled_back (inject io) refl refl (inl refl)
  settle-Ended inject false c (ok (a, s)) = committed a s refl refl refl
  settle-Ended inject false c (err e) = rolled_back e refl refl (inr refl)

  pub transaction-Ended :
      (inject : SqlError → E) (body : Tx E S A) (c : Conn S)
      → Ended inject c.tables (body c.tables) (transaction inject body c)
  unfolding transaction
  transaction-Ended inject body c =
      settle-Ended inject (fails c.faults) (record c { faults = later c.faults }) (body c.tables)

  -- An invariant that the statements keep whenever they succeed is kept by the transaction.
  pub transaction_keeps {κ} :
      (P : S → Type κ) (inject : SqlError → E) (body : Tx E S A) (c : Conn S)
      → ((a : A) (s : S) → body c.tables ≡ ok (a, s) → P s)
      → P c.tables
      → P (transaction inject body c).1.tables
  transaction_keeps P inject body c keep h = go (transaction-Ended inject body c)
    where
      go :
          Ended inject c.tables (body c.tables) (transaction inject body c)
          → P (transaction inject body c).1.tables
      go (rolled_back e _ same _) = rw same h
      go (committed a s run _ left) = rw left (keep a s run)

  -- Where the engine does not fail, the outcome of the statements stands.
  pub transaction_runs :
      (inject : SqlError → E) (body : Tx E S A) (c : Conn S) (a : A) (s : S)
      → fails c.faults ≡ false
      → body c.tables ≡ ok (a, s)
      → transaction inject body c ≡ (ok a, record { tables = s; faults = later c.faults })
  unfolding transaction
  transaction_runs inject body c a s quiet run = rw (quiet, run)

  -- A successful transaction has run its statements, and left what they left.
  pub transaction-eq-ok :
      (inject : SqlError → E) (body : Tx E S A) (c : Conn S) (a : A)
      → (transaction inject body c).0 ≡ ok a
      → (s : S) × (body c.tables ≡ ok (a, s)) × ((transaction inject body c).1.tables ≡ s)
  transaction-eq-ok inject body c a h = go (transaction-Ended inject body c)
    where
      go :
          Ended inject c.tables (body c.tables) (transaction inject body c)
          → (s : S) × (body c.tables ≡ ok (a, s)) × ((transaction inject body c).1.tables ≡ s)
      go (rolled_back e failed _ _) = cc
      go (committed a' s run done left) = (s, ground arith, left)

  -- A failed one has changed nothing.
  pub transaction-eq-err :
      (inject : SqlError → E) (body : Tx E S A) (c : Conn S) (e : E)
      → (transaction inject body c).0 ≡ err e
      → (transaction inject body c).1.tables ≡ c.tables
  transaction-eq-err inject body c e h = go (transaction-Ended inject body c)
    where
      go :
          Ended inject c.tables (body c.tables) (transaction inject body c)
          → (transaction inject body c).1.tables ≡ c.tables
      go (rolled_back e' _ same _) = same
      go (committed a s run done left) = cc

  -- A SELECT where the engine does not fail.
  pub query_runs :
      (inject : SqlError → E) (look : S → Result E A) (c : Conn S) (a : A)
      → fails c.faults ≡ false
      → look c.tables ≡ ok a
      → query inject look c ≡ (ok a, record c { faults = later c.faults })
  unfolding query transaction
  query_runs inject look c a quiet run = rw (quiet, run)

  settle-query :
      (inject : SqlError → E) (f : Bool) (c : Conn S) (r : Result E A)
      → (settle f inject c (with_tables c.tables r)).1.tables ≡ c.tables
  settle-query inject true c r = refl
  settle-query inject false c (ok a) = refl
  settle-query inject false c (err e) = refl

  -- A SELECT changes nothing.
  pub tables-query :
      (inject : SqlError → E) (look : S → Result E A) (c : Conn S)
      → (query inject look c).1.tables ≡ c.tables
  unfolding query
  tables-query inject look c =
      settle-query inject (fails c.faults) (record c { faults = later c.faults }) (look c.tables)

module _ {E S A : Type 0} where
  settle-ok :
      (inject : SqlError → E) (f : Bool) (c d : Conn S) (s : S) (r : Result E A) (a : A)
      → (settle f inject c (with_tables s r)).0 ≡ ok a
      → r ≡ ok a
  settle-ok inject true c d s r a h = absurd (cc)
  settle-ok inject false c d s (ok b) a h = h
  settle-ok inject false c d s (err e) a h = absurd (cc)

  -- What a SELECT returned stands in the tables.
  pub query-eq-ok :
      (inject : SqlError → E) (look : S → Result E A) (c : Conn S) (a : A)
      → (query inject look c).0 ≡ ok a
      → look c.tables ≡ ok a
  unfolding query transaction
  query-eq-ok inject look c a h =
      settle-ok inject (fails c.faults) (record c { faults = later c.faults }) c c.tables
        (look c.tables) a h

-- Where `P` holds before the statements `m`, `Q` holds after them whenever they succeed.
pub record Turns {E S A : Type 0} (P Q : S → Type 0) (m : Tx E S A) : Type 0 where
  pub at : (s : S) (a : A) (s' : S) → m s ≡ ok (a, s') → P s → Q s'

abbrev pub Preserves : {E S A : Type 0} → (S → Type 0) → Tx E S A → Type 0
Preserves P m = Turns P P m

module _ {E S A B : Type 0} where
  -- A successful chain is two successful steps.
  pub bind-eq-ok :
      (m : Tx E S A) (f : A → Tx E S B) (s : S) (b : B) (s'' : S)
      → (m >>= f) s ≡ ok (b, s'')
      → (a : A) × (s' : S) × (m s ≡ ok (a, s')) × (f a s' ≡ ok (b, s''))
  bind-eq-ok m f s b s'' h = go (m s) refl h
    where
      go :
          (r : Result E (A × S))
          → m s ≡ r
          → (elim r [ ok (a, s') ↦ f a s' | err e ↦ err e ]) ≡ ok (b, s'')
          → (a : A) × (s' : S) × (m s ≡ ok (a, s')) × (f a s' ≡ ok (b, s''))
      go (ok (a, s')) e k = (a, s', e, k)
      go (err e') e k = cc

  pub bind_runs :
      (m : Tx E S A) (f : A → Tx E S B) (s : S) (a : A) (s' : S)
      → m s ≡ ok (a, s')
      → (m >>= f) s ≡ f a s'
  bind_runs m f s a s' h = rw (h, ◌>>=◌) refl

  pub Turns-bind :
      {P Q R : S → Type 0} (m : Tx E S A) (f : A → Tx E S B)
      → Turns P Q m
      → ((a : A) → Turns Q R (f a))
      → Turns P R (m >>= f)
  Turns-bind m f km kf = record {
    at = λ s b s'' h p.
        let (a, s', e, k) = bind-eq-ok m f s b s'' h in (kf a).at s' b s'' k (km.at s a s' e p);
  }

  pub Preserves-bind :
      {P : S → Type 0} (m : Tx E S A) (f : A → Tx E S B)
      → Preserves P m
      → ((a : A) → Preserves P (f a))
      → Preserves P (m >>= f)
  Preserves-bind m f km kf = Turns-bind m f km kf

module _ {E S A : Type 0} where
  pub Preserves-pure : {P : S → Type 0} (a : A) → Preserves {E = E} P (pure a)
  Preserves-pure {P} a = record { at = λ s b s' h p. subst P (ground arith) p }

  pub Preserves-lift : {P : S → Type 0} (r : Result E A) → Preserves P (lift r)
  Preserves-lift {P} (ok a) = record { at = λ s b s' h p. subst P (ground arith) p }
  Preserves-lift (err e) = record { at = λ s b s' h p. absurd (cc) }

  -- A weaker statement before, a stronger one after.
  pub Turns-from :
      {P P' Q : S → Type 0} (m : Tx E S A) → ((s : S) → P s → P' s) → Turns P' Q m → Turns P Q m
  Turns-from m w k = record { at = λ s a s' h p. k.at s a s' h (w s p) }

pub transaction-Preserves :
    {E S A : Type 0} {P : S → Type 0} (inject : SqlError → E) (body : Tx E S A) (c : Conn S)
    → Preserves P body
    → P c.tables
    → P (transaction inject body c).1.tables
transaction-Preserves {P} inject body c k p =
    transaction_keeps P inject body c (λ a s h. k.at c.tables a s h p) p

pub attempt_keeps :
    {E S A B : Type 0} (P : S → Type 0) (r : Result E A) (k : A → Db E S B) (c : Conn S)
    → ((a : A) → P (k a c).1.tables)
    → P c.tables
    → P (attempt r k c).1.tables
attempt_keeps P (ok a) k c keep h = keep a
attempt_keeps P (err e) k c keep h = h
