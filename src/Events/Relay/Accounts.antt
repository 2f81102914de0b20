-- ===== src/Events/Relay/Accounts.antt =====
-- No event gets lost between the outbox of crates/db/src/outbox.rs and the relay of
-- crates/db/src/relay.rs.
use tiny_shop.Prelude.{
  ℕ, ◌+◌, ◌≤◌, String, ◌≡◌, refl, ◌∙◌, sym, ap, subst, Bool, true, false, ◌||◌, some, List, [], ◌∷◌,
  ◌++◌, arith, leb, ◌==◌, ==_iff, ==_self, nat_eq, any, any-append, find?, update_where, All,
  All-map, All-update_where, All-update_to, Apart, Apart-update_where, Option-cases, Bool-cases,
  inl, inr, All-both,
}
use tiny_shop.Prelude.Int.{ℤ}
use tiny_shop.Sql.{ok, Conn}
use tiny_shop.Sql.Laws.{transaction-eq-ok, transaction_keeps}
use tiny_shop.Events.Outbox.{
  OutboxRow, Outbox, sqlx, unpublished, fail_row, has_id, failed_once, record_failure, mark_rows,
  mark_published,
}
use tiny_shop.Events.Relay.{max_dispatch_attempts}

abbrev pub said : List ℕ → ℕ → Bool
said log id = any (λ n. n == id) log

pub said_more : (log : List ℕ) (n id : ℕ) → said log id ≡ true → said (log ++ n ∷ []) id ≡ true
said_more log n id h = rw (any-append (λ m. m == id) log (n ∷ []), h) refl

pub said_last : (log : List ℕ) (id : ℕ) → said (log ++ id ∷ []) id ≡ true
unfolding any
said_last [] id = rw (==_self id) refl
said_last (n ∷ log) id = ground (arith, said_last log id)

or_last : (a b : Bool) → b ≡ true → (a || b) ≡ true
or_last a b h = ground (arith, h)

clash : (n a b : ℕ) → (a == n) ≡ true → (b == n) ≡ true → (a == b) ≡ false → ⊥
clash n a b ha hb e = cc (e, (==_iff a b).1 ((==_iff a n).0 ha ∙ sym ((==_iff b n).0 hb)))

leb_more : (n m : ℕ) → leb n m ≡ true → leb n (m + 1) ≡ true
leb_more n m h = ground arith

module _ {T : Type 0} where
  abbrev pub OtherId : OutboxRow T → OutboxRow T → Type 0
  OtherId r s = (r.id == s.id) ≡ false

  -- Delivered, or given up after the last attempt.
  abbrev pub over : List ℕ → OutboxRow T → Bool
  over log r = said log r.id || leb max_dispatch_attempts r.attempts

  -- An event is marked as published only where it is over.
  pub record IsAccounted (log : List ℕ) (o : Outbox T) : Type 0 where
    pub ids : Apart OtherId o.rows
    pub bounded : All (λ (r : OutboxRow T). r.id ≤ o.last_id) o.rows
    pub accounted : All (λ r. (unpublished r || over log r) ≡ true) o.rows

  over_more :
      (log : List ℕ) (n : ℕ) (r : OutboxRow T) → over log r ≡ true → over (log ++ n ∷ []) r ≡ true
  over_more log n r h = ground (arith, said_more log n r.id)

  pub IsAccounted-more :
      (log : List ℕ) (n : ℕ) (o : Outbox T) → IsAccounted log o → IsAccounted (log ++ n ∷ []) o
  IsAccounted-more log n o h = record {
    ids = h.ids;
    bounded = h.bounded;
    accounted = All-map (λ r q. ground (arith, over_more log n r)) o.rows h.accounted;
  }

  over_failed :
      (log : List ℕ) (e : String) (r : OutboxRow T)
      → (unpublished r || over log r) ≡ true
      → (unpublished (failed_once e r) || over log (failed_once e r)) ≡ true
  over_failed log e r h = ground (arith, leb_more max_dispatch_attempts r.attempts)

  fail_row-eq-ok :
      (id : ℕ) (e : String) (o o' : Outbox T) (n : ℕ)
      → fail_row id e o ≡ ok (n, o')
      → (r : OutboxRow T) × (find? (has_id id) o.rows ≡ some r)
        × (n ≡ r.attempts + 1)
        × (o' ≡ record o { rows = update_where (has_id id) (failed_once e) o.rows })
  unfolding fail_row
  fail_row-eq-ok id e o o' n h = elim (Option-cases (find? (has_id id) o.rows)) [
    | inl lost ↦ absurd (ground (arith, lost))
    | inr (r, found) ↦ (r, found, ground (arith, found), ground (arith, found))
  ]

  failed-IsAccounted :
      (log : List ℕ) (id : ℕ) (e : String) (o : Outbox T)
      → IsAccounted log o
      → IsAccounted log (record o { rows = update_where (has_id id) (failed_once e) o.rows })
  failed-IsAccounted log id e o k = record {
    ids = Apart-update_where OtherId _ _ o.rows (λ r s q. q) (λ r s q. q) k.ids;
    bounded = All-update_where _ (has_id id) (failed_once e) o.rows (λ r _ q. q) k.bounded;
    accounted =
        All-update_where _ (has_id id) (failed_once e) o.rows (λ r _ q. over_failed log e r q)
          k.accounted;
  }

  pub record_failure-IsAccounted :
      (log : List ℕ) (id : ℕ) (e : String) (c : Conn (Outbox T))
      → IsAccounted log c.tables
      → IsAccounted log (record_failure id e c).1.tables
  unfolding record_failure
  record_failure-IsAccounted log id e c h =
      transaction_keeps (IsAccounted log) sqlx (fail_row id e) c
        (λ n o' q.
          subst (IsAccounted log) (sym (fail_row-eq-ok id e c.tables o' n q).3)
            (failed-IsAccounted log id e c.tables h))
        h

  -- The rows with one id are all the same.
  the_row :
      (id : ℕ) (rows : List (OutboxRow T)) (r : OutboxRow T)
      → Apart OtherId rows
      → find? (has_id id) rows ≡ some r
      → All (λ s. has_id id s ≡ true → s.attempts ≡ r.attempts) rows
  unfolding find?
  the_row id [] r a found = tt
  the_row id (s ∷ rows) r a found = elim (Bool-cases (has_id id s)) [
    | inl e ↦ (
      (λ _. ground (arith, e)),
      All-map (λ t other e'. absurd (clash id s.id t.id e e' other)) rows a.0,
    )
    | inr e ↦ ((λ e'. absurd (ground (arith, e))), the_row id rows r a.1 (ground (arith, e)))
  ]

  abbrev pub Over : List ℕ → ℕ → List (OutboxRow T) → Type 0
  Over log id rows = All (λ r. has_id id r ≡ true → over log r ≡ true) rows

  -- A failure that brought the attempts to the limit has made the event over.
  pub record_failure-Over :
      (log : List ℕ) (id n : ℕ) (e : String) (c : Conn (Outbox T))
      → IsAccounted log c.tables
      → (record_failure id e c).0 ≡ ok n
      → leb max_dispatch_attempts n ≡ true
      → Over log id (record_failure id e c).1.tables.rows
  unfolding record_failure
  record_failure-Over log id n e c h q many =
      let (o', ran, left) = transaction-eq-ok sqlx (fail_row id e) c n q in
      let (r, found, counted, changed) = fail_row-eq-ok id e c.tables o' n ran in
      subst (λ (o : Outbox T). Over log id o.rows) (sym (left ∙ changed))
        (All-update_to _ _ (has_id id) (failed_once e) c.tables.rows
          (λ s hit same _. or_last (said log s.id) (leb max_dispatch_attempts (s.attempts + 1)) (
            ap (λ m. leb max_dispatch_attempts (m + 1)) (same hit)
            ∙ ap (leb max_dispatch_attempts) (sym counted)
            ∙ many))
          (λ s miss same hit. absurd (ground (arith, miss, hit)))
          (the_row id c.tables.rows r h.ids found))

  marked_one :
      (now : ℤ) (log : List ℕ) (id : ℕ) (o : Outbox T)
      → IsAccounted log o
      → Over log id o.rows
      → IsAccounted log (record o {
        rows = update_where (has_id id) (λ r. record r { published_at = some now }) o.rows;
      })
  marked_one now log id o h done = record {
    ids = Apart-update_where OtherId _ _ o.rows (λ r s q. q) (λ r s q. q) h.ids;
    bounded = All-update_where _ (has_id id) _ o.rows (λ r _ q. q) h.bounded;
    accounted =
        All-update_to
          (λ r. ((unpublished r || over log r) ≡ true) × (has_id id r ≡ true → over log r ≡ true))
          (λ r. (unpublished r || over log r) ≡ true) (has_id id) _ o.rows (λ r hit q. q.1 hit)
          (λ r _ q. q.0) (All-both _ _ o.rows h.accounted done);
  }

  -- Marking ids whose rows are over.
  mark_rows-IsAccounted :
      (now : ℤ) (log : List ℕ) (ids : List ℕ) (o : Outbox T)
      → IsAccounted log o
      → All (λ id. Over log id o.rows) ids
      → IsAccounted log (record o { rows = mark_rows now ids o.rows })
  unfolding mark_rows
  mark_rows-IsAccounted now log [] o h done = h
  mark_rows-IsAccounted now log (id ∷ ids) o h done =
      mark_rows-IsAccounted now log ids _ (marked_one now log id o h done.0)
        (All-map (λ i d. All-update_where _ (has_id id) _ o.rows (λ r _ q. q) d) ids done.1)

  pub mark_published-IsAccounted :
      (now : ℤ) (log : List ℕ) (ids : List ℕ) (c : Conn (Outbox T))
      → IsAccounted log c.tables
      → All (λ id. Over log id c.tables.rows) ids
      → IsAccounted log (mark_published now ids c).1.tables
  unfolding mark_published
  mark_published-IsAccounted now log [] c h done = h
  mark_published-IsAccounted now log (id ∷ ids) c h done =
      transaction_keeps (IsAccounted log) sqlx _ c
        (λ _ o' q.
          subst (IsAccounted log) (ground arith)
            (mark_rows-IsAccounted now log (id ∷ ids) c.tables h done))
        h

  -- What was delivered is over.
  pub said-Over :
      (log : List ℕ) (id : ℕ) (rows : List (OutboxRow T)) → said log id ≡ true → Over log id rows
  said-Over log id [] h = tt
  said-Over log id (r ∷ rows) h = (
    (λ hit. ground (arith, subst (λ n. said log n ≡ true) (sym ((==_iff r.id id).0 hit)) h)),
    said-Over log id rows h,
  )
