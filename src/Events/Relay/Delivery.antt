-- ===== src/Events/Relay/Delivery.antt =====
-- The relay of crates/db/src/relay.rs publishes only what is over: delivered, or tried ten times.
use tiny_shop.Prelude.{
  leb, ℕ, String, ◌≡◌, sym, ap, subst, true, List, [], ◌∷◌, ◌++◌, All, All-append, All-map,
}
use tiny_shop.Prelude.Int.{ℤ}
use tiny_shop.Sql.{Result, ok, err}
use tiny_shop.Sql.Laws.{tables-query}
use tiny_shop.Shared.{DomainEvent}
use tiny_shop.Shared.Json.{Json}
use tiny_shop.Events.Outbox.{DbError, sqlx, fetch_unpublished, record_failure, mark_published}
use tiny_shop.Events.Relay.{
  DispatchError, to_string, max_dispatch_attempts, Dispatcher, Source, deliver, relay_source,
}
use tiny_shop.Events.Relay.Pass.{
  relay_source-ends, Pass, finished, delivered, unrecorded, postponed, unburied, buried,
  deliver-Pass, noted, dropped,
}
use tiny_shop.Events.Relay.Accounts.{
  said, said_more, said_last, IsAccounted, IsAccounted-more, record_failure-IsAccounted,
  record_failure-Over, mark_published-IsAccounted, said-Over,
}

module _ (J : Json) {W : Type 0} (dispatch : Dispatcher J W) where
  open J use {Value}

  logged : List ℕ → ℕ → Result DispatchError (Unit {0}) → List ℕ
  logged log id (ok _) = log ++ id ∷ []
  logged log id (err e) = log

  -- The same dispatcher, which also writes down the ids of the events that it took.
  unfoldable pub watched : Dispatcher J (W × List ℕ)
  unfolding logged
  watched name ev (w, log) =
      ((dispatch name ev w).0, ((dispatch name ev w).1, logged log ev.id (dispatch name ev w).0))

  taken :
      (name : String) (ev : DomainEvent Value) (w : W × List ℕ)
      → (watched name ev w).0 ≡ ok tt
      → (watched name ev w).1.1 ≡ w.1 ++ ev.id ∷ []
  unfolding watched logged
  taken name ev (w, log) h = ap (logged log ev.id) h

  refused :
      (name : String) (ev : DomainEvent Value) (w : W × List ℕ) (e : DispatchError)
      → (watched name ev w).0 ≡ err e
      → (watched name ev w).1.1 ≡ w.1
  unfolding watched logged
  refused name ev (w, log) e h = ap (logged log ev.id) h

  abbrev Told : List ℕ → Result DbError (List ℕ) → Type 0
  Told log (ok ds) = All (λ id. said log id ≡ true) ds
  Told log (err x) = Unit

  module _ (now : ℤ) (name : String) (ev : DomainEvent Value) (w : W × List ℕ) (c : Source J)
      (e : DispatchError) (failed : (watched name ev w).0 ≡ err e)
      (h : IsAccounted w.1 c.tables) where
    after_refusal : (P : List ℕ → Type 0) → P w.1 → P (watched name ev w).1.1
    after_refusal P p = subst P (sym (refused name ev w e failed)) p

    noted-IsAccounted : IsAccounted (watched name ev w).1.1 (noted J watched now name ev e c).tables
    noted-IsAccounted =
        after_refusal (λ log. IsAccounted log (noted J watched now name ev e c).tables)
          (record_failure-IsAccounted w.1 ev.id (to_string e) c h)

    dropped-IsAccounted :
        (n : ℕ)
        → (record_failure ev.id (to_string e) c).0 ≡ ok n
        → leb max_dispatch_attempts n ≡ true
        → IsAccounted (watched name ev w).1.1 (dropped J watched now name ev e c).tables
    dropped-IsAccounted n kept many =
        after_refusal (λ log. IsAccounted log (dropped J watched now name ev e c).tables)
          (mark_published-IsAccounted now w.1 (ev.id ∷ []) (noted J watched now name ev e c)
            (record_failure-IsAccounted w.1 ev.id (to_string e) c h)
            (record_failure-Over w.1 ev.id n (to_string e) c h kept many, tt))

  Pass-IsAccounted :
      (now : ℤ) (name : String) (evs : List (DomainEvent Value)) (ds : List ℕ) (w w' : W × List ℕ)
      (c c' : Source J) (r : Result DbError (List ℕ))
      → Pass J watched now name evs ds w c r w' c'
      → IsAccounted w.1 c.tables
      → All (λ id. said w.1 id ≡ true) ds
      → IsAccounted w'.1 c'.tables × Told w'.1 r
  Pass-IsAccounted now name _ _ _ _ _ _ _ (finished ds w c) h k = (h, k)
  Pass-IsAccounted now name _ _ _ _ _ _ _ (delivered ev evs ds w w' c c' r sent rest) h k =
      Pass-IsAccounted now name evs (ds ++ ev.id ∷ []) _ w' c c' r rest
        (subst (λ log. IsAccounted log c.tables) (sym (taken name ev w sent))
          (IsAccounted-more w.1 ev.id c.tables h))
        (subst (λ log. All (λ id. said log id ≡ true) (ds ++ ev.id ∷ []))
          (sym (taken name ev w sent))
          (All-append _ ds (ev.id ∷ []) (All-map (λ id. said_more w.1 ev.id id) ds k)
            (said_last w.1 ev.id, tt)))
  Pass-IsAccounted now name _ _ _ _ _ _ _ (unrecorded ev evs ds w c e x failed lost) h k =
      (noted-IsAccounted now name ev w c e failed h, tt)
  Pass-IsAccounted now name _ _ _ _ _ _ _ (postponed ev evs ds w c e n failed kept few) h k = (
    noted-IsAccounted now name ev w c e failed h,
    after_refusal now name ev w c e failed h (λ log. All (λ id. said log id ≡ true) ds) k,
  )
  Pass-IsAccounted now name _ _ _ _ _ _ _ (unburied ev evs ds w c e n x failed kept many lost) h k =
      (dropped-IsAccounted now name ev w c e failed h n kept many, tt)
  Pass-IsAccounted now name _ _ _ _ _ _ _
        (buried ev evs ds w w' c c' e n r failed kept many marked rest) h k =
      Pass-IsAccounted now name evs ds _ w' _ c' r rest
        (dropped-IsAccounted now name ev w c e failed h n kept many)
        (after_refusal now name ev w c e failed h (λ log. All (λ id. said log id ≡ true) ds) k)

  -- What a pass over a source leaves, by how far it came.
  abbrev pub Good : {A : Type 0} → Result DbError A × (W × List ℕ) × Source J → Type 0
  Good out = IsAccounted out.1.1 out.2.tables

  module _ (now : ℤ) (name : String) (batch : ℕ) (w : W × List ℕ) (c : Source J) where
    abbrev fetched : Source J
    fetched = (fetch_unpublished J batch c).1

    abbrev loop : List (DomainEvent Value) → Result DbError (List ℕ) × (W × List ℕ) × Source J
    loop evs = deliver J watched now name evs [] w fetched

    read-IsAccounted : IsAccounted w.1 c.tables → IsAccounted w.1 fetched.tables
    unfolding fetch_unpublished
    read-IsAccounted h = subst (IsAccounted w.1) (sym (tables-query sqlx _ c)) h

    loop-IsAccounted :
        (evs : List (DomainEvent Value))
        → IsAccounted w.1 c.tables
        → Good (loop evs) × Told (loop evs).1.1 (loop evs).0
    loop-IsAccounted evs h =
        Pass-IsAccounted now name evs [] w _ fetched _ _
          (deliver-Pass J watched now name evs [] w fetched) (read-IsAccounted h) tt

    end-IsAccounted :
        (evs : List (DomainEvent Value)) (ds : List ℕ)
        → IsAccounted w.1 c.tables
        → (loop evs).0 ≡ ok ds
        → IsAccounted (loop evs).1.1 (mark_published now ds (loop evs).2).1.tables
    end-IsAccounted evs ds h done =
        let (kept, told) = loop-IsAccounted evs h in
        mark_published-IsAccounted now _ ds (loop evs).2 kept (
          All-map (λ id. said-Over (loop evs).1.1 id (loop evs).2.tables.rows) ds
            (subst (Told (loop evs).1.1) done told))

    pub relay_source-IsAccounted :
        IsAccounted w.1 c.tables → Good (relay_source J watched now name batch w c)
    relay_source-IsAccounted h =
        relay_source-ends J watched now name batch w c Good (λ x lost. read-IsAccounted h)
          (λ evs x found lost. (loop-IsAccounted evs h).0)
          (λ evs ds r found done. end-IsAccounted evs ds h done)
