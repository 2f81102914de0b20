-- ===== src/Events/Relay/Pass.antt =====
-- The courses that the loop of `relay_tick` in crates/db/src/relay.rs can take over the events of
-- one source, as a step relation.
use tiny_shop.Prelude.{
  ℕ, String, ◌≡◌, refl, inl, inr, true, false, List, [], ◌∷◌, ◌++◌, leb, Bool-cases, length, subst,
  sym,
}
use tiny_shop.Prelude.Int.{ℤ}
use tiny_shop.Sql.{Result, ok, err}
use tiny_shop.Sql.Laws.{Result-cases}
use tiny_shop.Shared.{DomainEvent}
use tiny_shop.Shared.Json.{Json}
use tiny_shop.Events.Outbox.{DbError, fetch_unpublished, record_failure, mark_published}
use tiny_shop.Events.Relay.{
  DispatchError, to_string, max_dispatch_attempts, Dispatcher, Source, deliver, relay_source,
}

module _ (J : Json) {W : Type 0} (dispatch : Dispatcher J W) (now : ℤ) (name : String) where
  open J use {Value}

  -- The world after the dispatch of an event.
  abbrev pub seen : DomainEvent Value → W → W
  seen ev w = (dispatch name ev w).1

  -- The outbox after a failure is recorded, and after the event is given up as well.
  abbrev pub noted : DomainEvent Value → DispatchError → Source J → Source J
  noted ev e c = (record_failure ev.id (to_string e) c).1

  abbrev pub dropped : DomainEvent Value → DispatchError → Source J → Source J
  dropped ev e c = (mark_published now (ev.id ∷ []) (noted ev e c)).1

  -- From the events left, the ids delivered, the world and the outbox to what the loop leaves.
  pub data Pass
      : List (DomainEvent Value)
        → List ℕ
        → W
        → Source J
        → Result DbError (List ℕ)
        → W
        → Source J
        → Type 0 where
    finished : (ds : List ℕ) (w : W) (c : Source J) → Pass [] ds w c (ok ds) w c
    delivered :
        (ev : DomainEvent Value) (evs : List (DomainEvent Value)) (ds : List ℕ) (w w' : W)
        (c c' : Source J) (r : Result DbError (List ℕ))
        → (dispatch name ev w).0 ≡ ok tt
        → Pass evs (ds ++ ev.id ∷ []) (seen ev w) c r w' c'
        → Pass (ev ∷ evs) ds w c r w' c'
    -- the failure could not be recorded
    unrecorded :
        (ev : DomainEvent Value) (evs : List (DomainEvent Value)) (ds : List ℕ) (w : W)
        (c : Source J) (e : DispatchError) (x : DbError)
        → (dispatch name ev w).0 ≡ err e
        → (record_failure ev.id (to_string e) c).0 ≡ err x
        → Pass (ev ∷ evs) ds w c (err x) (seen ev w) (noted ev e c)
    -- the event is tried again in the next pass, and none behind it is tried in this one
    postponed :
        (ev : DomainEvent Value) (evs : List (DomainEvent Value)) (ds : List ℕ) (w : W)
        (c : Source J) (e : DispatchError) (n : ℕ)
        → (dispatch name ev w).0 ≡ err e
        → (record_failure ev.id (to_string e) c).0 ≡ ok n
        → leb max_dispatch_attempts n ≡ false
        → Pass (ev ∷ evs) ds w c (ok ds) (seen ev w) (noted ev e c)
    -- the event could not be given up
    unburied :
        (ev : DomainEvent Value) (evs : List (DomainEvent Value)) (ds : List ℕ) (w : W)
        (c : Source J) (e : DispatchError) (n : ℕ) (x : DbError)
        → (dispatch name ev w).0 ≡ err e
        → (record_failure ev.id (to_string e) c).0 ≡ ok n
        → leb max_dispatch_attempts n ≡ true
        → (mark_published now (ev.id ∷ []) (noted ev e c)).0 ≡ err x
        → Pass (ev ∷ evs) ds w c (err x) (seen ev w) (dropped ev e c)
    -- the event is given up, and the queue goes on
    buried :
        (ev : DomainEvent Value) (evs : List (DomainEvent Value)) (ds : List ℕ) (w w' : W)
        (c c' : Source J) (e : DispatchError) (n : ℕ) (r : Result DbError (List ℕ))
        → (dispatch name ev w).0 ≡ err e
        → (record_failure ev.id (to_string e) c).0 ≡ ok n
        → leb max_dispatch_attempts n ≡ true
        → (mark_published now (ev.id ∷ []) (noted ev e c)).0 ≡ ok tt
        → Pass evs ds (seen ev w) (dropped ev e c) r w' c'
        → Pass (ev ∷ evs) ds w c r w' c'

  pub deliver-Pass :
      (evs : List (DomainEvent Value)) (ds : List ℕ) (w : W) (c : Source J)
      → Pass evs ds w c
          (deliver J dispatch now name evs ds w c).0
          (deliver J dispatch now name evs ds w c).1
          (deliver J dispatch now name evs ds w c).2
  unfolding deliver
  deliver-Pass [] ds w c = finished ds w c
  deliver-Pass (ev ∷ evs) ds w c = elim (Result-cases (dispatch name ev w).0) [
    | inl (_, sent) ↦
        rw (sent, deliver)
          (delivered ev evs ds w _ c _ _ sent (deliver-Pass evs (ds ++ ev.id ∷ []) (seen ev w) c))
    | inr (e, failed) ↦ elim (Result-cases (record_failure ev.id (to_string e) c).0) [
      | inr (x, lost) ↦ rw (failed, lost, deliver) (unrecorded ev evs ds w c e x failed lost)
      | inl (n, kept) ↦ elim (Bool-cases (leb max_dispatch_attempts n)) [
        | inr few ↦ rw (failed, kept, few, deliver) (postponed ev evs ds w c e n failed kept few)
        | inl many ↦ elim (Result-cases (mark_published now (ev.id ∷ []) (noted ev e c)).0) [
          | inr (x, lost) ↦
              rw (failed, kept, many, lost, deliver)
                (unburied ev evs ds w c e n x failed kept many lost)
          | inl (_, marked) ↦
              rw (failed, kept, many, marked, deliver)
                (buried ev evs ds w _ c _ e n _ failed kept many marked
                  (deliver-Pass evs ds (seen ev w) (dropped ev e c)))
        ]
      ]
    ]
  ]

  module _ (batch : ℕ) (w : W) (c : Source J) where
    abbrev fetched : Source J
    fetched = (fetch_unpublished J batch c).1

    abbrev loop : List (DomainEvent Value) → Result DbError (List ℕ) × W × Source J
    loop evs = deliver J dispatch now name evs [] w fetched

    unread :
        (x : DbError)
        → (fetch_unpublished J batch c).0 ≡ err x
        → relay_source J dispatch now name batch w c ≡ (err x, w, fetched)
    unfolding relay_source
    unread x lost = rw (lost, relay_source) refl

    unfinished :
        (evs : List (DomainEvent Value)) (x : DbError)
        → (fetch_unpublished J batch c).0 ≡ ok evs
        → (loop evs).0 ≡ err x
        → relay_source J dispatch now name batch w c ≡ (err x, (loop evs).1, (loop evs).2)
    unfolding relay_source
    unfinished evs x found lost = rw (found, lost, relay_source) refl

    unmarked :
        (evs : List (DomainEvent Value)) (ds : List ℕ) (x : DbError)
        → (fetch_unpublished J batch c).0 ≡ ok evs
        → (loop evs).0 ≡ ok ds
        → (mark_published now ds (loop evs).2).0 ≡ err x
        → relay_source J dispatch now name batch w c
          ≡ (err x, (loop evs).1, (mark_published now ds (loop evs).2).1)
    unfolding relay_source
    unmarked evs ds x found done lost = rw (found, done, lost, relay_source) refl

    marked_all :
        (evs : List (DomainEvent Value)) (ds : List ℕ)
        → (fetch_unpublished J batch c).0 ≡ ok evs
        → (loop evs).0 ≡ ok ds
        → (mark_published now ds (loop evs).2).0 ≡ ok tt
        → relay_source J dispatch now name batch w c
          ≡ (ok (length ds), (loop evs).1, (mark_published now ds (loop evs).2).1)
    unfolding relay_source
    marked_all evs ds found done well = rw (found, done, well, relay_source) refl

    -- A statement about a pass over a source, by how far the pass came.
    pub relay_source-ends :
        (P : Result DbError ℕ × W × Source J → Type 0)
        → ((x : DbError) → (fetch_unpublished J batch c).0 ≡ err x → P (err x, w, fetched))
        → ((evs : List (DomainEvent Value)) (x : DbError)
            → (fetch_unpublished J batch c).0 ≡ ok evs
            → (loop evs).0 ≡ err x
            → P (err x, (loop evs).1, (loop evs).2))
        → ((evs : List (DomainEvent Value)) (ds : List ℕ) (r : Result DbError ℕ)
            → (fetch_unpublished J batch c).0 ≡ ok evs
            → (loop evs).0 ≡ ok ds
            → P (r, (loop evs).1, (mark_published now ds (loop evs).2).1))
        → P (relay_source J dispatch now name batch w c)
    relay_source-ends P early middle late = elim (Result-cases (fetch_unpublished J batch c).0) [
      | inr (x, lost) ↦ subst P (sym (unread x lost)) (early x lost)
      | inl (evs, found) ↦ elim (Result-cases (loop evs).0) [
        | inr (x, lost) ↦ subst P (sym (unfinished evs x found lost)) (middle evs x found lost)
        | inl (ds, done) ↦ elim (Result-cases (mark_published now ds (loop evs).2).0) [
          | inr (x, lost) ↦
              subst P (sym (unmarked evs ds x found done lost)) (late evs ds (err x) found done)
          | inl (_, well) ↦
              subst P (sym (marked_all evs ds found done well))
                (late evs ds (ok (length ds)) found done)
        ]
      ]
    ]
