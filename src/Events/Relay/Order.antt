-- ===== src/Events/Relay/Order.antt =====
-- The order in which the relay of crates/db/src/relay.rs hands events out.
use mathlib.Core.List.{append_assoc, append-nil}
use tiny_shop.Prelude.{
  ℕ, suc, zero, String, ◌≡◌, refl, sym, ap, ◌∙◌, subst, true, List, [], ◌∷◌, ◌++◌, map, arith, leb,
  take, filter, order_by, All, Apart, Apart-order_by, Apart-map, Option-cases, some, none, inl, inr,
}
use tiny_shop.Prelude.Int.{ℤ}
use tiny_shop.Sql.{Result, ok, err}
use tiny_shop.Sql.Laws.{query-eq-ok}
use tiny_shop.Sql.Laws.{Result-cases}
use tiny_shop.Shared.{DomainEvent}
use tiny_shop.Shared.Json.{Json}
use tiny_shop.Events.Outbox.{
  OutboxRow, DbError, sqlx, decode_rows, fetch_unpublished, unpublished, by_id, event_of, json,
}
use tiny_shop.Events.Relay.{Dispatcher, Source, deliver, relay_source}
use tiny_shop.Events.Relay.Pass.{
  relay_source-ends, Pass, finished, delivered, unrecorded, postponed, unburied, buried,
  deliver-Pass,
}

-- Ids that do not fall.
abbrev pub IsAscending : List ℕ → Type 0
IsAscending = Apart (λ a b. leb a b ≡ true)

All-take : {A : Type 0} (P : A → Type 0) (n : ℕ) (xs : List A) → All P xs → All P (take n xs)
All-take P zero xs h = tt
All-take P (suc n) [] h = tt
All-take P (suc n) (x ∷ xs) h = (h.0, All-take P n xs h.1)

Apart-take :
    {A : Type 0} (R : A → A → Type 0) (n : ℕ) (xs : List A) → Apart R xs → Apart R (take n xs)
Apart-take R zero xs h = tt
Apart-take R (suc n) [] h = tt
Apart-take R (suc n) (x ∷ xs) h = (All-take (R x) n xs h.0, Apart-take R n xs h.1)

module _ (J : Json) where
  open J use {Value, Encoded, from_str}

  abbrev event_id : DomainEvent Value → ℕ
  event_id ev = ev.id

  abbrev row_id : OutboxRow Encoded → ℕ
  row_id r = r.id

  ids_of : Result DbError (List (DomainEvent Value)) → List ℕ
  ids_of (ok evs) = map event_id evs
  ids_of (err e) = []

  decode_rows_lem :
      (r : OutboxRow Encoded) (rs : List (OutboxRow Encoded)) (p : Value)
      (evs : List (DomainEvent Value))
      → from_str r.payload ≡ some p
      → decode_rows J rs ≡ ok evs
      → decode_rows J (r ∷ rs) ≡ ok (event_of J r p ∷ evs)
  unfolding decode_rows
  decode_rows_lem r rs p evs e q = rw (e, q, decode_rows) refl

  decode_rows_fails :
      (r : OutboxRow Encoded) (rs : List (OutboxRow Encoded)) (p : Value) (x : DbError)
      → from_str r.payload ≡ some p
      → decode_rows J rs ≡ err x
      → decode_rows J (r ∷ rs) ≡ err x
  unfolding decode_rows
  decode_rows_fails r rs p x e q = rw (e, q, decode_rows) refl

  decode_rows_spoilt :
      (r : OutboxRow Encoded) (rs : List (OutboxRow Encoded))
      → from_str r.payload ≡ none
      → decode_rows J (r ∷ rs) ≡ err json
  unfolding decode_rows
  decode_rows_spoilt r rs e = rw (e, decode_rows) refl

  decode_rows-ids :
      (rs : List (OutboxRow Encoded)) (evs : List (DomainEvent Value))
      → decode_rows J rs ≡ ok evs
      → map event_id evs ≡ map row_id rs
  unfolding decode_rows ids_of
  decode_rows-ids [] evs h = sym (ap ids_of h)
  decode_rows-ids (r ∷ rs) evs h = elim (Option-cases (from_str r.payload)) [
    | inl spoilt ↦ absurd (cc (h, decode_rows_spoilt r rs spoilt))
    | inr (p, e) ↦ elim (Result-cases (decode_rows J rs)) [
      | inr (x, q) ↦ absurd (cc (h, decode_rows_fails r rs p x e q))
      | inl (bs, q) ↦
          ap ids_of (sym h ∙ decode_rows_lem r rs p bs e q)
          ∙ ap (λ ids. r.id ∷ ids) (decode_rows-ids rs bs q)
    ]
  ]

  rows_ascend :
      (n : ℕ) (rs : List (OutboxRow Encoded))
      → IsAscending (map row_id (take n (order_by by_id rs)))
  rows_ascend n rs =
      Apart-map (λ a b. leb a b ≡ true) row_id (take n (order_by by_id rs))
        (Apart-take (λ r s. leb r.id s.id ≡ true) n (order_by by_id rs)
          (Apart-order_by by_id (λ a b h. ground arith) (λ a b c h k. ground arith) rs))

  read : Result DbError (List (DomainEvent Value)) → List (DomainEvent Value)
  read (ok evs) = evs
  read (err x) = []

  -- The events that a pass reads.
  unfoldable pub awaited : ℕ → Source J → List (DomainEvent Value)
  unfolding read
  awaited batch c = read (fetch_unpublished J batch c).0

  fetched_ascend :
      (batch : ℕ) (c : Source J) (evs : List (DomainEvent Value))
      → (fetch_unpublished J batch c).0 ≡ ok evs
      → IsAscending (map event_id evs)
  unfolding fetch_unpublished
  fetched_ascend batch c evs h =
      subst IsAscending (sym (decode_rows-ids _ evs (query-eq-ok sqlx _ c evs h)))
        (rows_ascend batch (filter unpublished c.tables.rows))

  awaited-IsAscending : (batch : ℕ) (c : Source J) → IsAscending (map event_id (awaited batch c))
  unfolding awaited read
  awaited-IsAscending batch c = elim (Result-cases (fetch_unpublished J batch c).0) [
    | inr (x, lost) ↦ subst (λ r. IsAscending (map event_id (read r))) (sym lost) tt
    | inl (evs, found) ↦
        subst (λ r. IsAscending (map event_id (read r))) (sym found)
          (fetched_ascend batch c evs found)
  ]

  module _ {W : Type 0} (dispatch : Dispatcher J W) where
    -- The same dispatcher, which also writes down what it was given.
    unfoldable pub recording : Dispatcher J (W × List (DomainEvent Value))
    recording name ev (w, log) = ((dispatch name ev w).0, ((dispatch name ev w).1, log ++ ev ∷ []))

    Pass-take :
        (now : ℤ) (name : String) (evs : List (DomainEvent Value)) (ds : List ℕ)
        (w w' : W × List (DomainEvent Value)) (c c' : Source J) (r : Result DbError (List ℕ))
        → Pass J recording now name evs ds w c r w' c'
        → (n : ℕ) × (w'.1 ≡ w.1 ++ take n evs)
    unfolding recording
    Pass-take now name _ _ _ _ _ _ _ (finished ds w c) = (0, sym (append-nil w.1))
    Pass-take now name _ _ _ _ _ _ _ (delivered ev evs ds w w' c c' r sent rest) =
        let (n, e) = Pass-take now name evs (ds ++ ev.id ∷ []) _ w' c c' r rest in
        (suc n, e ∙ append_assoc w.1 (ev ∷ []) (take n evs))
    Pass-take now name _ _ _ _ _ _ _ (unrecorded ev evs ds w c e x failed lost) = (1, refl)
    Pass-take now name _ _ _ _ _ _ _ (postponed ev evs ds w c e n failed kept few) = (1, refl)
    Pass-take now name _ _ _ _ _ _ _ (unburied ev evs ds w c e n x failed kept many lost) =
        (1, refl)
    Pass-take now name _ _ _ _ _ _ _
          (buried ev evs ds w w' c c' e m r failed kept many marked rest) =
        let (n, q) = Pass-take now name evs ds _ w' _ c' r rest in
        (suc n, q ∙ append_assoc w.1 (ev ∷ []) (take n evs))

    abbrev pub pass :
        ℤ
        → String
        → ℕ
        → W × List (DomainEvent Value)
        → Source J
        → Result DbError ℕ × (W × List (DomainEvent Value)) × Source J
    pass now name batch w c = relay_source J recording now name batch w c

    -- One pass over a source hands the dispatcher the first so many of the awaited events, each once
    -- and in the order of their ids, whatever the dispatcher answers and wherever the engine fails.
    pub relay_source-take :
        (now : ℤ) (name : String) (batch : ℕ) (w : W × List (DomainEvent Value)) (c : Source J)
        → ((n : ℕ) × ((pass now name batch w c).1.1 ≡ w.1 ++ take n (awaited batch c)))
          × IsAscending (map (λ (ev : DomainEvent Value). ev.id) (awaited batch c))
    unfolding awaited read
    relay_source-take now name batch w c = (
      relay_source-ends J recording now name batch w c
          (λ out. (n : ℕ) × (out.1.1 ≡ w.1 ++ take n (awaited batch c)))
          (λ x lost. (0, sym (append-nil w.1))) (λ evs x found lost. prefix evs found)
          (λ evs ds r found done. prefix evs found),
      awaited-IsAscending batch c,
    )
      where
        prefix :
            (evs : List (DomainEvent Value))
            → (fetch_unpublished J batch c).0 ≡ ok evs
            → (n : ℕ) × ((deliver J recording now name evs [] w (fetch_unpublished J batch c).1).1.1
                ≡ w.1 ++ take n (awaited batch c))
        prefix evs found =
            let (n, e) =
              Pass-take now name evs [] w _ _ _ _
                (deliver-Pass J recording now name evs [] w (fetch_unpublished J batch c).1) in
            (n, e ∙ ap (λ l. w.1 ++ take n l) (sym (ap read found)))
