-- ===== src/Events/Relay/History.antt =====
-- A context's outbox over any history of events and relay passes, crates/db/src/{outbox,relay}.rs,
-- as crates/tiny-shop/src/main.rs sets it up: with one source.
use tiny_shop.Prelude.{
  ℕ, suc, ◌+◌, ◌≤◌, String, ◌≡◌, refl, sym, subst, false, List, [], ◌∷◌, ◌++◌, arith, ◌==◌, nat_eq,
  All-append, All-map, Apart-append_one, some, none, Option-cases, inl, inr, Bool-cases, ==_iff,
}
use tiny_shop.Prelude.Int.{ℤ}
use tiny_shop.Sql.{Result, ok, err, transaction}
use tiny_shop.Sql.Laws.{transaction_keeps}
use tiny_shop.Sql.Laws.{Result-cases}
use tiny_shop.Shared.{NewEvent}
use tiny_shop.Shared.Json.{Json}
use tiny_shop.Events.Outbox.{OutboxRow, Outbox, DbError, sqlx, enqueue}
use tiny_shop.Events.Relay.{Dispatcher, Source, relay_source, relay_tick}
use tiny_shop.Events.Relay.Accounts.{IsAccounted, OtherId}
use tiny_shop.Events.Relay.Delivery.{watched, Good, relay_source-IsAccounted}

later_id : (a b : ℕ) → a ≤ b → (a == suc b) ≡ false
later_id a b h = elim (Bool-cases (a == suc b)) [
  | inl e ↦ absurd (too_big ((==_iff a (suc b)).0 e))
  | inr e ↦ e
]
  where
    too_big : a ≡ suc b → ⊥
    too_big e = omega arith

module _ (J : Json) where
  open J use {Value, Encoded, to_string}

  enqueue-IsAccounted :
      (now : ℤ) (ev : NewEvent Value) (log : List ℕ) (o o' : Outbox Encoded) (n : ℕ)
      → enqueue J now ev o ≡ ok (n, o')
      → IsAccounted log o
      → IsAccounted log o'
  unfolding enqueue
  enqueue-IsAccounted now ev log o o' n h k = elim (Option-cases (to_string ev.payload)) [
    | inl bad ↦ absurd (ground (arith, bad))
    | inr (p, good) ↦ subst (IsAccounted log) (same p good) (record {
      ids =
          Apart-append_one OtherId o.rows (row p)
            (All-map (λ r q. later_id r.id o.last_id q) o.rows k.bounded) k.ids;
      bounded =
          All-append _ o.rows _ (All-map (λ r q. ground arith) o.rows k.bounded) (ground arith, tt);
      accounted = All-append _ o.rows _ k.accounted (refl, tt);
    })
  ]
    where
      row : Encoded → OutboxRow Encoded
      row p = record {
        id = suc o.last_id;
        aggregate = ev.aggregate;
        aggregate_id = ev.aggregate_id;
        event_type = ev.event_type;
        payload = p;
        created_at = now;
        published_at = none;
        attempts = 0;
        last_error = none;
      }

      grown : Encoded → Outbox Encoded
      grown p = record { rows = o.rows ++ row p ∷ []; last_id = suc o.last_id }

      same : (p : Encoded) → to_string ev.payload ≡ some p → grown p ≡ o'
      same p good = ground (arith, good)

  module _ {W : Type 0} (dispatch : Dispatcher J W) (name : String) where
    -- A committed event, or a pass of the relay.
    pub data Move : Type 0 where
      enqueues : ℤ → NewEvent Value → Move
      relays : ℤ → ℕ → Move

    abbrev pub State : Type 0
    State = (W × List ℕ) × Source J

    first : Source J → List (String × Source J) → Source J
    first c [] = c
    first c (s ∷ ss) = s.1

    unfoldable pub step : Move → State → State
    unfolding first
    step (enqueues now ev) (w, c) = (w, (transaction sqlx (enqueue J now ev) c).1)
    step (relays now batch) (w, c) =
        let out = relay_tick J (watched J dispatch) now batch ((name, c) ∷ []) 0 w in
        (out.1, first c out.2)

    unfoldable pub run : List Move → State → State
    unfolding step
    run [] s = s
    run (m ∷ ms) s = run ms (step m s)

    tick_ok :
        (now : ℤ) (batch : ℕ) (w : W × List ℕ) (c : Source J) (n : ℕ)
        → (relay_source J (watched J dispatch) now name batch w c).0 ≡ ok n
        → relay_tick J (watched J dispatch) now batch ((name, c) ∷ []) 0 w ≡ (
          ok (0 + n),
          (relay_source J (watched J dispatch) now name batch w c).1,
          (name, (relay_source J (watched J dispatch) now name batch w c).2) ∷ [],
        )
    unfolding relay_tick
    tick_ok now batch w c n e = rw (e, relay_tick) refl

    tick_err :
        (now : ℤ) (batch : ℕ) (w : W × List ℕ) (c : Source J) (x : DbError)
        → (relay_source J (watched J dispatch) now name batch w c).0 ≡ err x
        → relay_tick J (watched J dispatch) now batch ((name, c) ∷ []) 0 w ≡ (
          err x,
          (relay_source J (watched J dispatch) now name batch w c).1,
          (name, (relay_source J (watched J dispatch) now name batch w c).2) ∷ [],
        )
    unfolding relay_tick
    tick_err now batch w c x e = rw (e, relay_tick) refl

    step-IsAccounted :
        (m : Move) (s : State)
        → IsAccounted s.0.1 s.1.tables
        → IsAccounted (step m s).0.1 (step m s).1.tables
    unfolding step
    step-IsAccounted (enqueues now ev) (w, c) h =
        transaction_keeps (IsAccounted w.1) sqlx (enqueue J now ev) c
          (λ n o' q. enqueue-IsAccounted now ev w.1 c.tables o' n q h) h
    step-IsAccounted (relays now batch) (w, c) h =
        elim (Result-cases (relay_source J (watched J dispatch) now name batch w c).0) [
          | inl (n, e) ↦ subst Sound (sym (tick_ok now batch w c n e)) passed
          | inr (x, e) ↦ subst Sound (sym (tick_err now batch w c x e)) passed
        ]
      where
        Sound : Result DbError ℕ × (W × List ℕ) × List (String × Source J) → Type 0
        Sound out = IsAccounted out.1.1 (first c out.2).tables

        passed : Good J dispatch (relay_source J (watched J dispatch) now name batch w c)
        passed = relay_source-IsAccounted J dispatch now name batch w c h

    -- From an outbox that is accounted for, whatever is enqueued, whenever the relay runs, whatever
    -- the dispatcher answers and whichever accesses the engine fails in, the outbox stays accounted
    -- for: an event is marked as published only if the dispatcher took an event of its id or it was
    -- tried at least ten times, and no two events share an id.
    pub run-IsAccounted :
        (ms : List Move) (s : State)
        → IsAccounted s.0.1 s.1.tables
        → IsAccounted (run ms s).0.1 (run ms s).1.tables
    unfolding run
    run-IsAccounted [] s h = h
    run-IsAccounted (m ∷ ms) s h = run-IsAccounted ms (step m s) (step-IsAccounted m s h)
