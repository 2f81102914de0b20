-- ===== src/Events/Relay.antt =====
-- crates/db/src/relay.rs: one pass over the outboxes of all sources. The dispatcher is a parameter:
-- a function that changes a world of its own. The clock is read once for each source.
pub mod Pass
pub mod Accounts
pub mod Delivery
pub mod History
pub mod Order
use tiny_shop.Prelude.{ℕ, ◌+◌, String, Bool, true, false, List, [], ◌∷◌, ◌++◌, leb, length, concat}
use tiny_shop.Prelude.Int.{ℤ}
use tiny_shop.Sql.{Result, ok, err, Conn}
use tiny_shop.Shared.{DomainEvent}
use tiny_shop.Shared.Json.{Json}
use tiny_shop.Events.Outbox.{DbError, Outbox, fetch_unpublished, record_failure, mark_published}

pub record DispatchError : Type 0 where
  pub message : String

-- `Display`
abbrev pub to_string : DispatchError → String
to_string e = concat "dispatch error: " e.message

abbrev pub max_dispatch_attempts : ℕ
max_dispatch_attempts = 10

module _ (J : Json) where
  open J use {Value, Encoded}

  -- A consumer over the world `W`.
  abbrev pub Dispatcher : Type 0 → Type 0
  Dispatcher W = String → DomainEvent Value → W → Result DispatchError (Unit {0}) × W

  abbrev pub Source : Type 0
  Source = Conn (Outbox Encoded)

  module _ {W : Type 0} (dispatch : Dispatcher W) where
    -- The loop over the events of one source; `delivered` collects the ids to mark.
    unfoldable pub deliver :
        ℤ
        → String
        → List (DomainEvent Value)
        → List ℕ
        → W
        → Source
        → Result DbError (List ℕ) × W × Source
    unfolding record_failure mark_published
    deliver now name [] delivered w c = (ok delivered, w, c)
    deliver now name (ev ∷ evs) delivered w c =
        let (r, w') = dispatch name ev w in
        elim r [
          | ok _ ↦ deliver now name evs (delivered ++ ev.id ∷ []) w' c
          | err e ↦
              let (tried, c') = record_failure ev.id (to_string e) c in
              elim tried [
                | err x ↦ (err x, w', c')
                | ok attempts ↦ elim (leb max_dispatch_attempts attempts) [
                  | false ↦ (ok delivered, w', c')
                  | true ↦
                      let (marked, c'') = mark_published now (ev.id ∷ []) c' in
                      elim marked [
                        | err x ↦ (err x, w', c'')
                        | ok _ ↦ deliver now name evs delivered w' c''
                      ]
                ]
              ]
        ]

    -- One source, and how many of its events were delivered.
    unfoldable pub relay_source : ℤ → String → ℕ → W → Source → Result DbError ℕ × W × Source
    unfolding fetch_unpublished deliver mark_published
    relay_source now name batch w c =
        let (events, c₁) = fetch_unpublished J batch c in
        elim events [
          | err x ↦ (err x, w, c₁)
          | ok evs ↦
              let (done, w', c₂) = deliver now name evs [] w c₁ in
              elim done [
                | err x ↦ (err x, w', c₂)
                | ok delivered ↦
                    let (marked, c₃) = mark_published now delivered c₂ in
                    elim marked [ err x ↦ (err x, w', c₃) | ok _ ↦ (ok (length delivered), w', c₃) ]
              ]
        ]

    -- The first error ends the pass: the sources behind it are not visited.
    unfoldable pub relay_tick :
        ℤ → ℕ → List (String × Source) → ℕ → W → Result DbError ℕ × W × List (String × Source)
    unfolding relay_source
    relay_tick now batch [] total w = (ok total, w, [])
    relay_tick now batch ((name, c) ∷ sources) total w =
        let (count, w', c') = relay_source now name batch w c in
        elim count [
          | err x ↦ (err x, w', (name, c') ∷ sources)
          | ok n ↦
              let (result, w'', sources') = relay_tick now batch sources (total + n) w' in
              (result, w'', (name, c') ∷ sources')
        ]
