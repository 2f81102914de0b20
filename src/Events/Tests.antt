-- ===== src/Events/Tests.antt =====
-- Runs of the outbox, the inbox and the relay of crates/db/src at concrete events.
use tiny_shop.Prelude.{
  ℕ, String, ◌≡◌, Bool, true, false, List, [], ◌∷◌, map, take, any, if◌then◌else◌,
}
use tiny_shop.Prelude.Int.{pos}
use tiny_shop.Sql.{ok, err}
use tiny_shop.Shared.{DomainEvent, NewEvent}
use tiny_shop.Shared.Json.{trees, Tree, null}
use tiny_shop.Events.Outbox.{no_rows}
use tiny_shop.Events.Inbox.{is_event, is_key, times, newly, times-newly}
use tiny_shop.Events.Relay.{Dispatcher, Source}
use tiny_shop.Events.Relay.Accounts.{IsAccounted}
use tiny_shop.Events.Relay.History.{Move, enqueues, relays, State, run, run-IsAccounted}
use tiny_shop.Events.Relay.Order.{IsAscending, awaited, pass, relay_source-take}

abbrev paid : NewEvent Tree
paid = record { aggregate = "order"; aggregate_id = "o1"; event_type = "OrderPaid"; payload = null }

-- A dispatcher that refuses every other event.
abbrev moody : Dispatcher trees Bool
moody name ev w =
    (if w then err (record { message = "busy" }) else ok tt, if w then false else true)

abbrev moves : List (Move trees moody "orders")
moves =
    enqueues (pos 1) paid
    ∷ enqueues (pos 2) paid
    ∷ relays (pos 3) 100
    ∷ enqueues (pos 4) paid
    ∷ relays (pos 5) 100
    ∷ []

-- The third access fails.
abbrev fresh : State trees moody "orders"
fresh = ((false, []), record { tables = no_rows; faults = false ∷ false ∷ true ∷ [] })

no_rows-IsAccounted : IsAccounted {T = Tree} [] no_rows
no_rows-IsAccounted = record { ids = tt; bounded = tt; accounted = tt }

run-IsAccounted_example :
    IsAccounted
      (run trees moody "orders" moves fresh).0.1
      (run trees moody "orders" moves fresh).1.tables
run-IsAccounted_example = run-IsAccounted trees moody "orders" moves fresh no_rows-IsAccounted

abbrev waiting : Source trees
waiting = (run trees moody "orders" (enqueues (pos 1) paid ∷ enqueues (pos 2) paid ∷ []) fresh).1

relay_source-take_example :
    ((n : ℕ) × ((pass trees moody (pos 3) "orders" 100 (false, []) waiting).1.1
        ≡ take n (awaited trees 100 waiting)))
    × IsAscending (map (λ (ev : DomainEvent Tree). ev.id) (awaited trees 100 waiting))
relay_source-take_example = relay_source-take trees moody (pos 3) "orders" 100 (false, []) waiting

abbrev reaching : List (String × ℕ)
reaching = ("product", 1) ∷ ("product", 2) ∷ ("product", 1) ∷ ("orders", 1) ∷ []

times-newly_example : times "product" 1 (newly (pos 9) reaching []) ≡ (
    if any (is_event "product" 1) [] then 0 else if any (is_key "product" 1) reaching then 1 else 0)
times-newly_example = times-newly (pos 9) "product" 1 reaching []
