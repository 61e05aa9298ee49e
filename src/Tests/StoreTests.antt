-- ===== src/Tests/StoreTests.antt =====
-- Runs of store.go over the sample database, and its theorems at concrete inputs.
use kite_mcp_eventsourcing.Prelude.{◌++◌, arith, ◌≡◌, refl, some, List, [], ◌∷◌}
use kite_mcp_eventsourcing.Result.{Error, message, ok, on_error, return_if}
use kite_mcp_eventsourcing.Aggregate.{aggregate_id, pending_events}
use kite_mcp_eventsourcing.Aggregate.Laws.{calls}
use kite_mcp_eventsourcing.Stored.{StoredEvent, store_pending, load_from_events, replay_stored}
use kite_mcp_eventsourcing.Collections.{filtered}
use kite_mcp_eventsourcing.Database.{EventRow}
use kite_mcp_eventsourcing.Database.Laws.{clashes}
use kite_mcp_eventsourcing.Store.{
  with_id, append, scan_rows, scan_events, load_events, next_sequence,
}
use kite_mcp_eventsourcing.Store.Append.{Written, append-Written}
use kite_mcp_eventsourcing.Store.Sequence.{IsPromised, next_sequence-IsNext}
use kite_mcp_eventsourcing.Store.Persistence.{load_order-append, load_order-append_more}
use kite_mcp_eventsourcing.Order.{
  OrderAggregate, new_order_aggregate, apply, apply_fields, emit, clear_pending,
}
use kite_mcp_eventsourcing.Order.Commands.{place, cancel, can_cancel}
use kite_mcp_eventsourcing.Order.Lifecycle.{Command, place_order, cancel_order, execute_order}
use kite_mcp_eventsourcing.Order.History.{run_order, continue_order}
use kite_mcp_eventsourcing.Order.Storage.{
  to_stored_events, load_order_from_events, deserialize_order_event, convert, marshal_event,
  event_type, occurred_at,
}
use kite_mcp_eventsourcing.Tests.{sample, sample_laws, text, number}
use kite_mcp_eventsourcing.Tests.SampleJson.{sample_json, sample_json_laws}
use kite_mcp_eventsourcing.Tests.SampleCollections.{sample_collections}
use kite_mcp_eventsourcing.Tests.SampleDatabase.{Disk, tables_of, sample_db}
use kite_mcp_eventsourcing.Tests.SampleLaws.{sample_db_laws}
use kite_mcp_eventsourcing.Tests.OrderTests.{params}

program : Unit {0}
unfolding append with_id on_error clashes filtered scan_rows scan_events load_events next_sequence
    sample_collections
program = tt

abbrev pub blank : Disk
blank = record { events = []; outbox = []; refused = []; ids = 0 }

abbrev pub first : StoredEvent sample
first = record {
  id = "e1";
  aggregate_id = "ORD-1";
  aggregate_type = "Order";
  event_type = "OrderPlaced";
  payload =
      text "u@example.com"
      ∷ text "NSE"
      ∷ text "INFY"
      ∷ text "BUY"
      ∷ text "LIMIT"
      ∷ text "CNC"
      ∷ number 10
      ∷ number 1500
      ∷ [];
  occurred_at = 1;
  sequence = 1;
  email_hash = "";
}

-- without an id
abbrev pub second : StoredEvent sample
second = record {
  id = "";
  aggregate_id = "ORD-1";
  aggregate_type = "Order";
  event_type = "OrderCancelled";
  payload = text "" ∷ [];
  occurred_at = 2;
  sequence = 2;
  email_hash = "h";
}

abbrev with_first : Disk
with_first = (append sample_db blank (first ∷ [])).0

-- A second append of the same event fails, and leaves the one before it.
append_again :
    (append sample_db blank (first ∷ first ∷ second ∷ [])).1
    ≡ some (
        Error.formatted_wrapped "eventsourcing: append event %s: %w" "OrderPlaced"
          (message "UNIQUE constraint failed"))
unfolding program
append_again = refl

append-Written_example :
    (rows : List EventRow) × ((tables_of
        (append sample_db blank (first ∷ first ∷ second ∷ [])).0).events
      ≡ [] ++ rows)
    × ((tables_of (append sample_db blank (first ∷ first ∷ second ∷ [])).0).outbox ≡ [])
    × Written sample_db rows
        (first ∷ first ∷ second ∷ [])
        (append sample_db blank (first ∷ first ∷ second ∷ [])).1
append-Written_example = append-Written sample_db_laws blank (first ∷ first ∷ second ∷ [])

next_sequence-IsNext_example :
    IsPromised sample_db tables_of with_first "ORD-1" (next_sequence sample_db with_first "ORD-1").1
    × (tables_of (next_sequence sample_db with_first "ORD-1").0 ≡ tables_of with_first)
unfolding program
next_sequence-IsNext_example =
    next_sequence-IsNext sample_db_laws with_first "ORD-1" (omega arith, tt)

-- Placed, and then cancelled.
abbrev short_day : List (Command sample)
short_day = place_order params "u@example.com" 1 ∷ cancel_order 2 ∷ []

-- the events of the order, without ids
abbrev short_rows : List (StoredEvent sample)
short_rows =
    record first { id = ""; sequence = 7 } ∷ record second { sequence = 8; email_hash = "" } ∷ []

load_order-append_example :
    (events : List (StoredEvent sample)) × ((load_events sample_db
        (append sample_db blank short_rows).0
        (run_order "ORD-1" short_day).id).1
      ≡ ok events)
    × (load_order_from_events sample_json events ≡ ok (clear_pending (run_order "ORD-1" short_day)))
unfolding program place cancel can_cancel execute_order calls return_if new_order_aggregate apply
    apply_fields emit pending_events clear_pending to_stored_events store_pending convert
    marshal_event aggregate_id event_type occurred_at
load_order-append_example =
    load_order-append sample_db_laws sample_laws sample_json_laws blank "ORD-1" short_day 7
      short_rows _ _ (tt, (tt, tt)) (λ e. cc) refl (omega arith) ((refl, refl), ((refl, refl), tt))
      refl refl refl refl

-- the order after its first event
abbrev placed_order : OrderAggregate sample
placed_order = clear_pending (run_order "ORD-1" (place_order params "u@example.com" 1 ∷ []))

abbrev more_rows : List (StoredEvent sample)
more_rows = record second { email_hash = "" } ∷ []

load_order-append_more_example :
    (events : List (StoredEvent sample)) × ((load_events sample_db
        (append sample_db with_first more_rows).0
        placed_order.id).1
      ≡ ok events)
    × (load_order_from_events sample_json events
        ≡ ok (clear_pending (continue_order placed_order (cancel_order 2 ∷ []))))
unfolding program place cancel can_cancel execute_order calls return_if new_order_aggregate apply
    apply_fields emit pending_events clear_pending to_stored_events store_pending convert
    marshal_event aggregate_id event_type occurred_at load_order_from_events load_from_events
    replay_stored deserialize_order_event
load_order-append_more_example =
    load_order-append_more sample_db_laws sample_laws sample_json_laws with_first (first ∷ [])
      placed_order (cancel_order 2 ∷ []) 2 more_rows _ _ refl refl (tt, tt) refl
      ((refl, tt), (tt, tt)) ((refl, refl), tt) refl refl refl
