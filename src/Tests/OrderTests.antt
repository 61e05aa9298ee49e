-- ===== src/Tests/OrderTests.antt =====
-- Runs of order_aggregate.go, and its theorems at concrete inputs.
use kite_mcp_eventsourcing.Prelude.{
  ◌≢◌, All, ◌≡◌, ◌%◌, ◌^◌, length, ◌↔◌, refl, none, some, List, [], ◌∷◌, map, inl,
}
use kite_mcp_eventsourcing.Result.{Error, ok, on_error, return_if}
use kite_mcp_eventsourcing.Domain.{OrderParams}
use kite_mcp_eventsourcing.Event.{OrderEvent, order_event, order_cancelled, order_filled_event}
use kite_mcp_eventsourcing.Aggregate.{pending_events, increment_version, clear_pending_events}
use kite_mcp_eventsourcing.Aggregate.Laws.{calls, replay, walk}
use kite_mcp_eventsourcing.Stored.{StoredEvent, replay_stored, load_from_events}
use kite_mcp_eventsourcing.Stored.Load.{last_or, IsReadable}
use kite_mcp_eventsourcing.Stored.RoundTrip.{IsNumbered}
use kite_mcp_eventsourcing.Order.{
  new, filled, OrderAggregate, new_order_aggregate, aggregate_type, apply, apply_fields, emit,
  clear_pending,
}
use kite_mcp_eventsourcing.Order.Commands.{
  place, modify, cancel, fill, can_modify, can_cancel, can_fill,
}
use kite_mcp_eventsourcing.Order.Root.{order_root, order_emitter}
use kite_mcp_eventsourcing.Order.Lifecycle.{
  Command, place_order, modify_order, cancel_order, fill_order, execute_order,
}
use kite_mcp_eventsourcing.Order.Storage.{
  to_stored_events, load_order_from_events, deserialize_order_event, deserialize_public,
}
use kite_mcp_eventsourcing.Order.Load.{status_named, load_order-IsReadable, load_order-status}
use kite_mcp_eventsourcing.Order.Guards.{IsAdmissible, execute_order-IsAdmissible, closed_absorbs}
use kite_mcp_eventsourcing.Order.History.{run_order, next_status, walk-run_order, replay-run_order}
use kite_mcp_eventsourcing.Order.RoundTrip.{load-to_stored_events}
use kite_mcp_eventsourcing.Tests.{sample, sample_laws, number, text}
use kite_mcp_eventsourcing.Tests.SampleJson.{sample_json, sample_json_laws}

program : Unit {0}
unfolding place modify cancel fill can_modify can_cancel can_fill execute_order calls on_error
    return_if new_order_aggregate apply apply_fields emit pending_events clear_pending
program = tt

abbrev pub params : OrderParams sample
params = record {
  exchange_name = "NSE";
  symbol = "INFY";
  transaction_type = "BUY";
  order_type = "LIMIT";
  product = "CNC";
  quantity = 10;
  price = 1500;
}

-- Placed, a modification that changes nothing, one that changes the price, filled, too late.
abbrev day : List (Command sample)
day =
    place_order params "u@example.com" 1
    ∷ modify_order 10 1500 "" 2
    ∷ modify_order 10 1510 "" 3
    ∷ fill_order 1505 10 4
    ∷ cancel_order 5
    ∷ []

day_result :
    let o = run_order "ORD-1" day in
    (o.status ≡ filled)
    × (o.version ≡ 3)
    × (o.price ≡ 1510)
    × (o.filled_at ≡ 4)
    × (o.modify_count ≡ 1)
unfolding program
day_result = (refl, refl, refl, refl, refl)

execute_order-IsAdmissible_example :
    ((execute_order (new_order_aggregate sample "ORD-1") (place_order params "" 1)).1 ≡ none)
    ↔ IsAdmissible (new_order_aggregate sample "ORD-1") (place_order params "" 1)
execute_order-IsAdmissible_example =
    execute_order-IsAdmissible (new_order_aggregate sample "ORD-1") (place_order params "" 1)

closed_absorbs_example :
    (calls (order_emitter sample) execute_order (run_order "ORD-1" day) day ≡ run_order "ORD-1" day)
    × ((c : Command sample)
        → (e : Error) × (execute_order (run_order "ORD-1" day) c ≡ (run_order "ORD-1" day, some e)))
closed_absorbs_example = closed_absorbs (run_order "ORD-1" day) (inl day_result.0) day

walk-run_order_example :
    (es : List (OrderEvent sample)) × (pending_events (run_order "ORD-1" day).base
      ≡ map order_event es)
    × (walk next_status (some new) es ≡ some (run_order "ORD-1" day).status)
walk-run_order_example = walk-run_order "ORD-1" day

replay-run_order_example :
    replay
      (order_root sample)
      (new_order_aggregate sample "ORD-1")
      (pending_events (run_order "ORD-1" day).base)
    ≡ clear_pending (run_order "ORD-1" day)
replay-run_order_example = replay-run_order "ORD-1" day

load-to_stored_events_example :
    (stored : List (StoredEvent sample)) × (to_stored_events sample_json (run_order "ORD-1" day) 1
      ≡ ok stored)
    × IsNumbered (run_order "ORD-1" day).id aggregate_type 1 0 stored
    × (load_order_from_events sample_json stored ≡ ok (clear_pending (run_order "ORD-1" day)))
unfolding program
load-to_stored_events_example =
    load-to_stored_events sample_laws sample_json_laws "ORD-1" day 1 (tt, (tt, (tt, tt))) (λ e. cc)

-- Rows of both formats: a private cancellation and then a public fill.
abbrev cancelled_row : StoredEvent sample
cancelled_row = record {
  id = "o1";
  aggregate_id = "ORD-2";
  aggregate_type = "Order";
  event_type = "OrderCancelled";
  payload = [];
  occurred_at = 3;
  sequence = 1;
  email_hash = "";
}

abbrev filled_row : StoredEvent sample
filled_row = record {
  id = "o2";
  aggregate_id = "ORD-2";
  aggregate_type = "Order";
  event_type = "order.filled";
  payload = text "ORD-2" ∷ number 1499 ∷ number 10 ∷ number 4 ∷ [];
  occurred_at = 4;
  sequence = 2;
  email_hash = "";
}

abbrev rows_loaded : OrderAggregate sample
rows_loaded =
    apply
      (apply (new_order_aggregate sample "ORD-2")
        (order_event (order_cancelled (record { order_id = "ORD-2"; timestamp = 3 }))))
      (order_filled_event
        (record { order_id = "ORD-2"; filled_price = 1499; filled_qty = 10; timestamp = 4 }))

rows_load : load_order_from_events sample_json (cancelled_row ∷ filled_row ∷ []) ≡ ok rows_loaded
unfolding program load_order_from_events load_from_events replay_stored deserialize_order_event
    deserialize_public clear_pending_events increment_version
rows_load = refl

load_order-status_example :
    (rows_loaded.id ≡ cancelled_row.aggregate_id)
    × (pending_events rows_loaded.base ≡ [])
    × (rows_loaded.version ≡ length (cancelled_row ∷ filled_row ∷ []) % 2 ^ 64)
    × (rows_loaded.status ≡ status_named (last_or cancelled_row (filled_row ∷ [])).event_type)
load_order-status_example = load_order-status sample_json cancelled_row (filled_row ∷ []) rows_load

load_order-IsReadable_example :
    ((agg : OrderAggregate sample) × (load_order_from_events sample_json
          (cancelled_row ∷ filled_row ∷ [])
        ≡ ok agg))
    ↔ ((cancelled_row ∷ filled_row ∷ [] ≢ [])
        × All (IsReadable (deserialize_order_event sample_json)) (cancelled_row ∷ filled_row ∷ []))
load_order-IsReadable_example = load_order-IsReadable sample_json (cancelled_row ∷ filled_row ∷ [])
