-- ===== src/Tests/PositionTests.antt =====
-- Runs of position_aggregate.go, and its theorems at concrete inputs.
use kite_mcp_eventsourcing.Prelude.{
  ◌≢◌, All, ◌≡◌, ◌%◌, ◌^◌, ◌↔◌, refl, none, some, List, [], ◌∷◌, map, length, arith,
}
use kite_mcp_eventsourcing.Result.{ok, on_error, return_if}
use kite_mcp_eventsourcing.Event.{
  PositionEvent, position_event, position_opened, position_closed_event,
}
use kite_mcp_eventsourcing.Aggregate.{pending_events, increment_version, clear_pending_events}
use kite_mcp_eventsourcing.Aggregate.Laws.{Called, calls, replay, walk}
use kite_mcp_eventsourcing.Stored.{StoredEvent, replay_stored, load_from_events}
use kite_mcp_eventsourcing.Stored.RoundTrip.{IsNumbered}
use kite_mcp_eventsourcing.Stored.Load.{last_or, IsReadable}
use kite_mcp_eventsourcing.Position.{
  closed, PositionAggregate, new_position_aggregate, aggregate_type, apply, apply_fields, emit,
  clear_pending, can_close, open_position, close_position,
}
use kite_mcp_eventsourcing.Position.Root.{position_root, position_emitter}
use kite_mcp_eventsourcing.Position.Lifecycle.{
  Command, open_command, close_command, execute_position, execute_position-Called, IsLegal,
  run_position,
}
use kite_mcp_eventsourcing.Position.History.{
  IsAdmissible, execute_position-IsAdmissible, next_stage, stage_of, walk-run_position,
  replay-run_position,
}
use kite_mcp_eventsourcing.Position.Storage.{
  to_position_stored_events, load_position_from_events, deserialize_position_event,
  deserialize_public,
}
use kite_mcp_eventsourcing.Position.RoundTrip.{load-to_position_stored_events}
use kite_mcp_eventsourcing.Position.Load.{
  status_named, load_position-IsReadable, load_position-status,
}
use kite_mcp_eventsourcing.Tests.{sample, sample_laws, text, number}
use kite_mcp_eventsourcing.Tests.SampleJson.{sample_json, sample_json_laws}

program : Unit {0}
unfolding open_position close_position can_close execute_position calls on_error return_if
    new_position_aggregate apply apply_fields emit pending_events clear_pending
program = tt

-- No quantity (refused), opened, closed, closed again (refused).
abbrev life : List (Command sample)
life =
    open_command "u@example.com" "INFY" "NSE" "BUY" 0 1500 1
    ∷ open_command "u@example.com" "INFY" "NSE" "BUY" 10 1500 2
    ∷ close_command "ORD-2" "SELL" 3
    ∷ close_command "ORD-3" "SELL" 4
    ∷ []

life_result :
    let p = run_position "POS-1" life in
    (p.status ≡ closed) × (p.version ≡ 2) × (p.quantity ≡ 0) × (p.opened_at ≡ 2) × (p.closed_at ≡ 3)
unfolding program
life_result = (refl, refl, refl, refl, refl)

execute_position-Called_example :
    Called
      (position_emitter sample)
      (IsLegal sample)
      (run_position "POS-1" life)
      (execute_position (run_position "POS-1" life) (close_command "ORD-4" "SELL" 5))
execute_position-Called_example =
    execute_position-Called (run_position "POS-1" life) (close_command "ORD-4" "SELL" 5)

execute_position-IsAdmissible_example :
    ((execute_position (run_position "POS-1" life) (close_command "ORD-4" "SELL" 5)).1 ≡ none)
    ↔ IsAdmissible (run_position "POS-1" life) (close_command "ORD-4" "SELL" 5)
execute_position-IsAdmissible_example =
    execute_position-IsAdmissible (run_position "POS-1" life) (close_command "ORD-4" "SELL" 5)

walk-run_position_example :
    (es : List (PositionEvent sample)) × (pending_events (run_position "POS-1" life).base
      ≡ map position_event es)
    × (walk next_stage (some none) es
        ≡ some (stage_of (run_position "POS-1" life).version (run_position "POS-1" life).status))
unfolding program
walk-run_position_example = walk-run_position "POS-1" life (omega arith)

replay-run_position_example :
    replay
      (position_root sample)
      (new_position_aggregate sample "POS-1")
      (pending_events (run_position "POS-1" life).base)
    ≡ clear_pending (run_position "POS-1" life)
replay-run_position_example = replay-run_position "POS-1" life

load-to_position_stored_events_example :
    (stored : List (StoredEvent sample)) × (to_position_stored_events sample_json
        (run_position "POS-1" life)
        1
      ≡ ok stored)
    × IsNumbered (run_position "POS-1" life).id aggregate_type 1 0 stored
    × (load_position_from_events sample_json stored
        ≡ ok (clear_pending (run_position "POS-1" life)))
unfolding program
load-to_position_stored_events_example =
    load-to_position_stored_events sample_laws sample_json_laws "POS-1" life 1 (tt, (tt, tt))
      (λ e. cc)

-- Rows of both formats: a private opening and then a public closing.
abbrev opened_row : StoredEvent sample
opened_row = record {
  id = "p1";
  aggregate_id = "POS-2";
  aggregate_type = "Position";
  event_type = "PositionOpened";
  payload =
      text "u@example.com" ∷ text "INFY" ∷ text "NSE" ∷ text "BUY" ∷ number 10 ∷ number 1500 ∷ [];
  occurred_at = 3;
  sequence = 1;
  email_hash = "";
}

abbrev closed_row : StoredEvent sample
closed_row = record {
  id = "p2";
  aggregate_id = "POS-2";
  aggregate_type = "Position";
  event_type = "position.closed";
  payload = text "u@example.com" ∷ text "NSE" ∷ text "INFY" ∷ text "CNC" ∷ number 4 ∷ [];
  occurred_at = 4;
  sequence = 2;
  email_hash = "";
}

abbrev rows_loaded : PositionAggregate sample
rows_loaded =
    apply
      (apply (new_position_aggregate sample "POS-2") (
        position_event (
          position_opened (record {
            position_id = "POS-2";
            email = "u@example.com";
            instrument = ("NSE", "INFY");
            transaction_type = "BUY";
            quantity = 10;
            avg_price = 1500;
            timestamp = 3;
          }))))
      (position_closed_event (record {
        email = "u@example.com";
        instrument = ("NSE", "INFY");
        product = "CNC";
        timestamp = 4;
      }))

rows_load : load_position_from_events sample_json (opened_row ∷ closed_row ∷ []) ≡ ok rows_loaded
unfolding program load_position_from_events load_from_events replay_stored
    deserialize_position_event deserialize_public clear_pending_events increment_version
rows_load = refl

load_position-status_example :
    (rows_loaded.id ≡ opened_row.aggregate_id)
    × (pending_events rows_loaded.base ≡ [])
    × (rows_loaded.version ≡ length (opened_row ∷ closed_row ∷ []) % 2 ^ 64)
    × (rows_loaded.status ≡ status_named (last_or opened_row (closed_row ∷ [])).event_type)
load_position-status_example =
    load_position-status sample_json opened_row (closed_row ∷ []) rows_load

load_position-IsReadable_example :
    ((agg : PositionAggregate sample) × (load_position_from_events sample_json
          (opened_row ∷ closed_row ∷ [])
        ≡ ok agg))
    ↔ ((opened_row ∷ closed_row ∷ [] ≢ [])
        × All (IsReadable (deserialize_position_event sample_json)) (opened_row ∷ closed_row ∷ []))
load_position-IsReadable_example =
    load_position-IsReadable sample_json (opened_row ∷ closed_row ∷ [])
