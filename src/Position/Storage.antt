-- ===== src/Position/Storage.antt =====
-- position_aggregate.go: `deserializePositionEvent`, `LoadPositionFromEvents` and
-- `ToPositionStoredEvents`.
use kite_mcp_eventsourcing.Prelude.{String, List, ◌==◌, if◌then◌else◌}
use kite_mcp_eventsourcing.Prelude.Word.{Int64}
use kite_mcp_eventsourcing.Result.{Result, ok, err, message, formatted, ◌>>=◌}
use kite_mcp_eventsourcing.Domain.{Domain}
use kite_mcp_eventsourcing.Event.{
  Event, PositionEvent, PositionOpened, PositionClosed, position_event, position_opened,
  position_closed, position_opened_event, position_closed_event,
}
use kite_mcp_eventsourcing.Payload.{
  Json, PositionOpenedPayload, PositionClosedPayload, marshal_payload,
}
use kite_mcp_eventsourcing.Stored.{StoredEvent, load_from_events, store_pending}
use kite_mcp_eventsourcing.Aggregate.{aggregate_id, pending_events}
use kite_mcp_eventsourcing.Position.{
  PositionAggregate, new_position_aggregate, aggregate_type, apply, clear_pending,
}

module _ {d : Domain} where
  open d use {Time, Bytes, exchange, tradingsymbol, quantity_int, amount}

  -- the methods `EventType` of the private events
  unfoldable pub event_type : PositionEvent d → String
  event_type (position_opened e) = "PositionOpened"
  event_type (position_closed e) = "PositionClosed"

  -- the methods `OccurredAt` of the private events
  unfoldable pub occurred_at : PositionEvent d → Time
  occurred_at (position_opened e) = e.timestamp
  occurred_at (position_closed e) = e.timestamp

  -- the payload literals of `ToPositionStoredEvents`
  abbrev pub opened_payload : PositionOpened d → PositionOpenedPayload d
  opened_payload e = record {
    email = e.email;
    symbol = tradingsymbol e.instrument;
    exchange = exchange e.instrument;
    transaction_type = e.transaction_type;
    quantity = quantity_int e.quantity;
    avg_price = amount e.avg_price;
  }

  abbrev pub closed_payload : PositionClosed d → PositionClosedPayload
  closed_payload e = record {
    close_order_id = e.close_order_id;
    transaction_type = e.transaction_type;
  }

  -- the `StoredEvent` literal of `ToPositionStoredEvents`
  abbrev pub stored_row : PositionAggregate d → PositionEvent d → Int64 → Bytes → StoredEvent d
  stored_row agg event sequence payload = record {
    id = "";
    aggregate_id = aggregate_id agg.base;
    aggregate_type = aggregate_type;
    event_type = event_type event;
    payload = payload;
    occurred_at = occurred_at event;
    sequence = sequence;
    email_hash = "";
  }

module _ {d : Domain} (json : Json d) where
  open d use {Bytes, new_quantity, new_inr, new_instrument_key}

  -- the case "PositionOpened"
  deserialize_opened : StoredEvent d → Result (Event d)
  deserialize_opened stored = do
    p ← json.position_opened.unmarshal stored.payload
    ok (
        position_event (
          position_opened (record {
            position_id = stored.aggregate_id;
            email = p.email;
            instrument = new_instrument_key p.exchange p.symbol;
            transaction_type = p.transaction_type;
            quantity = (new_quantity p.quantity).0;
            avg_price = new_inr p.avg_price;
            timestamp = stored.occurred_at;
          })))

  -- the case "PositionClosed"
  deserialize_closed : StoredEvent d → Result (Event d)
  deserialize_closed stored = do
    p ← json.position_closed.unmarshal stored.payload
    ok (
        position_event (
          position_closed (record {
            position_id = stored.aggregate_id;
            close_order_id = p.close_order_id;
            transaction_type = p.transaction_type;
            timestamp = stored.occurred_at;
          })))

  -- the cases of the public events, and the default
  unfoldable pub deserialize_public : StoredEvent d → Result (Event d)
  deserialize_public stored =
      if stored.event_type == "position.opened"
      then (do
        e ← json.position_opened_event.unmarshal stored.payload
        ok (position_opened_event e))
      else if stored.event_type == "position.closed"
      then (do
        e ← json.position_closed_event.unmarshal stored.payload
        ok (position_closed_event e))
      else err (formatted "unknown position event type: %s" stored.event_type)

  unfoldable pub deserialize_position_event : StoredEvent d → Result (Event d)
  unfolding deserialize_opened deserialize_closed
  deserialize_position_event stored =
      if stored.event_type == "PositionOpened"
      then deserialize_opened stored
      else if stored.event_type == "PositionClosed"
      then deserialize_closed stored
      else deserialize_public stored

  unfoldable pub load_position_from_events : List (StoredEvent d) → Result (PositionAggregate d)
  load_position_from_events =
      load_from_events "eventsourcing: no events to load position from" deserialize_position_event
        apply (new_position_aggregate d) clear_pending

  -- the payload of one private event, by `MarshalPayload`
  unfoldable pub marshal_event : PositionEvent d → Result Bytes
  unfolding marshal_payload
  marshal_event (position_opened e) = marshal_payload json.position_opened (opened_payload e)
  marshal_event (position_closed e) = marshal_payload json.position_closed (closed_payload e)

  -- One round of the loop. Any event but the private ones of a position is refused; the printed Go
  -- type of the refused event is left out of the message.
  unfoldable pub convert : PositionAggregate d → Event d → Int64 → Result (StoredEvent d)
  convert agg (position_event event) sequence = do
    payload ← marshal_event event
    ok (stored_row agg event sequence payload)
  convert agg _ sequence = err (message "eventsourcing: unknown event type %T")

  unfoldable pub to_position_stored_events :
      PositionAggregate d → Int64 → Result (List (StoredEvent d))
  to_position_stored_events agg start =
      store_pending (convert agg) start 0 (pending_events agg.base)
