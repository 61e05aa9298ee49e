-- ===== src/Order/Storage.antt =====
-- order_aggregate.go: `deserializeOrderEvent`, `LoadOrderFromEvents` and `ToStoredEvents`.
use kite_mcp_eventsourcing.Prelude.{String, List, ◌==◌, if◌then◌else◌}
use kite_mcp_eventsourcing.Prelude.Word.{Int64}
use kite_mcp_eventsourcing.Result.{Result, ok, err, message, formatted, ◌>>=◌}
use kite_mcp_eventsourcing.Domain.{Domain}
use kite_mcp_eventsourcing.Event.{
  Event, OrderEvent, OrderPlaced, OrderModified, OrderFilled, order_event, order_placed,
  order_modified, order_cancelled, order_filled, order_placed_event, order_modified_event,
  order_cancelled_event, order_filled_event,
}
use kite_mcp_eventsourcing.Payload.{
  Json, OrderPlacedPayload, OrderModifiedPayload, OrderFilledPayload, marshal_payload,
}
use kite_mcp_eventsourcing.Stored.{StoredEvent, load_from_events, store_pending}
use kite_mcp_eventsourcing.Aggregate.{aggregate_id, pending_events}
use kite_mcp_eventsourcing.Order.{
  OrderAggregate, new_order_aggregate, aggregate_type, apply, clear_pending,
}

module _ {d : Domain} where
  open d use {Time, Bytes, exchange, tradingsymbol, quantity_int, amount}

  -- the methods `EventType` of the private events
  unfoldable pub event_type : OrderEvent d → String
  event_type (order_placed e) = "OrderPlaced"
  event_type (order_modified e) = "OrderModified"
  event_type (order_cancelled e) = "OrderCancelled"
  event_type (order_filled e) = "OrderFilled"

  -- the methods `OccurredAt` of the private events
  unfoldable pub occurred_at : OrderEvent d → Time
  occurred_at (order_placed e) = e.timestamp
  occurred_at (order_modified e) = e.timestamp
  occurred_at (order_cancelled e) = e.timestamp
  occurred_at (order_filled e) = e.timestamp

  -- the payload literals of `ToStoredEvents`
  abbrev pub placed_payload : OrderPlaced d → OrderPlacedPayload d
  placed_payload e = record {
    email = e.email;
    exchange = exchange e.instrument;
    tradingsymbol = tradingsymbol e.instrument;
    transaction_type = e.transaction_type;
    order_type = e.order_type;
    product = e.product;
    quantity = quantity_int e.quantity;
    price = amount e.price;
  }

  abbrev pub modified_payload : OrderModified d → OrderModifiedPayload d
  modified_payload e = record {
    new_quantity = quantity_int e.new_quantity;
    new_price = amount e.new_price;
    new_order_type = e.new_order_type;
  }

  abbrev pub filled_payload : OrderFilled d → OrderFilledPayload d
  filled_payload e = record {
    filled_price = amount e.filled_price;
    filled_quantity = quantity_int e.filled_quantity;
  }

  -- the `StoredEvent` literal of `ToStoredEvents`
  abbrev pub stored_row : OrderAggregate d → OrderEvent d → Int64 → Bytes → StoredEvent d
  stored_row agg event sequence payload = record {
    id = "";
    aggregate_id = aggregate_id agg.base;
    aggregate_type = aggregate_type;
    event_type = event_type event;
    payload = payload;
    occurred_at = occurred_at event;
    sequence = sequence;
    email_hash = "";
  }

module _ {d : Domain} (json : Json d) where
  open d use {Bytes, new_quantity, new_inr, new_instrument_key}

  -- the case "OrderPlaced"
  deserialize_placed : StoredEvent d → Result (Event d)
  deserialize_placed stored = do
    p ← json.order_placed.unmarshal stored.payload
    ok (
        order_event (
          order_placed (record {
            order_id = stored.aggregate_id;
            email = p.email;
            instrument = new_instrument_key p.exchange p.tradingsymbol;
            transaction_type = p.transaction_type;
            order_type = p.order_type;
            product = p.product;
            quantity = (new_quantity p.quantity).0;
            price = new_inr p.price;
            timestamp = stored.occurred_at;
          })))

  -- the case "OrderModified"
  deserialize_modified : StoredEvent d → Result (Event d)
  deserialize_modified stored = do
    p ← json.order_modified.unmarshal stored.payload
    ok (
        order_event (
          order_modified (record {
            order_id = stored.aggregate_id;
            new_quantity = (new_quantity p.new_quantity).0;
            new_price = new_inr p.new_price;
            new_order_type = p.new_order_type;
            timestamp = stored.occurred_at;
          })))

  -- the case "OrderFilled"
  deserialize_filled : StoredEvent d → Result (Event d)
  deserialize_filled stored = do
    p ← json.order_filled.unmarshal stored.payload
    ok (
        order_event (
          order_filled (record {
            order_id = stored.aggregate_id;
            filled_price = new_inr p.filled_price;
            filled_quantity = (new_quantity p.filled_quantity).0;
            timestamp = stored.occurred_at;
          })))

  -- the cases of the public events, and the default
  unfoldable pub deserialize_public : StoredEvent d → Result (Event d)
  deserialize_public stored =
      if stored.event_type == "order.placed"
      then (do e ← json.order_placed_event.unmarshal stored.payload; ok (order_placed_event e))
      else if stored.event_type == "order.modified"
      then (do e ← json.order_modified_event.unmarshal stored.payload; ok (order_modified_event e))
      else if stored.event_type == "order.cancelled"
      then (do
        e ← json.order_cancelled_event.unmarshal stored.payload
        ok (order_cancelled_event e))
      else if stored.event_type == "order.filled"
      then (do e ← json.order_filled_event.unmarshal stored.payload; ok (order_filled_event e))
      else err (formatted "unknown order event type: %s" stored.event_type)

  unfoldable pub deserialize_order_event : StoredEvent d → Result (Event d)
  unfolding deserialize_placed deserialize_modified deserialize_filled
  deserialize_order_event stored =
      if stored.event_type == "OrderPlaced"
      then deserialize_placed stored
      else if stored.event_type == "OrderModified"
      then deserialize_modified stored
      else if stored.event_type == "OrderCancelled"
      then ok (
          order_event (
            order_cancelled
              (record { order_id = stored.aggregate_id; timestamp = stored.occurred_at })))
      else if stored.event_type == "OrderFilled"
      then deserialize_filled stored
      else deserialize_public stored

  unfoldable pub load_order_from_events : List (StoredEvent d) → Result (OrderAggregate d)
  load_order_from_events =
      load_from_events "eventsourcing: no events to load order from" deserialize_order_event apply
        (new_order_aggregate d) clear_pending

  -- the payload of one private event, by `MarshalPayload`
  unfoldable pub marshal_event : OrderEvent d → Result Bytes
  unfolding marshal_payload
  marshal_event (order_placed e) = marshal_payload json.order_placed (placed_payload e)
  marshal_event (order_modified e) = marshal_payload json.order_modified (modified_payload e)
  marshal_event (order_cancelled e) = marshal_payload json.order_cancelled (record { reason = "" })
  marshal_event (order_filled e) = marshal_payload json.order_filled (filled_payload e)

  -- One round of the loop. Any event but the private ones of an order is refused; the printed Go
  -- type of the refused event is left out of the message.
  unfoldable pub convert : OrderAggregate d → Event d → Int64 → Result (StoredEvent d)
  convert agg (order_event event) sequence = do
    payload ← marshal_event event
    ok (stored_row agg event sequence payload)
  convert agg _ sequence = err (message "eventsourcing: unknown event type %T")

  unfoldable pub to_stored_events : OrderAggregate d → Int64 → Result (List (StoredEvent d))
  to_stored_events agg start = store_pending (convert agg) start 0 (pending_events agg.base)
