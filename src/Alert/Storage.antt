-- ===== src/Alert/Storage.antt =====
-- alert_aggregate.go: `deserializeAlertEvent`, `LoadAlertFromEvents` and `ToAlertStoredEvents`.
use kite_mcp_eventsourcing.Prelude.{String, List, ◌==◌, if◌then◌else◌}
use kite_mcp_eventsourcing.Prelude.Word.{Int64}
use kite_mcp_eventsourcing.Result.{Result, ok, err, message, formatted, ◌>>=◌}
use kite_mcp_eventsourcing.Domain.{Domain}
use kite_mcp_eventsourcing.Event.{
  Event, AlertEvent, AlertCreated, AlertTriggered, alert_event, alert_created, alert_triggered,
  alert_deleted, alert_created_event, alert_triggered_event, alert_deleted_event,
}
use kite_mcp_eventsourcing.Payload.{
  Json, AlertCreatedPayload, AlertTriggeredPayload, marshal_payload,
}
use kite_mcp_eventsourcing.Stored.{StoredEvent, load_from_events, store_pending}
use kite_mcp_eventsourcing.Aggregate.{aggregate_id, pending_events}
use kite_mcp_eventsourcing.Alert.{
  AlertAggregate, new_alert_aggregate, aggregate_type, apply, clear_pending,
}

module _ {d : Domain} where
  open d use {Time, Bytes, exchange, tradingsymbol, amount}

  -- the methods `EventType` of the private events
  unfoldable pub event_type : AlertEvent d → String
  event_type (alert_created e) = "AlertCreated"
  event_type (alert_triggered e) = "AlertTriggered"
  event_type (alert_deleted e) = "AlertDeleted"

  -- the methods `OccurredAt` of the private events
  unfoldable pub occurred_at : AlertEvent d → Time
  occurred_at (alert_created e) = e.timestamp
  occurred_at (alert_triggered e) = e.timestamp
  occurred_at (alert_deleted e) = e.timestamp

  -- the payload literals of `ToAlertStoredEvents`
  abbrev pub created_payload : AlertCreated d → AlertCreatedPayload d
  created_payload e = record {
    email = e.email;
    symbol = tradingsymbol e.instrument;
    exchange = exchange e.instrument;
    target_price = amount e.target_price;
    direction = e.direction;
  }

  abbrev pub triggered_payload : AlertTriggered d → AlertTriggeredPayload d
  triggered_payload e = record { current_price = e.current_price }

  -- the `StoredEvent` literal of `ToAlertStoredEvents`
  abbrev pub stored_row : AlertAggregate d → AlertEvent d → Int64 → Bytes → StoredEvent d
  stored_row agg event sequence payload = record {
    id = "";
    aggregate_id = aggregate_id agg.base;
    aggregate_type = aggregate_type;
    event_type = event_type event;
    payload = payload;
    occurred_at = occurred_at event;
    sequence = sequence;
    email_hash = "";
  }

module _ {d : Domain} (json : Json d) where
  open d use {Bytes, new_inr, new_instrument_key}

  -- the case "AlertCreated"
  deserialize_created : StoredEvent d → Result (Event d)
  deserialize_created stored = do
    p ← json.alert_created.unmarshal stored.payload
    ok (
        alert_event (
          alert_created (record {
            alert_id = stored.aggregate_id;
            email = p.email;
            instrument = new_instrument_key p.exchange p.symbol;
            target_price = new_inr p.target_price;
            direction = p.direction;
            timestamp = stored.occurred_at;
          })))

  -- the case "AlertTriggered"
  deserialize_triggered : StoredEvent d → Result (Event d)
  deserialize_triggered stored = do
    p ← json.alert_triggered.unmarshal stored.payload
    ok (
        alert_event (
          alert_triggered (record {
            alert_id = stored.aggregate_id;
            current_price = p.current_price;
            timestamp = stored.occurred_at;
          })))

  -- the cases of the public events, and the default
  unfoldable pub deserialize_public : StoredEvent d → Result (Event d)
  deserialize_public stored =
      if stored.event_type == "alert.created"
      then (do e ← json.alert_created_event.unmarshal stored.payload; ok (alert_created_event e))
      else if stored.event_type == "alert.triggered"
      then (do
        e ← json.alert_triggered_event.unmarshal stored.payload
        ok (alert_triggered_event e))
      else if stored.event_type == "alert.deleted"
      then (do e ← json.alert_deleted_event.unmarshal stored.payload; ok (alert_deleted_event e))
      else err (formatted "unknown alert event type: %s" stored.event_type)

  unfoldable pub deserialize_alert_event : StoredEvent d → Result (Event d)
  unfolding deserialize_created deserialize_triggered
  deserialize_alert_event stored =
      if stored.event_type == "AlertCreated"
      then deserialize_created stored
      else if stored.event_type == "AlertTriggered"
      then deserialize_triggered stored
      else if stored.event_type == "AlertDeleted"
      then ok (
          alert_event (
            alert_deleted
              (record { alert_id = stored.aggregate_id; timestamp = stored.occurred_at })))
      else deserialize_public stored

  unfoldable pub load_alert_from_events : List (StoredEvent d) → Result (AlertAggregate d)
  load_alert_from_events =
      load_from_events "eventsourcing: no events to load alert from" deserialize_alert_event apply
        (new_alert_aggregate d) clear_pending

  -- the payload of one private event, by `MarshalPayload`
  unfoldable pub marshal_event : AlertEvent d → Result Bytes
  unfolding marshal_payload
  marshal_event (alert_created e) = marshal_payload json.alert_created (created_payload e)
  marshal_event (alert_triggered e) = marshal_payload json.alert_triggered (triggered_payload e)
  marshal_event (alert_deleted e) = marshal_payload json.alert_deleted tt

  -- One round of the loop. Any event but the private ones of an alert is refused; the printed Go
  -- type of the refused event is left out of the message.
  unfoldable pub convert : AlertAggregate d → Event d → Int64 → Result (StoredEvent d)
  convert agg (alert_event event) sequence = do
    payload ← marshal_event event
    ok (stored_row agg event sequence payload)
  convert agg _ sequence = err (message "eventsourcing: unknown event type %T")

  unfoldable pub to_alert_stored_events : AlertAggregate d → Int64 → Result (List (StoredEvent d))
  to_alert_stored_events agg start = store_pending (convert agg) start 0 (pending_events agg.base)
