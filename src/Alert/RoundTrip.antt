-- ===== src/Alert/RoundTrip.antt =====
-- An alert survives its stored form: `ToAlertStoredEvents` and then `LoadAlertFromEvents`
-- (alert_aggregate.go).
use kite_mcp_eventsourcing.Prelude.{String, ◌≡◌, ◌≢◌, refl, arith, List, [], All}
use kite_mcp_eventsourcing.Prelude.Word.{Int64}
use kite_mcp_eventsourcing.Result.{ok}
use kite_mcp_eventsourcing.Domain.{Domain, DomainLaws}
use kite_mcp_eventsourcing.Domain.Values.{price_again, instrument_again}
use kite_mcp_eventsourcing.Event.{
  Event, AlertEvent, alert_event, alert_created, alert_triggered, alert_deleted,
}
use kite_mcp_eventsourcing.Payload.{Json, JsonLaws}
use kite_mcp_eventsourcing.Stored.{StoredEvent}
use kite_mcp_eventsourcing.Stored.RoundTrip.{IsStorable, IsNumbered}
use kite_mcp_eventsourcing.Aggregate.{aggregate_id, pending_events}
use kite_mcp_eventsourcing.Aggregate.Persistence.{load-calls}
use kite_mcp_eventsourcing.Alert.{
  AlertAggregate, aggregate_type, apply, clear_pending, new_alert_aggregate,
}
use kite_mcp_eventsourcing.Alert.Root.{alert_emitter, alert-IsFresh}
use kite_mcp_eventsourcing.Alert.Lifecycle.{Command, execute_alert-Called, IsLegal, run_alert}
use kite_mcp_eventsourcing.Alert.Storage.{
  to_alert_stored_events, load_alert_from_events, deserialize_alert_event, convert, event_type,
  occurred_at, stored_row, created_payload, triggered_payload, marshal_event,
}

module _ {d : Domain} (laws : DomainLaws d) {json : Json d} {IsEncodable : d.Float → Type 0}
    (encodes : JsonLaws json IsEncodable) where
  open d use {amount}

  -- the prices in an event can be written as JSON
  abbrev pub IsEncodableEvent : Event d → Type 0
  IsEncodableEvent (alert_event (alert_created e)) = IsEncodable (amount e.target_price)
  IsEncodableEvent (alert_event (alert_triggered e)) = IsEncodable e.current_price
  IsEncodableEvent _ = Unit

  -- Each legal event of an alert is read back from its row.
  IsLegal-IsStorable :
      (agg a : AlertAggregate d) (e : AlertEvent d)
      → a.id ≡ agg.id
      → IsLegal d a e
      → IsEncodableEvent (alert_event e)
      → IsStorable {A = AlertAggregate d} agg.id aggregate_type
          (convert json agg)
          (deserialize_alert_event json)
          apply
          (alert_event e)
  unfolding convert deserialize_alert_event marshal_event aggregate_id event_type occurred_at
  IsLegal-IsStorable agg a (alert_created e) same (_, id, _, instrument, price) enc seq =
      let (b, written, back) = encodes.created (created_payload e) enc in
      (
        stored_row agg (alert_created e) seq b,
        rw written,
        rw back (ground (arith, instrument_again laws _ instrument, price_again laws _ price)),
        refl,
        refl,
        refl,
      )
  IsLegal-IsStorable agg a (alert_triggered e) same (_, id) enc seq =
      let (b, written, back) = encodes.triggered (triggered_payload e) enc in
      (
        stored_row agg (alert_triggered e) seq b,
        rw written,
        rw back (ground arith),
        refl,
        refl,
        refl,
      )
  IsLegal-IsStorable agg a (alert_deleted e) same (_, id) enc seq =
      let (b, written, back) = encodes.deleted tt in
      (stored_row agg (alert_deleted e) seq b, rw written, ground arith, refl, refl, refl)

  -- For domain values that keep what they are built from and a JSON that reads back what it wrote:
  -- after any calls on a new alert that leave events pending, all of whose prices can be written as
  -- JSON, `ToAlertStoredEvents` succeeds for any first sequence number, numbers the rows from it on
  -- under the alert's id, and `LoadAlertFromEvents` makes of them the alert with nothing pending.
  pub load-to_alert_stored_events :
      (id : String) (cs : List (Command d)) (start : Int64)
      → All IsEncodableEvent (pending_events (run_alert id cs).base)
      → pending_events (run_alert id cs).base ≢ []
      → (stored : List (StoredEvent d)) × (to_alert_stored_events json (run_alert id cs) start
          ≡ ok stored)
        × IsNumbered (run_alert id cs).id aggregate_type start 0 stored
        × (load_alert_from_events json stored ≡ ok (clear_pending (run_alert id cs)))
  unfolding to_alert_stored_events load_alert_from_events aggregate_id
  load-to_alert_stored_events id cs start enc some_event =
      load-calls (alert_emitter d) execute_alert-Called (new_alert_aggregate d) (alert-IsFresh d)
        IsEncodableEvent aggregate_type (convert json) (deserialize_alert_event json)
        IsLegal-IsStorable "eventsourcing: no events to load alert from" id cs start enc some_event
