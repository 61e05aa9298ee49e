-- ===== src/Position/RoundTrip.antt =====
-- A position survives its stored form: `ToPositionStoredEvents` and then `LoadPositionFromEvents`
-- (position_aggregate.go).
use kite_mcp_eventsourcing.Prelude.{String, ◌≡◌, ◌≢◌, refl, arith, List, [], All}
use kite_mcp_eventsourcing.Prelude.Word.{Int64}
use kite_mcp_eventsourcing.Result.{ok}
use kite_mcp_eventsourcing.Domain.{Domain, DomainLaws}
use kite_mcp_eventsourcing.Domain.Values.{quantity_again, price_again, instrument_again}
use kite_mcp_eventsourcing.Event.{
  Event, PositionEvent, position_event, position_opened, position_closed,
}
use kite_mcp_eventsourcing.Payload.{Json, JsonLaws}
use kite_mcp_eventsourcing.Stored.{StoredEvent}
use kite_mcp_eventsourcing.Stored.RoundTrip.{IsStorable, IsNumbered}
use kite_mcp_eventsourcing.Aggregate.{aggregate_id, pending_events}
use kite_mcp_eventsourcing.Aggregate.Persistence.{load-calls}
use kite_mcp_eventsourcing.Position.{
  PositionAggregate, aggregate_type, apply, clear_pending, new_position_aggregate,
}
use kite_mcp_eventsourcing.Position.Root.{position_emitter, position-IsFresh}
use kite_mcp_eventsourcing.Position.Lifecycle.{
  Command, execute_position-Called, IsLegal, run_position,
}
use kite_mcp_eventsourcing.Position.Storage.{
  to_position_stored_events, load_position_from_events, deserialize_position_event, convert,
  event_type, occurred_at, stored_row, opened_payload, closed_payload, marshal_event,
}

module _ {d : Domain} (laws : DomainLaws d) {json : Json d} {IsEncodable : d.Float → Type 0}
    (encodes : JsonLaws json IsEncodable) where
  open d use {amount}

  -- the price in an event can be written as JSON
  abbrev pub IsEncodableEvent : Event d → Type 0
  IsEncodableEvent (position_event (position_opened e)) = IsEncodable (amount e.avg_price)
  IsEncodableEvent _ = Unit

  -- Each legal event of a position is read back from its row.
  IsLegal-IsStorable :
      (agg p : PositionAggregate d) (e : PositionEvent d)
      → p.id ≡ agg.id
      → IsLegal d p e
      → IsEncodableEvent (position_event e)
      → IsStorable {A = PositionAggregate d} agg.id aggregate_type
          (convert json agg)
          (deserialize_position_event json)
          apply
          (position_event e)
  unfolding convert deserialize_position_event marshal_event aggregate_id event_type occurred_at
  IsLegal-IsStorable agg p (position_opened e) same (_, id, _, instrument, quantity, price) enc
        seq =
      let (b, written, back) = encodes.opened (opened_payload e) enc in
      (
        stored_row agg (position_opened e) seq b,
        rw written,
        rw back (
            ground (
              arith,
              instrument_again laws _ instrument,
              quantity_again laws _ quantity,
              price_again laws _ price,
            )),
        refl,
        refl,
        refl,
      )
  IsLegal-IsStorable agg p (position_closed e) same (_, id) enc seq =
      let (b, written, back) = encodes.closed (closed_payload e) in
      (
        stored_row agg (position_closed e) seq b,
        rw written,
        rw back (ground arith),
        refl,
        refl,
        refl,
      )

  -- For domain values that keep what they are built from and a JSON that reads back what it wrote:
  -- after any calls on a new position that leave events pending, all of whose prices can be written
  -- as JSON, `ToPositionStoredEvents` succeeds for any first sequence number, numbers the rows from
  -- it on under the position's id, and `LoadPositionFromEvents` makes of them the position with
  -- nothing pending.
  pub load-to_position_stored_events :
      (id : String) (cs : List (Command d)) (start : Int64)
      → All IsEncodableEvent (pending_events (run_position id cs).base)
      → pending_events (run_position id cs).base ≢ []
      → (stored : List (StoredEvent d)) × (to_position_stored_events json (run_position id cs) start
          ≡ ok stored)
        × IsNumbered (run_position id cs).id aggregate_type start 0 stored
        × (load_position_from_events json stored ≡ ok (clear_pending (run_position id cs)))
  unfolding to_position_stored_events load_position_from_events aggregate_id
  load-to_position_stored_events id cs start enc some_event =
      load-calls (position_emitter d) execute_position-Called (new_position_aggregate d)
        (position-IsFresh d) IsEncodableEvent aggregate_type (convert json)
        (deserialize_position_event json) IsLegal-IsStorable
        "eventsourcing: no events to load position from" id cs start enc some_event
