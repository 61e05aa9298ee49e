-- ===== src/Order/RoundTrip.antt =====
-- An order survives its stored form: `ToStoredEvents` and then `LoadOrderFromEvents`
-- (order_aggregate.go).
use kite_mcp_eventsourcing.Prelude.{String, ◌≡◌, refl, ◌≢◌, arith, List, All, [], ◌++◌}
use kite_mcp_eventsourcing.Prelude.Word.{Int64}
use kite_mcp_eventsourcing.Result.{ok}
use kite_mcp_eventsourcing.Domain.{Domain, DomainLaws}
use kite_mcp_eventsourcing.Domain.Values.{quantity_again, price_again, instrument_again}
use kite_mcp_eventsourcing.Event.{
  Event, OrderEvent, order_event, order_placed, order_modified, order_cancelled, order_filled,
}
use kite_mcp_eventsourcing.Payload.{Json, JsonLaws}
use kite_mcp_eventsourcing.Stored.{StoredEvent}
use kite_mcp_eventsourcing.Stored.RoundTrip.{IsStorable, IsNumbered}
use kite_mcp_eventsourcing.Order.History.{run_order, continue_order}
use kite_mcp_eventsourcing.Aggregate.{aggregate_id, pending_events}
use kite_mcp_eventsourcing.Aggregate.Persistence.{IsFresh, load-calls, resume-calls}
use kite_mcp_eventsourcing.Order.Root.{order_emitter, order_laws, id-emit}
use kite_mcp_eventsourcing.Order.{
  OrderAggregate, aggregate_type, apply, clear_pending, new_order_aggregate,
}
use kite_mcp_eventsourcing.Order.Lifecycle.{Command, execute_order-Called, IsLegal}
use kite_mcp_eventsourcing.Order.Storage.{
  to_stored_events, load_order_from_events, deserialize_order_event, convert, event_type,
  occurred_at, stored_row, placed_payload, modified_payload, filled_payload, marshal_event,
}

module _ {d : Domain} (laws : DomainLaws d) {json : Json d} {IsEncodable : d.Float → Type 0}
    (encodes : JsonLaws json IsEncodable) where
  open d use {amount}

  -- the prices in an event can be written as JSON
  abbrev pub IsEncodableEvent : Event d → Type 0
  IsEncodableEvent (order_event (order_placed e)) = IsEncodable (amount e.price)
  IsEncodableEvent (order_event (order_modified e)) = IsEncodable (amount e.new_price)
  IsEncodableEvent (order_event (order_filled e)) = IsEncodable (amount e.filled_price)
  IsEncodableEvent _ = Unit

  -- Each legal event of an order is read back from its row.
  IsLegal-IsStorable :
      (agg o : OrderAggregate d) (e : OrderEvent d)
      → o.id ≡ agg.id
      → IsLegal d o e
      → IsEncodableEvent (order_event e)
      → IsStorable {A = OrderAggregate d} agg.id aggregate_type
          (convert json agg)
          (deserialize_order_event json)
          apply
          (order_event e)
  unfolding convert deserialize_order_event marshal_event aggregate_id event_type occurred_at
  IsLegal-IsStorable agg o (order_placed e) same (_, id, _, instrument, quantity, price) enc seq =
      let (b, written, back) = encodes.placed (placed_payload e) enc in
      (
        stored_row agg (order_placed e) seq b,
        rw written,
        rw back (
            ground (
              arith,
              instrument_again laws _ instrument,
              quantity_again laws _ quantity,
              price_again laws _ price,
            )),
        refl,
        refl,
        refl,
      )
  IsLegal-IsStorable agg o (order_modified e) same (_, id, quantity, price) enc seq =
      let (b, written, back) = encodes.modified (modified_payload e) enc in
      (
        stored_row agg (order_modified e) seq b,
        rw written,
        rw back (ground (arith, quantity_again laws _ quantity, price_again laws _ price)),
        refl,
        refl,
        refl,
      )
  IsLegal-IsStorable agg o (order_cancelled e) same (_, id) enc seq =
      let (b, written, back) = encodes.cancelled (record { reason = "" }) in
      (stored_row agg (order_cancelled e) seq b, rw written, ground arith, refl, refl, refl)
  IsLegal-IsStorable agg o (order_filled e) same (_, id, price, quantity) enc seq =
      let (b, written, back) = encodes.filled (filled_payload e) enc in
      (
        stored_row agg (order_filled e) seq b,
        rw written,
        rw back (ground (arith, quantity_again laws _ quantity, price_again laws _ price)),
        refl,
        refl,
        refl,
      )

  order-IsFresh : IsFresh (order_emitter d) (new_order_aggregate d)
  unfolding new_order_aggregate aggregate_id pending_events clear_pending
  order-IsFresh = record {
    id-fresh = λ id. refl;
    pending-fresh = λ id. refl;
    clear-fresh = λ id. refl;
    clear-clear = λ o. refl;
    id-emit = λ o e. id-emit d o (order_event e);
  }

  -- For domain values that keep what they are built from and a JSON that reads back what it wrote:
  -- after any calls on a new order that leave events pending, all of whose prices can be written as
  -- JSON, `ToStoredEvents` succeeds for any first sequence number, numbers the rows from it on
  -- under the order's id, and `LoadOrderFromEvents` makes of them the order with nothing pending.
  pub load-to_stored_events :
      (id : String) (cs : List (Command d)) (start : Int64)
      → All IsEncodableEvent (pending_events (run_order id cs).base)
      → pending_events (run_order id cs).base ≢ []
      → (stored : List (StoredEvent d)) × (to_stored_events json (run_order id cs) start
          ≡ ok stored)
        × IsNumbered (run_order id cs).id aggregate_type start 0 stored
        × (load_order_from_events json stored ≡ ok (clear_pending (run_order id cs)))
  unfolding to_stored_events load_order_from_events aggregate_id
  load-to_stored_events id cs start enc some_event =
      load-calls (order_emitter d) execute_order-Called (new_order_aggregate d) order-IsFresh
        IsEncodableEvent aggregate_type (convert json) (deserialize_order_event json)
        IsLegal-IsStorable "eventsourcing: no events to load order from" id cs start enc some_event

  -- The same for an order that was loaded, and on which more is called.
  pub load_order-continue_order :
      (old : List (StoredEvent d)) (o : OrderAggregate d) (cs : List (Command d)) (start : Int64)
      → load_order_from_events json old ≡ ok o
      → All IsEncodableEvent (pending_events (continue_order o cs).base)
      → (stored : List (StoredEvent d)) × (to_stored_events json (continue_order o cs) start
          ≡ ok stored)
        × IsNumbered o.id aggregate_type start 0 stored
        × (load_order_from_events json (old ++ stored) ≡ ok (clear_pending (continue_order o cs)))
  unfolding to_stored_events load_order_from_events aggregate_id
  load_order-continue_order old o cs start loaded enc =
      resume-calls (order_emitter d) execute_order-Called (new_order_aggregate d) order-IsFresh
        IsEncodableEvent aggregate_type (convert json) (deserialize_order_event json)
        IsLegal-IsStorable (order_laws d) "eventsourcing: no events to load order from" old o cs
        start loaded enc
