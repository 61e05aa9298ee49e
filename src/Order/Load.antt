-- ===== src/Order/Load.antt =====
-- What `LoadOrderFromEvents` makes of stored events (order_aggregate.go).
use kite_mcp_eventsourcing.Prelude.{
  String, ◌≡◌, ◌≢◌, ◌↔◌, All, refl, ◌==◌, ◌%◌, ◌^◌, List, [], ◌∷◌, length, arith, if◌then◌else◌,
}
use kite_mcp_eventsourcing.Result.{ok}
use kite_mcp_eventsourcing.Domain.{Domain}
use kite_mcp_eventsourcing.Event.{Event}
use kite_mcp_eventsourcing.Payload.{Json}
use kite_mcp_eventsourcing.Stored.{StoredEvent}
use kite_mcp_eventsourcing.Stored.Load.{IsReadable, last_or, load-IsReadable, load-root, load-last}
use kite_mcp_eventsourcing.Aggregate.{aggregate_id, pending_events}
use kite_mcp_eventsourcing.Order.{
  OrderStatus, new, placed, modified, filled, cancelled, OrderAggregate, new_order_aggregate, apply,
  apply_fields, clear_pending,
}
use kite_mcp_eventsourcing.Order.Root.{order_root, order_laws}
use kite_mcp_eventsourcing.Order.Storage.{
  deserialize_public, deserialize_order_event, load_order_from_events,
}

-- The status that the type of a public event stands for.
abbrev pub public_status : String → OrderStatus
public_status t =
    if t == "order.placed"
    then placed
    else if t == "order.modified"
    then modified
    else if t == "order.cancelled"
    then cancelled
    else if t == "order.filled"
    then filled
    else new

-- The status that an event type stands for, in either format.
abbrev pub status_named : String → OrderStatus
status_named t =
    if t == "OrderPlaced"
    then placed
    else if t == "OrderModified"
    then modified
    else if t == "OrderCancelled"
    then cancelled
    else if t == "OrderFilled"
    then filled
    else public_status t

module _ {d : Domain} (json : Json d) where
  public-status :
      (o : OrderAggregate d) (s : StoredEvent d) (e : Event d)
      → deserialize_public json s ≡ ok e
      → (apply o e).status ≡ public_status s.event_type
  unfolding deserialize_public apply apply_fields
  public-status o s e h = ground arith

  deserialize-status :
      (o : OrderAggregate d) (s : StoredEvent d) (e : Event d)
      → deserialize_order_event json s ≡ ok e
      → (apply o e).status ≡ status_named s.event_type
  unfolding deserialize_order_event apply apply_fields
  deserialize-status o s e h = ground (arith, public-status o s e)

  -- An order that is loaded has the id of the first row, no event pending, as many versions as
  -- there were rows, on a 64-bit counter, and the status that the type of the last row stands for,
  -- whatever the rows before said.
  pub load_order-status :
      (first : StoredEvent d) (rest : List (StoredEvent d)) {o : OrderAggregate d}
      → load_order_from_events json (first ∷ rest) ≡ ok o
      → (o.id ≡ first.aggregate_id)
        × (pending_events o.base ≡ [])
        × (o.version ≡ length (first ∷ rest) % 2 ^ 64)
        × (o.status ≡ status_named (last_or first rest).event_type)
  unfolding load_order_from_events aggregate_id new_order_aggregate clear_pending
  load_order-status first rest h =
      let (id, pending, version) =
        load-root (order_root d) (order_laws d) (new_order_aggregate d) (λ id. refl) (λ id. refl)
          "eventsourcing: no events to load order from" (deserialize_order_event json) first rest
          h in
      (
        id,
        pending,
        version,
        load-last (order_root d) (order_laws d) (new_order_aggregate d) (λ id. refl) (λ id. refl)
            "eventsourcing: no events to load order from" (deserialize_order_event json)
            (λ s o. o.status ≡ status_named s.event_type) deserialize-status (λ o s p. p) first rest
            h,
      )

  -- Loading an order succeeds exactly if there is a row and every row can be deserialized: no rows,
  -- or one row that cannot be, make it an error.
  pub load_order-IsReadable :
      (rows : List (StoredEvent d))
      → ((agg : OrderAggregate d) × (load_order_from_events json rows ≡ ok agg))
        ↔ ((rows ≢ []) × All (IsReadable (deserialize_order_event json)) rows)
  unfolding load_order_from_events new_order_aggregate aggregate_id
  load_order-IsReadable =
      load-IsReadable (order_root d) (order_laws d) (new_order_aggregate d) (λ id. refl)
        (λ id. refl) "eventsourcing: no events to load order from" (deserialize_order_event json)
