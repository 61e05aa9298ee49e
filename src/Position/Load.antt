-- ===== src/Position/Load.antt =====
-- What `LoadPositionFromEvents` makes of stored events (position_aggregate.go).
use kite_mcp_eventsourcing.Prelude.{
  String, ◌≡◌, ◌≢◌, ◌↔◌, All, refl, ◌==◌, ◌%◌, ◌^◌, List, [], ◌∷◌, length, arith, if◌then◌else◌,
}
use kite_mcp_eventsourcing.Result.{ok}
use kite_mcp_eventsourcing.Domain.{Domain}
use kite_mcp_eventsourcing.Event.{Event}
use kite_mcp_eventsourcing.Payload.{Json}
use kite_mcp_eventsourcing.Stored.{StoredEvent}
use kite_mcp_eventsourcing.Stored.Load.{IsReadable, last_or, load-IsReadable, load-root, load-last}
use kite_mcp_eventsourcing.Aggregate.{aggregate_id, pending_events}
use kite_mcp_eventsourcing.Position.{
  PositionStatus, opened, closed, PositionAggregate, new_position_aggregate, apply, apply_fields,
  clear_pending,
}
use kite_mcp_eventsourcing.Position.Root.{position_root, position_laws}
use kite_mcp_eventsourcing.Position.Storage.{
  deserialize_public, deserialize_position_event, load_position_from_events,
}

-- The status that the type of a public event stands for.
abbrev pub public_status : String → PositionStatus
public_status t =
    if t == "position.opened" then opened else if t == "position.closed" then closed else opened

-- The status that an event type stands for, in either format.
abbrev pub status_named : String → PositionStatus
status_named t =
    if t == "PositionOpened"
    then opened
    else if t == "PositionClosed"
    then closed
    else public_status t

module _ {d : Domain} (json : Json d) where
  public-status :
      (a : PositionAggregate d) (s : StoredEvent d) (e : Event d)
      → deserialize_public json s ≡ ok e
      → (apply a e).status ≡ public_status s.event_type
  unfolding deserialize_public apply apply_fields
  public-status a s e h = ground arith

  deserialize-status :
      (a : PositionAggregate d) (s : StoredEvent d) (e : Event d)
      → deserialize_position_event json s ≡ ok e
      → (apply a e).status ≡ status_named s.event_type
  unfolding deserialize_position_event apply apply_fields
  deserialize-status a s e h = ground (arith, public-status a s e)

  -- A position that is loaded has the id of the first row, no event pending, as many versions as
  -- there were rows, on a 64-bit counter, and the status that the type of the last row stands for,
  -- whatever the rows before said.
  pub load_position-status :
      (first : StoredEvent d) (rest : List (StoredEvent d)) {a : PositionAggregate d}
      → load_position_from_events json (first ∷ rest) ≡ ok a
      → (a.id ≡ first.aggregate_id)
        × (pending_events a.base ≡ [])
        × (a.version ≡ length (first ∷ rest) % 2 ^ 64)
        × (a.status ≡ status_named (last_or first rest).event_type)
  unfolding load_position_from_events aggregate_id new_position_aggregate clear_pending
  load_position-status first rest h =
      let (id, pending, version) =
        load-root (position_root d) (position_laws d) (new_position_aggregate d) (λ id. refl)
          (λ id. refl) "eventsourcing: no events to load position from"
          (deserialize_position_event json) first rest h in
      (
        id,
        pending,
        version,
        load-last (position_root d) (position_laws d) (new_position_aggregate d) (λ id. refl)
            (λ id. refl) "eventsourcing: no events to load position from"
            (deserialize_position_event json) (λ s a. a.status ≡ status_named s.event_type)
            deserialize-status (λ a s p. p) first rest h,
      )

  -- Loading a position succeeds exactly if there is a row and every row can be deserialized: no rows,
  -- or one row that cannot be, make it an error.
  pub load_position-IsReadable :
      (rows : List (StoredEvent d))
      → ((agg : PositionAggregate d) × (load_position_from_events json rows ≡ ok agg))
        ↔ ((rows ≢ []) × All (IsReadable (deserialize_position_event json)) rows)
  unfolding load_position_from_events new_position_aggregate aggregate_id
  load_position-IsReadable =
      load-IsReadable (position_root d) (position_laws d) (new_position_aggregate d) (λ id. refl)
        (λ id. refl) "eventsourcing: no events to load position from"
        (deserialize_position_event json)
