-- ===== src/Alert/Load.antt =====
-- What `LoadAlertFromEvents` makes of stored events (alert_aggregate.go).
use kite_mcp_eventsourcing.Prelude.{
  String, ◌≡◌, ◌≢◌, ◌↔◌, All, refl, ◌==◌, ◌%◌, ◌^◌, List, [], ◌∷◌, length, arith, if◌then◌else◌,
}
use kite_mcp_eventsourcing.Result.{ok}
use kite_mcp_eventsourcing.Domain.{Domain}
use kite_mcp_eventsourcing.Event.{Event}
use kite_mcp_eventsourcing.Payload.{Json}
use kite_mcp_eventsourcing.Stored.{StoredEvent}
use kite_mcp_eventsourcing.Stored.Load.{IsReadable, last_or, load-IsReadable, load-root, load-last}
use kite_mcp_eventsourcing.Aggregate.{aggregate_id, pending_events}
use kite_mcp_eventsourcing.Alert.{
  AlertStatus, active, triggered, deleted, AlertAggregate, new_alert_aggregate, apply, apply_fields,
  clear_pending,
}
use kite_mcp_eventsourcing.Alert.Root.{alert_root, alert_laws}
use kite_mcp_eventsourcing.Alert.Storage.{
  deserialize_public, deserialize_alert_event, load_alert_from_events,
}

-- The status that the type of a public event stands for.
abbrev pub public_status : String → AlertStatus
public_status t =
    if t == "alert.created"
    then active
    else if t == "alert.triggered"
    then triggered
    else if t == "alert.deleted"
    then deleted
    else active

-- The status that an event type stands for, in either format.
abbrev pub status_named : String → AlertStatus
status_named t =
    if t == "AlertCreated"
    then active
    else if t == "AlertTriggered"
    then triggered
    else if t == "AlertDeleted"
    then deleted
    else public_status t

module _ {d : Domain} (json : Json d) where
  public-status :
      (a : AlertAggregate d) (s : StoredEvent d) (e : Event d)
      → deserialize_public json s ≡ ok e
      → (apply a e).status ≡ public_status s.event_type
  unfolding deserialize_public apply apply_fields
  public-status a s e h = ground arith

  deserialize-status :
      (a : AlertAggregate d) (s : StoredEvent d) (e : Event d)
      → deserialize_alert_event json s ≡ ok e
      → (apply a e).status ≡ status_named s.event_type
  unfolding deserialize_alert_event apply apply_fields
  deserialize-status a s e h = ground (arith, public-status a s e)

  -- An alert that is loaded has the id of the first row, no event pending, as many versions as
  -- there were rows, on a 64-bit counter, and the status that the type of the last row stands for,
  -- whatever the rows before said.
  pub load_alert-status :
      (first : StoredEvent d) (rest : List (StoredEvent d)) {a : AlertAggregate d}
      → load_alert_from_events json (first ∷ rest) ≡ ok a
      → (a.id ≡ first.aggregate_id)
        × (pending_events a.base ≡ [])
        × (a.version ≡ length (first ∷ rest) % 2 ^ 64)
        × (a.status ≡ status_named (last_or first rest).event_type)
  unfolding load_alert_from_events aggregate_id new_alert_aggregate clear_pending
  load_alert-status first rest h =
      let (id, pending, version) =
        load-root (alert_root d) (alert_laws d) (new_alert_aggregate d) (λ id. refl) (λ id. refl)
          "eventsourcing: no events to load alert from" (deserialize_alert_event json) first rest
          h in
      (
        id,
        pending,
        version,
        load-last (alert_root d) (alert_laws d) (new_alert_aggregate d) (λ id. refl) (λ id. refl)
            "eventsourcing: no events to load alert from" (deserialize_alert_event json)
            (λ s a. a.status ≡ status_named s.event_type) deserialize-status (λ a s p. p) first rest
            h,
      )

  -- Loading an alert succeeds exactly if there is a row and every row can be deserialized: no rows,
  -- or one row that cannot be, make it an error.
  pub load_alert-IsReadable :
      (rows : List (StoredEvent d))
      → ((agg : AlertAggregate d) × (load_alert_from_events json rows ≡ ok agg))
        ↔ ((rows ≢ []) × All (IsReadable (deserialize_alert_event json)) rows)
  unfolding load_alert_from_events new_alert_aggregate aggregate_id
  load_alert-IsReadable =
      load-IsReadable (alert_root d) (alert_laws d) (new_alert_aggregate d) (λ id. refl)
        (λ id. refl) "eventsourcing: no events to load alert from" (deserialize_alert_event json)
