-- ===== src/Session/Replay.antt =====
-- What `LoadSessionFromEvents` makes of stored events (session_aggregate.go).
use kite_mcp_eventsourcing.Prelude.{
  String, ◌≡◌, ◌≢◌, ◌↔◌, All, refl, ◌==◌, ◌%◌, ◌^◌, List, [], ◌∷◌, length, arith, if◌then◌else◌,
}
use kite_mcp_eventsourcing.Result.{ok}
use kite_mcp_eventsourcing.Domain.{Domain}
use kite_mcp_eventsourcing.Event.{Event, session_created_event}
use kite_mcp_eventsourcing.Payload.{Json}
use kite_mcp_eventsourcing.Stored.{StoredEvent}
use kite_mcp_eventsourcing.Stored.Load.{IsReadable, last_or, load-IsReadable, load-root, load-last}
use kite_mcp_eventsourcing.Aggregate.{AggregateRoot, BaseAggregate, aggregate_id, pending_events}
use kite_mcp_eventsourcing.Aggregate.Laws.{RootLaws}
use kite_mcp_eventsourcing.Session.{
  SessionStatus, unset, active, cleared, invalidated, SessionAggregate, aggregate_type,
  new_session_aggregate, apply, apply_fields, clear_pending, deserialize_session_event,
  load_session_from_events,
}

module _ (d : Domain) where
  abbrev pub session_root : AggregateRoot d (SessionAggregate d)
  session_root = record {
    root_id = λ a. aggregate_id a.base;
    root_type = λ a. aggregate_type;
    root_version = λ a. a.base.version;
    root_apply = apply;
    root_pending = λ a. pending_events a.base;
    root_clear = clear_pending;
  }

  base-apply_fields : (a : SessionAggregate d) (e : Event d) → (apply_fields a e).base ≡ a.base
  unfolding apply_fields
  base-apply_fields a (session_created_event e) = refl
  base-apply_fields a _ = refl

  apply_fields-base :
      (a : SessionAggregate d) (b : BaseAggregate d) (e : Event d)
      → apply_fields (record a { base = b }) e ≡ record (apply_fields a e) { base = b }
  unfolding apply_fields
  apply_fields-base a b (session_created_event e) = refl
  apply_fields-base a b _ = refl

  pub session_laws : RootLaws session_root
  unfolding aggregate_id pending_events clear_pending apply
  session_laws = record {
    version-apply = λ a e. rw base-apply_fields;
    id-apply = λ a e. rw base-apply_fields;
    pending-apply = λ a e. rw base-apply_fields;
    clear-apply =
        λ a e. rw (apply_fields-base a (record a.base { pending = [] }) e, base-apply_fields);
    pending-clear = λ a. refl;
    version-clear = λ a. refl;
    id-clear = λ a. refl;
  }

-- The status that an event type stands for.
abbrev pub status_named : String → SessionStatus
status_named t =
    if t == "session.created"
    then active
    else if t == "session.cleared"
    then cleared
    else if t == "session.invalidated"
    then invalidated
    else unset

module _ {d : Domain} (json : Json d) where
  deserialize-status :
      (a : SessionAggregate d) (s : StoredEvent d) (e : Event d)
      → deserialize_session_event json s ≡ ok e
      → (apply a e).status ≡ status_named s.event_type
  unfolding deserialize_session_event apply apply_fields
  deserialize-status a s e h = ground arith

  -- A session that is loaded has the id of the first row, no event pending, as many versions as
  -- there were rows, on a 64-bit counter, and the status that the type of the last row stands for,
  -- whatever the rows before said and whichever format its creation was stored in.
  pub load_session-status :
      (first : StoredEvent d) (rest : List (StoredEvent d)) {a : SessionAggregate d}
      → load_session_from_events json (first ∷ rest) ≡ ok a
      → (a.id ≡ first.aggregate_id)
        × (pending_events a.base ≡ [])
        × (a.version ≡ length (first ∷ rest) % 2 ^ 64)
        × (a.status ≡ status_named (last_or first rest).event_type)
  unfolding load_session_from_events aggregate_id new_session_aggregate clear_pending
  load_session-status first rest h =
      let (id, pending, version) =
        load-root (session_root d) (session_laws d) (new_session_aggregate d) (λ id. refl)
          (λ id. refl) "eventsourcing: no events to load session from"
          (deserialize_session_event json) first rest h in
      (
        id,
        pending,
        version,
        load-last (session_root d) (session_laws d) (new_session_aggregate d) (λ id. refl)
            (λ id. refl) "eventsourcing: no events to load session from"
            (deserialize_session_event json) (λ s a. a.status ≡ status_named s.event_type)
            deserialize-status (λ a s p. p) first rest h,
      )

  -- Loading a session succeeds exactly if there is a row and every row can be deserialized: no rows,
  -- or one row that cannot be, make it an error.
  pub load_session-IsReadable :
      (rows : List (StoredEvent d))
      → ((agg : SessionAggregate d) × (load_session_from_events json rows ≡ ok agg))
        ↔ ((rows ≢ []) × All (IsReadable (deserialize_session_event json)) rows)
  unfolding load_session_from_events new_session_aggregate aggregate_id
  load_session-IsReadable =
      load-IsReadable (session_root d) (session_laws d) (new_session_aggregate d) (λ id. refl)
        (λ id. refl) "eventsourcing: no events to load session from"
        (deserialize_session_event json)
