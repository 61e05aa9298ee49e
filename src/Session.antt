-- ===== src/Session.antt =====
-- session_aggregate.go: the state of an MCP session, `Apply`, and the replay of stored events. A
-- session has no commands and raises no events.
pub mod Replay
use kite_mcp_eventsourcing.Prelude.{String, Bool, not, List, ◌==◌, ◌&&◌, if◌then◌else◌}
use kite_mcp_eventsourcing.Result.{Result, ok, err, formatted, ◌>>=◌}
use kite_mcp_eventsourcing.Domain.{Domain}
use kite_mcp_eventsourcing.Event.{
  Event, SessionCreatedEvent, session_created_event, session_cleared_event,
  session_invalidated_event,
}
use kite_mcp_eventsourcing.Payload.{Json}
use kite_mcp_eventsourcing.Stored.{StoredEvent, load_from_events}
use kite_mcp_eventsourcing.Aggregate.{
  BaseAggregate, new_base, increment_version, clear_pending_events,
}

-- The constants `SessionStatus*`; `unset` is the empty text of a session that saw no event.
pub data SessionStatus : Type 0 where
  unset active cleared invalidated : SessionStatus

module _ (d : Domain) where
  open d use {Time, zero_time}

  pub record SessionAggregate : Type 0 where
    pub base : BaseAggregate d
    pub open base use *
    pub email : String
    pub broker : String
    pub status : SessionStatus
    pub created_at : Time
    pub last_cleared_at : Time
    pub invalidated_at : Time
    pub last_clear_reason : String
    pub invalidation_reason : String

  unfoldable pub new_session_aggregate : String → SessionAggregate
  new_session_aggregate session_id = record {
    base = new_base d session_id;
    email = "";
    broker = "";
    status = unset;
    created_at = zero_time;
    last_cleared_at = zero_time;
    invalidated_at = zero_time;
    last_clear_reason = "";
    invalidation_reason = "";
  }

abbrev pub aggregate_type : String
aggregate_type = "Session"

module _ {d : Domain} where
  -- the `switch` of `Apply`
  unfoldable pub apply_fields : SessionAggregate d → Event d → SessionAggregate d
  apply_fields a (session_created_event e) = record a {
    email = e.email;
    broker = e.broker;
    status = active;
    created_at = e.timestamp;
  }
  apply_fields a (session_cleared_event e) = record a {
    status = cleared;
    last_cleared_at = e.timestamp;
    last_clear_reason = e.reason;
  }
  apply_fields a (session_invalidated_event e) = record a {
    status = invalidated;
    invalidated_at = e.timestamp;
    invalidation_reason = e.reason;
  }
  apply_fields a _ = a

  unfoldable pub apply : SessionAggregate d → Event d → SessionAggregate d
  unfolding increment_version
  apply a event = let a' = apply_fields a event in record a' { base = increment_version a'.base }

  -- `agg.ClearPendingEvents()`
  unfoldable pub clear_pending : SessionAggregate d → SessionAggregate d
  unfolding clear_pending_events
  clear_pending a = record a { base = clear_pending_events a.base }

module _ {d : Domain} (json : Json d) where
  -- the second attempt of the case "session.created"
  deserialize_narrow : StoredEvent d → Result (Event d)
  deserialize_narrow stored = do
    p ← json.session_created.unmarshal stored.payload
    ok (
        session_created_event (record {
          email = p.email;
          session_id = p.session_id;
          broker = p.broker;
          timestamp = stored.occurred_at;
        }))

  -- The case "session.created": the public struct if it can be read and names a session, and
  -- otherwise the narrow payload.
  created_from : StoredEvent d → Result (SessionCreatedEvent d) → Result (Event d)
  created_from stored (ok full) =
      if not (full.session_id == "")
      then ok (session_created_event full)
      else deserialize_narrow stored
  created_from stored (err e) = deserialize_narrow stored

  -- the case "session.cleared"
  deserialize_cleared : StoredEvent d → Result (Event d)
  deserialize_cleared stored = do
    p ← json.session_cleared.unmarshal stored.payload
    ok (
        session_cleared_event
          (record { session_id = p.session_id; reason = p.reason; timestamp = stored.occurred_at }))

  -- the case "session.invalidated"
  deserialize_invalidated : StoredEvent d → Result (Event d)
  deserialize_invalidated stored = do
    p ← json.session_invalidated.unmarshal stored.payload
    ok (
        session_invalidated_event
          (record { session_id = p.session_id; reason = p.reason; timestamp = stored.occurred_at }))

  unfoldable pub deserialize_session_event : StoredEvent d → Result (Event d)
  unfolding deserialize_narrow created_from deserialize_cleared deserialize_invalidated
  deserialize_session_event stored =
      if stored.event_type == "session.created"
      then created_from stored (json.session_created_event.unmarshal stored.payload)
      else if stored.event_type == "session.cleared"
      then deserialize_cleared stored
      else if stored.event_type == "session.invalidated"
      then deserialize_invalidated stored
      else err (formatted "unknown session event type: %s" stored.event_type)

  unfoldable pub load_session_from_events : List (StoredEvent d) → Result (SessionAggregate d)
  load_session_from_events =
      load_from_events "eventsourcing: no events to load session from" deserialize_session_event
        apply (new_session_aggregate d) clear_pending
