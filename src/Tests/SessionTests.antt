-- ===== src/Tests/SessionTests.antt =====
-- A replay of session_aggregate.go over both stored formats, and its theorem at that input.
use kite_mcp_eventsourcing.Prelude.{◌≢◌, ◌↔◌, All, ◌≡◌, ◌%◌, ◌^◌, refl, [], ◌∷◌, length}
use kite_mcp_eventsourcing.Result.{ok}
use kite_mcp_eventsourcing.Event.{session_created_event, session_cleared_event}
use kite_mcp_eventsourcing.Aggregate.{pending_events, increment_version, clear_pending_events}
use kite_mcp_eventsourcing.Stored.{StoredEvent, replay_stored, load_from_events}
use kite_mcp_eventsourcing.Stored.Load.{last_or, IsReadable}
use kite_mcp_eventsourcing.Session.{
  SessionAggregate, new_session_aggregate, apply, apply_fields, clear_pending,
  deserialize_session_event, load_session_from_events,
}
use kite_mcp_eventsourcing.Session.Replay.{
  status_named, load_session-IsReadable, load_session-status,
}
use kite_mcp_eventsourcing.Tests.{sample, text}
use kite_mcp_eventsourcing.Tests.SampleJson.{sample_json}

-- a creation in the narrow format, which has no timestamp of its own
abbrev created_row : StoredEvent sample
created_row = record {
  id = "s1";
  aggregate_id = "S-1";
  aggregate_type = "Session";
  event_type = "session.created";
  payload = text "u@example.com" ∷ text "S-1" ∷ text "zerodha" ∷ [];
  occurred_at = 3;
  sequence = 1;
  email_hash = "";
}

abbrev cleared_row : StoredEvent sample
cleared_row = record {
  id = "s2";
  aggregate_id = "S-1";
  aggregate_type = "Session";
  event_type = "session.cleared";
  payload = text "S-1" ∷ text "logout" ∷ [];
  occurred_at = 4;
  sequence = 2;
  email_hash = "";
}

abbrev rows_loaded : SessionAggregate sample
rows_loaded =
    apply
      (apply (new_session_aggregate sample "S-1") (
        session_created_event (record {
          email = "u@example.com";
          session_id = "S-1";
          broker = "zerodha";
          timestamp = 3;
        })))
      (session_cleared_event (record { session_id = "S-1"; reason = "logout"; timestamp = 4 }))

rows_load : load_session_from_events sample_json (created_row ∷ cleared_row ∷ []) ≡ ok rows_loaded
unfolding load_session_from_events load_from_events replay_stored deserialize_session_event
    clear_pending_events increment_version new_session_aggregate apply apply_fields clear_pending
rows_load = refl

load_session-status_example :
    (rows_loaded.id ≡ created_row.aggregate_id)
    × (pending_events rows_loaded.base ≡ [])
    × (rows_loaded.version ≡ length (created_row ∷ cleared_row ∷ []) % 2 ^ 64)
    × (rows_loaded.status ≡ status_named (last_or created_row (cleared_row ∷ [])).event_type)
load_session-status_example =
    load_session-status sample_json created_row (cleared_row ∷ []) rows_load

load_session-IsReadable_example :
    ((agg : SessionAggregate sample) × (load_session_from_events sample_json
          (created_row ∷ cleared_row ∷ [])
        ≡ ok agg))
    ↔ ((created_row ∷ cleared_row ∷ [] ≢ [])
        × All (IsReadable (deserialize_session_event sample_json)) (created_row ∷ cleared_row ∷ []))
load_session-IsReadable_example =
    load_session-IsReadable sample_json (created_row ∷ cleared_row ∷ [])
