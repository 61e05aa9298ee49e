-- ===== src/Tests/AlertTests.antt =====
-- Runs of alert_aggregate.go, and its theorems at concrete inputs.
use kite_mcp_eventsourcing.Prelude.{
  ◌≢◌, All, ◌≡◌, ◌%◌, ◌^◌, ◌↔◌, refl, none, some, List, [], ◌∷◌, map, length, arith,
}
use kite_mcp_eventsourcing.Result.{ok, on_error, return_if}
use kite_mcp_eventsourcing.Event.{AlertEvent, alert_event, alert_deleted, alert_triggered_event}
use kite_mcp_eventsourcing.Aggregate.{pending_events, increment_version, clear_pending_events}
use kite_mcp_eventsourcing.Aggregate.Laws.{Called, calls, replay, walk}
use kite_mcp_eventsourcing.Stored.{StoredEvent, replay_stored, load_from_events}
use kite_mcp_eventsourcing.Stored.RoundTrip.{IsNumbered}
use kite_mcp_eventsourcing.Stored.Load.{last_or, IsReadable}
use kite_mcp_eventsourcing.Alert.{
  deleted, AlertAggregate, new_alert_aggregate, aggregate_type, apply, apply_fields, emit,
  clear_pending, can_trigger, can_delete, create, trigger, delete,
}
use kite_mcp_eventsourcing.Alert.Root.{alert_root, alert_emitter}
use kite_mcp_eventsourcing.Alert.Lifecycle.{
  Command, create_alert, trigger_alert, delete_alert, execute_alert, execute_alert-Called, IsLegal,
  run_alert,
}
use kite_mcp_eventsourcing.Alert.History.{
  IsAdmissible, execute_alert-IsAdmissible, next_stage, stage_of, walk-run_alert, replay-run_alert,
}
use kite_mcp_eventsourcing.Alert.Storage.{
  to_alert_stored_events, load_alert_from_events, deserialize_alert_event, deserialize_public,
}
use kite_mcp_eventsourcing.Alert.RoundTrip.{load-to_alert_stored_events}
use kite_mcp_eventsourcing.Alert.Load.{status_named, load_alert-IsReadable, load_alert-status}
use kite_mcp_eventsourcing.Tests.{sample, sample_laws, text, number}
use kite_mcp_eventsourcing.Tests.SampleJson.{sample_json, sample_json_laws}

program : Unit {0}
unfolding create trigger delete can_trigger can_delete execute_alert calls on_error return_if
    new_alert_aggregate apply apply_fields emit pending_events clear_pending
program = tt

-- Created, again (refused), triggered, again (refused), deleted.
abbrev life : List (Command sample)
life =
    create_alert "u@example.com" "INFY" "NSE" 1500 "above" 1
    ∷ create_alert "u@example.com" "INFY" "NSE" 1600 "above" 2
    ∷ trigger_alert 1501 3
    ∷ trigger_alert 1502 4
    ∷ delete_alert 5
    ∷ []

life_result :
    let a = run_alert "AL-1" life in
    (a.status ≡ deleted)
    × (a.version ≡ 3)
    × (a.target_price ≡ 1500)
    × (a.triggered_at ≡ 3)
    × (a.deleted_at ≡ 5)
unfolding program
life_result = (refl, refl, refl, refl, refl)

execute_alert-Called_example :
    Called
      (alert_emitter sample)
      (IsLegal sample)
      (run_alert "AL-1" life)
      (execute_alert (run_alert "AL-1" life) (delete_alert 6))
execute_alert-Called_example = execute_alert-Called (run_alert "AL-1" life) (delete_alert 6)

execute_alert-IsAdmissible_example :
    ((execute_alert (run_alert "AL-1" life) (delete_alert 6)).1 ≡ none)
    ↔ IsAdmissible (run_alert "AL-1" life) (delete_alert 6)
execute_alert-IsAdmissible_example =
    execute_alert-IsAdmissible (run_alert "AL-1" life) (delete_alert 6)

walk-run_alert_example :
    (es : List (AlertEvent sample)) × (pending_events (run_alert "AL-1" life).base
      ≡ map alert_event es)
    × (walk next_stage (some none) es
        ≡ some (stage_of (run_alert "AL-1" life).version (run_alert "AL-1" life).status))
unfolding program
walk-run_alert_example = walk-run_alert "AL-1" life (omega arith)

replay-run_alert_example :
    replay
      (alert_root sample)
      (new_alert_aggregate sample "AL-1")
      (pending_events (run_alert "AL-1" life).base)
    ≡ clear_pending (run_alert "AL-1" life)
replay-run_alert_example = replay-run_alert "AL-1" life

load-to_alert_stored_events_example :
    (stored : List (StoredEvent sample)) × (to_alert_stored_events sample_json
        (run_alert "AL-1" life)
        7
      ≡ ok stored)
    × IsNumbered (run_alert "AL-1" life).id aggregate_type 7 0 stored
    × (load_alert_from_events sample_json stored ≡ ok (clear_pending (run_alert "AL-1" life)))
unfolding program
load-to_alert_stored_events_example =
    load-to_alert_stored_events sample_laws sample_json_laws "AL-1" life 7 (tt, (tt, (tt, tt)))
      (λ e. cc)

-- Rows of both formats: a public trigger and then a private deletion.
abbrev triggered_row : StoredEvent sample
triggered_row = record {
  id = "a1";
  aggregate_id = "AL-2";
  aggregate_type = "Alert";
  event_type = "alert.triggered";
  payload =
      text "AL-2" ∷ text "u@example.com" ∷ text "NSE" ∷ text "INFY" ∷ number 1500 ∷ number 3 ∷ [];
  occurred_at = 3;
  sequence = 1;
  email_hash = "";
}

abbrev deleted_row : StoredEvent sample
deleted_row = record {
  id = "a2";
  aggregate_id = "AL-2";
  aggregate_type = "Alert";
  event_type = "AlertDeleted";
  payload = [];
  occurred_at = 4;
  sequence = 2;
  email_hash = "";
}

abbrev rows_loaded : AlertAggregate sample
rows_loaded =
    apply
      (apply (new_alert_aggregate sample "AL-2") (
        alert_triggered_event (record {
          alert_id = "AL-2";
          email = "u@example.com";
          instrument = ("NSE", "INFY");
          target_price = 1500;
          timestamp = 3;
        })))
      (alert_event (alert_deleted (record { alert_id = "AL-2"; timestamp = 4 })))

rows_load : load_alert_from_events sample_json (triggered_row ∷ deleted_row ∷ []) ≡ ok rows_loaded
unfolding program load_alert_from_events load_from_events replay_stored deserialize_alert_event
    deserialize_public clear_pending_events increment_version
rows_load = refl

load_alert-status_example :
    (rows_loaded.id ≡ triggered_row.aggregate_id)
    × (pending_events rows_loaded.base ≡ [])
    × (rows_loaded.version ≡ length (triggered_row ∷ deleted_row ∷ []) % 2 ^ 64)
    × (rows_loaded.status ≡ status_named (last_or triggered_row (deleted_row ∷ [])).event_type)
load_alert-status_example = load_alert-status sample_json triggered_row (deleted_row ∷ []) rows_load

load_alert-IsReadable_example :
    ((agg : AlertAggregate sample) × (load_alert_from_events sample_json
          (triggered_row ∷ deleted_row ∷ [])
        ≡ ok agg))
    ↔ ((triggered_row ∷ deleted_row ∷ [] ≢ [])
        × All (IsReadable (deserialize_alert_event sample_json)) (triggered_row ∷ deleted_row ∷ []))
load_alert-IsReadable_example = load_alert-IsReadable sample_json (triggered_row ∷ deleted_row ∷ [])
