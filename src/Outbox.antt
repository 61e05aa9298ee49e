-- ===== src/Outbox.antt =====
-- outbox.go: the staging outbox over the same database, and the pump that drains it. The logging
-- of failures is left out.
pub mod Settled
pub mod History
pub mod Delivery
pub mod Histories
pub mod Waiting
pub mod Progress
pub mod Pump
pub mod Goroutines
pub mod Steps
pub mod Shutdown
use kite_mcp_eventsourcing.Prelude.{String, Option, none, some, List, [], ◌∷◌, ◌==◌, if◌then◌else◌}
use kite_mcp_eventsourcing.Prelude.Word.{Int64, add}
use kite_mcp_eventsourcing.Result.{Error, ok, err, wrapped, on_error}
use kite_mcp_eventsourcing.Domain.{Domain}
use kite_mcp_eventsourcing.Stored.{StoredEvent}
use kite_mcp_eventsourcing.Database.{
  EventRow, create_event_outbox, add_event_outbox_email_hash, Database,
}
use kite_mcp_eventsourcing.Store.{to_row, with_id, scan_events}

-- A tick of the pump's timer, or the closing of its channel `stop`.
pub data Signal : Type 0 where
  tick stop : Signal

module _ {d : Domain} (db : Database d) where
  open db use {World, exec_ddl, insert_event, insert_outbox, mark_processed, select_pending}
  open db use {now, ctx_err, format_time}

  unfoldable pub init_outbox_table : World → World × Option Error
  init_outbox_table w =
      let (w, failed) = exec_ddl w create_event_outbox in
      on_error failed (λ e. (w, some e)) ((exec_ddl w add_event_outbox_email_hash).0, none)

  unfoldable pub append_to_outbox : World → StoredEvent d → World × Option Error
  append_to_outbox w evt =
      let (w, evt) = with_id db w evt in
      let (w, t) = now w in
      let (w, failed) = insert_outbox w (to_row db evt) (format_time t) in
      on_error failed (λ e. (w, some (wrapped "eventsourcing: outbox insert: %w" e))) (w, none)

  -- The loop of `Drain`. A failed insertion is only logged. `ctx.Err()` is asked once a round: its
  -- answer stays once it is an error.
  unfoldable pub drain_rows : World → Int64 → List (StoredEvent d) → World × Int64 × Option Error
  drain_rows w processed [] = (w, processed, none)
  drain_rows w processed (evt ∷ rest) =
      let (w, cancelled) = ctx_err w in
      on_error cancelled (λ e. (w, processed, some e))
        (let (w, ins_err) = insert_event w (to_row db evt) in
          let (w, mark_err) = mark_processed w evt.id in
          on_error mark_err
            (λ e. (w, processed, some (wrapped "eventsourcing: outbox mark processed: %w" e)))
            (drain_rows w (add processed 1) rest))

  unfoldable pub drain : World → World × Int64 × Option Error
  drain w =
      let (w, answer) = select_pending w in
      elim answer [
        | err e ↦ (w, 0, some (wrapped "eventsourcing: outbox query: %w" e))
        | ok rows ↦ elim (scan_events db rows) [
          | err e ↦ (w, 0, some (wrapped "eventsourcing: outbox scan: %w" e))
          | ok pending ↦ drain_rows w 0 pending
        ]
      ]

  -- The loop of `run`, for what the pump's channels deliver, in the order in which `select`
  -- receives it: a stop ends the loop after one last drain.
  unfoldable pub pump_loop : World → List Signal → World
  pump_loop w [] = w
  pump_loop w (tick ∷ rest) = pump_loop (drain w).0 rest
  pump_loop w (stop ∷ rest) = (drain w).0

  -- `run`: a drain at the start, and the loop
  unfoldable pub pump : World → List Signal → World
  pump w signals = pump_loop (drain w).0 signals
