-- ===== src/Store.antt =====
-- store.go: the event store over the database. The receiver's mutex makes each operation one step;
-- an operation takes the world and gives the new one with the result. `NextSequence` takes no lock, and
-- is one query.
pub mod Append
pub mod Scan
pub mod RoundTrip
pub mod Sequence
pub mod Persistence
use kite_mcp_eventsourcing.Prelude.{String, Option, none, some, List, [], ◌∷◌, ◌==◌, if◌then◌else◌}
use kite_mcp_eventsourcing.Prelude.Word.{Int64, add}
use kite_mcp_eventsourcing.Result.{
  Error, Result, ok, err, wrapped, formatted_wrapped, wrap, on_error, ◌>>=◌,
}
use kite_mcp_eventsourcing.Domain.{Domain}
use kite_mcp_eventsourcing.Stored.{StoredEvent}
use kite_mcp_eventsourcing.Database.{
  EventRow, Rows, Ddl, create_domain_events, add_domain_events_email_hash, Database,
}

module _ {d : Domain} (db : Database d) where
  open d use {Time}
  open db use {World, exec_ddl, insert_event, select_by_aggregate, select_since}
  open db use {select_by_email_hash, select_max_sequence, new_uuid}
  open db use {format_time, format_time_seconds, parse_time, text_of_bytes, bytes_of_text}

  unfoldable pub init_table : World → World × Option Error
  init_table w =
      let (w, failed) = exec_ddl w create_domain_events in
      on_error failed (λ e. (w, some e)) ((exec_ddl w add_domain_events_email_hash).0, none)

  -- the arguments of the INSERT statements
  abbrev pub to_row : StoredEvent d → EventRow
  to_row e = record {
    id = e.id;
    aggregate_id = e.aggregate_id;
    aggregate_type = e.aggregate_type;
    event_type = e.event_type;
    payload = text_of_bytes e.payload;
    occurred_at = format_time e.occurred_at;
    sequence = e.sequence;
    email_hash = e.email_hash;
  }

  -- `if e.ID == "" { e.ID = uuid.New().String() }`
  unfoldable pub with_id : World → StoredEvent d → World × StoredEvent d
  with_id w e =
      if e.id == "" then (let (w', uuid) = new_uuid w in (w', record e { id = uuid })) else (w, e)

  unfoldable pub append : World → List (StoredEvent d) → World × Option Error
  append w [] = (w, none)
  append w (e ∷ rest) =
      let (w, e) = with_id w e in
      let (w, failed) = insert_event w (to_row e) in
      on_error failed
        (λ x. (w, some (formatted_wrapped "eventsourcing: append event %s: %w" e.event_type x)))
        (append w rest)

  -- one round of the loop of `scanEvents`, after `Scan`
  abbrev pub from_row : EventRow → Result (StoredEvent d)
  from_row r = do
    t ← wrap "eventsourcing: parse occurred_at: %w" (parse_time r.occurred_at)
    ok (record {
      id = r.id;
      aggregate_id = r.aggregate_id;
      aggregate_type = r.aggregate_type;
      event_type = r.event_type;
      payload = bytes_of_text r.payload;
      occurred_at = t;
      sequence = r.sequence;
      email_hash = r.email_hash;
    })

  -- the loop of `scanEvents`, and the check of `rows.Err()` after it
  unfoldable pub scan_rows : List (Result EventRow) → Option Error → Result (List (StoredEvent d))
  scan_rows [] ending =
      on_error ending (λ e. err (wrapped "eventsourcing: iterate events: %w" e)) (ok [])
  scan_rows (next ∷ rest) ending = do
    r ← wrap "eventsourcing: scan event: %w" next
    e ← from_row r
    events ← scan_rows rest ending
    ok (e ∷ events)

  unfoldable pub scan_events : Rows → Result (List (StoredEvent d))
  scan_events rows = scan_rows rows.scanned rows.ending

  unfoldable pub load_events : World → String → World × Result (List (StoredEvent d))
  load_events w aggregate_id =
      let (w, answer) = select_by_aggregate w aggregate_id in
      (
        w,
        elim answer [
          | ok rows ↦ scan_events rows
          | err e ↦ err (formatted_wrapped "eventsourcing: load events for %s: %w" aggregate_id e)
        ],
      )

  unfoldable pub load_events_since : World → Time → World × Result (List (StoredEvent d))
  load_events_since w since =
      let (w, answer) = select_since w (format_time since) in
      (
        w,
        elim answer [
          | ok rows ↦ scan_events rows
          | err e ↦ err (
              formatted_wrapped "eventsourcing: load events since %s: %w"
                (format_time_seconds since) e)
        ],
      )

  unfoldable pub load_events_by_email_hash :
      World → String → Time → World × Result (List (StoredEvent d))
  load_events_by_email_hash w email_hash since =
      if email_hash == ""
      then (w, ok [])
      else (let (w, answer) = select_by_email_hash w email_hash (format_time since) in
          (
            w,
            elim answer [
              | ok rows ↦ scan_events rows
              | err e ↦ err (wrapped "eventsourcing: load events by email_hash: %w" e)
            ],
          ))

  unfoldable pub next_sequence : World → String → World × Result Int64
  next_sequence w aggregate_id =
      let (w, answer) = select_max_sequence w aggregate_id in
      (
        w,
        elim answer [
          | ok max_seq ↦ ok (add max_seq 1)
          | err e ↦ err (formatted_wrapped "eventsourcing: next sequence for %s: %w" aggregate_id e)
        ],
      )
