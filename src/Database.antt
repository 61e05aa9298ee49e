-- ===== src/Database.antt =====
-- What store.go and outbox.go take from outside: the SQLite database behind `alerts.DB`, with one
-- operation for each SQL statement of theirs, `uuid.New`, `time.Now`, `ctx.Err`, and the texts that
-- `time.Time` and `[]byte` are stored as. `World` is all of these together with their faults.
pub mod Laws
pub mod Keys
use kite_mcp_eventsourcing.Prelude.{String, Bool, Option, List}
use kite_mcp_eventsourcing.Prelude.Word.{Int64}
use kite_mcp_eventsourcing.Result.{Error, Result}
use kite_mcp_eventsourcing.Domain.{Domain}

-- a row of `domain_events`, which is also what the SELECT statements answer with
pub record EventRow : Type 0 where
  pub id : String
  pub aggregate_id : String
  pub aggregate_type : String
  pub event_type : String
  pub payload : String
  pub occurred_at : String
  pub sequence : Int64
  pub email_hash : String

-- a row of `event_outbox`
pub record OutboxRow : Type 0 where
  pub event : EventRow
  pub inserted_at : String
  pub processed : Bool

-- `sql.Rows`: what `Scan` gives for each row that `Next` comes to, and `Err` at the end
pub record Rows : Type 0 where
  pub scanned : List (Result EventRow)
  pub ending : Option Error

-- The statements of `InitTable` and `InitOutboxTable`, without the rest of their text.
pub data Ddl : Type 0 where
  create_domain_events add_domain_events_email_hash : Ddl
  create_event_outbox add_event_outbox_email_hash : Ddl

pub record Database (d : Domain) : Type 1 where
  pub World : Type 0
  pub exec_ddl : World → Ddl → World × Option Error
  -- INSERT INTO domain_events
  pub insert_event : World → EventRow → World × Option Error
  -- INSERT INTO event_outbox, with `processed` 0
  pub insert_outbox : World → EventRow → String → World × Option Error
  -- UPDATE event_outbox SET processed = 1 WHERE id = ?
  pub mark_processed : World → String → World × Option Error
  -- SELECT … FROM domain_events WHERE aggregate_id = ? ORDER BY sequence ASC
  pub select_by_aggregate : World → String → World × Result Rows
  -- SELECT … FROM domain_events WHERE occurred_at > ? ORDER BY occurred_at ASC
  pub select_since : World → String → World × Result Rows
  -- SELECT … FROM domain_events WHERE email_hash = ? AND occurred_at >= ? ORDER BY occurred_at ASC
  pub select_by_email_hash : World → String → String → World × Result Rows
  -- SELECT COALESCE(MAX(sequence), 0) FROM domain_events WHERE aggregate_id = ?
  pub select_max_sequence : World → String → World × Result Int64
  -- SELECT … FROM event_outbox WHERE processed = 0 ORDER BY inserted_at ASC LIMIT 100
  pub select_pending : World → World × Result Rows
  -- `uuid.New().String()`
  pub new_uuid : World → World × String
  -- `time.Now().UTC()`
  pub now : World → World × d.Time
  -- `ctx.Err()`
  pub ctx_err : World → World × Option Error
  -- `Format` and `time.Parse` with `time.RFC3339Nano`
  pub format_time : d.Time → String
  pub parse_time : String → Result d.Time
  -- `Format` with `time.RFC3339`
  pub format_time_seconds : d.Time → String
  -- the order in which SQLite compares texts
  pub text_before : String → String → Bool
  -- the conversions `string(b)` and `[]byte(s)`
  pub text_of_bytes : d.Bytes → String
  pub bytes_of_text : String → d.Bytes
