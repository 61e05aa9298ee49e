-- ===== src/Outbox/History.antt =====
-- Any calls of the event store and the outbox, one after the other (store.go, outbox.go), and what
-- they keep because each statement keeps it.
use kite_mcp_eventsourcing.Prelude.{
  String, false, ◌≡◌, sym, subst, inl, inr, List, [], ◌∷◌, ◌++◌, map, foldl, Option-cases,
  Bool-cases, ◌==◌,
}
use kite_mcp_eventsourcing.Prelude.Word.{Int64, add}
use kite_mcp_eventsourcing.Result.{ok, on_error, Result-cases}
use kite_mcp_eventsourcing.Domain.{Domain}
use kite_mcp_eventsourcing.Stored.{StoredEvent}
use kite_mcp_eventsourcing.Database.{
  EventRow, OutboxRow, Rows, create_domain_events, create_event_outbox, Database,
}
use kite_mcp_eventsourcing.Database.Laws.{Tables, is_staged, mark, DatabaseLaws}
use kite_mcp_eventsourcing.Store.{
  to_row, with_id, init_table, append, load_events, load_events_since, load_events_by_email_hash,
  next_sequence, scan_events,
}
use kite_mcp_eventsourcing.Store.Append.{tables-with_id}
use kite_mcp_eventsourcing.Outbox.{init_outbox_table, append_to_outbox, drain_rows, drain}

pub data Call (d : Domain) : Type 0 where
  init_table_call init_outbox_call drain_call : Call d
  append_call : List (StoredEvent d) → Call d
  outbox_call : StoredEvent d → Call d
  load_call next_sequence_call : String → Call d
  load_since_call : d.Time → Call d
  load_by_email_hash_call : String → d.Time → Call d

-- a row as the INSERT statement of the outbox writes it
abbrev pub staged : EventRow → String → OutboxRow
staged r at = record { event = r; inserted_at = at; processed = false }

-- What an insertion, a refused one, and a staging leave of a property of the tables.
pub record Grows {d : Domain} (db : Database d) (P : Tables → Type 0) : Type 0 where
  pub insert : (t : Tables) (r : EventRow) → P t → P (record t { events = t.events ++ r ∷ [] })
  pub refuse : (t : Tables) (r : EventRow) → P t → P (record t { refused = t.refused ++ r ∷ [] })
  pub stage :
      (t : Tables) (e : StoredEvent d) (at : String)
      → is_staged t.outbox e.id ≡ false
      → P t
      → P (record t { outbox = t.outbox ++ staged (to_row db e) at ∷ [] })

abbrev pub IsKeptByMark : (Tables → Type 0) → Type 0
IsKeptByMark P = (t : Tables) (id : String) → P t → P (record t { outbox = map (mark id) t.outbox })

module _ {d : Domain} (db : Database d) where
  open db use {World}

  unfoldable pub step : World → Call d → World
  step w init_table_call = (init_table db w).0
  step w init_outbox_call = (init_outbox_table db w).0
  step w drain_call = (drain db w).0
  step w (append_call events) = (append db w events).0
  step w (outbox_call event) = (append_to_outbox db w event).0
  step w (load_call id) = (load_events db w id).0
  step w (next_sequence_call id) = (next_sequence db w id).0
  step w (load_since_call since) = (load_events_since db w since).0
  step w (load_by_email_hash_call hash since) = (load_events_by_email_hash db w hash since).0

  abbrev pub run : World → List (Call d) → World
  run = foldl step

  -- The ways out of a drain: a query or a scan that failed, and the loop.
  pub drain_rule :
      (R : World → Type 0) (w : World)
      → R (db.select_pending w).0
      → ((rows : Rows) (events : List (StoredEvent d))
          → (db.select_pending w).1 ≡ ok rows
          → scan_events db rows ≡ ok events
          → R (drain_rows db (db.select_pending w).0 0 events).0)
      → R (drain db w).0
  unfolding drain
  drain_rule R w stopped drained = elim (Result-cases (db.select_pending w).1) [
    | inr (x, failed) ↦ rw (failed, drain) stopped
    | inl (rows, came) ↦ (elim (Result-cases (scan_events db rows)) [
      | inr (x, bad) ↦ rw (came, bad, drain) stopped
      | inl (events, read) ↦ rw (came, read, drain) (drained rows events came read)
    ])
  ]

module _ {d : Domain} {db : Database d} {tables : db.World → Tables} (laws : DatabaseLaws db tables)
    {P : Tables → Type 0} (grows : Grows db P) where
  open db use {World, exec_ddl, insert_event, insert_outbox, mark_processed, ctx_err, now}
  open db use {format_time}

  insert_event-keeps : (w : World) (r : EventRow) → P (tables w) → P (tables (insert_event w r).0)
  insert_event-keeps w r h = elim (laws.insert_event-tables w r) [
    | inl (_, (_, after)) ↦ subst P (sym after) (grows.insert (tables w) r h)
    | inr (_, after) ↦ subst P (sym after) (grows.refuse (tables w) r h)
  ]

  append-keeps :
      (w : World) (events : List (StoredEvent d)) → P (tables w) → P (tables (append db w events).0)
  unfolding append on_error
  append-keeps w [] h = h
  append-keeps w (e ∷ events) h =
      let w1 = (with_id db w e).0 in
      let r = to_row db (with_id db w e).1 in
      let w2 = (insert_event w1 r).0 in
      let h2 = insert_event-keeps w1 r (rw (tables-with_id laws w e) h) in
      elim (Option-cases (insert_event w1 r).1) [
        | inl done ↦ rw done (append-keeps w2 events h2)
        | inr (x, failed) ↦ rw failed h2
      ]

  append_to_outbox-keeps :
      (w : World) (e : StoredEvent d) → P (tables w) → P (tables (append_to_outbox db w e).0)
  unfolding append_to_outbox on_error
  append_to_outbox-keeps w e h =
      let w1 = (with_id db w e).0 in
      let r = to_row db (with_id db w e).1 in
      let w2 = (now w1).0 in
      let at = format_time (now w1).1 in
      let h2 : P (tables w2) = rw (laws.now-tables w1, tables-with_id laws w e) h in
      elim (laws.insert_outbox-tables w2 r at) [
        | inl (fresh, (done, after)) ↦
            rw done (subst P (sym after) (grows.stage (tables w2) (with_id db w e).1 at fresh h2))
        | inr ((x, failed), same) ↦ rw failed (rw same h2)
      ]

  module _ (marks : IsKeptByMark P) where
    mark_processed-keeps :
        (w : World) (id : String) → P (tables w) → P (tables (mark_processed w id).0)
    mark_processed-keeps w id h = elim (laws.mark_processed-tables w id) [
      | inl (_, after) ↦ subst P (sym after) (marks (tables w) id h)
      | inr (_, same) ↦ rw same h
    ]

    drain_rows-keeps :
        (w : World) (n : Int64) (events : List (StoredEvent d))
        → P (tables w)
        → P (tables (drain_rows db w n events).0)
    unfolding drain_rows on_error
    drain_rows-keeps w n [] h = h
    drain_rows-keeps w n (e ∷ rest) h =
        let r = to_row db e in
        let w1 = (ctx_err w).0 in
        let w2 = (insert_event w1 r).0 in
        let w3 = (mark_processed w2 e.id).0 in
        let h1 : P (tables w1) = rw (laws.ctx_err-tables w) h in
        let h3 = mark_processed-keeps w2 e.id (insert_event-keeps w1 r h1) in
        elim (Option-cases (ctx_err w).1) [
          | inr (x, cancelled) ↦ rw cancelled h1
          | inl going ↦ rw going (elim (Option-cases (mark_processed w2 e.id).1) [
            | inr (x, failed) ↦ rw failed h3
            | inl marked ↦ rw marked (drain_rows-keeps w3 (add n 1) rest h3)
          ])
        ]

module _ {d : Domain} {db : Database d} {tables : db.World → Tables}
    (laws : DatabaseLaws db tables) where
  open db use {World, exec_ddl, format_time}

  tables-init_table : (w : World) → tables (init_table db w).0 ≡ tables w
  unfolding init_table on_error
  tables-init_table w = elim (Option-cases (exec_ddl w create_domain_events).1) [
    | inl done ↦ rw (done, laws.exec_ddl-tables, laws.exec_ddl-tables)
    | inr (x, failed) ↦ rw (failed, laws.exec_ddl-tables)
  ]

  tables-init_outbox_table : (w : World) → tables (init_outbox_table db w).0 ≡ tables w
  unfolding init_outbox_table on_error
  tables-init_outbox_table w = elim (Option-cases (exec_ddl w create_event_outbox).1) [
    | inl done ↦ rw (done, laws.exec_ddl-tables, laws.exec_ddl-tables)
    | inr (x, failed) ↦ rw (failed, laws.exec_ddl-tables)
  ]

  tables-load_events_by_email_hash :
      (w : World) (hash : String) (since : d.Time)
      → tables (load_events_by_email_hash db w hash since).0 ≡ tables w
  unfolding load_events_by_email_hash
  tables-load_events_by_email_hash w hash since = elim (Bool-cases (hash == "")) [
    | inl h ↦ rw h
    | inr h ↦ rw h ((laws.select_by_email_hash-answers w hash (format_time since)).0)
  ]

  -- What insertions and stagings keep, and drains too, every call keeps.
  pub step-keeps :
      {P : Tables → Type 0}
      → Grows db P
      → ((w : World) → P (tables w) → P (tables (drain db w).0))
      → (w : World) (c : Call d) → P (tables w)
      → P (tables (step db w c))
  unfolding step load_events load_events_since next_sequence
  step-keeps grows drains w init_table_call h = rw (tables-init_table w) h
  step-keeps grows drains w init_outbox_call h = rw (tables-init_outbox_table w) h
  step-keeps grows drains w drain_call h = drains w h
  step-keeps grows drains w (append_call events) h = append-keeps laws grows w events h
  step-keeps grows drains w (outbox_call e) h = append_to_outbox-keeps laws grows w e h
  step-keeps grows drains w (load_call id) h = rw ((laws.select_by_aggregate-answers w id).0) h
  step-keeps grows drains w (next_sequence_call id) h = rw (laws.select_max_sequence-tables w id) h
  step-keeps grows drains w (load_since_call since) h =
      rw ((laws.select_since-answers w (format_time since)).0) h
  step-keeps grows drains w (load_by_email_hash_call hash since) h =
      rw (tables-load_events_by_email_hash w hash since) h

  pub run-keeps :
      {P : Tables → Type 0}
      → Grows db P
      → ((w : World) → P (tables w) → P (tables (drain db w).0))
      → (w : World) (cs : List (Call d)) → P (tables w)
      → P (tables (run db w cs))
  run-keeps grows drains w [] h = h
  run-keeps grows drains w (c ∷ cs) h =
      run-keeps grows drains (step db w c) cs (step-keeps grows drains w c h)

  pub drain-keeps :
      {P : Tables → Type 0}
      → Grows db P
      → IsKeptByMark P
      → (w : World) → P (tables w)
      → P (tables (drain db w).0)
  drain-keeps {P} grows marks w h =
      let h1 : P (tables (db.select_pending w).0) = rw ((laws.select_pending-answers w).0) h in
      drain_rule db (λ w. P (tables w)) w h1
        λ rows events _ _. drain_rows-keeps laws grows marks _ 0 events h1
