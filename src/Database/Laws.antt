-- ===== src/Database/Laws.antt =====
-- What the theorems rely on of the database: the documented behaviour of its statements on the two
-- tables. A statement may fail at any time, for any reason, and then changes nothing.
use kite_mcp_eventsourcing.Prelude.{
  String, Bool, true, false, not, ◌&&◌, ◌||◌, ◌≡◌, ◌≢◌, ◌⊎◌, Option, none, some, List, [], ◌∷◌,
  ◌++◌, map, take, nat_eq, All, Memᴰ, Permᴰ, ◌==◌, if◌then◌else◌,
}
use kite_mcp_eventsourcing.Prelude.Word.{Int64, signed_ltb}
use kite_mcp_eventsourcing.Result.{Error, Result, ok, err}
use kite_mcp_eventsourcing.Domain.{Domain}
use kite_mcp_eventsourcing.Collections.{IsSorted, filtered}
use kite_mcp_eventsourcing.Database.{EventRow, OutboxRow, Rows, Ddl, Database}

-- The two tables, and the rows whose insertion into `domain_events` failed, since the beginning.
pub record Tables : Type 0 where
  pub events : List EventRow
  pub outbox : List OutboxRow
  pub refused : List EventRow

-- The two keys of `domain_events`: the primary key `id`, and the unique index on `aggregate_id`
-- and `sequence`. A row clashes with the table if it has the keys of a row there.
abbrev pub same_keys : EventRow → EventRow → Bool
same_keys r s = r.id == s.id || ((r.aggregate_id == s.aggregate_id) && nat_eq r.sequence s.sequence)

unfoldable pub clashes : List EventRow → EventRow → Bool
clashes [] r = false
clashes (s ∷ rows) r = same_keys s r || clashes rows r

-- the primary key of `event_outbox`
unfoldable pub is_staged : List OutboxRow → String → Bool
is_staged [] id = false
is_staged (s ∷ rows) id = s.event.id == id || is_staged rows id

-- UPDATE event_outbox SET processed = 1 WHERE id = ?
abbrev pub mark : String → OutboxRow → OutboxRow
mark id r = record r { processed = if r.event.id == id then true else r.processed }

-- The rows that were scanned, if none failed and the iteration did not.
abbrev pub scanned_rows : List (Result EventRow) → Option (List EventRow)
scanned_rows [] = some []
scanned_rows (ok r ∷ rest) = elim (scanned_rows rest) [ none ↦ none | some rows ↦ some (r ∷ rows) ]
scanned_rows (err e ∷ rest) = none

abbrev pub complete : Rows → Option (List EventRow)
complete rows = elim rows.ending [ none ↦ scanned_rows rows.scanned | some e ↦ none ]

-- The rows that pass the test, sorted.
abbrev pub Selects :
    (EventRow → Bool) → (EventRow → EventRow → Bool) → Tables → List EventRow → Type 0
Selects test before t answer = Permᴰ answer (filtered test t.events) × IsSorted before answer

-- The first hundred of the rows that are not processed, by `inserted_at`.
abbrev pub SelectsPending : (String → String → Bool) → Tables → List EventRow → Type 0
SelectsPending text_before t answer =
    (all : List OutboxRow) × Permᴰ all (filtered (λ r. not r.processed) t.outbox)
    × IsSorted (λ r s. text_before r.inserted_at s.inserted_at) all
    × (answer ≡ map (λ r. r.event) (take 100 all))

-- COALESCE(MAX(sequence), 0) over the rows of an aggregate
abbrev pub IsMaxSequence : String → Tables → Int64 → Type 0
IsMaxSequence id t n =
    All (λ r. r.aggregate_id ≡ id → signed_ltb n r.sequence ≡ false) t.events
    × (((r : EventRow) × Memᴰ r t.events × (r.aggregate_id ≡ id) × (r.sequence ≡ n))
        ⊎ ((n ≡ 0) × All (λ r. ¬ (r.aggregate_id ≡ id)) t.events))

module _ {d : Domain} (db : Database d) where
  open db use {World, exec_ddl, insert_event, insert_outbox, mark_processed, select_by_aggregate}
  open db use {select_since, select_by_email_hash, select_max_sequence, select_pending}
  open db use {new_uuid, now, ctx_err, text_before}

  module _ (tables : World → Tables) where
    -- A statement that took effect, and one that failed.
    abbrev pub Done : Tables → World × Option Error → Type 0
    Done t (w, e) = (e ≡ none) × (tables w ≡ t)

    abbrev pub Refused : Tables → World × Option Error → Type 0
    Refused t (w, e) = ((x : Error) × (e ≡ some x)) × (tables w ≡ t)

    -- What a SELECT leaves alone, and what its rows are if they come completely.
    abbrev pub Answers : (Tables → List EventRow → Type 0) → Tables → World × Result Rows → Type 0
    Answers P t (w, r) =
        (tables w ≡ t)
        × ((rows : Rows) (answer : List EventRow)
            → r ≡ ok rows
            → complete rows ≡ some answer
            → P t answer)

    pub record DatabaseLaws : Type 0 where
      pub exec_ddl-tables : (w : World) (s : Ddl) → tables (exec_ddl w s).0 ≡ tables w
      pub insert_event-tables :
          (w : World) (r : EventRow)
          → ((clashes (tables w).events r ≡ false)
              × Done
                  (record (tables w) { events = (tables w).events ++ r ∷ [] })
                  (insert_event w r))
            ⊎ Refused
                (record (tables w) { refused = (tables w).refused ++ r ∷ [] })
                (insert_event w r)
      pub insert_outbox-tables :
          (w : World) (r : EventRow) (at : String)
          → ((is_staged (tables w).outbox r.id ≡ false)
              × Done
                  (record (tables w) {
                    outbox =
                        (tables w).outbox
                        ++ record { event = r; inserted_at = at; processed = false } ∷ [];
                  })
                  (insert_outbox w r at))
            ⊎ Refused (tables w) (insert_outbox w r at)
      pub mark_processed-tables :
          (w : World) (id : String)
          → Done
              (record (tables w) { outbox = map (mark id) (tables w).outbox })
              (mark_processed w id)
            ⊎ Refused (tables w) (mark_processed w id)
      pub select_by_aggregate-answers :
          (w : World) (id : String)
          → Answers
              (Selects (λ r. r.aggregate_id == id) (λ r s. signed_ltb r.sequence s.sequence))
              (tables w)
              (select_by_aggregate w id)
      pub select_since-answers :
          (w : World) (at : String)
          → Answers
              (Selects
                (λ r. text_before at r.occurred_at)
                (λ r s. text_before r.occurred_at s.occurred_at))
              (tables w)
              (select_since w at)
      pub select_by_email_hash-answers :
          (w : World) (hash at : String)
          → Answers
              (Selects
                (λ r. (r.email_hash == hash) && not (text_before r.occurred_at at))
                (λ r s. text_before r.occurred_at s.occurred_at))
              (tables w)
              (select_by_email_hash w hash at)
      pub select_pending-answers :
          (w : World) → Answers (SelectsPending text_before) (tables w) (select_pending w)
      pub select_max_sequence-tables :
          (w : World) (id : String) → tables (select_max_sequence w id).0 ≡ tables w
      pub select_max_sequence-answer :
          (w : World) (id : String) (n : Int64)
          → (select_max_sequence w id).1 ≡ ok n
          → IsMaxSequence id (tables w) n
      pub new_uuid-tables : (w : World) → tables (new_uuid w).0 ≡ tables w
      pub now-tables : (w : World) → tables (now w).0 ≡ tables w
      pub ctx_err-tables : (w : World) → tables (ctx_err w).0 ≡ tables w
      -- a new id is not empty
      pub new_uuid-ne : (w : World) → (new_uuid w).1 ≢ ""

  -- Go's conversions of a text to bytes and back give the text, and so does reading a time that was
  -- written and writing it again.
  pub record TextLaws : Type 0 where
    pub text_of_bytes-bytes_of_text : (s : String) → db.text_of_bytes (db.bytes_of_text s) ≡ s
    pub format_time-parse_time :
        (t t' : d.Time)
        → db.parse_time (db.format_time t) ≡ ok t'
        → db.format_time t' ≡ db.format_time t
