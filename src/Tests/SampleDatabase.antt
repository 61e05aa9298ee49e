-- ===== src/Tests/SampleDatabase.antt =====
-- A concrete database for the instances of the theorems: the two tables as lists, ids that are
-- counted, and a clock that stands still. No statement fails but by a key.
use kite_mcp_eventsourcing.Prelude.{
  ℕ, suc, zero, String, Bool, false, not, ◌&&◌, Option, none, some, List, [], ◌∷◌, ◌++◌, map, take,
  nat_eq, ltb, ◌==◌, if◌then◌else◌,
}
use kite_mcp_eventsourcing.Prelude.Word.{Int64, signed_ltb}
use kite_mcp_eventsourcing.Result.{Error, message, Result, ok, err}
use kite_mcp_eventsourcing.Collections.{filtered}
use kite_mcp_eventsourcing.Database.{EventRow, OutboxRow, Rows, Database}
use kite_mcp_eventsourcing.Database.Laws.{Tables, clashes, is_staged, mark}
use kite_mcp_eventsourcing.Tests.{Token, text, number, sample}
use kite_mcp_eventsourcing.Tests.SampleCollections.{sample_collections}

pub record Disk : Type 0 where
  pub events : List EventRow
  pub outbox : List OutboxRow
  pub refused : List EventRow
  pub ids : ℕ

abbrev pub tables_of : Disk → Tables
tables_of w = record { events = w.events; outbox = w.outbox; refused = w.refused }

abbrev pub time_text : ℕ → String
time_text zero = "2026-01-02T09:15:00Z"
time_text (suc zero) = "2026-01-02T09:15:01Z"
time_text (suc (suc zero)) = "2026-01-02T09:15:02Z"
time_text (suc (suc (suc zero))) = "2026-01-02T09:15:03Z"
time_text _ = "2026-01-02T09:16:00Z"

abbrev pub time_of : String → Result ℕ
time_of s =
    if s == time_text 0
    then ok 0
    else if s == time_text 1
    then ok 1
    else if s == time_text 2
    then ok 2
    else if s == time_text 3
    then ok 3
    else if s == time_text 4
    then ok 4
    else err (message "cannot parse")

abbrev pub rank : String → ℕ
rank s = elim (time_of s) [ ok t ↦ t | err e ↦ 5 ]

abbrev pub text_of : List Token → String
text_of [] = ""
text_of (text a ∷ []) = if a == "" then "{}" else a
text_of (text a ∷ text b ∷ text c ∷ text e ∷ text f ∷ text g ∷ number q ∷ number p ∷ []) =
    if (a == "u@example.com") && nat_eq q 10 then "{placed}" else "?"
text_of _ = "?"

abbrev pub tokens_of : String → List Token
tokens_of s =
    if s == ""
    then []
    else if s == "{}"
    then text "" ∷ []
    else if s == "{placed}"
    then text "u@example.com"
      ∷ text "NSE"
      ∷ text "INFY"
      ∷ text "BUY"
      ∷ text "LIMIT"
      ∷ text "CNC"
      ∷ number 10
      ∷ number 1500
      ∷ []
    else text s ∷ []

abbrev pub all_rows : List EventRow → Rows
all_rows rows = record { scanned = map ok rows; ending = none }

abbrev pub by_sequence : EventRow → EventRow → Bool
by_sequence r s = signed_ltb r.sequence s.sequence

abbrev pub by_time : EventRow → EventRow → Bool
by_time r s = ltb (rank r.occurred_at) (rank s.occurred_at)

abbrev pub by_insertion : OutboxRow → OutboxRow → Bool
by_insertion r s = ltb (rank r.inserted_at) (rank s.inserted_at)

abbrev pub of_aggregate : String → EventRow → Bool
of_aggregate id r = r.aggregate_id == id

abbrev pub is_later : String → EventRow → Bool
is_later at r = ltb (rank at) (rank r.occurred_at)

abbrev pub is_theirs : String → String → EventRow → Bool
is_theirs hash at r = (r.email_hash == hash) && not (ltb (rank r.occurred_at) (rank at))

abbrev pub select : (EventRow → Bool) → (EventRow → EventRow → Bool) → Disk → List EventRow
select test before w = sample_collections.sort_slice before (filtered test w.events)

abbrev pub pending : Disk → List EventRow
pending w =
    map (λ (r : OutboxRow). r.event)
      (take 100
        (sample_collections.sort_slice by_insertion (filtered (λ r. not r.processed) w.outbox)))

abbrev pub larger : EventRow → Option EventRow → EventRow
larger r none = r
larger r (some s) = if signed_ltb r.sequence s.sequence then s else r

-- a row of the aggregate with the largest sequence
abbrev pub last_row : String → List EventRow → Option EventRow
last_row id [] = none
last_row id (r ∷ rows) =
    if r.aggregate_id == id then some (larger r (last_row id rows)) else last_row id rows

abbrev pub number_of : Option EventRow → Int64
number_of none = 0
number_of (some r) = r.sequence

abbrev pub insert_row : Disk → EventRow → Disk × Option Error
insert_row w r =
    if clashes w.events r
    then (record w { refused = w.refused ++ r ∷ [] }, some (message "UNIQUE constraint failed"))
    else (record w { events = w.events ++ r ∷ [] }, none)

abbrev pub stage_row : Disk → EventRow → String → Disk × Option Error
stage_row w r at =
    if is_staged w.outbox r.id then (w, some (message "UNIQUE constraint failed")) else (
      record w {
        outbox = w.outbox ++ record { event = r; inserted_at = at; processed = false } ∷ [];
      },
      none,
    )

abbrev pub id_text : ℕ → String
id_text zero = "id-0"
id_text (suc zero) = "id-1"
id_text _ = "id-2"

abbrev pub sample_db : Database sample
sample_db = record {
  World = Disk;
  exec_ddl = λ w s. (w, none);
  insert_event = insert_row;
  insert_outbox = stage_row;
  mark_processed = λ w id. (record w { outbox = map (mark id) w.outbox }, none);
  select_by_aggregate = λ w id. (w, ok (all_rows (select (of_aggregate id) by_sequence w)));
  select_since = λ w at. (w, ok (all_rows (select (is_later at) by_time w)));
  select_by_email_hash = λ w hash at. (w, ok (all_rows (select (is_theirs hash at) by_time w)));
  select_max_sequence = λ w id. (w, ok (number_of (last_row id w.events)));
  select_pending = λ w. (w, ok (all_rows (pending w)));
  new_uuid = λ w. (record w { ids = suc w.ids }, id_text w.ids);
  now = λ w. (w, 4);
  ctx_err = λ w. (w, none);
  format_time = time_text;
  format_time_seconds = time_text;
  parse_time = time_of;
  text_before = λ s t. ltb (rank s) (rank t);
  text_of_bytes = text_of;
  bytes_of_text = tokens_of;
}
