-- ===== src/Outbox/Progress.antt =====
-- What `Drain` leaves waiting when nothing keeps it from working (outbox.go).
use kite_mcp_eventsourcing.Prelude.{
  ℕ, ◌+◌, ◌-◌, ◌≤◌, String, ◌≡◌, refl, sym, ap, subst, ◌∙◌, inl, inr, Option, none, some, List, [],
  ◌∷◌, map, take, length, length-take, All, All-map, All-take, arith,
}
use mathlib.Core.List.Permᴰ
use kite_mcp_eventsourcing.Prelude.Word.{Int64, add}
use kite_mcp_eventsourcing.Result.{Error, ok, on_error}
use kite_mcp_eventsourcing.Collections.{All-filtered, All-Permᴰ, length-Permᴰ}
use kite_mcp_eventsourcing.Domain.{Domain}
use kite_mcp_eventsourcing.Stored.{StoredEvent}
use kite_mcp_eventsourcing.Database.{EventRow, OutboxRow, Rows, Database}
use kite_mcp_eventsourcing.Database.Laws.{Tables, mark, complete, DatabaseLaws}
use kite_mcp_eventsourcing.Database.Keys.{IsStagedOnce, IsStagedOnce-mark}
use kite_mcp_eventsourcing.Store.{to_row, from_row}
use kite_mcp_eventsourcing.Store.Scan.{Reads, scan_events-Reads}
use kite_mcp_eventsourcing.Outbox.{drain_rows, drain}
use kite_mcp_eventsourcing.Outbox.Settled.{outbox-insert_event}
use kite_mcp_eventsourcing.Outbox.Waiting.{
  is_waiting, waiting, waiting-mark, IsBatch, IsBatch-pending, IsBatch-mark,
}

module _ {d : Domain} (db : Database d) where
  open db use {World, mark_processed, select_pending, ctx_err, parse_time}

  -- No context is cancelled, no update fails, and every row of a query comes.
  pub record IsResponsive : Type 0 where
    pub ctx_err-none : (w : World) → (ctx_err w).1 ≡ none
    pub mark_processed-none : (w : World) (id : String) → (mark_processed w id).1 ≡ none
    pub select_pending-complete :
        (w : World)
        → (rows : Rows) × (answer : List EventRow) × ((select_pending w).1 ≡ ok rows)
          × (complete rows ≡ some answer)

  abbrev pub IsReadable : EventRow → Type 0
  IsReadable r = (t : d.Time) × (parse_time r.occurred_at ≡ ok t)

  -- The ids of the outbox are apart and its times can be read.
  abbrev pub IsDrainable : List OutboxRow → Type 0
  IsDrainable rows = IsStagedOnce rows × All (λ r. IsReadable r.event) rows

  IsDrainable-mark :
      (id : String) (rows : List OutboxRow) → IsDrainable rows → IsDrainable (map (mark id) rows)
  IsDrainable-mark id rows (once, readable) =
      (IsStagedOnce-mark id rows once, All-map (λ r. IsReadable r.event) (mark id) rows readable)

  from_row-IsReadable : (r : EventRow) → IsReadable r → (e : StoredEvent d) × (from_row db r ≡ ok e)
  from_row-IsReadable r (t, parsed) = (
    record {
      id = r.id;
      aggregate_id = r.aggregate_id;
      aggregate_type = r.aggregate_type;
      event_type = r.event_type;
      payload = db.bytes_of_text r.payload;
      occurred_at = t;
      sequence = r.sequence;
      email_hash = r.email_hash;
    },
    rw parsed,
  )

  readable-Reads :
      (answer : List EventRow)
      → All IsReadable answer
      → (events : List (StoredEvent d)) × Reads db answer events
  readable-Reads [] h = ([], tt)
  readable-Reads (r ∷ answer) (now, later) =
      let (e, read) = from_row-IsReadable r now in
      let (events, reads) = readable-Reads answer later in (e ∷ events, (read, reads))

module _ {d : Domain} {db : Database d} {tables : db.World → Tables} (laws : DatabaseLaws db tables)
    (responds : IsResponsive db) where
  open db use {World, insert_event, mark_processed, select_pending, ctx_err, text_before}

  -- Nothing failed, and so many rows are waiting no more.
  abbrev pub Drained : List OutboxRow → Int64 → ℕ → World × Int64 × Option Error → Type 0
  Drained outbox n count (w', m, failed) =
      (failed ≡ none)
      × (m ≡ n + count)
      × IsDrainable db (tables w').outbox
      × (waiting (tables w').outbox + count ≡ waiting outbox)

  drain_rows-Drained :
      (w : World) (n : Int64) (batch : List OutboxRow) (events : List (StoredEvent d))
      → n + length batch ≤ 100
      → Reads db (map (λ r. r.event) batch) events
      → IsDrainable db (tables w).outbox
      → IsBatch (tables w).outbox batch
      → Drained (tables w).outbox n (length batch) (drain_rows db w n events)
  unfolding drain_rows on_error
  drain_rows-Drained w n [] [] small reads drainable apart =
      (refl, omega arith, drainable, omega arith)
  drain_rows-Drained w n [] (e ∷ events) small reads drainable apart = elim reads [ ]
  drain_rows-Drained w n (r ∷ batch) [] small reads drainable apart = elim reads [ ]
  drain_rows-Drained w n (r ∷ batch) (e ∷ events) small (read, reads) drainable apart =
      let w1 = (ctx_err w).0 in
      let w2 = (insert_event w1 (to_row db e)).0 in
      let w3 = (mark_processed w2 e.id).0 in
      let same_id : e.id ≡ r.event.id = ground arith in
      let outbox : (tables w2).outbox ≡ (tables w).outbox =
        outbox-insert_event laws w1 (to_row db e)
        ∙ ap (λ (t : Tables). t.outbox) (laws.ctx_err-tables w) in
      let after : (tables w3).outbox ≡ map (mark r.event.id) (tables w).outbox =
        elim (laws.mark_processed-tables w2 e.id) [
          | inl (_, done) ↦ rw (done, outbox, same_id)
          | inr ((x, failed), _) ↦
              absurd (ground (arith, failed, responds.mark_processed-none w2 e.id))
        ] in
      let (failed, count, drainable', left) =
        drain_rows-Drained w3 (add n 1) batch events (omega (arith, small)) reads
          (rw after (IsDrainable-mark db r.event.id (tables w).outbox drainable))
          (rw after (IsBatch-mark (tables w).outbox batch r apart)) in
      let one = waiting-mark (tables w).outbox r.event.id drainable.0 apart.1.0 in
      rw (responds.ctx_err-none w, responds.mark_processed-none w2 e.id)
        (
          failed,
          omega (arith, count, small),
          drainable',
          omega (arith, left, one, ap waiting after),
        )

  pub drain-Drained :
      (w : World)
      → IsDrainable db (tables w).outbox
      → (count : ℕ) × (count + (waiting (tables w).outbox - 100) ≡ waiting (tables w).outbox)
        × Drained (tables w).outbox 0 count (drain db w)
  unfolding drain
  drain-Drained w (once, readable) =
      let (rows, answer, came, complete) = responds.select_pending-complete w in
      let (kept, answers) = laws.select_pending-answers w in
      let (all, perm, sorted, same) = answers rows answer came complete in
      let w1 = (select_pending w).0 in
      let batch = take 100 all in
      let outbox : (tables w1).outbox ≡ (tables w).outbox = ap (λ (t : Tables). t.outbox) kept in
      let fits = length-take 100 all in
      let many : length all ≡ waiting (tables w).outbox = length-Permᴰ perm in
      let readable' =
        All-map (IsReadable db) (λ (r : OutboxRow). r.event) batch
          (All-take _ 100 all (
            All-Permᴰ _ (Permᴰ.symm perm)
              (All-filtered _ is_waiting (tables w).outbox readable))) in
      let (events, reads) = readable-Reads db (map (λ (r : OutboxRow). r.event) batch) readable' in
      let read =
        (scan_events-Reads db rows events).1
          (answer, complete, subst (λ a. Reads db a events) (sym same) reads) in
      let drainable = subst (IsDrainable db) (sym outbox) (once, readable) in
      let apart =
        subst (λ o. IsBatch o batch) (sym outbox)
          (IsBatch-pending 100 (tables w).outbox all once perm) in
      let done = drain_rows-Drained w1 0 batch events (omega (arith, fits)) reads drainable apart in
      (
        length batch,
        omega (arith, fits, many),
        rw (came, read, drain)
            (subst (λ o. Drained o 0 (length batch) (drain_rows db w1 0 events)) outbox done),
      )

  -- For a database on which no update fails and no context is cancelled, and that gives all rows of
  -- a query: if the ids of the outbox are apart and its times can be read, `Drain` returns no
  -- error, and the number that it returns is that of all rows that waited, or 100 if there were
  -- more; all but those are waiting after it.
  pub drain-waiting :
      (w : World)
      → IsDrainable db (tables w).outbox
      → ((drain db w).2 ≡ none)
        × ((drain db w).1 ≡ waiting (tables w).outbox - (waiting (tables w).outbox - 100))
        × (waiting (tables (drain db w).0).outbox ≡ waiting (tables w).outbox - 100)
  drain-waiting w h =
      let (count, fits, (failed, same, _, left)) = drain-Drained w h in
      (failed, omega (arith, fits, same), omega (arith, fits, left))
