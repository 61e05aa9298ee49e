-- ===== src/Outbox/Delivery.antt =====
-- The rows of the outbox over any history of calls (store.go, outbox.go).
use kite_mcp_eventsourcing.Prelude.{
  String, false, ap, map, inr, ◌++◌, not, ◌≡◌, ◌≢◌, refl, sym, subst, ◌∙◌, inl, List, [], ◌∷◌, All,
  All-append, All-mp, All-take, take,
}
use mathlib.Core.List.Permᴰ
use kite_mcp_eventsourcing.Result.{ok, Result-cases, ok-injective, err-ne-ok}
use kite_mcp_eventsourcing.Domain.{Domain}
use kite_mcp_eventsourcing.Stored.{StoredEvent}
use kite_mcp_eventsourcing.Collections.{All-filtered, All-Permᴰ}
use kite_mcp_eventsourcing.Database.{EventRow, OutboxRow, Database}
use kite_mcp_eventsourcing.Database.Laws.{
  Tables, is_staged, mark, SelectsPending, DatabaseLaws, TextLaws,
}
use kite_mcp_eventsourcing.Database.Keys.{
  IsStagedOnce, is_staged-ne, IsStagedOnce-mark, IsStagedOnce-append,
}
use kite_mcp_eventsourcing.Store.{to_row, from_row}
use kite_mcp_eventsourcing.Store.Scan.{Reads, scan_events-Reads}
use kite_mcp_eventsourcing.Outbox.{drain}
use kite_mcp_eventsourcing.Outbox.Settled.{
  IsSettled, Identifies, AllSettled-insert, AllSettled-refuse, IsAllSettled, drain_rows-AllSettled,
}
use kite_mcp_eventsourcing.Outbox.History.{
  Call, Grows, staged, run, drain_rule, drain-keeps, run-keeps,
}

Identifies-ne :
    (rows : List OutboxRow) (e : EventRow) → All (λ r. r.event.id ≢ e.id) rows → Identifies rows e
Identifies-ne [] e h = tt
Identifies-ne (r ∷ rows) e (now, later) = (λ same. absurd (now same), Identifies-ne rows e later)

-- With unique ids each row of the outbox is identified by its own.
IsStagedOnce-Identifies :
    (rows : List OutboxRow) → IsStagedOnce rows → All (λ r. Identifies rows r.event) rows
IsStagedOnce-Identifies [] h = tt
IsStagedOnce-Identifies (s ∷ rows) (once, h) =
    let others = is_staged-ne rows s.event.id once in
    (
      (λ _. refl, Identifies-ne rows s.event others),
      All-mp _ _ rows (IsStagedOnce-Identifies rows h) (other rows others),
    )
  where
    other :
        (rest : List OutboxRow)
        → All (λ r. r.event.id ≢ s.event.id) rest
        → All (λ r. Identifies rows r.event → Identifies (s ∷ rows) r.event) rest
    other [] h = tt
    other (r ∷ rest) (now, later) = (λ i. (λ same. absurd (now (sym same)), i), other rest later)

module _ {d : Domain} (db : Database d) where
  open db use {format_time, parse_time}

  -- The row's time is a text that a time is written as.
  abbrev pub IsFormatted : OutboxRow → Type 0
  IsFormatted r = (t : d.Time) × (r.event.occurred_at ≡ format_time t)

  module _ (texts : TextLaws db) where
    -- An event that was read from a row is written back as that row.
    to_row-from_row :
        (r : OutboxRow) (e : StoredEvent d)
        → IsFormatted r
        → from_row db r.event ≡ ok e
        → to_row db e ≡ r.event
    to_row-from_row r e (t, at) h = elim (Result-cases (parse_time r.event.occurred_at)) [
      | inr (x, bad) ↦ absurd (err-ne-ok (rw bad at h))
      | inl (t', read) ↦
          let written : format_time t' ≡ r.event.occurred_at =
            texts.format_time-parse_time t t' (ap parse_time (sym at) ∙ read) ∙ sym at in
          ap (to_row db) (sym (ok-injective (rw read at h)))
          ∙ rw (written, texts.text_of_bytes-bytes_of_text)
    ]

    Identifies-Reads :
        (outbox batch : List OutboxRow) (events : List (StoredEvent d))
        → Reads db (map (λ r. r.event) batch) events
        → All IsFormatted batch
        → All (λ r. Identifies outbox r.event) batch
        → All (λ e. Identifies outbox (to_row db e)) events
    Identifies-Reads outbox [] [] reads fs h = tt
    Identifies-Reads outbox [] (e ∷ events) reads fs h = elim reads [ ]
    Identifies-Reads outbox (r ∷ batch) [] reads fs h = elim reads [ ]
    Identifies-Reads outbox (r ∷ batch) (e ∷ events) (read, reads) (f, fs) (now, later) = (
      subst (Identifies outbox) (sym (to_row-from_row r e f read)) now,
      Identifies-Reads outbox batch events reads fs later,
    )

  -- Every row of the outbox has an id of its own and a time that can be read back.
  abbrev pub IsStaged : Tables → Type 0
  IsStaged t = IsStagedOnce t.outbox × All IsFormatted t.outbox

  abbrev pub IsSound : Tables → Type 0
  IsSound t = IsStaged t × IsAllSettled t

  All-IsFormatted-mark :
      (id : String) (rows : List OutboxRow)
      → All IsFormatted rows
      → All IsFormatted (map (mark id) rows)
  All-IsFormatted-mark id [] h = tt
  All-IsFormatted-mark id (r ∷ rows) (now, h) = (now, All-IsFormatted-mark id rows h)

  stage-IsStaged :
      (t : Tables) (e : StoredEvent d) (at : String)
      → is_staged t.outbox e.id ≡ false
      → IsStaged t
      → IsStaged (record t { outbox = t.outbox ++ staged (to_row db e) at ∷ [] })
  stage-IsStaged t e at fresh (once, formatted) = (
    IsStagedOnce-append t.outbox (staged (to_row db e) at) fresh once,
    All-append IsFormatted t.outbox (staged (to_row db e) at ∷ []) formatted
        ((e.occurred_at, refl), tt),
  )

  IsStaged-grows : Grows db IsStaged
  IsStaged-grows = record { insert = λ t r h. h; refuse = λ t r h. h; stage = stage-IsStaged }

  IsSound-grows : Grows db IsSound
  IsSound-grows = record {
    insert = λ t r (h, settled). (h, AllSettled-insert t r t.outbox settled);
    refuse = λ t r (h, settled). (h, AllSettled-refuse t r t.outbox settled);
    stage = λ t e at fresh (h, settled). (
      stage-IsStaged t e at fresh h,
      All-append (IsSettled t) t.outbox (staged (to_row db e) at ∷ []) settled (inl refl, tt),
    );
  }

module _ {d : Domain} {db : Database d} {tables : db.World → Tables} (laws : DatabaseLaws db tables)
    (texts : TextLaws db) where
  open db use {World, select_pending, text_before}

  pending-Identifies :
      (t : Tables) (answer : List EventRow) (events : List (StoredEvent d))
      → IsStaged db t
      → SelectsPending text_before t answer
      → Reads db answer events
      → All (λ e. Identifies t.outbox (to_row db e)) events
  pending-Identifies t answer events (once, formatted) (all, perm, sorted, same) reads =
      Identifies-Reads db texts t.outbox (take 100 all) events
        (subst (λ a. Reads db a events) same reads) (first (IsFormatted db) formatted)
        (first (λ r. Identifies t.outbox r.event) (IsStagedOnce-Identifies t.outbox once))
    where
      first : (P : OutboxRow → Type 0) → All P t.outbox → All P (take 100 all)
      first P h =
          All-take P 100 all
            (All-Permᴰ P (Permᴰ.symm perm) (All-filtered P (λ r. not r.processed) t.outbox h))

  pub drain-IsSound : (w : World) → IsSound db (tables w) → IsSound db (tables (drain db w).0)
  drain-IsSound w (h, settled) =
      let same = (laws.select_pending-answers w).0 in
      (
        drain-keeps laws (IsStaged-grows db)
            (λ t id (once, formatted).
              (IsStagedOnce-mark id t.outbox once, All-IsFormatted-mark db id t.outbox formatted))
            w h,
        drain_rule db (λ w. IsAllSettled (tables w)) w (rw same settled)
            λ rows events came read.
              let (answer, complete, reads) = (scan_events-Reads db rows events).0 read in
              let selects = (laws.select_pending-answers w).1 rows answer came complete in
              drain_rows-AllSettled laws _ 0 events
                (rw same (pending-Identifies (tables w) answer events h selects reads))
                (rw same settled),
      )

  pub run-IsSound :
      (w : World) (cs : List (Call d)) → IsSound db (tables w) → IsSound db (tables (run db w cs))
  run-IsSound w cs h = run-keeps laws (IsSound-grows db) drain-IsSound w cs h
