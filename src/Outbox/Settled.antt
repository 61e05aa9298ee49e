-- ===== src/Outbox/Settled.antt =====
-- The events that `Drain` takes from the outbox, and the event table (outbox.go).
use kite_mcp_eventsourcing.Prelude.{
  String, false, ◌≡◌, sym, ap, subst, ◌∙◌, ◌⊎◌, inl, inr, List, [], ◌∷◌, ◌++◌, map, All, Memᴰ,
  Memᴰ-append, Memᴰ-added, Bool-cases, Option-cases, ◌==◌, eq_iff,
}
use kite_mcp_eventsourcing.Prelude.Word.{Int64, add}
use kite_mcp_eventsourcing.Result.{on_error}
use kite_mcp_eventsourcing.Domain.{Domain}
use kite_mcp_eventsourcing.Stored.{StoredEvent}
use kite_mcp_eventsourcing.Database.{EventRow, OutboxRow, Database}
use kite_mcp_eventsourcing.Database.Laws.{Tables, mark, DatabaseLaws}
use kite_mcp_eventsourcing.Store.{to_row}
use kite_mcp_eventsourcing.Outbox.{drain_rows}

-- The row is in the event table, every column of it, or the database has refused its insertion.
abbrev pub IsAttempted : Tables → EventRow → Type 0
IsAttempted t e = Memᴰ e t.events ⊎ Memᴰ e t.refused

-- The row of the outbox waits to be drained, or its event was drained.
abbrev pub IsSettled : Tables → OutboxRow → Type 0
IsSettled t r = (r.processed ≡ false) ⊎ IsAttempted t r.event

abbrev pub AllSettled : Tables → List OutboxRow → Type 0
AllSettled t rows = All (IsSettled t) rows

abbrev pub IsAllSettled : Tables → Type 0
IsAllSettled t = AllSettled t t.outbox

-- A row of the outbox with this id is the row of this event.
abbrev pub Identifies : List OutboxRow → EventRow → Type 0
Identifies outbox e = All (λ r. r.event.id ≡ e.id → r.event ≡ e) outbox

Identifies-mark :
    (id : String) (outbox : List OutboxRow) (e : EventRow)
    → Identifies outbox e
    → Identifies (map (mark id) outbox) e
Identifies-mark id [] e h = tt
Identifies-mark id (r ∷ rows) e (now, later) = (now, Identifies-mark id rows e later)

-- An insertion, whether it succeeds or is refused.
IsAttempted-insert :
    (t : Tables) (r e : EventRow)
    → IsAttempted t e
    → IsAttempted (record t { events = t.events ++ r ∷ [] }) e
IsAttempted-insert t r e (inl m) = inl (Memᴰ-append t.events (r ∷ []) m)
IsAttempted-insert t r e (inr m) = inr m

IsAttempted-refuse :
    (t : Tables) (r e : EventRow)
    → IsAttempted t e
    → IsAttempted (record t { refused = t.refused ++ r ∷ [] }) e
IsAttempted-refuse t r e (inl m) = inl m
IsAttempted-refuse t r e (inr m) = inr (Memᴰ-append t.refused (r ∷ []) m)

-- What is settled stays so where the attempts stay.
AllSettled-more :
    (t t' : Tables) (rows : List OutboxRow)
    → ((e : EventRow) → IsAttempted t e → IsAttempted t' e)
    → AllSettled t rows
    → AllSettled t' rows
AllSettled-more t t' [] more h = tt
AllSettled-more t t' (r ∷ rows) more (inl waits, h) = (inl waits, AllSettled-more t t' rows more h)
AllSettled-more t t' (r ∷ rows) more (inr there, h) =
    (inr (more r.event there), AllSettled-more t t' rows more h)

pub AllSettled-insert :
    (t : Tables) (r : EventRow) (rows : List OutboxRow)
    → AllSettled t rows
    → AllSettled (record t { events = t.events ++ r ∷ [] }) rows
AllSettled-insert t r rows h =
    AllSettled-more t (record t { events = t.events ++ r ∷ [] }) rows (IsAttempted-insert t r) h

pub AllSettled-refuse :
    (t : Tables) (r : EventRow) (rows : List OutboxRow)
    → AllSettled t rows
    → AllSettled (record t { refused = t.refused ++ r ∷ [] }) rows
AllSettled-refuse t r rows h =
    AllSettled-more t (record t { refused = t.refused ++ r ∷ [] }) rows (IsAttempted-refuse t r) h

AllSettled-mark :
    (t : Tables) (e : EventRow) (rows : List OutboxRow)
    → IsAttempted t e
    → Identifies rows e
    → AllSettled t rows
    → AllSettled t (map (mark e.id) rows)
AllSettled-mark t e [] there only h = tt
AllSettled-mark t e (r ∷ rows) there (one, only) (now, later) = (
  elim (Bool-cases (r.event.id == e.id)) [
    | inl h ↦ inr (subst (IsAttempted t) (sym (one ((eq_iff r.event.id e.id).0 h))) there)
    | inr h ↦ rw h now
  ],
  AllSettled-mark t e rows there only later,
)

module _ {d : Domain} {db : Database d} {tables : db.World → Tables}
    (laws : DatabaseLaws db tables) where
  open db use {World, insert_event, mark_processed, ctx_err}
  open laws use {insert_event-tables, mark_processed-tables, ctx_err-tables}

  pub outbox-insert_event :
      (w : World) (r : EventRow) → (tables (insert_event w r).0).outbox ≡ (tables w).outbox
  outbox-insert_event w r = elim (insert_event-tables w r) [
    | inl (_, (done, after)) ↦ ap (λ (t : Tables). t.outbox) after
    | inr (_, after) ↦ ap (λ (t : Tables). t.outbox) after
  ]

  insert_event-IsAttempted :
      (w : World) (r : EventRow) → IsAttempted (tables (insert_event w r).0) r
  insert_event-IsAttempted w r = elim (insert_event-tables w r) [
    | inl (_, (done, after)) ↦
        subst (λ t. IsAttempted t r) (sym after) (inl (Memᴰ-added r (tables w).events))
    | inr (_, after) ↦
        subst (λ t. IsAttempted t r) (sym after) (inr (Memᴰ-added r (tables w).refused))
  ]

  insert_event-AllSettled :
      (w : World) (r : EventRow) (rows : List OutboxRow)
      → AllSettled (tables w) rows
      → AllSettled (tables (insert_event w r).0) rows
  insert_event-AllSettled w r rows h = elim (insert_event-tables w r) [
    | inl (_, (done, after)) ↦
        subst (λ t. AllSettled t rows) (sym after) (AllSettled-insert (tables w) r rows h)
    | inr (_, after) ↦
        subst (λ t. AllSettled t rows) (sym after) (AllSettled-refuse (tables w) r rows h)
  ]

  All-Identifies-mark :
      (id : String) (outbox : List OutboxRow) (events : List (StoredEvent d))
      → All (λ e. Identifies outbox (to_row db e)) events
      → All (λ e. Identifies (map (mark id) outbox) (to_row db e)) events
  All-Identifies-mark id outbox [] h = tt
  All-Identifies-mark id outbox (e ∷ events) (now, later) =
      (Identifies-mark id outbox (to_row db e) now, All-Identifies-mark id outbox events later)

  pub drain_rows-AllSettled :
      (w : World) (n : Int64) (events : List (StoredEvent d))
      → All (λ e. Identifies (tables w).outbox (to_row db e)) events
      → IsAllSettled (tables w)
      → IsAllSettled (tables (drain_rows db w n events).0)
  unfolding drain_rows on_error
  drain_rows-AllSettled w n [] ids h = h
  drain_rows-AllSettled w n (e ∷ rest) (id, ids) h =
      let r = to_row db e in
      let w1 = (ctx_err w).0 in
      let w2 = (insert_event w1 r).0 in
      let w3 = (mark_processed w2 e.id).0 in
      let same = ctx_err-tables w in
      let outbox : (tables w2).outbox ≡ (tables w).outbox =
        outbox-insert_event w1 r ∙ ap (λ (t : Tables). t.outbox) same in
      let h2 : IsAllSettled (tables w2) =
        subst (AllSettled (tables w2)) (sym outbox)
          (insert_event-AllSettled w1 r (tables w).outbox (rw same h)) in
      elim (Option-cases (ctx_err w).1) [
        | inr (x, cancelled) ↦ rw cancelled (rw same h)
        | inl going ↦ rw going (elim (mark_processed-tables w2 e.id) [
          | inr ((x, failed), kept) ↦ rw failed (subst IsAllSettled (sym kept) h2)
          | inl (marked, after) ↦ rw marked (
              drain_rows-AllSettled w3 (add n 1) rest
                (rw (after, outbox) (All-Identifies-mark e.id (tables w).outbox rest ids))
                (subst IsAllSettled (sym after) (
                  AllSettled-mark (tables w2) r (tables w2).outbox (insert_event-IsAttempted w1 r)
                    (rw outbox id) h2)))
        ])
      ]
