-- ===== src/Store/Append.antt =====
-- What `Append` leaves in the table, on success and on failure (store.go).
use kite_mcp_eventsourcing.Prelude.{
  arith, String, ◌≡◌, ◌≢◌, ◌⊎◌, refl, sym, ◌∙◌, inl, inr, Option, none, some, List, [], ◌∷◌, ◌++◌,
  append-nil, append_assoc, Bool-cases, ◌==◌, eq_iff,
}
use kite_mcp_eventsourcing.Result.{Error, on_error}
use kite_mcp_eventsourcing.Domain.{Domain}
use kite_mcp_eventsourcing.Stored.{StoredEvent}
use kite_mcp_eventsourcing.Database.{EventRow, Database}
use kite_mcp_eventsourcing.Database.Laws.{Tables, DatabaseLaws}
use kite_mcp_eventsourcing.Store.{to_row, with_id, append}

module _ {d : Domain} (db : Database d) where
  -- The row of an event: its id, if it had none, is one that was made.
  abbrev pub IsRowOf : EventRow → StoredEvent d → Type 0
  IsRowOf r e =
      (id : String) × (r ≡ to_row db (record e { id = id }))
      × (id ≢ "")
      × ((id ≡ e.id) ⊎ (e.id ≡ ""))

  -- The rows of all the events if there was no error, and of the events before one that failed if
  -- there was.
  abbrev pub Written : List EventRow → List (StoredEvent d) → Option Error → Type 0
  Written [] [] none = Unit
  Written [] (e ∷ es) (some x) = Unit
  Written (r ∷ rs) (e ∷ es) x = IsRowOf r e × Written rs es x
  Written _ _ _ = ⊥

module _ {d : Domain} {db : Database d} {tables : db.World → Tables}
    (laws : DatabaseLaws db tables) where
  open db use {World, insert_event, new_uuid}
  open laws use {insert_event-tables, new_uuid-tables}

  pub tables-with_id : (w : World) (e : StoredEvent d) → tables (with_id db w e).0 ≡ tables w
  unfolding with_id
  tables-with_id w e = elim (Bool-cases (e.id == "")) [
    | inl h ↦ rw h (new_uuid-tables w)
    | inr h ↦ rw h
  ]

  pub with_id-IsRowOf :
      (w : World) (e : StoredEvent d) → IsRowOf db (to_row db (with_id db w e).1) e
  unfolding with_id
  with_id-IsRowOf w e = elim (Bool-cases (e.id == "")) [
    | inl h ↦ rw h ((new_uuid w).1, refl, laws.new_uuid-ne w, inr ((eq_iff e.id "").0 h))
    | inr h ↦ rw h (e.id, refl, (λ empty. ground (arith, h, eq_iff e.id "", empty)), inl refl)
  ]

  -- `Append` adds to the events, after those in the table, the rows of all its events in their
  -- order if it returns no error, and otherwise those of the events before the one that failed. A
  -- row has its event's id, or an id that is not empty if the event has none. The outbox is left
  -- alone.
  pub append-Written :
      (w : World) (es : List (StoredEvent d))
      → (rows : List EventRow) × ((tables (append db w es).0).events ≡ (tables w).events ++ rows)
        × ((tables (append db w es).0).outbox ≡ (tables w).outbox)
        × Written db rows es (append db w es).1
  unfolding append on_error
  append-Written w [] = ([], sym (append-nil (tables w).events), refl, tt)
  append-Written w (e ∷ es) =
      let w1 = (with_id db w e).0 in
      let r = to_row db (with_id db w e).1 in
      let kept = tables-with_id w e in
      elim (insert_event-tables w1 r) [
        | inl (_, (done, after)) ↦
            let (rows, events, outbox, written) = append-Written (insert_event w1 r).0 es in
            (
              r ∷ rows,
              rw done (events ∙ rw (after, kept, append_assoc)),
              rw done (outbox ∙ rw (after, kept)),
              rw done (with_id-IsRowOf w e, written),
            )
        | inr ((x, failed), after) ↦
            ([], rw (failed, after, kept, append-nil), rw (failed, after, kept), rw failed tt)
      ]
