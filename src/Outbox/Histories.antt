-- ===== src/Outbox/Histories.antt =====
-- What holds after any history of calls of the event store and the outbox (store.go, outbox.go).
use mathlib.Core.List.Memᴰ
use kite_mcp_eventsourcing.Prelude.{
  String, ◌≡◌, refl, sym, ap, subst, inl, inr, none, List, [], ◌∷◌, ◌++◌, map, All-Memᴰ, Memᴰ,
  arith,
}
use kite_mcp_eventsourcing.Result.{on_error}
use kite_mcp_eventsourcing.Domain.{Domain}
use kite_mcp_eventsourcing.Stored.{StoredEvent}
use kite_mcp_eventsourcing.Database.{EventRow, OutboxRow, Database}
use kite_mcp_eventsourcing.Database.Laws.{Tables, mark, DatabaseLaws, TextLaws}
use kite_mcp_eventsourcing.Store.{to_row, with_id}
use kite_mcp_eventsourcing.Outbox.{append_to_outbox}
use kite_mcp_eventsourcing.Outbox.Settled.{IsSettled}
use kite_mcp_eventsourcing.Outbox.History.{
  Call, outbox_call, step, Grows, IsKeptByMark, staged, run, drain-keeps, run-keeps,
}
use kite_mcp_eventsourcing.Outbox.Delivery.{run-IsSound}

map-mark :
    (id : String) (rows : List OutboxRow)
    → map (λ r. r.event) (map (mark id) rows) ≡ map (λ r. r.event) rows
map-mark id [] = refl
map-mark id (r ∷ rows) = ap (λ rest. r.event ∷ rest) (map-mark id rows)

-- The outbox has a row with this event.
abbrev Holds : EventRow → Tables → Type 0
Holds e t = Memᴰ e (map (λ r. r.event) t.outbox)

Holds-append :
    (e : EventRow) (rows more : List OutboxRow)
    → Memᴰ e (map (λ r. r.event) rows)
    → Memᴰ e (map (λ r. r.event) (rows ++ more))
Holds-append e [] more m = elim m [ ]
Holds-append e (r ∷ rows) more (Memᴰ.head same) = Memᴰ.head same
Holds-append e (r ∷ rows) more (Memᴰ.tail m) = Memᴰ.tail (Holds-append e rows more m)

Holds-staged :
    (e : EventRow) (rows : List OutboxRow) (at : String)
    → Memᴰ e (map (λ r. r.event) (rows ++ staged e at ∷ []))
Holds-staged e [] at = Memᴰ.head refl
Holds-staged e (r ∷ rows) at = Memᴰ.tail (Holds-staged e rows at)

Holds-grows : {d : Domain} {db : Database d} (e : EventRow) → Grows db (Holds e)
Holds-grows {db = db} e = record {
  insert = λ t r h. h;
  refuse = λ t r h. h;
  stage = λ t r at fresh h. Holds-append e t.outbox (staged (to_row db r) at ∷ []) h;
}

Holds-mark : (e : EventRow) → IsKeptByMark (Holds e)
Holds-mark e t id h = subst (Memᴰ e) (sym (map-mark id t.outbox)) h

module _ {d : Domain} {db : Database d} {tables : db.World → Tables}
    (laws : DatabaseLaws db tables) where
  open db use {World, now, insert_outbox, format_time}

  append_to_outbox-Holds :
      (w : World) (e : StoredEvent d)
      → (append_to_outbox db w e).1 ≡ none
      → Holds (to_row db (with_id db w e).1) (tables (append_to_outbox db w e).0)
  unfolding append_to_outbox on_error
  append_to_outbox-Holds w e h =
      let w1 = (with_id db w e).0 in
      let r = to_row db (with_id db w e).1 in
      let w2 = (now w1).0 in
      let at = format_time (now w1).1 in
      elim (laws.insert_outbox-tables w2 r at) [
        | inr ((x, failed), _) ↦ absurd (ground (arith, failed))
        | inl (_, (done, after)) ↦
            rw done (subst (Holds r) (sym after) (Holds-staged r (tables w2).outbox at))
      ]

  -- No event is lost silently. For texts that read back: take any history of calls that starts
  -- with an empty outbox, then an `AppendToOutbox` that returns no error, and then any calls that
  -- follow, whatever fails in them. The outbox has a row with the event, under the id that it has
  -- or was given, and that row is still to be drained, or the event table has a row that is the
  -- event in every column, or the database has refused the insertion of that row.
  pub append_to_outbox-IsSettled :
      TextLaws db
      → (start : World) (before after : List (Call d)) (e : StoredEvent d)
      → (tables start).outbox ≡ []
      → (append_to_outbox db (run db start before) e).1 ≡ none
      → let t = tables (run db (append_to_outbox db (run db start before) e).0 after) in
        (r : OutboxRow) × Memᴰ r t.outbox
        × (r.event ≡ to_row db (with_id db (run db start before) e).1)
        × IsSettled t r
  unfolding step
  append_to_outbox-IsSettled texts start before after e empty added =
      let w = (append_to_outbox db (run db start before) e).0 in
      let row = to_row db (with_id db (run db start before) e).1 in
      let grows = Holds-grows row in
      let sound = run-IsSound laws texts w after (
        run-IsSound laws texts (run db start before) (outbox_call e ∷ [])
          (run-IsSound laws texts start before (rw empty ((tt, tt), tt)))) in
      let held = append_to_outbox-Holds (run db start before) e added in
      let stays = run-keeps laws grows (drain-keeps laws grows (Holds-mark row)) w after held in
      let (r, there, same) = Memᴰ.of_map (λ r. r.event) _ stays in
      (r, there, same, All-Memᴰ (IsSettled (tables (run db w after))) there sound.1)
