-- ===== src/Outbox/Pump.antt =====
-- What the goroutine of the pump brings about (outbox.go).
use kite_mcp_eventsourcing.Prelude.{
  inr, ℕ, suc, ◌-◌, ◌*◌, ◌≤◌, false, ◌≡◌, inl, List, [], ◌∷◌, length, All, arith,
}
use kite_mcp_eventsourcing.Collections.{filtered}
use kite_mcp_eventsourcing.Domain.{Domain}
use kite_mcp_eventsourcing.Database.{OutboxRow, Database}
use kite_mcp_eventsourcing.Database.Laws.{Tables, DatabaseLaws, TextLaws}
use kite_mcp_eventsourcing.Outbox.{drain, Signal, tick, stop, pump_loop, pump}
use kite_mcp_eventsourcing.Outbox.Settled.{IsAttempted, AllSettled}
use kite_mcp_eventsourcing.Outbox.Delivery.{IsFormatted, IsSound, drain-IsSound}
use kite_mcp_eventsourcing.Outbox.Waiting.{waiting}
use kite_mcp_eventsourcing.Outbox.Progress.{IsResponsive, IsDrainable, drain-Drained, drain-waiting}

waiting_le_length : (rows : List OutboxRow) → waiting rows ≤ length rows
unfolding filtered
waiting_le_length [] = omega arith
waiting_le_length (r ∷ rows) = ground (arith, waiting_le_length rows)

settled-IsAttempted :
    (t : Tables) (rows : List OutboxRow)
    → waiting rows ≡ 0
    → AllSettled t rows
    → All (λ r. IsAttempted t r.event) rows
unfolding filtered
settled-IsAttempted t [] h settled = tt
settled-IsAttempted t (r ∷ rows) h (inr there, later) =
    (there, settled-IsAttempted t rows (ground arith) later)
settled-IsAttempted t (r ∷ rows) h (inl waits, later) = absurd (ground arith)

All-inl :
    (t : Tables) (rows : List OutboxRow) → All (λ r. r.processed ≡ false) rows → AllSettled t rows
All-inl t [] h = tt
All-inl t (r ∷ rows) (now, later) = (inl now, All-inl t rows later)

-- how often the loop drains: at each tick until the stop, and at the stop
abbrev pub drains : List Signal → ℕ
drains [] = 0
drains (tick ∷ rest) = suc (drains rest)
drains (stop ∷ rest) = 1

module _ {d : Domain} {db : Database d} {tables : db.World → Tables} (laws : DatabaseLaws db tables)
    (responds : IsResponsive db) where
  open db use {World}

  pump_loop-waiting :
      (w : World) (signals : List Signal)
      → IsDrainable db (tables w).outbox
      → waiting (tables (pump_loop db w signals)).outbox
        ≡ waiting (tables w).outbox - 100 * drains signals
  unfolding pump_loop
  pump_loop-waiting w [] h = omega arith
  pump_loop-waiting w (tick ∷ rest) h =
      let (_, _, (_, _, h', _)) = drain-Drained laws responds w h in
      omega (arith, pump_loop-waiting (drain db w).0 rest h', (drain-waiting laws responds w h).2)
  pump_loop-waiting w (stop ∷ rest) h = omega (arith, (drain-waiting laws responds w h).2)

  -- For a database that responds, an outbox in which the ids are apart and the times can be read,
  -- and any signals: the pump drains a hundred rows at its start and at each of its drains.
  pub pump-waiting :
      (w : World) (signals : List Signal)
      → IsDrainable db (tables w).outbox
      → waiting (tables (pump db w signals)).outbox
        ≡ waiting (tables w).outbox - 100 * suc (drains signals)
  unfolding pump
  pump-waiting w signals h =
      let (_, _, (_, _, h', _)) = drain-Drained laws responds w h in
      omega
        (arith, pump_loop-waiting (drain db w).0 signals h', (drain-waiting laws responds w h).2)

  module _ (texts : TextLaws db) where
    pump_loop-IsSound :
        (w : World) (signals : List Signal)
        → IsSound db (tables w)
        → IsSound db (tables (pump_loop db w signals))
    unfolding pump_loop
    pump_loop-IsSound w [] h = h
    pump_loop-IsSound w (tick ∷ rest) h =
        pump_loop-IsSound (drain db w).0 rest (drain-IsSound laws texts w h)
    pump_loop-IsSound w (stop ∷ rest) h = drain-IsSound laws texts w h

    -- Delivery in the end, unless refused. For texts that read back, and a database on which no
    -- update fails and no context is cancelled, and that gives all rows of a query: start the pump
    -- on an outbox in which the ids are apart, the times are written as times are and can be read,
    -- and every row waits, and let it receive any signals. If there are at most 100 rows for each
    -- of its drains (one at the start, one at each tick until the stop, one at the stop), then for
    -- every row of the outbox, the event table has after them a row that is the event in every
    -- column, or the database has refused the insertion of that row.
    pub pump-delivers :
        (w : World) (signals : List Signal)
        → IsDrainable db (tables w).outbox
        → All (IsFormatted db) (tables w).outbox
        → All (λ r. r.processed ≡ false) (tables w).outbox
        → length (tables w).outbox ≤ 100 * suc (drains signals)
        → All
            (λ r. IsAttempted (tables (pump db w signals)) r.event)
            (tables (pump db w signals)).outbox
    unfolding pump
    pump-delivers w signals h formatted fresh few =
        let start : IsSound db (tables w) =
          ((h.0, formatted), All-inl (tables w) (tables w).outbox fresh) in
        let (_, settled) =
          pump_loop-IsSound (drain db w).0 signals (drain-IsSound laws texts w start) in
        let none_left : waiting (tables (pump db w signals)).outbox ≡ 0 =
          omega (arith, pump-waiting w signals h, few, waiting_le_length (tables w).outbox) in
        settled-IsAttempted (tables (pump db w signals)) _ none_left settled
