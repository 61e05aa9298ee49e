-- ===== src/Tests/OutboxTests.antt =====
-- Runs of outbox.go over the sample database, and its theorems at concrete inputs.
use kite_mcp_eventsourcing.Prelude.{
  ◌++◌, map, some, ◌⊎◌, arith, ◌++◌, ◌-◌, ◌≡◌, refl, none, List, [], ◌∷◌, All, Memᴰ,
}
use kite_mcp_eventsourcing.Result.{on_error}
use kite_mcp_eventsourcing.Collections.{filtered}
use kite_mcp_eventsourcing.Database.{EventRow, OutboxRow}
use kite_mcp_eventsourcing.Database.Laws.{clashes, is_staged}
use kite_mcp_eventsourcing.Store.{to_row, with_id, append, scan_rows, scan_events}
use kite_mcp_eventsourcing.Outbox.{append_to_outbox, drain_rows, drain, tick, stop, pump_loop, pump}
use kite_mcp_eventsourcing.Outbox.Settled.{IsAttempted, IsSettled}
use kite_mcp_eventsourcing.Outbox.History.{drain_call, append_call, outbox_call, step, run}
use kite_mcp_eventsourcing.Outbox.Histories.{append_to_outbox-IsSettled}
use kite_mcp_eventsourcing.Outbox.Waiting.{waiting}
use kite_mcp_eventsourcing.Outbox.Progress.{drain-waiting}
use kite_mcp_eventsourcing.Outbox.Pump.{pump-delivers}
use kite_mcp_eventsourcing.Outbox.Goroutines.{
  close, new_outbox_pump, signal_stop, ended, Action, start, last_drain, close_done, stop_call,
  stop_return, receive, other_call, System, launched, drained, round, finish, begin_stop,
  await_done, act, acts,
}
use kite_mcp_eventsourcing.Outbox.Shutdown.{IsShutDown, acts-IsShutDown}
use kite_mcp_eventsourcing.Tests.{sample}
use kite_mcp_eventsourcing.Tests.SampleCollections.{sample_collections}
use kite_mcp_eventsourcing.Tests.SampleDatabase.{Disk, tables_of, sample_db}
use kite_mcp_eventsourcing.Tests.SampleLaws.{sample_db_laws, sample_texts, sample_responds}
use kite_mcp_eventsourcing.Tests.StoreTests.{blank, first, second}

program : Unit {0}
unfolding append with_id on_error clashes is_staged filtered scan_rows scan_events step
    append_to_outbox drain_rows drain pump_loop pump close new_outbox_pump signal_stop launched
    drained round finish begin_stop await_done act acts sample_collections
program = tt

abbrev both_staged : Disk
both_staged = run sample_db blank (outbox_call first ∷ outbox_call second ∷ [])

-- Two events are staged, and one drain moves both.
drain_result :
    ((drain sample_db both_staged).1 ≡ 2)
    × ((drain sample_db both_staged).2 ≡ none)
    × (waiting (drain sample_db both_staged).0.outbox ≡ 0)
unfolding program
drain_result = (refl, refl, refl)

drain-waiting_example :
    ((drain sample_db both_staged).2 ≡ none)
    × ((drain sample_db both_staged).1
        ≡ waiting both_staged.outbox - (waiting both_staged.outbox - 100))
    × (waiting (drain sample_db both_staged).0.outbox ≡ waiting both_staged.outbox - 100)
unfolding program
drain-waiting_example =
    drain-waiting sample_db_laws sample_responds both_staged
      ((refl, (refl, tt)), ((1, refl), ((2, refl), tt)))

pump-delivers_example :
    All
      (λ (r : OutboxRow).
        IsAttempted (tables_of (pump sample_db both_staged (tick ∷ stop ∷ tick ∷ []))) r.event)
      (pump sample_db both_staged (tick ∷ stop ∷ tick ∷ [])).outbox
unfolding program
pump-delivers_example =
    pump-delivers sample_db_laws sample_responds sample_texts both_staged (tick ∷ stop ∷ tick ∷ [])
      ((refl, (refl, tt)), ((1, refl), ((2, refl), tt))) ((1, refl), ((2, refl), tt))
      (refl, (refl, tt)) (omega arith)

append_to_outbox-IsSettled_example :
    let t = tables_of (
      run sample_db
        (append_to_outbox sample_db (run sample_db blank (append_call (first ∷ []) ∷ [])) second).0
        (drain_call ∷ [])) in
    (r : OutboxRow) × Memᴰ r t.outbox
    × (r.event
        ≡ to_row sample_db
            (with_id sample_db (run sample_db blank (append_call (first ∷ []) ∷ [])) second).1)
    × IsSettled t r
unfolding program
append_to_outbox-IsSettled_example =
    append_to_outbox-IsSettled sample_db_laws sample_texts blank (append_call (first ∷ []) ∷ [])
      (drain_call ∷ []) second refl refl

-- Another caller stages an event before the pump's first drain; two callers stop the pump.
abbrev opening : List (Action sample)
opening = start ∷ other_call (outbox_call first) ∷ []

abbrev shutdown : List (Action sample)
shutdown =
    stop_return
    ∷ receive stop
    ∷ stop_call
    ∷ receive tick
    ∷ close_done
    ∷ last_drain
    ∷ close_done
    ∷ stop_return
    ∷ []

shutdown_result :
    elim (acts sample_db (launched sample_db blank) (opening ++ stop_call ∷ shutdown))
      as (λ _. Type 0) [
        | none ↦ ⊥
        | some s ↦
            (s.phase ≡ ended) × (s.waiting ≡ 1) × (s.returned ≡ 1) × (waiting s.world.outbox ≡ 0)
      ]
unfolding program
shutdown_result = (refl, refl, refl, refl)

acts-IsShutDown_example :
    (before s : System sample_db) × (acts sample_db (launched sample_db blank) opening
      ≡ some before)
    × (acts sample_db before (stop_call ∷ shutdown) ≡ some s)
    × ((s.returned ≡ 0)
        ⊎ IsShutDown sample_db before s (receive tick ∷ other_call (outbox_call second) ∷ []))
acts-IsShutDown_example =
    acts-IsShutDown sample_db blank opening shutdown
      (receive tick ∷ other_call (outbox_call second) ∷ [])

-- the event table has an event of the same aggregate and sequence under another id
abbrev taken : Disk
taken =
    run sample_db blank
      (append_call (record first { id = "e9" } ∷ []) ∷ outbox_call first ∷ drain_call ∷ [])

-- A drain drops such an event and marks it processed: the database has refused it.
taken_result :
    (waiting taken.outbox ≡ 0)
    × (map (λ (r : EventRow). r.id) taken.events ≡ "e9" ∷ [])
    × (map (λ (r : EventRow). r.id) taken.refused ≡ "e1" ∷ [])
unfolding program
taken_result = (refl, refl, refl)
