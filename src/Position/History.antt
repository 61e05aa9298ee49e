-- ===== src/Position/History.antt =====
-- When the commands of a position succeed, and what holds after any calls of them
-- (position_aggregate.go).
use kite_mcp_eventsourcing.Prelude.{
  ℕ, zero, suc, ◌+◌, ◌<◌, ◌^◌, String, ◌≡◌, ◌≢◌, ◌↔◌, refl, ap, List, map, length, length-map,
  Option, none, some, eq_iff, arith,
}
use kite_mcp_eventsourcing.Result.{on_error, return_if}
use kite_mcp_eventsourcing.Domain.{Domain}
use kite_mcp_eventsourcing.Event.{PositionEvent, position_event, position_opened, position_closed}
use kite_mcp_eventsourcing.Aggregate.{pending_events}
use kite_mcp_eventsourcing.Aggregate.Laws.{
  calls-Trace, pending-Trace, replay, replay-calls, walk, walk-Trace_inv,
}
use kite_mcp_eventsourcing.Position.{
  PositionStatus, opened, closed, PositionAggregate, new_position_aggregate, apply_fields, emit,
  clear_pending, open_position, close_position, can_close,
}
use kite_mcp_eventsourcing.Position.Root.{position_root, position_emitter}
use kite_mcp_eventsourcing.Position.Lifecycle.{
  Command, open_command, close_command, execute_position, execute_position-Called, IsLegal,
  run_position,
}

-- Where a position is in its life: nothing yet, or some event happened and it has a status.
abbrev pub stage_of : ℕ → PositionStatus → Option PositionStatus
stage_of zero s = none
stage_of (suc v) s = some s

-- The lifecycle as an automaton that reads events.
abbrev pub next_stage :
    {d : Domain} → Option PositionStatus → PositionEvent d → Option (Option PositionStatus)
next_stage none (position_opened e) = some (some opened)
next_stage none (position_closed e) = some (some closed)
next_stage (some opened) (position_closed e) = some (some closed)
next_stage _ _ = none

module _ {d : Domain} where
  open d use {new_quantity}

  -- what each command asks of the position and of its arguments
  abbrev pub IsAdmissible : PositionAggregate d → Command d → Type 0
  IsAdmissible p (open_command email symbol exchange kind qty price now) =
      (¬ ((0 < p.version) × (p.version < 2 ^ 63)))
      × (email ≢ "")
      × (symbol ≢ "")
      × ((new_quantity qty).1 ≡ none)
  IsAdmissible p (close_command order_id kind now) = p.status ≡ opened

  -- A command returns no error exactly if it is admissible: an opening on a position whose version
  -- is not a positive number, with an email, a symbol and a quantity that `NewQuantity` accepts; a
  -- closing of an open position.
  pub execute_position-IsAdmissible :
      (p : PositionAggregate d) (c : Command d)
      → ((execute_position p c).1 ≡ none) ↔ IsAdmissible p c
  unfolding execute_position open_position close_position can_close on_error return_if
  execute_position-IsAdmissible p (open_command email symbol exchange kind qty price now) =
      ground (arith, eq_iff symbol "", eq_iff email "")
  execute_position-IsAdmissible p (close_command order_id kind now) = ground arith

  -- `n` more events leave the version a positive number, and nothing happened to a position of
  -- version 0.
  abbrev IsYoung : ℕ → PositionAggregate d → Type 0
  IsYoung n p = (p.version + n < 2 ^ 63) × (p.version ≡ 0 → p.status ≡ opened)

  IsLegal-next_stage :
      (n : ℕ) (p : PositionAggregate d) (e : PositionEvent d)
      → IsYoung (suc n) p
      → IsLegal d p e
      → (next_stage (stage_of p.version p.status) e
          ≡ some (stage_of (emit p (position_event e)).version (emit p (position_event e)).status))
        × IsYoung n (emit p (position_event e))
  unfolding emit apply_fields
  IsLegal-next_stage n p (position_opened e) y l = ground arith
  IsLegal-next_stage n p (position_closed e) y l = ground arith

  -- After any calls on a new position that leave fewer than 2 ^ 63 events, the events pending are a
  -- run of the lifecycle that ends in its status: nothing, or an opening and then at most one
  -- closing, or a closing alone.
  pub walk-run_position :
      (id : String) (cs : List (Command d))
      → length (pending_events (run_position id cs).base) < 2 ^ 63
      → (es : List (PositionEvent d)) × (pending_events (run_position id cs).base
          ≡ map position_event es)
        × (walk next_stage (some none) es
            ≡ some (stage_of (run_position id cs).version (run_position id cs).status))
  unfolding new_position_aggregate pending_events
  walk-run_position id cs few =
      let (es, t) =
        calls-Trace (position_emitter d) execute_position execute_position-Called
          (new_position_aggregate d id) cs in
      let pending = pending-Trace (position_emitter d) t in
      (
        es,
        pending,
        walk-Trace_inv (position_emitter d) (λ p. stage_of p.version p.status) next_stage IsYoung
            IsLegal-next_stage t
            (omega (arith, ap length pending, length-map position_event es), λ _. refl),
      )

  -- The aggregate is what its pending events make of a new position: after any calls, replaying
  -- them from `NewPositionAggregate` gives the aggregate with nothing pending.
  pub replay-run_position :
      (id : String) (cs : List (Command d))
      → replay
          (position_root d)
          (new_position_aggregate d id)
          (pending_events (run_position id cs).base)
        ≡ clear_pending (run_position id cs)
  unfolding new_position_aggregate pending_events clear_pending
  replay-run_position id cs =
      replay-calls (position_emitter d) execute_position execute_position-Called
        (new_position_aggregate d id) cs refl
